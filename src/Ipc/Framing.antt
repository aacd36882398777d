-- ===== src/Ipc/Framing.antt =====
-- The reading loops of `Daemon::handle_client_connection` (daemon/daemon.cpp) and
-- `IpcClient::send_request` (greeter/ipc_client.cpp). What the calls of `read` deliver, until one
-- returns no byte, is a list of chunks.
use mathlib.Core.List.{append-nil, append_assoc}
use miqudm.Prelude.{
  ℕ, ◌≡◌, refl, false, not, List, [], ◌∷◌, ◌++◌, Option, none, some, Text, split_first, is_empty,
  c_str, if◌then◌else◌, arith, All, Option-cases, inl, inr, has,
}

-- The daemon's loop: the first line, if one arrives. `accumulated += buffer` takes the buffer as a C
-- string.
unfoldable pub read_request : Text → List Text → Option Text
unfolding c_str
read_request accumulated [] = none
read_request accumulated (buffer ∷ rest) =
    let accumulated' = accumulated ++ c_str buffer in
    let more = read_request accumulated' rest in
    elim (split_first b'\n' accumulated') [ some (line, _) ↦ some line | none ↦ more ]

-- The client's loop: the first line, or what arrived if that is not empty.
unfoldable pub read_response : Text → List Text → Option Text
unfolding c_str
read_response response_raw [] = if not (is_empty response_raw) then some response_raw else none
read_response response_raw (buffer ∷ rest) =
    let response_raw' = response_raw ++ c_str buffer in
    let more = read_response response_raw' rest in
    elim (split_first b'\n' response_raw') [ some (line, _) ↦ some line | none ↦ more ]

abbrev pub join : List Text → Text
join [] = []
join (s ∷ ss) = s ++ join ss

-- What stands before the first newline.
abbrev pub first_line : Text → Option Text
first_line s = elim (split_first b'\n' s) [ none ↦ none | some (line, _) ↦ some line ]

abbrev pub or_rest : Text → Option Text
or_rest s = elim (split_first b'\n' s) [
  | some (line, _) ↦ some line
  | none ↦ if not (is_empty s) then some s else none
]

c_str_lem : (s : Text) → has 0 s ≡ false → c_str s ≡ s
unfolding c_str has
c_str_lem [] h = refl
c_str_lem (b ∷ s) h = ground (arith, c_str_lem s)

split_first-found :
    (c : ℕ) (s t : Text) {l r : Text}
    → split_first c s ≡ some (l, r)
    → split_first c (s ++ t) ≡ some (l, r ++ t)
unfolding split_first
split_first-found c [] t e = ground arith
split_first-found c (b ∷ s) t {l} {r} e = elim (Option-cases (split_first c s)) [
  | inl none_left ↦ ground arith
  | inr ((l', r'), found) ↦ ground (arith, split_first-found c s t found)
]

first_line-found :
    (s t : Text) {l r : Text} → split_first b'\n' s ≡ some (l, r) → first_line (s ++ t) ≡ some l
first_line-found s t e = ground (arith, split_first-found b'\n' s t e)

or_rest-found :
    (s t : Text) {l r : Text} → split_first b'\n' s ≡ some (l, r) → or_rest (s ++ t) ≡ some l
or_rest-found s t e = ground (arith, split_first-found b'\n' s t e)

-- The daemon takes the first line of all that the client sends, however it arrives in pieces, if no
-- piece holds a zero byte and what was read before holds no newline.
pub read_request-first_line :
    (chunks : List Text) (accumulated : Text)
    → All (λ s. has 0 s ≡ false) chunks
    → split_first b'\n' accumulated ≡ none
    → read_request accumulated chunks ≡ first_line (accumulated ++ join chunks)
unfolding read_request
read_request-first_line [] acc a e = ground (arith, append-nil acc)
read_request-first_line (s ∷ rest) acc a e =
    rw (← append_assoc acc s (join rest)) (elim (Option-cases (split_first b'\n' (acc ++ s))) [
      | inl more ↦ ground (arith, c_str_lem s a.0, read_request-first_line rest (acc ++ s) a.1 more)
      | inr ((line, after), found) ↦
          ground (arith, c_str_lem s a.0, first_line-found (acc ++ s) (join rest) found)
    ])

-- So does the client, which also takes an unfinished line that is not empty.
pub read_response-or_rest :
    (chunks : List Text) (response_raw : Text)
    → All (λ s. has 0 s ≡ false) chunks
    → split_first b'\n' response_raw ≡ none
    → read_response response_raw chunks ≡ or_rest (response_raw ++ join chunks)
unfolding read_response
read_response-or_rest [] acc a e = ground (arith, append-nil acc)
read_response-or_rest (s ∷ rest) acc a e =
    rw (← append_assoc acc s (join rest)) (elim (Option-cases (split_first b'\n' (acc ++ s))) [
      | inl more ↦ ground (arith, c_str_lem s a.0, read_response-or_rest rest (acc ++ s) a.1 more)
      | inr ((line, after), found) ↦
          ground (arith, c_str_lem s a.0, or_rest-found (acc ++ s) (join rest) found)
    ])

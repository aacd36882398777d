-- ===== src/Daemon/Login/Sessions.antt =====
-- Which session `handle_login_request` of daemon/daemon.cpp launches.
use miqudm.Prelude.{
  ℕ, ◌≡◌, ◌≢◌, ◌⊎◌, true, false, List, [], ◌∷◌, ◌++◌, some, text_eq_iff, find_if, find_if-alone,
  All, get_elem?, arith,
}
use miqudm.Sessions.{SessionInfo}
use miqudm.Ipc.{IpcMessage}
use miqudm.Daemon.Login.{matches, find_session}

-- A session that answers to a request.
abbrev pub IsLike : IpcMessage → SessionInfo → Type 0
IsLike req r =
    (r.id ≡ req.desktop_name) ⊎ ((r.name ≡ req.desktop_name) ⊎ (r.exec ≡ req.session_exec))

-- A session that does not.
abbrev pub IsUnlike : IpcMessage → SessionInfo → Type 0
IsUnlike req r =
    (r.id ≢ req.desktop_name) × ((r.name ≢ req.desktop_name) × (r.exec ≢ req.session_exec))

matches-IsLike : (req : IpcMessage) (r : SessionInfo) → IsLike req r → matches req r ≡ true
unfolding matches
matches-IsLike req r h = ground (
  arith,
  text_eq_iff r.id req.desktop_name,
  text_eq_iff r.name req.desktop_name,
  text_eq_iff r.exec req.session_exec,
)

matches-true : (req : IpcMessage) (r : SessionInfo) → matches req r ≡ true → IsLike req r
unfolding matches
matches-true req r h = ground (
  arith,
  text_eq_iff r.id req.desktop_name,
  text_eq_iff r.name req.desktop_name,
  text_eq_iff r.exec req.session_exec,
)

matches-IsUnlike : (req : IpcMessage) (r : SessionInfo) → IsUnlike req r → matches req r ≡ false
unfolding matches
matches-IsUnlike req r h = ground (
  arith,
  text_eq_iff r.id req.desktop_name,
  text_eq_iff r.name req.desktop_name,
  text_eq_iff r.exec req.session_exec,
)

-- The session that is launched is the first cached one whose id or name is the one that the request
-- names, or whose command is: so a session with the same command that is listed earlier is launched in
-- place of the one that was chosen.
pub find_session-first :
    (req : IpcMessage) (earlier later : List SessionInfo) (r : SessionInfo)
    → All (IsUnlike req) earlier
    → IsLike req r
    → find_session req (earlier ++ r ∷ later) ≡ r
unfolding find_session find_if
find_session-first req [] later r unlike like = let e = matches-IsLike req r like in ground arith
find_session-first req (s ∷ earlier) later r (u, unlike) like =
    let e = matches-IsUnlike req s u in
    let rest = find_session-first req earlier later r unlike like in ground arith

-- A session of the list that alone answers to the request is the one that is launched.
pub find_session-chosen :
    (req : IpcMessage) (sessions : List SessionInfo) (k : ℕ) (s : SessionInfo)
    → get_elem? sessions k ≡ some s
    → IsLike req s
    → ((i : ℕ) (r : SessionInfo) → get_elem? sessions i ≡ some r → IsLike req r → r ≡ s)
    → find_session req sessions ≡ s
unfolding find_session
find_session-chosen req sessions k s at_k like alone =
    let found =
      find_if-alone (matches req) sessions k s at_k (matches-IsLike req s like)
        (λ i r at_i m. alone i r at_i (matches-true req r m)) in
    ground arith

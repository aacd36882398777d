-- ===== src/Prelude/Strings.antt =====
-- Byte strings: `std::string` with the members that the sources call. Models no code of its own.
use Prim.Native.Nat.{ℕ}
use Prim.Native.Char.{code}
use Prim.Native.String.{String}
use mathlib.Core.Path.{◌≡◌, refl}
use mathlib.Core.Logic.{◌↔◌}
use mathlib.Core.Bool.{Bool, true, false, ◌&&◌, ◌||◌}
use mathlib.Core.List.{List, [], ◌∷◌, ◌++◌}
use mathlib.Core.Option.{Option, none, some}
use native.Mathlib.Omega.{arith}
use miqudm.Prelude.Tests.{◌==◌, if◌then◌else◌}

-- The bytes of a `std::string`.
abbrev pub Text : Type 0
Text = List ℕ

-- The bytes of an ASCII literal.
abbrev pub codes : String → Text
codes String.[] = []
codes (String.◌∷◌ c s) = code c ∷ codes s

-- `a == b` on strings.
unfoldable pub text_eq : Text → Text → Bool
text_eq [] [] = true
text_eq (a ∷ s) (b ∷ t) = a == b && text_eq s t
text_eq _ _ = false

pub text_eq_iff : (s t : Text) → (text_eq s t ≡ true) ↔ (s ≡ t)
unfolding text_eq
text_eq_iff (a ∷ s) (b ∷ t) = ground (arith, text_eq_iff s t)
text_eq_iff _ _ = ground arith

pub text_eq_refl : (s : Text) → text_eq s s ≡ true
text_eq_refl s = (text_eq_iff s s).1 refl

-- A text that is taken as a C string, as by `c_str()`: up to its first zero byte.
unfoldable pub c_str : Text → Text
c_str [] = []
c_str (b ∷ s) = if b == 0 then [] else b ∷ c_str s

-- Whether a byte occurs.
unfoldable pub has : ℕ → Text → Bool
has c [] = false
has c (b ∷ s) = b == c || has c s

pub has-append : (c : ℕ) (s t : Text) → has c (s ++ t) ≡ (has c s || has c t)
unfolding has
has-append c [] t = refl
has-append c (b ∷ s) t = ground (arith, has-append c s t)

abbrev pub cons_left : ℕ → Option (Text × Text) → Option (Text × Text)
cons_left b none = none
cons_left b (some (s, t)) = some (b ∷ s, t)

-- `auto p = s.find(c)`, with `s.substr(0, p)` and `s.substr(p + 1)` where `c` is found.
unfoldable pub split_first : ℕ → Text → Option (Text × Text)
split_first c [] = none
split_first c (b ∷ s) = if b == c then some ([], s) else cons_left b (split_first c s)

pub split_first-append :
    (c : ℕ) (s t : Text) → has c s ≡ false → split_first c (s ++ c ∷ t) ≡ some (s, t)
unfolding split_first has
split_first-append c [] t h = ground arith
split_first-append c (b ∷ s) t h = ground (arith, split_first-append c s t)

pub split_first-none : (c : ℕ) (s : Text) → has c s ≡ false → split_first c s ≡ none
unfolding split_first has
split_first-none c [] h = refl
split_first-none c (b ∷ s) h = ground (arith, split_first-none c s)

abbrev pub cons_head : ℕ → List Text → List Text
cons_head b [] = (b ∷ []) ∷ []
cons_head b (l ∷ ls) = (b ∷ l) ∷ ls

-- What the calls of `std::getline` deliver; an empty rest behind the last newline is no line.
unfoldable pub lines : Text → List Text
lines [] = []
lines (b ∷ s) = let rest = lines s in if b == b'\n' then [] ∷ rest else cons_head b rest

pub lines-append :
    (l rest : Text) → has b'\n' l ≡ false → lines (l ++ b'\n' ∷ rest) ≡ l ∷ lines rest
unfolding lines has
lines-append [] rest h = refl
lines-append (b ∷ l) rest h = ground (arith, lines-append l rest)

pub setting-one_line :
    (k v : Text) → has b'\n' k ≡ false → has b'\n' v ≡ false → has b'\n' (k ++ b'=' ∷ v) ≡ false
unfolding has
setting-one_line k v h e = rw (has-append b'\n' k (b'=' ∷ v), h) e

-- Whether a text begins with another.
unfoldable pub starts_with : Text → Text → Bool
starts_with [] s = true
starts_with (a ∷ p) [] = false
starts_with (a ∷ p) (b ∷ s) = a == b && starts_with p s

-- `s.find(p) != std::string::npos`.
unfoldable pub contains : Text → Text → Bool
unfolding starts_with
contains p [] = starts_with p []
contains p (b ∷ s) = starts_with p (b ∷ s) || contains p s

-- What stands before and behind the last `c`.
unfoldable pub split_last : ℕ → Text → Option (Text × Text)
split_last c [] = none
split_last c (b ∷ s) = elim (split_last c s) [
  | some (l, r) ↦ some (b ∷ l, r)
  | none ↦ if b == c then some ([], s) else none
]

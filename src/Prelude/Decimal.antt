-- ===== src/Prelude/Decimal.antt =====
-- Decimal text: `std::to_string` and the stream's `<<` on an `int`, and `std::stoi`.
use Prim.Native.Nat.{ℕ, zero, suc, ◌+◌, ◌-◌, ◌*◌, ◌/◌, ◌%◌, ◌^◌, ◌<◌}
use mathlib.Core.Path.{◌≡◌, refl, ap, ◌∙◌}
use mathlib.Core.Logic.{◌≢◌, inl, inr}
use mathlib.Core.Bool.{Bool, true, false, ◌&&◌, ◌||◌}
use mathlib.Core.List.{[], ◌∷◌, ◌++◌, append_assoc, append-nil}
use mathlib.Core.Option.{Option, none, some}
use native.Mathlib.Nat.{pow-suc}
use native.Mathlib.Omega.{arith}
use miqudm.Prelude.Tests.{ltb, leb, ◌==◌, if◌then◌else◌, Bool-cases}
use miqudm.Prelude.Strings.{Text, has}
use miqudm.Prelude.Int.{ℤ, pos, negsuc, IsInt}

-- The digits of a number below 10 ^ f.
unfoldable pub digits : ℕ → ℕ → Text
digits zero n = []
digits (suc f) n =
    let front = digits f (n / 10) in
    if ltb n 10 then (b'0' + n) ∷ [] else front ++ (b'0' + n % 10) ∷ []

-- Ten digits are enough for every 32-bit `int`.
unfoldable pub to_text : ℤ → Text
to_text (pos n) = digits 10 n
to_text (negsuc n) = b'-' ∷ digits 10 (n + 1)

-- Decimal text of an unsigned 32-bit number.
unfoldable pub nat_to_text : ℕ → Text
nat_to_text n = digits 10 n

unfoldable pub is_digit : ℕ → Bool
is_digit c = leb b'0' c && leb c b'9'

-- `isspace` in the C locale.
unfoldable pub is_space : ℕ → Bool
is_space c = c == b' ' || (leb 9 c && leb c 13)

-- The digits at the front, behind those that make `n`.
unfoldable pub read_digits : Text → ℕ → ℕ
unfolding is_digit
read_digits [] n = n
read_digits (c ∷ s) n =
    let rest = read_digits s (n * 10 + (c - b'0')) in if is_digit c then rest else n

unfoldable pub starts_with_digit : Text → Bool
unfolding is_digit
starts_with_digit [] = false
starts_with_digit (c ∷ s) = is_digit c

unfoldable pub skip_space : Text → Text
unfolding is_space
skip_space [] = []
skip_space (c ∷ s) = let rest = skip_space s in if is_space c then rest else c ∷ s

-- -n.
abbrev negated : ℕ → ℤ
negated zero = pos 0
negated (suc n) = negsuc n

read_positive : Text → Option ℤ
unfolding starts_with_digit
read_positive s =
    let n = read_digits s 0 in
    if starts_with_digit s && leb n 2147483647 then some (pos n) else none

read_negative : Text → Option ℤ
unfolding starts_with_digit
read_negative s =
    let n = read_digits s 0 in
    if starts_with_digit s && leb n 2147483648 then some (negated n) else none

read_signed : Text → Option ℤ
unfolding read_positive read_negative
read_signed [] = none
read_signed (c ∷ s) =
    if c == b'-'
    then read_negative s
    else if c == b'+'
    then read_positive s
    else read_positive (c ∷ s)

-- `std::stoi`; `none` is the exception `invalid_argument` or `out_of_range`.
unfoldable pub stoi : Text → Option ℤ
unfolding read_signed skip_space
stoi s = read_signed (skip_space s)

read_positive-IsInt : (s : Text) {n : ℤ} → read_positive s ≡ some n → IsInt n
unfolding read_positive
read_positive-IsInt s {n = pos k} h = ground arith
read_positive-IsInt s {n = negsuc k} h = ground arith

negated-IsInt : (k : ℕ) → k < 2147483649 → IsInt (negated k)
negated-IsInt zero h = omega arith
negated-IsInt (suc k) h = omega arith

read_negative-IsInt : (s : Text) {n : ℤ} → read_negative s ≡ some n → IsInt n
unfolding read_negative
read_negative-IsInt s {n} h = ground (arith, negated-IsInt (read_digits s 0))

read_signed-IsInt : (s : Text) {n : ℤ} → read_signed s ≡ some n → IsInt n
unfolding read_signed
read_signed-IsInt [] h = ground arith
read_signed-IsInt (c ∷ s) {n} h = ground (
  arith,
  read_negative-IsInt s {n = n},
  read_positive-IsInt s {n = n},
  read_positive-IsInt (c ∷ s) {n = n},
)

-- Only numbers in the range of `int` are returned.
pub stoi-IsInt : (s : Text) {n : ℤ} → stoi s ≡ some n → IsInt n
unfolding stoi
stoi-IsInt s h = read_signed-IsInt (skip_space s) h

read_digits-cons :
    (d a : ℕ) (rest : Text)
    → d < 10
    → read_digits ((b'0' + d) ∷ rest) a ≡ read_digits rest (a * 10 + d)
unfolding read_digits
read_digits-cons d a rest h = ground arith

read_digits-digits :
    (f n : ℕ) (rest : Text) → n < 10 ^ f → read_digits (digits f n ++ rest) 0 ≡ read_digits rest n
unfolding digits
read_digits-digits zero n rest h = ground arith
read_digits-digits (suc f) n rest h = elim (Bool-cases (ltb n 10)) [
  | inl one ↦ rw one (ground (arith, read_digits-cons n 0 rest))
  | inr more ↦
      rw (more, append_assoc)
        (read_digits-digits f (n / 10) ((b'0' + n % 10) ∷ rest) (omega (arith, pow-suc 10 f))
          ∙ read_digits-cons (n % 10) (n / 10) rest (omega arith)
          ∙ ap (read_digits rest) (omega arith))
]

abbrev pub IsDigits : Text → Type 0
IsDigits [] = Unit
IsDigits (c ∷ s) = (is_digit c ≡ true) × IsDigits s

IsDigits-append : (s t : Text) → IsDigits s → IsDigits t → IsDigits (s ++ t)
IsDigits-append [] t h k = k
IsDigits-append (c ∷ s) t h k = (h.0, IsDigits-append s t h.1 k)

-- Digits only.
pub digits-IsDigits : (f n : ℕ) → IsDigits (digits f n)
unfolding digits is_digit
digits-IsDigits zero n = tt
digits-IsDigits (suc f) n = elim (Bool-cases (ltb n 10)) [
  | inl one ↦ rw one (ground arith, tt)
  | inr more ↦
      rw more
        (IsDigits-append (digits f (n / 10)) _ (digits-IsDigits f (n / 10)) (ground arith, tt))
]

append-ne-nil : (s : Text) (c : ℕ) → (s ++ c ∷ []) ≢ []
append-ne-nil [] c h = cc
append-ne-nil (b ∷ s) c h = cc

pub digits-ne-nil : (f n : ℕ) → digits (suc f) n ≢ []
unfolding digits
digits-ne-nil f n = elim (Bool-cases (ltb n 10)) [
  | inl one ↦ rw one (λ h. cc)
  | inr more ↦ rw more (append-ne-nil (digits f (n / 10)) _)
]

read_digits_all : (n : ℕ) → n < 10000000000 → read_digits (digits 10 n) 0 ≡ n
unfolding read_digits
read_digits_all n h = rw (← append-nil (digits 10 n)) (read_digits-digits 10 n [] (omega arith))

stoi_positive :
    (s : Text) (n : ℕ)
    → IsDigits s
    → s ≢ []
    → n < 2147483648
    → read_digits s 0 ≡ n
    → stoi s ≡ some (pos n)
unfolding stoi is_digit
stoi_positive [] n d e h v = absurd (e refl)
stoi_positive (c ∷ s) n d e h v = ground arith

stoi_negative :
    (s : Text) (n : ℕ)
    → IsDigits s
    → s ≢ []
    → n < 2147483648
    → read_digits s 0 ≡ suc n
    → stoi (b'-' ∷ s) ≡ some (negsuc n)
unfolding stoi is_digit
stoi_negative [] n d e h v = absurd (e refl)
stoi_negative (c ∷ s) n d e h v = rw v (ground arith)

-- Printing an `int` and reading it gives the `int` back.
pub stoi-to_text : (n : ℤ) → IsInt n → stoi (to_text n) ≡ some n
unfolding to_text
stoi-to_text (pos n) h =
    stoi_positive (digits 10 n) n (digits-IsDigits 10 n) (digits-ne-nil 9 n) h
      (read_digits_all n (omega arith))
stoi-to_text (negsuc n) h =
    stoi_negative (digits 10 (n + 1)) n (digits-IsDigits 10 (n + 1)) (digits-ne-nil 9 (n + 1)) h
      (read_digits_all (n + 1) (omega arith) ∙ omega arith)

pub IsDigits-has : (c : ℕ) (s : Text) → is_digit c ≡ false → IsDigits s → has c s ≡ false
unfolding has is_digit
IsDigits-has c [] h d = refl
IsDigits-has c (b ∷ s) h d = ground (arith, IsDigits-has c s)

-- The text of an `int` holds no byte but digits and the sign.
pub has-to_text : (c : ℕ) (n : ℤ) → is_digit c ≡ false → c ≢ b'-' → has c (to_text n) ≡ false
unfolding to_text has
has-to_text c (pos n) h e = IsDigits-has c _ h (digits-IsDigits 10 n)
has-to_text c (negsuc n) h e = ground (arith, IsDigits-has c _ h (digits-IsDigits 10 (n + 1)))

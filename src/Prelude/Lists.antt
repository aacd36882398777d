-- ===== src/Prelude/Lists.antt =====
-- Lists measured by native numbers, under the library's names. Models no code of its own.
use Prim.Native.Nat.{ℕ, zero, suc, ◌+◌, ◌<◌}
use mathlib.Core.Path.{◌≡◌, refl, subst, sym}
use mathlib.Core.List.{List, [], ◌∷◌, ◌++◌}
use mathlib.Core.Option.{Option, none, some}
use mathlib.Core.Bool.{Bool, true, false}
use native.Mathlib.Omega.{arith}
use mathlib.Core.Logic.{inl, inr}
use miqudm.Prelude.Tests.{if◌then◌else◌, Bool-cases}

module _ {ℓ} {A : Type ℓ} where
  abbrev pub length : List A → ℕ
  length [] = 0
  length (x ∷ xs) = suc (length xs)

  abbrev pub get_elem? : List A → ℕ → Option A
  get_elem? [] i = none
  get_elem? (x ∷ xs) zero = some x
  get_elem? (x ∷ xs) (suc i) = get_elem? xs i

  -- `std::vector::empty`, `std::string::empty`.
  abbrev pub is_empty : List A → Bool
  is_empty [] = true
  is_empty (x ∷ xs) = false

  -- `std::find_if`.
  unfoldable pub find_if : (A → Bool) → List A → Option A
  find_if p [] = none
  find_if p (x ∷ xs) = if p x then some x else find_if p xs

module _ {ℓ κ} {A : Type ℓ} where
  abbrev pub All : (A → Type κ) → List A → Type κ
  All P [] = Unit
  All P (x ∷ xs) = P x × All P xs

  pub All-append : (P : A → Type κ) (xs ys : List A) → All P xs → All P ys → All P (xs ++ ys)
  All-append P [] ys h k = k
  All-append P (x ∷ xs) ys h k = (h.0, All-append P xs ys h.1 k)

module _ {ℓ} {A : Type ℓ} where
  pub length-append : (xs ys : List A) → length (xs ++ ys) ≡ length xs + length ys
  length-append [] ys = omega arith
  length-append (x ∷ xs) ys = omega (arith, length-append xs ys)

  pub get_elem?-in_range :
      (xs : List A) (i : ℕ) → i < length xs → (x : A) × (get_elem? xs i ≡ some x)
  get_elem?-in_range [] i h = elim h [ ]
  get_elem?-in_range (x ∷ xs) zero h = (x, refl)
  get_elem?-in_range (x ∷ xs) (suc i) h = get_elem?-in_range xs i (omega arith)

  abbrev holds : (A → Bool) → Option A → Bool
  holds p none = false
  holds p (some x) = p x

  -- An item that alone passes the test is the one that is found.
  pub find_if-alone :
      (p : A → Bool) (xs : List A) (k : ℕ) (x : A)
      → get_elem? xs k ≡ some x
      → p x ≡ true
      → ((i : ℕ) (y : A) → get_elem? xs i ≡ some y → p y ≡ true → y ≡ x)
      → find_if p xs ≡ some x
  unfolding find_if
  find_if-alone p [] k x at_k passes alone = ground arith
  find_if-alone p (y ∷ rest) zero x at_k passes alone =
      rw (subst (λ o. holds p o ≡ true) (sym at_k) passes) at_k
  find_if-alone p (y ∷ rest) (suc k) x at_k passes alone = elim (Bool-cases (p y)) [
    | inl found ↦ let same = alone 0 y refl found in ground arith
    | inr other ↦
        let same = find_if-alone p rest k x at_k passes (λ i. alone (suc i)) in ground arith
  ]

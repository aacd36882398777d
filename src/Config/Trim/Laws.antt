-- ===== src/Config/Trim/Laws.antt =====
-- Laws of `trim`, common/config.cpp.
use miqudm.Prelude.{
  ℕ, false, ◌&&◌, [], ◌∷◌, ◌++◌, ◌≡◌, ◌≢◌, inl, inr, refl, ◌∙◌, ap, arith, is_empty, Bool-cases,
  Text, has, All,
}
use miqudm.Config.Trim.{is_blank, trim_start, trim_end, trim}

trim_end_idem : (s : Text) → trim_end (trim_end s) ≡ trim_end s
unfolding trim_end
trim_end_idem [] = refl
trim_end_idem (c ∷ s) = elim (Bool-cases (is_blank c && is_empty (trim_end s))) [
  | inl drop ↦ rw drop
  | inr keep ↦ rw keep (rw (trim_end_idem s) (rw keep))
]

-- A text begins with no blank.
abbrev pub StartsClean : Text → Type 0
StartsClean [] = Unit
StartsClean (c ∷ s) = is_blank c ≡ false

trim_start-StartsClean : (s : Text) → StartsClean (trim_start s)
unfolding trim_start
trim_start-StartsClean [] = tt
trim_start-StartsClean (c ∷ s) = ground (arith, trim_start-StartsClean s)

trim_end-StartsClean : (s : Text) → StartsClean s → StartsClean (trim_end s)
unfolding trim_end
trim_end-StartsClean [] h = tt
trim_end-StartsClean (c ∷ s) h = ground arith

trim_start_clean : (s : Text) → StartsClean s → trim_start s ≡ s
unfolding trim_start
trim_start_clean [] h = refl
trim_start_clean (c ∷ s) h = ground arith

trim_end_solid : (s : Text) → All (λ c. is_blank c ≡ false) s → trim_end s ≡ s
unfolding trim_end
trim_end_solid [] a = refl
trim_end_solid (c ∷ s) a = ground (arith, trim_end_solid s a.1)

-- Trimming twice is trimming once.
pub trim_idem : (s : Text) → trim (trim s) ≡ trim s
unfolding trim
trim_idem s =
    ap trim_end (trim_start_clean _ (trim_end-StartsClean _ (trim_start-StartsClean s)))
    ∙ trim_end_idem (trim_start s)

-- A trimmed text begins with no blank.
pub trim-StartsClean : (s : Text) → StartsClean (trim s)
unfolding trim
trim-StartsClean s = trim_end-StartsClean _ (trim_start-StartsClean s)

is_empty-append : (s t : Text) → t ≢ [] → is_empty (s ++ t) ≡ false
is_empty-append [] [] h = absurd (h refl)
is_empty-append [] (c ∷ t) h = refl
is_empty-append (b ∷ s) t h = refl

trim_end-append : (s t : Text) → trim_end t ≡ t → t ≢ [] → trim_end (s ++ t) ≡ s ++ t
unfolding trim_end
trim_end-append [] t h ne = h
trim_end-append (c ∷ s) t h ne =
    rw (trim_end-append s t h ne) (ground (arith, is_empty-append s t ne))

has-trim_start : (c : ℕ) (s : Text) → has c s ≡ false → has c (trim_start s) ≡ false
unfolding trim_start has
has-trim_start c [] h = refl
has-trim_start c (b ∷ s) h = ground (arith, has-trim_start c s)

has-trim_end : (c : ℕ) (s : Text) → has c s ≡ false → has c (trim_end s) ≡ false
unfolding trim_end has
has-trim_end c [] h = refl
has-trim_end c (b ∷ s) h = ground (arith, has-trim_end c s)

-- Trimming brings no new byte.
pub has-trim : (c : ℕ) (s : Text) → has c s ≡ false → has c (trim s) ≡ false
unfolding trim
has-trim c s h = has-trim_end c _ (has-trim_start c s h)

trim_end-of-trim : (s : Text) → trim s ≡ s → trim_end s ≡ s
unfolding trim
trim_end-of-trim s e = rw (← e) (trim_end_idem (trim_start s))

trim_end_setting : (v : Text) → trim v ≡ v → trim_end (b'=' ∷ v) ≡ b'=' ∷ v
unfolding trim_end
trim_end_setting v e = ap (◌∷◌ b'=') (trim_end-of-trim v e)

-- A setting `key=value` with a clean key and a trimmed value loses nothing.
pub trim_setting :
    (k v : Text) → StartsClean (k ++ b'=' ∷ v) → trim v ≡ v → trim (k ++ b'=' ∷ v) ≡ k ++ b'=' ∷ v
unfolding trim
trim_setting k v h e =
    ap trim_end (trim_start_clean _ h)
    ∙ trim_end-append k (b'=' ∷ v) (trim_end_setting v e) (λ x. cc)

-- A text with no blank is its own trimmed text.
pub trim_solid : (s : Text) → All (λ c. is_blank c ≡ false) s → trim s ≡ s
unfolding trim
trim_solid [] a = refl
trim_solid (c ∷ s) a = ap trim_end (trim_start_clean (c ∷ s) a.0) ∙ trim_end_solid (c ∷ s) a

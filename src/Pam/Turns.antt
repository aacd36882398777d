-- ===== src/Pam/Turns.antt =====
-- Several `PamAuth` objects in one process: what a piece of the program that uses one of them does to
-- the handles of the others (daemon/pam_auth.cpp).
use miqudm.Prelude.{
  ℕ, ◌<◌, ◌≤◌, ◌≡◌, ◌≢◌, ◌⊎◌, inl, inr, refl, Bool, true, false, ◌∷◌, ◌∙◌, sym, ap, arith, length,
  Option, none, some, ℤ, if◌then◌else◌,
}
use miqudm.Os.{Os, Trace, M, Call, succeeded}
use miqudm.Pam.Status.{status, guarded, guarded_step, is_open, pam_step, PamStatus}
use miqudm.Pam.{PamAuth, new_pam, end_pam}
use miqudm.Pam.Methods.{HandleMirrors, Mirrors, IsStep, end_pam-IsStep}
use miqudm.Pam.Life.{IsStep-open, handle-discrete, none-ne-some, end_pam-none}

-- As `IsStep`, but closed under composition: a handle that was made and released on the way is not
-- spoken of by `frame`.
pub record IsTurn (p : PamAuth) (t : Trace) (p' : PamAuth) (t' : Trace) : Type 0 where
  pub mirrors : Mirrors p' t'
  pub grows : length t ≤ length t'
  pub safe : guarded t ≡ true → guarded t' ≡ true
  pub fresh : (k : ℕ) → p'.handle ≡ some k → (p.handle ≡ some k) ⊎ (length t ≤ k)
  pub frame : (k : ℕ) → k < length t → p.handle ≢ some k → status k t' ≡ status k t
  pub left_open :
      (k : ℕ)
      → is_open (status k t') ≡ true
      → (p'.handle ≡ some k) ⊎ ((is_open (status k t) ≡ true) × (p.handle ≢ some k))

other_new :
    (p p' : PamAuth) (t : Trace) (k : ℕ)
    → ((p'.handle ≡ some k) → (p.handle ≡ some k) ⊎ (length t ≤ k))
    → k < length t
    → p.handle ≢ some k
    → p'.handle ≢ some k
other_new p p' t k fresh old other held = elim (fresh held) [
  | inl same ↦ other same
  | inr later ↦ omega arith
]

pub IsStep-IsTurn : {p p' : PamAuth} {t t' : Trace} → IsStep p t p' t' → IsTurn p t p' t'
IsStep-IsTurn {p = p} {p' = p'} {t = t} s = record {
  mirrors = s.mirrors;
  grows = s.grows;
  safe = s.safe;
  fresh = s.fresh;
  frame = λ k old other. s.frame k other (other_new p p' t k (s.fresh k) old other);
  left_open = λ k left. IsStep-open k s left;
}

pub IsTurn-trans :
    {p q r : PamAuth} {t u v : Trace} → IsTurn p t q u → IsTurn q u r v → IsTurn p t r v
IsTurn-trans {p = p} {q = q} {t = t} a b = record {
  mirrors = b.mirrors;
  grows = let x = a.grows in let y = b.grows in omega arith;
  safe = λ g. b.safe (a.safe g);
  fresh = λ k held. elim (b.fresh k held) [
    | inl mine ↦ a.fresh k mine
    | inr later ↦ let x = a.grows in inr (omega arith)
  ];
  frame = λ k old other.
      let x = a.grows in
      b.frame k (omega arith) (other_new p q t k (a.fresh k) old other) ∙ a.frame k old other;
  left_open = λ k left. elim (b.left_open k left) [
    | inl held ↦ inl held
    | inr (before, other) ↦ elim (a.left_open k before) [
      | inl held ↦ absurd (other held)
      | inr old ↦ inr old
    ]
  ];
}

-- A piece of the program that leaves every PAM handle as it is.
pub record IsQuiet (t t' : Trace) : Type 0 where
  pub grows : length t ≤ length t'
  pub safe : guarded t ≡ true → guarded t' ≡ true
  pub frame : (k : ℕ) → status k t' ≡ status k t

pub IsQuiet-refl : (t : Trace) → IsQuiet t t
IsQuiet-refl t = record { grows = omega arith; safe = λ g. g; frame = λ k. refl }

pub IsQuiet-trans : {t u v : Trace} → IsQuiet t u → IsQuiet u v → IsQuiet t v
IsQuiet-trans a b = record {
  grows = let x = a.grows in let y = b.grows in omega arith;
  safe = λ g. b.safe (a.safe g);
  frame = λ k. b.frame k ∙ a.frame k;
}

HandleMirrors-frame :
    (h : Option ℕ) (p : PamAuth) (t t' : Trace)
    → length t ≤ length t'
    → ((k : ℕ) → h ≡ some k → k < length t → status k t' ≡ status k t)
    → HandleMirrors h p t
    → HandleMirrors h p t'
HandleMirrors-frame none p t t' grows frame m = m
HandleMirrors-frame (some h) p t t' grows frame m = let same = frame h refl m.0 in grind arith

pub Mirrors-frame :
    (p : PamAuth) (t t' : Trace)
    → length t ≤ length t'
    → ((k : ℕ) → p.handle ≡ some k → k < length t → status k t' ≡ status k t)
    → Mirrors p t
    → Mirrors p t'
Mirrors-frame p t t' grows frame m = HandleMirrors-frame p.handle p t t' grows frame m

pub IsQuiet-IsTurn : (p : PamAuth) {t t' : Trace} → Mirrors p t → IsQuiet t t' → IsTurn p t p t'
IsQuiet-IsTurn p {t = t} {t' = t'} m q = record {
  mirrors = Mirrors-frame p t t' q.grows (λ k held old. q.frame k) m;
  grows = q.grows;
  safe = q.safe;
  fresh = λ k held. inl held;
  frame = λ k old other. q.frame k;
  left_open = λ k left. elim (handle-discrete p.handle (some k)) [
    | yes held ↦ inl held
    | no other ↦ inr (ap is_open (sym (q.frame k)) ∙ left, other)
  ];
}

-- `none` is a pointer that holds no object.
abbrev pub object : Option PamAuth → PamAuth
object none = new_pam
object (some p) = p

pub new_pam-Mirrors : (t : Trace) → Mirrors new_pam t
new_pam-Mirrors t = (refl, refl)

-- An object that ends with no handle is as good as none.
pub IsTurn-ended :
    {p p' : PamAuth} {t t' : Trace} → p'.handle ≡ none → IsTurn p t p' t' → IsTurn p t new_pam t'
IsTurn-ended {p = p} {p' = p'} {t = t} {t' = t'} ended s = record {
  mirrors = (refl, refl);
  grows = s.grows;
  safe = s.safe;
  fresh = λ k held. absurd (none-ne-some k held);
  frame = s.frame;
  left_open = λ k left. elim (s.left_open k left) [
    | inl held ↦ absurd (none-ne-some k (sym ended ∙ held))
    | inr old ↦ inr old
  ];
}

module _ (os : Os) where
  pub end_pam-IsTurn :
      (p : PamAuth) (t : Trace) → Mirrors p t → IsTurn p t new_pam (end_pam os p t).1
  end_pam-IsTurn p t m =
      IsTurn-ended (end_pam-none os p t) (IsStep-IsTurn (end_pam-IsStep os p t m))

-- The calls that `pam_step` and `guarded_step` pass over.
abbrev pub IsOther : Call → Type 0
IsOther c =
    ((h n : ℕ) (ok : Bool) (s : PamStatus) → pam_step h n ok s c ≡ s)
    × ((b : Bool) (t : Trace) → guarded_step b t c ≡ b)

pub event-IsQuiet :
    (c : Call) (r : ℤ) (t : Trace) → IsOther c → IsQuiet t (record { call = c; result = r } ∷ t)
unfolding status guarded
event-IsQuiet c r t other = record {
  grows = omega arith;
  safe = λ g. other.1 (guarded t) t ∙ g;
  frame = λ k. other.0 k (length t) (succeeded r) (status k t);
}

-- Two ways to go on after a turn.
pub if-IsTurn :
    {p q : PamAuth} {t u : Trace} (b : Bool) (m n : M PamAuth)
    → IsTurn p t q u
    → IsTurn q u (m u).0 (m u).1
    → IsTurn q u (n u).0 (n u).1
    → IsTurn p t ((if b then m else n) u).0 ((if b then m else n) u).1
if-IsTurn true m n s x y = IsTurn-trans s x
if-IsTurn false m n s x y = IsTurn-trans s y

-- ===== src/Pam/Accounts.antt =====
-- Two `PamAuth` objects in one process (daemon/pam_auth.cpp), and what is open in it.
use miqudm.Prelude.{
  ℕ, zero, suc, List, ◌<◌, ◌≡◌, ◌≢◌, ◌⊎◌, inl, inr, refl, subst, true, ◌∷◌, ◌∙◌, ap, arith, length,
  Option, none, some, Text, ℤ,
}
use miqudm.Os.{Trace, fork_session}
use miqudm.Users.{UserInfo}
use miqudm.Sessions.{SessionInfo}
use native.Mathlib.Decide.{ℕ_discrete}
use miqudm.Pam.Status.{status, guarded, guarded_step, any_granted, is_granted, is_open, pam_step}
use miqudm.Pam.{PamAuth}
use miqudm.Pam.Methods.{HandleMirrors, Mirrors}
use miqudm.Pam.Turns.{IsTurn, IsQuiet, Mirrors-frame}

-- All that is open in the process belongs to `p` or to `q`, which do not share a handle.
pub record Accounts (p q : PamAuth) (t : Trace) : Type 0 where
  pub first : Mirrors p t
  pub second : Mirrors q t
  pub apart : (k : ℕ) → p.handle ≡ some k → q.handle ≢ some k
  pub safe : guarded t ≡ true
  pub all : (k : ℕ) → is_open (status k t) ≡ true → (p.handle ≡ some k) ⊎ (q.handle ≡ some k)

pub Accounts-swap : {p q : PamAuth} {t : Trace} → Accounts p q t → Accounts q p t
Accounts-swap a = record {
  first = a.second;
  safe = a.safe;
  second = a.first;
  apart = λ k held other. a.apart k other held;
  all = λ k left. elim (a.all k left) [ inl x ↦ inr x | inr x ↦ inl x ];
}

handle-in_range :
    (h : Option ℕ) (p : PamAuth) (t : Trace) (k : ℕ)
    → HandleMirrors h p t
    → h ≡ some k
    → k < length t
handle-in_range none p t k m e = cc
handle-in_range (some h) p t k m e = grind arith

pub Mirrors-live :
    (h : Option ℕ) (p : PamAuth) (t : Trace) (k : ℕ)
    → HandleMirrors h p t
    → h ≡ some k
    → (status k t).live ≡ true
Mirrors-live none p t k m e = cc
Mirrors-live (some h) p t k m e = grind arith

-- The first object's turn keeps the accounts.
pub Accounts-turn :
    {p q p' : PamAuth} {t t' : Trace} → Accounts p q t → IsTurn p t p' t' → Accounts p' q t'
Accounts-turn {q = q} {t = t} {t' = t'} a s = record {
  first = s.mirrors;
  safe = s.safe a.safe;
  second =
      Mirrors-frame q t t' s.grows (λ k held old. s.frame k old (λ mine. a.apart k mine held))
        a.second;
  apart = λ k held other. elim (s.fresh k held) [
    | inl mine ↦ a.apart k mine other
    | inr later ↦ let old = handle-in_range q.handle q t k a.second other in omega arith
  ];
  all = λ k left. elim (s.left_open k left) [
    | inl held ↦ inl held
    | inr (before, other) ↦ elim (a.all k before) [
      | inl mine ↦ absurd (other mine)
      | inr theirs ↦ inr theirs
    ]
  ];
}

-- PAM has let the user in, and still does.
abbrev pub LetIn : Text → Trace → Type 0
LetIn username t = (h : ℕ) × ((h < length t) × (is_granted username (status h t) ≡ true))

any_granted-intro :
    (username : Text) (h n : ℕ) (t : Trace)
    → h < n
    → is_granted username (status h t) ≡ true
    → any_granted username n t ≡ true
unfolding any_granted
any_granted-intro username h zero t below granted = ground arith
any_granted-intro username h (suc n) t below granted = elim (ℕ_discrete h n) [
  | yes same ↦
      let g = subst (λ k. is_granted username (status k t) ≡ true) same granted in ground arith
  | no other ↦
      let g = any_granted-intro username h n t (below_last h n below other) granted in ground arith
]
  where
    below_last : (h n : ℕ) → h < suc n → h ≢ n → h < n
    below_last h n below other = omega arith

pub IsQuiet-LetIn :
    {t t' : Trace} (username : Text) → IsQuiet t t' → LetIn username t → LetIn username t'
IsQuiet-LetIn {t = t} {t' = t'} username q (h, (below, granted)) =
    (h, ((let g = q.grows in omega arith), ap (is_granted username) (q.frame h) ∙ granted))

-- A session's process may be forked where the user is let in.
pub fork-IsQuiet :
    (user : UserInfo) (session : SessionInfo) (envs : List Text) (vt : ℤ) (r : ℤ) (t : Trace)
    → LetIn user.username t
    → IsQuiet t (record { call = fork_session user session envs vt; result = r } ∷ t)
unfolding status pam_step guarded guarded_step
fork-IsQuiet user session envs vt r t (h, (below, granted)) =
    let any = any_granted-intro user.username h (length t) t below granted in
    record { grows = omega arith; safe = λ g. ground arith; frame = λ k. refl }

-- A turn of the one object leaves the other's transaction as it is.
pub Accounts-other :
    {p q p' : PamAuth} {t t' : Trace} (h : ℕ)
    → Accounts p q t
    → IsTurn p t p' t'
    → q.handle ≡ some h
    → status h t' ≡ status h t
Accounts-other {q = q} {t = t} h a s held =
    s.frame h (handle-in_range q.handle q t h a.second held) (λ mine. a.apart h mine held)

pub Accounts-LetIn :
    {p q : PamAuth} {t : Trace} (username : Text) (h : ℕ)
    → Accounts p q t
    → q.handle ≡ some h
    → is_granted username (status h t) ≡ true
    → LetIn username t
Accounts-LetIn {q = q} {t = t} username h a held granted =
    (h, (handle-in_range q.handle q t h a.second held, granted))

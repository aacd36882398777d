-- ===== src/Pam/Life.antt =====
-- A `PamAuth` object from its construction to its destructor, daemon/pam_auth.cpp.
use native.Mathlib.Decide.{ℕ_discrete}
use miqudm.Prelude.{
  ℕ, ◌≡◌, ◌≢◌, ◌⊎◌, inl, inr, refl, true, List, [], ◌∷◌, ◌∙◌, sym, ap, arith, Option, none, some,
  Text,
}
use miqudm.Os.{Os, M, pure, ◌>>=◌, ◌>>◌, Trace}
use miqudm.Pam.Status.{status, is_open}
use miqudm.Pam.{
  PamAuth, new_pam, start, authenticate, check_account, establish_credentials, open_session,
  close_session, delete_credentials, end_pam, set_env, get_environment_list,
}
use miqudm.Pam.Methods.{
  Mirrors, IsStep, end_pam-IsStep, check_account-IsStep, establish_credentials-IsStep,
  open_session-IsStep, close_session-IsStep, delete_credentials-IsStep, authenticate-IsStep,
  set_env-IsStep, get_environment_list-IsStep, start-IsStep,
}

-- The calls that a client can make.
pub data Method : Type 0 where
  starts : Text → Text → Method
  authenticates : Text → Method
  checks_account establishes_credentials opens_session closes_session : Method
  deletes_credentials ends lists_environment : Method
  sets_env : Text → Text → Method

pub none-ne-some : (k : ℕ) → ◌≢◌ {A = Option ℕ} none (some k)
none-ne-some k e = cc

module _ (os : Os) where
  unfoldable pub apply : Method → PamAuth → M PamAuth
  apply (starts u s) p = do r ← start os p u s; pure r.1
  apply (authenticates w) p = do r ← authenticate os p w; pure r.1
  apply checks_account p = do r ← check_account os p; pure r.1
  apply establishes_credentials p = do r ← establish_credentials os p; pure r.1
  apply opens_session p = do r ← open_session os p; pure r.1
  apply closes_session p = do r ← close_session os p; pure r.1
  apply deletes_credentials p = do r ← delete_credentials os p; pure r.1
  apply ends p = end_pam os p
  apply lists_environment p = do get_environment_list os p; pure p
  apply (sets_env n v) p = do set_env os p n v; pure p

  unfoldable pub run : List Method → PamAuth → M PamAuth
  run [] p = pure p
  run (m ∷ ms) p = do p' ← apply m p; run ms p'

  pub apply-IsStep :
      (m : Method) (p : PamAuth) (t : Trace)
      → Mirrors p t
      → IsStep p t (apply m p t).0 (apply m p t).1
  unfolding apply
  apply-IsStep (starts u s) p t h = start-IsStep os p t h u s
  apply-IsStep (authenticates w) p t h = authenticate-IsStep os p t h w
  apply-IsStep checks_account p t h = check_account-IsStep os p t h
  apply-IsStep establishes_credentials p t h = establish_credentials-IsStep os p t h
  apply-IsStep opens_session p t h = open_session-IsStep os p t h
  apply-IsStep closes_session p t h = close_session-IsStep os p t h
  apply-IsStep deletes_credentials p t h = delete_credentials-IsStep os p t h
  apply-IsStep ends p t h = end_pam-IsStep os p t h
  apply-IsStep lists_environment p t h = get_environment_list-IsStep os p t h
  apply-IsStep (sets_env n v) p t h = set_env-IsStep os p t h n v

  -- Any sequence of calls keeps the flags in step with the handle.
  run-Mirrors :
      (ms : List Method) (p : PamAuth) (t : Trace)
      → Mirrors p t
      → Mirrors (run ms p t).0 (run ms p t).1
  unfolding run
  run-Mirrors [] p t h = h
  run-Mirrors (m ∷ ms) p t h = run-Mirrors ms _ _ (apply-IsStep m p t h).mirrors

pub handle-discrete : Discrete (Option ℕ)
handle-discrete = hlevel ℕ_discrete

-- A handle that is open after a step is the object's, or was open before and was not the object's.
pub IsStep-open :
    {p p' : PamAuth} {t t' : Trace} (k : ℕ)
    → IsStep p t p' t'
    → is_open (status k t') ≡ true
    → (p'.handle ≡ some k) ⊎ ((is_open (status k t) ≡ true) × (p.handle ≢ some k))
IsStep-open {p} {p'} {t} {t'} k s left = elim (handle-discrete p'.handle (some k)) [
  | yes held ↦ inl held
  | no other ↦ elim (s.released k left) [
    | inl held ↦ inl held
    | inr was ↦ inr (ap is_open (sym (s.frame k was other)) ∙ left, was)
  ]
]

module _ (os : Os) where
  run-open :
      (ms : List Method) (p : PamAuth) (t : Trace) (k : ℕ)
      → Mirrors p t
      → is_open (status k (run os ms p t).1) ≡ true
      → ((run os ms p t).0.handle ≡ some k) ⊎ ((is_open (status k t) ≡ true) × (p.handle ≢ some k))
  unfolding run
  run-open [] p t k h left = elim (handle-discrete p.handle (some k)) [
    | yes held ↦ inl held
    | no other ↦ inr (left, other)
  ]
  run-open (m ∷ ms) p t k h left =
      let s = apply-IsStep os m p t h in
      elim (run-open ms _ _ k s.mirrors left) [
        | inl held ↦ inl held
        | inr (before, other) ↦ elim (IsStep-open k s before) [
          | inl held ↦ absurd (other held)
          | inr old ↦ inr old
        ]
      ]

  -- The life of an object: any calls, then the destructor.
  unfoldable pub life : List Method → M PamAuth
  life ms = do p ← run os ms new_pam; end_pam os p

  pub end_pam-none : (p : PamAuth) (t : Trace) → (end_pam os p t).0.handle ≡ none
  unfolding end_pam
  end_pam-none p t = ground arith

  -- An object that is made, used by any calls in any order, and destroyed leaves nothing to release
  -- that was not there before: no live PAM handle, no open session, no credentials.
  pub life-no_leak :
      (ms : List Method) (t : Trace) (k : ℕ)
      → is_open (status k (life ms t).1) ≡ true
      → is_open (status k t) ≡ true
  unfolding life
  life-no_leak ms t k left =
      let p = (run os ms new_pam t).0 in
      let t' = (run os ms new_pam t).1 in
      let m = run-Mirrors os ms new_pam t (refl, refl) in
      elim (IsStep-open k (end_pam-IsStep os p t' m) left) [
        | inl held ↦ absurd (none-ne-some k (sym (end_pam-none p t') ∙ held))
        | inr (before, other) ↦ elim (run-open ms new_pam t k (refl, refl) before) [
          | inl held ↦ absurd (other held)
          | inr old ↦ old.0
        ]
      ]

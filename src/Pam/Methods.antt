-- ===== src/Pam/Methods.antt =====
-- The methods of daemon/pam_auth.cpp keep the flags of the object in step with its handle.
use miqudm.Prelude.{
  ℕ, ◌<◌, ◌≤◌, ◌≡◌, ◌≢◌, ◌⊎◌, true, false, arith, length, Option, none, some, Text,
}
use miqudm.Os.{Os, Trace}
use miqudm.Pam.Status.{is_open, status, guarded}
use miqudm.Pam.{
  PamAuth, start, authenticate, check_account, establish_credentials, open_session, close_session,
  delete_credentials, end_pam, set_env, get_environment_list,
}

-- The object's flags say what was done to its handle; with no handle both flags are down.
abbrev pub HandleMirrors : Option ℕ → PamAuth → Trace → Type 0
HandleMirrors none p t = (p.session_opened ≡ false) × (p.credentials_set ≡ false)
HandleMirrors (some h) p t =
    (h < length t)
    × ((status h t).live ≡ true)
    × ((status h t).session ≡ p.session_opened)
    × ((status h t).cred ≡ p.credentials_set)

abbrev pub Mirrors : PamAuth → Trace → Type 0
Mirrors p t = HandleMirrors p.handle p t

-- What a method may do to the handles of the process, from object `p` and run `t` to `p'` and `t'`:
-- the new object mirrors its handle, every handle of another object keeps its status, a handle that
-- the object did not have before is a new one, and one that it gave up has nothing left to release.
pub record IsStep (p : PamAuth) (t : Trace) (p' : PamAuth) (t' : Trace) : Type 0 where
  pub mirrors : Mirrors p' t'
  pub frame : (k : ℕ) → p.handle ≢ some k → p'.handle ≢ some k → status k t' ≡ status k t
  pub fresh : (k : ℕ) → p'.handle ≡ some k → (p.handle ≡ some k) ⊎ (length t ≤ k)
  pub grows : length t ≤ length t'
  pub safe : guarded t ≡ true → guarded t' ≡ true
  pub released : (k : ℕ) → is_open (status k t') ≡ true → (p'.handle ≡ some k) ⊎ (p.handle ≢ some k)

module _ (os : Os) (p : PamAuth) (t : Trace) (m : Mirrors p t) where
  pub end_pam-IsStep : IsStep p t (end_pam os p t).0 (end_pam os p t).1
  unfolding end_pam status guarded
  end_pam-IsStep = ground arith

  pub check_account-IsStep : IsStep p t (check_account os p t).0.1 (check_account os p t).1
  unfolding check_account status guarded
  check_account-IsStep = ground arith

  pub establish_credentials-IsStep :
      IsStep p t (establish_credentials os p t).0.1 (establish_credentials os p t).1
  unfolding establish_credentials status guarded
  establish_credentials-IsStep = ground arith

  pub open_session-IsStep : IsStep p t (open_session os p t).0.1 (open_session os p t).1
  unfolding open_session status guarded
  open_session-IsStep = ground arith

  pub close_session-IsStep : IsStep p t (close_session os p t).0.1 (close_session os p t).1
  unfolding close_session status guarded
  close_session-IsStep = ground arith

  pub delete_credentials-IsStep :
      IsStep p t (delete_credentials os p t).0.1 (delete_credentials os p t).1
  unfolding delete_credentials status guarded
  delete_credentials-IsStep = ground arith

  pub authenticate-IsStep :
      (password : Text)
      → IsStep p t (authenticate os p password t).0.1 (authenticate os p password t).1
  unfolding authenticate status guarded
  authenticate-IsStep password = ground arith

  pub set_env-IsStep : (name value : Text) → IsStep p t p (set_env os p name value t).1
  unfolding set_env status guarded
  set_env-IsStep name value = ground arith

  pub get_environment_list-IsStep : IsStep p t p (get_environment_list os p t).1
  unfolding get_environment_list status guarded
  get_environment_list-IsStep = ground arith

  pub start-IsStep :
      (username service : Text)
      → IsStep p t (start os p username service t).0.1 (start os p username service t).1
  unfolding start status guarded
  start-IsStep username service = ground arith

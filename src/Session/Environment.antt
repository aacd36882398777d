-- ===== src/Session/Environment.antt =====
-- The environment of the session's process, daemon/session.cpp.
pub mod Variables
use miqudm.Prelude.{
  ◌≡◌, refl, ◌∙◌, ap, Bool, true, ◌&&◌, List, [], ◌∷◌, Option, none, some, Text, if◌then◌else◌,
  arith, ℤ, text_eq,
}
use miqudm.Users.{UserInfo}
use miqudm.Sessions.{SessionInfo}
use miqudm.Os.{Os, Call, Trace, succeeded, setenv, clearenv}
use miqudm.Session.{enter_environment, set_all, base_env, env_pairs}

unfoldable pub env_step : Text → Bool → Call → Option Text → Option Text
env_step k ok (setenv j v) old = if text_eq j k && ok then some v else old
env_step k ok clearenv old = none
env_step k ok _ old = old

-- The value of a variable after a run, from what `clearenv` and the successful `setenv` did.
unfoldable pub env : Text → Trace → Option Text
unfolding env_step
env k [] = none
env k (e ∷ t) = env_step k (succeeded e.result) e.call (env k t)

-- The last pair of a list that has the name, or else the old value.
abbrev pub last_value : Text → List (Text × Text) → Option Text → Option Text
last_value k [] old = old
last_value k ((j, v) ∷ rest) old = last_value k rest (if text_eq j k then some v else old)

module _ (os : Os) where
  set_all-env :
      (k : Text) (kvs : List (Text × Text)) (t : Trace)
      → ((t' : Trace) (j v : Text) → succeeded (os.ret t' (setenv j v)) ≡ true)
      → env k (set_all os kvs t).1 ≡ last_value k kvs (env k t)
  unfolding set_all env
  set_all-env k [] t works = refl
  set_all-env k ((j, v) ∷ rest) t works =
      set_all-env k rest _ works ∙ ap (last_value k rest) (ground (arith, works t j v))

  -- Where `setenv` does not fail, a variable of the session has the last value that PAM gives for it,
  -- or else the one that the launcher gives, and nothing of the daemon's own environment.
  pub enter_environment-env :
      (u : UserInfo) (s : SessionInfo) (pam_envs : List Text) (vt : ℤ) (t : Trace) (k : Text)
      → ((t' : Trace) (j v : Text) → succeeded (os.ret t' (setenv j v)) ≡ true)
      → env k (enter_environment os u s pam_envs vt t).1
        ≡ last_value k (env_pairs pam_envs) (last_value k (base_env u s vt) none)
  unfolding enter_environment env
  enter_environment-env u s pam_envs vt t k works =
      set_all-env k (env_pairs pam_envs) _ works
      ∙ ap (last_value k (env_pairs pam_envs)) (set_all-env k (base_env u s vt) _ works)

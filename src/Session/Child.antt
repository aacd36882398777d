-- ===== src/Session/Child.antt =====
-- The session's process, `pid == 0` in `SessionLauncher::launch` of daemon/session.cpp.
use miqudm.Prelude.{
  ℕ, ◌≡◌, refl, ◌∙◌, List, [], ◌∷◌, some, Text, arith, ℤ, codes, Bool-cases, inl, inr,
}
use miqudm.Users.{UserInfo}
use miqudm.Sessions.{SessionInfo}
use miqudm.Os.{Os, Trace, execl, setsid, initgroups, setgid, setuid, M, call}
use miqudm.Session.Identity.{Identity, identity, ExecsAs, is_exec}
use miqudm.Session.{
  shells, exec_session, enter_environment, set_all, exec_or, enter_session, exit_with,
  session_child, base_env, env_pairs, ChildEnd,
}

-- The user's own ids.
abbrev pub identity_of : UserInfo → Identity
identity_of u = record { groups = some (u.username, u.gid); gid = some u.gid; uid = some u.uid }

module _ (os : Os) where
  pub set_all-identity :
      (kvs : List (Text × Text)) (t : Trace) → identity (set_all os kvs t).1 ≡ identity t
  unfolding set_all identity
  set_all-identity [] t = refl
  set_all-identity ((k, v) ∷ rest) t = set_all-identity rest _

  pub set_all-ExecsAs :
      (i : Identity) (kvs : List (Text × Text)) (t : Trace)
      → ExecsAs i t
      → ExecsAs i (set_all os kvs t).1
  unfolding set_all is_exec
  set_all-ExecsAs i [] t h = h
  set_all-ExecsAs i ((k, v) ∷ rest) t h = set_all-ExecsAs i rest _ ((λ e. cc), h)

  enter_environment-identity :
      (u : UserInfo) (s : SessionInfo) (envs : List Text) (vt : ℤ) (t : Trace)
      → identity (enter_environment os u s envs vt t).1 ≡ identity t
  unfolding enter_environment identity
  enter_environment-identity u s envs vt t =
      set_all-identity (env_pairs envs) _ ∙ set_all-identity (base_env u s vt) _

  enter_environment-ExecsAs :
      (i : Identity) (u : UserInfo) (s : SessionInfo) (envs : List Text) (vt : ℤ) (t : Trace)
      → ExecsAs i t
      → ExecsAs i (enter_environment os u s envs vt t).1
  unfolding enter_environment is_exec
  enter_environment-ExecsAs i u s envs vt t h = (
    (λ e. cc),
    set_all-ExecsAs i (env_pairs envs) _ (set_all-ExecsAs i (base_env u s vt) _ ((λ e. cc), h)),
  )

  -- A part of the child that executes programs under `i` only, once it has that identity.
  abbrev pub KeepsAs : Identity → M ChildEnd → Type 0
  KeepsAs i m = (t : Trace) → identity t ≡ i → ExecsAs i t → ExecsAs i (m t).1

  pub exit_with-KeepsAs : (i : Identity) (code : ℕ) → KeepsAs i (exit_with os code)
  unfolding exit_with is_exec
  exit_with-KeepsAs i code t e h = ((λ x. cc), h)

  pub exec_or-KeepsAs :
      (i : Identity) (argv : List Text) (next : M ChildEnd)
      → KeepsAs i next
      → KeepsAs i (exec_or os argv next)
  unfolding exec_or identity
  exec_or-KeepsAs i argv next keeps t e h = ground (
    arith,
    keeps (record { call = execl argv; result = os.ret t (execl argv) } ∷ t) e ((λ _. e), h),
  )

  exec_session-KeepsAs :
      (i : Identity) (u : UserInfo) (s : SessionInfo) → KeepsAs i (exec_session os u s)
  unfolding exec_session shells
  exec_session-KeepsAs i u s t e h =
      let sh = exec_or-KeepsAs i _ _ (exit_with-KeepsAs i 127) in
      let shs = exec_or-KeepsAs i _ _ sh in
      elim (Bool-cases (os.exists t (codes "/usr/lib/miqudm/wayland-session"))) [
        | inl wrapped ↦ rw wrapped (exec_or-KeepsAs i _ _ shs t e h)
        | inr plain ↦ rw plain (shs t e h)
      ]

  enter_session-KeepsAs :
      (i : Identity) (u : UserInfo) (s : SessionInfo) (envs : List Text) (vt : ℤ)
      → KeepsAs i (enter_session os u s envs vt)
  unfolding enter_session
  enter_session-KeepsAs i u s envs vt t e h =
      exec_session-KeepsAs i u s _ (enter_environment-identity u s envs vt t ∙ e)
        (enter_environment-ExecsAs i u s envs vt t h)

  -- A session's command, and every program tried for it, is executed with the user's groups, group
  -- and user id, and with no other identity; if one of the three cannot be taken, nothing is.
  pub session_child-ExecsAs :
      (u : UserInfo) (s : SessionInfo) (envs : List Text) (vt : ℤ)
      → ExecsAs (identity_of u) (session_child os u s envs vt []).1
  unfolding session_child identity is_exec exit_with
  session_child-ExecsAs u s envs vt =
      let t1 = (call os setsid []).1 in
      let t2 = (call os (initgroups u.username u.gid) t1).1 in
      let t3 = (call os (setgid u.gid) t2).1 in
      let t4 = (call os (setuid u.uid) t3).1 in
      ground (arith, enter_session-KeepsAs (identity_of u) u s envs vt t4)

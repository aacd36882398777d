-- ===== src/Daemon/Loop/Held.antt =====
-- Which greeter's process the daemon (daemon/daemon.cpp) has, read off its run: the one that it forked
-- last, until a `waitpid` has told it that the process has ended. What leaves that as it is.
use miqudm.Prelude.{
  ◌≡◌, refl, ◌∙◌, Bool, false, ◌&&◌, not, [], ◌∷◌, Text, codes, ℤ, eq_ℤ, arith, if◌then◌else◌,
}
use miqudm.Os.{Os, Trace, Call, M, if-both, fork_greeter, waitpid_nohang, waitpid}
use miqudm.Pam.{
  PamAuth, new_pam, set_env, start, authenticate, check_account, establish_credentials,
  open_session, end_pam,
}
use miqudm.Ipc.{IpcMessage}
use miqudm.Ipc.Library.{Json}
use miqudm.Logind
use miqudm.Logind.{Logind}
use miqudm.Daemon.{Daemon}
use miqudm.Daemon.Login.{
  send, refuse, set_session_env, grant, finish_login, establish_login, check_login,
  authenticate_login, grant_login,
}
use miqudm.Daemon.Requests.{trigger}

abbrev held_step : ℤ → Call → ℤ → Bool → Bool
held_step pid fork_greeter r b = eq_ℤ r pid
held_step pid (waitpid_nohang k) r b = b && not (eq_ℤ k pid && eq_ℤ r pid)
held_step pid (waitpid k) r b = b && not (eq_ℤ k pid && eq_ℤ r pid)
held_step pid _ r b = b

-- The last greeter that was forked is the process `pid`, and no `waitpid` has given its end.
unfoldable pub held : ℤ → Trace → Bool
held pid [] = false
held pid (e ∷ t) = held_step pid e.call e.result (held pid t)

-- A step that leaves the greeter's process as it is.
abbrev pub KeepsHeld : {A : Type 0} → M A → Type 0
KeepsHeld m = (pid : ℤ) (t : Trace) → held pid (m t).1 ≡ held pid t

module _ (os : Os) where
  end_pam-KeepsHeld : (p : PamAuth) → KeepsHeld (end_pam os p)
  unfolding end_pam held
  end_pam-KeepsHeld p pid t = ground arith

  start-KeepsHeld : (p : PamAuth) (u s : Text) → KeepsHeld (start os p u s)
  unfolding start held
  start-KeepsHeld p u s pid t = ground arith

  authenticate-KeepsHeld : (p : PamAuth) (w : Text) → KeepsHeld (authenticate os p w)
  unfolding authenticate held
  authenticate-KeepsHeld p w pid t = ground arith

  check_account-KeepsHeld : (p : PamAuth) → KeepsHeld (check_account os p)
  unfolding check_account held
  check_account-KeepsHeld p pid t = ground arith

  establish_credentials-KeepsHeld : (p : PamAuth) → KeepsHeld (establish_credentials os p)
  unfolding establish_credentials held
  establish_credentials-KeepsHeld p pid t = ground arith

  open_session-KeepsHeld : (p : PamAuth) → KeepsHeld (open_session os p)
  unfolding open_session held
  open_session-KeepsHeld p pid t = ground arith

  pub trigger-KeepsHeld :
      (j : Json) (action : Text) (l : Logind) → KeepsHeld (trigger os j action l)
  unfolding trigger Logind.power_off Logind.reboot Logind.suspend Logind.hibernate
      Logind.call_manager_method held
  trigger-KeepsHeld j action l pid t = ground arith

  -- A step whose result decides how it goes on.
  if-KeepsHeld :
      {A : Type 0} (m : M (Bool × PamAuth)) (then_step else_step : PamAuth → M A)
      → KeepsHeld m
      → ((p : PamAuth) → KeepsHeld (then_step p))
      → ((p : PamAuth) → KeepsHeld (else_step p))
      → KeepsHeld (λ t. (if (m t).0.0 then then_step (m t).0.1 else else_step (m t).0.1) (m t).1)
  if-KeepsHeld m then_step else_step first then_yes then_no pid t =
      let r = m t in
      if-both (λ x. held pid x.1 ≡ held pid t) r.0.0 (then_step r.0.1) (else_step r.0.1) r.1
        (then_yes r.0.1 pid r.1 ∙ first pid t) (then_no r.0.1 pid r.1 ∙ first pid t)

module _ (os : Os) (j : Json) where
  refuse-KeepsHeld : (fd : ℤ) (what : Text) (p : PamAuth) → KeepsHeld (refuse os j fd what p)
  unfolding refuse send held
  refuse-KeepsHeld fd what p pid t = end_pam-KeepsHeld os p pid _

  set_session_env-KeepsHeld :
      (d : Daemon) (req : IpcMessage) (p : PamAuth) → KeepsHeld (set_session_env os j d req p)
  unfolding set_session_env set_env held
  set_session_env-KeepsHeld d req p pid t = ground arith

  finish_login-KeepsHeld :
      (d : Daemon) (fd : ℤ) (req : IpcMessage) (p : PamAuth)
      → KeepsHeld (finish_login os j d fd req p)
  unfolding finish_login grant send held
  finish_login-KeepsHeld d fd req p pid t =
      if-KeepsHeld os (open_session os p) (grant os j fd) (refuse os j fd _)
        (open_session-KeepsHeld os p) (λ q pid' u. refl) (refuse-KeepsHeld fd _) pid _
      ∙ set_session_env-KeepsHeld d req p pid t

  establish_login-KeepsHeld :
      (d : Daemon) (fd : ℤ) (req : IpcMessage) (p : PamAuth)
      → KeepsHeld (establish_login os j d fd req p)
  unfolding establish_login
  establish_login-KeepsHeld d fd req p =
      if-KeepsHeld os (establish_credentials os p) (finish_login os j d fd req) (refuse os j fd _)
        (establish_credentials-KeepsHeld os p) (finish_login-KeepsHeld d fd req)
        (refuse-KeepsHeld fd _)

  check_login-KeepsHeld :
      (d : Daemon) (fd : ℤ) (req : IpcMessage) (p : PamAuth)
      → KeepsHeld (check_login os j d fd req p)
  unfolding check_login
  check_login-KeepsHeld d fd req p =
      if-KeepsHeld os (check_account os p) (establish_login os j d fd req) (refuse os j fd _)
        (check_account-KeepsHeld os p) (establish_login-KeepsHeld d fd req) (refuse-KeepsHeld fd _)

  authenticate_login-KeepsHeld :
      (d : Daemon) (fd : ℤ) (req : IpcMessage) (p : PamAuth)
      → KeepsHeld (authenticate_login os j d fd req p)
  unfolding authenticate_login
  authenticate_login-KeepsHeld d fd req p =
      if-KeepsHeld os (authenticate os p req.password) (check_login os j d fd req)
        (refuse os j fd _) (authenticate-KeepsHeld os p req.password)
        (check_login-KeepsHeld d fd req) (refuse-KeepsHeld fd _)

  pub grant_login-KeepsHeld :
      (d : Daemon) (fd : ℤ) (req : IpcMessage) → KeepsHeld (grant_login os j d fd req)
  unfolding grant_login
  grant_login-KeepsHeld d fd req =
      if-KeepsHeld os (start os new_pam req.username (codes "miqudm"))
        (authenticate_login os j d fd req) (refuse os j fd _) (start-KeepsHeld os new_pam _ _)
        (authenticate_login-KeepsHeld d fd req) (refuse-KeepsHeld fd _)

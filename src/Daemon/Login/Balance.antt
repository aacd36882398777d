-- ===== src/Daemon/Login/Balance.antt =====
-- What `handle_login_request` of daemon/daemon.cpp does to the PAM handles of the daemon.
use miqudm.Prelude.{refl, Bool, true, Option, Text, ℤ, codes, not, is_empty, if◌then◌else◌}
use miqudm.Prelude.Decimal.{to_text}
use miqudm.Ipc.{IpcMessage, serialize}
use miqudm.Ipc.Library.{Json}
use miqudm.Os.{Os, Trace, M, pure, write_fd, if-both}
use miqudm.Pam.Status.{guarded_step, pam_step}
use miqudm.Pam.{
  PamAuth, new_pam, start, authenticate, check_account, set_env, establish_credentials,
  open_session,
}
use miqudm.Pam.Methods.{
  Mirrors, start-IsStep, authenticate-IsStep, check_account-IsStep, set_env-IsStep,
  establish_credentials-IsStep, open_session-IsStep,
}
use miqudm.Pam.Turns.{
  IsTurn, IsTurn-trans, IsStep-IsTurn, IsQuiet, IsQuiet-IsTurn, object, new_pam-Mirrors,
  end_pam-IsTurn, event-IsQuiet,
}
use miqudm.Daemon.{Daemon}
use miqudm.Daemon.Login.{
  send, refuse, set_session_env, grant, finish_login, establish_login, check_login,
  authenticate_login, grant_login, reply_of,
}

module _ (os : Os) (j : Json) where
  pub send-IsQuiet : (fd : ℤ) (resp : IpcMessage) (t : Trace) → IsQuiet t (send os j fd resp t).1
  unfolding send pam_step guarded_step
  send-IsQuiet fd resp t =
      event-IsQuiet (write_fd fd (serialize j resp)) _ t ((λ h n ok s. refl), (λ b u. refl))

  refuse-IsTurn :
      (fd : ℤ) (what : Text) (p : PamAuth) (t : Trace)
      → Mirrors p t
      → IsTurn p t (object (refuse os j fd what p t).0) (refuse os j fd what p t).1
  unfolding refuse
  refuse-IsTurn fd what p t m =
      let sent = IsQuiet-IsTurn p m (send-IsQuiet fd _ t) in
      IsTurn-trans sent (end_pam-IsTurn os p _ sent.mirrors)

  set_session_env-IsTurn :
      (d : Daemon) (req : IpcMessage) (p : PamAuth) (t : Trace)
      → Mirrors p t
      → IsTurn p t p (set_session_env os j d req p t).1
  unfolding set_session_env
  set_session_env-IsTurn d req p t m =
      let a = set_env-IsStep os p t m (codes "XDG_SESSION_CLASS") (codes "user") in
      let b = set_env-IsStep os p _ a.mirrors (codes "XDG_SESSION_TYPE") (codes "wayland") in
      let c = set_env-IsStep os p _ b.mirrors (codes "XDG_SEAT") (codes "seat0") in
      let e = set_env-IsStep os p _ c.mirrors (codes "XDG_VTNR") (to_text d.config.general.vt) in
      let f = set_env-IsStep os p _ e.mirrors (codes "XDG_CURRENT_DESKTOP") req.desktop_name in
      let g = set_env-IsStep os p _ f.mirrors (codes "XDG_SESSION_DESKTOP") req.desktop_name in
      let four =
        IsTurn-trans (IsStep-IsTurn a)
          (IsTurn-trans (IsStep-IsTurn b) (IsTurn-trans (IsStep-IsTurn c) (IsStep-IsTurn e))) in
      let more = λ (u : Trace).
        set_env os p (codes "XDG_SESSION_DESKTOP") req.desktop_name
          (set_env os p (codes "XDG_CURRENT_DESKTOP") req.desktop_name u).1 in
      let done =
        (set_env os p (codes "XDG_VTNR") (to_text d.config.general.vt)
          (set_env os p (codes "XDG_SEAT") (codes "seat0")
            (set_env os p (codes "XDG_SESSION_TYPE") (codes "wayland")
              (set_env os p (codes "XDG_SESSION_CLASS") (codes "user") t).1).1).1).1 in
      if-both (λ r. IsTurn p t p r.1) (not (is_empty req.desktop_name)) more (pure true) done
        (IsTurn-trans four (IsTurn-trans (IsStep-IsTurn f) (IsStep-IsTurn g))) four

  -- A stage that was done, and what its result decides.
  stage-IsTurn :
      {p : PamAuth} {t : Trace} (fd : ℤ) (what : Text) (r : (Bool × PamAuth) × Trace)
      (next : PamAuth → M (Option PamAuth))
      → IsTurn p t r.0.1 r.1
      → IsTurn r.0.1 r.1 (object (next r.0.1 r.1).0) (next r.0.1 r.1).1
      → IsTurn p t
          (object ((if r.0.0 then next r.0.1 else refuse os j fd what r.0.1) r.1).0)
          ((if r.0.0 then next r.0.1 else refuse os j fd what r.0.1) r.1).1
  stage-IsTurn {p = p} {t = t} fd what r next done rest =
      if-both (λ o. IsTurn p t (object o.0) o.1) r.0.0 (next r.0.1) (refuse os j fd what r.0.1) r.1
        (IsTurn-trans done rest) (IsTurn-trans done (refuse-IsTurn fd what r.0.1 r.1 done.mirrors))

  grant-IsTurn :
      (fd : ℤ) (p : PamAuth) (t : Trace)
      → Mirrors p t
      → IsTurn p t (object (grant os j fd p t).0) (grant os j fd p t).1
  unfolding grant
  grant-IsTurn fd p t m =
      IsQuiet-IsTurn p m (send-IsQuiet fd (reply_of true (codes "Login successful")) t)

  finish_login-IsTurn :
      (d : Daemon) (fd : ℤ) (req : IpcMessage) (p : PamAuth) (t : Trace)
      → Mirrors p t
      → IsTurn p t (object (finish_login os j d fd req p t).0) (finish_login os j d fd req p t).1
  unfolding finish_login grant
  finish_login-IsTurn d fd req p t m =
      let a = set_session_env-IsTurn d req p t m in
      let s = open_session-IsStep os p _ a.mirrors in
      stage-IsTurn fd (codes "Failed to open session: ")
        (open_session os p (set_session_env os j d req p t).1) (grant os j fd)
        (IsTurn-trans a (IsStep-IsTurn s)) (grant-IsTurn fd _ _ s.mirrors)

  establish_login-IsTurn :
      (d : Daemon) (fd : ℤ) (req : IpcMessage) (p : PamAuth) (t : Trace)
      → Mirrors p t
      → IsTurn p t
          (object (establish_login os j d fd req p t).0)
          (establish_login os j d fd req p t).1
  unfolding establish_login
  establish_login-IsTurn d fd req p t m =
      let s = establish_credentials-IsStep os p t m in
      stage-IsTurn fd (codes "Failed to establish credentials: ") (establish_credentials os p t)
        (finish_login os j d fd req) (IsStep-IsTurn s) (finish_login-IsTurn d fd req _ _ s.mirrors)

  check_login-IsTurn :
      (d : Daemon) (fd : ℤ) (req : IpcMessage) (p : PamAuth) (t : Trace)
      → Mirrors p t
      → IsTurn p t (object (check_login os j d fd req p t).0) (check_login os j d fd req p t).1
  unfolding check_login
  check_login-IsTurn d fd req p t m =
      let s = check_account-IsStep os p t m in
      stage-IsTurn fd (codes "Account check failed: ") (check_account os p t)
        (establish_login os j d fd req) (IsStep-IsTurn s)
        (establish_login-IsTurn d fd req _ _ s.mirrors)

  authenticate_login-IsTurn :
      (d : Daemon) (fd : ℤ) (req : IpcMessage) (p : PamAuth) (t : Trace)
      → Mirrors p t
      → IsTurn p t
          (object (authenticate_login os j d fd req p t).0)
          (authenticate_login os j d fd req p t).1
  unfolding authenticate_login
  authenticate_login-IsTurn d fd req p t m =
      let s = authenticate-IsStep os p t m req.password in
      stage-IsTurn fd (codes "Authentication failed: ") (authenticate os p req.password t)
        (check_login os j d fd req) (IsStep-IsTurn s) (check_login-IsTurn d fd req _ _ s.mirrors)

  pub grant_login-IsTurn :
      (d : Daemon) (fd : ℤ) (req : IpcMessage) (t : Trace)
      → IsTurn new_pam t (object (grant_login os j d fd req t).0) (grant_login os j d fd req t).1
  unfolding grant_login
  grant_login-IsTurn d fd req t =
      let s = start-IsStep os new_pam t (new_pam-Mirrors t) req.username (codes "miqudm") in
      stage-IsTurn fd (codes "PAM initialization error: ")
        (start os new_pam req.username (codes "miqudm") t) (authenticate_login os j d fd req)
        (IsStep-IsTurn s) (authenticate_login-IsTurn d fd req _ _ s.mirrors)

-- ===== src/Daemon/Login/Granted.antt =====
-- What it takes for the first half of `handle_login_request` of daemon/daemon.cpp to grant a login.
use miqudm.Prelude.{
  ℕ, ◌≡◌, ◌∙◌, Bool, true, Option, none, some, Text, ℤ, arith, codes, not, is_empty, if◌then◌else◌,
}
use miqudm.Prelude.Decimal.{to_text}
use miqudm.Ipc.{IpcMessage}
use miqudm.Ipc.Library.{Json}
use miqudm.Os.{Os, Trace, M, pure, if-either, if-both}
use miqudm.Pam.Status.{status}
use miqudm.Pam.{
  PamAuth, new_pam, start, authenticate, check_account, set_env, establish_credentials,
  open_session,
}
use miqudm.Pam.Progress.{
  Started, Authenticated, Checked, Established, Opened, start-Started, authenticate-Authenticated,
  check_account-Checked, establish_credentials-Established, open_session-Opened, set_env-status,
}
use miqudm.Daemon.{Daemon}
use miqudm.Daemon.Login.{
  send, refuse, set_session_env, grant, finish_login, establish_login, check_login,
  authenticate_login, grant_login,
}

-- If there is a transaction, it has let the user in, as PAM's calls tell.
abbrev pub WhereGranted : Text → Option PamAuth → Trace → Type 0
WhereGranted username none t = Unit {0}
WhereGranted username (some p) t = Opened username p t

module _ (os : Os) (j : Json) where
  refuse-WhereGranted :
      (username : Text) (fd : ℤ) (what : Text) (p : PamAuth) (t : Trace)
      → WhereGranted username (refuse os j fd what p t).0 (refuse os j fd what p t).1
  unfolding refuse
  refuse-WhereGranted username fd what p t = tt

  send-Opened :
      (username : Text) (fd : ℤ) (resp : IpcMessage) (p : PamAuth) (t : Trace)
      → Opened username p t
      → Opened username p (send os j fd resp t).1
  unfolding send status
  send-Opened username fd resp p t (h, facts) = (h, facts)

  set_session_env-status :
      (d : Daemon) (req : IpcMessage) (p : PamAuth) (t : Trace) (k : ℕ)
      → status k (set_session_env os j d req p t).1 ≡ status k t
  unfolding set_session_env
  set_session_env-status d req p t k =
      let a = (set_env os p (codes "XDG_SESSION_CLASS") (codes "user") t).1 in
      let b = (set_env os p (codes "XDG_SESSION_TYPE") (codes "wayland") a).1 in
      let c = (set_env os p (codes "XDG_SEAT") (codes "seat0") b).1 in
      let e = (set_env os p (codes "XDG_VTNR") (to_text d.config.general.vt) c).1 in
      let f = (set_env os p (codes "XDG_CURRENT_DESKTOP") req.desktop_name e).1 in
      let four =
        set_env-status os p (codes "XDG_VTNR") (to_text d.config.general.vt) c k
        ∙ set_env-status os p (codes "XDG_SEAT") (codes "seat0") b k
        ∙ set_env-status os p (codes "XDG_SESSION_TYPE") (codes "wayland") a k
        ∙ set_env-status os p (codes "XDG_SESSION_CLASS") (codes "user") t k in
      let more = λ (u : Trace).
        set_env os p (codes "XDG_SESSION_DESKTOP") req.desktop_name
          (set_env os p (codes "XDG_CURRENT_DESKTOP") req.desktop_name u).1 in
      if-both (λ r. status k r.1 ≡ status k t) (not (is_empty req.desktop_name)) more (pure true) e
        (set_env-status os p (codes "XDG_SESSION_DESKTOP") req.desktop_name f k
          ∙ set_env-status os p (codes "XDG_CURRENT_DESKTOP") req.desktop_name e k
          ∙ four)
        four

  Established-same :
      (username : Text) (p : PamAuth) (t t' : Trace)
      → ((k : ℕ) → status k t' ≡ status k t)
      → Established username p t
      → Established username p t'
  Established-same username p t t' same (h, (held, facts)) = let s = same h in (h, grind arith)

  -- A stage and what its result decides.
  stage-WhereGranted :
      (username : Text) (fd : ℤ) (what : Text) (r : (Bool × PamAuth) × Trace)
      (next : PamAuth → M (Option PamAuth))
      → (r.0.0 ≡ true → WhereGranted username (next r.0.1 r.1).0 (next r.0.1 r.1).1)
      → WhereGranted username
          ((if r.0.0 then next r.0.1 else refuse os j fd what r.0.1) r.1).0
          ((if r.0.0 then next r.0.1 else refuse os j fd what r.0.1) r.1).1
  stage-WhereGranted username fd what r next rest =
      if-either (λ x. WhereGranted username x.0 x.1) r.0.0 (next r.0.1) (refuse os j fd what r.0.1)
        r.1 rest (λ no. refuse-WhereGranted username fd what r.0.1 r.1)

  finish_login-WhereGranted :
      (d : Daemon) (fd : ℤ) (req : IpcMessage) (p : PamAuth) (t : Trace)
      → Established req.username p t
      → WhereGranted req.username
          (finish_login os j d fd req p t).0
          (finish_login os j d fd req p t).1
  unfolding finish_login grant
  finish_login-WhereGranted d fd req p t done =
      let u = (set_session_env os j d req p t).1 in
      let same = Established-same req.username p t u (set_session_env-status d req p t) done in
      let o = open_session os p u in
      stage-WhereGranted req.username fd (codes "Failed to open session: ") o (grant os j fd) (λ ok.
        send-Opened req.username fd _ o.0.1 o.1 (open_session-Opened os req.username p u same ok))

  establish_login-WhereGranted :
      (d : Daemon) (fd : ℤ) (req : IpcMessage) (p : PamAuth) (t : Trace)
      → Checked req.username p t
      → WhereGranted req.username
          (establish_login os j d fd req p t).0
          (establish_login os j d fd req p t).1
  unfolding establish_login
  establish_login-WhereGranted d fd req p t done =
      stage-WhereGranted req.username fd (codes "Failed to establish credentials: ")
        (establish_credentials os p t) (finish_login os j d fd req)
        (λ ok.
          finish_login-WhereGranted d fd req _ _
            (establish_credentials-Established os req.username p t done ok))

  check_login-WhereGranted :
      (d : Daemon) (fd : ℤ) (req : IpcMessage) (p : PamAuth) (t : Trace)
      → Authenticated req.username p t
      → WhereGranted req.username
          (check_login os j d fd req p t).0
          (check_login os j d fd req p t).1
  unfolding check_login
  check_login-WhereGranted d fd req p t done =
      stage-WhereGranted req.username fd (codes "Account check failed: ") (check_account os p t)
        (establish_login os j d fd req)
        (λ ok.
          establish_login-WhereGranted d fd req _ _
            (check_account-Checked os req.username p t done ok))

  authenticate_login-WhereGranted :
      (d : Daemon) (fd : ℤ) (req : IpcMessage) (p : PamAuth) (t : Trace)
      → Started req.username p t
      → WhereGranted req.username
          (authenticate_login os j d fd req p t).0
          (authenticate_login os j d fd req p t).1
  unfolding authenticate_login
  authenticate_login-WhereGranted d fd req p t done =
      stage-WhereGranted req.username fd (codes "Authentication failed: ")
        (authenticate os p req.password t) (check_login os j d fd req)
        (λ ok.
          check_login-WhereGranted d fd req _ _
            (authenticate-Authenticated os req.username req.password p t done ok))

  -- If the first half of a login request ends with a transaction, PAM's own calls say that it was
  -- started for the requested name, that it is authenticated, that its account is valid, and that it
  -- has credentials and an open session.
  pub grant_login-WhereGranted :
      (d : Daemon) (fd : ℤ) (req : IpcMessage) (t : Trace)
      → WhereGranted req.username (grant_login os j d fd req t).0 (grant_login os j d fd req t).1
  unfolding grant_login
  grant_login-WhereGranted d fd req t =
      stage-WhereGranted req.username fd (codes "PAM initialization error: ")
        (start os new_pam req.username (codes "miqudm") t) (authenticate_login os j d fd req)
        (λ ok.
          authenticate_login-WhereGranted d fd req _ _
            (start-Started os req.username (codes "miqudm") t ok))

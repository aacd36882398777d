-- ===== src/Daemon/Replies/Verdict.antt =====
-- The reply to a login, `handle_login_request` of daemon/daemon.cpp.
use miqudm.Prelude.{
  List, [], ◌≡◌, ◌≤◌, length, refl, ◌∙◌, ap, true, false, ◌∷◌, ◌++◌, Option, none, some, Text,
  codes, ℤ, arith,
}
use miqudm.Os.{Os, Trace, if-both}
use miqudm.Pam.{
  PamAuth, new_pam, set_env, start, authenticate, check_account, establish_credentials,
  open_session,
}
use miqudm.Ipc.{IpcMessage, serialize}
use miqudm.Ipc.Library.{Json}
use miqudm.Daemon.{Daemon}
use miqudm.Daemon.Login.{
  reply_of, send, refuse, set_session_env, grant, finish_login, establish_login, check_login,
  authenticate_login, grant_login,
}
use miqudm.Daemon.Replies.{Fork, forked, written, descriptors, IsSilent, IsSilent-trans}
use miqudm.Daemon.Replies.Silent.{
  start-IsSilent, authenticate-IsSilent, check_account-IsSilent, establish_credentials-IsSilent,
  open_session-IsSilent, end_pam-IsSilent,
}

-- Where a login can fail, with the words of the reply.
pub data Stage : Type 0 where
  initialization authentication account credentials session_opening : Stage

abbrev pub words : Stage → Text
words initialization = codes "PAM initialization error: "
words authentication = codes "Authentication failed: "
words account = codes "Account check failed: "
words credentials = codes "Failed to establish credentials: "
words session_opening = codes "Failed to open session: "

-- The reply to a login: of success with the open transaction, or of failure with the stage and PAM's
-- reason.
abbrev pub IsVerdict : Option PamAuth → IpcMessage → Type 0
IsVerdict (some p) resp = resp ≡ reply_of true (codes "Login successful")
IsVerdict none resp = (s : Stage) × (reason : Text) × (resp ≡ reply_of false (words s ++ reason))

-- Exactly one reply is written and some sessions are forked, as promised; no descriptor is opened or
-- closed.
pub record Answers (j : Json) (P : IpcMessage → List Fork → Type 0) (fd : ℤ) (t t' : Trace)
    : Type 0 where
  pub resp : IpcMessage
  pub forks : List Fork
  pub promised : P resp forks
  pub grows : length t ≤ length t'
  pub sent : written t' ≡ (fd, serialize j resp) ∷ written t
  pub added : forked t' ≡ forks ++ forked t
  pub fds : descriptors t' ≡ descriptors t

pub before :
    {j : Json} {P : IpcMessage → List Fork → Type 0} {fd : ℤ} {t u v : Trace}
    → IsSilent t u
    → Answers j P fd u v
    → Answers j P fd t v
before {j = j} {fd = fd} q a = record {
  resp = a.resp;
  forks = a.forks;
  promised = a.promised;
  grows = let x = q.grows in let y = a.grows in omega arith;
  sent = a.sent ∙ ap (λ ws. (fd, serialize j a.resp) ∷ ws) q.same;
  added = a.added ∙ ap (λ fs. a.forks ++ fs) q.forks;
  fds = a.fds ∙ q.fds;
}

pub after :
    {j : Json} {P : IpcMessage → List Fork → Type 0} {fd : ℤ} {t u v : Trace}
    → Answers j P fd t u
    → IsSilent u v
    → Answers j P fd t v
after a q = record {
  resp = a.resp;
  forks = a.forks;
  promised = a.promised;
  grows = let x = a.grows in let y = q.grows in omega arith;
  sent = q.same ∙ a.sent;
  added = q.forks ∙ a.added;
  fds = q.fds ∙ a.fds;
}

pub weaken :
    {j : Json} (P Q : IpcMessage → List Fork → Type 0) (fd : ℤ) (t t' : Trace)
    → ((resp : IpcMessage) (fs : List Fork) → P resp fs → Q resp fs)
    → Answers j P fd t t'
    → Answers j Q fd t t'
weaken P Q fd t t' f a = record {
  resp = a.resp;
  forks = a.forks;
  promised = f a.resp a.forks a.promised;
  grows = a.grows;
  sent = a.sent;
  added = a.added;
  fds = a.fds;
}

module _ (os : Os) (j : Json) where
  pub send-Answers :
      (P : IpcMessage → List Fork → Type 0) (fd : ℤ) (resp : IpcMessage) (t : Trace)
      → P resp []
      → Answers j P fd t (send os j fd resp t).1
  unfolding send written forked descriptors
  send-Answers P fd resp t p = record {
    resp = resp;
    forks = [];
    promised = p;
    grows = omega arith;
    sent = refl;
    added = refl;
    fds = refl;
  }

  -- What a login step leaves, with its reply; it forks no session.
  abbrev pub Verdict : ℤ → Trace → Option PamAuth × Trace → Type 0
  Verdict fd t r = Answers j (λ resp fs. IsVerdict r.0 resp × (fs ≡ [])) fd t r.1

  refuse-Verdict :
      (fd : ℤ) (s : Stage) (p : PamAuth) (t : Trace) → Verdict fd t (refuse os j fd (words s) p t)
  unfolding refuse
  refuse-Verdict fd s p t =
      after
        (send-Answers (λ resp fs. IsVerdict none resp × (fs ≡ [])) fd _ t
          ((s, p.error_message, refl), refl))
        (end_pam-IsSilent os p _)

  grant-Verdict : (fd : ℤ) (p : PamAuth) (t : Trace) → Verdict fd t (grant os j fd p t)
  unfolding grant
  grant-Verdict fd p t =
      send-Answers (λ resp fs. IsVerdict (some p) resp × (fs ≡ [])) fd _ t (refl, refl)

  pub set_session_env-IsSilent :
      (d : Daemon) (req : IpcMessage) (p : PamAuth) (t : Trace)
      → IsSilent t (set_session_env os j d req p t).1
  unfolding set_session_env set_env written forked descriptors
  set_session_env-IsSilent d req p t = ground arith

  finish_login-Verdict :
      (d : Daemon) (fd : ℤ) (req : IpcMessage) (p : PamAuth) (t : Trace)
      → Verdict fd t (finish_login os j d fd req p t)
  unfolding finish_login
  finish_login-Verdict d fd req p t =
      let u = (set_session_env os j d req p t).1 in
      let opened = open_session os p u in
      before (IsSilent-trans (set_session_env-IsSilent d req p t) (open_session-IsSilent os p u)) (
        if-both (Verdict fd opened.1) opened.0.0 (grant os j fd opened.0.1)
          (refuse os j fd (words session_opening) opened.0.1) opened.1 (grant-Verdict fd _ _)
          (refuse-Verdict fd session_opening _ _))

  establish_login-Verdict :
      (d : Daemon) (fd : ℤ) (req : IpcMessage) (p : PamAuth) (t : Trace)
      → Verdict fd t (establish_login os j d fd req p t)
  unfolding establish_login
  establish_login-Verdict d fd req p t =
      let r = establish_credentials os p t in
      before (establish_credentials-IsSilent os p t) (
        if-both (Verdict fd r.1) r.0.0 (finish_login os j d fd req r.0.1)
          (refuse os j fd (words credentials) r.0.1) r.1 (finish_login-Verdict d fd req _ _)
          (refuse-Verdict fd credentials _ _))

  check_login-Verdict :
      (d : Daemon) (fd : ℤ) (req : IpcMessage) (p : PamAuth) (t : Trace)
      → Verdict fd t (check_login os j d fd req p t)
  unfolding check_login
  check_login-Verdict d fd req p t =
      let r = check_account os p t in
      before (check_account-IsSilent os p t) (
        if-both (Verdict fd r.1) r.0.0 (establish_login os j d fd req r.0.1)
          (refuse os j fd (words account) r.0.1) r.1 (establish_login-Verdict d fd req _ _)
          (refuse-Verdict fd account _ _))

  authenticate_login-Verdict :
      (d : Daemon) (fd : ℤ) (req : IpcMessage) (p : PamAuth) (t : Trace)
      → Verdict fd t (authenticate_login os j d fd req p t)
  unfolding authenticate_login
  authenticate_login-Verdict d fd req p t =
      let r = authenticate os p req.password t in
      before (authenticate-IsSilent os p t req.password) (
        if-both (Verdict fd r.1) r.0.0 (check_login os j d fd req r.0.1)
          (refuse os j fd (words authentication) r.0.1) r.1 (check_login-Verdict d fd req _ _)
          (refuse-Verdict fd authentication _ _))

  pub grant_login-Verdict :
      (d : Daemon) (fd : ℤ) (req : IpcMessage) (t : Trace)
      → Verdict fd t (grant_login os j d fd req t)
  unfolding grant_login
  grant_login-Verdict d fd req t =
      let r = start os new_pam req.username (codes "miqudm") t in
      before (start-IsSilent os new_pam t req.username (codes "miqudm")) (
        if-both (Verdict fd r.1) r.0.0 (authenticate_login os j d fd req r.0.1)
          (refuse os j fd (words initialization) r.0.1) r.1
          (authenticate_login-Verdict d fd req _ _) (refuse-Verdict fd initialization _ _))

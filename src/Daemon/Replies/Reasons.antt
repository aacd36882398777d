-- ===== src/Daemon/Replies/Reasons.antt =====
-- Why a login is refused, in the reply of `handle_login_request` of daemon/daemon.cpp: the call of PAM
-- that failed, read off the run, and PAM's text for what it returned.
use miqudm.Prelude.{
  ℕ, suc, length, ◌≡◌, refl, ◌∙◌, ap, Bool, true, false, [], ◌∷◌, ◌++◌, Option, none, some, Text,
  codes, ℤ, arith, if◌then◌else◌, c_str,
}
use miqudm.Os.{
  Os, Trace, Call, M, call, succeeded, if-either, pam_start, pam_set_conv, pam_authenticate,
  pam_acct_mgmt, pam_establish_cred, pam_open_session,
}
use miqudm.Pam.{
  PamAuth, new_pam, start, authenticate, check_account, establish_credentials, open_session,
  end_pam,
}
use miqudm.Ipc.{IpcMessage, serialize}
use miqudm.Ipc.Library.{Json}
use miqudm.Daemon.{Daemon}
use miqudm.Daemon.Login.{
  reply_of, send, refuse, set_session_env, grant, finish_login, establish_login, check_login,
  authenticate_login, grant_login, continue_login, handle_login_request,
}
use miqudm.Daemon.Replies.Launch.{serve_login-IsLaunch}
use miqudm.Daemon.Replies.{written}
use miqudm.Daemon.Replies.Silent.{
  start-IsSilent, authenticate-IsSilent, check_account-IsSilent, establish_credentials-IsSilent,
  open_session-IsSilent, end_pam-IsSilent,
}
use miqudm.Daemon.Replies.Verdict.{
  Stage, words, initialization, authentication, account, credentials, session_opening, IsVerdict,
  set_session_env-IsSilent,
}

-- The stage that a call of PAM belongs to, with what it returned.
abbrev stage_of : Call → ℤ → Option (Stage × ℤ) → Option (Stage × ℤ)
stage_of (pam_start _ _) r o = some (initialization, r)
stage_of (pam_set_conv _ _) r o = some (authentication, r)
stage_of (pam_authenticate _) r o = some (authentication, r)
stage_of (pam_acct_mgmt _) r o = some (account, r)
stage_of (pam_establish_cred _) r o = some (credentials, r)
stage_of (pam_open_session _) r o = some (session_opening, r)
stage_of _ r o = o

-- The last stage of a login that the run has entered, and how its last call came out.
unfoldable pub last_stage : Trace → Option (Stage × ℤ)
last_stage [] = none
last_stage (e ∷ t) = stage_of e.call e.result (last_stage t)

-- The stage `s` was the last one entered, and its call has failed with `ret`.
pub record FailedAt (s : Stage) (ret : ℤ) (t : Trace) : Type 0 where
  pub last : last_stage t ≡ some (s, ret)
  pub failed : succeeded ret ≡ false

-- The reply to a login behind the run `t`: of success, or with the words of the stage that failed and
-- PAM's text for what its call returned.
abbrev pub Explains : Os → Option PamAuth → IpcMessage → Trace → Type 0
Explains os (some p) resp t = resp ≡ reply_of true (codes "Login successful")
Explains os none resp t =
    (s : Stage) × (ret : ℤ) × FailedAt s ret t
    × (resp ≡ reply_of false (words s ++ os.strerror ret))

pub Explains-IsVerdict :
    (os : Os) (o : Option PamAuth) (resp : IpcMessage) (t : Trace)
    → Explains os o resp t
    → IsVerdict o resp
Explains-IsVerdict os (some p) resp t e = e
Explains-IsVerdict os none resp t (s, ret, f, e) = (s, os.strerror ret, e)

-- A method of `PamAuth` that is a stage: with success it keeps the handle, and its failure is told.
pub record IsStage (os : Os) (s : Stage) (r : (Bool × PamAuth) × Trace) : Type 0 where
  pub held : r.0.0 ≡ true → (h : ℕ) × (r.0.1.handle ≡ some h)
  pub told :
      r.0.0 ≡ false → (ret : ℤ) × FailedAt s ret r.1 × (r.0.1.error_message ≡ os.strerror ret)

module _ (os : Os) (j : Json) where
  -- The one reply of a login step, explained.
  abbrev Told : ℤ → Trace → Option PamAuth × Trace → Type 0
  Told fd t r =
      (resp : IpcMessage) × Explains os r.0 resp r.1
      × (written r.1 ≡ (fd, serialize j resp) ∷ written t)

  end_pam-last_stage : (p : PamAuth) (t : Trace) → last_stage (end_pam os p t).1 ≡ last_stage t
  unfolding end_pam last_stage
  end_pam-last_stage p t = ground arith

  refuse-Told :
      (fd : ℤ) (s : Stage) (ret : ℤ) (p : PamAuth) (t : Trace)
      → FailedAt s ret t
      → p.error_message ≡ os.strerror ret
      → Told fd t (refuse os j fd (words s) p t)
  unfolding refuse send last_stage written
  refuse-Told fd s ret p t f e =
      let resp = reply_of false (words s ++ p.error_message) in
      let sent = (send os j fd resp t).1 in
      (
        resp,
        (
          s,
          ret,
          record { last = end_pam-last_stage p sent ∙ f.last; failed = f.failed },
          ap (λ m. reply_of false (words s ++ m)) e,
        ),
        (end_pam-IsSilent os p sent).same,
      )

  -- A stage that is entered: the next one follows, or the refusal.
  stage-Told :
      (fd : ℤ) (s : Stage) (t : Trace) (r : (Bool × PamAuth) × Trace)
      (next : PamAuth → M (Option PamAuth))
      → IsStage os s r
      → written r.1 ≡ written t
      → ((h : ℕ) → r.0.1.handle ≡ some h → Told fd r.1 (next r.0.1 r.1))
      → Told fd t ((if r.0.0 then next r.0.1 else refuse os j fd (words s) r.0.1) r.1)
  stage-Told fd s t r next stage same goes_on =
      let whole =
        if-either (Told fd r.1) r.0.0 (next r.0.1) (refuse os j fd (words s) r.0.1) r.1
          (λ e. let (h, held) = stage.held e in goes_on h held)
          (λ e. let (ret, f, m) = stage.told e in refuse-Told fd s ret r.0.1 r.1 f m) in
      (whole.0, whole.1, whole.2 ∙ ap (λ ws. (fd, serialize j whole.0) ∷ ws) same)

  start-IsStage :
      (username service : Text) (t : Trace)
      → IsStage os initialization (start os new_pam username service t)
  unfolding start end_pam last_stage
  start-IsStage username service t =
      let first = call os (pam_start (c_str service) (c_str username)) t in
      let second = call os (pam_start (c_str (codes "login")) (c_str username)) first.1 in
      record {
        held = λ e. (if succeeded first.0 then length t else suc (length t), ground arith);
        told = λ e. (second.0, record { last = ground arith; failed = ground arith }, ground arith);
      }

  authenticate-IsStage :
      (p : PamAuth) (h : ℕ) (password : Text) (t : Trace)
      → p.handle ≡ some h
      → IsStage os authentication (authenticate os p password t)
  unfolding authenticate last_stage
  authenticate-IsStage p h password t e =
      let set = call os (pam_set_conv h password) t in
      let done = call os (pam_authenticate h) set.1 in
      record {
        held = λ x. (h, ground arith);
        told = λ x. (
          if succeeded set.0 then done.0 else set.0,
          record { last = ground arith; failed = ground arith },
          ground arith,
        );
      }

  check_account-IsStage :
      (p : PamAuth) (h : ℕ) (t : Trace)
      → p.handle ≡ some h
      → IsStage os account (check_account os p t)
  unfolding check_account last_stage
  check_account-IsStage p h t e = record {
    held = λ x. (h, ground arith);
    told = λ x. (
      os.ret t (pam_acct_mgmt h),
      record { last = ground arith; failed = ground arith },
      ground arith,
    );
  }

  establish_credentials-IsStage :
      (p : PamAuth) (h : ℕ) (t : Trace)
      → p.handle ≡ some h
      → IsStage os credentials (establish_credentials os p t)
  unfolding establish_credentials last_stage
  establish_credentials-IsStage p h t e = record {
    held = λ x. (h, ground arith);
    told = λ x. (
      os.ret t (pam_establish_cred h),
      record { last = ground arith; failed = ground arith },
      ground arith,
    );
  }

  open_session-IsStage :
      (p : PamAuth) (h : ℕ) (t : Trace)
      → p.handle ≡ some h
      → IsStage os session_opening (open_session os p t)
  unfolding open_session last_stage
  open_session-IsStage p h t e = record {
    held = λ x. (h, ground arith);
    told = λ x. (
      os.ret t (pam_open_session h),
      record { last = ground arith; failed = ground arith },
      ground arith,
    );
  }

  -- What is written before a step that stays silent.
  earlier :
      (fd : ℤ) (t u : Trace) (r : Option PamAuth × Trace)
      → written u ≡ written t
      → Told fd u r
      → Told fd t r
  earlier fd t u r same (resp, why, sent) =
      (resp, why, sent ∙ ap (λ ws. (fd, serialize j resp) ∷ ws) same)

  finish_login-Told :
      (d : Daemon) (fd : ℤ) (req : IpcMessage) (p : PamAuth) (h : ℕ) (t : Trace)
      → p.handle ≡ some h
      → Told fd t (finish_login os j d fd req p t)
  unfolding finish_login grant send written
  finish_login-Told d fd req p h t held =
      let u = (set_session_env os j d req p t).1 in
      earlier fd t u _ (set_session_env-IsSilent os j d req p t).same (
        stage-Told fd session_opening u (open_session os p u) (grant os j fd)
          (open_session-IsStage p h u held) (open_session-IsSilent os p u).same
          (λ k e. (_, refl, refl)))

  establish_login-Told :
      (d : Daemon) (fd : ℤ) (req : IpcMessage) (p : PamAuth) (h : ℕ) (t : Trace)
      → p.handle ≡ some h
      → Told fd t (establish_login os j d fd req p t)
  unfolding establish_login
  establish_login-Told d fd req p h t held =
      let r = establish_credentials os p t in
      stage-Told fd credentials t r (finish_login os j d fd req)
        (establish_credentials-IsStage p h t held) (establish_credentials-IsSilent os p t).same
        (λ k e. finish_login-Told d fd req r.0.1 k r.1 e)

  check_login-Told :
      (d : Daemon) (fd : ℤ) (req : IpcMessage) (p : PamAuth) (h : ℕ) (t : Trace)
      → p.handle ≡ some h
      → Told fd t (check_login os j d fd req p t)
  unfolding check_login
  check_login-Told d fd req p h t held =
      let r = check_account os p t in
      stage-Told fd account t r (establish_login os j d fd req) (check_account-IsStage p h t held)
        (check_account-IsSilent os p t).same (λ k e. establish_login-Told d fd req r.0.1 k r.1 e)

  authenticate_login-Told :
      (d : Daemon) (fd : ℤ) (req : IpcMessage) (p : PamAuth) (h : ℕ) (t : Trace)
      → p.handle ≡ some h
      → Told fd t (authenticate_login os j d fd req p t)
  unfolding authenticate_login
  authenticate_login-Told d fd req p h t held =
      let r = authenticate os p req.password t in
      stage-Told fd authentication t r (check_login os j d fd req)
        (authenticate-IsStage p h req.password t held)
        (authenticate-IsSilent os p t req.password).same
        (λ k e. check_login-Told d fd req r.0.1 k r.1 e)

  -- Exactly one reply is written, of success where the login is granted, and else with the words of
  -- the last stage that was entered and PAM's text for what its failed call returned.
  grant_login-Told :
      (d : Daemon) (fd : ℤ) (req : IpcMessage) (t : Trace) → Told fd t (grant_login os j d fd req t)
  unfolding grant_login
  grant_login-Told d fd req t =
      let r = start os new_pam req.username (codes "miqudm") t in
      stage-Told fd initialization t r (authenticate_login os j d fd req)
        (start-IsStage req.username (codes "miqudm") t)
        (start-IsSilent os new_pam t req.username (codes "miqudm")).same
        (λ k e. authenticate_login-Told d fd req r.0.1 k r.1 e)

  continue_login-written :
      (d : Daemon) (req : IpcMessage) (o : Option PamAuth) (t : Trace)
      → written (continue_login os j d req o t).1 ≡ written t
  unfolding continue_login
  continue_login-written d req none t = refl
  continue_login-written d req (some p) t = (serve_login-IsLaunch os j d req p t).same

  -- The same of the whole handler, where the session follows on a reply of success.
  pub handle_login_request-Told :
      (d : Daemon) (fd : ℤ) (req : IpcMessage) (t : Trace)
      → let granted = grant_login os j d fd req t in
        (resp : IpcMessage) × Explains os granted.0 resp granted.1
        × (written (handle_login_request os j d fd req t).1 ≡ (fd, serialize j resp) ∷ written t)
  unfolding handle_login_request
  handle_login_request-Told d fd req t =
      let (resp, why, sent) = grant_login-Told d fd req t in
      (resp, why, continue_login-written d req _ _ ∙ sent)

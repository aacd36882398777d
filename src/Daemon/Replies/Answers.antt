-- ===== src/Daemon/Replies/Answers.antt =====
-- The reply to a request, `process_message` of daemon/daemon.cpp.
use miqudm.Prelude.{
  ◌≡◌, ◌⊎◌, inl, inr, ◌∙◌, ap, List, ◌∷◌, ◌++◌, refl, Bool, true, false, [], Option, none, some,
  codes, ℤ, arith,
}
use miqudm.Os.{Os, Trace}
use miqudm.Users.{scan_users}
use miqudm.Sessions.{scan_all}
use miqudm.Pam.{PamAuth}
use miqudm.Ipc.{
  IpcMessage, IpcMessageType, unknown, ping, get_users, get_sessions, login, power_action, response,
  session_status,
}
use miqudm.Ipc.Library.{Json}
use miqudm.Daemon.{Daemon}
use miqudm.Daemon.Login.{
  reply_of, grant_login, serve_login, continue_login, handle_login_request, find_user, find_session,
}
use miqudm.Daemon.Requests.{
  trigger, power_message, handle_power_action, process_type, process_message,
}
use miqudm.Daemon.Replies.{Fork, forked}
use miqudm.Daemon.Replies.Silent.{trigger-IsSilent}
use miqudm.Daemon.Replies.Verdict.{
  IsVerdict, Answers, before, send-Answers, weaken, grant_login-Verdict,
}
use miqudm.Daemon.Replies.Launch.{IsLaunch, serve_login-IsLaunch}

-- The session that a login request forks, if any: of the user and the session that it names.
abbrev pub MayFork : Daemon → IpcMessage → Option PamAuth → List Fork → Type 0
MayFork d req none fs = fs ≡ []
MayFork d req (some p) fs =
    (fs ≡ [])
    ⊎ (fs ≡ (find_user req.username d.cached_users, find_session req d.cached_sessions) ∷ [])

-- A reply of success, with perhaps a session, or one of failure without.
abbrev pub IsServed : Daemon → IpcMessage → Option PamAuth → IpcMessage → List Fork → Type 0
IsServed d req granted resp fs = IsVerdict granted resp × MayFork d req granted fs

-- The contract of the daemon: the replies that a request of a type may get at a point of the run, and
-- the sessions that it may fork.
abbrev pub Promise :
    Os → Json → Daemon → IpcMessage → Trace → IpcMessageType → IpcMessage → List Fork → Type 0
Promise os j d req t ping resp fs = (resp ≡ reply_of true (codes "pong")) × (fs ≡ [])
Promise os j d req t get_users resp fs =
    (resp ≡ record (reply_of true []) { users = scan_users (os.user_source t) }) × (fs ≡ [])
Promise os j d req t get_sessions resp fs =
    (resp ≡ record (reply_of true []) { sessions = scan_all (os.directories t) }) × (fs ≡ [])
Promise os j d req t login resp fs = (granted : Option PamAuth) × IsServed d req granted resp fs
Promise os j d req t power_action resp fs =
    (ok : Bool) × ((resp ≡ reply_of ok (power_message os j ok)) × (fs ≡ []))
Promise os j d req t _ resp fs = (resp ≡ reply_of false (codes "Unknown IPC command")) × (fs ≡ [])

launched_after :
    {j : Json} (d : Daemon) (req : IpcMessage) (p : PamAuth) {fd : ℤ} (t : Trace) {u v : Trace}
    → Answers j (λ resp fs. IsVerdict (some p) resp × (fs ≡ [])) fd t u
    → IsLaunch (find_user req.username d.cached_users, find_session req d.cached_sessions) u v
    → Answers j (IsServed d req (some p)) fd t v
launched_after d req p t a l = elim l.forks [
  | inl none_forked ↦ record {
    resp = a.resp;
    forks = [];
    promised = (a.promised.0, inl refl);
    grows = let x = a.grows in let y = l.grows in omega arith;
    sent = l.same ∙ a.sent;
    added = none_forked ∙ a.added ∙ ap (λ fs. fs ++ forked t) a.promised.1;
    fds = l.fds ∙ a.fds;
  }
  | inr one_forked ↦ record {
    resp = a.resp;
    forks = _ ∷ [];
    promised = (a.promised.0, inr refl);
    grows = let x = a.grows in let y = l.grows in omega arith;
    sent = l.same ∙ a.sent;
    added =
        one_forked
        ∙ ap
            (λ fs. (find_user req.username d.cached_users, find_session req d.cached_sessions) ∷ fs)
            (a.added ∙ ap (λ fs. fs ++ forked t) a.promised.1);
    fds = l.fds ∙ a.fds;
  }
]

module _ (os : Os) (j : Json) where
  -- The reply of success, and then the session.
  serve_login-Answers :
      (d : Daemon) (fd : ℤ) (req : IpcMessage) (p : PamAuth) (t u : Trace)
      → Answers j (λ resp fs. IsVerdict (some p) resp × (fs ≡ [])) fd t u
      → Answers j (IsServed d req (some p)) fd t (serve_login os j d req p u).1
  serve_login-Answers d fd req p t u a =
      launched_after d req p t a (serve_login-IsLaunch os j d req p u)

  continue_login-Answers :
      (d : Daemon) (fd : ℤ) (req : IpcMessage) (o : Option PamAuth) (t u : Trace)
      → Answers j (λ resp fs. IsVerdict o resp × (fs ≡ [])) fd t u
      → Answers j (IsServed d req o) fd t (continue_login os j d req o u).1
  unfolding continue_login
  continue_login-Answers d fd req none t u a = weaken _ _ fd t u (λ resp fs v. v) a
  continue_login-Answers d fd req (some p) t u a = serve_login-Answers d fd req p t u a

  pub handle_login_request-Answers :
      (d : Daemon) (fd : ℤ) (req : IpcMessage) (t : Trace)
      → Answers j
          (IsServed d req (grant_login os j d fd req t).0)
          fd
          t
          (handle_login_request os j d fd req t).1
  unfolding handle_login_request
  handle_login_request-Answers d fd req t =
      continue_login-Answers d fd req _ t _ (grant_login-Verdict os j d fd req t)

  process_type-Answers :
      (k : IpcMessageType) (d : Daemon) (fd : ℤ) (req : IpcMessage) (t : Trace)
      → Answers j (Promise os j d req t k) fd t (process_type os j k d fd req t).1
  unfolding process_type handle_power_action
  process_type-Answers ping d fd req t = send-Answers os j _ fd _ t (refl, refl)
  process_type-Answers get_users d fd req t = send-Answers os j _ fd _ t (refl, refl)
  process_type-Answers get_sessions d fd req t = send-Answers os j _ fd _ t (refl, refl)
  process_type-Answers power_action d fd req t =
      before (trigger-IsSilent os j req.power_action_name d.logind t) (
        send-Answers os j _ fd _ _
          ((trigger os j req.power_action_name d.logind t).0.0, (refl, refl)))
  process_type-Answers login d fd req t =
      weaken _ _ fd t _ (λ resp fs served. ((grant_login os j d fd req t).0, served))
        (handle_login_request-Answers d fd req t)
  process_type-Answers unknown d fd req t = send-Answers os j _ fd _ t (refl, refl)
  process_type-Answers response d fd req t = send-Answers os j _ fd _ t (refl, refl)
  process_type-Answers session_status d fd req t = send-Answers os j _ fd _ t (refl, refl)

  -- Every request gets exactly one reply, on its own connection, and the reply is one that the contract
  -- allows for the type of the request. A login that gets the reply of success forks at most one
  -- session, of the user and the session that the request names among the cached ones; no other
  -- request, and no login that is refused, forks any. No descriptor is opened or closed. It holds
  -- whichever calls fail.
  pub process_message-Answers :
      (d : Daemon) (fd : ℤ) (req : IpcMessage) (t : Trace)
      → Answers j (Promise os j d req t req.type) fd t (process_message os j d fd req t).1
  unfolding process_message
  process_message-Answers d fd req t = process_type-Answers req.type d fd req t

-- ===== src/Daemon/Replies/Launch.antt =====
-- The session behind a login that is granted, `handle_login_request` of daemon/daemon.cpp.
use miqudm.Prelude.{
  ◌≡◌, ◌≤◌, ◌⊎◌, inl, inr, ◌∙◌, ap, List, ◌∷◌, Text, length, subst, refl, not, ◌&&◌, none, some, ℤ,
  pos, arith,
}
use miqudm.Os.{is_stopped, Os, Trace, pure, if-both}
use miqudm.Users.{UserInfo}
use miqudm.Sessions.{SessionInfo}
use miqudm.Pam.{PamAuth, get_environment_list}
use miqudm.Session.{SessionLauncher, launch, wait_for_exit}
use miqudm.Ipc.{IpcMessage}
use miqudm.Ipc.Library.{Json}
use miqudm.Daemon.{Daemon}
use miqudm.Daemon.Greeter.{end_greeter_process, stop_greeter, start_greeter, release_pam}
use miqudm.Daemon.Login.{
  remember_user, run_session, is_running_now, serve_login, find_user, find_session,
}
use miqudm.Daemon.Replies.{
  Fork, forked, written, descriptors, IsSilent, IsSilent-refl, IsSilent-trans,
}
use miqudm.Daemon.Replies.Silent.{
  get_environment_list-IsSilent, wait_for_exit-IsSilent, release_pam-IsSilent,
  stop_greeter-IsSilent, start_greeter-IsSilent,
}

-- Nothing is written, a session is forked or none, and no descriptor is opened or closed.
pub record IsLaunch (x : Fork) (t t' : Trace) : Type 0 where
  pub grows : length t ≤ length t'
  pub same : written t' ≡ written t
  pub forks : (forked t' ≡ forked t) ⊎ (forked t' ≡ x ∷ forked t)
  pub fds : descriptors t' ≡ descriptors t

IsLaunch-before : {x : Fork} {t u v : Trace} → IsSilent t u → IsLaunch x u v → IsLaunch x t v
IsLaunch-before {x} q l = record {
  grows = let a = q.grows in let b = l.grows in omega arith;
  same = l.same ∙ q.same;
  forks = elim l.forks [ inl e ↦ inl (e ∙ q.forks) | inr e ↦ inr (e ∙ ap (λ fs. x ∷ fs) q.forks) ];
  fds = l.fds ∙ q.fds;
}

IsLaunch-after : {x : Fork} {t u v : Trace} → IsLaunch x t u → IsSilent u v → IsLaunch x t v
IsLaunch-after l q = record {
  grows = let a = q.grows in let b = l.grows in omega arith;
  same = q.same ∙ l.same;
  forks = elim l.forks [ inl e ↦ inl (q.forks ∙ e) | inr e ↦ inr (q.forks ∙ e) ];
  fds = q.fds ∙ l.fds;
}

module _ (os : Os) (j : Json) where
  remember_user-IsSilent :
      (req : IpcMessage) (d : Daemon) (t : Trace) → IsSilent t (remember_user os j req d t).1
  unfolding remember_user written forked descriptors
  remember_user-IsSilent req d t = ground arith

  launch-IsLaunch :
      (l : SessionLauncher) (u : UserInfo) (s : SessionInfo) (envs : List Text) (vt : ℤ) (t : Trace)
      → IsLaunch (u, s) t (launch os l u s envs vt t).1
  unfolding launch written forked descriptors
  launch-IsLaunch l u s envs vt t = ground arith

  run_session-IsLaunch :
      (d : Daemon) (req : IpcMessage) (p : PamAuth) (t : Trace)
      → IsLaunch
          (find_user req.username d.cached_users, find_session req d.cached_sessions)
          t
          (run_session os j d req p t).1
  unfolding run_session
  run_session-IsLaunch d req p t =
      let envs = get_environment_list os p t in
      let l =
        launch os d.session_launcher (find_user req.username d.cached_users)
          (find_session req d.cached_sessions) envs.0 d.config.general.vt envs.1 in
      IsLaunch-before (get_environment_list-IsSilent os p t) (
        IsLaunch-after (launch-IsLaunch d.session_launcher _ _ envs.0 d.config.general.vt envs.1) (
          if-both (λ r. IsSilent l.1 r.1) l.0.0 (wait_for_exit os l.0.1) (pure (pos 0, l.0.1)) l.1
            (wait_for_exit-IsSilent os l.0.1 l.1) (IsSilent-refl l.1)))

  -- The lists that a request is looked up in stay.
  SameCached : Daemon → Daemon → Type 0
  SameCached d d' = (d'.cached_users ≡ d.cached_users) × (d'.cached_sessions ≡ d.cached_sessions)

  stop_greeter-SameCached : (d : Daemon) (t : Trace) → SameCached d (stop_greeter os d t).0
  unfolding stop_greeter end_greeter_process SameCached
  stop_greeter-SameCached d t = ground arith

  remember_user-SameCached :
      (req : IpcMessage) (d : Daemon) (t : Trace) → SameCached d (remember_user os j req d t).0
  unfolding remember_user SameCached
  remember_user-SameCached req d t = ground arith

  looked_up : Daemon → IpcMessage → Fork
  looked_up d req = (find_user req.username d.cached_users, find_session req d.cached_sessions)

  SameCached-looked_up :
      (d d' : Daemon) (req : IpcMessage) → SameCached d d' → looked_up d' req ≡ looked_up d req
  unfolding SameCached looked_up
  SameCached-looked_up d d' req c = rw (c.0, c.1) refl

  pub serve_login-IsLaunch :
      (d : Daemon) (req : IpcMessage) (p : PamAuth) (t : Trace)
      → IsLaunch
          (find_user req.username d.cached_users, find_session req d.cached_sessions)
          t
          (serve_login os j d req p t).1
  unfolding serve_login is_running_now looked_up
  serve_login-IsLaunch d req p t =
      let stopped = stop_greeter os d t in
      let remembered = remember_user os j req stopped.0 stopped.1 in
      let active = record remembered.0 { active_pam = some p } in
      let ran = run_session os j active req p remembered.1 in
      let freed = (release_pam os (some p) ran.1).1 in
      let done = record ran.0 { active_pam = none } in
      let same =
        SameCached-looked_up stopped.0 remembered.0 req
          (remember_user-SameCached req stopped.0 stopped.1)
        ∙ SameCached-looked_up d stopped.0 req (stop_greeter-SameCached d t) in
      let l =
        subst (λ x. IsLaunch x remembered.1 ran.1) same
          (run_session-IsLaunch active req p remembered.1) in
      IsLaunch-before (stop_greeter-IsSilent os d t) (
        IsLaunch-before (remember_user-IsSilent req stopped.0 stopped.1) (
          IsLaunch-after l (
            IsSilent-trans (release_pam-IsSilent os (some p) ran.1) (
              if-both (λ r. IsSilent freed r.1) (done.running && not (is_stopped os freed))
                (start_greeter os done) (pure done) freed (start_greeter-IsSilent os done freed)
                (IsSilent-refl freed)))))

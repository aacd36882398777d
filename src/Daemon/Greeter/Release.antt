-- ===== src/Daemon/Greeter/Release.antt =====
-- What `start_greeter` and `stop_greeter` of daemon/daemon.cpp do to the PAM handles of the daemon.
use miqudm.Prelude.{
  ℕ, zero, suc, ◌≡◌, refl, subst, sym, false, Option, none, some, Text, ℤ, codes, is_pos, arith,
  ◌||◌, is_empty, Bool-cases, inl, inr,
}
use miqudm.Prelude.Decimal.{to_text}
use miqudm.Users.{Passwd}
use miqudm.Os.{Os, Trace, usleep, call, pure, if-both, waitpid_nohang, kill_process, kill_group}
use miqudm.Session.{sigterm}
use miqudm.Pam.Status.{status, guarded, guarded_step, pam_step}
use miqudm.Pam.{PamAuth, new_pam, start}
use miqudm.Pam.Methods.{
  Mirrors, close_session-IsStep, delete_credentials-IsStep, start-IsStep, set_env-IsStep,
  establish_credentials-IsStep, open_session-IsStep,
}
use miqudm.Pam.Turns.{
  IsTurn, IsTurn-trans, IsStep-IsTurn, IsQuiet, IsQuiet-refl, IsQuiet-IsTurn, object,
  new_pam-Mirrors, end_pam-IsTurn, event-IsQuiet, if-IsTurn,
}
use miqudm.Daemon.{Daemon}
use miqudm.Daemon.Greeter.{
  await_greeter, kill_greeter, end_greeter_process, release_pam, stop_greeter, start_greeter,
  drop_pam, make_runtime_dir, open_greeter_pam, register_greeter, spawn_greeter, spawn_process,
  greeter_account, user_name_of,
}

module _ (os : Os) where
  await_greeter-IsQuiet : (n : ℕ) (pid : ℤ) (t : Trace) → IsQuiet t (await_greeter os n pid t).1
  unfolding await_greeter status guarded
  await_greeter-IsQuiet zero pid t = IsQuiet-refl t
  await_greeter-IsQuiet (suc n) pid t =
      let slept = (call os (usleep 100000) (call os (waitpid_nohang pid) t).1).1 in
      let rest = await_greeter-IsQuiet n pid slept in
      record {
        grows = let g = rest.grows in ground arith;
        safe = λ g. let f = rest.safe in ground arith;
        frame = λ k. let f = rest.frame k in ground arith;
      }

  kill_greeter-IsQuiet : (pid : ℤ) (t : Trace) → IsQuiet t (kill_greeter os pid t).1
  unfolding kill_greeter status guarded
  kill_greeter-IsQuiet pid t = ground arith

  end_greeter_process-IsQuiet : (d : Daemon) (t : Trace) → IsQuiet t (end_greeter_process os d t).1
  unfolding end_greeter_process status guarded
  end_greeter_process-IsQuiet d t =
      let pid = d.greeter_pid in
      let signalled =
        (call os (kill_process pid sigterm) (call os (kill_group pid sigterm) t).1).1 in
      let waited = await_greeter-IsQuiet 20 pid signalled in
      let killed = kill_greeter-IsQuiet pid (await_greeter os 20 pid signalled).1 in
      record {
        grows = let g = waited.grows in let h = killed.grows in ground arith;
        safe = λ g. let f = waited.safe in let h = killed.safe in ground arith;
        frame = λ k. let f = waited.frame k in let h = killed.frame k in ground arith;
      }

  make_runtime_dir-IsQuiet :
      (account : Option Passwd) (t : Trace) → IsQuiet t (make_runtime_dir os account t).1
  unfolding make_runtime_dir status guarded
  make_runtime_dir-IsQuiet none t = ground arith
  make_runtime_dir-IsQuiet (some pw) t = ground arith

  end_greeter_process-same :
      (d : Daemon) (t : Trace)
      → ((end_greeter_process os d t).0.greeter_pam ≡ d.greeter_pam)
        × (is_pos (end_greeter_process os d t).0.greeter_pid ≡ false)
  unfolding end_greeter_process
  end_greeter_process-same d t = elim (Bool-cases (is_pos d.greeter_pid)) [
    | inl e ↦ ground arith
    | inr e ↦ ground arith
  ]

  pub release_pam-IsTurn :
      (o : Option PamAuth) (t : Trace)
      → Mirrors (object o) t
      → IsTurn (object o) t new_pam (release_pam os o t).1
  unfolding release_pam
  release_pam-IsTurn none t m = IsQuiet-IsTurn new_pam m (IsQuiet-refl t)
  release_pam-IsTurn (some p) t m =
      let a = close_session-IsStep os p t m in
      let b = delete_credentials-IsStep os _ _ a.mirrors in
      IsTurn-trans (IsStep-IsTurn a)
        (IsTurn-trans (IsStep-IsTurn b) (end_pam-IsTurn os _ _ b.mirrors))

  drop_pam-IsTurn :
      (o : Option PamAuth) (t : Trace)
      → Mirrors (object o) t
      → IsTurn (object o) t new_pam (drop_pam os o t).1
  unfolding drop_pam
  drop_pam-IsTurn none t m = IsQuiet-IsTurn new_pam m (IsQuiet-refl t)
  drop_pam-IsTurn (some p) t m = end_pam-IsTurn os p t m

  pub stop_greeter-IsTurn :
      (d : Daemon) (t : Trace)
      → Mirrors (object d.greeter_pam) t
      → IsTurn (object d.greeter_pam) t new_pam (stop_greeter os d t).1
  unfolding stop_greeter pam_step guarded_step
  stop_greeter-IsTurn d t m =
      let quiet = IsQuiet-IsTurn (object d.greeter_pam) m (end_greeter_process-IsQuiet d t) in
      let d' = (end_greeter_process os d t).0 in
      let t' = (end_greeter_process os d t).1 in
      let same = (end_greeter_process-same d t).0 in
      let m' = subst (λ o. Mirrors (object o) t') (sym same) quiet.mirrors in
      let left = (release_pam os d'.greeter_pam t').1 in
      let freed =
        subst (λ o. IsTurn (object o) t' new_pam left) same (release_pam-IsTurn _ t' m') in
      IsTurn-trans quiet (
        IsTurn-trans freed (
          IsQuiet-IsTurn new_pam freed.mirrors
            (event-IsQuiet (usleep 200000) _ _ ((λ h n ok s. refl), (λ b u. refl)))))

  -- `stop_greeter` leaves no greeter to wait for and no PAM object.
  pub stop_greeter-same :
      (d : Daemon) (t : Trace)
      → ((stop_greeter os d t).0.greeter_pam ≡ none)
        × (is_pos (stop_greeter os d t).0.greeter_pid ≡ false)
  unfolding stop_greeter
  stop_greeter-same d t = (refl, (end_greeter_process-same d t).1)

  register_greeter-IsTurn :
      (vt : ℤ) (p : PamAuth) (t : Trace)
      → Mirrors p t
      → IsTurn p t (register_greeter os vt p t).0 (register_greeter os vt p t).1
  unfolding register_greeter
  register_greeter-IsTurn vt p t m =
      let a = set_env-IsStep os p t m (codes "XDG_SESSION_CLASS") (codes "greeter") in
      let b = set_env-IsStep os p _ a.mirrors (codes "XDG_SESSION_TYPE") (codes "wayland") in
      let c = set_env-IsStep os p _ b.mirrors (codes "XDG_SEAT") (codes "seat0") in
      let e = set_env-IsStep os p _ c.mirrors (codes "XDG_VTNR") (to_text vt) in
      let f = establish_credentials-IsStep os p _ e.mirrors in
      let g = open_session-IsStep os _ _ f.mirrors in
      IsTurn-trans (IsStep-IsTurn a) (
        IsTurn-trans (IsStep-IsTurn b) (
          IsTurn-trans (IsStep-IsTurn c)
            (IsTurn-trans (IsStep-IsTurn e) (IsTurn-trans (IsStep-IsTurn f) (IsStep-IsTurn g)))))

  open_greeter_pam-IsTurn :
      (vt : ℤ) (name : Text) (t : Trace)
      → IsTurn new_pam t (open_greeter_pam os vt name t).0 (open_greeter_pam os vt name t).1
  unfolding open_greeter_pam
  open_greeter_pam-IsTurn vt name t =
      let s = start-IsStep os new_pam t (new_pam-Mirrors t) name (codes "miqudm-greeter") in
      let p = (start os new_pam name (codes "miqudm-greeter") t).0 in
      if-IsTurn p.0 (register_greeter os vt p.1) (pure p.1) (IsStep-IsTurn s)
        (register_greeter-IsTurn vt _ _ s.mirrors) (IsQuiet-IsTurn _ s.mirrors (IsQuiet-refl _))

  spawn_process-IsQuiet : (d : Daemon) (t : Trace) → IsQuiet t (spawn_process os d t).1
  unfolding spawn_process status guarded
  spawn_process-IsQuiet d t = ground arith

  spawn_process-same :
      (d : Daemon) (t : Trace) → (spawn_process os d t).0.greeter_pam ≡ d.greeter_pam
  unfolding spawn_process
  spawn_process-same d t = ground arith

  spawn_greeter-IsTurn :
      (d : Daemon) (t : Trace)
      → Mirrors (object d.greeter_pam) t
      → IsTurn
          (object d.greeter_pam)
          t
          (object (spawn_greeter os d t).0.greeter_pam)
          (spawn_greeter os d t).1
  unfolding spawn_greeter
  spawn_greeter-IsTurn d t m =
      let account = greeter_account os d.config.general.greeter_user in
      let dropped = drop_pam-IsTurn d.greeter_pam t m in
      let p =
        open_greeter_pam os d.config.general.vt (user_name_of os account)
          (drop_pam os d.greeter_pam t).1 in
      let opened =
        open_greeter_pam-IsTurn d.config.general.vt (user_name_of os account)
          (drop_pam os d.greeter_pam t).1 in
      let made = IsQuiet-IsTurn p.0 opened.mirrors (make_runtime_dir-IsQuiet account.1 p.1) in
      let u = (make_runtime_dir os account.1 p.1).1 in
      let d' = record d { greeter_pam = some p.0 } in
      let left = (spawn_process os d' u).1 in
      let forked = IsQuiet-IsTurn p.0 made.mirrors (spawn_process-IsQuiet d' u) in
      let all = IsTurn-trans dropped (IsTurn-trans opened (IsTurn-trans made forked)) in
      subst (λ o. IsTurn (object d.greeter_pam) t (object o) left) (sym (spawn_process-same d' u))
        all

  pub start_greeter-IsTurn :
      (d : Daemon) (t : Trace)
      → Mirrors (object d.greeter_pam) t
      → IsTurn
          (object d.greeter_pam)
          t
          (object (start_greeter os d t).0.greeter_pam)
          (start_greeter os d t).1
  unfolding start_greeter
  start_greeter-IsTurn d t m =
      if-both (λ r. IsTurn (object d.greeter_pam) t (object r.0.greeter_pam) r.1)
        (is_pos d.greeter_pid || is_empty d.config.general.greeter_command) (pure d)
        (spawn_greeter os d) t (IsQuiet-IsTurn _ m (IsQuiet-refl t)) (spawn_greeter-IsTurn d t m)

-- ===== src/Daemon/Replies/Silent.antt =====
-- The methods of `PamAuth`, `SessionLauncher` and `LogindManager` (daemon/pam_auth.cpp, session.cpp,
-- logind.cpp), and the greeter's start and end in daemon/daemon.cpp, write nothing to a client.
use miqudm.Prelude.{
  ℕ, zero, suc, refl, ◌||◌, Option, none, some, Text, codes, is_empty, ℤ, arith, is_pos,
}
use miqudm.Os.{Os, Trace, call, pure, if-both, usleep, waitpid_nohang, kill_process, kill_group}
use miqudm.Users.{Passwd}
use miqudm.Pam.{
  PamAuth, new_pam, start, authenticate, check_account, establish_credentials, open_session,
  close_session, delete_credentials, end_pam, set_env, get_environment_list,
}
use miqudm.Session.{SessionLauncher, is_running, wait_loop, wait_for_exit, sigterm}
use miqudm.Logind
use miqudm.Logind.{Logind}
use miqudm.Ipc.Library.{Json}
use miqudm.Daemon.{Daemon}
use miqudm.Daemon.Greeter.{
  await_greeter, kill_greeter, end_greeter_process, release_pam, stop_greeter, start_greeter,
  drop_pam, make_runtime_dir, open_greeter_pam, register_greeter, spawn_greeter, spawn_process,
  greeter_account, user_name_of,
}
use miqudm.Daemon.Requests.{trigger}
use miqudm.Daemon.Replies.{written, forked, descriptors, IsSilent, IsSilent-refl, IsSilent-trans}

module _ (os : Os) (p : PamAuth) (t : Trace) where
  pub start-IsSilent : (u s : Text) → IsSilent t (start os p u s t).1
  unfolding start written forked descriptors
  start-IsSilent u s = ground arith

  pub authenticate-IsSilent : (w : Text) → IsSilent t (authenticate os p w t).1
  unfolding authenticate written forked descriptors
  authenticate-IsSilent w = ground arith

  pub check_account-IsSilent : IsSilent t (check_account os p t).1
  unfolding check_account written forked descriptors
  check_account-IsSilent = ground arith

  pub establish_credentials-IsSilent : IsSilent t (establish_credentials os p t).1
  unfolding establish_credentials written forked descriptors
  establish_credentials-IsSilent = ground arith

  pub open_session-IsSilent : IsSilent t (open_session os p t).1
  unfolding open_session written forked descriptors
  open_session-IsSilent = ground arith

  pub close_session-IsSilent : IsSilent t (close_session os p t).1
  unfolding close_session written forked descriptors
  close_session-IsSilent = ground arith

  pub delete_credentials-IsSilent : IsSilent t (delete_credentials os p t).1
  unfolding delete_credentials written forked descriptors
  delete_credentials-IsSilent = ground arith

  pub end_pam-IsSilent : IsSilent t (end_pam os p t).1
  unfolding end_pam written forked descriptors
  end_pam-IsSilent = ground arith

  pub set_env-IsSilent : (name value : Text) → IsSilent t (set_env os p name value t).1
  unfolding set_env written forked descriptors
  set_env-IsSilent name value = ground arith

  pub get_environment_list-IsSilent : IsSilent t (get_environment_list os p t).1
  unfolding get_environment_list written forked descriptors
  get_environment_list-IsSilent = ground arith

module _ (os : Os) where
  pub is_running-IsSilent : (l : SessionLauncher) (t : Trace) → IsSilent t (is_running os l t).1
  unfolding is_running written forked descriptors
  is_running-IsSilent l t = ground arith

  wait_loop-IsSilent : (n : ℕ) (pid : ℤ) (t : Trace) → IsSilent t (wait_loop os n pid t).1
  unfolding wait_loop written forked descriptors
  wait_loop-IsSilent zero pid t = ground arith
  wait_loop-IsSilent (suc n) pid t =
      IsSilent-trans (record { grows = omega arith; same = refl; forks = refl; fds = refl })
        (wait_loop-IsSilent n pid _)

  pub wait_for_exit-IsSilent :
      (l : SessionLauncher) (t : Trace) → IsSilent t (wait_for_exit os l t).1
  unfolding wait_for_exit
  wait_for_exit-IsSilent l t =
      let w = wait_loop-IsSilent (os.interrupts t) l.session_pid t in ground arith

  pub trigger-IsSilent :
      (j : Json) (action : Text) (l : Logind) (t : Trace) → IsSilent t (trigger os j action l t).1
  unfolding trigger Logind.power_off Logind.reboot Logind.suspend Logind.hibernate written forked
      descriptors Logind.call_manager_method
  trigger-IsSilent j action l t = ground arith

  await_greeter-IsSilent : (n : ℕ) (pid : ℤ) (t : Trace) → IsSilent t (await_greeter os n pid t).1
  unfolding await_greeter written forked descriptors
  await_greeter-IsSilent zero pid t = IsSilent-refl t
  await_greeter-IsSilent (suc n) pid t =
      let rest =
        await_greeter-IsSilent n pid
          (call os (usleep 100000) (call os (waitpid_nohang pid) t).1).1 in
      ground arith

  end_greeter_process-IsSilent :
      (d : Daemon) (t : Trace) → IsSilent t (end_greeter_process os d t).1
  unfolding end_greeter_process kill_greeter written forked descriptors
  end_greeter_process-IsSilent d t =
      let pid = d.greeter_pid in
      let waited =
        await_greeter-IsSilent 20 pid
          (call os (kill_process pid sigterm) (call os (kill_group pid sigterm) t).1).1 in
      ground arith

  pub release_pam-IsSilent : (o : Option PamAuth) (t : Trace) → IsSilent t (release_pam os o t).1
  unfolding release_pam
  release_pam-IsSilent none t = IsSilent-refl t
  release_pam-IsSilent (some p) t =
      IsSilent-trans (close_session-IsSilent os p t)
        (IsSilent-trans (delete_credentials-IsSilent os _ _) (end_pam-IsSilent os _ _))

  pub stop_greeter-IsSilent : (d : Daemon) (t : Trace) → IsSilent t (stop_greeter os d t).1
  unfolding stop_greeter written forked descriptors
  stop_greeter-IsSilent d t =
      let ended = end_greeter_process os d t in
      let freed = release_pam os ended.0.greeter_pam ended.1 in
      IsSilent-trans (end_greeter_process-IsSilent d t) (
        IsSilent-trans (release_pam-IsSilent ended.0.greeter_pam ended.1)
          (record { grows = omega arith; same = refl; forks = refl; fds = refl }))

  pub drop_pam-IsSilent : (o : Option PamAuth) (t : Trace) → IsSilent t (drop_pam os o t).1
  unfolding drop_pam
  drop_pam-IsSilent none t = IsSilent-refl t
  drop_pam-IsSilent (some p) t = end_pam-IsSilent os p t

  register_greeter-IsSilent :
      (vt : ℤ) (p : PamAuth) (t : Trace) → IsSilent t (register_greeter os vt p t).1
  unfolding register_greeter set_env establish_credentials open_session written forked descriptors
  register_greeter-IsSilent vt p t = ground arith

  open_greeter_pam-IsSilent :
      (vt : ℤ) (name : Text) (t : Trace) → IsSilent t (open_greeter_pam os vt name t).1
  unfolding open_greeter_pam
  open_greeter_pam-IsSilent vt name t =
      let started = start os new_pam name (codes "miqudm-greeter") t in
      IsSilent-trans (start-IsSilent os new_pam t name (codes "miqudm-greeter")) (
        if-both (λ r. IsSilent started.1 r.1) started.0.0 (register_greeter os vt started.0.1)
          (pure started.0.1) started.1 (register_greeter-IsSilent vt started.0.1 started.1)
          (IsSilent-refl _))

  make_runtime_dir-IsSilent :
      (account : Option Passwd) (t : Trace) → IsSilent t (make_runtime_dir os account t).1
  unfolding make_runtime_dir written forked descriptors
  make_runtime_dir-IsSilent none t = ground arith
  make_runtime_dir-IsSilent (some pw) t = ground arith

  spawn_process-IsSilent : (d : Daemon) (t : Trace) → IsSilent t (spawn_process os d t).1
  unfolding spawn_process written forked descriptors
  spawn_process-IsSilent d t = ground arith

  spawn_greeter-IsSilent : (d : Daemon) (t : Trace) → IsSilent t (spawn_greeter os d t).1
  unfolding spawn_greeter
  spawn_greeter-IsSilent d t =
      let account = greeter_account os d.config.general.greeter_user in
      IsSilent-trans (drop_pam-IsSilent d.greeter_pam t) (
        IsSilent-trans (open_greeter_pam-IsSilent d.config.general.vt (user_name_of os account) _)
          (IsSilent-trans (make_runtime_dir-IsSilent account.1 _) (spawn_process-IsSilent _ _)))

  pub start_greeter-IsSilent : (d : Daemon) (t : Trace) → IsSilent t (start_greeter os d t).1
  unfolding start_greeter
  start_greeter-IsSilent d t =
      if-both (λ r. IsSilent t r.1)
        (is_pos d.greeter_pid || is_empty d.config.general.greeter_command) (pure d)
        (spawn_greeter os d) t (IsSilent-refl t) (spawn_greeter-IsSilent d t)

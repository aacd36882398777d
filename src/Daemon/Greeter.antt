-- ===== src/Daemon/Greeter.antt =====
-- `start_greeter` and `stop_greeter` of daemon/daemon.cpp. The greeter's process is a run of its own,
-- from its fork.
pub mod Release
pub mod Root
use miqudm.Prelude.{
  ℕ, zero, suc, Bool, true, false, not, ◌&&◌, ◌||◌, List, [], ◌∷◌, ◌++◌, Option, none, some, Text,
  codes, is_empty, if◌then◌else◌, ℤ, pos, negsuc, is_neg, is_pos, eq_ℤ, ◌==◌,
}
use miqudm.Prelude.Decimal.{to_text, nat_to_text}
use miqudm.Users.{Passwd}
use miqudm.Pam.{
  PamAuth, new_pam, start, set_env, establish_credentials, open_session, close_session,
  delete_credentials, end_pam, get_environment_list,
}
use miqudm.Session.{set_all, env_pairs, exec_or, exit_with, ChildEnd, sigterm, sigkill}
use miqudm.Daemon.{Daemon, no_pid}
use miqudm.Os.{
  Os, Trace, Call, fork_greeter, setsid, clearenv, initgroups, setgid, setuid, chdir, execl,
  kill_group, kill_process, waitpid_nohang, waitpid, usleep, create_directories, chmod, chown, M,
  pure, ◌>>=◌, ◌>>◌, call, succeeded,
}

abbrev pub fallbacks : List Text
fallbacks = codes "sddm" ∷ codes "greeter" ∷ codes "miqudm" ∷ codes "nobody" ∷ []

-- The destructor of what a `unique_ptr` held.
unfoldable pub drop_pam : Os → Option PamAuth → M (Unit {0})
drop_pam os none = pure tt
drop_pam os (some p) = do end_pam os p; pure tt

module _ (os : Os) where
  -- The first account of the list that exists, with its name.
  unfoldable pub first_account : List Text → Option (Text × Passwd)
  first_account [] = none
  first_account (name ∷ rest) = elim (os.getpwnam name) [
    | some pw ↦ some (name, pw)
    | none ↦ first_account rest
  ]

  abbrev configured : Text → Option Passwd
  configured name = if not (is_empty name) then os.getpwnam name else none

  -- The account of the greeter, and the name that goes with it.
  unfoldable pub greeter_account : Text → Text × Option Passwd
  unfolding first_account
  greeter_account greeter_user = elim (configured greeter_user) [
    | some pw ↦ (greeter_user, some pw)
    | none ↦ elim (first_account fallbacks) [
      | some (name, pw) ↦ (name, some pw)
      | none ↦ (greeter_user, none)
    ]
  ]

  unfoldable pub user_name_of : Text × Option Passwd → Text
  user_name_of (name, some pw) = pw.pw_name
  user_name_of (name, none) = if is_empty name then codes "sddm" else name

  -- The steps behind a successful `start`.
  unfoldable pub register_greeter : ℤ → PamAuth → M PamAuth
  register_greeter vt p = do
    set_env os p (codes "XDG_SESSION_CLASS") (codes "greeter")
    set_env os p (codes "XDG_SESSION_TYPE") (codes "wayland")
    set_env os p (codes "XDG_SEAT") (codes "seat0")
    set_env os p (codes "XDG_VTNR") (to_text vt)
    established ← establish_credentials os p
    opened ← open_session os established.1
    pure opened.1

  -- The PAM session of the greeter.
  unfoldable pub open_greeter_pam : ℤ → Text → M PamAuth
  unfolding register_greeter
  open_greeter_pam vt user_name = do
    started ← start os new_pam user_name (codes "miqudm-greeter")
    if started.0 then register_greeter vt started.1 else pure started.1

  unfoldable pub runtime_dir_of : Option Passwd → Text
  runtime_dir_of (some pw) = codes "/run/user/" ++ nat_to_text pw.pw_uid
  runtime_dir_of none = codes "/run/miqudm/runtime"

  abbrev exists_now : Text → M Bool
  exists_now path t = (os.exists t path, t)

  -- The directory for XDG_RUNTIME_DIR.
  unfoldable pub make_runtime_dir : Option Passwd → M ℤ
  make_runtime_dir (some pw) = do
    let dir = runtime_dir_of (some pw)
    there ← exists_now dir
    if not there then call os (create_directories dir) else pure (pos 0)
    made ← exists_now dir
    if made
        then (do call os (chmod dir 0o700); call os (chown dir pw.pw_uid pw.pw_gid))
        else pure (pos 0)
  make_runtime_dir none = do
    call os (create_directories (runtime_dir_of none))
    call os (chmod (runtime_dir_of none) 0o700)

  unfoldable pub spawn_process : Daemon → M Daemon
  spawn_process d = do
    pid ← call os fork_greeter
    pure (if is_neg pid then d else record d { greeter_pid = pid })

  unfoldable pub spawn_greeter : Daemon → M Daemon
  spawn_greeter d = do
    let account = greeter_account d.config.general.greeter_user
    drop_pam os d.greeter_pam
    p ← open_greeter_pam d.config.general.vt (user_name_of account)
    make_runtime_dir account.1
    spawn_process (record d { greeter_pam = some p })

  -- `Daemon::start_greeter` in the daemon.
  unfoldable pub start_greeter : Daemon → M Daemon
  unfolding spawn_greeter spawn_process
  start_greeter d =
      if is_pos d.greeter_pid || is_empty d.config.general.greeter_command
      then pure d
      else spawn_greeter d

  -- The privileges that the greeter's process gives up; a failure is only reported.
  unfoldable pub drop_privileges : Option Passwd → M ℤ
  drop_privileges none = pure (pos 0)
  drop_privileges (some pw) = if pw.pw_uid == 0 then pure (pos 0) else (do
    call os (initgroups pw.pw_name pw.pw_gid)
    call os (setgid pw.pw_gid)
    call os (setuid pw.pw_uid))

  unfoldable pub account_env : Option Passwd → List (Text × Text)
  account_env none = []
  account_env (some pw) =
      (codes "HOME", pw.pw_dir)
      ∷ (codes "USER", pw.pw_name)
      ∷ (codes "LOGNAME", pw.pw_name)
      ∷ (codes "SHELL", pw.pw_shell)
      ∷ []

  unfoldable pub greeter_env : ℤ → Text → List (Text × Text)
  greeter_env vt runtime_dir =
      (codes "PATH", codes "/usr/local/bin:/usr/bin:/bin")
      ∷ (codes "XDG_SESSION_CLASS", codes "greeter")
      ∷ (codes "XDG_SESSION_TYPE", codes "wayland")
      ∷ (codes "XDG_SEAT", codes "seat0")
      ∷ (codes "XDG_VTNR", to_text vt)
      ∷ (codes "XDG_RUNTIME_DIR", runtime_dir)
      ∷ []

  unfoldable pub pam_env : Option PamAuth → M (List Text)
  pam_env none = pure []
  pam_env (some p) = get_environment_list os p

  unfoldable pub greeter_directory : Option Passwd → M ℤ
  greeter_directory none = call os (chdir (codes "/tmp"))
  greeter_directory (some pw) = do
    there ← exists_now pw.pw_dir
    call os (chdir (if not (is_empty pw.pw_dir) && there then pw.pw_dir else codes "/tmp"))

  -- The branch `pid == 0` of `start_greeter`.
  unfoldable pub greeter_child : Daemon → Option Passwd → M ChildEnd
  greeter_child d account = do
    call os setsid
    drop_privileges account
    call os clearenv
    set_all os (account_env account)
    set_all os (greeter_env d.config.general.vt (runtime_dir_of account))
    envs ← pam_env d.greeter_pam
    set_all os (env_pairs envs)
    greeter_directory account
    exec_or os (codes "/bin/sh" ∷ codes "sh" ∷ codes "-c" ∷ d.config.general.greeter_command ∷ [])
        (exit_with os 127)

  -- The loop of `stop_greeter`: whether the greeter was seen to end.
  unfoldable pub await_greeter : ℕ → ℤ → M Bool
  await_greeter zero pid = pure false
  await_greeter (suc n) pid = do
    res ← call os (waitpid_nohang pid)
    if eq_ℤ res pid || is_neg res
        then pure true
        else (do call os (usleep 100000); await_greeter n pid)

  unfoldable pub kill_greeter : ℤ → M ℤ
  kill_greeter pid = do
    call os (kill_group pid sigkill)
    call os (kill_process pid sigkill)
    call os (waitpid pid)

  unfoldable pub end_greeter_process : Daemon → M Daemon
  end_greeter_process d = if not (is_pos d.greeter_pid) then pure d else (do
    call os (kill_group d.greeter_pid sigterm)
    call os (kill_process d.greeter_pid sigterm)
    gone ← await_greeter 20 d.greeter_pid
    if gone then pure (pos 0) else kill_greeter d.greeter_pid
    pure (record d { greeter_pid = no_pid }))

  -- `close_session`, `delete_credentials`, `end` and `reset` of a `unique_ptr`.
  unfoldable pub release_pam : Option PamAuth → M (Unit {0})
  release_pam none = pure tt
  release_pam (some p) = do
    closed ← close_session os p
    deleted ← delete_credentials os closed.1
    end_pam os deleted.1
    pure tt

  -- `Daemon::stop_greeter`.
  unfoldable pub stop_greeter : Daemon → M Daemon
  stop_greeter d = do
    d' ← end_greeter_process d
    release_pam d'.greeter_pam
    call os (usleep 200000)
    pure (record d' { greeter_pam = none })

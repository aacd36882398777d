-- ===== src/Session.antt =====
-- daemon/session.hpp and daemon/session.cpp: `SessionLauncher`, and what its child process does.
-- The child is a run of its own, from its fork.
pub mod Identity
pub mod Child
pub mod Wait
pub mod Terminate
pub mod Environment
use miqudm.Prelude.{
  ℕ, zero, suc, ◌+◌, Bool, true, false, ◌&&◌, not, List, [], ◌∷◌, ◌++◌, Option, none, some, Text,
  codes, split_first, is_empty, if◌then◌else◌, ℤ, pos, negsuc, is_neg, is_pos, is_zero, eq_ℤ,
}
use miqudm.Prelude.Decimal.{to_text, nat_to_text}
use miqudm.Users.{UserInfo}
use miqudm.Sessions.{SessionInfo}
use miqudm.Os.{
  Os, Call, fork_session, setsid, clearenv, initgroups, setgid, setuid, setenv, chdir, execl,
  exit_process, kill_group, kill_process, waitpid_nohang, waitpid, usleep, WaitStatus, exited,
  signaled, other_status, M, pure, ◌>>=◌, ◌>>◌, call, succeeded,
}

pub record SessionLauncher : Type 0 where
  pub session_pid : ℤ

abbrev pub sigterm : ℕ
sigterm = 15

abbrev pub sigkill : ℕ
sigkill = 9

-- How the child ends: it is another program, or it has exited.
pub data ChildEnd : Type 0 where
  executed : List Text → ChildEnd
  exits : ℕ → ChildEnd

-- The variables that the child sets by itself, in order.
unfoldable pub base_env : UserInfo → SessionInfo → ℤ → List (Text × Text)
base_env user session vt_number =
    let desktop =
      if not (is_empty session.desktop_names) then session.desktop_names else session.name in
    let runtime_dir = codes "/run/user/" ++ nat_to_text user.uid in
    (codes "HOME", user.home_dir)
    ∷ (codes "USER", user.username)
    ∷ (codes "LOGNAME", user.username)
    ∷ (codes "SHELL", user.shell)
    ∷ (codes "PATH", codes "/usr/local/bin:/usr/bin:/bin:/usr/local/sbin:/usr/sbin")
    ∷ (codes "XDG_DATA_DIRS", codes "/usr/local/share:/usr/share")
    ∷ (codes "XDG_CONFIG_DIRS", codes "/etc/xdg")
    ∷ (codes "XDG_SESSION_TYPE", codes "wayland")
    ∷ (codes "XDG_SESSION_CLASS", codes "user")
    ∷ (codes "XDG_SEAT", codes "seat0")
    ∷ (codes "XDG_VTNR", to_text vt_number)
    ∷ (codes "XDG_CURRENT_DESKTOP", desktop)
    ∷ (codes "XDG_SESSION_DESKTOP", desktop)
    ∷ (codes "XDG_RUNTIME_DIR", runtime_dir)
    ∷ (codes "DBUS_SESSION_BUS_ADDRESS", codes "unix:path=" ++ runtime_dir ++ codes "/bus")
    ∷ []

-- The entries "NAME=value" of PAM; one with no `=` is passed over.
unfoldable pub env_pairs : List Text → List (Text × Text)
env_pairs [] = []
env_pairs (entry ∷ rest) = elim (split_first b'=' entry) [
  | none ↦ env_pairs rest
  | some (k, v) ↦ (k, v) ∷ env_pairs rest
]

unfoldable pub exit_code : WaitStatus → ℤ
exit_code (exited n) = pos n
exit_code (signaled n) = pos (128 + n)
exit_code (other_status n) = pos n

module _ (os : Os) where
  unfoldable pub set_all : List (Text × Text) → M (Unit {0})
  set_all [] = pure tt
  set_all ((k, v) ∷ rest) = do call os (setenv k v); set_all rest

  -- `execl` returns only where it fails; the next attempt follows.
  unfoldable pub exec_or : List Text → M ChildEnd → M ChildEnd
  exec_or argv next = do
    ret ← call os (execl argv)
    if is_neg ret then next else pure (executed argv)

  -- `std::filesystem::exists` at this point of the run.
  abbrev pub exists_now : Text → M Bool
  exists_now path t = (os.exists t path, t)

  unfoldable pub exit_with : ℕ → M ChildEnd
  exit_with code = do call os (exit_process code); pure (exits code)

  -- "2. Setup standard user environment" to "4. Working directory".
  unfoldable pub enter_environment : UserInfo → SessionInfo → List Text → ℤ → M ℤ
  enter_environment user session pam_envs vt_number = do
    call os clearenv
    set_all (base_env user session vt_number)
    set_all (env_pairs pam_envs)
    home ← exists_now user.home_dir
    call os (chdir (if not (is_empty user.home_dir) && home then user.home_dir else codes "/"))

  unfoldable pub shells : UserInfo → SessionInfo → M ChildEnd
  shells user session =
      exec_or (user.shell ∷ user.shell ∷ codes "-l" ∷ codes "-c" ∷ session.exec ∷ []) (
        exec_or (codes "/bin/sh" ∷ codes "sh" ∷ codes "-l" ∷ codes "-c" ∷ session.exec ∷ [])
          (exit_with 127))

  -- "5. Execute user session via wayland-session wrapper or login shell".
  unfoldable pub exec_session : UserInfo → SessionInfo → M ChildEnd
  exec_session user session = do
    wrapper ← exists_now (codes "/usr/lib/miqudm/wayland-session")
    if wrapper
        then exec_or
            (codes "/usr/lib/miqudm/wayland-session"
              ∷ codes "wayland-session"
              ∷ codes "/bin/sh"
              ∷ codes "-c"
              ∷ session.exec
              ∷ [])
            (shells user session)
        else shells user session

  unfoldable pub enter_session : UserInfo → SessionInfo → List Text → ℤ → M ChildEnd
  enter_session user session pam_envs vt_number = do
    enter_environment user session pam_envs vt_number
    exec_session user session

  -- The branch `pid == 0` of `SessionLauncher::launch`.
  unfoldable pub session_child : UserInfo → SessionInfo → List Text → ℤ → M ChildEnd
  session_child user session pam_envs vt_number = do
    call os setsid
    groups ← call os (initgroups user.username user.gid)
    if not (succeeded groups) then exit_with 1 else (do
      gid ← call os (setgid user.gid)
      if not (succeeded gid) then exit_with 1 else (do
        uid ← call os (setuid user.uid)
        if not (succeeded uid) then exit_with 1 else enter_session user session pam_envs vt_number))

  -- `SessionLauncher::is_running`.
  unfoldable pub is_running : SessionLauncher → M Bool
  is_running l =
      if not (is_pos l.session_pid)
      then pure false
      else (do res ← call os (waitpid_nohang l.session_pid); pure (is_zero res))

  unfoldable pub start_session :
      SessionLauncher → UserInfo → SessionInfo → List Text → ℤ → M (Bool × SessionLauncher)
  start_session l user session pam_envs vt_number = do
    pid ← call os (fork_session user session pam_envs vt_number)
    pure (if is_neg pid then (false, l) else (true, record { session_pid = pid }))

  -- `SessionLauncher::launch` in the parent.
  unfoldable pub launch :
      SessionLauncher → UserInfo → SessionInfo → List Text → ℤ → M (Bool × SessionLauncher)
  unfolding is_running start_session
  launch l user session pam_envs vt_number = do
    running ← is_running l
    if running then pure (false, l) else start_session l user session pam_envs vt_number

  -- The loop of `wait_for_exit`, with the number of interruptions left.
  unfoldable pub wait_loop : ℕ → ℤ → M ℤ
  unfolding exit_code
  wait_loop zero pid t =
      let res = os.ret t (waitpid pid) in
      (if eq_ℤ res pid then exit_code (os.wait_status t) else negsuc 0, (call os (waitpid pid) t).1)
  wait_loop (suc n) pid t = wait_loop n pid (record { call = waitpid pid; result = negsuc 0 } ∷ t)

  -- `SessionLauncher::wait_for_exit`.
  unfoldable pub wait_for_exit : SessionLauncher → M (ℤ × SessionLauncher)
  unfolding wait_loop
  wait_for_exit l = if not (is_pos l.session_pid) then pure (pos 0, l) else (λ t.
      let (code, t') = wait_loop (os.interrupts t) l.session_pid t in
      ((code, record { session_pid = negsuc 0 }), t'))

  -- The loop of `terminate`: whether the session was seen to end.
  unfoldable pub wait_gone : ℕ → SessionLauncher → M Bool
  unfolding is_running
  wait_gone zero l = pure false
  wait_gone (suc n) l = do
    running ← is_running l
    if not running then pure true else (do call os (usleep 100000); wait_gone n l)

  unfoldable pub kill_session : SessionLauncher → M ℤ
  kill_session l = do
    call os (kill_group l.session_pid sigkill)
    call os (kill_process l.session_pid sigkill)
    call os (waitpid l.session_pid)

  -- `SessionLauncher::terminate`.
  unfoldable pub terminate : SessionLauncher → M SessionLauncher
  terminate l = if not (is_pos l.session_pid) then pure l else (do
    call os (kill_group l.session_pid sigterm)
    call os (kill_process l.session_pid sigterm)
    gone ← wait_gone 20 l
    running ← if gone then pure false else is_running l
    if running then kill_session l else pure (pos 0)
    pure (record { session_pid = negsuc 0 }))

-- ===== src/Daemon/Login.antt =====
-- `handle_login_request` of daemon/daemon.cpp. Log output is left out.
pub mod Users
pub mod Balance
pub mod Accounts
pub mod Granted
pub mod Sessions
use miqudm.Prelude.{
  ℕ, Bool, true, false, not, ◌&&◌, ◌||◌, List, [], ◌∷◌, ◌++◌, Option, none, some, Text, codes,
  is_empty, if◌then◌else◌, ℤ, pos, text_eq, find_if,
}
use miqudm.Prelude.Decimal.{to_text}
use miqudm.Config.{Config, remember, saved_text, save_path}
use miqudm.Users.{UserInfo, default_user}
use miqudm.Sessions.{SessionInfo, default_session}
use miqudm.Ipc.{IpcMessage, default_message, response, serialize}
use miqudm.Ipc.Library.{Json}
use miqudm.Pam.{
  PamAuth, new_pam, start, authenticate, check_account, set_env, establish_credentials,
  open_session, end_pam, get_environment_list,
}
use miqudm.Session.{SessionLauncher, launch, wait_for_exit}
use miqudm.Daemon.{Daemon}
use miqudm.Daemon.Greeter.{start_greeter, stop_greeter, release_pam}
use miqudm.Os.{is_stopped, Os, Trace, Call, save_config, write_fd, M, pure, ◌>>=◌, ◌>>◌, call}

-- A response with a result and a message.
abbrev pub reply_of : Bool → Text → IpcMessage
reply_of success message = record default_message {
  type = response;
  success = success;
  message = message;
}

-- The user with the name, or one made up from the name.
unfoldable pub find_user : Text → List UserInfo → UserInfo
find_user username cached_users = elim (find_if (λ u. text_eq u.username username) cached_users) [
  | some user ↦ user
  | none ↦ record default_user {
    username = username;
    home_dir = codes "/home/" ++ username;
    shell = codes "/bin/bash";
  }
]

unfoldable pub matches : IpcMessage → SessionInfo → Bool
matches req si =
    text_eq si.id req.desktop_name
    || text_eq si.name req.desktop_name
    || text_eq si.exec req.session_exec

unfoldable pub named_session : IpcMessage → SessionInfo
named_session req =
    let name = if is_empty req.desktop_name then codes "Wayland" else req.desktop_name in
    record default_session {
      name = name;
      exec = if is_empty req.session_exec then codes "miquland" else req.session_exec;
      desktop_names = name;
    }

unfoldable pub find_session : IpcMessage → List SessionInfo → SessionInfo
unfolding matches named_session
find_session req cached_sessions = elim (find_if (matches req) cached_sessions) [
  | some session ↦ session
  | none ↦ named_session req
]

module _ (os : Os) (j : Json) where
  unfoldable pub send : ℤ → IpcMessage → M ℤ
  send client_fd resp = call os (write_fd client_fd (serialize j resp))

  -- A failure: the reply, and the destructor of `pam`.
  unfoldable pub refuse : ℤ → Text → PamAuth → M (Option PamAuth)
  refuse client_fd what p = do
    send client_fd (reply_of false (what ++ p.error_message))
    end_pam os p
    pure none

  -- "Set PAM session properties for logind before opening session".
  unfoldable pub set_session_env : Daemon → IpcMessage → PamAuth → M Bool
  set_session_env d req p = do
    set_env os p (codes "XDG_SESSION_CLASS") (codes "user")
    set_env os p (codes "XDG_SESSION_TYPE") (codes "wayland")
    set_env os p (codes "XDG_SEAT") (codes "seat0")
    set_env os p (codes "XDG_VTNR") (to_text d.config.general.vt)
    if not (is_empty req.desktop_name)
        then (do
          set_env os p (codes "XDG_CURRENT_DESKTOP") req.desktop_name
          set_env os p (codes "XDG_SESSION_DESKTOP") req.desktop_name)
        else pure true

  -- The reply of success.
  unfoldable pub grant : ℤ → PamAuth → M (Option PamAuth)
  grant client_fd p = do send client_fd (reply_of true (codes "Login successful")); pure (some p)

  unfoldable pub finish_login : Daemon → ℤ → IpcMessage → PamAuth → M (Option PamAuth)
  finish_login d client_fd req p = do
    set_session_env d req p
    opened ← open_session os p
    if opened.0
        then grant client_fd opened.1
        else refuse client_fd (codes "Failed to open session: ") opened.1

  unfoldable pub establish_login : Daemon → ℤ → IpcMessage → PamAuth → M (Option PamAuth)
  establish_login d client_fd req p = do
    established ← establish_credentials os p
    if established.0
        then finish_login d client_fd req established.1
        else refuse client_fd (codes "Failed to establish credentials: ") established.1

  unfoldable pub check_login : Daemon → ℤ → IpcMessage → PamAuth → M (Option PamAuth)
  check_login d client_fd req p = do
    checked ← check_account os p
    if checked.0
        then establish_login d client_fd req checked.1
        else refuse client_fd (codes "Account check failed: ") checked.1

  unfoldable pub authenticate_login : Daemon → ℤ → IpcMessage → PamAuth → M (Option PamAuth)
  authenticate_login d client_fd req p = do
    authenticated ← authenticate os p req.password
    if authenticated.0
        then check_login d client_fd req authenticated.1
        else refuse client_fd (codes "Authentication failed: ") authenticated.1

  -- The first half, up to the reply: the open PAM transaction, if the login is granted.
  unfoldable pub grant_login : Daemon → ℤ → IpcMessage → M (Option PamAuth)
  grant_login d client_fd req = do
    started ← start os new_pam req.username (codes "miqudm")
    if started.0
        then authenticate_login d client_fd req started.1
        else refuse client_fd (codes "PAM initialization error: ") started.1

  -- "Remember last user in config".
  unfoldable pub remember_user : IpcMessage → Daemon → M Daemon
  remember_user req d =
      if d.config.general.remember_last_user
      then (do
        let config = remember req.username d.config
        call os (save_config (save_path config []) (saved_text config))
        pure (record d { config = config }))
      else pure d

  -- "Launch User Wayland Session", and the wait for its end.
  unfoldable pub run_session : Daemon → IpcMessage → PamAuth → M Daemon
  run_session d req p = do
    envs ← get_environment_list os p
    launched ←
        launch os d.session_launcher (find_user req.username d.cached_users)
          (find_session req d.cached_sessions) envs d.config.general.vt
    ended ← if launched.0 then wait_for_exit os launched.1 else pure (pos 0, launched.1)
    pure (record d { session_launcher = ended.1 })

  -- `m_running`, which a signal handler may have cleared.
  unfoldable pub is_running_now : Daemon → M Bool
  is_running_now d t = (d.running && not (is_stopped os t), t)

  -- The second half, behind the reply of success.
  unfoldable pub serve_login : Daemon → IpcMessage → PamAuth → M Daemon
  serve_login d req p = do
    stopped ← stop_greeter os d
    remembered ← remember_user req stopped
    ran ← run_session (record remembered { active_pam = some p }) req p
    release_pam os (some p)
    let done = record ran { active_pam = none }
    running ← is_running_now done
    if running then start_greeter os done else pure done

  unfoldable pub continue_login : Daemon → IpcMessage → Option PamAuth → M Daemon
  continue_login d req none = pure d
  continue_login d req (some p) = serve_login d req p

  -- `Daemon::handle_login_request`.
  unfoldable pub handle_login_request : Daemon → ℤ → IpcMessage → M Daemon
  handle_login_request d client_fd req = do
    granted ← grant_login d client_fd req
    continue_login d req granted

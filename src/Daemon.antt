-- ===== src/Daemon.antt =====
-- daemon/daemon.hpp and daemon/daemon.cpp: the state of `Daemon`, its socket and `init`. The greeter,
-- the login, the other requests and the loop are the modules below.
pub mod Greeter
pub mod Login
pub mod Requests
pub mod Loop
pub mod Replies
pub mod Socket
pub mod Descriptors
pub mod Main
use miqudm.Prelude.{
  ℕ, Bool, true, false, not, List, [], ◌∷◌, ◌++◌, Option, none, some, Text, codes, is_empty,
  if◌then◌else◌, ℤ, pos, negsuc, is_neg, text_eq, split_last,
}
use miqudm.Config.{Config, load}
use miqudm.Users.{UserInfo, scan_users}
use miqudm.Sessions.{SessionInfo, scan_all}
use miqudm.Ipc.{get_socket_path}
use miqudm.Pam.{PamAuth}
use miqudm.Session.{SessionLauncher}
use miqudm.Logind.{Logind}
use miqudm.Logind
use miqudm.Os.{
  Os, Trace, Call, unlink, create_directories, chmod, socket, bind_socket, listen_socket, close_fd,
  M, pure, ◌>>=◌, ◌>>◌, call,
}

-- With the singletons `Config` and `LogindManager`.
pub record Daemon : Type 0 where
  pub config : Config
  pub logind : Logind
  pub socket_path : Text
  pub server_socket_fd : ℤ
  pub greeter_pid : ℤ
  pub running : Bool
  pub greeter_pam : Option PamAuth
  pub active_pam : Option PamAuth
  pub session_launcher : SessionLauncher
  pub cached_users : List UserInfo
  pub cached_sessions : List SessionInfo

abbrev pub no_pid : ℤ
no_pid = negsuc 0

module _ (os : Os) where
  -- What the scanners see at this point of the run.
  abbrev pub scan_users_now : M (List UserInfo)
  scan_users_now t = (scan_users (os.user_source t), t)

  abbrev pub scan_sessions_now : M (List SessionInfo)
  scan_sessions_now t = (scan_all (os.directories t), t)

  -- The parent of the socket's path, where it has one.
  abbrev parent_path : Text → Option Text
  parent_path path = elim (split_last b'/' path) [ none ↦ none | some (dir, _) ↦ some dir ]

  make_parent : Option Text → M ℤ
  make_parent none = pure (pos 0)
  make_parent (some dir) = do
    made ← call os (create_directories dir)
    if text_eq dir (codes "/run/miqudm")
        then call os (chmod (codes "/run/miqudm") 0o755)
        else pure made

  -- The failure of `bind` or `listen`.
  drop_socket : Daemon → M (Bool × Daemon)
  drop_socket d = do
    call os (close_fd d.server_socket_fd)
    pure (false, record d { server_socket_fd = no_pid })

  listen_on : Daemon → M (Bool × Daemon)
  unfolding drop_socket
  listen_on d = do
    bound ← call os bind_socket
    if is_neg bound then drop_socket d else (do
      call os (chmod d.socket_path 0o666)
      listening ← call os listen_socket
      if is_neg listening then drop_socket d else pure (true, d))

  -- `Daemon::setup_ipc_socket`.
  unfoldable pub setup_ipc_socket : Daemon → M (Bool × Daemon)
  unfolding make_parent listen_on
  setup_ipc_socket d t0 =
      let path = get_socket_path (os.exists t0) in
      (do
        make_parent (parent_path path)
        call os (unlink path)
        fd ← call os socket
        let d' = record d { socket_path = path; server_socket_fd = fd }
        if is_neg fd then pure (false, d') else listen_on d')
        t0

  -- `Daemon::cleanup_ipc_socket`.
  unfoldable pub cleanup_ipc_socket : Daemon → M Daemon
  cleanup_ipc_socket d = do
    if not (is_neg d.server_socket_fd) then call os (close_fd d.server_socket_fd) else pure (pos 0)
    if not (is_empty d.socket_path) then call os (unlink d.socket_path) else pure (pos 0)
    pure (record d {
      server_socket_fd = if is_neg d.server_socket_fd then d.server_socket_fd else no_pid;
    })

  abbrev load_now : Config → M Config
  load_now c t = ((load c [] (os.files t)).1, t)

  -- `Daemon::init`.
  unfoldable pub init : Daemon → M (Bool × Daemon)
  unfolding setup_ipc_socket
  init d = do
    config ← load_now d.config
    users ← scan_users_now
    sessions ← scan_sessions_now
    connected ← Logind.init os d.logind
    setup_ipc_socket (record d {
      config = config;
      cached_users = users;
      cached_sessions = sessions;
      logind = connected.1;
    })

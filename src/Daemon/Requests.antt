-- ===== src/Daemon/Requests.antt =====
-- `handle_power_action`, `process_message` and `handle_client_connection` of daemon/daemon.cpp.
pub mod Power
pub mod Accounts
use miqudm.Prelude.{
  ℕ, Bool, true, false, not, ◌&&◌, List, [], ◌∷◌, ◌++◌, Option, none, some, Text, codes,
  if◌then◌else◌, ℤ, text_eq,
}
use miqudm.Ipc.{
  IpcMessage, IpcMessageType, default_message, deserialize, unknown, ping, get_users, get_sessions,
  login, power_action, response, session_status,
}
use miqudm.Ipc.Framing.{read_request}
use miqudm.Ipc.Library.{Json}
use miqudm.Logind.{Logind}
use miqudm.Logind
use miqudm.Daemon.{Daemon, scan_users_now, scan_sessions_now}
use miqudm.Daemon.Login.{reply_of, send, handle_login_request}
use miqudm.Os.{Os, Trace, M, pure, ◌>>=◌, ◌>>◌, call}

module _ (os : Os) (j : Json) where
  -- The call of `LogindManager` that an action stands for; no other action has one.
  unfoldable pub trigger : Text → Logind → M (Bool × Logind)
  trigger action l =
      if text_eq action (codes "poweroff")
      then Logind.power_off os false l
      else if text_eq action (codes "reboot")
      then Logind.reboot os false l
      else if text_eq action (codes "suspend")
      then Logind.suspend os false l
      else if text_eq action (codes "hibernate")
      then Logind.hibernate os false l
      else pure (false, l)

  abbrev pub power_message : Bool → Text
  power_message ok =
      if ok then codes "Power action triggered" else codes "Failed to execute power action"

  -- `Daemon::handle_power_action`.
  unfoldable pub handle_power_action : Daemon → ℤ → IpcMessage → M Daemon
  unfolding trigger
  handle_power_action d client_fd req = do
    done ← trigger req.power_action_name d.logind
    send os j client_fd (reply_of done.0 (power_message done.0))
    pure (record d { logind = done.1 })

  -- `Daemon::process_message`.
  unfoldable pub process_type : IpcMessageType → Daemon → ℤ → IpcMessage → M Daemon
  process_type ping d client_fd req = do send os j client_fd (reply_of true (codes "pong")); pure d
  process_type get_users d client_fd req = do
    users ← scan_users_now os
    send os j client_fd (record (reply_of true []) { users = users })
    pure (record d { cached_users = users })
  process_type get_sessions d client_fd req = do
    sessions ← scan_sessions_now os
    send os j client_fd (record (reply_of true []) { sessions = sessions })
    pure (record d { cached_sessions = sessions })
  process_type power_action d client_fd req = handle_power_action d client_fd req
  process_type login d client_fd req = handle_login_request os j d client_fd req
  process_type _ d client_fd req = do
    send os j client_fd (reply_of false (codes "Unknown IPC command"))
    pure d

  unfoldable pub process_message : Daemon → ℤ → IpcMessage → M Daemon
  process_message d client_fd req = process_type req.type d client_fd req

  -- A parsed request; `none` is the end of the daemon by an exception of JsonCpp.
  unfoldable pub process_request : Daemon → ℤ → Option IpcMessage → M (Option Daemon)
  process_request d client_fd none = pure none
  process_request d client_fd (some req) = do d' ← process_message d client_fd req; pure (some d')

  -- What was read of a connection.
  unfoldable pub process_line : Daemon → ℤ → Option Text → M (Option Daemon)
  process_line d client_fd none = pure (some d)
  process_line d client_fd (some line) = process_request d client_fd (deserialize j line)

  -- `Daemon::handle_client_connection`.
  unfoldable pub handle_client_connection : Daemon → ℤ → M (Option Daemon)
  handle_client_connection d client_fd t =
      process_line d client_fd (read_request [] (os.received t)) t

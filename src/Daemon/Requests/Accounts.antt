-- ===== src/Daemon/Requests/Accounts.antt =====
-- What is open in the daemon after a request of daemon/daemon.cpp.
use miqudm.Prelude.{◌≡◌, true, Option, none, some, Text, ℤ, arith}
use miqudm.Ipc.{
  IpcMessage, IpcMessageType, unknown, ping, get_users, get_sessions, login, power_action, response,
  session_status,
}
use miqudm.Ipc.Library.{Json}
use miqudm.Os.{Os, Trace}
use miqudm.Pam.Status.{status, guarded}
use miqudm.Pam.Turns.{IsQuiet, IsQuiet-trans, IsQuiet-IsTurn, object}
use miqudm.Pam.Accounts.{Accounts-turn}
use miqudm.Logind.{Logind}
use miqudm.Logind
use miqudm.Daemon.{Daemon}
use miqudm.Daemon.Login.Balance.{send-IsQuiet}
use miqudm.Daemon.Login.Accounts.{GreeterOnly, handle_login_request-GreeterOnly}
use miqudm.Daemon.Requests.{
  trigger, handle_power_action, process_type, process_message, process_request, process_line,
  handle_client_connection,
}

-- The accounts where the daemon still runs; where it does not, what was forked was let in.
abbrev pub StillGreeterOnly : Option Daemon → Trace → Type 0
StillGreeterOnly none t = guarded t ≡ true
StillGreeterOnly (some d) t = GreeterOnly d t

module _ (os : Os) (j : Json) where
  pub quiet-GreeterOnly :
      (d : Daemon) {t t' : Trace} → GreeterOnly d t → IsQuiet t t' → GreeterOnly d t'
  quiet-GreeterOnly d a q = Accounts-turn a (IsQuiet-IsTurn (object d.greeter_pam) a.first q)

  trigger-IsQuiet : (action : Text) (l : Logind) (t : Trace) → IsQuiet t (trigger os j action l t).1
  unfolding trigger Logind.power_off Logind.reboot Logind.suspend Logind.hibernate
      Logind.call_manager_method Logind.init status guarded
  trigger-IsQuiet action l t = ground arith

  process_type-GreeterOnly :
      (k : IpcMessageType) (d : Daemon) (fd : ℤ) (req : IpcMessage) (t : Trace)
      → GreeterOnly d t
      → GreeterOnly (process_type os j k d fd req t).0 (process_type os j k d fd req t).1
  unfolding process_type handle_power_action
  process_type-GreeterOnly ping d fd req t a = quiet-GreeterOnly d a (send-IsQuiet os j fd _ t)
  process_type-GreeterOnly get_users d fd req t a = quiet-GreeterOnly d a (send-IsQuiet os j fd _ t)
  process_type-GreeterOnly get_sessions d fd req t a =
      quiet-GreeterOnly d a (send-IsQuiet os j fd _ t)
  process_type-GreeterOnly power_action d fd req t a =
      quiet-GreeterOnly d a (
        IsQuiet-trans (trigger-IsQuiet req.power_action_name d.logind t) (send-IsQuiet os j fd _ _))
  process_type-GreeterOnly login d fd req t a = handle_login_request-GreeterOnly os j d fd req t a
  process_type-GreeterOnly unknown d fd req t a = quiet-GreeterOnly d a (send-IsQuiet os j fd _ t)
  process_type-GreeterOnly response d fd req t a = quiet-GreeterOnly d a (send-IsQuiet os j fd _ t)
  process_type-GreeterOnly session_status d fd req t a =
      quiet-GreeterOnly d a (send-IsQuiet os j fd _ t)

  process_request-GreeterOnly :
      (d : Daemon) (fd : ℤ) (parsed : Option IpcMessage) (t : Trace)
      → GreeterOnly d t
      → StillGreeterOnly
          (process_request os j d fd parsed t).0
          (process_request os j d fd parsed t).1
  unfolding process_request process_message
  process_request-GreeterOnly d fd none t a = a.safe
  process_request-GreeterOnly d fd (some req) t a = process_type-GreeterOnly req.type d fd req t a

  process_line-GreeterOnly :
      (d : Daemon) (fd : ℤ) (line : Option Text) (t : Trace)
      → GreeterOnly d t
      → StillGreeterOnly (process_line os j d fd line t).0 (process_line os j d fd line t).1
  unfolding process_line
  process_line-GreeterOnly d fd none t a = a
  process_line-GreeterOnly d fd (some line) t a = process_request-GreeterOnly d fd _ t a

  pub handle_client_connection-GreeterOnly :
      (d : Daemon) (fd : ℤ) (t : Trace)
      → GreeterOnly d t
      → StillGreeterOnly
          (handle_client_connection os j d fd t).0
          (handle_client_connection os j d fd t).1
  unfolding handle_client_connection
  handle_client_connection-GreeterOnly d fd t a = process_line-GreeterOnly d fd _ t a

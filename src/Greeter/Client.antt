-- ===== src/Greeter/Client.antt =====
-- greeter/ipc_client.hpp and greeter/ipc_client.cpp: `IpcClient`. The socket is `Connection`, a
-- parameter: which calls on it succeed, and what the reads deliver for a payload.
pub mod Exchange
pub mod Login
use miqudm.Prelude.{
  Bool, true, false, ◌&&◌, not, List, [], ◌∷◌, Option, none, some, Text, codes, is_empty,
  if◌then◌else◌,
}
use miqudm.Users.{UserInfo}
use miqudm.Sessions.{SessionInfo}
use miqudm.Ipc.{
  IpcMessage, default_message, ping, get_users, get_sessions, login, power_action, serialize,
  deserialize,
}
use miqudm.Ipc.Framing.{read_response}
use miqudm.Ipc.Library.{Json}

pub record Connection : Type 0 where
  -- `socket` and `connect` succeed; `write` takes the whole payload; `poll` sees input in time.
  pub opens : Bool
  pub connects : Bool
  pub takes : Text → Bool
  pub answers : Text → Bool
  -- The bytes that the reads deliver, until one returns none.
  pub received : Text → List Text

-- How a call ends: it returns, or an exception of JsonCpp leaves it.
pub data Outcome (A : Type 0) : Type 0 where
  returns : A → Outcome A
  throws : Outcome A

-- The request that `login` sends.
abbrev pub login_request : Text → Text → Text → Text → IpcMessage
login_request username password session_exec desktop_name = record default_message {
  type = login;
  username = username;
  password = password;
  session_exec = session_exec;
  desktop_name = desktop_name;
}

-- The request that `power_action` sends.
abbrev pub power_request : Text → IpcMessage
power_request action = record default_message { type = power_action; power_action_name = action }

module _ (j : Json) (c : Connection) where
  -- What was read, parsed into `out_resp`.
  unfoldable pub parse_response : Option Text → Outcome (Option IpcMessage)
  parse_response none = returns none
  parse_response (some line) = elim (deserialize j line) [
    | none ↦ throws
    | some resp ↦ returns (some resp)
  ]

  -- `IpcClient::send_request`: the response, or `none` where it returns false.
  unfoldable pub send_request : IpcMessage → Outcome (Option IpcMessage)
  unfolding parse_response
  send_request req =
      let payload = serialize j req in
      if c.opens && c.connects && c.takes payload && c.answers payload
      then parse_response (read_response [] (c.received payload))
      else returns none

  -- `send_request(req, resp) && resp.success`.
  unfoldable pub is_success : Outcome (Option IpcMessage) → Outcome Bool
  is_success throws = throws
  is_success (returns none) = returns false
  is_success (returns (some resp)) = returns resp.success

  -- `IpcClient::ping`.
  unfoldable pub client_ping : Outcome Bool
  unfolding send_request is_success
  client_ping = is_success (send_request (record default_message { type = ping }))

  -- `if (... && resp.success) { out = std::move(resp.items); return true; }`.
  unfoldable pub take_items :
      {A : Type 0} → (IpcMessage → A) → A → Outcome (Option IpcMessage) → Outcome (Bool × A)
  take_items items old throws = throws
  take_items items old (returns none) = returns (false, old)
  take_items items old (returns (some resp)) =
      returns (if resp.success then (true, items resp) else (false, old))

  -- `IpcClient::get_users`, with what `out_users` held before.
  unfoldable pub client_get_users : List UserInfo → Outcome (Bool × List UserInfo)
  unfolding send_request take_items
  client_get_users out_users =
      take_items (λ resp. resp.users) out_users
        (send_request (record default_message { type = get_users }))

  -- `IpcClient::get_sessions`.
  unfoldable pub client_get_sessions : List SessionInfo → Outcome (Bool × List SessionInfo)
  unfolding send_request take_items
  client_get_sessions out_sessions =
      take_items (λ resp. resp.sessions) out_sessions
        (send_request (record default_message { type = get_sessions }))

  -- The error that `login` leaves in `out_error_message`; `none` is success.
  unfoldable pub login_error : Outcome (Option IpcMessage) → Outcome (Option Text)
  login_error throws = throws
  login_error (returns none) = returns (some (codes "Failed to communicate with miqudm daemon"))
  login_error (returns (some resp)) = returns (
      if resp.success
      then none
      else some
          (if not (is_empty resp.message) then resp.message else codes "Authentication failed"))

  -- `IpcClient::login`.
  unfoldable pub client_login : Text → Text → Text → Text → Outcome (Option Text)
  unfolding send_request login_error
  client_login username password session_exec desktop_name =
      login_error (send_request (login_request username password session_exec desktop_name))

  -- `IpcClient::power_action`.
  unfoldable pub client_power_action : Text → Outcome Bool
  unfolding send_request is_success
  client_power_action action = is_success (send_request (power_request action))

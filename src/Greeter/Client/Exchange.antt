-- ===== src/Greeter/Client/Exchange.antt =====
-- A request of the greeter's client (greeter/ipc_client.cpp) that the daemon (daemon/daemon.cpp) serves.
use miqudm.Prelude.{
  ◌≡◌, ◌∙◌, ap, refl, true, false, ◌&&◌, List, [], ◌∷◌, some, Text, has, split_first, All, ℤ, arith,
}
use miqudm.Users.{UserInfo, scan_users}
use miqudm.Os.{Os, Trace, Call, write_fd}
use miqudm.Sessions.{SessionInfo, scan_all}
use miqudm.Ipc.{IpcMessage, default_message, get_users, get_sessions, serialize, to_value}
use miqudm.Ipc.RoundTrip.{deserialize-serialize}
use miqudm.Ipc.Entries.{HasIds}
use miqudm.Ipc.Framing.{join, or_rest, read_response-or_rest}
use miqudm.Ipc.Library.{Json, JsonLaws}
use miqudm.Daemon.{Daemon}
use miqudm.Daemon.Login.{send, reply_of}
use miqudm.Daemon.Requests.{process_message, process_type}
use miqudm.Greeter.Client.{
  Connection, returns, parse_response, send_request, take_items, client_get_users,
  client_get_sessions,
}

-- The text of the last call, if it is a write.
unfoldable pub written : Call → Text
written (write_fd fd s) = s
written _ = []

unfoldable pub last_written : Trace → Text
unfolding written
last_written [] = []
last_written (e ∷ t) = written e.call

-- JsonCpp reads back the document that it writes for the message, on one line.
pub record IsReadBack (j : Json) (m : IpcMessage) : Type 0 where
  pub one_line : has b'\n' (j.write (to_value j m)) ≡ false
  pub parses : j.parse (j.write (to_value j m)) ≡ some (to_value j m)

-- The connection works, and delivers this text for the request, in whatever pieces without a zero
-- byte.
pub record IsCarried (j : Json) (c : Connection) (req : IpcMessage) (s : Text) : Type 0 where
  pub works :
      (c.opens && c.connects && c.takes (serialize j req) && c.answers (serialize j req)) ≡ true
  pub clean : All (λ s. has 0 s ≡ false) (c.received (serialize j req))
  pub arrives : join (c.received (serialize j req)) ≡ s

abbrev pub users_request : IpcMessage
users_request = record default_message { type = get_users }

abbrev pub sessions_request : IpcMessage
sessions_request = record default_message { type = get_sessions }

or_rest-line :
    (s line rest : Text) → split_first b'\n' s ≡ some (line, rest) → or_rest s ≡ some line
or_rest-line s line rest e = ground arith

module _ (j : Json) (laws : JsonLaws j) (c : Connection) where
  -- A reply that is sent as one line, in whatever pieces, is the response.
  pub send_request-reply :
      (req resp : IpcMessage)
      → (c.opens && c.connects && c.takes (serialize j req) && c.answers (serialize j req)) ≡ true
      → All (λ s. has 0 s ≡ false) (c.received (serialize j req))
      → join (c.received (serialize j req)) ≡ serialize j resp
      → All HasIds resp.users
      → IsReadBack j resp
      → send_request j c req ≡ returns (some resp)
  unfolding send_request parse_response split_first
  send_request-reply req resp works clean arrives ids back =
      let (line, split, parsed) = deserialize-serialize j laws resp ids back.one_line back.parses in
      let heard =
        read_response-or_rest (c.received (serialize j req)) [] clean refl
        ∙ ap or_rest arrives
        ∙ or_rest-line (serialize j resp) line [] split in
      rw (works, heard, parsed, parse_response) refl

  -- If the connection works and delivers, in whatever pieces, what the daemon writes for the request,
  -- then `get_users` returns true and the accounts that the daemon's scan found; JsonCpp reads back what it
  -- writes for the reply, the ids fit 32 bits, and no piece has a zero byte.
  pub client_get_users-scan_users :
      (os : Os) (d : Daemon) (fd : ℤ) (t : Trace) (old : List UserInfo)
      → let req = record default_message { type = get_users } in
        let users = scan_users (os.user_source t) in
        (c.opens && c.connects && c.takes (serialize j req) && c.answers (serialize j req)) ≡ true
        → All (λ s. has 0 s ≡ false) (c.received (serialize j req))
        → join (c.received (serialize j req)) ≡ last_written (process_message os j d fd req t).1
        → All HasIds users
        → IsReadBack j (record (reply_of true []) { users = users })
        → client_get_users j c old ≡ returns (true, users)
  unfolding process_message process_type send last_written client_get_users
  client_get_users-scan_users os d fd t old works clean arrives ids back =
      ap (take_items j c (λ resp. resp.users) old) (
        send_request-reply (record default_message { type = get_users })
          (record (reply_of true []) { users = scan_users (os.user_source t) }) works clean arrives
          ids back)

  -- The same of `get_sessions` and the sessions that the daemon's scan found.
  pub client_get_sessions-scan_all :
      (os : Os) (d : Daemon) (fd : ℤ) (t : Trace) (old : List SessionInfo)
      → let sessions = scan_all (os.directories t) in
        IsCarried j c sessions_request
          (last_written (process_message os j d fd sessions_request t).1)
        → IsReadBack j (record (reply_of true []) { sessions = sessions })
        → client_get_sessions j c old ≡ returns (true, sessions)
  unfolding process_message process_type send last_written client_get_sessions
  client_get_sessions-scan_all os d fd t old carried back =
      ap (take_items j c (λ resp. resp.sessions) old) (
        send_request-reply sessions_request
          (record (reply_of true []) { sessions = scan_all (os.directories t) }) carried.works
          carried.clean carried.arrives tt back)

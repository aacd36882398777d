-- ===== src/Ipc.antt =====
-- common/ipc.hpp and common/ipc.cpp: the messages between daemon and greeter and their JSON form.
-- JsonCpp is `Json`, a parameter. An exception of its accessors is `none`.
pub mod Library
pub mod Objects
pub mod RoundTrip
pub mod Entries
pub mod Framing
use miqudm.Prelude.{
  ℕ, ◌%◌, ◌^◌, Bool, true, false, not, List, [], ◌∷◌, ◌++◌, map, Option, none, some, Text, codes,
  text_eq, is_empty, if◌then◌else◌,
}
use miqudm.Users.{UserInfo}
use miqudm.Sessions.{SessionInfo}
use Library.{Json, ◌>>=◌}

pub data IpcMessageType : Type 0 where
  unknown ping get_users get_sessions login power_action response session_status : IpcMessageType

pub record IpcMessage : Type 0 where
  pub type : IpcMessageType
  pub success : Bool
  pub message : Text
  pub username : Text
  pub password : Text
  pub session_exec : Text
  pub desktop_name : Text
  pub power_action_name : Text
  pub users : List UserInfo
  pub sessions : List SessionInfo

-- The member initialisers.
abbrev pub default_message : IpcMessage
default_message = record {
  type = unknown;
  success = false;
  message = [];
  username = [];
  password = [];
  session_exec = [];
  desktop_name = [];
  power_action_name = [];
  users = [];
  sessions = [];
}

-- `get_socket_path`, by whether /run/miqudm exists.
unfoldable pub get_socket_path : (Text → Bool) → Text
get_socket_path exists =
    if exists (codes "/run/miqudm") then codes "/run/miqudm/socket" else codes "/tmp/miqudm.sock"

unfoldable pub type_to_string : IpcMessageType → Text
type_to_string ping = codes "ping"
type_to_string get_users = codes "get_users"
type_to_string get_sessions = codes "get_sessions"
type_to_string login = codes "login"
type_to_string power_action = codes "power_action"
type_to_string response = codes "response"
type_to_string session_status = codes "session_status"
type_to_string unknown = codes "unknown"

unfoldable pub string_to_type : Text → IpcMessageType
string_to_type str =
    if text_eq str (codes "ping")
    then ping
    else if text_eq str (codes "get_users")
    then get_users
    else if text_eq str (codes "get_sessions")
    then get_sessions
    else if text_eq str (codes "login")
    then login
    else if text_eq str (codes "power_action")
    then power_action
    else if text_eq str (codes "response")
    then response
    else if text_eq str (codes "session_status")
    then session_status
    else unknown

module _ (j : Json) where
  open j use {Value, null, string, boolean, number, array, set}

  unfoldable pub user_value : UserInfo → Value
  user_value u =
      set
        (set
          (set
            (set
              (set
                (set (set null (codes "username") (string u.username)) (codes "display_name")
                  (string u.display_name))
                (codes "home_dir") (string u.home_dir))
              (codes "avatar_path") (string u.avatar_path))
            (codes "uid") (number u.uid))
          (codes "gid") (number u.gid))
        (codes "shell") (string u.shell)

  unfoldable pub session_value : SessionInfo → Value
  session_value s =
      set
        (set
          (set
            (set
              (set (set (set null (codes "id") (string s.id)) (codes "name") (string s.name))
                (codes "exec") (string s.exec))
              (codes "comment") (string s.comment))
            (codes "desktop_names") (string s.desktop_names))
          (codes "desktop_file") (string s.desktop_file))
        (codes "is_wayland") (boolean s.is_wayland)

  -- `if (!text.empty()) root[key] = text;`
  unfoldable pub set_text : Text → Text → Value → Value
  set_text key text root = if not (is_empty text) then set root key (string text) else root

  -- `if (!items.empty()) root[key] = items;`
  unfoldable pub set_items {ℓ} : {A : Type ℓ} → Text → (A → Value) → List A → Value → Value
  set_items key value items root =
      if not (is_empty items) then set root key (array (map value items)) else root

  -- The document that `serialize` builds.
  unfoldable pub to_value : IpcMessage → Value
  to_value m = set_items (codes "sessions") session_value m.sessions (
      set_items (codes "users") user_value m.users (
        set_text (codes "power_action") m.power_action_name (
          set_text (codes "desktop_name") m.desktop_name (
            set_text (codes "session_exec") m.session_exec (
              set_text (codes "password") m.password (
                set_text (codes "username") m.username (
                  set
                    (set (set null (codes "type") (string (type_to_string m.type)))
                      (codes "success") (boolean m.success))
                    (codes "message") (string m.message))))))))

  -- `IpcMessage::serialize`.
  unfoldable pub serialize : IpcMessage → Text
  serialize m = j.write (to_value m) ++ b'\n' ∷ []

  -- `root.get(key, otherwise).asString()`, and so for the others.
  unfoldable pub get_text : Text → Text → Value → Option Text
  get_text key otherwise v = do x ← j.get v key (string otherwise); j.as_string x

  unfoldable pub get_bool : Text → Bool → Value → Option Bool
  get_bool key otherwise v = do x ← j.get v key (boolean otherwise); j.as_bool x

  -- `static_cast<uid_t>(v.get(key, 0).asUInt64())`.
  unfoldable pub get_id : Text → Value → Option ℕ
  get_id key v = do x ← j.get v key (number 0); n ← j.as_uint64 x; some (n % 2 ^ 32)

  unfoldable pub user_from : Value → Option UserInfo
  user_from v = do
    username ← get_text (codes "username") [] v
    display_name ← get_text (codes "display_name") [] v
    home_dir ← get_text (codes "home_dir") [] v
    avatar_path ← get_text (codes "avatar_path") [] v
    uid ← get_id (codes "uid") v
    gid ← get_id (codes "gid") v
    shell ← get_text (codes "shell") (codes "/bin/bash") v
    some (record {
      username = username;
      display_name = display_name;
      home_dir = home_dir;
      avatar_path = avatar_path;
      uid = uid;
      gid = gid;
      shell = shell;
    })

  unfoldable pub session_from : Value → Option SessionInfo
  session_from v = do
    id ← get_text (codes "id") [] v
    name ← get_text (codes "name") [] v
    exec ← get_text (codes "exec") [] v
    comment ← get_text (codes "comment") [] v
    desktop_names ← get_text (codes "desktop_names") [] v
    desktop_file ← get_text (codes "desktop_file") [] v
    is_wayland ← get_bool (codes "is_wayland") true v
    some (record {
      id = id;
      name = name;
      exec = exec;
      comment = comment;
      desktop_names = desktop_names;
      desktop_file = desktop_file;
      is_wayland = is_wayland;
    })

  -- The loop over an array.
  unfoldable pub all_from {ℓ} : {A : Type ℓ} → (Value → Option A) → List Value → Option (List A)
  all_from from [] = some []
  all_from from (v ∷ vs) = do x ← from v; xs ← all_from from vs; some (x ∷ xs)

  -- `if (root.isMember(key) && root[key].isArray())`, and the loop.
  unfoldable pub get_items {ℓ} : {A : Type ℓ} → Text → (Value → Option A) → Value → Option (List A)
  get_items key from v = do
    member ← j.is_member v key
    items ← j.get v key null
    if member
        then (if j.is_array items then all_from from (j.elements items) else some [])
        else some []

  unfoldable pub from_value : Value → Option IpcMessage
  from_value v = do
    type ← get_text (codes "type") (codes "unknown") v
    success ← get_bool (codes "success") false v
    message ← get_text (codes "message") [] v
    username ← get_text (codes "username") [] v
    password ← get_text (codes "password") [] v
    session_exec ← get_text (codes "session_exec") [] v
    desktop_name ← get_text (codes "desktop_name") [] v
    power_action_name ← get_text (codes "power_action") [] v
    users ← get_items (codes "users") user_from v
    sessions ← get_items (codes "sessions") session_from v
    some (record {
      type = string_to_type type;
      success = success;
      message = message;
      username = username;
      password = password;
      session_exec = session_exec;
      desktop_name = desktop_name;
      power_action_name = power_action_name;
      users = users;
      sessions = sessions;
    })

  -- `IpcMessage::deserialize`.
  unfoldable pub deserialize : Text → Option IpcMessage
  deserialize raw_json = elim (j.parse raw_json) [
    | none ↦ some (record default_message {
      message = codes "Failed to parse JSON: " ++ j.parse_error raw_json;
    })
    | some root ↦ from_value root
  ]

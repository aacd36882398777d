-- ===== src/Ipc/RoundTrip.antt =====
-- `IpcMessage::deserialize` behind `IpcMessage::serialize`, common/ipc.cpp.
use miqudm.Prelude.{
  ◌≡◌, refl, ◌∙◌, false, [], ◌∷◌, some, Text, codes, text_eq, All, has, split_first,
  split_first-append,
}
use miqudm.Ipc.Library.{Json, JsonLaws}
use miqudm.Ipc.Objects.{
  Members, build, with_text, with_items, set_text-build, set_items-build, member-with_text,
  member-with_items, is_in-with_items, is_in-with_text, as_string-or_empty, get_text-build,
  get_bool-build, get_items-with_items, get_items-cong,
}
use miqudm.Ipc.{
  IpcMessage, IpcMessageType, type_to_string, string_to_type, user_value, session_value, to_value,
  serialize, get_text, get_bool, user_from, session_from, get_items, from_value, deserialize,
  unknown, ping, get_users, get_sessions, login, power_action, response, session_status,
}
use miqudm.Ipc.Entries.{HasIds, All-true, user_round_trip, session_round_trip}

type_round_trip : (t : IpcMessageType) → string_to_type (type_to_string t) ≡ t
unfolding string_to_type type_to_string text_eq
type_round_trip ping = refl
type_round_trip get_users = refl
type_round_trip get_sessions = refl
type_round_trip login = refl
type_round_trip power_action = refl
type_round_trip response = refl
type_round_trip session_status = refl
type_round_trip unknown = refl

module _ (j : Json) (laws : JsonLaws j) where
  open j use {Value, null, string, boolean, number, array, set}
  open laws use {as_string-string, as_bool-boolean, as_uint64-number}

  -- The members that every message has, and those of the optional texts above them.
  head_members : IpcMessage → Members j laws
  head_members m =
      (codes "message", string m.message)
      ∷ (codes "success", boolean m.success)
      ∷ (codes "type", string (type_to_string m.type))
      ∷ []

  members1 : IpcMessage → Members j laws
  members1 m = with_text j laws (codes "username") m.username (head_members m)

  members2 : IpcMessage → Members j laws
  members2 m = with_text j laws (codes "password") m.password (members1 m)

  members3 : IpcMessage → Members j laws
  members3 m = with_text j laws (codes "session_exec") m.session_exec (members2 m)

  members4 : IpcMessage → Members j laws
  members4 m = with_text j laws (codes "desktop_name") m.desktop_name (members3 m)

  members5 : IpcMessage → Members j laws
  members5 m = with_text j laws (codes "power_action") m.power_action_name (members4 m)

  members6 : IpcMessage → Members j laws
  members6 m = with_items j laws (codes "users") (user_value j) m.users (members5 m)

  message_members : IpcMessage → Members j laws
  unfolding members6 members5 members4 members3 members2 members1 head_members
  message_members m = with_items j laws (codes "sessions") (session_value j) m.sessions (members6 m)

  to_value-build : (m : IpcMessage) → to_value j m ≡ build j laws (message_members m)
  unfolding to_value message_members
  to_value-build m = rw (
    set_text-build j laws (codes "username") m.username (head_members m),
    set_text-build j laws (codes "password") m.password (members1 m),
    set_text-build j laws (codes "session_exec") m.session_exec (members2 m),
    set_text-build j laws (codes "desktop_name") m.desktop_name (members3 m),
    set_text-build j laws (codes "power_action") m.power_action_name (members4 m),
    set_items-build j laws (codes "users") (user_value j) m.users (members5 m),
    set_items-build j laws (codes "sessions") (session_value j) m.sessions (members6 m),
  )

  text_of_type :
      (m : IpcMessage)
      → get_text j (codes "type") (codes "unknown") (build j laws (message_members m))
        ≡ some (type_to_string m.type)
  unfolding text_eq message_members
  text_of_type m =
      get_text-build j laws (codes "type") (codes "unknown") (message_members m)
      ∙ simp (member-with_text, member-with_items) (as_string-string (type_to_string m.type))

  text_of_message :
      (m : IpcMessage)
      → get_text j (codes "message") [] (build j laws (message_members m)) ≡ some m.message
  unfolding text_eq message_members
  text_of_message m =
      get_text-build j laws (codes "message") [] (message_members m)
      ∙ simp (member-with_text, member-with_items) (as_string-string m.message)

  bool_of_success :
      (m : IpcMessage)
      → get_bool j (codes "success") false (build j laws (message_members m)) ≡ some m.success
  unfolding text_eq message_members
  bool_of_success m =
      get_bool-build j laws (codes "success") false (message_members m)
      ∙ simp (member-with_text, member-with_items) (as_bool-boolean m.success)

  text_of_username :
      (m : IpcMessage)
      → get_text j (codes "username") [] (build j laws (message_members m)) ≡ some m.username
  unfolding text_eq message_members
  text_of_username m =
      get_text-build j laws (codes "username") [] (message_members m)
      ∙ simp (member-with_text, member-with_items) (as_string-or_empty j laws m.username)

  text_of_password :
      (m : IpcMessage)
      → get_text j (codes "password") [] (build j laws (message_members m)) ≡ some m.password
  unfolding text_eq message_members
  text_of_password m =
      get_text-build j laws (codes "password") [] (message_members m)
      ∙ simp (member-with_text, member-with_items) (as_string-or_empty j laws m.password)

  text_of_session_exec :
      (m : IpcMessage)
      → get_text j (codes "session_exec") [] (build j laws (message_members m))
        ≡ some m.session_exec
  unfolding text_eq message_members
  text_of_session_exec m =
      get_text-build j laws (codes "session_exec") [] (message_members m)
      ∙ simp (member-with_text, member-with_items) (as_string-or_empty j laws m.session_exec)

  text_of_desktop_name :
      (m : IpcMessage)
      → get_text j (codes "desktop_name") [] (build j laws (message_members m))
        ≡ some m.desktop_name
  unfolding text_eq message_members
  text_of_desktop_name m =
      get_text-build j laws (codes "desktop_name") [] (message_members m)
      ∙ simp (member-with_text, member-with_items) (as_string-or_empty j laws m.desktop_name)

  text_of_power_action :
      (m : IpcMessage)
      → get_text j (codes "power_action") [] (build j laws (message_members m))
        ≡ some m.power_action_name
  unfolding text_eq message_members
  text_of_power_action m =
      get_text-build j laws (codes "power_action") [] (message_members m)
      ∙ simp (member-with_text, member-with_items) (as_string-or_empty j laws m.power_action_name)

  sessions_of :
      (m : IpcMessage)
      → get_items j (codes "sessions") (session_from j) (build j laws (message_members m))
        ≡ some m.sessions
  unfolding text_eq message_members
  sessions_of m =
      get_items-with_items j laws (session_from j) (session_value j) (λ _. Unit {0})
        (codes "sessions") m.sessions (members6 m) (λ s _. (session_round_trip j laws) s)
        (All-true m.sessions) refl (simp (is_in-with_text, is_in-with_items))

  users_of :
      (m : IpcMessage)
      → All HasIds m.users
      → get_items j (codes "users") (user_from j) (build j laws (message_members m)) ≡ some m.users
  unfolding text_eq message_members
  users_of m ids =
      get_items-cong j laws (user_from j) (codes "users") (message_members m) (members6 m)
        (simp member-with_items) (simp is_in-with_items)
      ∙ get_items-with_items j laws (user_from j) (user_value j) HasIds (codes "users") m.users
          (members5 m) (user_round_trip j laws) ids refl (simp is_in-with_text)

  -- What `deserialize` makes of the document that `serialize` wrote is the message itself.
  from_value-to_value : (m : IpcMessage) → All HasIds m.users → from_value j (to_value j m) ≡ some m
  unfolding from_value
  from_value-to_value m ids = rw (
    to_value-build m,
    text_of_type m,
    bool_of_success m,
    text_of_message m,
    text_of_username m,
    text_of_password m,
    text_of_session_exec m,
    text_of_desktop_name m,
    text_of_power_action m,
    users_of m ids,
    sessions_of m,
    type_round_trip m.type,
  )

  -- A message that is sent arrives as it was, where JsonCpp reads back the document that it wrote for
  -- it on one line, and the ids of its users fit 32 bits: the reader's first line is that document,
  -- and `deserialize` returns the message.
  pub deserialize-serialize :
      (m : IpcMessage)
      → All HasIds m.users
      → has b'\n' (j.write (to_value j m)) ≡ false
      → j.parse (j.write (to_value j m)) ≡ some (to_value j m)
      → (line : Text) × (split_first b'\n' (serialize j m) ≡ some (line, []))
        × (deserialize j line ≡ some m)
  unfolding serialize deserialize
  deserialize-serialize m ids one_line parses = (
    j.write (to_value j m),
    split_first-append b'\n' (j.write (to_value j m)) [] one_line,
    rw (parses, deserialize) (from_value-to_value m ids),
  )

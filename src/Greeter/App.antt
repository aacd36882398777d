-- ===== src/Greeter/App.antt =====
-- greeter/greeter_app.hpp and greeter/greeter_app.cpp: `GreeterApp`. Of the toolkit's widgets the
-- state keeps what the program reads or sets; the toolkit calls the program back by an `Action`. The
-- requests that it has given to the client are kept, newest first.
pub mod Setup
pub mod Ready
pub mod Requests
pub mod Reachable
pub mod Choice
pub mod Served
use miqudm.Prelude.{
  ℕ, Bool, true, false, ◌&&◌, ◌||◌, not, List, [], ◌∷◌, ◌++◌, Option, none, some, Text, codes,
  is_empty, length, get_elem?, leb, if◌then◌else◌, ◌==◌, ℤ, pos, negsuc, is_neg, leb_ℤ, to_int,
}
use miqudm.Users.{UserInfo, UserSource, scan_users}
use miqudm.Sessions.{SessionInfo, DirEntry, scan_all}
use miqudm.Ipc.{IpcMessage}
use miqudm.Ipc.Library.{Json}
use miqudm.Greeter.Card.{UserCardView, cards_from, mark}
use miqudm.Greeter.Client.{
  Connection, Outcome, client_get_users, client_get_sessions, client_login, client_power_action,
  login_request, power_request,
}

pub record GreeterApp : Type 0 where
  pub has_engine : Bool
  pub test_mode : Bool
  pub users : List UserInfo
  pub sessions : List SessionInfo
  pub selected_user_idx : ℕ
  pub selected_session_idx : ℤ
  -- `m_users_grid` with its cards, `m_session_spinner` with its items, `m_password_input` and
  -- `m_status_label` with their texts; null is `none`.
  pub users_grid : Option (List UserCardView)
  pub session_spinner : Option (List Text)
  pub password_input : Option Text
  pub status_label : Option Text
  pub has_window : Bool
  -- Whether the window is closed, and whether the engine was told to quit.
  pub closed : Bool
  pub quit : Bool
  pub sent : List IpcMessage

-- `GreeterApp::GreeterApp`.
abbrev pub new_app : Bool → Bool → GreeterApp
new_app has_engine test_mode = record {
  has_engine = has_engine;
  test_mode = test_mode;
  users = [];
  sessions = [];
  selected_user_idx = 0;
  selected_session_idx = pos 0;
  users_grid = none;
  session_spinner = none;
  password_input = none;
  status_label = none;
  has_window = false;
  closed = false;
  quit = false;
  sent = [];
}

-- How a callback ends: it returns, an exception leaves it, or it reads out of a vector's bounds.
pub data Result (A : Type 0) : Type 0 where
  done : A → Result A
  throws out_of_bounds : Result A

-- What follows a callback.
abbrev pub and_then : {A B : Type 0} → Result A → (A → Result B) → Result B
and_then (done a) f = f a
and_then throws f = throws
and_then out_of_bounds f = out_of_bounds

infixl 5 ◌>>=◌
abbrev pub ◌>>=◌ : {A B : Type 0} → Outcome A → (A → Result B) → Result B
◌>>=◌ (Outcome.returns a) f = f a
◌>>=◌ Outcome.throws f = throws

abbrev pub set_text : Text → Option Text → Option Text
set_text msg none = none
set_text msg (some old) = some msg

-- `update_status`; the redraw is left out.
abbrev pub update_status : Text → GreeterApp → GreeterApp
update_status msg a = record a { status_label = set_text msg a.status_label }

-- `m_password_input->clear()`, and the focus.
abbrev pub clear_password : GreeterApp → GreeterApp
clear_password a = record a { password_input = set_text [] a.password_input }

abbrev engine_quit : GreeterApp → GreeterApp
engine_quit a = record a { quit = a.quit || a.has_engine }

abbrev mark_cards : ℕ → ℕ → Option (List UserCardView) → Option (List UserCardView)
mark_cards n idx none = none
mark_cards n idx (some cards) = some (mark n 0 idx cards)

-- `GreeterApp::select_user`.
unfoldable pub select_user : ℕ → GreeterApp → GreeterApp
select_user index a =
    if leb (length a.users) index
    then a
    else update_status [] (
        clear_password (record a {
          selected_user_idx = index;
          users_grid = mark_cards (length a.users) index a.users_grid;
        }))

-- `GreeterApp::select_session`.
unfoldable pub select_session : ℤ → GreeterApp → GreeterApp
select_session index a =
    if is_neg index || leb_ℤ (to_int (length a.sessions)) index
    then a
    else update_status [] (record a { selected_session_idx = index })

abbrev pub at_index : {A : Type 0} → List A → ℤ → Option A
at_index xs (pos n) = get_elem? xs n
at_index xs (negsuc n) = none

abbrev pub or_empty : Option Text → Text
or_empty none = []
or_empty (some s) = s

-- What `attempt_login` does with the answer; `none` is success.
unfoldable pub show_answer : Option Text → GreeterApp → GreeterApp
show_answer (some error_msg) a =
    clear_password
      (update_status (if is_empty error_msg then codes "Authentication failed" else error_msg) a)
show_answer none a =
    engine_quit (record (update_status (codes "Login successful. Launching session...") a) {
      closed = a.closed || a.has_window;
    })

unfoldable pub test_message : UserInfo → SessionInfo → Text
test_message user session =
    codes "Test Mode: Authenticated as " ++ user.username ++ codes " (" ++ session.name ++ codes ")"

module _ (j : Json) where
  -- `attempt_login` behind the two lookups.
  unfoldable pub login_as : Connection → UserInfo → SessionInfo → GreeterApp → Result GreeterApp
  unfolding show_answer test_message
  login_as c user session a =
      let password = or_empty a.password_input in
      let b = update_status (codes "Authenticating...") a in
      if a.test_mode then done (update_status (test_message user session) b) else (do
        answer ← client_login j c user.username password session.exec session.id
        done (
            show_answer answer (record b {
              sent = login_request user.username password session.exec session.id ∷ b.sent;
            })))

  unfoldable pub login_selected :
      Connection → Option UserInfo → Option SessionInfo → GreeterApp → Result GreeterApp
  unfolding login_as
  login_selected c (some user) (some session) a = login_as c user session a
  login_selected c (some user) none a = out_of_bounds
  login_selected c none session a = out_of_bounds

  -- `GreeterApp::attempt_login`; `c` is the connection that the client opens.
  unfoldable pub attempt_login : Connection → GreeterApp → Result GreeterApp
  unfolding login_selected
  attempt_login c a =
      if is_empty a.users || is_empty a.sessions
      then done a
      else login_selected c (get_elem? a.users a.selected_user_idx)
          (at_index a.sessions a.selected_session_idx) a

  -- `GreeterApp::handle_power_action`.
  unfoldable pub handle_power_action : Connection → Text → GreeterApp → Result GreeterApp
  handle_power_action c action a =
      let b = update_status (codes "Power: " ++ action) a in
      if a.test_mode then done b else (do
        ok ← client_power_action j c action
        done (record b { sent = power_request action ∷ b.sent }))

-- The key codes of xkbcommon that the program knows; `control` is the bit of the modifiers.
abbrev pub key_q : ℕ
key_q = 0x71

abbrev pub key_escape : ℕ
key_escape = 0xff1b

pub record KeyPressEvent : Type 0 where
  pub pressed : Bool
  pub keysym : ℕ
  pub control : Bool

-- `GreeterApp::handle_key`.
unfoldable pub handle_key : KeyPressEvent → GreeterApp → GreeterApp
handle_key ev a =
    if not ev.pressed
    then a
    else if (ev.keysym == key_q && ev.control) || ev.keysym == key_escape
    then (if a.test_mode then engine_quit a else a)
    else a

-- What the toolkit calls the program back for. `typed` is the user's editing of the password field.
pub data Action : Type 0 where
  card_clicked : ℕ → Action
  session_chosen : ℤ → Action
  submitted login_clicked sleep_clicked reboot_clicked shutdown_clicked window_closed : Action
  key_pressed : KeyPressEvent → Action
  typed : Text → Action

module _ (j : Json) where
  -- The listeners that `setup_ui` installs.
  unfoldable pub respond : Connection → Action → GreeterApp → Result GreeterApp
  respond c (card_clicked idx) a = done (select_user idx a)
  respond c (session_chosen idx) a = done (select_session idx a)
  respond c submitted a = attempt_login j c a
  respond c login_clicked a = attempt_login j c a
  respond c sleep_clicked a = handle_power_action j c (codes "suspend") a
  respond c reboot_clicked a = handle_power_action j c (codes "reboot") a
  respond c shutdown_clicked a = handle_power_action j c (codes "poweroff") a
  respond c window_closed a = done (engine_quit a)
  respond c (key_pressed ev) a = done (handle_key ev a)
  respond c (typed s) a = done (record a { password_input = set_text s a.password_input })

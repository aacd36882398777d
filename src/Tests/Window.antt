-- ===== src/Tests/Window.antt =====
-- The theorems on the greeter's window at concrete inputs. Models no code of its own.
use miqudm.Prelude.{
  ℕ, zero, suc, get_elem?, ◌≡◌, refl, true, false, List, [], ◌∷◌, map, Option, none, some, Text,
  codes, text_eq, has, contains, split_first, if◌then◌else◌, pos, arith, All,
}
use miqudm.Tests.World.{
  world, fresh, source, alice, Value, member, json_of, json_of-laws, json_with, get_member, as_text,
  as_flag, has_member,
}
use miqudm.Users.{scan_users, is_interactive}
use miqudm.Sessions.{DirEntry, fallback_session, scan_all, scan_directory}
use miqudm.Ipc.{
  IpcMessage, serialize, to_value, set_text, set_items, session_value, user_value, deserialize,
  from_value, get_text, get_bool, get_items,
}
use miqudm.Ipc.Library.{Json}
use miqudm.Daemon.Login.{reply_of, send}
use miqudm.Daemon.Requests.{process_message, process_type}
use miqudm.Greeter.Client.{Connection, client_login, send_request, parse_response, login_error}
use miqudm.Ipc.Framing.{read_response}
use miqudm.Greeter.Client.Exchange.{last_written}
use miqudm.Greeter.App.{GreeterApp, new_app, done}
use miqudm.Greeter.App.Setup.{fill_and_show, init}
use miqudm.Greeter.App.Ready.{Ensures, IsReady}
use miqudm.Greeter.Widget.{widgets}
use miqudm.Greeter.Window.{Clock, window_of, root_frame, sleep_sign, reboot_sign, shutdown_sign}
use miqudm.Greeter.Window.Shown.{ShowsLists, init-ShowsLists}
use miqudm.Greeter.Window.Powers.{buttons, click, Pressed, method_of_label, window_of-Pressed}
use miqudm.Daemon.{Daemon}
use miqudm.Daemon.Replies.Verdict.{Answers}
use miqudm.Greeter.App.Choice.{respond_all, way}
use miqudm.Greeter.App.Served.{ForksOnly}
use miqudm.Greeter.Window.FirstLogin.{first_login-ForksOnly}
use miqudm.Greeter.Window.Fits.{Fits, root_frame-Fits}

abbrev users_reply : IpcMessage
users_reply = record (reply_of true []) { users = alice ∷ [] }

abbrev sessions_reply : IpcMessage
sessions_reply = record (reply_of true []) { sessions = fallback_session ∷ [] }

-- A document is written as the name of its last member.
abbrev last_key : Value → Text
last_key (member k x rest) = k
last_key _ = []

abbrev replies_json : Json
replies_json = json_of last_key (λ s.
    if text_eq s (codes "users")
    then some (to_value (json_with none) users_reply)
    else if text_eq s (codes "sessions")
    then some (to_value (json_with none) sessions_reply)
    else some (to_value (json_with none) (reply_of true (codes "Login successful"))))

abbrev delivering : List Text → Connection
delivering pieces = record {
  opens = true;
  connects = true;
  takes = λ payload. true;
  answers = λ payload. true;
  received = λ payload. pieces;
}

abbrev c_users : Connection
c_users = delivering (codes "us" ∷ codes "ers\n" ∷ [])

abbrev c_sessions : Connection
c_sessions = delivering (codes "sessions\n" ∷ [])

abbrev no_directories : Text → Option (List DirEntry)
no_directories path = none

abbrev noon : Clock
noon size format = codes "12:00"

init-ShowsLists_example :
    (a : GreeterApp) × (init replies_json c_users c_sessions source no_directories true
        (new_app true false)
      ≡ done (true, a))
    × ShowsLists noon (alice ∷ []) (fallback_session ∷ []) a
    × ((alice ∷ []) ≡ scan_users source)
    × ((fallback_session ∷ []) ≡ scan_all no_directories)
unfolding has serialize to_value session_value user_value set_text set_items process_message
    process_type send last_written scan_users is_interactive scan_all scan_directory text_eq
    contains split_first
init-ShowsLists_example =
    init-ShowsLists replies_json (json_of-laws _ _) world c_users c_sessions [] [] fresh fresh
      (pos 5) (pos 5) noon source no_directories true
      (record { works = refl; clean = (refl, (refl, tt)); arrives = refl })
      (record { works = refl; clean = (refl, tt); arrives = refl }) ((omega arith, omega arith), tt)
      (record { one_line = refl; parses = refl }) (record { one_line = refl; parses = refl })

-- The daemon that has cached both lists.
abbrev serving : Daemon
serving = record fresh { cached_users = alice ∷ []; cached_sessions = fallback_session ∷ [] }

abbrev app : GreeterApp
app = (fill_and_show source no_directories true false (new_app true false)).1

app-IsReady : IsReady app
unfolding fill_and_show scan_users is_interactive scan_all scan_directory text_eq contains
    split_first
app-IsReady = record {
  user_in_range = omega arith;
  session_in_range = omega arith;
  spinner = refl;
  cards = refl;
}

window_of-Pressed_example :
    (map (λ b. b.0) (buttons (widgets (window_of noon app).content_view))
      ≡ sleep_sign ∷ reboot_sign ∷ shutdown_sign ∷ codes "Sign In" ∷ [])
    × All
        (λ b.
          Ensures
            (Pressed world replies_json fresh (pos 5) [] app (method_of_label b.0))
            (click replies_json c_users b.1 app))
        (buttons (widgets (window_of noon app).content_view))
unfolding fill_and_show
window_of-Pressed_example =
    window_of-Pressed world replies_json fresh (pos 5) [] noon c_users app app-IsReady refl

root_frame-Fits_example : Fits 680 (root_frame noon app)
unfolding fill_and_show scan_users is_interactive text_eq contains split_first
root_frame-Fits_example = root_frame-Fits noon app 680 (omega arith) (omega arith) (omega arith)

abbrev c_login : Connection
c_login = delivering (codes "message\n" ∷ [])

alone : {A : Type 0} (x : A) (i : ℕ) (y : A) → get_elem? (x ∷ []) i ≡ some y → y ≡ x
alone x zero y e = ground arith
alone x (suc i) y e = ground arith

first_login-ForksOnly_example :
    (a b : GreeterApp) × (req : IpcMessage) × (init replies_json c_users c_sessions source
        no_directories true
        (new_app true false)
      ≡ done (true, a))
    × (respond_all replies_json c_login (way 0 0 (codes "secret")) a ≡ done b)
    × (b.sent ≡ req ∷ a.sent)
    × (a.sent ≡ [])
    × Answers replies_json
        (ForksOnly alice fallback_session)
        (pos 5)
        []
        (process_message world replies_json serving (pos 5) req []).1
unfolding has serialize to_value session_value user_value set_text set_items process_message
    process_type send last_written scan_users is_interactive scan_all scan_directory text_eq
    contains split_first client_login send_request parse_response login_error read_response
    deserialize from_value get_text get_member as_text get_bool as_flag get_items has_member
first_login-ForksOnly_example =
    first_login-ForksOnly world replies_json (json_of-laws _ _) c_users c_sessions c_login [] [] []
      fresh fresh serving (pos 5) (pos 5) (pos 5) noon source no_directories 0 0 alice
      fallback_session (codes "secret") none
      (record { works = refl; clean = (refl, (refl, tt)); arrives = refl })
      (record { works = refl; clean = (refl, tt); arrives = refl }) ((omega arith, omega arith), tt)
      (record { one_line = refl; parses = refl }) (record { one_line = refl; parses = refl }) refl
      refl refl refl
      (record {
        user_alone = λ n v at_n same. alone alice n v at_n;
        session_alone = λ n r at_n same. alone fallback_session n r at_n;
      })
      (omega arith) refl

-- ===== src/Tests/Interface.antt =====
-- The theorems on the greeter's program at concrete inputs. Models no code of its own.
use miqudm.Prelude.{
  ◌≡◌, refl, true, false, List, [], ◌∷◌, Option, none, some, Text, codes, pos, arith, has, text_eq,
  contains, split_first,
}
use miqudm.Tests.World.{
  result, get_member, as_text, as_flag, has_member, world, json_with, json_laws, fresh, source,
  alice,
}
use miqudm.Users.{scan_users}
use miqudm.Sessions.{DirEntry, fallback_session, scan_all, scan_directory}
use miqudm.Ipc.{
  IpcMessage, serialize, to_value, set_text, set_items, session_value, user_value, deserialize,
  from_value, get_text, get_bool, get_items,
}
use miqudm.Ipc.Framing.{read_response}
use miqudm.Ipc.Library.{Json}
use miqudm.Daemon.Login.{
  reply_of, grant_login, authenticate_login, check_login, establish_login, finish_login, grant,
  set_session_env,
}
use miqudm.Pam.{start, authenticate, check_account, establish_credentials, open_session, set_env}
use miqudm.Greeter.Client.Exchange.{IsReadBack}
use miqudm.Daemon.Replies.Verdict.{IsVerdict}
use miqudm.Daemon.Replies.Answers.{handle_login_request-Answers}
use miqudm.Greeter.Client.{
  parse_response, login_error, Connection, send_request, take_items, client_get_users, client_login,
  login_request,
}
use miqudm.Greeter.Card.Draw.{Canvas, draw}
use miqudm.Greeter.Card.Draw.Lifetimes.{perform_all, clear, draw-clear}
use miqudm.Greeter.App.{GreeterApp, new_app, respond, submitted}
use miqudm.Greeter.App.Setup.{init, after_load, try_ipc, load_ipc, setup_ui, fill_and_show}
use miqudm.Greeter.App.Ready.{Ensures, IsReady}
use miqudm.Greeter.App.Requests.{IsAsked, request_of, respond-IsAsked}
use miqudm.Greeter.App.Reachable.{Reach, begins, IsKept, Reach-IsKept}
use miqudm.Greeter.App.Choice.{Returns, HasAsked, respond_all, way, respond_all-HasAsked}
use miqudm.Greeter.Client.Login.{Tells, client_login-Tells}
use miqudm.Greeter.Main.{Surroundings, main}
use miqudm.Greeter.Main.Safe.{IsSafe, main-IsSafe}

-- No daemon listens.
abbrev offline : Connection
offline = record {
  opens = true;
  connects = false;
  takes = λ payload. true;
  answers = λ payload. true;
  received = λ payload. [];
}

abbrev no_sessions : Text → Option (List DirEntry)
no_sessions path = none

abbrev app : GreeterApp
app = (fill_and_show source no_sessions true false (new_app true false)).1

-- The daemon's reply to a login that is granted.
abbrev granted_json : Json
granted_json =
    json_with (some (to_value (json_with none) (reply_of true (codes "Login successful"))))

app-Reach : Reach granted_json false app
unfolding init after_load try_ipc load_ipc client_get_users send_request take_items fill_and_show
app-Reach = begins offline offline source no_sessions true app refl

abbrev online : Connection
online = record offline { connects = true; received = λ payload. codes "{" ∷ codes "}\n" ∷ [] }

Reach-IsKept_example : IsKept false app
Reach-IsKept_example = Reach-IsKept granted_json false app app-Reach

app-IsReady : IsReady app
app-IsReady = Reach-IsKept_example.ready

respond-IsAsked_example :
    Ensures (IsAsked app (request_of submitted app)) (respond granted_json online submitted app)
respond-IsAsked_example =
    respond-IsAsked granted_json online submitted app
      (Reach-IsKept granted_json false app app-Reach).ready

respond_all-HasAsked_example :
    Returns
      (HasAsked [] alice fallback_session (codes "secret") none)
      (respond_all granted_json online (way 0 0 (codes "secret")) app)
unfolding fill_and_show setup_ui scan_users scan_all scan_directory client_login send_request
    parse_response login_error text_eq contains split_first read_response deserialize from_value
    get_text get_member to_value set_items set_text as_text get_bool as_flag get_items has_member
respond_all-HasAsked_example =
    respond_all-HasAsked granted_json online app 0 0 alice fallback_session (codes "secret") none
      app-Reach refl refl (omega arith) refl

abbrev alice_login : IpcMessage
alice_login = login_request (codes "alice") (codes "secret") [] []

reply-IsReadBack :
    (resp : IpcMessage)
    → resp ≡ reply_of true (codes "Login successful")
    → IsReadBack granted_json resp
unfolding has to_value set_text set_items session_value user_value
reply-IsReadBack resp e = rw e (record { one_line = refl; parses = refl })

granted-IsReadBack :
    (resp : IpcMessage)
    → IsVerdict (grant_login world granted_json fresh (pos 5) alice_login []).0 resp
    → IsReadBack granted_json resp
unfolding grant_login authenticate_login check_login establish_login finish_login grant
    set_session_env start authenticate check_account establish_credentials open_session set_env
    result
granted-IsReadBack resp e = reply-IsReadBack resp e

client_login-Tells_example :
    Tells world
      (grant_login world granted_json fresh (pos 5) alice_login []).0
      (grant_login world granted_json fresh (pos 5) alice_login []).1
      (client_login granted_json online (codes "alice") (codes "secret") [] [])
unfolding has serialize
client_login-Tells_example =
    client_login-Tells granted_json online (json_laws _) world fresh (pos 5) [] (codes "alice")
      (codes "secret") [] [] refl (refl, (refl, tt))
      (handle_login_request-Answers world granted_json fresh (pos 5) alice_login []).sent
      granted-IsReadBack

abbrev surroundings : Surroundings
surroundings = record {
  makes_engine = true;
  makes_window = true;
  callbacks = (online, submitted) ∷ [];
  loop_result = 0;
  users_connection = offline;
  sessions_connection = offline;
  user_source = source;
  directories = no_sessions;
}

main-IsSafe_example : Ensures (IsSafe true) (main granted_json surroundings (codes "--test" ∷ []))
unfolding text_eq
main-IsSafe_example = main-IsSafe granted_json surroundings (codes "--test" ∷ [])

abbrev canvas : Canvas
canvas = record {
  has_context = true;
  font_family = [];
  initial_width = pos 18;
  initial_height = pos 24;
}

draw-clear_example :
    perform_all
      (draw canvas
        (record { user = alice; is_selected = true })
        (record { x = pos 0; y = pos 0; width = pos 104; height = pos 116 }))
      (clear 1)
    ≡ some (clear 1)
draw-clear_example =
    draw-clear canvas (record { user = alice; is_selected = true })
      (record { x = pos 0; y = pos 0; width = pos 104; height = pos 116 }) 1

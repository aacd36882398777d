-- ===== src/Tests/Service.antt =====
-- The theorems on the daemon's process at concrete inputs. Models no code of its own.
use miqudm.Os.{
  Os, Trace, Call, fork_greeter, waitpid_nohang, set_running, poll_server, is_stopped, call,
}
use miqudm.Session.{session_child}
use miqudm.Daemon.{Daemon, init}
use miqudm.Daemon.Greeter.{start_greeter}
use miqudm.Daemon.Loop.{check_greeter}
use miqudm.Prelude.{
  ℤ, Text, if◌then◌else◌, has, ◌≡◌, ◌≢◌, inr, refl, true, List, [], ◌∷◌, codes, pos, leb, length,
  arith, ◌+◌, ◌≤◌, some,
}
use miqudm.Tests.World.{world, failing, json, json_laws, request, fresh, result, alice}
use miqudm.Pam.Status.{status, guarded, is_open}
use miqudm.Pam.Life.{starts, opens_session}
use miqudm.Pam.Move.{
  Use, Remains, calls_first, calls_second, moves_to_second, moves_to_itself, makes_first, two_lives,
  two_lives-closed,
}
use miqudm.Sessions.{SessionInfo, default_session}
use miqudm.Ipc.{
  IpcMessage, deserialize, serialize, to_value, session_value, user_value, set_text, set_items,
}
use miqudm.Ipc.RoundTrip.{deserialize-serialize}
use miqudm.Daemon.Login.{find_session, find_user}
use miqudm.Daemon.Login.Users.{continued, continued-root}
use miqudm.Pam.{new_pam, start}
use miqudm.Session.Identity.{Identity, ExecsAs}
use miqudm.Daemon.Login.Sessions.{find_session-first}
use miqudm.Daemon.Loop.Ends.{IsPolite}
use miqudm.Daemon.Main.{exits_with, main}
use miqudm.Daemon.Main.Clean.{LeavesNothing, HasExited, main-IsClean, main-HasExited}
use miqudm.Daemon.Main.Arguments.{flags, asks, main-flags}
use miqudm.Daemon.Replies.Verdict.{Answers}
use miqudm.Daemon.Replies.Answers.{Promise, process_message-Answers}
use miqudm.Daemon.Requests.{process_message}
use miqudm.Daemon.Socket.{IsSetUp, socket_status, init-IsSetUp}

main-IsClean_example :
    (guarded (main world json 3 [] []).1 ≡ true)
    × LeavesNothing (main world json 3 [] []).0 (main world json 3 [] []).1
main-IsClean_example = main-IsClean world json 3 []

-- The world in which a signal comes once thirty calls have been made.
abbrev signalled : Os
signalled = record world { signalled = λ t. leb 30 (length t) }

json-IsPolite : IsPolite signalled json
unfolding deserialize to_value serialize has session_value user_value set_text set_items result
json-IsPolite = (
  λ t line e. (request, (deserialize-serialize json (json_laws _) request tt refl refl).2),
  λ t fd reply. refl,
)

late-is_stopped : (u : Trace) → 30 ≤ length u → is_stopped signalled u ≡ true
unfolding is_stopped
late-is_stopped [] h = absurd (omega arith)
late-is_stopped (e ∷ t) h = ground arith

main-HasExited_example : HasExited (main signalled json 31 [] []).0
main-HasExited_example = main-HasExited signalled json 30 [] [] json-IsPolite late-is_stopped

abbrev config_args : List Text
config_args = codes "-c" ∷ codes "-h" ∷ []

main-flags_example :
    main world json 3 config_args []
    ≡ (if asks (flags config_args) then (exits_with 0, []) else main world json 3 [] [])
main-flags_example = main-flags world json 3 [] config_args

process_message-Answers_example :
    Answers json
      (Promise world json fresh request [] request.type)
      (pos 5)
      []
      (process_message world json fresh (pos 5) request []).1
process_message-Answers_example = process_message-Answers world json fresh (pos 5) request []

init-IsSetUp_example :
    IsSetUp
      (init failing fresh []).0.0
      (init failing fresh []).0.1.server_socket_fd
      (socket_status (init failing fresh []).1)
unfolding socket_status
init-IsSetUp_example = init-IsSetUp failing fresh [] refl

abbrev nothing : Remains
nothing = record { username = []; service_name = []; error_message = [] }

-- A transaction is moved between two objects, one of which has its own.
abbrev uses : List Use
uses =
    calls_first (starts (codes "alice") (codes "miqudm"))
    ∷ calls_first opens_session
    ∷ calls_second (starts (codes "bob") (codes "miqudm"))
    ∷ moves_to_second nothing
    ∷ moves_to_itself
    ∷ makes_first nothing
    ∷ []

two_lives-closed_example : is_open (status 0 (two_lives world uses []).1) ≢ true
two_lives-closed_example = two_lives-closed world uses 0

-- Two sessions with one command.
abbrev gnome : SessionInfo
gnome = record default_session {
  id = codes "gnome";
  name = codes "GNOME";
  exec = codes "gnome-session";
}

abbrev gnome_wayland : SessionInfo
gnome_wayland = record default_session {
  id = codes "gnome-wayland";
  name = codes "GNOME on Wayland";
  exec = codes "gnome-session";
}

abbrev choice : IpcMessage
choice = record request {
  desktop_name = codes "gnome-wayland";
  session_exec = codes "gnome-session";
}

find_session-first_example : find_session choice (gnome ∷ gnome_wayland ∷ []) ≡ gnome
find_session-first_example =
    find_session-first choice [] (gnome_wayland ∷ []) gnome tt (inr (inr refl))

-- The world where each greeter that is forked has died by the next look, and no client comes.
unfoldable dying : Trace → Call → ℤ
dying t fork_greeter = pos (41 + length t)
dying t (waitpid_nohang pid) = pid
dying t _ = pos 0

abbrev dying_world : Os
dying_world = record world { ret = dying }

abbrev begun : Daemon × Trace
begun =
    start_greeter dying_world (record fresh { running = true }) (call dying_world set_running []).1

abbrev restarted : Daemon × Trace
restarted = check_greeter dying_world json begun.0 (call dying_world poll_server begun.1).1

-- A name in the list, with a zero byte behind it.
continued-root_example :
    let sent = continued (codes "alice") [] in
    ((start world new_pam sent (codes "miqudm") []).1
      ≡ (start world new_pam (codes "alice") (codes "miqudm") []).1)
    × ((i : Identity) × (i.uid ≡ some 0)
        × (i.gid ≡ some 0)
        × ExecsAs i (session_child world (find_user sent (alice ∷ [])) gnome [] (pos 1) []).1)
unfolding has
continued-root_example =
    continued-root world (codes "alice") [] (codes "miqudm") (alice ∷ []) [] gnome [] (pos 1) refl
      (refl, tt)

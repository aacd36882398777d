-- ===== src/Tests.antt =====
-- The theorems at concrete inputs. Models no code of its own.
mod World
mod Settings
mod Transactions
mod Launcher
mod Service
mod Interface
mod Window
use mathlib.Core.List.{Mem, mem-cons_self, mem-cons_of_mem}
use miqudm.Prelude.{
  ℕ, ◌≡◌, ◌≢◌, ◌⊎◌, ◌≤◌, ◌<◌, refl, Bool, true, false, List, [], ◌∷◌, ◌++◌, Option, none, some,
  Text, codes, ℤ, pos, negsuc, All, split_first, find_if, arith, text_eq, IsInt, if◌then◌else◌,
  eq_ℤ, is_pos, map, contains, has, is_empty, length,
}
use World.{
  world, failing, stuck, result, no_setuid, json, json_with, json_laws, request, fresh, alice,
  alice_entry, passwd, source, no_files,
}
use miqudm.Os.{is_stopped, Trace, Event, pam_start, succeeded, call, setsid, waitpid, exited}
use miqudm.Config.{
  write_file, saved_text, Config, default_config, FileSystem, load, save, save_path,
  find_config_file, remember,
}
use miqudm.Config.Trim.{trim}
use miqudm.Config.Values.{IsValue, IsClean, load-IsClean}
use miqudm.Config.RoundTrip.{load-save}
use miqudm.Config.Restart.{load-remember}
use miqudm.Daemon.{Daemon}
use miqudm.Daemon.Loop.{run, rounds, round, shut_down}
use miqudm.Daemon.Login.{is_running_now}
use miqudm.Daemon.Greeter.{
  start_greeter, make_runtime_dir, greeter_account, open_greeter_pam, drop_pam,
}
use miqudm.Daemon.Loop.Released.{AllReleased, run-guarded, run-AllReleased}
use miqudm.Pam.Status.{status, guarded, is_open, dangling}
use miqudm.Ipc.{serialize, deserialize, to_value, session_value, user_value, set_text, set_items}
use miqudm.Ipc.RoundTrip.{deserialize-serialize}
use miqudm.Ipc.Framing.{
  read_request, read_response, first_line, or_rest, read_request-first_line, read_response-or_rest,
}
use miqudm.Users.{scan_users, user_of, is_interactive, fallback_user}
use miqudm.Users.Scan.{IsOffered, Comes, scan_users-exact}
use miqudm.Sessions.{default_session, DirEntry, scan_all, stem, parse_desktop_file}
use miqudm.Sessions.Distinct.{IsMenu, scan_all-IsMenu}
use miqudm.Sessions.Desktop.{first_lines, parse_desktop_file_first}
use miqudm.Session.{
  SessionLauncher, session_child, enter_environment, env_pairs, base_env, wait_for_exit, terminate,
}
use miqudm.Session.Identity.{Identity, identity, ExecsAs}
use miqudm.Session.Child.{identity_of, session_child-ExecsAs}
use miqudm.Session.Environment.{env, last_value, enter_environment-env}
use miqudm.Session.Wait.{after_interrupts, wait_for_exit-result, terminate-free}
use miqudm.Pam.Life.{
  Method, starts, authenticates, establishes_credentials, opens_session, closes_session, apply,
  life, life-no_leak, none-ne-some,
}
use miqudm.Pam.Progress.{authenticate-dangling, pam_conversation-replies}
use miqudm.Pam.{
  PamAuth, new_pam, start, authenticate, establish_credentials, open_session, close_session,
  end_pam, pam_conversation, MessageStyle, prompt_echo_off, conv_err, replies, answer,
}
use miqudm.Pam.Life as PamLife
use miqudm.Daemon.Login.{grant_login, handle_login_request, find_user}
use miqudm.Daemon.Login.Granted.{WhereGranted, grant_login-WhereGranted}
use miqudm.Daemon.Login.Accounts.{GreeterOnly, handle_login_request-GreeterOnly}
use miqudm.Daemon.Requests.{trigger}
use miqudm.Daemon.Requests.Power.{method_of, Triggers, trigger-Triggers}
use miqudm.Daemon.Greeter.{greeter_child}
use miqudm.Daemon.Greeter.Root.{greeter_child-superuser}
use miqudm.Ipc.{IpcMessage}
use miqudm.Ipc.Library.{Json}
use miqudm.Daemon.Login.{reply_of, send}
use miqudm.Daemon.Requests.{process_message, process_type}
use miqudm.Greeter.Client.{Connection, returns, client_get_users}
use miqudm.Greeter.Client.Exchange.{client_get_users-scan_users, last_written}

nothing_open : AllReleased []
unfolding status
nothing_open k = refl

run-guarded_example : guarded (run world json 1 fresh []).1 ≡ true
unfolding guarded
run-guarded_example = run-guarded world json 1 fresh [] refl nothing_open refl

abbrev ended : Option Daemon → Daemon
ended (some d) = d
ended none = fresh

run-AllReleased_example : AllReleased (run failing json 1 fresh []).1
unfolding guarded run rounds is_running_now round start_greeter shut_down is_stopped
    make_runtime_dir greeter_account open_greeter_pam start drop_pam
run-AllReleased_example =
    run-AllReleased failing json 1 fresh (ended (run failing json 1 fresh []).0) [] refl
      nothing_open refl refl

deserialize-serialize_example :
    (line : Text) × (split_first b'\n' (serialize json request) ≡ some (line, []))
    × (deserialize json line ≡ some request)
unfolding has to_value session_value user_value set_text set_items
deserialize-serialize_example = deserialize-serialize json (json_laws _) request tt refl refl

grant_login-WhereGranted_example :
    WhereGranted
      (codes "alice")
      (grant_login world json fresh (pos 5) request []).0
      (grant_login world json fresh (pos 5) request []).1
grant_login-WhereGranted_example = grant_login-WhereGranted world json fresh (pos 5) request []

handle_login_request-GreeterOnly_example :
    GreeterOnly
      (handle_login_request world json fresh (pos 5) request []).0
      (handle_login_request world json fresh (pos 5) request []).1
unfolding guarded status
handle_login_request-GreeterOnly_example =
    handle_login_request-GreeterOnly world json fresh (pos 5) request [] (record {
      first = (refl, refl);
      second = (refl, refl);
      apart = λ k held. absurd (none-ne-some k held);
      safe = refl;
      all = λ k left. cc;
    })

scan_users-exact_example :
    All
      (λ pw. (is_interactive pw ≡ false) ⊎ Mem (user_of source pw) (scan_users source))
      source.entries
    × (All (λ u. IsOffered u × Comes source u) (scan_users source)
        ⊎ ((scan_users source ≡ fallback_user source ∷ [])
            × All (λ pw. is_interactive pw ≡ false) source.entries))
scan_users-exact_example = scan_users-exact source

no_sessions : Text → Option (List DirEntry)
no_sessions path = none

scan_all-IsMenu_example : IsMenu (scan_all no_sessions) × (is_empty (scan_all no_sessions) ≡ false)
scan_all-IsMenu_example = scan_all-IsMenu no_sessions

parse_desktop_file_first_example :
    let info =
      parse_desktop_file
        (codes "/usr/share/wayland-sessions/sway.desktop")
        (some (first_lines (codes "Sway") (codes "sway") (codes "Name=Other\n")))
        true in
    (info.name ≡ codes "Sway")
    × (info.exec ≡ codes "sway")
    × (info.id ≡ stem (codes "/usr/share/wayland-sessions/sway.desktop"))
unfolding trim has
parse_desktop_file_first_example =
    parse_desktop_file_first (codes "/usr/share/wayland-sessions/sway.desktop") (codes "Sway")
      (codes "sway") (codes "Name=Other\n") true (refl, refl, refl) (refl, refl, refl)

trigger-Triggers_example :
    Triggers
      (method_of (codes "reboot"))
      (record { bus = true })
      []
      (trigger world json (codes "reboot") (record { bus = true }) [])
trigger-Triggers_example = trigger-Triggers world json (codes "reboot") (record { bus = true }) []

read_request-first_line_example :
    read_request [] (codes "{a" ∷ codes ":1}\n" ∷ []) ≡ first_line (codes "{a:1}\n")
unfolding has split_first
read_request-first_line_example =
    read_request-first_line (codes "{a" ∷ codes ":1}\n" ∷ []) [] (refl, (refl, tt)) refl

read_response-or_rest_example :
    read_response [] (codes "{a" ∷ codes ":1}" ∷ []) ≡ or_rest (codes "{a:1}")
unfolding has split_first
read_response-or_rest_example =
    read_response-or_rest (codes "{a" ∷ codes ":1}" ∷ []) [] (refl, (refl, tt)) refl

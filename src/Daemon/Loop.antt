-- ===== src/Daemon/Loop.antt =====
-- `Daemon::run` and `Daemon::stop` of daemon/daemon.cpp, and `main` of daemon/main.cpp.
pub mod Accounts
pub mod Released
pub mod Ends
pub mod Descriptors
pub mod Closed
pub mod Held
pub mod Greeted
use miqudm.Prelude.{
  ℕ, zero, suc, Bool, true, false, not, ◌&&◌, ◌||◌, List, [], ◌∷◌, Option, none, some, Text, codes,
  if◌then◌else◌, ℤ, pos, is_neg, is_pos, eq_ℤ, text_eq,
}
use miqudm.Ipc.Library.{Json}
use miqudm.Session.{is_running, terminate}
use miqudm.Daemon.{Daemon, init, cleanup_ipc_socket, no_pid}
use miqudm.Daemon.Greeter.{start_greeter, stop_greeter}
use miqudm.Daemon.Login.{is_running_now}
use miqudm.Daemon.Requests.{handle_client_connection}
use miqudm.Os.{
  Os, Trace, Call, poll_server, accept_client, close_fd, waitpid_nohang, usleep, set_running, M,
  pure, ◌>>=◌, ◌>>◌, call,
}

-- `Daemon::stop`.
abbrev pub stop : Daemon → Daemon
stop d = record d { running = false }

-- How one round of the loop ends: with another round, with `break`, or with the process.
pub data Round : Type 0 where
  continues breaks : Daemon → Round
  crashes : Round

module _ (os : Os) (j : Json) where
  -- "Check if greeter died unexpectedly".
  unfoldable pub check_greeter : Daemon → M Daemon
  check_greeter d = do
    busy ← if is_pos d.greeter_pid then is_running os d.session_launcher else pure true
    if is_pos d.greeter_pid && not busy
        then (do
          res ← call os (waitpid_nohang d.greeter_pid)
          if eq_ℤ res d.greeter_pid
              then (do
                call os (usleep 1000000)
                start_greeter os (record d { greeter_pid = no_pid }))
              else pure d)
        else pure d

  -- An exception of JsonCpp ends the process with the connection open.
  close_behind : ℤ → Option Daemon → M (Option Daemon)
  close_behind client_fd none = pure none
  close_behind client_fd (some d) = do call os (close_fd client_fd); pure (some d)

  serve_client : Daemon → ℤ → M (Option Daemon)
  unfolding close_behind
  serve_client d client_fd = do
    served ← handle_client_connection os j d client_fd
    close_behind client_fd served

  -- `accept`, and the client.
  unfoldable pub accept_one : Daemon → M (Option Daemon)
  unfolding serve_client
  accept_one d = do
    client_fd ← call os accept_client
    if not (is_neg client_fd) then serve_client d client_fd else pure (some d)

  after_client : Option Daemon → M Round
  after_client none = pure crashes
  after_client (some d) = do d' ← check_greeter d; pure (continues d')

  -- One round; `poll` gives a positive number where the server socket is readable.
  unfoldable pub round : Daemon → M Round
  unfolding after_client
  round d = do
    ready ← call os poll_server
    if is_neg ready
        then (λ t. (if os.interrupted t then continues d else breaks d, t))
        else (do served ← if is_pos ready then accept_one d else pure (some d); after_client served)

  -- "stop_greeter(); m_session_launcher.terminate(); cleanup_ipc_socket();"
  unfoldable pub shut_down : Daemon → M Daemon
  shut_down d = do
    d' ← stop_greeter os d
    l ← terminate os d'.session_launcher
    cleanup_ipc_socket os (record d' { session_launcher = l })

  unfoldable pub next_round : (Daemon → M (Option Daemon)) → Round → M (Option Daemon)
  next_round again (continues d) = again d
  next_round again (breaks d) = pure (some d)
  next_round again crashes = pure none

  -- At most `n` rounds of the loop; `none` is a loop that is not over, or a crash.
  unfoldable pub rounds : ℕ → Daemon → M (Option Daemon)
  unfolding next_round
  rounds zero d = pure none
  rounds (suc n) d = do
    running ← is_running_now os j d
    if not running then pure (some d) else (do r ← round d; next_round (rounds n) r)

  end_of_run : Option Daemon → M (Option Daemon)
  end_of_run none = pure none
  end_of_run (some d) = do d' ← shut_down d; pure (some d')

  -- `Daemon::run`, with a bound on the rounds.
  unfoldable pub run : ℕ → Daemon → M (Option Daemon)
  unfolding end_of_run
  run n d = do
    call os set_running
    begun ← start_greeter os (record d { running = true })
    ended ← rounds n begun
    end_of_run ended

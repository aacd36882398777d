-- ===== src/Daemon/Main.antt =====
-- `main` of daemon/main.cpp: the options, the life of the one `Daemon` with its members' destructors,
-- and the exit code. The usage text and the messages are left out.
pub mod Clean
pub mod Closed
pub mod Arguments
use miqudm.Prelude.{
  ℕ, Bool, true, false, not, ◌&&◌, ◌||◌, List, [], ◌∷◌, Option, none, some, Text, codes, text_eq,
  if◌then◌else◌, ℤ, negsuc,
}
use Prim.Native.String.{String}
use miqudm.Config.{default_config}
use miqudm.Ipc.Library.{Json}
use miqudm.Session.{terminate}
use miqudm.Logind
use miqudm.Daemon.{Daemon, init, no_pid}
use miqudm.Daemon.Greeter.{drop_pam}
use miqudm.Daemon.Loop.{run, stop}
use miqudm.Os.{Os, Trace, M, pure, ◌>>=◌, ◌>>◌}

-- The state at the start of the process: `Daemon::Daemon`, and the singletons.
abbrev pub new_daemon : Daemon
new_daemon = record {
  config = default_config;
  logind = record { bus = false };
  socket_path = [];
  server_socket_fd = no_pid;
  greeter_pid = no_pid;
  running = false;
  greeter_pam = none;
  active_pam = none;
  session_launcher = record { session_pid = no_pid };
  cached_users = [];
  cached_sessions = [];
}

-- What the options ask for. `serve` has the path that was given for the configuration.
pub data Options : Type 0 where
  usage version : Options
  serve : Text → Options

abbrev pub is_option : String → String → Text → Bool
is_option short long arg = text_eq arg (codes short) || text_eq arg (codes long)

-- The loop over `argv`, behind the program's name.
unfoldable pub parse_options : Text → List Text → Options
parse_options config_path [] = serve config_path
parse_options config_path (arg ∷ []) =
    if is_option "-h" "--help" arg
    then usage
    else if is_option "-v" "--version" arg
    then version
    else serve config_path
parse_options config_path (arg ∷ next ∷ rest) =
    let skipped = parse_options config_path (next ∷ rest) in
    let taken = parse_options next rest in
    if is_option "-h" "--help" arg
    then usage
    else if is_option "-v" "--version" arg
    then version
    else if is_option "-c" "--config" arg
    then taken
    else skipped

-- How the process ends. `aborted` is an exception, or a loop that is not over.
pub data ExitStatus : Type 0 where
  exits_with : ℕ → ExitStatus
  aborted : ExitStatus

module _ (os : Os) (j : Json) where
  -- `Daemon::~Daemon`, its members' destructors, and that of `LogindManager` at the exit.
  unfoldable pub destroy : Daemon → M Daemon
  destroy d = do
    let d' = stop d
    launcher ← terminate os d'.session_launcher
    drop_pam os d'.active_pam
    drop_pam os d'.greeter_pam
    logind ← Logind.shutdown os d'.logind
    pure (record d' {
      session_launcher = launcher;
      active_pam = none;
      greeter_pam = none;
      logind = logind;
    })

  unfoldable pub exit_after : ℕ → Daemon → M ExitStatus
  exit_after code d = do destroy d; pure (exits_with code)

  unfoldable pub after_run : Option Daemon → M ExitStatus
  after_run none = pure aborted
  after_run (some d) = exit_after 0 d

  unfoldable pub run_daemon : ℕ → M ExitStatus
  run_daemon n = do
    ready ← init os new_daemon
    if not ready.0 then exit_after 1 ready.1 else (do ended ← run os j n ready.1; after_run ended)

  unfoldable pub run_options : ℕ → Options → M ExitStatus
  run_options n usage = pure (exits_with 0)
  run_options n version = pure (exits_with 0)
  run_options n (serve config_path) = run_daemon n

  -- `main`, with a bound on the rounds of the loop.
  unfoldable pub main : ℕ → List Text → M ExitStatus
  main n args = run_options n (parse_options [] args)

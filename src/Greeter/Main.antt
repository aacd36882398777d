-- ===== src/Greeter/Main.antt =====
-- `main` of greeter/main.cpp, with `GreeterApp::run` of greeter/greeter_app.cpp. The toolkit is a
-- parameter: whether it makes an engine and a window, what it calls back, and what its loop returns.
-- The usage text and the messages are left out.
pub mod Safe
use miqudm.Prelude.{
  ℕ, Bool, true, false, not, ◌||◌, List, [], ◌∷◌, Option, none, some, Text, codes, text_eq,
  if◌then◌else◌,
}
use miqudm.Users.{UserSource}
use miqudm.Sessions.{DirEntry}
use miqudm.Ipc.Library.{Json}
use miqudm.Greeter.Client.{Connection}
use miqudm.Greeter.App.{
  GreeterApp, and_then, new_app, Result, done, throws, out_of_bounds, Action, respond,
}
use miqudm.Greeter.App.Setup.{init}

-- What the program finds: the toolkit's part, the connections of `init`, and the scanners' sources.
pub record Surroundings : Type 0 where
  pub makes_engine : Bool
  pub makes_window : Bool
  -- The callbacks of the loop, each with the connection that it opens, and what the loop returns.
  pub callbacks : List (Connection × Action)
  pub loop_result : ℕ
  pub users_connection : Connection
  pub sessions_connection : Connection
  pub user_source : UserSource
  pub directories : Text → Option (List DirEntry)

-- What the options ask for.
pub data Options : Type 0 where
  usage : Options
  show : Bool → Options

-- The loop over `argv`, behind the program's name.
unfoldable pub parse_options : Bool → List Text → Options
parse_options test_mode [] = show test_mode
parse_options test_mode (arg ∷ args) =
    let rest =
      parse_options (test_mode || text_eq arg (codes "-t") || text_eq arg (codes "--test")) args in
    if text_eq arg (codes "-h") || text_eq arg (codes "--help") then usage else rest

-- The exit code, with the state of the program where it has one.
abbrev pub Exit : Type 0
Exit = ℕ × Option GreeterApp

module _ (j : Json) (s : Surroundings) where
  -- `enter_loop`.
  unfoldable pub enter_loop : List (Connection × Action) → GreeterApp → Result GreeterApp
  enter_loop [] a = done a
  enter_loop ((c, act) ∷ rest) a = and_then (respond j c act a) (enter_loop rest)

  -- `GreeterApp::run`.
  unfoldable pub run : GreeterApp → Result Exit
  run a =
      if not a.has_engine
      then done (1, some a)
      else and_then (enter_loop s.callbacks a) (λ b. done (s.loop_result, some b))

  unfoldable pub after_init : Bool × GreeterApp → Result Exit
  after_init (ok, a) = if not ok then done (1, some a) else run a

  unfoldable pub run_greeter : Bool → Result Exit
  run_greeter test_mode =
      if not s.makes_engine
      then done (1, none)
      else and_then
          (init j s.users_connection s.sessions_connection s.user_source s.directories
            s.makes_window (new_app true test_mode))
          after_init

  unfoldable pub run_options : Options → Result Exit
  run_options usage = done (0, none)
  run_options (show test_mode) = run_greeter test_mode

  -- `main`.
  unfoldable pub main : List Text → Result Exit
  main args = run_options (parse_options false args)

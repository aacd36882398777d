-- ===== src/Greeter/App/Setup.antt =====
-- `setup_ui` and `init` of `GreeterApp`, greeter/greeter_app.cpp.
use miqudm.Prelude.{
  Bool, false, ◌||◌, not, List, [], ◌∷◌, Option, some, Text, is_empty, if◌then◌else◌,
}
use miqudm.Users.{UserSource, scan_users}
use miqudm.Sessions.{SessionInfo, DirEntry, scan_all}
use miqudm.Ipc.Library.{Json}
use miqudm.Greeter.Card.{cards_from}
use miqudm.Greeter.Client.{Connection, client_get_users, client_get_sessions}
use miqudm.Greeter.App.{GreeterApp, Result, done, throws, out_of_bounds, ◌>>=◌}

-- The items of the spinner.
unfoldable pub session_names : List SessionInfo → List Text
session_names [] = []
session_names (s ∷ ss) = s.name ∷ session_names ss

-- `GreeterApp::setup_ui`, as far as it makes what the callbacks use. The toolkit builds the window or not.
unfoldable pub setup_ui : Bool → GreeterApp → GreeterApp
setup_ui built a = record a {
  users_grid = some (cards_from 0 a.selected_user_idx a.users);
  session_spinner = some (session_names a.sessions);
  password_input = some [];
  status_label = some [];
  has_window = built;
}

-- A list that came over the socket, or else what the greeter scans by itself.
abbrev pub or_scanned : {A : Type 0} → Bool → List A → List A → List A
or_scanned loaded_ipc items scanned = if not loaded_ipc || is_empty items then scanned else items

-- The rest of `init`: what the scanners find stands in for what did not come, and `setup_ui`.
unfoldable pub fill_and_show :
    UserSource → (Text → Option (List DirEntry)) → Bool → Bool → GreeterApp → Bool × GreeterApp
unfolding setup_ui
fill_and_show src dirs built loaded_ipc a =
    let b = record a {
      users = or_scanned loaded_ipc a.users (scan_users src);
      sessions = or_scanned loaded_ipc a.sessions (scan_all dirs);
    } in
    (built, setup_ui built b)

unfoldable pub after_load :
    UserSource
    → (Text → Option (List DirEntry))
    → Bool
    → Result (Bool × GreeterApp)
    → Result (Bool × GreeterApp)
after_load src dirs built throws = throws
after_load src dirs built out_of_bounds = out_of_bounds
after_load src dirs built (done (loaded_ipc, a)) = done (fill_and_show src dirs built loaded_ipc a)

module _ (j : Json) where
  -- `m_ipc.get_users(m_users) && m_ipc.get_sessions(m_sessions)`.
  unfoldable pub load_ipc : Connection → Connection → GreeterApp → Result (Bool × GreeterApp)
  load_ipc c1 c2 a = do
    (got_users, users) ← client_get_users j c1 a.users
    let b = record a { users = users }
    if not got_users then done (false, b) else (do
      (got_sessions, sessions) ← client_get_sessions j c2 b.sessions
      done (got_sessions, record b { sessions = sessions }))

  unfoldable pub try_ipc : Connection → Connection → GreeterApp → Result (Bool × GreeterApp)
  unfolding load_ipc
  try_ipc c1 c2 a = if a.test_mode then done (false, a) else load_ipc c1 c2 a

  -- `GreeterApp::init`.
  unfoldable pub init :
      Connection
      → Connection
      → UserSource
      → (Text → Option (List DirEntry))
      → Bool
      → GreeterApp
      → Result (Bool × GreeterApp)
  unfolding after_load try_ipc
  init c1 c2 src dirs built a =
      if not a.has_engine then done (false, a) else after_load src dirs built (try_ipc c1 c2 a)

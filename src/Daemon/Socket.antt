-- ===== src/Daemon/Socket.antt =====
-- The server socket of daemon/daemon.cpp: `setup_ipc_socket`, `cleanup_ipc_socket` and `init`.
use miqudm.Prelude.{
  ℕ, ◌≡◌, Bool, true, false, [], ◌∷◌, Option, none, some, ℤ, pos, negsuc, is_neg, eq_ℤ, arith,
  if◌then◌else◌,
}
use miqudm.Os.{Os, Trace, Call, socket, bind_socket, listen_socket, close_fd}
use miqudm.Logind
use miqudm.Daemon.{Daemon, setup_ipc_socket, cleanup_ipc_socket, init}

-- Where the server socket stands, read off the run: its descriptor while that is open, and what
-- succeeded on it.
pub record SocketStatus : Type 0 where
  pub fd : Option ℕ
  pub bound : Bool
  pub listening : Bool

abbrev pub no_socket : SocketStatus
no_socket = record { fd = none; bound = false; listening = false }

abbrev opened : ℤ → SocketStatus → SocketStatus
opened (pos k) s = record { fd = some k; bound = false; listening = false }
opened (negsuc k) s = s

abbrev closes : Option ℕ → ℤ → Bool
closes none x = false
closes (some k) x = eq_ℤ x (pos k)

unfoldable pub socket_step : ℤ → SocketStatus → Call → SocketStatus
socket_step r s socket = opened r s
socket_step r s bind_socket = if is_neg r then s else record s { bound = true }
socket_step r s listen_socket = if is_neg r then s else record s { listening = true }
socket_step r s (close_fd x) = if closes s.fd x then no_socket else s
socket_step r s _ = s

unfoldable pub socket_status : Trace → SocketStatus
socket_status [] = no_socket
socket_status (e ∷ t) = socket_step e.result (socket_status t) e.call

-- After success the daemon holds a socket that is open, bound and listening; after failure it holds
-- none, and none is left open.
abbrev pub IsSetUp : Bool → ℤ → SocketStatus → Type 0
IsSetUp true fd s =
    (k : ℕ) × ((fd ≡ pos k) × (s ≡ record { fd = some k; bound = true; listening = true }))
IsSetUp false fd s = (is_neg fd ≡ true) × (s.fd ≡ none)

module _ (os : Os) where
  setup_ipc_socket-IsSetUp :
      (d : Daemon) (t : Trace)
      → socket_status t ≡ no_socket
      → IsSetUp
          (setup_ipc_socket os d t).0.0
          (setup_ipc_socket os d t).0.1.server_socket_fd
          (socket_status (setup_ipc_socket os d t).1)
  unfolding setup_ipc_socket socket_status socket_step
  setup_ipc_socket-IsSetUp d t h = ground arith

  before_setup :
      (d : Daemon) (t : Trace)
      → socket_status t ≡ no_socket
      → socket_status (Logind.init os d.logind t).1 ≡ no_socket
  unfolding Logind.init socket_status socket_step
  before_setup d t h = ground arith

  -- `init` succeeds exactly when it leaves the daemon with a socket that is open, bound and listening;
  -- where it fails, at whichever call, no socket is left open and the daemon holds no descriptor. No
  -- socket was open before.
  pub init-IsSetUp :
      (d : Daemon) (t : Trace)
      → socket_status t ≡ no_socket
      → IsSetUp (init os d t).0.0 (init os d t).0.1.server_socket_fd (socket_status (init os d t).1)
  unfolding init
  init-IsSetUp d t h =
      setup_ipc_socket-IsSetUp
        (record d { config = _; cached_users = _; cached_sessions = _; logind = _ }) _
        (before_setup d t h)

  -- The socket that `setup_ipc_socket` has set up, or has not, is closed after `cleanup_ipc_socket`,
  -- which leaves the daemon with no descriptor.
  pub cleanup_ipc_socket-closes :
      (b : Bool) (d : Daemon) (t : Trace)
      → IsSetUp b d.server_socket_fd (socket_status t)
      → ((socket_status (cleanup_ipc_socket os d t).1).fd ≡ none)
        × (is_neg (cleanup_ipc_socket os d t).0.server_socket_fd ≡ true)
  unfolding cleanup_ipc_socket socket_status socket_step
  cleanup_ipc_socket-closes true d t (k, (held, s)) = ground arith
  cleanup_ipc_socket-closes false d t (held, s) = ground arith

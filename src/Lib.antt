-- ===== src/Lib.antt =====
-- miqudm, a display manager for Wayland: a daemon that runs as root, shows a greeter, checks a
-- login with PAM and runs the user's session; and the greeter, which talks to the daemon over a
-- socket.
--
-- The parts, and the files that model them:
--   Config      src/common/config.hpp, config.cpp: settings, parser and writer of the file
--   Users       src/common/user_scanner.hpp: the accounts that the greeter offers
--   Sessions    src/common/session_scanner.hpp: the sessions that it offers
--   Ipc         src/common/ipc.hpp, ipc.cpp: messages as lines of JSON; Ipc/Framing has the reading
--               loops of src/daemon/daemon.cpp and src/greeter/ipc_client.cpp
--   Pam         src/daemon/pam_auth.hpp, pam_auth.cpp: `PamAuth`, a PAM transaction
--   Logind      src/daemon/logind.hpp, logind.cpp: `LogindManager`, calls on the system bus
--   Session     src/daemon/session.hpp, session.cpp: `SessionLauncher` and its child process
--   Daemon      src/daemon/daemon.hpp, daemon.cpp: `Daemon`; Daemon/Greeter has start_greeter and
--               stop_greeter, Daemon/Login handle_login_request, Daemon/Requests the other handlers
--               and process_message, Daemon/Loop run and stop; Daemon/Main is main of
--               src/daemon/main.cpp, from the options to the destructors and the exit code
--   Greeter     src/greeter/ipc_client.hpp, ipc_client.cpp: `IpcClient`, in Greeter/Client;
--               src/greeter/greeter_app.hpp, greeter_app.cpp: `GreeterApp` with its callbacks, in
--               Greeter/App, its cards with their drawing in Greeter/Card, the sizes of its grid in
--               Greeter/Layout, the widgets of the toolkit in Greeter/Widget, and the tree and the
--               window that setup_ui makes of them in Greeter/Window;
--               Greeter/Main is main of src/greeter/main.cpp, with `GreeterApp::run`
--   Os          the calls that the daemon makes of the system, of Linux-PAM and of the bus
--   Prelude     shared types and lemmas; Tests has a small world and the theorems at its values
--
-- Operations keep the names of the source. A method of the daemon's side is a function of the run
-- so far, the list of its calls with their results, to its own result and the longer run. The
-- record Os is a parameter: it gives every call a result, which may depend on the whole run. So a
-- theorem for every Os covers every failure of every call. A child process is a run of its own,
-- from its fork. Where PAM or a process stands is read off the run, not off the daemon's own flags:
-- Pam/Status for a PAM handle, Session/Identity for the ids of a process. JsonCpp is the record
-- Json, with its documented laws; the password database, directories and the file system are
-- records too.
--
-- How the parts meet: Daemon/Replies reads off a run what the daemon wrote to its clients and which
-- sessions it forked, so Greeter/Client/Exchange and Greeter/Client/Login can join a client's
-- request to the daemon's handler and back; Greeter/App/Served joins the greeter's selection to the
-- session that the daemon forks. Greeter/Window/Shown joins the greeter's init to the daemon's two
-- lists, Greeter/Window/Powers a press of a button to logind, and Greeter/Window/FirstLogin the
-- whole way from init to the fork. Daemon/Socket reads off a run where the server socket stands,
-- Daemon/Descriptors which descriptors are open, and Session/Terminate the signals that were sent
-- and the polls that found the process running. The states between the rounds of the daemon's loop
-- are the data type Rounds of Daemon/Loop/Greeted, and Daemon/Loop/Held reads off a run which greeter's
-- process the daemon has. Daemon/Replies/Reasons reads off it the call of PAM that a login failed at.
-- Pam/Move has two objects that are moved into each other. The states that the greeter reaches are
-- the data type Reach of Greeter/App/Reachable: init, and then any callbacks of the toolkit in any
-- order, each with a connection of its own. The toolkit is a parameter: whether it makes an engine
-- and a window, what it calls back, and what its loop returns. A widget is the list of the calls
-- that set it up, in order, with the place that it is given. PAM's list of variables for a session
-- is also read as a class of lists, a quotient, in Session/Environment/Variables.
--
-- Texts are lists of bytes, and integers of the system are ℤ. The decimal writer has ten digits as
-- its fuel, enough for an int; std::stoi refuses what does not fit one. Ids are cut to 32 bits
-- where the source casts them. The waits for a process poll twenty times as in the source. A
-- blocking waitpid is interrupted as often as Os says and no more. `run` has a bound on the rounds
-- of the loop, since the source's loop has no end of its own; the theorems hold for every bound, or
-- name one that is enough.
--
-- A signal is a moment of the run that Os chooses; the call `set_running` marks the assignment of
-- `run` to m_running, and a signal before it is lost, as in the source. A session or credentials of PAM
-- count as open until their release is asked for, also where that call fails: the source clears its
-- flag then and does not try again. A name that goes to PAM is cut at its first zero byte, and so is
-- the name by which PAM's transactions are told apart.
--
-- Not modelled: log output and the usage texts; memory that runs out; fcntl on the socket; a call
-- that never returns; the end of the process by SIGPIPE, at a write to a client that has closed its
-- connection, for which `write_fd` gives -1; of src/greeter/greeter_app.cpp the redraws that are asked
-- for, and how the toolkit measures and paints what it is given. What strftime leaves in its buffer is
-- a parameter.
pub mod Config
pub mod Daemon
pub mod Greeter
pub mod Ipc
pub mod Logind
pub mod Os
pub mod Pam
pub mod Prelude
pub mod Session
pub mod Sessions
pub mod Tests
pub mod Users

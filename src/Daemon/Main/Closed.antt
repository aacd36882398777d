-- ===== src/Daemon/Main/Closed.antt =====
-- The descriptors of the process of daemon/main.cpp, from its first call to its exit.
use miqudm.Prelude.{ℕ, ◌≡◌, ◌∙◌, false, not, List, [], Option, none, some, Text, arith}
use miqudm.Ipc.Library.{Json}
use miqudm.Os.{Os, Trace, if-either}
use miqudm.Session.{terminate}
use miqudm.Logind
use miqudm.Logind.{Logind}
use miqudm.Daemon.{Daemon, init, setup_ipc_socket}
use miqudm.Daemon.Greeter.{drop_pam}
use miqudm.Daemon.Loop.{run}
use miqudm.Daemon.Loop.Closed.{
  AllClosed, SameOpen-AllClosed, terminate-descriptors, Closes, run-Closes,
}
use miqudm.Daemon.Descriptors.{is_open_fd, descriptors-SameOpen, HoldsOnly}
use miqudm.Daemon.Replies.{descriptors}
use miqudm.Daemon.Replies.Silent.{drop_pam-IsSilent}
use miqudm.Daemon.Main.{
  new_daemon, Options, usage, version, serve, parse_options, ExitStatus, exits_with, aborted,
  destroy, exit_after, after_run, run_daemon, run_options, main,
}

-- No descriptor is open in a process that has exited.
abbrev pub ClosedAtExit : ExitStatus → Trace → Type 0
ClosedAtExit (exits_with c) t = AllClosed t
ClosedAtExit aborted t = Unit

module _ (os : Os) where
  -- A socket that `init` opens is the daemon's; if it fails, none is open.
  init-descriptors :
      (d : Daemon) (t : Trace)
      → AllClosed t
      → HoldsOnly (init os d t).0.1.server_socket_fd (init os d t).1
        × ((init os d t).0.0 ≡ false → AllClosed (init os d t).1)
  unfolding init setup_ipc_socket Logind.init is_open_fd
  init-descriptors d t closed = (
    record { only = λ k opened. let c = closed k in ground arith },
    λ failed k. let c = closed k in ground arith,
  )

  shutdown-descriptors :
      (l : Logind) (t : Trace) → descriptors (Logind.shutdown os l t).1 ≡ descriptors t
  unfolding Logind.shutdown descriptors
  shutdown-descriptors l t = ground arith

module _ (os : Os) (j : Json) where
  destroy-AllClosed : (d : Daemon) (t : Trace) → AllClosed t → AllClosed (destroy os j d t).1
  unfolding destroy
  destroy-AllClosed d t closed =
      let l = terminate os d.session_launcher t in
      let a = drop_pam os d.active_pam l.1 in
      let g = drop_pam os d.greeter_pam a.1 in
      SameOpen-AllClosed
        (descriptors-SameOpen t _ (
          shutdown-descriptors os d.logind g.1
          ∙ (drop_pam-IsSilent os d.greeter_pam a.1).fds
          ∙ (drop_pam-IsSilent os d.active_pam l.1).fds
          ∙ terminate-descriptors os d.session_launcher t))
        closed

  after_run-ClosedAtExit :
      (o : Option Daemon) (t : Trace)
      → Closes o t
      → ClosedAtExit (after_run os j o t).0 (after_run os j o t).1
  unfolding after_run exit_after
  after_run-ClosedAtExit none t closes = tt
  after_run-ClosedAtExit (some d) t closes = destroy-AllClosed d t closes

  run_daemon-ClosedAtExit :
      (n : ℕ) (t : Trace)
      → AllClosed t
      → ClosedAtExit (run_daemon os j n t).0 (run_daemon os j n t).1
  unfolding run_daemon exit_after
  run_daemon-ClosedAtExit n t closed =
      let ready = init os new_daemon t in
      let (held, failed) = init-descriptors os new_daemon t closed in
      if-either (λ r. ClosedAtExit r.0 r.1) (not ready.0.0) (exit_after os j 1 ready.0.1)
        (λ u. after_run os j (run os j n ready.0.1 u).0 (run os j n ready.0.1 u).1) ready.1
        (λ e. destroy-AllClosed ready.0.1 ready.1 (failed (ground arith)))
        (λ e. after_run-ClosedAtExit _ _ (run-Closes os j n ready.0.1 ready.1 held))

  run_options-ClosedAtExit :
      (n : ℕ) (o : Options) (t : Trace)
      → AllClosed t
      → ClosedAtExit (run_options os j n o t).0 (run_options os j n o t).1
  unfolding run_options
  run_options-ClosedAtExit n usage t closed = closed
  run_options-ClosedAtExit n version t closed = closed
  run_options-ClosedAtExit n (serve config_path) t closed = run_daemon-ClosedAtExit n t closed

  -- Every path through `init` and `run` closes the server socket, and each client's connection.
  pub main-ClosedAtExit :
      (n : ℕ) (args : List Text) (t : Trace)
      → AllClosed t
      → ClosedAtExit (main os j n args t).0 (main os j n args t).1
  unfolding main
  main-ClosedAtExit n args t closed = run_options-ClosedAtExit n (parse_options [] args) t closed

-- ===== src/Daemon/Main/Clean.antt =====
-- The process of daemon/main.cpp as a whole, from its first call to its exit.
use miqudm.Prelude.{
  ℕ, suc, ◌≤◌, ◌≡◌, refl, ◌∙◌, ap, true, not, List, [], Option, none, some, Text, length, arith,
}
use miqudm.Ipc.Library.{Json}
use miqudm.Os.{is_stopped, Os, Trace, if-both}
use miqudm.Pam.Status.{status, guarded, is_open}
use miqudm.Pam.{PamAuth, end_pam}
use miqudm.Pam.Turns.{IsQuiet}
use miqudm.Logind
use miqudm.Logind.{Logind}
use miqudm.Daemon.{Daemon, init, setup_ipc_socket}
use miqudm.Daemon.Greeter.{drop_pam}
use miqudm.Daemon.Loop.{run}
use miqudm.Daemon.Loop.Accounts.{terminate-IsQuiet}
use miqudm.Daemon.Loop.Released.{AllReleased, run-guarded, run-AllReleased}
use miqudm.Daemon.Loop.Ends.{IsPolite, IsOver, run-IsOver}
use miqudm.Daemon.Descriptors.{is_open_fd}
use miqudm.Daemon.Loop.Closed.{AllClosed}
use miqudm.Daemon.Main.Closed.{ClosedAtExit, main-ClosedAtExit}
use miqudm.Daemon.Main.{
  new_daemon, Options, usage, version, serve, parse_options, ExitStatus, exits_with, aborted,
  destroy, exit_after, after_run, run_daemon, run_options, main,
}

-- Nothing of PAM is open, and each session's process was forked for a user whom PAM had let in.
pub record IsClean (t : Trace) : Type 0 where
  pub released : AllReleased t
  pub safe : guarded t ≡ true

-- A process that has exited has left nothing of PAM and no descriptor open.
abbrev pub LeavesNothing : ExitStatus → Trace → Type 0
LeavesNothing (exits_with c) t = AllReleased t × AllClosed t
LeavesNothing aborted t = Unit

-- The process exits.
abbrev pub HasExited : ExitStatus → Type 0
HasExited s = (c : ℕ) × ((s ≡ exits_with c) × (c ≤ 1))

quiet-IsClean : {t t' : Trace} → IsClean t → IsQuiet t t' → IsClean t'
quiet-IsClean a q = record {
  released = λ k. ap is_open (q.frame k) ∙ a.released k;
  safe = q.safe a.safe;
}

module _ (os : Os) (j : Json) where
  end_pam-IsClean : (p : PamAuth) (t : Trace) → IsClean t → IsClean (end_pam os p t).1
  unfolding end_pam status guarded
  end_pam-IsClean p t a = record {
    released = λ k. let r = a.released k in ground arith;
    safe = let s = a.safe in ground arith;
  }

  drop_pam-IsClean : (o : Option PamAuth) (t : Trace) → IsClean t → IsClean (drop_pam os o t).1
  unfolding drop_pam
  drop_pam-IsClean none t a = a
  drop_pam-IsClean (some p) t a = end_pam-IsClean p t a

  shutdown-IsQuiet : (l : Logind) (t : Trace) → IsQuiet t (Logind.shutdown os l t).1
  unfolding Logind.shutdown status guarded
  shutdown-IsQuiet l t = ground arith

  init-IsQuiet : (d : Daemon) (t : Trace) → IsQuiet t (init os d t).1
  unfolding init setup_ipc_socket Logind.init status guarded
  init-IsQuiet d t = ground arith

  init-greeter_pam : (d : Daemon) (t : Trace) → (init os d t).0.1.greeter_pam ≡ d.greeter_pam
  unfolding init setup_ipc_socket Logind.init
  init-greeter_pam d t = ground arith

  destroy-IsClean : (d : Daemon) (t : Trace) → IsClean t → IsClean (destroy os j d t).1
  unfolding destroy
  destroy-IsClean d t a =
      quiet-IsClean
        (drop_pam-IsClean d.greeter_pam _ (
          drop_pam-IsClean d.active_pam _
            (quiet-IsClean a (terminate-IsQuiet os j d.session_launcher t))))
        (shutdown-IsQuiet d.logind _)

  -- What holds of a process that has exited, or was aborted, or runs on.
  AtExit : ExitStatus → Trace → Type 0
  AtExit (exits_with c) t = IsClean t
  AtExit aborted t = guarded t ≡ true

  after_run-AtExit :
      (o : Option Daemon) (t : Trace)
      → ((d : Daemon) → o ≡ some d → AllReleased t)
      → guarded t ≡ true
      → AtExit (after_run os j o t).0 (after_run os j o t).1
  unfolding after_run exit_after AtExit
  after_run-AtExit none t released safe = safe
  after_run-AtExit (some d) t released safe =
      destroy-IsClean d t (record { released = released d refl; safe = safe })

  run_daemon-AtExit : (n : ℕ) → AtExit (run_daemon os j n []).0 (run_daemon os j n []).1
  unfolding run_daemon exit_after AtExit status guarded
  run_daemon-AtExit n =
      let ready = init os new_daemon [] in
      let a =
        quiet-IsClean (record { released = λ k. refl; safe = refl }) (init-IsQuiet new_daemon []) in
      let fresh = init-greeter_pam new_daemon [] in
      if-both (λ r. AtExit r.0 r.1) (not ready.0.0) (exit_after os j 1 ready.0.1)
        (λ u. after_run os j (run os j n ready.0.1 u).0 (run os j n ready.0.1 u).1) ready.1
        (destroy-IsClean ready.0.1 ready.1 a)
        (after_run-AtExit _ _
          (λ d e. run-AllReleased os j n ready.0.1 d ready.1 fresh a.released a.safe e)
          (run-guarded os j n ready.0.1 ready.1 fresh a.released a.safe))

  AtExit-safe : (s : ExitStatus) (t : Trace) → AtExit s t → guarded t ≡ true
  unfolding AtExit
  AtExit-safe (exits_with c) t a = a.safe
  AtExit-safe aborted t a = a

  main-AtExit : (n : ℕ) (args : List Text) → AtExit (main os j n args []).0 (main os j n args []).1
  unfolding main run_options AtExit status guarded
  main-AtExit n args = run_options-AtExit (parse_options [] args)
    where
      run_options-AtExit :
          (o : Options) → AtExit (run_options os j n o []).0 (run_options os j n o []).1
      run_options-AtExit usage = record { released = λ k. refl; safe = refl }
      run_options-AtExit version = record { released = λ k. refl; safe = refl }
      run_options-AtExit (serve config_path) = run_daemon-AtExit n

  LeavesNothing-both :
      (s : ExitStatus) (t : Trace) → AtExit s t → ClosedAtExit s t → LeavesNothing s t
  unfolding AtExit
  LeavesNothing-both (exits_with c) t a closed = (a.released, closed)
  LeavesNothing-both aborted t a closed = tt

  -- The daemon's process, started with any arguments on any system: each session's process that it has
  -- forked was for a user whom PAM had let in; and if it exits, with whatever code, nothing of PAM is
  -- left open, and each descriptor that it opened is closed, the server socket on every path through
  -- `init` and `run`, and the connection of every client that it accepted.
  pub main-IsClean :
      (n : ℕ) (args : List Text)
      → (guarded (main os j n args []).1 ≡ true)
        × LeavesNothing (main os j n args []).0 (main os j n args []).1
  unfolding is_open_fd
  main-IsClean n args = (
    AtExit-safe _ _ (main-AtExit n args),
    LeavesNothing-both _ _ (main-AtExit n args) (main-ClosedAtExit os j n args [] (λ k. refl)),
  )

  after_run-HasExited :
      (o : Option Daemon) (t : Trace) → IsOver o → HasExited (after_run os j o t).0
  unfolding after_run exit_after
  after_run-HasExited none t over = absurd (let e = over.1 in ground arith)
  after_run-HasExited (some d) t over = (0, (refl, omega arith))

  -- The daemon's process exits, with code 0 or 1, where by the time that `n` calls have been made a
  -- signal has come since `run` set `m_running`, no line that a client sends makes JsonCpp throw, and
  -- no client is gone when its reply is written. A signal before that assignment does not count.
  pub main-HasExited :
      (n : ℕ) (args : List Text) (t : Trace)
      → IsPolite os j
      → ((u : Trace) → n ≤ length u → is_stopped os u ≡ true)
      → HasExited (main os j (suc n) args t).0
  unfolding main run_options run_daemon exit_after
  main-HasExited n args t polite stops = run_options-HasExited (parse_options [] args)
    where
      run_daemon-HasExited : HasExited (run_daemon os j (suc n) t).0
      run_daemon-HasExited =
          let ready = init os new_daemon t in
          if-both (λ r. HasExited r.0) (not ready.0.0) (exit_after os j 1 ready.0.1)
            (λ u. after_run os j (run os j (suc n) ready.0.1 u).0 (run os j (suc n) ready.0.1 u).1)
            ready.1 (1, (refl, omega arith))
            (after_run-HasExited _ _ (run-IsOver os j polite n ready.0.1 ready.1 stops))

      run_options-HasExited : (o : Options) → HasExited (run_options os j (suc n) o t).0
      run_options-HasExited usage = (0, (refl, omega arith))
      run_options-HasExited version = (0, (refl, omega arith))
      run_options-HasExited (serve config_path) = run_daemon-HasExited

-- ===== src/Daemon/Loop/Closed.antt =====
-- Which descriptors are open when `Daemon::run` of daemon/daemon.cpp has returned.
use miqudm.Prelude.{
  ℕ, zero, suc, ◌≡◌, refl, ◌∙◌, true, false, not, Option, none, some, arith, Bool-cases, inl, inr,
}
use miqudm.Ipc.Library.{Json}
use miqudm.Os.{Os, Trace, pure, call, if-both, kill_group, kill_process, usleep, set_running}
use miqudm.Session.{SessionLauncher, is_running, wait_gone, kill_session, terminate, sigterm}
use miqudm.Daemon.{Daemon, cleanup_ipc_socket}
use miqudm.Daemon.Greeter.{start_greeter, stop_greeter}
use miqudm.Daemon.Loop.{shut_down, end_of_run, run}
use miqudm.Daemon.Loop.Descriptors.{Holds, still-HoldsOnly, rounds-Holds}
use miqudm.Daemon.Descriptors.{is_open_fd, SameOpen, HoldsOnly}
use miqudm.Daemon.Descriptors.Handlers.{start_greeter-SameSocket, stop_greeter-SameSocket}
use miqudm.Daemon.Replies.{descriptors}
use miqudm.Daemon.Replies.Silent.{
  is_running-IsSilent, start_greeter-IsSilent, stop_greeter-IsSilent,
}

-- No descriptor is open.
abbrev pub AllClosed : Trace → Type 0
AllClosed t = (k : ℕ) → is_open_fd k t ≡ false

pub SameOpen-AllClosed : {t t' : Trace} → SameOpen t t' → AllClosed t → AllClosed t'
SameOpen-AllClosed same closed k = same.at k ∙ closed k

-- What holds of a run that has come to its end.
abbrev pub Closes : Option Daemon → Trace → Type 0
Closes none t = Unit
Closes (some d) t = AllClosed t

module _ (os : Os) where
  kill_session-descriptors :
      (l : SessionLauncher) (t : Trace) → descriptors (kill_session os l t).1 ≡ descriptors t
  unfolding kill_session descriptors
  kill_session-descriptors l t = refl

  wait_gone-descriptors :
      (n : ℕ) (l : SessionLauncher) (t : Trace) → descriptors (wait_gone os n l t).1 ≡ descriptors t
  unfolding wait_gone descriptors
  wait_gone-descriptors zero l t = refl
  wait_gone-descriptors (suc n) l t =
      let r = is_running os l t in
      let same = (is_running-IsSilent os l t).fds in
      if-both (λ x. descriptors x.1 ≡ descriptors t) (not r.0) (pure true)
        (λ u. wait_gone os n l (call os (usleep 100000) u).1) r.1 same
        (wait_gone-descriptors n l _ ∙ same)

  pub terminate-descriptors :
      (l : SessionLauncher) (t : Trace) → descriptors (terminate os l t).1 ≡ descriptors t
  unfolding terminate descriptors
  terminate-descriptors l t =
      let pid = l.session_pid in
      let signalled =
        (call os (kill_process pid sigterm) (call os (kill_group pid sigterm) t).1).1 in
      let waited = wait_gone os 20 l signalled in
      let w = wait_gone-descriptors 20 l signalled in
      let i = (is_running-IsSilent os l waited.1).fds in
      let k1 = kill_session-descriptors l waited.1 in
      let k2 = kill_session-descriptors l (is_running os l waited.1).1 in ground arith

  cleanup_ipc_socket-AllClosed :
      (d : Daemon) (t : Trace)
      → HoldsOnly d.server_socket_fd t
      → AllClosed (cleanup_ipc_socket os d t).1
  unfolding cleanup_ipc_socket is_open_fd
  cleanup_ipc_socket-AllClosed d t h k = elim (Bool-cases (is_open_fd k t)) [
    | inl opened ↦ let held = h.only k opened in ground arith
    | inr closed ↦ ground arith
  ]

module _ (os : Os) (j : Json) where
  shut_down-AllClosed :
      (d : Daemon) (t : Trace) → HoldsOnly d.server_socket_fd t → AllClosed (shut_down os j d t).1
  unfolding shut_down
  shut_down-AllClosed d t h =
      let s = stop_greeter os d t in
      let l = terminate os s.0.session_launcher s.1 in
      let h1 =
        still-HoldsOnly d s.0 t s.1 h (stop_greeter-SameSocket os j d t)
          (stop_greeter-IsSilent os d t).fds in
      cleanup_ipc_socket-AllClosed os (record s.0 { session_launcher = l.0 }) l.1
        (still-HoldsOnly s.0 s.0 s.1 l.1 h1 refl
          (terminate-descriptors os s.0.session_launcher s.1))

  end_of_run-Closes :
      (o : Option Daemon) (t : Trace)
      → Holds o t
      → Closes (end_of_run os j o t).0 (end_of_run os j o t).1
  unfolding end_of_run
  end_of_run-Closes none t h = tt
  end_of_run-Closes (some d) t h = shut_down-AllClosed d t h

  -- When `run` returns, the server socket and every client's descriptor are closed.
  pub run-Closes :
      (n : ℕ) (d : Daemon) (t : Trace)
      → HoldsOnly d.server_socket_fd t
      → Closes (run os j n d t).0 (run os j n d t).1
  unfolding run descriptors
  run-Closes n d t h =
      let r = record d { running = true } in
      let u = (call os set_running t).1 in
      let begun = start_greeter os r u in
      let h1 = still-HoldsOnly r r t u h refl refl in
      end_of_run-Closes _ _ (
        rounds-Holds os j n begun.0 begun.1 (
          still-HoldsOnly r begun.0 u begun.1 h1 (start_greeter-SameSocket os j r u)
            (start_greeter-IsSilent os r u).fds))

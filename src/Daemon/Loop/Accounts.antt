-- ===== src/Daemon/Loop/Accounts.antt =====
-- What is open in the daemon in the loop of `Daemon::run`, daemon/daemon.cpp.
use miqudm.Prelude.{
  ℕ, zero, suc, ◌≡◌, refl, Bool, true, false, not, ◌&&◌, Option, none, some, ℤ, arith, is_pos,
  is_neg, eq_ℤ, if◌then◌else◌,
}
use miqudm.Ipc.Library.{Json}
use miqudm.Os.{
  is_stopped, Os, Trace, M, pure, call, if-both, poll_server, accept_client, close_fd,
  waitpid_nohang, usleep, kill_group, kill_process,
}
use miqudm.Pam.Status.{status, guarded, guarded_step, pam_step}
use miqudm.Pam.Turns.{IsQuiet, IsQuiet-refl, IsQuiet-trans, event-IsQuiet}
use miqudm.Pam.Accounts.{Accounts-turn}
use miqudm.Session.{SessionLauncher, is_running, wait_gone, kill_session, terminate, sigterm}
use miqudm.Daemon.{Daemon, no_pid, cleanup_ipc_socket}
use miqudm.Daemon.Greeter.{start_greeter}
use miqudm.Daemon.Greeter.Release.{start_greeter-IsTurn}
use miqudm.Daemon.Login.Accounts.{GreeterOnly, is_running-IsQuiet}
use miqudm.Daemon.Login.{is_running_now}
use miqudm.Daemon.Requests.Accounts.{
  StillGreeterOnly, quiet-GreeterOnly, handle_client_connection-GreeterOnly,
}
use miqudm.Daemon.Loop.{
  Round, continues, breaks, crashes, check_greeter, close_behind, serve_client, accept_one,
  after_client, round, next_round, rounds,
}

abbrev RoundGreeterOnly : Round → Trace → Type 0
RoundGreeterOnly (continues d) t = GreeterOnly d t
RoundGreeterOnly (breaks d) t = GreeterOnly d t
RoundGreeterOnly crashes t = guarded t ≡ true

module _ (os : Os) (j : Json) where
  kill_session-IsQuiet : (l : SessionLauncher) (t : Trace) → IsQuiet t (kill_session os l t).1
  unfolding kill_session status guarded
  kill_session-IsQuiet l t = ground arith

  wait_gone-IsQuiet : (n : ℕ) (l : SessionLauncher) (t : Trace) → IsQuiet t (wait_gone os n l t).1
  unfolding wait_gone pam_step guarded_step
  wait_gone-IsQuiet zero l t = IsQuiet-refl t
  wait_gone-IsQuiet (suc n) l t =
      let r = is_running os l t in
      let slept = (call os (usleep 100000) r.1).1 in
      let again = (λ (u : Trace). wait_gone os n l (call os (usleep 100000) u).1) in
      if-both (λ x. IsQuiet t x.1) (not r.0) (pure true) again r.1 (is_running-IsQuiet os j l t)
        (IsQuiet-trans (is_running-IsQuiet os j l t) (
          IsQuiet-trans (event-IsQuiet (usleep 100000) _ r.1 ((λ h n ok s. refl), (λ b u. refl)))
            (wait_gone-IsQuiet n l slept)))

  check_greeter-GreeterOnly :
      (d : Daemon) (t : Trace)
      → GreeterOnly d t
      → GreeterOnly (check_greeter os j d t).0 (check_greeter os j d t).1
  unfolding check_greeter pam_step guarded_step
  check_greeter-GreeterOnly d t a =
      let busy = (if is_pos d.greeter_pid then is_running os d.session_launcher else pure true) t in
      let q =
        if-both (λ x. IsQuiet t x.1) (is_pos d.greeter_pid) (is_running os d.session_launcher)
          (pure true) t (is_running-IsQuiet os j d.session_launcher t) (IsQuiet-refl t) in
      let res = call os (waitpid_nohang d.greeter_pid) busy.1 in
      let a1 = quiet-GreeterOnly os j d a q in
      let a2 =
        quiet-GreeterOnly os j d a1
          (event-IsQuiet (waitpid_nohang d.greeter_pid) _ _ ((λ h n ok s. refl), (λ b u. refl))) in
      let slept = (call os (usleep 1000000) res.1).1 in
      let a3 =
        quiet-GreeterOnly os j d a2
          (event-IsQuiet (usleep 1000000) _ _ ((λ h n ok s. refl), (λ b u. refl))) in
      let d' = record d { greeter_pid = no_pid } in
      let restart = (λ (u : Trace). start_greeter os d' (call os (usleep 1000000) u).1) in
      let look = (λ (u : Trace).
        (let r = call os (waitpid_nohang d.greeter_pid) u in
          (if eq_ℤ r.0 d.greeter_pid then restart else pure d) r.1)) in
      if-both (λ x. GreeterOnly x.0 x.1) (is_pos d.greeter_pid && not busy.0) look (pure d) busy.1
        (if-both (λ x. GreeterOnly x.0 x.1) (eq_ℤ res.0 d.greeter_pid) restart (pure d) res.1
          (Accounts-turn a3 (start_greeter-IsTurn os d' slept a3.first)) a2)
        a1

  close_behind-GreeterOnly :
      (o : Option Daemon) (t : Trace) (fd : ℤ)
      → StillGreeterOnly o t
      → StillGreeterOnly (close_behind os j fd o t).0 (close_behind os j fd o t).1
  unfolding close_behind pam_step guarded_step
  close_behind-GreeterOnly none t fd a = a
  close_behind-GreeterOnly (some d) t fd a =
      quiet-GreeterOnly os j d a
        (event-IsQuiet (close_fd fd) _ t ((λ h n ok s. refl), (λ b u. refl)))

  serve_client-GreeterOnly :
      (d : Daemon) (fd : ℤ) (t : Trace)
      → GreeterOnly d t
      → StillGreeterOnly (serve_client os j d fd t).0 (serve_client os j d fd t).1
  unfolding serve_client
  serve_client-GreeterOnly d fd t a =
      close_behind-GreeterOnly _ _ fd (handle_client_connection-GreeterOnly os j d fd t a)

  accept_one-GreeterOnly :
      (d : Daemon) (t : Trace)
      → GreeterOnly d t
      → StillGreeterOnly (accept_one os j d t).0 (accept_one os j d t).1
  unfolding accept_one pam_step guarded_step
  accept_one-GreeterOnly d t a =
      let r = call os accept_client t in
      let a1 =
        quiet-GreeterOnly os j d a
          (event-IsQuiet accept_client r.0 t ((λ h n ok s. refl), (λ b u. refl))) in
      if-both (λ x. StillGreeterOnly x.0 x.1) (not (is_neg r.0)) (serve_client os j d r.0)
        (pure (some d)) r.1 (serve_client-GreeterOnly d r.0 r.1 a1) a1

  after_client-GreeterOnly :
      (o : Option Daemon) (t : Trace)
      → StillGreeterOnly o t
      → RoundGreeterOnly (after_client os j o t).0 (after_client os j o t).1
  unfolding after_client
  after_client-GreeterOnly none t a = a
  after_client-GreeterOnly (some d) t a = check_greeter-GreeterOnly d t a

  interrupted-GreeterOnly :
      (b : Bool) (d : Daemon) (t : Trace)
      → GreeterOnly d t
      → RoundGreeterOnly (if b then continues d else breaks d) t
  interrupted-GreeterOnly true d t a = a
  interrupted-GreeterOnly false d t a = a

  round-GreeterOnly :
      (d : Daemon) (t : Trace)
      → GreeterOnly d t
      → RoundGreeterOnly (round os j d t).0 (round os j d t).1
  unfolding round pam_step guarded_step
  round-GreeterOnly d t a =
      let r = call os poll_server t in
      let a1 =
        quiet-GreeterOnly os j d a
          (event-IsQuiet poll_server r.0 t ((λ h n ok s. refl), (λ b u. refl))) in
      let serve = (if is_pos r.0 then accept_one os j d else pure (some d)) in
      let served =
        if-both (λ x. StillGreeterOnly x.0 x.1) (is_pos r.0) (accept_one os j d) (pure (some d)) r.1
          (accept_one-GreeterOnly d r.1 a1) a1 in
      if-both (λ x. RoundGreeterOnly x.0 x.1) (is_neg r.0)
        (λ u. (if os.interrupted u then continues d else breaks d, u))
        (λ u. after_client os j (serve u).0 (serve u).1) r.1
        (interrupted-GreeterOnly (os.interrupted r.1) d r.1 a1)
        (after_client-GreeterOnly _ _ served)

  next_round-GreeterOnly :
      (again : Daemon → M (Option Daemon)) (r : Round) (t : Trace)
      → ((d : Daemon) (u : Trace) → GreeterOnly d u → StillGreeterOnly (again d u).0 (again d u).1)
      → RoundGreeterOnly r t
      → StillGreeterOnly (next_round os j again r t).0 (next_round os j again r t).1
  unfolding next_round
  next_round-GreeterOnly again (continues d) t keeps a = keeps d t a
  next_round-GreeterOnly again (breaks d) t keeps a = a
  next_round-GreeterOnly again crashes t keeps a = a

  pub rounds-GreeterOnly :
      (n : ℕ) (d : Daemon) (t : Trace)
      → GreeterOnly d t
      → StillGreeterOnly (rounds os j n d t).0 (rounds os j n d t).1
  unfolding rounds is_running_now
  rounds-GreeterOnly zero d t a = a.safe
  rounds-GreeterOnly (suc n) d t a =
      let r = round os j d t in
      if-both (λ x. StillGreeterOnly x.0 x.1) (not (d.running && not (is_stopped os t)))
        (pure (some d)) (λ u. next_round os j (rounds os j n) (round os j d u).0 (round os j d u).1)
        t a
        (next_round-GreeterOnly (rounds os j n) r.0 r.1 (rounds-GreeterOnly n)
          (round-GreeterOnly d t a))

  pub terminate-IsQuiet : (l : SessionLauncher) (t : Trace) → IsQuiet t (terminate os l t).1
  unfolding terminate status guarded
  terminate-IsQuiet l t =
      let pid = l.session_pid in
      let signalled =
        (call os (kill_process pid sigterm) (call os (kill_group pid sigterm) t).1).1 in
      let waited = wait_gone os 20 l signalled in
      let w = wait_gone-IsQuiet 20 l signalled in
      let i = is_running-IsQuiet os j l waited.1 in
      let k1 = kill_session-IsQuiet l waited.1 in
      let k2 = kill_session-IsQuiet l (is_running os l waited.1).1 in
      record {
        grows =
            let a = w.grows in
            let b = i.grows in let c = k1.grows in let e = k2.grows in ground arith;
        safe = λ g.
            let a = w.safe in let b = i.safe in let c = k1.safe in let e = k2.safe in ground arith;
        frame = λ k.
            let a = w.frame k in
            let b = i.frame k in let c = k1.frame k in let e = k2.frame k in ground arith;
      }

  pub cleanup_ipc_socket-IsQuiet :
      (d : Daemon) (t : Trace) → IsQuiet t (cleanup_ipc_socket os d t).1
  unfolding cleanup_ipc_socket status guarded
  cleanup_ipc_socket-IsQuiet d t = ground arith

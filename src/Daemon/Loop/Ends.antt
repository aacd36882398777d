-- ===== src/Daemon/Loop/Ends.antt =====
-- The loop of `Daemon::run` (daemon/daemon.cpp) comes to its end.
use miqudm.Prelude.{
  ℕ, zero, suc, ◌+◌, ◌≤◌, ◌≡◌, refl, Bool, true, false, not, ◌&&◌, [], Option, none, some, Text, ℤ,
  length, arith, is_pos, is_neg, if◌then◌else◌,
}
use miqudm.Os.{
  is_stopped, Os, Trace, M, pure, call, if-both, if-either, poll_server, accept_client, write_fd,
  waitpid_nohang, usleep, set_running,
}
use miqudm.Ipc.{IpcMessage, deserialize}
use miqudm.Ipc.Framing.{read_request}
use miqudm.Ipc.Library.{Json}
use miqudm.Session.{is_running}
use miqudm.Daemon.{Daemon, no_pid}
use miqudm.Daemon.Greeter.{start_greeter}
use miqudm.Daemon.Login.{is_running_now}
use miqudm.Daemon.Requests.{process_request, process_line, handle_client_connection}
use miqudm.Daemon.Loop.{
  Round, continues, breaks, crashes, check_greeter, close_behind, serve_client, accept_one,
  after_client, round, next_round, rounds, end_of_run, run,
}
use miqudm.Daemon.Replies.Silent.{is_running-IsSilent, start_greeter-IsSilent}
use miqudm.Daemon.Replies.Answers.{process_message-Answers}

-- The daemon goes on, and the run is at least as long as `n`.
abbrev Lives : ℕ → Option Daemon → Trace → Type 0
Lives n none t = ⊥
Lives n (some d) t = n ≤ length t

abbrev RoundLives : ℕ → Round → Trace → Type 0
RoundLives n (continues d) t = n ≤ length t
RoundLives n (breaks d) t = n ≤ length t
RoundLives n crashes t = ⊥

-- No line that a client sends makes JsonCpp throw, and no client is gone when its reply is written,
-- which would end the process with SIGPIPE.
abbrev pub IsPolite : Os → Json → Type 0
IsPolite os j =
    ((t : Trace) (line : Text)
      → read_request [] (os.received t) ≡ some line
      → (req : IpcMessage) × (deserialize j line ≡ some req))
    × ((t : Trace) (fd : ℤ) (reply : Text) → is_neg (os.ret t (write_fd fd reply)) ≡ false)

-- The loop, or `run`, gives a result.
abbrev pub IsOver : Option Daemon → Type 0
IsOver o = (d : Daemon) × (o ≡ some d)

module _ (os : Os) (j : Json) (polite : IsPolite os j) where
  process_line-Lives :
      (d : Daemon) (fd : ℤ) (line : Option Text) (t : Trace)
      → ((s : Text) → line ≡ some s → (req : IpcMessage) × (deserialize j s ≡ some req))
      → Lives (length t) (process_line os j d fd line t).0 (process_line os j d fd line t).1
  unfolding process_line process_request
  process_line-Lives d fd none t parses = omega arith
  process_line-Lives d fd (some line) t parses =
      let (req, e) = parses line refl in
      let a = process_message-Answers os j d fd req t in rw e a.grows

  handle_client_connection-Lives :
      (d : Daemon) (fd : ℤ) (t : Trace)
      → Lives
          (length t)
          (handle_client_connection os j d fd t).0
          (handle_client_connection os j d fd t).1
  unfolding handle_client_connection
  handle_client_connection-Lives d fd t = process_line-Lives d fd _ t (polite.0 t)

  close_behind-Lives :
      (fd : ℤ) (o : Option Daemon) (m n : ℕ) (t : Trace)
      → m ≤ n
      → Lives n o t
      → Lives m (close_behind os j fd o t).0 (close_behind os j fd o t).1
  unfolding close_behind
  close_behind-Lives fd none m n t h l = l
  close_behind-Lives fd (some d) m n t h l = omega arith

  accept_one-Lives :
      (d : Daemon) (t : Trace) → Lives (length t) (accept_one os j d t).0 (accept_one os j d t).1
  unfolding accept_one serve_client
  accept_one-Lives d t =
      let r = call os accept_client t in
      let served = handle_client_connection os j d r.0 r.1 in
      if-both (λ x. Lives (length t) x.0 x.1) (not (is_neg r.0)) (serve_client os j d r.0)
        (pure (some d)) r.1
        (close_behind-Lives r.0 served.0 _ _ served.1 (omega arith)
          (handle_client_connection-Lives d r.0 r.1))
        (omega arith)

  check_greeter-grows : (d : Daemon) (t : Trace) → length t ≤ length (check_greeter os j d t).1
  unfolding check_greeter
  check_greeter-grows d t =
      let busy = (if is_pos d.greeter_pid then is_running os d.session_launcher else pure true) t in
      let b =
        if-both (λ x. length t ≤ length x.1) (is_pos d.greeter_pid)
          (is_running os d.session_launcher) (pure true) t
          (is_running-IsSilent os d.session_launcher t).grows (omega arith) in
      let slept = (call os (usleep 1000000) (call os (waitpid_nohang d.greeter_pid) busy.1).1).1 in
      let s = (start_greeter-IsSilent os (record d { greeter_pid = no_pid }) slept).grows in
      ground arith

  after_client-RoundLives :
      (n : ℕ) (o : Option Daemon) (t : Trace)
      → Lives n o t
      → RoundLives n (after_client os j o t).0 (after_client os j o t).1
  unfolding after_client
  after_client-RoundLives n none t l = l
  after_client-RoundLives n (some d) t l = let g = check_greeter-grows d t in omega arith

  interrupted-RoundLives :
      (n : ℕ) (b : Bool) (d : Daemon) (t : Trace)
      → n ≤ length t
      → RoundLives n (if b then continues d else breaks d) t
  interrupted-RoundLives n true d t h = h
  interrupted-RoundLives n false d t h = h

  -- A round makes at least one call.
  round-RoundLives :
      (d : Daemon) (t : Trace) → RoundLives (suc (length t)) (round os j d t).0 (round os j d t).1
  unfolding round
  round-RoundLives d t =
      let r = call os poll_server t in
      let serve = (if is_pos r.0 then accept_one os j d else pure (some d)) in
      let served =
        if-both (λ x. Lives (suc (length t)) x.0 x.1) (is_pos r.0) (accept_one os j d)
          (pure (some d)) r.1 (accept_one-Lives d r.1) (omega arith) in
      if-both (λ x. RoundLives (suc (length t)) x.0 x.1) (is_neg r.0)
        (λ u. (if os.interrupted u then continues d else breaks d, u))
        (λ u. after_client os j (serve u).0 (serve u).1) r.1
        (interrupted-RoundLives _ (os.interrupted r.1) d r.1 (omega arith))
        (after_client-RoundLives _ _ _ served)

  next_round-IsOver :
      (again : Daemon → M (Option Daemon)) (m : ℕ) (r : Round) (t : Trace)
      → ((d : Daemon) (u : Trace) → m ≤ length u → IsOver (again d u).0)
      → RoundLives m r t
      → IsOver (next_round os j again r t).0
  unfolding next_round
  next_round-IsOver again m (continues d) t ends l = ends d t l
  next_round-IsOver again m (breaks d) t ends l = (d, refl)
  next_round-IsOver again m crashes t ends l = absurd l

  rounds-IsOver :
      (n m : ℕ) (d : Daemon) (t : Trace)
      → ((u : Trace) → n ≤ length u → is_stopped os u ≡ true)
      → n ≤ m + length t
      → IsOver (rounds os j (suc m) d t).0
  unfolding rounds is_running_now
  rounds-IsOver n zero d t stops h =
      if-either (λ x. IsOver x.0) (not (d.running && not (is_stopped os t))) (pure (some d))
        (λ u. next_round os j (rounds os j 0) (round os j d u).0 (round os j d u).1) t
        (λ e. (d, refl)) (λ e. absurd (let s = stops t (omega arith) in ground arith))
  rounds-IsOver n (suc m) d t stops h =
      if-either (λ x. IsOver x.0) (not (d.running && not (is_stopped os t))) (pure (some d))
        (λ u. next_round os j (rounds os j (suc m)) (round os j d u).0 (round os j d u).1) t
        (λ e. (d, refl))
        (λ e.
          next_round-IsOver (rounds os j (suc m)) (suc (length t)) _ _
            (λ d' u l. rounds-IsOver n m d' u stops (omega arith)) (round-RoundLives d t))

  end_of_run-IsOver : (o : Option Daemon) (t : Trace) → IsOver o → IsOver (end_of_run os j o t).0
  unfolding end_of_run
  end_of_run-IsOver none t over = absurd (let e = over.1 in ground arith)
  end_of_run-IsOver (some d) t over = (_, refl)

  -- `Daemon::run` returns, within `n` + 1 rounds, where by the time that `n` calls have been made a
  -- signal has come since `m_running` was set, no line of a client makes JsonCpp throw, and no client
  -- is gone before its reply.
  pub run-IsOver :
      (n : ℕ) (d : Daemon) (t : Trace)
      → ((u : Trace) → n ≤ length u → is_stopped os u ≡ true)
      → IsOver (run os j (suc n) d t).0
  unfolding run
  run-IsOver n d t stops =
      let begun = start_greeter os (record d { running = true }) (call os set_running t).1 in
      end_of_run-IsOver _ _ (rounds-IsOver n n begun.0 begun.1 stops (omega arith))

-- ===== src/Daemon/Loop/Descriptors.antt =====
-- The descriptors that are open in the loop of `Daemon::run`, daemon/daemon.cpp.
use miqudm.Prelude.{
  ℕ, zero, suc, ◌≡◌, refl, sym, subst, ◌∷◌, Bool, true, false, not, ◌&&◌, Option, none, some, Text,
  ℤ, is_pos, is_neg, arith, if◌then◌else◌,
}
use miqudm.Os.{
  is_stopped, Os, Trace, M, pure, call, if-both, if-either, poll_server, accept_client, close_fd,
  waitpid_nohang, usleep,
}
use miqudm.Ipc.{IpcMessage, deserialize}
use miqudm.Ipc.Library.{Json}
use miqudm.Session.{is_running}
use miqudm.Daemon.{Daemon, no_pid}
use miqudm.Daemon.Login.{is_running_now}
use miqudm.Daemon.Requests.{process_request, process_line, handle_client_connection}
use miqudm.Daemon.Loop.{
  Round, continues, breaks, crashes, check_greeter, close_behind, serve_client, accept_one,
  after_client, round, next_round, rounds,
}
use miqudm.Daemon.Replies.{descriptors}
use miqudm.Daemon.Replies.Silent.{is_running-IsSilent, start_greeter-IsSilent}
use miqudm.Daemon.Replies.Answers.{process_message-Answers}
use miqudm.Daemon.Descriptors.{is_open_fd, descriptors-SameOpen, HoldsOnly, SameOpen-HoldsOnly}
use miqudm.Daemon.Descriptors.Handlers.{
  SameSocket, start_greeter-SameSocket, process_message-SameSocket,
}

-- The daemon, if it goes on, has nothing open but its server socket.
abbrev pub Holds : Option Daemon → Trace → Type 0
Holds none t = Unit
Holds (some d) t = HoldsOnly d.server_socket_fd t

abbrev RoundHolds : Round → Trace → Type 0
RoundHolds (continues d) t = HoldsOnly d.server_socket_fd t
RoundHolds (breaks d) t = HoldsOnly d.server_socket_fd t
RoundHolds crashes t = Unit

-- A step that leaves the socket and the descriptors.
pub record IsStill (d : Daemon) (t : Trace) (o : Option Daemon) (t' : Trace) : Type 0 where
  pub fds : descriptors t' ≡ descriptors t
  pub socket : (d' : Daemon) → o ≡ some d' → SameSocket d d'

pub still-HoldsOnly :
    (d d' : Daemon) (t t' : Trace)
    → HoldsOnly d.server_socket_fd t
    → SameSocket d d'
    → descriptors t' ≡ descriptors t
    → HoldsOnly d'.server_socket_fd t'
still-HoldsOnly d d' t t' h same e =
    subst (λ fd. HoldsOnly fd t') (sym same) (SameOpen-HoldsOnly h (descriptors-SameOpen t t' e))

module _ (os : Os) (j : Json) where
  -- A client that was accepted and is closed again, whatever was done for it.
  client-Holds :
      (r : ℤ) (d : Daemon) (o : Option Daemon) (t t' : Trace)
      → HoldsOnly d.server_socket_fd t
      → IsStill d (record { call = accept_client; result = r } ∷ t) o t'
      → Holds (close_behind os j r o t').0 (close_behind os j r o t').1
  unfolding close_behind is_open_fd
  client-Holds r d none t t' h still = tt
  client-Holds r d (some d') t t' h still =
      let same = descriptors-SameOpen _ t' still.fds in
      subst (λ fd. HoldsOnly fd (call os (close_fd r) t').1) (sym (still.socket d' refl))
        (record { only = λ k opened. h.only k (let a = same.at k in ground arith) })

  process_line-IsStill :
      (d : Daemon) (fd : ℤ) (line : Option Text) (t : Trace)
      → IsStill d t (process_line os j d fd line t).0 (process_line os j d fd line t).1
  unfolding process_line process_request
  process_line-IsStill d fd none t = record { fds = refl; socket = λ d' e. ground arith }
  process_line-IsStill d fd (some line) t = request (deserialize j line)
    where
      request :
          (o : Option IpcMessage)
          → IsStill d t (process_request os j d fd o t).0 (process_request os j d fd o t).1
      request none = record { fds = refl; socket = λ d' e. ground arith }
      request (some req) = record {
        fds = (process_message-Answers os j d fd req t).fds;
        socket = λ d' e. let s = process_message-SameSocket os j d fd req t in ground arith;
      }

  accept_one-Holds :
      (d : Daemon) (t : Trace)
      → HoldsOnly d.server_socket_fd t
      → Holds (accept_one os j d t).0 (accept_one os j d t).1
  unfolding accept_one serve_client handle_client_connection is_open_fd
  accept_one-Holds d t h =
      let r = call os accept_client t in
      if-either (λ x. Holds x.0 x.1) (not (is_neg r.0)) (serve_client os j d r.0) (pure (some d))
        r.1 (λ e. client-Holds r.0 d _ t _ h (process_line-IsStill d r.0 _ r.1))
        (λ e. record { only = λ k opened. h.only k (ground arith) })

  check_greeter-IsStill :
      (d : Daemon) (t : Trace)
      → IsStill d t (some (check_greeter os j d t).0) (check_greeter os j d t).1
  unfolding check_greeter descriptors
  check_greeter-IsStill d t =
      let busy = (if is_pos d.greeter_pid then is_running os d.session_launcher else pure true) t in
      let b =
        if-both (λ x. descriptors x.1 ≡ descriptors t) (is_pos d.greeter_pid)
          (is_running os d.session_launcher) (pure true) t
          (is_running-IsSilent os d.session_launcher t).fds refl in
      let slept = (call os (usleep 1000000) (call os (waitpid_nohang d.greeter_pid) busy.1).1).1 in
      let restarted = record d { greeter_pid = no_pid } in
      let s = start_greeter-IsSilent os restarted slept in
      let same = start_greeter-SameSocket os j restarted slept in
      record { fds = ground arith; socket = λ d' e. ground arith }

  after_client-RoundHolds :
      (o : Option Daemon) (t : Trace)
      → Holds o t
      → RoundHolds (after_client os j o t).0 (after_client os j o t).1
  unfolding after_client
  after_client-RoundHolds none t h = h
  after_client-RoundHolds (some d) t h =
      let c = check_greeter-IsStill d t in
      let looked = check_greeter os j d t in
      still-HoldsOnly d looked.0 t looked.1 h (c.socket looked.0 refl) c.fds

  interrupted-RoundHolds :
      (b : Bool) (d : Daemon) (t : Trace)
      → HoldsOnly d.server_socket_fd t
      → RoundHolds (if b then continues d else breaks d) t
  interrupted-RoundHolds true d t h = h
  interrupted-RoundHolds false d t h = h

  round-RoundHolds :
      (d : Daemon) (t : Trace)
      → HoldsOnly d.server_socket_fd t
      → RoundHolds (round os j d t).0 (round os j d t).1
  unfolding round descriptors
  round-RoundHolds d t h =
      let r = call os poll_server t in
      let h1 = SameOpen-HoldsOnly h (descriptors-SameOpen t r.1 refl) in
      let serve = (if is_pos r.0 then accept_one os j d else pure (some d)) in
      let served =
        if-both (λ x. Holds x.0 x.1) (is_pos r.0) (accept_one os j d) (pure (some d)) r.1
          (accept_one-Holds d r.1 h1) h1 in
      if-both (λ x. RoundHolds x.0 x.1) (is_neg r.0)
        (λ u. (if os.interrupted u then continues d else breaks d, u))
        (λ u. after_client os j (serve u).0 (serve u).1) r.1
        (interrupted-RoundHolds (os.interrupted r.1) d r.1 h1) (after_client-RoundHolds _ _ served)

  next_round-Holds :
      (again : Daemon → M (Option Daemon)) (r : Round) (t : Trace)
      → ((d : Daemon) (u : Trace)
          → HoldsOnly d.server_socket_fd u
          → Holds (again d u).0 (again d u).1)
      → RoundHolds r t
      → Holds (next_round os j again r t).0 (next_round os j again r t).1
  unfolding next_round
  next_round-Holds again (continues d) t keeps h = keeps d t h
  next_round-Holds again (breaks d) t keeps h = h
  next_round-Holds again crashes t keeps h = h

  pub rounds-Holds :
      (n : ℕ) (d : Daemon) (t : Trace)
      → HoldsOnly d.server_socket_fd t
      → Holds (rounds os j n d t).0 (rounds os j n d t).1
  unfolding rounds is_running_now
  rounds-Holds zero d t h = tt
  rounds-Holds (suc n) d t h =
      let r = round os j d t in
      if-both (λ x. Holds x.0 x.1) (not (d.running && not (is_stopped os t))) (pure (some d))
        (λ u. next_round os j (rounds os j n) (round os j d u).0 (round os j d u).1) t h
        (next_round-Holds (rounds os j n) r.0 r.1 (rounds-Holds n) (round-RoundHolds d t h))

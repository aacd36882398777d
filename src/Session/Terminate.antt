-- ===== src/Session/Terminate.antt =====
-- How a session is ended: the signals and the waiting of `terminate`, daemon/session.cpp.
use miqudm.Prelude.{
  ℕ, zero, suc, ◌+◌, ◌*◌, ◌≤◌, ◌≡◌, ◌⊎◌, Bool, true, false, not, List, [], ◌∷◌, ℤ, is_pos, is_zero,
  length, arith, if◌then◌else◌, ◌∙◌,
}
use miqudm.Os.{
  Os, Trace, Call, call, pure, if-either, kill_group, kill_process, waitpid_nohang, usleep,
}
use miqudm.Session.{
  SessionLauncher, is_running, wait_gone, kill_session, terminate, sigterm, sigkill,
}

-- A signal, to a process group or to a process.
pub data Signal : Type 0 where
  to_group to_process : ℤ → ℕ → Signal

abbrev add_signal : Call → List Signal → List Signal
add_signal (kill_group pid sig) s = to_group pid sig ∷ s
add_signal (kill_process pid sig) s = to_process pid sig ∷ s
add_signal _ s = s

-- The signals that were sent, newest first.
unfoldable pub signals : Trace → List Signal
signals [] = []
signals (e ∷ t) = add_signal e.call (signals t)

abbrev add_poll : Call → ℤ → ℕ → ℕ
add_poll (waitpid_nohang pid) r n = if is_zero r then suc n else n
add_poll _ r n = n

-- How often a process that was asked for was found to run still.
unfoldable pub running_polls : Trace → ℕ
running_polls [] = 0
running_polls (e ∷ t) = add_poll e.call e.result (running_polls t)

-- A wait of at most `n` calls that sends no signal; if it `failed`, the process was found running
-- `m` times.
record IsWait (n m : ℕ) (failed : Bool) (t t' : Trace) : Type 0 where
  short : length t' ≤ length t + n
  quiet : signals t' ≡ signals t
  polls : failed ≡ true → running_polls t' ≡ running_polls t + m

module _ (os : Os) (l : SessionLauncher) (held : is_pos l.session_pid ≡ true) where
  is_running-IsWait : (t : Trace) → IsWait 1 1 (is_running os l t).0 t (is_running os l t).1
  unfolding is_running signals running_polls
  is_running-IsWait t = ground arith

  wait_gone-IsWait :
      (n : ℕ) (t : Trace) → IsWait (2 * n) n (not (wait_gone os n l t).0) t (wait_gone os n l t).1
  unfolding wait_gone signals running_polls
  wait_gone-IsWait zero t = ground arith
  wait_gone-IsWait (suc n) t =
      let r = is_running os l t in
      let w = is_running-IsWait t in
      let slept = (call os (usleep 100000) r.1).1 in
      let rest = wait_gone-IsWait n slept in
      if-either (λ x. IsWait (2 * suc n) (suc n) (not x.0) t x.1) (not r.0) (pure true)
        (λ u. wait_gone os n l (call os (usleep 100000) u).1) r.1
        (λ e. record {
          short = let a = w.short in omega arith;
          quiet = w.quiet;
          polls = λ f. ground arith;
        })
        (λ e. record {
          short = let a = w.short in let b = rest.short in omega arith;
          quiet = rest.quiet ∙ w.quiet;
          polls = λ f. let a = w.polls in let b = rest.polls f in ground arith;
        })

  abbrev pub terminated : List Signal → List Signal
  terminated s = to_process l.session_pid sigterm ∷ to_group l.session_pid sigterm ∷ s

  abbrev pub killed : List Signal → List Signal
  killed s = to_process l.session_pid sigkill ∷ to_group l.session_pid sigkill ∷ s

  -- `terminate` of a session that runs makes at most 46 calls. It sends SIGTERM to the session's group
  -- and process, and then SIGKILL to both, or nothing more; SIGKILL only if the session was found
  -- running 21 times. The launcher then holds no process.
  pub terminate-escalates :
      (t : Trace)
      → (length (terminate os l t).1 ≤ length t + 46)
        × (is_pos (terminate os l t).0.session_pid ≡ false)
        × ((signals (terminate os l t).1 ≡ terminated (signals t))
            ⊎ ((signals (terminate os l t).1 ≡ killed (terminated (signals t)))
                × (running_polls (terminate os l t).1 ≡ running_polls t + 21)))
  unfolding terminate kill_session signals running_polls
  terminate-escalates t =
      let pid = l.session_pid in
      let signalled =
        (call os (kill_process pid sigterm) (call os (kill_group pid sigterm) t).1).1 in
      let gone = wait_gone os 20 l signalled in
      let w = wait_gone-IsWait 20 signalled in
      let r = is_running-IsWait gone.1 in
      ground (arith, w.short, w.quiet, w.polls, r.short, r.quiet, r.polls)

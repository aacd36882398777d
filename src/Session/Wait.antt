-- ===== src/Session/Wait.antt =====
-- Waiting for the session and ending it, daemon/session.cpp.
use miqudm.Prelude.{
  ℕ, zero, suc, ◌+◌, ◌≡◌, refl, Bool, true, false, ◌∷◌, if◌then◌else◌, arith, ℤ, pos, negsuc,
  is_pos, eq_ℤ,
}
use miqudm.Os.{Os, Trace, waitpid, WaitStatus, exited, signaled, other_status}
use miqudm.Session.{SessionLauncher, wait_for_exit, wait_loop, exit_code, terminate}

-- The run with `n` interrupted calls of `waitpid` on top.
abbrev pub after_interrupts : ℕ → ℤ → Trace → Trace
after_interrupts zero pid t = t
after_interrupts (suc n) pid t =
    after_interrupts n pid (record { call = waitpid pid; result = negsuc 0 } ∷ t)

-- What a shell tells of an ended process: its exit code, or 128 and the number of the signal.
abbrev Reports : WaitStatus → ℤ → Type 0
Reports (exited n) code = code ≡ pos n
Reports (signaled n) code = code ≡ pos (128 + n)
Reports (other_status n) code = code ≡ pos n

-- The report on the process that was waited for, or -1 where there is no such child.
abbrev pub Waited : Bool → WaitStatus → ℤ → Type 0
Waited true status code = Reports status code
Waited false status code = code ≡ negsuc 0

exit_code-Reports : (status : WaitStatus) → Reports status (exit_code status)
unfolding exit_code
exit_code-Reports (exited n) = refl
exit_code-Reports (signaled n) = refl
exit_code-Reports (other_status n) = refl

waited :
    (found : Bool) (status : WaitStatus)
    → Waited found status (if found then exit_code status else negsuc 0)
waited true status = exit_code-Reports status
waited false status = refl

module _ (os : Os) where
  wait_loop-Waited :
      (n : ℕ) (pid : ℤ) (t : Trace)
      → let t' = after_interrupts n pid t in
        Waited (eq_ℤ (os.ret t' (waitpid pid)) pid) (os.wait_status t') (wait_loop os n pid t).0
  unfolding wait_loop
  wait_loop-Waited zero pid t = waited _ _
  wait_loop-Waited (suc n) pid t = wait_loop-Waited n pid _

  -- Behind any number of interruptions `wait_for_exit` gives the session's exit code, 128 and the
  -- number of the signal that killed it, or -1 where there is no such child; and the launcher is free.
  pub wait_for_exit-result :
      (l : SessionLauncher) (t : Trace)
      → is_pos l.session_pid ≡ true
      → let t' = after_interrupts (os.interrupts t) l.session_pid t in
        Waited
          (eq_ℤ (os.ret t' (waitpid l.session_pid)) l.session_pid)
          (os.wait_status t')
          (wait_for_exit os l t).0.0
        × (is_pos (wait_for_exit os l t).0.1.session_pid ≡ false)
  unfolding wait_for_exit
  wait_for_exit-result l t h = rw h (wait_loop-Waited (os.interrupts t) l.session_pid t, refl)

  -- After `terminate` the launcher holds no process.
  pub terminate-free :
      (l : SessionLauncher) (t : Trace) → is_pos (terminate os l t).0.session_pid ≡ false
  unfolding terminate
  terminate-free l t = ground arith

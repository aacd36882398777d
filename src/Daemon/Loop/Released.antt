-- ===== src/Daemon/Loop/Released.antt =====
-- What is open when `Daemon::run` of daemon/daemon.cpp returns, and what it has forked until then.
use miqudm.Prelude.{
  ℕ, ◌≡◌, ◌≢◌, refl, sym, subst, ◌∙◌, true, false, Option, none, some, inl, inr, Bool-cases,
}
use miqudm.Ipc.Library.{Json}
use miqudm.Os.{Os, Trace, call, set_running}
use miqudm.Pam.Status.{status, guarded, guarded_step, pam_step, is_open}
use miqudm.Pam.{new_pam}
use miqudm.Pam.Life.{none-ne-some}
use miqudm.Pam.Turns.{IsQuiet-IsTurn, event-IsQuiet, object}
use miqudm.Pam.Accounts.{Accounts, Accounts-turn}
use miqudm.Session.{terminate}
use miqudm.Daemon.{Daemon}
use miqudm.Daemon.Greeter.{start_greeter, stop_greeter}
use miqudm.Daemon.Greeter.Release.{start_greeter-IsTurn, stop_greeter-IsTurn}
use miqudm.Daemon.Login.Accounts.{GreeterOnly}
use miqudm.Daemon.Requests.Accounts.{StillGreeterOnly, quiet-GreeterOnly}
use miqudm.Daemon.Loop.{shut_down, end_of_run, run}
use miqudm.Daemon.Loop.Accounts.{rounds-GreeterOnly, terminate-IsQuiet, cleanup_ipc_socket-IsQuiet}

-- Nothing of PAM is open: no live handle, no session, no credentials.
abbrev pub AllReleased : Trace → Type 0
AllReleased t = (k : ℕ) → is_open (status k t) ≡ false

false-ne-true : false ≢ true
false-ne-true e = cc

module _ (os : Os) (j : Json) where
  no_open : (t : Trace) → Accounts new_pam new_pam t → AllReleased t
  no_open t a k = elim (Bool-cases (is_open (status k t))) [
    | inl left ↦ elim (a.all k left) [
      | inl held ↦ absurd (none-ne-some k held)
      | inr held ↦ absurd (none-ne-some k held)
    ]
    | inr done ↦ done
  ]

  shut_down-Accounts :
      (d : Daemon) (t : Trace) → GreeterOnly d t → Accounts new_pam new_pam (shut_down os j d t).1
  unfolding shut_down
  shut_down-Accounts d t a =
      let s = stop_greeter os d t in
      let l = terminate os s.0.session_launcher s.1 in
      let d' = record s.0 { session_launcher = l.0 } in
      let a1 = Accounts-turn a (stop_greeter-IsTurn os d t a.first) in
      let a2 =
        Accounts-turn a1
          (IsQuiet-IsTurn new_pam a1.first (terminate-IsQuiet os j s.0.session_launcher s.1)) in
      Accounts-turn a2 (IsQuiet-IsTurn new_pam a2.first (cleanup_ipc_socket-IsQuiet os j d' l.1))

  -- What is claimed of a run that has come to an end, or has not.
  AfterRun : Option Daemon → Trace → Type 0
  AfterRun none t = guarded t ≡ true
  AfterRun (some d) t = Accounts new_pam new_pam t

  end_of_run-AfterRun :
      (o : Option Daemon) (t : Trace)
      → StillGreeterOnly o t
      → AfterRun (end_of_run os j o t).0 (end_of_run os j o t).1
  unfolding end_of_run AfterRun
  end_of_run-AfterRun none t a = a
  end_of_run-AfterRun (some d) t a = shut_down-Accounts d t a

  start-Accounts : (t : Trace) → AllReleased t → guarded t ≡ true → Accounts new_pam new_pam t
  start-Accounts t none_open safe = record {
    first = (refl, refl);
    second = (refl, refl);
    apart = λ k held. absurd (none-ne-some k held);
    safe = safe;
    all = λ k left. absurd (false-ne-true (sym (none_open k) ∙ left));
  }

  run-AfterRun :
      (n : ℕ) (d : Daemon) (t : Trace)
      → d.greeter_pam ≡ none
      → AllReleased t
      → guarded t ≡ true
      → AfterRun (run os j n d t).0 (run os j n d t).1
  unfolding run pam_step guarded_step
  run-AfterRun n d t fresh none_open safe =
      let a0 =
        subst (λ o. Accounts (object o) new_pam t) (sym fresh) (start-Accounts t none_open safe) in
      let u = (call os set_running t).1 in
      let a =
        quiet-GreeterOnly os j d a0
          (event-IsQuiet set_running _ t ((λ h n ok s. refl), (λ b v. refl))) in
      let r = record d { running = true } in
      let begun = start_greeter os r u in
      let a1 = Accounts-turn a (start_greeter-IsTurn os r u a.first) in
      end_of_run-AfterRun _ _ (rounds-GreeterOnly os j n begun.0 begun.1 a1)

  AfterRun-guarded : (o : Option Daemon) (t : Trace) → AfterRun o t → guarded t ≡ true
  unfolding AfterRun
  AfterRun-guarded none t a = a
  AfterRun-guarded (some d) t a = a.safe

  AfterRun-ended :
      (o : Option Daemon) (t : Trace) (d : Daemon) → o ≡ some d → AfterRun o t → AllReleased t
  unfolding AfterRun
  AfterRun-ended none t d e a = cc
  AfterRun-ended (some d') t d e a = no_open t a

  -- The daemon forks the process of a user's session only while a PAM transaction that was started for
  -- that user's name, as a C string, is live, authenticated, with a valid account, credentials and an open session. It
  -- holds of every run from a state with nothing open and no PAM object, before which it held: whatever
  -- the clients send, whichever calls fail, and whether the run has come to its end or not.
  pub run-guarded :
      (n : ℕ) (d : Daemon) (t : Trace)
      → d.greeter_pam ≡ none
      → AllReleased t
      → guarded t ≡ true
      → guarded (run os j n d t).1 ≡ true
  run-guarded n d t fresh none_open safe =
      AfterRun-guarded _ _ (run-AfterRun n d t fresh none_open safe)

  -- When `run` returns, nothing of PAM is open: no live handle, no session and no credentials whose
  -- release was not asked for, whatever the clients asked and whichever calls failed. The run starts with nothing open and no PAM object,
  -- and no session was forked before it that PAM had not let in.
  pub run-AllReleased :
      (n : ℕ) (d d' : Daemon) (t : Trace)
      → d.greeter_pam ≡ none
      → AllReleased t
      → guarded t ≡ true
      → (run os j n d t).0 ≡ some d'
      → AllReleased (run os j n d t).1
  run-AllReleased n d d' t fresh none_open safe ended =
      AfterRun-ended _ _ d' ended (run-AfterRun n d t fresh none_open safe)

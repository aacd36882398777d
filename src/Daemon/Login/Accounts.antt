-- ===== src/Daemon/Login/Accounts.antt =====
-- What is open in the daemon after `handle_login_request` of daemon/daemon.cpp.
use miqudm.Prelude.{
  ℕ, zero, suc, ◌≡◌, refl, sym, ap, subst, ◌∙◌, true, false, List, ◌∷◌, Option, none, some, Text, ℤ,
  pos, negsuc, arith, [], c_str, Bool-cases, inl, inr, find_if, text_eq, text_eq_iff, not, ◌&&◌,
}
use miqudm.Ipc.{IpcMessage}
use miqudm.Ipc.Library.{Json}
use miqudm.Os.{is_stopped, Os, Trace, pure, if-both, waitpid}
use miqudm.Pam.Status.{status, is_granted, guarded}
use miqudm.Pam.{PamAuth, new_pam, get_environment_list}
use miqudm.Pam.Turns.{IsQuiet, IsQuiet-refl, IsQuiet-trans, IsQuiet-IsTurn, object}
use miqudm.Pam.Accounts.{
  LetIn, IsQuiet-LetIn, fork-IsQuiet, Accounts-other, Accounts-LetIn, Mirrors-live, Accounts,
  Accounts-turn, Accounts-swap,
}
use miqudm.Session.{SessionLauncher, is_running, start_session, launch, wait_loop, wait_for_exit}
use miqudm.Users.{UserInfo}
use miqudm.Sessions.{SessionInfo}
use miqudm.Daemon.{Daemon}
use miqudm.Daemon.Greeter.{release_pam, start_greeter, stop_greeter}
use miqudm.Daemon.Greeter.Release.{
  release_pam-IsTurn, stop_greeter-IsTurn, stop_greeter-same, start_greeter-IsTurn,
}
use miqudm.Daemon.Login.Balance.{grant_login-IsTurn}
use miqudm.Daemon.Login.Granted.{WhereGranted, grant_login-WhereGranted}
use miqudm.Pam.Progress.{Opened}
use miqudm.Pam.Methods.{Mirrors}
use miqudm.Daemon.Login.{
  remember_user, run_session, serve_login, continue_login, handle_login_request, find_user,
  find_session, is_running_now,
}

-- All that is open in the daemon belongs to the greeter's PAM object, whose flags are right.
abbrev pub GreeterOnly : Daemon → Trace → Type 0
GreeterOnly d t = Accounts (object d.greeter_pam) new_pam t

-- The user that is launched has the name that was asked for.
pub find_user-username :
    (name : Text) (users : List UserInfo) → (find_user name users).username ≡ name
unfolding find_user find_if
find_user-username name [] = refl
find_user-username name (u ∷ us) = elim (Bool-cases (text_eq u.username name)) [
  | inl e ↦ let same = (text_eq_iff u.username name).0 e in ground arith
  | inr e ↦ let rest = find_user-username name us in ground arith
]

module _ (os : Os) (j : Json) where
  environment-IsQuiet : (p : PamAuth) (t : Trace) → IsQuiet t (get_environment_list os p t).1
  unfolding get_environment_list status guarded
  environment-IsQuiet p t = ground arith

  pub is_running-IsQuiet : (l : SessionLauncher) (t : Trace) → IsQuiet t (is_running os l t).1
  unfolding is_running status guarded
  is_running-IsQuiet l t = ground arith

  start_session-IsQuiet :
      (l : SessionLauncher) (u : UserInfo) (s : SessionInfo) (envs : List Text) (vt : ℤ) (t : Trace)
      → LetIn u.username t
      → IsQuiet t (start_session os l u s envs vt t).1
  unfolding start_session
  start_session-IsQuiet l u s envs vt t allowed = fork-IsQuiet u s envs vt _ t allowed

  launch-IsQuiet :
      (l : SessionLauncher) (u : UserInfo) (s : SessionInfo) (envs : List Text) (vt : ℤ) (t : Trace)
      → LetIn u.username t
      → IsQuiet t (launch os l u s envs vt t).1
  unfolding launch
  launch-IsQuiet l u s envs vt t allowed =
      let r = is_running os l t in
      let q = is_running-IsQuiet l t in
      if-both (λ x. IsQuiet t x.1) r.0 (pure (false, l)) (start_session os l u s envs vt) r.1 q
        (IsQuiet-trans q
          (start_session-IsQuiet l u s envs vt r.1 (IsQuiet-LetIn u.username q allowed)))

  wait_loop-IsQuiet : (n : ℕ) (pid : ℤ) (t : Trace) → IsQuiet t (wait_loop os n pid t).1
  unfolding wait_loop status guarded
  wait_loop-IsQuiet zero pid t = ground arith
  wait_loop-IsQuiet (suc n) pid t =
      let again = wait_loop-IsQuiet n pid (record { call = waitpid pid; result = negsuc 0 } ∷ t) in
      record { grows = let g = again.grows in omega arith; safe = again.safe; frame = again.frame }

  wait_for_exit-IsQuiet : (l : SessionLauncher) (t : Trace) → IsQuiet t (wait_for_exit os l t).1
  unfolding wait_for_exit
  wait_for_exit-IsQuiet l t =
      let w = wait_loop-IsQuiet (os.interrupts t) l.session_pid t in
      record {
        grows = let g = w.grows in ground arith;
        safe = λ g. let f = w.safe in ground arith;
        frame = λ k. let f = w.frame k in ground arith;
      }

  remember_user-IsQuiet :
      (req : IpcMessage) (d : Daemon) (t : Trace) → IsQuiet t (remember_user os j req d t).1
  unfolding remember_user status guarded
  remember_user-IsQuiet req d t = ground arith

  remember_user-same :
      (req : IpcMessage) (d : Daemon) (t : Trace)
      → (remember_user os j req d t).0.greeter_pam ≡ d.greeter_pam
  unfolding remember_user
  remember_user-same req d t = ground arith

  run_session-IsQuiet :
      (d : Daemon) (req : IpcMessage) (p : PamAuth) (t : Trace)
      → LetIn req.username t
      → IsQuiet t (run_session os j d req p t).1
  unfolding run_session
  run_session-IsQuiet d req p t allowed =
      let u = find_user req.username d.cached_users in
      let s = find_session req d.cached_sessions in
      let e = get_environment_list os p t in
      let q = environment-IsQuiet p t in
      let l = launch os d.session_launcher u s e.0 d.config.general.vt e.1 in
      let named =
        subst (λ n. LetIn n e.1) (sym (find_user-username req.username d.cached_users))
          (IsQuiet-LetIn req.username q allowed) in
      IsQuiet-trans q (
        IsQuiet-trans (launch-IsQuiet d.session_launcher u s e.0 d.config.general.vt e.1 named) (
          if-both (λ r. IsQuiet l.1 r.1) l.0.0 (wait_for_exit os l.0.1) (pure (pos 0, l.0.1)) l.1
            (wait_for_exit-IsQuiet l.0.1 l.1) (IsQuiet-refl l.1)))

  run_session-same :
      (d : Daemon) (req : IpcMessage) (p : PamAuth) (t : Trace)
      → (run_session os j d req p t).0.greeter_pam ≡ d.greeter_pam
  unfolding run_session
  run_session-same d req p t = ground arith

  -- The transaction of an account has let the user in.
  Opened-is_granted :
      (username : Text) (p : PamAuth) (t : Trace)
      → Mirrors p t
      → Opened username p t
      → (h : ℕ) × ((p.handle ≡ some h) × (is_granted username (status h t) ≡ true))
  unfolding is_granted
  Opened-is_granted username p t m (h, (held, facts)) =
      let live = Mirrors-live p.handle p t h m held in
      let same = (text_eq_iff (status h t).user (c_str username)).1 facts.0 in
      (h, (held, ground arith))

  serve_login-GreeterOnly :
      (d : Daemon) (req : IpcMessage) (p : PamAuth) (t : Trace)
      → Accounts (object d.greeter_pam) p t
      → Opened req.username p t
      → GreeterOnly (serve_login os j d req p t).0 (serve_login os j d req p t).1
  unfolding serve_login is_running_now
  serve_login-GreeterOnly d req p t a opened =
      let (h, (held, granted)) = Opened-is_granted req.username p t a.second opened in
      let stopped = stop_greeter os d t in
      let turn = stop_greeter-IsTurn os d t a.first in
      let a1 = Accounts-turn a turn in
      let same = Accounts-other h a turn held in
      let remembered = remember_user os j req stopped.0 stopped.1 in
      let quiet = remember_user-IsQuiet req stopped.0 stopped.1 in
      let a2 = Accounts-turn a1 (IsQuiet-IsTurn new_pam a1.first quiet) in
      let allowed =
        Accounts-LetIn req.username h a2 held
          (ap (is_granted req.username) (quiet.frame h ∙ same) ∙ granted) in
      let active = record remembered.0 { active_pam = some p } in
      let ran = run_session os j active req p remembered.1 in
      let a3 =
        Accounts-turn a2 (
          IsQuiet-IsTurn new_pam a2.first
            (run_session-IsQuiet active req p remembered.1 allowed)) in
      let released = (release_pam os (some p) ran.1).1 in
      let a4 = Accounts-turn (Accounts-swap a3) (release_pam-IsTurn os (some p) ran.1 a3.second) in
      let done = record ran.0 { active_pam = none } in
      let gone =
        run_session-same active req p remembered.1
        ∙ remember_user-same req stopped.0 stopped.1
        ∙ (stop_greeter-same os d t).0 in
      let a5 = subst (λ o. Accounts (object o) new_pam released) (sym gone) a4 in
      if-both (λ r. GreeterOnly r.0 r.1) (done.running && not (is_stopped os released))
        (start_greeter os done) (pure done) released
        (Accounts-turn a5 (start_greeter-IsTurn os done released a5.first)) a5

  continue_login-GreeterOnly :
      (d : Daemon) (req : IpcMessage) (o : Option PamAuth) (t : Trace)
      → Accounts (object d.greeter_pam) (object o) t
      → WhereGranted req.username o t
      → GreeterOnly (continue_login os j d req o t).0 (continue_login os j d req o t).1
  unfolding continue_login
  continue_login-GreeterOnly d req none t a opened = a
  continue_login-GreeterOnly d req (some p) t a opened = serve_login-GreeterOnly d req p t a opened

  -- A login request keeps the accounts, whichever of its calls fail: if before it all that was open
  -- in PAM belonged to the greeter's object, whose flags were right, and every session that was forked
  -- had been let in, then so it is after it, with the greeter's object of then.
  pub handle_login_request-GreeterOnly :
      (d : Daemon) (fd : ℤ) (req : IpcMessage) (t : Trace)
      → GreeterOnly d t
      → GreeterOnly
          (handle_login_request os j d fd req t).0
          (handle_login_request os j d fd req t).1
  unfolding handle_login_request
  handle_login_request-GreeterOnly d fd req t a =
      let granted = grant_login-IsTurn os j d fd req t in
      continue_login-GreeterOnly d req _ _ (Accounts-swap (Accounts-turn (Accounts-swap a) granted))
        (grant_login-WhereGranted os j d fd req t)

-- ===== src/Greeter/App/Ready.antt =====
-- The invariant of `GreeterApp` (greeter/greeter_app.cpp) once `init` has returned.
use miqudm.Prelude.{
  ℕ, suc, ◌<◌, ◌≡◌, refl, ap, Bool, true, false, ◌||◌, List, [], ◌∷◌, Option, some, Text, is_empty,
  length, get_elem?-in_range, arith, leb, ◌==◌, ℤ, pos, negsuc, to_int, Bool-cases, inl, inr,
}
use miqudm.Users.{UserInfo, UserSource, scan_users}
use miqudm.Sessions.{SessionInfo, DirEntry, scan_all}
use miqudm.Sessions.Distinct.{scan_all-IsMenu}
use miqudm.Ipc.Library.{Json}
use miqudm.Greeter.Card.{cards_from, mark}
use miqudm.Greeter.Client.{Connection}
use miqudm.Greeter.App.{
  GreeterApp, new_app, Result, done, throws, out_of_bounds, select_user, select_session,
  show_answer, login_as, login_selected, attempt_login, handle_power_action, handle_key, respond,
  at_index, Action, card_clicked, session_chosen, submitted, login_clicked, sleep_clicked,
  reboot_clicked, shutdown_clicked, window_closed, key_pressed, typed, KeyPressEvent,
}
use miqudm.Greeter.App.Setup.{
  session_names, setup_ui, fill_and_show, after_load, try_ipc, load_ipc, init, or_scanned,
}

-- An `int` is an index below `n`.
abbrev pub IsIndex : ℤ → ℕ → Type 0
IsIndex (pos k) n = k < n
IsIndex (negsuc k) n = ⊥

-- Both selections are in range, the spinner shows the sessions' names, and there is a card for each
-- user, in order, of which exactly the selected user's is marked.
pub record IsReady (a : GreeterApp) : Type 0 where
  pub user_in_range : a.selected_user_idx < length a.users
  pub session_in_range : IsIndex a.selected_session_idx (length a.sessions)
  pub spinner : a.session_spinner ≡ some (session_names a.sessions)
  pub cards : a.users_grid ≡ some (cards_from 0 a.selected_user_idx a.users)

-- Clicking another card moves the mark.
mark-cards_from :
    (i old idx : ℕ) (us : List UserInfo)
    → mark (length us) i idx (cards_from i old us) ≡ cards_from i idx us
unfolding mark cards_from
mark-cards_from i old idx [] = refl
mark-cards_from i old idx (u ∷ us) =
    ap (λ cs. record { user = u; is_selected = i == idx } ∷ cs) (mark-cards_from (suc i) old idx us)

select_user-IsReady : (index : ℕ) (a : GreeterApp) → IsReady a → IsReady (select_user index a)
unfolding select_user
select_user-IsReady index a r = elim (Bool-cases (leb (length a.users) index)) [
  | inl outside ↦ rw outside r
  | inr inside ↦ rw inside (record {
    user_in_range = ground arith;
    session_in_range = r.session_in_range;
    spinner = r.spinner;
    cards = rw r.cards (ap some (mark-cards_from 0 a.selected_user_idx index a.users));
  })
]

select_session-IsReady : (index : ℤ) (a : GreeterApp) → IsReady a → IsReady (select_session index a)
unfolding select_session to_int
select_session-IsReady index a r = ground arith

-- A callback returns with `P`, or an exception leaves it; it never reads out of bounds.
abbrev pub Ensures : {A : Type 0} → (A → Type 0) → Result A → Type 0
Ensures P (done a) = P a
Ensures P throws = Unit
Ensures P out_of_bounds = ⊥

pub at_index-some :
    {A : Type 0} (xs : List A) (i : ℤ) → IsIndex i (length xs) → (x : A) × (at_index xs i ≡ some x)
at_index-some xs (pos n) h = get_elem?-in_range xs n h
at_index-some xs (negsuc n) h = absurd h

module _ (j : Json) where
  login_as-IsReady :
      (c : Connection) (u : UserInfo) (s : SessionInfo) (a : GreeterApp)
      → IsReady a
      → Ensures IsReady (login_as j c u s a)
  unfolding login_as show_answer
  login_as-IsReady c u s a r = ground arith

  attempt_login-IsReady :
      (c : Connection) (a : GreeterApp) → IsReady a → Ensures IsReady (attempt_login j c a)
  unfolding attempt_login login_selected
  attempt_login-IsReady c a r =
      let (u, at_u) = get_elem?-in_range a.users a.selected_user_idx r.user_in_range in
      let (s, at_s) = at_index-some a.sessions a.selected_session_idx r.session_in_range in
      elim (Bool-cases (is_empty a.users || is_empty a.sessions)) [
        | inl empty ↦ rw empty r
        | inr full ↦ rw (full, at_u, at_s) (login_as-IsReady c u s a r)
      ]

  handle_power_action-IsReady :
      (c : Connection) (action : Text) (a : GreeterApp)
      → IsReady a
      → Ensures IsReady (handle_power_action j c action a)
  unfolding handle_power_action
  handle_power_action-IsReady c action a r = ground arith

  handle_key-IsReady : (ev : KeyPressEvent) (a : GreeterApp) → IsReady a → IsReady (handle_key ev a)
  unfolding handle_key
  handle_key-IsReady ev a r = ground arith

  -- Whatever the user does, a ready greeter stays ready, and reads no vector out of bounds.
  pub respond-IsReady :
      (c : Connection) (act : Action) (a : GreeterApp)
      → IsReady a
      → Ensures IsReady (respond j c act a)
  unfolding respond
  respond-IsReady c (card_clicked idx) a r = select_user-IsReady idx a r
  respond-IsReady c (session_chosen idx) a r = select_session-IsReady idx a r
  respond-IsReady c submitted a r = attempt_login-IsReady c a r
  respond-IsReady c login_clicked a r = attempt_login-IsReady c a r
  respond-IsReady c sleep_clicked a r = handle_power_action-IsReady c _ a r
  respond-IsReady c reboot_clicked a r = handle_power_action-IsReady c _ a r
  respond-IsReady c shutdown_clicked a r = handle_power_action-IsReady c _ a r
  respond-IsReady c window_closed a r = ground arith
  respond-IsReady c (key_pressed ev) a r = handle_key-IsReady ev a r
  respond-IsReady c (typed s) a r = ground arith

pub scan_users-filled : (src : UserSource) → is_empty (scan_users src) ≡ false
unfolding scan_users
scan_users-filled src = ground arith

or_scanned-filled :
    {A : Type 0} (loaded : Bool) (items scanned : List A)
    → is_empty scanned ≡ false
    → is_empty (or_scanned loaded items scanned) ≡ false
or_scanned-filled loaded items scanned h = ground arith

filled-0 : {A : Type 0} (xs : List A) → is_empty xs ≡ false → 0 < length xs
filled-0 [] h = cc
filled-0 (x ∷ xs) h = omega arith

fill_and_show-IsReady :
    (src : UserSource) (dirs : Text → Option (List DirEntry)) (built loaded : Bool) (a : GreeterApp)
    → a.selected_user_idx ≡ 0
    → a.selected_session_idx ≡ pos 0
    → IsReady (fill_and_show src dirs built loaded a).1
unfolding fill_and_show setup_ui
fill_and_show-IsReady src dirs built loaded a u s = record {
  user_in_range =
      rw u (filled-0 _ (or_scanned-filled loaded a.users (scan_users src) (scan_users-filled src)));
  session_in_range =
      rw s
        (filled-0 _ (or_scanned-filled loaded a.sessions (scan_all dirs) (scan_all-IsMenu dirs).1));
  spinner = refl;
  cards = refl;
}

-- Nothing is selected but the first of each.
abbrev IsFirst : GreeterApp → Type 0
IsFirst a = (a.selected_user_idx ≡ 0) × (a.selected_session_idx ≡ pos 0)

after_load-IsReady :
    (src : UserSource) (dirs : Text → Option (List DirEntry)) (built : Bool)
    (r : Result (Bool × GreeterApp))
    → Ensures (λ b. IsFirst b.1) r
    → Ensures (λ b. IsReady b.1) (after_load src dirs built r)
unfolding after_load
after_load-IsReady src dirs built throws f = tt
after_load-IsReady src dirs built out_of_bounds f = f
after_load-IsReady src dirs built (done (loaded, a)) f =
    fill_and_show-IsReady src dirs built loaded a f.0 f.1

module _ (j : Json) where
  try_ipc-IsFirst :
      (c1 c2 : Connection) (a : GreeterApp)
      → IsFirst a
      → Ensures (λ b. IsFirst b.1) (try_ipc j c1 c2 a)
  unfolding try_ipc load_ipc
  try_ipc-IsFirst c1 c2 a f = ground arith

  -- With an engine, `init` makes a greeter that is ready, whatever the daemon answers and the scanners
  -- find, unless an exception leaves it.
  pub init-IsReady :
      (c1 c2 : Connection) (src : UserSource) (dirs : Text → Option (List DirEntry))
      (built test_mode : Bool)
      → Ensures (λ b. IsReady b.1) (init j c1 c2 src dirs built (new_app true test_mode))
  unfolding init
  init-IsReady c1 c2 src dirs built test_mode =
      after_load-IsReady src dirs built _
        (try_ipc-IsFirst c1 c2 (new_app true test_mode) (refl, refl))

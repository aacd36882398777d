-- ===== src/Greeter/App/Requests.antt =====
-- The requests of `GreeterApp` (greeter/greeter_app.cpp) to the daemon.
use miqudm.Prelude.{
  ℕ, ◌≡◌, refl, Bool, true, false, ◌||◌, List, [], ◌∷◌, Option, none, some, Text, codes, is_empty,
  get_elem?, get_elem?-in_range, arith, if◌then◌else◌, ℤ, pos, negsuc, Bool-cases, inl, inr,
}
use miqudm.Users.{UserInfo}
use miqudm.Sessions.{SessionInfo}
use miqudm.Ipc.{IpcMessage}
use miqudm.Ipc.Library.{Json}
use miqudm.Greeter.Client.{Connection, login_request, power_request}
use miqudm.Greeter.App.{
  GreeterApp, select_user, select_session, show_answer, login_as, login_selected, attempt_login,
  handle_power_action, handle_key, respond, at_index, or_empty, Action, card_clicked,
  session_chosen, submitted, login_clicked, sleep_clicked, reboot_clicked, shutdown_clicked,
  window_closed, key_pressed, typed, KeyPressEvent,
}
use miqudm.Greeter.App.Ready.{Ensures, IsReady, at_index-some}

-- The request for a user, a session and what the password field holds, where both are found.
abbrev pub login_of : Option UserInfo → Option SessionInfo → Option Text → Option IpcMessage
login_of (some user) (some session) password =
    some (login_request user.username (or_empty password) session.exec session.id)
login_of (some user) none password = none
login_of none session password = none

-- The request for the selected user and session.
abbrev pub chosen_login : GreeterApp → Option IpcMessage
chosen_login a =
    login_of (get_elem? a.users a.selected_user_idx) (at_index a.sessions a.selected_session_idx)
      a.password_input

-- The request that an action stands for.
abbrev pub request_of : Action → GreeterApp → Option IpcMessage
request_of submitted a = chosen_login a
request_of login_clicked a = chosen_login a
request_of sleep_clicked a = some (power_request (codes "suspend"))
request_of reboot_clicked a = some (power_request (codes "reboot"))
request_of shutdown_clicked a = some (power_request (codes "poweroff"))
request_of _ a = none

abbrev pub add_request : Option IpcMessage → List IpcMessage → List IpcMessage
add_request none sent = sent
add_request (some req) sent = req ∷ sent

abbrev pub is_some : {A : Type 0} → Option A → Bool
is_some none = false
is_some (some x) = true

-- What the callbacks use: the engine, the window, the password field and the label are there.
pub record HasForm (a : GreeterApp) : Type 0 where
  pub engine : a.has_engine ≡ true
  pub window : a.has_window ≡ true
  pub input : is_some a.password_input ≡ true
  pub label : is_some a.status_label ≡ true

-- The lists, the mode and the form stay, and the sent requests are `a`'s and, unless in test mode,
-- `req`.
pub record IsAsked (a : GreeterApp) (req : Option IpcMessage) (b : GreeterApp) : Type 0 where
  pub users : b.users ≡ a.users
  pub sessions : b.sessions ≡ a.sessions
  pub mode : b.test_mode ≡ a.test_mode
  pub form : HasForm a → HasForm b
  pub sent : b.sent ≡ (if a.test_mode then a.sent else add_request req a.sent)

select_user-IsAsked : (index : ℕ) (a : GreeterApp) → IsAsked a none (select_user index a)
unfolding select_user
select_user-IsAsked index a = ground arith

select_session-IsAsked : (index : ℤ) (a : GreeterApp) → IsAsked a none (select_session index a)
unfolding select_session
select_session-IsAsked index a = ground arith

handle_key-IsAsked : (ev : KeyPressEvent) (a : GreeterApp) → IsAsked a none (handle_key ev a)
unfolding handle_key
handle_key-IsAsked ev a = ground arith

get_elem?-empty : {A : Type 0} (xs : List A) (i : ℕ) → is_empty xs ≡ true → get_elem? xs i ≡ none
get_elem?-empty [] i h = refl
get_elem?-empty (x ∷ xs) i h = cc

at_index-empty : {A : Type 0} (xs : List A) (i : ℤ) → is_empty xs ≡ true → at_index xs i ≡ none
at_index-empty xs (pos i) h = get_elem?-empty xs i h
at_index-empty xs (negsuc i) h = refl

-- Without users or without sessions there is no login to ask for.
login_of-empty :
    (us : List UserInfo) (ss : List SessionInfo) (i : ℕ) (k : ℤ) (password : Option Text)
    → (is_empty us || is_empty ss) ≡ true
    → login_of (get_elem? us i) (at_index ss k) password ≡ none
login_of-empty [] ss i k password h = refl
login_of-empty (u ∷ us) ss i k password h = rw (at_index-empty ss k h) (ground arith)

module _ (j : Json) where
  login_as-IsAsked :
      (c : Connection) (u : UserInfo) (s : SessionInfo) (a : GreeterApp)
      → Ensures (IsAsked a (login_of (some u) (some s) a.password_input)) (login_as j c u s a)
  unfolding login_as show_answer
  login_as-IsAsked c u s a = ground arith

  attempt_login-IsAsked :
      (c : Connection) (a : GreeterApp)
      → IsReady a
      → Ensures (IsAsked a (chosen_login a)) (attempt_login j c a)
  unfolding attempt_login login_selected
  attempt_login-IsAsked c a r =
      let (u, at_u) = get_elem?-in_range a.users a.selected_user_idx r.user_in_range in
      let (s, at_s) = at_index-some a.sessions a.selected_session_idx r.session_in_range in
      elim (Bool-cases (is_empty a.users || is_empty a.sessions)) [
        | inl empty ↦
            rw
              (
                empty,
                login_of-empty a.users a.sessions a.selected_user_idx a.selected_session_idx
                    a.password_input empty,
              )
              (ground arith)
        | inr full ↦ rw (full, at_u, at_s) (login_as-IsAsked c u s a)
      ]

  handle_power_action-IsAsked :
      (c : Connection) (action : Text) (a : GreeterApp)
      → Ensures (IsAsked a (some (power_request action))) (handle_power_action j c action a)
  unfolding handle_power_action
  handle_power_action-IsAsked c action a = ground arith

  -- In a ready greeter, any action of the user sends no request in test mode, and else only the one
  -- it stands for: a login names the selected user and session and what the password field holds. The
  -- users, the sessions, the mode and the form stay.
  pub respond-IsAsked :
      (c : Connection) (act : Action) (a : GreeterApp)
      → IsReady a
      → Ensures (IsAsked a (request_of act a)) (respond j c act a)
  unfolding respond
  respond-IsAsked c (card_clicked idx) a r = select_user-IsAsked idx a
  respond-IsAsked c (session_chosen idx) a r = select_session-IsAsked idx a
  respond-IsAsked c submitted a r = attempt_login-IsAsked c a r
  respond-IsAsked c login_clicked a r = attempt_login-IsAsked c a r
  respond-IsAsked c sleep_clicked a r = handle_power_action-IsAsked c _ a
  respond-IsAsked c reboot_clicked a r = handle_power_action-IsAsked c _ a
  respond-IsAsked c shutdown_clicked a r = handle_power_action-IsAsked c _ a
  respond-IsAsked c window_closed a r = ground arith
  respond-IsAsked c (key_pressed ev) a r = handle_key-IsAsked ev a
  respond-IsAsked c (typed s) a r = ground arith

-- ===== src/Greeter/App/Choice.antt =====
-- A user's way through the form of `GreeterApp` (greeter/greeter_app.cpp): a card, a session, the
-- password, Enter.
use miqudm.Prelude.{
  ℕ, zero, suc, ◌<◌, ◌≡◌, refl, true, false, List, [], ◌∷◌, Option, none, some, Text, codes,
  is_empty, get_elem?, length, arith, ℤ, pos, negsuc, leb, leb_ℤ, to_int, if◌then◌else◌, subst,
}
use miqudm.Users.{UserInfo}
use miqudm.Sessions.{SessionInfo}
use miqudm.Ipc.{IpcMessage}
use miqudm.Ipc.Library.{Json}
use miqudm.Greeter.Client.{Connection, returns, client_login, login_request}
use miqudm.Greeter.App.{
  GreeterApp, and_then, Result, done, throws, out_of_bounds, respond, Action, card_clicked,
  session_chosen, submitted, typed, select_user, select_session, attempt_login, login_selected,
  login_as, show_answer, at_index, set_text,
}
use miqudm.Greeter.App.Requests.{HasForm}
use miqudm.Greeter.App.Reachable.{Reach, Reach-IsKept}

-- Actions one after the other, with one connection.
abbrev pub respond_all : Json → Connection → List Action → GreeterApp → Result GreeterApp
respond_all j c [] a = done a
respond_all j c (act ∷ acts) a = and_then (respond j c act a) (respond_all j c acts)

abbrev pub way : ℕ → ℕ → Text → List Action
way i k password = card_clicked i ∷ session_chosen (pos k) ∷ typed password ∷ submitted ∷ []

-- What the user sees: the greeter quits, or it asks for the password again with the error.
abbrev pub IsAnswered : Option Text → GreeterApp → Type 0
IsAnswered none b = (b.quit ≡ true) × (b.closed ≡ true)
IsAnswered (some e) b =
    (b.password_input ≡ some [])
    × (b.status_label ≡ some (if is_empty e then codes "Authentication failed" else e))

get_elem?-length :
    {A : Type 0} (xs : List A) (i : ℕ) (x : A) → get_elem? xs i ≡ some x → i < length xs
get_elem?-length [] i x h = ground arith
get_elem?-length (y ∷ xs) zero x h = omega arith
get_elem?-length (y ∷ xs) (suc i) x h = omega (arith, get_elem?-length xs i x h)

get_elem?-filled :
    {A : Type 0} (xs : List A) (i : ℕ) (x : A) → get_elem? xs i ≡ some x → is_empty xs ≡ false
get_elem?-filled [] i x h = ground arith
get_elem?-filled (y ∷ xs) i x h = refl

at_index-filled :
    {A : Type 0} (xs : List A) (i : ℤ) (x : A) → at_index xs i ≡ some x → is_empty xs ≡ false
at_index-filled xs (pos i) x h = get_elem?-filled xs i x h
at_index-filled xs (negsuc i) x h = ground arith

leb-above : (i n : ℕ) → i < n → leb n i ≡ false
leb-above i n h = ground arith

outside-false : (k n : ℕ) → k < n → n < 2147483648 → leb_ℤ (to_int n) (pos k) ≡ false
unfolding to_int
outside-false k n h b = ground arith

-- The request that was sent, on top of those before, and what follows from the answer.
abbrev pub HasAsked :
    List IpcMessage → UserInfo → SessionInfo → Text → Option Text → GreeterApp → Type 0
HasAsked sent u s password answer b =
    (b.sent ≡ login_request u.username password s.exec s.id ∷ sent) × IsAnswered answer b

-- The callbacks return, with `P`.
abbrev pub Returns : {A : Type 0} → (A → Type 0) → Result A → Type 0
Returns P (done a) = P a
Returns P throws = ⊥
Returns P out_of_bounds = ⊥

and_then-Returns :
    {A : Type 0} (P : A → Type 0) (r : Result A) → Returns P r → Returns P (and_then r done)
and_then-Returns P (done a) h = h
and_then-Returns P throws h = h
and_then-Returns P out_of_bounds h = h

module _ (j : Json) (c : Connection) where
  login_as-HasAsked :
      (u : UserInfo) (s : SessionInfo) (password : Text) (a : GreeterApp) (answer : Option Text)
      → a.test_mode ≡ false
      → a.password_input ≡ some password
      → client_login j c u.username password s.exec s.id ≡ returns answer
      → HasForm a
      → Returns (HasAsked (a.sent) u s password answer) (login_as j c u s a)
  unfolding login_as show_answer
  login_as-HasAsked u s password a none mode pw h form = rw (mode, pw, h) (ground arith)
  login_as-HasAsked u s password a (some e) mode pw h form = rw (mode, pw, h) (ground arith)

-- The state in which Enter is pressed.
abbrev filled : ℕ → ℕ → Text → GreeterApp → GreeterApp
filled i k password a =
    let b = select_session (pos k) (select_user i a) in
    record b { password_input = set_text password b.password_input }

record IsFilled (i k : ℕ) (password : Text) (a b : GreeterApp) : Type 0 where
  form : HasForm b
  users : b.users ≡ a.users
  sessions : b.sessions ≡ a.sessions
  mode : b.test_mode ≡ a.test_mode
  sent : b.sent ≡ a.sent
  user_idx : b.selected_user_idx ≡ i
  session_idx : b.selected_session_idx ≡ pos k
  input : b.password_input ≡ some password

filled-IsFilled :
    (i k : ℕ) (password : Text) (a : GreeterApp)
    → HasForm a
    → i < length a.users
    → k < length a.sessions
    → length a.sessions < 2147483648
    → IsFilled i k password a (filled i k password a)
unfolding select_user select_session
filled-IsFilled i k password a f h g b = rw (leb-above i _ h, outside-false k _ g b) (ground arith)

module _ (j : Json) (c : Connection) where
  attempt_login-HasAsked :
      (a : GreeterApp) (u : UserInfo) (s : SessionInfo) (password : Text) (answer : Option Text)
      → get_elem? a.users a.selected_user_idx ≡ some u
      → at_index a.sessions a.selected_session_idx ≡ some s
      → a.test_mode ≡ false
      → a.password_input ≡ some password
      → client_login j c u.username password s.exec s.id ≡ returns answer
      → HasForm a
      → Returns (HasAsked (a.sent) u s password answer) (attempt_login j c a)
  unfolding attempt_login login_selected
  attempt_login-HasAsked a u s password answer at_u at_s mode pw h form =
      rw (get_elem?-filled a.users _ u at_u, at_index-filled a.sessions _ s at_s)
        (rw (at_u, at_s) (login_as-HasAsked j c u s password a answer mode pw h form))

  way-HasAsked :
      (a : GreeterApp) (i k : ℕ) (u : UserInfo) (s : SessionInfo) (password : Text)
      (answer : Option Text)
      → HasForm a
      → a.test_mode ≡ false
      → get_elem? a.users i ≡ some u
      → get_elem? a.sessions k ≡ some s
      → length a.sessions < 2147483648
      → client_login j c u.username password s.exec s.id ≡ returns answer
      → Returns (HasAsked (a.sent) u s password answer) (respond_all j c (way i k password) a)
  unfolding respond
  way-HasAsked a i k u s password answer form mode at_u at_s few h =
      let f =
        filled-IsFilled i k password a form (get_elem?-length _ i u at_u)
          (get_elem?-length _ k s at_s) few in
      let r =
        attempt_login-HasAsked (filled i k password a) u s password answer
          (rw (f.users, f.user_idx) at_u) (rw (f.sessions, f.session_idx) at_s) (rw f.mode mode)
          f.input h f.form in
      and_then-Returns (HasAsked (a.sent) u s password answer)
        (attempt_login j c (filled i k password a))
        (subst
          (λ sent.
            Returns (HasAsked sent u s password answer) (attempt_login j c (filled i k password a)))
          f.sent r)

  -- In every state that a greeter reaches outside test mode, with fewer than 2^31 sessions: where the
  -- client returns, choosing a card, choosing a session, typing and pressing Enter sends the login of
  -- that user into that session with what was typed, and no other request; on success the window is
  -- closed and the engine told to quit, else the error is shown and the password field cleared.
  pub respond_all-HasAsked :
      (a : GreeterApp) (i k : ℕ) (u : UserInfo) (s : SessionInfo) (password : Text)
      (answer : Option Text)
      → Reach j false a
      → get_elem? a.users i ≡ some u
      → get_elem? a.sessions k ≡ some s
      → length a.sessions < 2147483648
      → client_login j c u.username password s.exec s.id ≡ returns answer
      → Returns (HasAsked (a.sent) u s password answer) (respond_all j c (way i k password) a)
  respond_all-HasAsked a i k u s password answer reached at_u at_s few h =
      let kept = Reach-IsKept j false a reached in
      way-HasAsked a i k u s password answer kept.form kept.mode at_u at_s few h

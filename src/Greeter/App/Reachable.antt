-- ===== src/Greeter/App/Reachable.antt =====
-- The states that a running `GreeterApp` (greeter/greeter_app.cpp) can be in.
use mathlib.Core.List.{Mem, mem-cons_self, mem-cons_of_mem}
use miqudm.Prelude.{
  ℕ, zero, suc, ◌≡◌, ◌⊎◌, inl, inr, refl, Bool, true, false, List, [], ◌∷◌, Option, none, some,
  Text, codes, get_elem?, subst, All, arith, ℤ, pos, negsuc,
}
use miqudm.Users.{UserInfo, UserSource}
use miqudm.Sessions.{SessionInfo, DirEntry}
use miqudm.Ipc.{IpcMessage}
use miqudm.Ipc.Library.{Json}
use miqudm.Greeter.Client.{Connection, login_request, power_request}
use miqudm.Greeter.App.{
  GreeterApp, new_app, done, respond, at_index, Action, card_clicked, session_chosen, submitted,
  login_clicked, sleep_clicked, reboot_clicked, shutdown_clicked, window_closed, key_pressed, typed,
  or_empty,
}
use miqudm.Greeter.App.Setup.{init, setup_ui, fill_and_show, after_load, try_ipc, load_ipc}
use miqudm.Greeter.App.Ready.{Ensures, IsReady, respond-IsReady, init-IsReady}
use miqudm.Greeter.App.Requests.{
  HasForm, IsAsked, request_of, add_request, login_of, respond-IsAsked,
}

-- `init` of a new greeter succeeds, and then the toolkit calls it back; each call of the client has a
-- connection of its own.
pub data Reach (j : Json) (test_mode : Bool) : GreeterApp → Type 0 where
  begins :
      (c1 c2 : Connection) (src : UserSource) (dirs : Text → Option (List DirEntry)) (built : Bool)
      (a : GreeterApp)
      → init j c1 c2 src dirs built (new_app true test_mode) ≡ done (true, a)
      → Reach j test_mode a
  acts :
      (c : Connection) (act : Action) (a b : GreeterApp)
      → Reach j test_mode a
      → respond j c act a ≡ done b
      → Reach j test_mode b

-- A login of a listed user into a listed session.
abbrev IsListedLogin : List UserInfo → List SessionInfo → IpcMessage → Type 0
IsListedLogin users sessions m =
    (u : UserInfo) × (s : SessionInfo) × (password : Text) × (Mem u users
      × (Mem s sessions × (m ≡ login_request u.username password s.exec s.id)))

-- A request of one of the three buttons.
abbrev IsPower : IpcMessage → Type 0
IsPower m =
    (m ≡ power_request (codes "suspend"))
    ⊎ ((m ≡ power_request (codes "reboot")) ⊎ (m ≡ power_request (codes "poweroff")))

abbrev pub IsListed : List UserInfo → List SessionInfo → IpcMessage → Type 0
IsListed users sessions m = IsListedLogin users sessions m ⊎ IsPower m

-- The greeter is ready, its form is there, each request that it sent is a login of a listed user into
-- a listed session or of one of the three buttons, and in test mode it sent none.
pub record IsKept (test_mode : Bool) (a : GreeterApp) : Type 0 where
  pub ready : IsReady a
  pub form : HasForm a
  pub mode : a.test_mode ≡ test_mode
  pub requests : All (IsListed a.users a.sessions) a.sent
  pub quiet : test_mode ≡ true → a.sent ≡ []

get_elem?-mem : {A : Type 0} (xs : List A) (i : ℕ) (x : A) → get_elem? xs i ≡ some x → Mem x xs
get_elem?-mem [] i x h = ground arith
get_elem?-mem (y ∷ xs) zero x h = subst (λ z. Mem x (z ∷ xs)) (ground arith) mem-cons_self
get_elem?-mem (y ∷ xs) (suc i) x h = mem-cons_of_mem y (get_elem?-mem xs i x h)

at_index-mem : {A : Type 0} (xs : List A) (i : ℤ) (x : A) → at_index xs i ≡ some x → Mem x xs
at_index-mem xs (pos i) x h = get_elem?-mem xs i x h
at_index-mem xs (negsuc i) x h = ground arith

-- Whatever an action stands for is listed.
abbrev IsListedRequest : GreeterApp → Option IpcMessage → Type 0
IsListedRequest a none = Unit
IsListedRequest a (some m) = IsListed a.users a.sessions m

login_of-IsListed :
    (a : GreeterApp) (u : Option UserInfo) (s : Option SessionInfo)
    → get_elem? a.users a.selected_user_idx ≡ u
    → at_index a.sessions a.selected_session_idx ≡ s
    → IsListedRequest a (login_of u s a.password_input)
login_of-IsListed a (some u) (some s) at_u at_s =
    inl
      (u, s, or_empty a.password_input, (get_elem?-mem _ _ u at_u, (at_index-mem _ _ s at_s, refl)))
login_of-IsListed a (some u) none at_u at_s = tt
login_of-IsListed a none s at_u at_s = tt

request_of-IsListed : (act : Action) (a : GreeterApp) → IsListedRequest a (request_of act a)
request_of-IsListed submitted a = login_of-IsListed a _ _ refl refl
request_of-IsListed login_clicked a = login_of-IsListed a _ _ refl refl
request_of-IsListed sleep_clicked a = inr (inl refl)
request_of-IsListed reboot_clicked a = inr (inr (inl refl))
request_of-IsListed shutdown_clicked a = inr (inr (inr refl))
request_of-IsListed (card_clicked idx) a = tt
request_of-IsListed (session_chosen idx) a = tt
request_of-IsListed window_closed a = tt
request_of-IsListed (key_pressed ev) a = tt
request_of-IsListed (typed s) a = tt

add_request-IsListed :
    (a : GreeterApp) (req : Option IpcMessage)
    → IsListedRequest a req
    → All (IsListed a.users a.sessions) a.sent
    → All (IsListed a.users a.sessions) (add_request req a.sent)
add_request-IsListed a none h k = k
add_request-IsListed a (some m) h k = (h, k)

IsAsked-IsKept :
    (test_mode : Bool) (a b : GreeterApp) (req : Option IpcMessage)
    → IsListedRequest a req
    → IsKept test_mode a
    → IsAsked a req b
    → IsReady b
    → IsKept test_mode b
IsAsked-IsKept true a b req h k q r = record {
  ready = r;
  form = q.form k.form;
  mode = rw q.mode k.mode;
  requests = rw (q.users, q.sessions, q.sent, k.mode) k.requests;
  quiet = λ t. rw (q.sent, k.mode) (k.quiet refl);
}
IsAsked-IsKept false a b req h k q r = record {
  ready = r;
  form = q.form k.form;
  mode = rw q.mode k.mode;
  requests = rw (q.users, q.sessions, q.sent, k.mode) (add_request-IsListed a req h k.requests);
  quiet = λ t. ground arith;
}

module _ (j : Json) (test_mode : Bool) where
  -- What `init` gives has sent nothing.
  abbrev pub IsFresh : Bool × GreeterApp → Type 0
  IsFresh b = (b.0 ≡ true → HasForm b.1) × ((b.1.test_mode ≡ test_mode) × (b.1.sent ≡ []))

  pub init-IsFresh :
      (c1 c2 : Connection) (src : UserSource) (dirs : Text → Option (List DirEntry)) (built : Bool)
      → Ensures IsFresh (init j c1 c2 src dirs built (new_app true test_mode))
  unfolding init after_load try_ipc load_ipc fill_and_show setup_ui
  init-IsFresh c1 c2 src dirs built = ground arith

  -- In every state that a greeter reaches, its form is there, the spinner shows the sessions' names, the
  -- selections are in range, exactly the selected user's card is marked, each request that it sent is
  -- a login of a listed user into a listed session or a power action of one of the three buttons, and
  -- in test mode it sent none.
  pub Reach-IsKept : (a : GreeterApp) → Reach j test_mode a → IsKept test_mode a
  Reach-IsKept a (begins c1 c2 src dirs built a0 h) =
      let ready =
        subst (Ensures (λ b. IsReady b.1)) h (init-IsReady j c1 c2 src dirs built test_mode) in
      let fresh = subst (Ensures IsFresh) h (init-IsFresh c1 c2 src dirs built) in
      record {
        ready = ready;
        form = fresh.0 refl;
        mode = fresh.1.0;
        requests = rw fresh.1.1 tt;
        quiet = λ t. fresh.1.1;
      }
  Reach-IsKept b (acts c act a b0 reached h) =
      let k = Reach-IsKept a reached in
      IsAsked-IsKept test_mode a b (request_of act a) (request_of-IsListed act a) k
        (subst (Ensures (IsAsked a (request_of act a))) h (respond-IsAsked j c act a k.ready))
        (subst (Ensures IsReady) h (respond-IsReady j c act a k.ready))

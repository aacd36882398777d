-- ===== src/Greeter/Main/Safe.antt =====
-- The greeter's process, greeter/main.cpp, from its options to its exit code.
use miqudm.Prelude.{
  ℕ, ◌≡◌, refl, subst, Bool, true, false, not, ◌||◌, List, [], ◌∷◌, none, some, Text, codes,
  text_eq, All, if◌then◌else◌, arith,
}
use miqudm.Ipc.{IpcMessage}
use miqudm.Ipc.Library.{Json}
use miqudm.Greeter.Client.{Connection}
use miqudm.Greeter.App.{
  GreeterApp, and_then, new_app, Result, done, throws, out_of_bounds, Action, respond,
}
use miqudm.Greeter.App.Setup.{init}
use miqudm.Greeter.App.Ready.{Ensures, IsReady, respond-IsReady}
use miqudm.Greeter.App.Reachable.{
  Reach, begins, acts, Reach-IsKept, IsListed, IsFresh, init-IsFresh,
}
use miqudm.Greeter.Main.{
  Surroundings, Options, usage, show, parse_options, Exit, enter_loop, run, after_init, run_greeter,
  run_options, main,
}

-- Whether an argument asks for the test mode.
abbrev pub asks_test : List Text → Bool
asks_test [] = false
asks_test (arg ∷ args) = text_eq arg (codes "-t") || text_eq arg (codes "--test") || asks_test args

parse_options-show :
    (b m : Bool) (args : List Text) → parse_options b args ≡ show m → m ≡ (b || asks_test args)
unfolding parse_options
parse_options-show b m [] h = ground arith
parse_options-show b m (arg ∷ args) h =
    let rest =
      parse_options-show (b || text_eq arg (codes "-t") || text_eq arg (codes "--test")) m args in
    ground arith

-- What the process has sent to the daemon.
abbrev pub sent_by : Exit → List IpcMessage
sent_by (code, none) = []
sent_by (code, some a) = a.sent

-- Each request is listed among the users and sessions of the state.
abbrev pub AreListed : Exit → Type 0
AreListed (code, none) = Unit
AreListed (code, some a) = All (IsListed a.users a.sessions) a.sent

-- What is claimed of the process: with an end, its requests are listed, and in test mode there are none.
abbrev pub IsSafe : Bool → Exit → Type 0
IsSafe test_mode e = AreListed e × (test_mode ≡ true → sent_by e ≡ [])

if-Ensures :
    {A : Type 0} (P : A → Type 0) (b : Bool) (x y : Result A)
    → Ensures P x
    → Ensures P y
    → Ensures P (if b then x else y)
if-Ensures P true x y h k = h
if-Ensures P false x y h k = k

and_then-Ensures :
    {A B : Type 0} (P : A → Type 0) (Q : B → Type 0) (r : Result A) (f : A → Result B)
    → Ensures P r
    → ((a : A) → r ≡ done a → P a → Ensures Q (f a))
    → Ensures Q (and_then r f)
and_then-Ensures P Q (done a) f h next = next a refl h
and_then-Ensures P Q throws f h next = tt
and_then-Ensures P Q out_of_bounds f h next = h

module _ (j : Json) (s : Surroundings) (test_mode : Bool) where
  enter_loop-Reach :
      (calls : List (Connection × Action)) (a : GreeterApp)
      → Reach j test_mode a
      → Ensures (Reach j test_mode) (enter_loop j s calls a)
  unfolding enter_loop
  enter_loop-Reach [] a r = r
  enter_loop-Reach ((c, act) ∷ rest) a r =
      and_then-Ensures IsReady (Reach j test_mode) (respond j c act a) (enter_loop j s rest)
        (respond-IsReady j c act a (Reach-IsKept j test_mode a r).ready)
        (λ b h ready. enter_loop-Reach rest b (acts c act a b r h))

  Reach-IsSafe : (code : ℕ) (a : GreeterApp) → Reach j test_mode a → IsSafe test_mode (code, some a)
  Reach-IsSafe code a r = let k = Reach-IsKept j test_mode a r in (k.requests, k.quiet)

  unsent-IsSafe : (code : ℕ) (a : GreeterApp) → a.sent ≡ [] → IsSafe test_mode (code, some a)
  unsent-IsSafe code a e = (rw e tt, λ t. e)

  run-IsSafe : (a : GreeterApp) → Reach j test_mode a → Ensures (IsSafe test_mode) (run j s a)
  unfolding run
  run-IsSafe a r =
      if-Ensures (IsSafe test_mode) (not a.has_engine) (done (1, some a)) _ (Reach-IsSafe 1 a r) (
        and_then-Ensures (Reach j test_mode) (IsSafe test_mode) (enter_loop j s s.callbacks a)
          (λ b. done (s.loop_result, some b)) (enter_loop-Reach s.callbacks a r)
          (λ b h reached. Reach-IsSafe s.loop_result b reached))

  after_init-IsSafe :
      (b : Bool × GreeterApp)
      → init j s.users_connection s.sessions_connection s.user_source s.directories s.makes_window
          (new_app true test_mode)
        ≡ done b
      → IsFresh j test_mode b
      → Ensures (IsSafe test_mode) (after_init j s b)
  unfolding after_init
  after_init-IsSafe (true, a) h fresh = run-IsSafe a (begins _ _ _ _ _ a h)
  after_init-IsSafe (false, a) h fresh = unsent-IsSafe 1 a fresh.1.1

  run_greeter-IsSafe : Ensures (IsSafe test_mode) (run_greeter j s test_mode)
  unfolding run_greeter
  run_greeter-IsSafe =
      if-Ensures (IsSafe test_mode) (not s.makes_engine) (done (1, none)) _ (tt, λ t. refl)
        (and_then-Ensures (IsFresh j test_mode) (IsSafe test_mode) _ (after_init j s)
          (init-IsFresh j test_mode _ _ _ _ _) after_init-IsSafe)

module _ (j : Json) (s : Surroundings) where
  run_options-IsSafe :
      (args : List Text) (o : Options)
      → parse_options false args ≡ o
      → Ensures (IsSafe (asks_test args)) (run_options j s o)
  unfolding run_options
  run_options-IsSafe args usage h = (tt, λ t. refl)
  run_options-IsSafe args (show m) h =
      subst (λ b. Ensures (IsSafe b) (run_greeter j s m)) (parse_options-show false m args h)
        (run_greeter-IsSafe j s m)

  -- The greeter's process, with any arguments, whatever the toolkit calls back in whichever order and
  -- whatever the daemon answers: it never reads a list out of bounds, and unless an exception ends it,
  -- each request that it has sent is a login of a listed user into a listed session or a power action
  -- of one of the three buttons. With -t or --test among the arguments it has sent none.
  pub main-IsSafe : (args : List Text) → Ensures (IsSafe (asks_test args)) (main j s args)
  unfolding main
  main-IsSafe args = run_options-IsSafe args _ refl

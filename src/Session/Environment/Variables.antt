-- ===== src/Session/Environment/Variables.antt =====
-- PAM's list for the session's process (daemon/session.cpp), read as variables: neither the order of
-- different names nor a value that a later one replaces counts.
use mathlib.Core.Quot
use mathlib.Core.Quot.{Quot, Quot-set}
use native.Mathlib.Nat.{ℕ_set}
use miqudm.Prelude.{
  ◌≡◌, refl, sym, ◌∙◌, ap, split_first, false, text_eq_iff, true, List, [], ◌∷◌, Option, none, some,
  Text, ℤ, text_eq, arith,
}
use miqudm.Users.{UserInfo}
use miqudm.Sessions.{SessionInfo}
use miqudm.Os.{Os, Trace, succeeded, setenv}
use miqudm.Session.{enter_environment, base_env, env_pairs}
use miqudm.Session.Environment.{env, last_value, enter_environment-env}

-- Two lists of PAM give each variable the same value, or both give it none.
abbrev pub SameVariables : List Text → List Text → Type 0
SameVariables xs ys =
    (k : Text) → last_value k (env_pairs xs) none ≡ last_value k (env_pairs ys) none

abbrev pub Variables : Type 0
Variables = Quot SameVariables

abbrev or_else : Option Text → Option Text → Option Text
or_else none old = old
or_else (some v) old = some v

last_value-or_else :
    (k : Text) (kvs : List (Text × Text)) (old : Option Text)
    → last_value k kvs old ≡ or_else (last_value k kvs none) old
last_value-or_else k [] old = refl
last_value-or_else k ((j, v) ∷ rest) old =
    ground (arith, last_value-or_else k rest old, last_value-or_else k rest (some v))

-- Over the launcher's values, whatever these are, such lists give the same.
pub same-last_value :
    (k : Text) (old : Option Text) (xs ys : List Text)
    → SameVariables xs ys
    → last_value k (env_pairs xs) old ≡ last_value k (env_pairs ys) old
same-last_value k old xs ys same =
    last_value-or_else k (env_pairs xs) old
    ∙ ap (λ o. or_else o old) (same k)
    ∙ sym (last_value-or_else k (env_pairs ys) old)

pub Option_Text-set : IsSet (Option Text)
Option_Text-set = hlevel ℕ_set

-- The value of a variable of the session, from PAM's variables and what the launcher gives.
unfoldable pub session_variable : UserInfo → SessionInfo → ℤ → Text → Variables → Option Text
session_variable u s vt k =
    let given = last_value k (base_env u s vt) none in
    Quot.lift Option_Text-set (λ envs. last_value k (env_pairs envs) given)
      (same-last_value k given)

env_pairs-entry :
    (i v x : Text) (rest : List Text)
    → split_first b'=' x ≡ some (i, v)
    → env_pairs (x ∷ rest) ≡ (i, v) ∷ env_pairs rest
unfolding env_pairs
env_pairs-entry i v x rest at_x = rw (at_x, env_pairs) refl

-- Two entries with different names are in any order.
pub Variables-swap :
    (i v j w : Text) (x y : Text) (rest : List Text)
    → split_first b'=' x ≡ some (i, v)
    → split_first b'=' y ≡ some (j, w)
    → text_eq i j ≡ false
    → ◌≡◌ {A = Variables} (Quot.mk (x ∷ y ∷ rest)) (Quot.mk (y ∷ x ∷ rest))
Variables-swap i v j w x y rest at_x at_y other = Quot.sound (λ k.
    rw
      (
        env_pairs-entry i v x (y ∷ rest) at_x,
        env_pairs-entry j w y rest at_y,
        env_pairs-entry j w y (x ∷ rest) at_y,
        env_pairs-entry i v x rest at_x,
      )
      (ap (last_value k (env_pairs rest))
        (ground (arith, text_eq_iff i k, text_eq_iff j k, text_eq_iff i j))))

module _ (os : Os)
    (works : (t : Trace) (j v : Text) → succeeded (os.ret t (setenv j v)) ≡ true) where
  -- Where `setenv` does not fail, what a variable of the session is depends on PAM's list only as a set
  -- of variables: it is a function of the list's class, and so the same for each list of the class, in
  -- whatever order it has the names and whatever values it replaces.
  pub enter_environment-session_variable :
      (u : UserInfo) (s : SessionInfo) (pam_envs others : List Text) (vt : ℤ) (t : Trace) (k : Text)
      → ◌≡◌ {A = Variables} (Quot.mk others) (Quot.mk pam_envs)
      → (env k (enter_environment os u s pam_envs vt t).1
          ≡ session_variable u s vt k (Quot.mk pam_envs))
        × (env k (enter_environment os u s others vt t).1
            ≡ env k (enter_environment os u s pam_envs vt t).1)
  unfolding session_variable
  enter_environment-session_variable u s pam_envs others vt t k same =
      let given = enter_environment-env os u s pam_envs vt t k works in
      (
        given,
        enter_environment-env os u s others vt t k works
            ∙ ap (session_variable u s vt k) same
            ∙ sym given,
      )

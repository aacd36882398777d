-- ===== src/Pam/Move.antt =====
-- The move constructor and the move assignment of `PamAuth`, daemon/pam_auth.cpp.
use miqudm.Prelude.{
  ℕ, ◌≡◌, ◌≢◌, inl, inr, refl, sym, subst, ◌∙◌, true, false, List, [], ◌∷◌, Option, none, some,
  Text, arith,
}
use miqudm.Os.{Os, M, pure, ◌>>=◌, ◌>>◌, Trace}
use miqudm.Pam.{PamAuth, new_pam, end_pam}
use miqudm.Pam.Status.{status, is_open, guarded}
use miqudm.Pam.Methods.{HandleMirrors, end_pam-IsStep}
use miqudm.Pam.Life.{Method, apply, apply-IsStep, end_pam-none, none-ne-some}
use miqudm.Pam.Turns.{IsStep-IsTurn}
use miqudm.Pam.Accounts.{Accounts, Accounts-swap, Accounts-turn}

-- What `std::move` leaves in the three strings, which the language does not say.
pub record Remains : Type 0 where
  pub username : Text
  pub service_name : Text
  pub error_message : Text

-- `other.m_pam_handle = nullptr` and the flags, with the strings that were moved from.
abbrev emptied : Remains → PamAuth
emptied left = record {
  handle = none;
  username = left.username;
  service_name = left.service_name;
  error_message = left.error_message;
  session_opened = false;
  credentials_set = false;
}

-- `PamAuth::PamAuth(PamAuth&&)`: the new object, and `other`.
unfoldable pub move_construct : Remains → PamAuth → PamAuth × PamAuth
move_construct left other = (
  record {
    handle = other.handle;
    username = other.username;
    service_name = other.service_name;
    error_message = other.error_message;
    session_opened = other.session_opened;
    credentials_set = other.credentials_set;
  },
  emptied left,
)

module _ (os : Os) where
  -- `PamAuth::operator=(PamAuth&&)` of two objects: `*this` and `other`.
  unfoldable pub move_assign : Remains → PamAuth → PamAuth → M (PamAuth × PamAuth)
  move_assign left this other = do
    ended ← end_pam os this
    pure (
      record ended {
        handle = other.handle;
        username = other.username;
        service_name = other.service_name;
        error_message = other.error_message;
        session_opened = other.session_opened;
        credentials_set = other.credentials_set;
      },
      emptied left,
    )

  -- `p = std::move(p)`: `this != &other` is false.
  unfoldable pub self_assign : PamAuth → M PamAuth
  self_assign p = pure p

-- What a program can do with two objects.
pub data Use : Type 0 where
  calls_first calls_second : Method → Use
  -- `first = std::move(second)`, `second = std::move(first)`.
  moves_to_first moves_to_second : Remains → Use
  moves_to_itself : Use
  -- The first object is destroyed, and a new one made from the second.
  makes_first : Remains → Use

module _ (os : Os) where
  unfoldable pub apply_use : Use → PamAuth × PamAuth → M (PamAuth × PamAuth)
  apply_use (calls_first m) (p, q) = do p' ← apply os m p; pure (p', q)
  apply_use (calls_second m) (p, q) = do q' ← apply os m q; pure (p, q')
  apply_use (moves_to_first left) (p, q) = move_assign os left p q
  apply_use (moves_to_second left) (p, q) = do r ← move_assign os left q p; pure (r.1, r.0)
  apply_use moves_to_itself (p, q) = do p' ← self_assign os p; pure (p', q)
  apply_use (makes_first left) (p, q) = do end_pam os p; pure (move_construct left q)

  unfoldable pub apply_uses : List Use → PamAuth × PamAuth → M (PamAuth × PamAuth)
  apply_uses [] pq = pure pq
  apply_uses (u ∷ us) pq = do next ← apply_use u pq; apply_uses us next

  -- The destructors, the second object's first.
  unfoldable pub two_lives : List Use → M (PamAuth × PamAuth)
  two_lives us = do
    pq ← apply_uses us (new_pam, new_pam)
    q ← end_pam os pq.1
    p ← end_pam os pq.0
    pure (p, q)

HandleMirrors-flags :
    (h : Option ℕ) (p q : PamAuth) (t : Trace)
    → q.session_opened ≡ p.session_opened
    → q.credentials_set ≡ p.credentials_set
    → HandleMirrors h p t
    → HandleMirrors h q t
HandleMirrors-flags none p q t s c m = ground arith
HandleMirrors-flags (some h) p q t s c m = ground arith

-- The second object's transaction passes to an object in place of the first, which holds none.
Accounts-moved :
    {p q p' q' : PamAuth} {t : Trace}
    → Accounts p q t
    → p.handle ≡ none
    → p'.handle ≡ q.handle
    → p'.session_opened ≡ q.session_opened
    → p'.credentials_set ≡ q.credentials_set
    → q'.handle ≡ none
    → q'.session_opened ≡ false
    → q'.credentials_set ≡ false
    → Accounts p' q' t
Accounts-moved {p} {q} {p'} {q'} {t} a e h s c h' s' c' = record {
  first =
      subst (λ x. HandleMirrors x p' t) (sym h) (HandleMirrors-flags q.handle q p' t s c a.second);
  second = rw h' (s', c');
  apart = λ k held other. none-ne-some k (sym h' ∙ other);
  safe = a.safe;
  all = λ k left. elim (a.all k left) [
    | inl mine ↦ absurd (none-ne-some k (sym e ∙ mine))
    | inr theirs ↦ inl (h ∙ theirs)
  ];
}

Accounts-none : Accounts new_pam new_pam []
unfolding status guarded
Accounts-none = record {
  first = (refl, refl);
  second = (refl, refl);
  apart = λ k held other. none-ne-some k other;
  safe = refl;
  all = λ k left. ground arith;
}

module _ (os : Os) where
  Accounts-end :
      (p q : PamAuth) (t : Trace)
      → Accounts p q t
      → Accounts (end_pam os p t).0 q (end_pam os p t).1
  Accounts-end p q t a = Accounts-turn a (IsStep-IsTurn (end_pam-IsStep os p t a.first))

  move_assign-Accounts :
      (left : Remains) (p q : PamAuth) (t : Trace)
      → Accounts p q t
      → Accounts
          (move_assign os left p q t).0.0
          (move_assign os left p q t).0.1
          (move_assign os left p q t).1
  unfolding move_assign
  move_assign-Accounts left p q t a =
      Accounts-moved (Accounts-end p q t a) (end_pam-none os p t) refl refl refl refl refl refl

  apply_use-Accounts :
      (u : Use) (p q : PamAuth) (t : Trace)
      → Accounts p q t
      → Accounts
          (apply_use os u (p, q) t).0.0
          (apply_use os u (p, q) t).0.1
          (apply_use os u (p, q) t).1
  unfolding apply_use self_assign move_construct
  apply_use-Accounts (calls_first m) p q t a =
      Accounts-turn a (IsStep-IsTurn (apply-IsStep os m p t a.first))
  apply_use-Accounts (calls_second m) p q t a =
      Accounts-swap
        (Accounts-turn (Accounts-swap a) (IsStep-IsTurn (apply-IsStep os m q t a.second)))
  apply_use-Accounts (moves_to_first left) p q t a = move_assign-Accounts left p q t a
  apply_use-Accounts (moves_to_second left) p q t a =
      Accounts-swap (move_assign-Accounts left q p t (Accounts-swap a))
  apply_use-Accounts moves_to_itself p q t a = a
  apply_use-Accounts (makes_first left) p q t a =
      Accounts-moved (Accounts-end p q t a) (end_pam-none os p t) refl refl refl refl refl refl

  -- Two objects of a process that only they use: after any calls on them and any moves between them, all
  -- that is open in PAM belongs to one of them, no handle belongs to both, and the flags of each say
  -- what is open on its handle.
  pub apply_uses-Accounts :
      (us : List Use) (p q : PamAuth) (t : Trace)
      → Accounts p q t
      → Accounts
          (apply_uses os us (p, q) t).0.0
          (apply_uses os us (p, q) t).0.1
          (apply_uses os us (p, q) t).1
  unfolding apply_uses
  apply_uses-Accounts [] p q t a = a
  apply_uses-Accounts (u ∷ us) p q t a = apply_uses-Accounts us _ _ _ (apply_use-Accounts u p q t a)

  -- Two objects that a process makes, calls in any order, moves into each other and destroys leave
  -- nothing open in PAM.
  pub two_lives-closed : (us : List Use) (k : ℕ) → is_open (status k (two_lives os us []).1) ≢ true
  unfolding two_lives
  two_lives-closed us k left =
      let a = apply_uses-Accounts us new_pam new_pam [] Accounts-none in
      let ((p, q), t) = apply_uses os us (new_pam, new_pam) [] in
      let b = Accounts-swap (Accounts-end q p t (Accounts-swap a)) in
      let c = Accounts-end p _ _ b in
      elim (c.all k left) [
        | inl held ↦ none-ne-some k (sym (end_pam-none os p (end_pam os q t).1) ∙ held)
        | inr held ↦ none-ne-some k (sym (end_pam-none os q t) ∙ held)
      ]

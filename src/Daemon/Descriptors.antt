-- ===== src/Daemon/Descriptors.antt =====
-- The descriptors that daemon/daemon.cpp opens and closes, and the server socket that `Daemon` holds.
pub mod Handlers
use miqudm.Prelude.{
  ℕ, ◌≡◌, refl, sym, ◌∙◌, ap, Bool, true, false, ◌||◌, List, [], ◌∷◌, ℤ, pos, eq_ℤ, arith,
  if◌then◌else◌,
}
use miqudm.Os.{Trace, Call, Event, socket, accept_client, close_fd}
use miqudm.Daemon.{Daemon}
use miqudm.Daemon.Replies.{descriptors, add_descriptor, IsSilent}

abbrev fd_step : ℕ → Call → ℤ → Bool → Bool
fd_step k socket r b = eq_ℤ r (pos k) || b
fd_step k accept_client r b = eq_ℤ r (pos k) || b
fd_step k (close_fd fd) r b = if eq_ℤ fd (pos k) then false else b
fd_step k _ r b = b

-- Whether a descriptor is open after a run, from what opened and closed it.
unfoldable pub is_open_fd : ℕ → Trace → Bool
is_open_fd k [] = false
is_open_fd k (e ∷ t) = fd_step k e.call e.result (is_open_fd k t)

step-descriptors :
    (k : ℕ) (c : Call) (r : ℤ) (t : Trace)
    → is_open_fd k (add_descriptor c r t) ≡ fd_step k c r (is_open_fd k t)
unfolding is_open_fd
step-descriptors k c r t = ground arith

-- The calls that open or close a descriptor tell all of it.
is_open_fd-descriptors : (k : ℕ) (t : Trace) → is_open_fd k (descriptors t) ≡ is_open_fd k t
unfolding is_open_fd descriptors
is_open_fd-descriptors k [] = refl
is_open_fd-descriptors k (e ∷ t) =
    step-descriptors k e.call e.result (descriptors t)
    ∙ ap (fd_step k e.call e.result) (is_open_fd-descriptors k t)

-- The same descriptors are open.
pub record SameOpen (t t' : Trace) : Type 0 where
  pub at : (k : ℕ) → is_open_fd k t' ≡ is_open_fd k t

pub descriptors-SameOpen : (t t' : Trace) → descriptors t' ≡ descriptors t → SameOpen t t'
descriptors-SameOpen t t' e = record {
  at = λ k. sym (is_open_fd-descriptors k t') ∙ ap (is_open_fd k) e ∙ is_open_fd-descriptors k t;
}

-- Nothing is open but the server socket that is held.
pub record HoldsOnly (fd : ℤ) (t : Trace) : Type 0 where
  pub only : (k : ℕ) → is_open_fd k t ≡ true → fd ≡ pos k

pub SameOpen-HoldsOnly : {fd : ℤ} {t t' : Trace} → HoldsOnly fd t → SameOpen t t' → HoldsOnly fd t'
SameOpen-HoldsOnly h same = record { only = λ k opened. h.only k (sym (same.at k) ∙ opened) }

-- ===== src/Daemon/Replies.antt =====
-- What the daemon has written to its clients and which sessions it has forked (daemon/daemon.cpp): two
-- readings of the run, and the pieces of the program that do neither.
pub mod Silent
pub mod Verdict
pub mod Reasons
pub mod Launch
pub mod Answers
use miqudm.Prelude.{ℕ, zero, suc, ◌≡◌, ◌≤◌, refl, ◌∙◌, List, [], ◌∷◌, Text, ℤ, length, arith}
use miqudm.Users.{UserInfo}
use miqudm.Sessions.{SessionInfo}
use miqudm.Os.{Trace, Call, write_fd, fork_session, socket, accept_client, close_fd}

-- A descriptor and the bytes that were written to it.
abbrev pub Written : Type 0
Written = ℤ × Text

abbrev pub add_written : Call → List Written → List Written
add_written (write_fd fd s) ws = (fd, s) ∷ ws
add_written _ ws = ws

-- What was written, newest first.
unfoldable pub written : Trace → List Written
written [] = []
written (e ∷ t) = add_written e.call (written t)

-- A forked session: for whom, and what.
abbrev pub Fork : Type 0
Fork = UserInfo × SessionInfo

abbrev pub add_fork : Call → List Fork → List Fork
add_fork (fork_session user session envs vt) fs = (user, session) ∷ fs
add_fork _ fs = fs

-- The sessions that were forked, newest first.
unfoldable pub forked : Trace → List Fork
forked [] = []
forked (e ∷ t) = add_fork e.call (forked t)

abbrev pub add_descriptor : Call → ℤ → Trace → Trace
add_descriptor socket r t = record { call = socket; result = r } ∷ t
add_descriptor accept_client r t = record { call = accept_client; result = r } ∷ t
add_descriptor (close_fd fd) r t = record { call = close_fd fd; result = r } ∷ t
add_descriptor _ r t = t

-- The calls that open or close a descriptor, newest first.
unfoldable pub descriptors : Trace → Trace
descriptors [] = []
descriptors (e ∷ t) = add_descriptor e.call e.result (descriptors t)

-- The run goes on, nothing is written, no session is forked and no descriptor is opened or closed.
pub record IsSilent (t t' : Trace) : Type 0 where
  pub grows : length t ≤ length t'
  pub same : written t' ≡ written t
  pub forks : forked t' ≡ forked t
  pub fds : descriptors t' ≡ descriptors t

pub IsSilent-refl : (t : Trace) → IsSilent t t
IsSilent-refl t = record { grows = omega arith; same = refl; forks = refl; fds = refl }

pub IsSilent-trans : {t u v : Trace} → IsSilent t u → IsSilent u v → IsSilent t v
IsSilent-trans a b = record {
  grows = let x = a.grows in let y = b.grows in omega arith;
  same = b.same ∙ a.same;
  forks = b.forks ∙ a.forks;
  fds = b.fds ∙ a.fds;
}

-- ===== src/Daemon/Loop/Greeted.antt =====
-- The greeter's process in the loop of `Daemon::run`, daemon/daemon.cpp: started at first, started again
-- behind each session, and when it has died.
use miqudm.Prelude.{◌≡◌, true, false, Option, none, some, is_pos, is_empty}
use miqudm.Os.{Os, Trace, call, fork_greeter, set_running}
use miqudm.Ipc.Library.{Json}
use miqudm.Daemon.{Daemon}
use miqudm.Daemon.Greeter.{start_greeter}
use miqudm.Daemon.Loop.{Round, continues, breaks, crashes, round}
use miqudm.Daemon.Loop.Held.{held}

-- The daemon runs, has a command for its greeter, and waits for no session.
pub record IsServing (d : Daemon) : Type 0 where
  pub running : d.running ≡ true
  pub command : is_empty d.config.general.greeter_command ≡ false
  pub idle : is_pos d.session_launcher.session_pid ≡ false

-- It also holds a greeter's process: the one that it forked last, which no `waitpid` has told it ended.
pub record IsGreeted (d : Daemon) (t : Trace) : Type 0 where
  pub serving : IsServing d
  pub process : is_pos d.greeter_pid ≡ true
  pub alive : held d.greeter_pid t ≡ true

abbrev Greeted : Option Daemon → Trace → Type 0
Greeted none t = Unit
Greeted (some d) t = IsGreeted d t

abbrev RoundGreeted : Round → Trace → Type 0
RoundGreeted (continues d) t = IsGreeted d t
RoundGreeted (breaks d) t = IsGreeted d t
RoundGreeted crashes t = Unit

-- No signal stops the daemon, and a greeter can be forked.
pub record CanGreet (os : Os) : Type 0 where
  pub unsignalled : (t : Trace) → os.signalled t ≡ false
  pub forks : (t : Trace) → is_pos (os.ret t fork_greeter) ≡ true

-- The states between the rounds of the loop: `run` begins, and then a round ends with another.
pub data Rounds (os : Os) (j : Json) (d0 : Daemon) (t0 : Trace) : Daemon → Trace → Type 0 where
  begins :
      (d : Daemon) (t : Trace)
      → start_greeter os (record d0 { running = true }) (call os set_running t0).1 ≡ (d, t)
      → Rounds os j d0 t0 d t
  goes_on :
      (d d' : Daemon) (t t' : Trace)
      → Rounds os j d0 t0 d t
      → round os j d t ≡ (continues d', t')
      → Rounds os j d0 t0 d' t'

-- The daemon has a command for its greeter, and no process yet.
pub record IsReady (d : Daemon) : Type 0 where
  pub command : is_empty d.config.general.greeter_command ≡ false
  pub no_greeter : is_pos d.greeter_pid ≡ false
  pub no_session : is_pos d.session_launcher.session_pid ≡ false

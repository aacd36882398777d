-- ===== src/Os.antt =====
-- What the daemon calls: system calls, Linux-PAM and the system bus. They are a parameter, `Os`: an
-- answer to each call, which may depend on all that was called before. A run is the list of its
-- calls with their results, newest first.
use miqudm.Prelude.{
  ℕ, ◌≡◌, refl, Bool, true, false, not, ◌&&◌, ◌||◌, List, [], ◌∷◌, Option, Text, ℤ, is_zero,
  if◌then◌else◌,
}
use miqudm.Config.{FileSystem}
use miqudm.Sessions.{SessionInfo, DirEntry}
use miqudm.Users.{Passwd, UserInfo, UserSource}

pub data Call : Type 0 where
  -- Linux-PAM. A handle is a number; `pam_putenv` has its "NAME=value".
  pam_start : Text → Text → Call
  pam_set_conv : ℕ → Text → Call
  pam_authenticate pam_acct_mgmt pam_establish_cred pam_delete_cred : ℕ → Call
  pam_open_session pam_close_session pam_end : ℕ → Call
  pam_putenv : ℕ → Text → Call
  pam_getenvlist : ℕ → Call
  -- The end of the life of the local `user_data`, to which the handle's conversation points.
  destroy_user_data : ℕ → Call
  explicit_bzero : ℕ → Call
  -- Processes.
  fork_greeter setsid clearenv : Call
  -- The assignment `m_running = true` of `Daemon::run`, which undoes each `Daemon::stop` before it.
  set_running : Call
  -- The fork whose child runs the session of these arguments of `launch`.
  fork_session : UserInfo → SessionInfo → List Text → ℤ → Call
  initgroups : Text → ℕ → Call
  setgid setuid : ℕ → Call
  setenv : Text → Text → Call
  chdir : Text → Call
  execl : List Text → Call
  exit_process : ℕ → Call
  kill_group kill_process : ℤ → ℕ → Call
  waitpid_nohang waitpid : ℤ → Call
  usleep : ℕ → Call
  -- Files.
  create_directories : Text → Call
  chmod : Text → ℕ → Call
  chown : Text → ℕ → ℕ → Call
  save_config : Text → Text → Call
  unlink : Text → Call
  -- Sockets.
  socket bind_socket listen_socket poll_server accept_client : Call
  close_fd : ℤ → Call
  write_fd : ℤ → Text → Call
  -- The system bus.
  bus_open bus_unref : Call
  bus_call : Text → Bool → Call
  bus_switch_to : ℕ → Call

pub record Event : Type 0 where
  pub call : Call
  pub result : ℤ

abbrev pub Trace : Type 0
Trace = List Event

-- How a process ended, as `WIFEXITED` and `WIFSIGNALED` tell it apart.
pub data WaitStatus : Type 0 where
  exited signaled other_status : ℕ → WaitStatus

pub record Os : Type 0 where
  -- The integer that a call returns.
  pub ret : Trace → Call → ℤ
  -- `pam_strerror`.
  pub strerror : ℤ → Text
  -- What `pam_getenvlist` returns.
  pub env_list : Trace → ℕ → List Text
  -- `getpwnam`.
  pub getpwnam : Text → Option Passwd
  -- `std::filesystem::exists`.
  pub exists : Trace → Text → Bool
  -- How often a blocking `waitpid` is interrupted before it ends, and what status it then gives.
  pub interrupts : Trace → ℕ
  pub wait_status : Trace → WaitStatus
  -- Whether the last call failed with EINTR.
  pub interrupted : Trace → Bool
  -- The bytes that the reads of a client's connection deliver.
  pub received : Trace → List Text
  -- What the scanners and `Config::load` find.
  pub user_source : Trace → UserSource
  pub directories : Trace → Text → Option (List DirEntry)
  pub files : Trace → FileSystem
  -- Whether a signal handler calls `Daemon::stop` between the last call and the next one. Where that
  -- last call is `set_running`, it does so behind the assignment.
  pub signalled : Trace → Bool

abbrev sets_running : Call → Bool
sets_running set_running = true
sets_running _ = false

-- Whether a signal handler has called `Daemon::stop` since `m_running` was last set.
unfoldable pub is_stopped : Os → Trace → Bool
is_stopped os [] = os.signalled []
is_stopped os (e ∷ t) =
    let before = is_stopped os t in os.signalled (e ∷ t) || (not (sets_running e.call) && before)

-- A program that makes calls.
abbrev pub M : Type 0 → Type 0
M A = Trace → A × Trace

abbrev pub pure : {A : Type 0} → A → M A
pure a t = (a, t)

infixl 5 ◌>>=◌ ◌>>◌
abbrev pub ◌>>=◌ : {A B : Type 0} → M A → (A → M B) → M B
◌>>=◌ m f t = f (m t).0 (m t).1

abbrev pub ◌>>◌ : {A B : Type 0} → M A → M B → M B
◌>>◌ m k t = k (m t).1

abbrev pub call : Os → Call → M ℤ
call os c t = (os.ret t c, record { call = c; result = os.ret t c } ∷ t)

-- `PAM_SUCCESS`, and success of a system call, is 0.
abbrev pub succeeded : ℤ → Bool
succeeded = is_zero

-- Both branches give what the test gives.
pub if-both :
    {A : Type 0} (P : A × Trace → Type 0) (b : Bool) (m n : M A) (t : Trace)
    → P (m t)
    → P (n t)
    → P ((if b then m else n) t)
if-both P true m n t x y = x
if-both P false m n t x y = y

-- As `if-both`, where each branch may use how the test came out.
pub if-either :
    {A : Type 0} (P : A × Trace → Type 0) (b : Bool) (m n : M A) (t : Trace)
    → (b ≡ true → P (m t))
    → (b ≡ false → P (n t))
    → P ((if b then m else n) t)
if-either P true m n t x y = x refl
if-either P false m n t x y = y refl

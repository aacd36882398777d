-- ===== src/Tests/World.antt =====
-- A small world for the tests: a JSON library, an operating system on which every call succeeds, and
-- the data of one user. Models no code of its own.
use miqudm.Prelude.{
  ℕ, ◌≡◌, refl, ap, Bool, true, false, List, [], ◌∷◌, Option, none, some, Text, codes, text_eq, ltb,
  length, if◌then◌else◌, ℤ, pos, negsuc,
}
use miqudm.Os.{
  Os, Trace, Call, fork_greeter, fork_session, waitpid, waitpid_nohang, poll_server, accept_client,
  socket, exited, setuid,
}
use miqudm.Config.{FileSystem, default_config}
use miqudm.Users.{Passwd, UserInfo, UserSource}
use miqudm.Ipc.{IpcMessage, default_message, login, to_value}
use miqudm.Ipc.Library.{Json, JsonLaws}
use miqudm.Daemon.{Daemon, no_pid}

-- Objects are lists of members, newest first, and arrays are lists of items.
pub data Value : Type 0 where
  empty end_items : Value
  text : Text → Value
  flag : Bool → Value
  num : ℕ → Value
  member : Text → Value → Value → Value
  item : Value → Value → Value

unfoldable pub get_member : Value → Text → Value → Option Value
get_member empty k d = some d
get_member (member i x rest) k d = if text_eq i k then some x else get_member rest k d
get_member _ k d = none

unfoldable pub has_member : Value → Text → Option Bool
has_member empty k = some false
has_member (member i x rest) k = if text_eq i k then some true else has_member rest k
has_member _ k = none

unfoldable pub array_of : List Value → Value
array_of [] = end_items
array_of (v ∷ vs) = item v (array_of vs)

unfoldable pub items : Value → List Value
items (item v vs) = v ∷ items vs
items _ = []

unfoldable pub is_items : Value → Bool
is_items end_items = true
is_items (item v vs) = true
is_items _ = false

unfoldable pub as_text : Value → Option Text
as_text (text s) = some s
as_text _ = none

unfoldable pub as_flag : Value → Option Bool
as_flag (flag b) = some b
as_flag _ = none

unfoldable pub as_num : Value → Option ℕ
as_num (num n) = some n
as_num _ = none

-- With what it writes for a value and parses of a text.
abbrev pub json_of : (Value → Text) → (Text → Option Value) → Json
json_of write parse = record {
  Value = Value;
  null = empty;
  string = text;
  boolean = flag;
  number = num;
  array = array_of;
  set = λ v k x. member k x v;
  get = get_member;
  is_member = has_member;
  is_array = is_items;
  elements = items;
  as_string = as_text;
  as_bool = as_flag;
  as_uint64 = as_num;
  write = write;
  parse = parse;
  parse_error = λ s. codes "syntax error";
}

abbrev pub json_with : Option Value → Json
json_with parsed = json_of (λ v. codes "{}") (λ s. parsed)

-- `alice` logs in.
abbrev pub request : IpcMessage
request = record default_message {
  type = login;
  username = codes "alice";
  password = codes "secret";
}

abbrev pub json : Json
json = json_with (some (to_value (json_with none) request))

items-array_of : (vs : List Value) → items (array_of vs) ≡ vs
unfolding items array_of
items-array_of [] = refl
items-array_of (v ∷ vs) = ap (λ ws. v ∷ ws) (items-array_of vs)

is_items-array_of : (vs : List Value) → is_items (array_of vs) ≡ true
unfolding is_items array_of
is_items-array_of [] = refl
is_items-array_of (v ∷ vs) = refl

pub json_of-laws :
    (write : Value → Text) (parse : Text → Option Value) → JsonLaws (json_of write parse)
unfolding get_member has_member as_text as_flag as_num
json_of-laws write parse = record {
  IsObject = λ v. Unit {0};
  null-IsObject = tt;
  set-IsObject = λ v k x o. tt;
  get-null = λ k d. refl;
  get-set = λ v k i x d o. refl;
  is_member-null = λ k. refl;
  is_member-set = λ v k i x o. refl;
  as_string-string = λ s. refl;
  as_bool-boolean = λ b. refl;
  as_uint64-number = λ n. refl;
  is_array-array = is_items-array_of;
  elements-array = items-array_of;
}

pub json_laws : (parsed : Option Value) → JsonLaws (json_with parsed)
json_laws parsed = json_of-laws (λ v. codes "{}") (λ s. parsed)

abbrev pub passwd : Passwd
passwd = record {
  pw_name = codes "greeter";
  pw_uid = 970;
  pw_gid = 970;
  pw_dir = codes "/var/lib/greeter";
  pw_shell = codes "/bin/sh";
  pw_gecos = [];
}

abbrev pub alice_entry : Passwd
alice_entry = record {
  pw_name = codes "alice";
  pw_uid = 1000;
  pw_gid = 1000;
  pw_dir = codes "/home/alice";
  pw_shell = codes "/bin/bash";
  pw_gecos = codes "Alice,,,";
}

abbrev pub alice : UserInfo
alice = record {
  username = codes "alice";
  display_name = codes "Alice";
  home_dir = codes "/home/alice";
  avatar_path = [];
  uid = 1000;
  gid = 1000;
  shell = codes "/bin/bash";
}

abbrev pub source : UserSource
source = record {
  entries = passwd ∷ alice_entry ∷ [];
  exists = λ p. false;
  is_regular_file = λ p. false;
  getlogin = none;
  getuid = 0;
  getgid = 0;
}

abbrev pub no_files : FileSystem
no_files = record {
  exists = λ p. false;
  content = λ p. none;
  can_write = λ p. true;
  kept = λ p s. s;
}

-- The second `poll` fails and ends the loop.
unfoldable pub result : Trace → Call → ℤ
result t fork_greeter = pos 41
result t (fork_session u s envs vt) = pos 42
result t (waitpid pid) = pid
result t (waitpid_nohang pid) = pid
result t poll_server = if ltb 25 (length t) then negsuc 0 else pos 1
result t accept_client = pos 5
result t socket = pos 3
result t _ = pos 0

abbrev pub world : Os
world = record {
  ret = result;
  strerror = λ n. codes "failure";
  env_list = λ t h. codes "XDG_SESSION_ID=1" ∷ [];
  getpwnam = λ name. some passwd;
  exists = λ t p. true;
  interrupts = λ t. 1;
  wait_status = λ t. exited 3;
  interrupted = λ t. false;
  received = λ t. codes "{}\n" ∷ [];
  user_source = λ t. source;
  directories = λ t p. none;
  files = λ t. no_files;
  signalled = λ t. false;
}

-- The same world where nobody can take another user id.
unfoldable pub no_setuid : Trace → Call → ℤ
no_setuid t (setuid uid) = negsuc 0
no_setuid t _ = pos 0

abbrev pub stuck : Os
stuck = record world { ret = no_setuid }

abbrev pub fresh : Daemon
fresh = record {
  config = default_config;
  logind = record { bus = false };
  socket_path = [];
  server_socket_fd = pos 3;
  greeter_pid = no_pid;
  running = false;
  greeter_pam = none;
  active_pam = none;
  session_launcher = record { session_pid = no_pid };
  cached_users = alice ∷ [];
  cached_sessions = [];
}

-- The world where every call fails.
abbrev pub failing : Os
failing = record world { ret = λ t c. negsuc 0 }

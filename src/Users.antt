-- ===== src/Users.antt =====
-- common/user_scanner.hpp: `UserInfo` and `UserScanner`. The password database, the files and the
-- login name are `UserSource`, a parameter.
pub mod Scan
use miqudm.Prelude.{
  ℕ, Bool, true, false, ◌&&◌, ◌||◌, not, List, [], ◌∷◌, ◌++◌, Option, none, some, Text, codes,
  text_eq, contains, split_first, leb, ltb, is_empty, if◌then◌else◌,
}

-- An entry of the password database; a null field is the empty text.
pub record Passwd : Type 0 where
  pub pw_name : Text
  pub pw_uid : ℕ
  pub pw_gid : ℕ
  pub pw_dir : Text
  pub pw_shell : Text
  pub pw_gecos : Text

pub record UserInfo : Type 0 where
  pub username : Text
  pub display_name : Text
  pub home_dir : Text
  pub avatar_path : Text
  pub uid : ℕ
  pub gid : ℕ
  pub shell : Text

-- The member initialisers.
abbrev pub default_user : UserInfo
default_user = record {
  username = [];
  display_name = [];
  home_dir = [];
  avatar_path = [];
  uid = 0;
  gid = 0;
  shell = codes "/bin/bash";
}

pub record UserSource : Type 0 where
  -- What `getpwent` delivers until it returns null.
  pub entries : List Passwd
  pub exists : Text → Bool
  pub is_regular_file : Text → Bool
  pub getlogin : Option Text
  pub getuid : ℕ
  pub getgid : ℕ

-- The text before the first comma, or all of it.
unfoldable pub before_comma : Text → Text
before_comma gecos = elim (split_first b',' gecos) [ none ↦ gecos | some (name, _) ↦ name ]

unfoldable pub display_name_of : Passwd → Text
unfolding before_comma
display_name_of pw =
    let name = before_comma pw.pw_gecos in if is_empty name then pw.pw_name else name

-- The two tests of the loop.
unfoldable pub is_interactive : Passwd → Bool
is_interactive pw =
    leb 1000 pw.pw_uid
    && ltb pw.pw_uid 60000
    && not (text_eq pw.pw_name (codes "nobody"))
    && not (contains (codes "nologin") pw.pw_shell || contains (codes "false") pw.pw_shell)

unfoldable pub current_user : Option Text → Text
current_user none = codes "user"
current_user (some name) = name

module _ (src : UserSource) where
  abbrev is_file : Text → Bool
  is_file path = src.exists path && src.is_regular_file path

  -- `find_user_avatar`.
  unfoldable pub find_user_avatar : Text → Text → Text
  find_user_avatar username home_dir =
      if is_file (home_dir ++ codes "/.face")
      then home_dir ++ codes "/.face"
      else if is_file (home_dir ++ codes "/.face.icon")
      then home_dir ++ codes "/.face.icon"
      else if is_file (codes "/var/lib/AccountsService/icons/" ++ username)
      then codes "/var/lib/AccountsService/icons/" ++ username
      else []

  unfoldable pub user_of : Passwd → UserInfo
  unfolding find_user_avatar display_name_of
  user_of pw = record {
    username = pw.pw_name;
    display_name = display_name_of pw;
    home_dir = pw.pw_dir;
    avatar_path = find_user_avatar pw.pw_name pw.pw_dir;
    uid = pw.pw_uid;
    gid = pw.pw_gid;
    shell = if not (is_empty pw.pw_shell) then pw.pw_shell else codes "/bin/bash";
  }

  -- The loop over `getpwent`.
  unfoldable pub scan_entries : List Passwd → List UserInfo
  unfolding is_interactive user_of
  scan_entries [] = []
  scan_entries (pw ∷ rest) =
      let users = scan_entries rest in if is_interactive pw then user_of pw ∷ users else users

  unfoldable pub fallback_user : UserInfo
  unfolding current_user
  fallback_user =
      let name = current_user src.getlogin in
      record default_user {
        username = name;
        display_name = name;
        home_dir = codes "/home/" ++ name;
        uid = src.getuid;
        gid = src.getgid;
      }

  -- `UserScanner::scan_users`.
  unfoldable pub scan_users : List UserInfo
  unfolding scan_entries fallback_user
  scan_users =
      let users = scan_entries src.entries in if is_empty users then fallback_user ∷ [] else users

-- ===== src/Config.antt =====
-- common/config.hpp and common/config.cpp: the settings, the parser of the configuration file and
-- its writer. The file system is `FileSystem`, a parameter: what exists, what can be read or written.
pub mod Trim
pub mod Values
pub mod RoundTrip
pub mod Restart
use miqudm.Prelude.{
  ℕ, Bool, true, false, ◌&&◌, ◌||◌, not, List, [], ◌∷◌, ◌++◌, map, Option, none, some, ◌+◌, ◌==◌,
  leb, if◌then◌else◌, is_empty, find_if, Text, codes, text_eq, split_first, lines, ℤ, pos,
}
use miqudm.Prelude.Decimal.{stoi, to_text}
use Trim.{trim}

pub record GeneralConfig : Type 0 where
  pub default_session : Text
  pub remember_last_user : Bool
  pub last_user : Text
  pub greeter_command : Text
  pub greeter_user : Text
  pub vt : ℤ
  pub numlock : Bool

pub record AutologinConfig : Type 0 where
  pub enabled : Bool
  pub user : Text
  pub session : Text

pub record Config : Type 0 where
  pub general : GeneralConfig
  pub autologin : AutologinConfig
  pub loaded_path : Text

-- The member initialisers.
abbrev pub default_config : Config
default_config = record {
  general = record {
    default_session = codes "miquland";
    remember_last_user = true;
    last_user = [];
    greeter_command = codes "miquland -s /usr/bin/miqudm-greeter";
    greeter_user = codes "greeter";
    vt = pos 1;
    numlock = false;
  };
  autologin = record { enabled = false; user = []; session = codes "miquland" };
  loaded_path = [];
}

-- `::tolower` in the C locale.
unfoldable pub to_lower : ℕ → ℕ
to_lower c = if leb b'A' c && leb c b'Z' then c + 32 else c

unfoldable pub parse_bool : Text → Bool → Bool
unfolding to_lower
parse_bool val default_val =
    let lower = map to_lower val in
    if text_eq lower (codes "true")
      || text_eq lower (codes "1")
      || text_eq lower (codes "yes")
      || text_eq lower (codes "on")
    then true
    else if text_eq lower (codes "false")
        || text_eq lower (codes "0")
        || text_eq lower (codes "no")
        || text_eq lower (codes "off")
    then false
    else default_val

-- The files: which paths exist, what opening one for reading gives, which can be opened for writing.
pub record FileSystem : Type 0 where
  pub exists : Text → Bool
  pub content : Text → Option Text
  pub can_write : Text → Bool
  -- What a file holds when a text has been written to it: less than the text where a write fails.
  pub kept : Text → Text → Text

abbrev pub candidates : List Text
candidates =
    codes "/etc/miqudm/miqudm.conf"
    ∷ codes "/etc/miqudm.conf"
    ∷ codes "/usr/share/miqudm/miqudm.conf"
    ∷ []

-- The path of `find_if`, or "".
abbrev pub or_empty : Option Text → Text
or_empty none = []
or_empty (some p) = p

unfoldable pub find_config_file : FileSystem → Text → Text
find_config_file fs custom_path =
    if not (is_empty custom_path) && fs.exists custom_path
    then custom_path
    else or_empty (find_if fs.exists candidates)

-- `try { general.vt = std::stoi(val); } catch (...) {}`
abbrev pub or_kept : ℤ → Option ℤ → ℤ
or_kept old none = old
or_kept old (some n) = n

unfoldable pub set_general : Text → Text → GeneralConfig → GeneralConfig
set_general key val g =
    if text_eq key (codes "default_session")
    then record g { default_session = val }
    else if text_eq key (codes "remember_last_user")
    then record g { remember_last_user = parse_bool val true }
    else if text_eq key (codes "last_user")
    then record g { last_user = val }
    else if text_eq key (codes "greeter_command")
    then record g { greeter_command = val }
    else if text_eq key (codes "greeter_user")
    then record g { greeter_user = val }
    else if text_eq key (codes "vt")
    then record g { vt = or_kept g.vt (stoi val) }
    else if text_eq key (codes "numlock")
    then record g { numlock = parse_bool val false }
    else g

unfoldable pub set_autologin : Text → Text → AutologinConfig → AutologinConfig
set_autologin key val a =
    if text_eq key (codes "enabled")
    then record a { enabled = parse_bool val false }
    else if text_eq key (codes "user")
    then record a { user = val }
    else if text_eq key (codes "session")
    then record a { session = val }
    else a

-- One setting, by the section in force.
unfoldable pub set_value : Text → Text → Text → Config → Config
unfolding set_general set_autologin
set_value section key val c =
    if text_eq section (codes "General") || is_empty section
    then record c { general = set_general key val c.general }
    else if text_eq section (codes "Autologin")
    then record c { autologin = set_autologin key val c.autologin }
    else c

-- A text without its last byte, if that is `c`.
unfoldable pub strip_last : ℕ → Text → Option Text
strip_last c [] = none
strip_last c (b ∷ []) = if b == c then some [] else none
strip_last c (b ∷ d ∷ s) = elim (strip_last c (d ∷ s)) [ none ↦ none | some t ↦ some (b ∷ t) ]

-- `line.front() == '[' && line.back() == ']'`, and what stands between.
unfoldable pub section_name : Text → Option Text
unfolding strip_last
section_name [] = none
section_name (c ∷ s) = if c == b'[' then strip_last b']' s else none

-- The variables of the loop in `Config::load`.
pub record Loader : Type 0 where
  pub current_section : Text
  pub config : Config

-- The body of the loop behind `line = trim(line)`.
unfoldable pub load_line : Loader → Text → Loader
unfolding section_name
load_line l [] = l
load_line l (c ∷ s) = if c == b'#' || c == b';' then l else elim (section_name (c ∷ s)) [
  | some name ↦ record l { current_section = name }
  | none ↦ elim (split_first b'=' (c ∷ s)) [
    | none ↦ l
    | some (k, v) ↦ record l { config = set_value l.current_section (trim k) (trim v) l.config }
  ]
]

unfoldable pub load_lines : Loader → List Text → Loader
load_lines l [] = l
load_lines l (line ∷ rest) = load_lines (load_line l (trim line)) rest

unfoldable pub load_content : Config → Option Text → Bool × Config
load_content c none = (false, c)
load_content c (some text) =
    (true, (load_lines (record { current_section = []; config = c }) (lines text)).config)

-- `Config::load`.
unfoldable pub load : Config → Text → FileSystem → Bool × Config
load c custom_path fs =
    let path = find_config_file fs custom_path in
    let c' = record c { loaded_path = path } in
    if is_empty path then (false, c') else load_content c' (fs.content path)

unfoldable pub bool_text : Bool → Text
bool_text true = codes "true"
bool_text false = codes "false"

-- `file << "key=" << value << "\n"`, in front of what is written next.
abbrev pub setting : Text → Text → Text → Text
setting key val rest = key ++ b'=' ∷ (val ++ b'\n' ∷ rest)

unfoldable pub general_text : GeneralConfig → Text → Text
unfolding bool_text
general_text g rest = setting (codes "default_session") g.default_session (
    setting (codes "remember_last_user") (bool_text g.remember_last_user) (
      setting (codes "last_user") g.last_user (
        setting (codes "greeter_command") g.greeter_command (
          setting (codes "greeter_user") g.greeter_user (
            setting (codes "vt") (to_text g.vt)
              (setting (codes "numlock") (bool_text g.numlock) rest))))))

unfoldable pub autologin_text : AutologinConfig → Text → Text
unfolding bool_text
autologin_text a rest =
    setting (codes "enabled") (bool_text a.enabled)
      (setting (codes "user") a.user (setting (codes "session") a.session rest))

-- The bytes that `Config::save` writes.
unfoldable pub saved_text : Config → Text
saved_text c =
    codes "[General]\n"
    ++ general_text c.general (codes "\n[Autologin]\n" ++ autologin_text c.autologin [])

unfoldable pub save_path : Config → Text → Text
save_path c custom_path =
    let path = if not (is_empty custom_path) then custom_path else c.loaded_path in
    if is_empty path then codes "/etc/miqudm/miqudm.conf" else path

-- Opening for writing makes the file, and what is written is its content.
unfoldable pub write_file : Text → Text → FileSystem → FileSystem
write_file path text fs = record fs {
  exists = λ p. if text_eq p path then true else fs.exists p;
  content = λ p. if text_eq p path then some text else fs.content p;
}

-- `Config::save`, which does not look at whether what it wrote has arrived.
unfoldable pub save : Config → Text → FileSystem → Bool × FileSystem
save c custom_path fs =
    let path = save_path c custom_path in
    if fs.can_write path
    then (true, write_file path (fs.kept path (saved_text c)) fs)
    else (false, fs)

-- `Config::get().general.last_user = username` of the login handler.
abbrev pub remember : Text → Config → Config
remember username c = record c { general = record c.general { last_user = username } }

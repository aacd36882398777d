-- ===== src/Sessions.antt =====
-- common/session_scanner.hpp: `SessionInfo` and `SessionScanner`. What a directory holds is a
-- parameter: `none` for one that does not exist, or else its entries in the iterator's order.
pub mod Desktop
pub mod Distinct
use miqudm.Prelude.{
  ℕ, Bool, true, false, ◌&&◌, ◌||◌, not, List, [], ◌∷◌, ◌++◌, Option, none, some, Text, codes,
  text_eq, split_first, split_last, lines, is_empty, find_if, if◌then◌else◌, ◌==◌,
}
use miqudm.Config.Trim.{trim}

pub record SessionInfo : Type 0 where
  pub id : Text
  pub name : Text
  pub exec : Text
  pub comment : Text
  pub desktop_names : Text
  pub desktop_file : Text
  pub is_wayland : Bool

-- The member initialisers.
abbrev pub default_session : SessionInfo
default_session = record {
  id = [];
  name = [];
  exec = [];
  comment = [];
  desktop_names = [];
  desktop_file = [];
  is_wayland = true;
}

-- An entry of a directory; `content` is none where the file cannot be opened.
pub record DirEntry : Type 0 where
  pub path : Text
  pub is_regular_file : Bool
  pub content : Option Text

-- `std::filesystem::path::filename`.
unfoldable pub filename : Text → Text
filename path = elim (split_last b'/' path) [ none ↦ path | some (_, name) ↦ name ]

-- `stem` and `extension` of a file name that is not "." or "..": a dot in front begins no extension.
unfoldable pub stem : Text → Text
unfolding filename
stem path = elim (split_last b'.' (filename path)) [
  | none ↦ filename path
  | some (front, _) ↦ if is_empty front then filename path else front
]

unfoldable pub extension : Text → Text
unfolding filename
extension path = elim (split_last b'.' (filename path)) [
  | none ↦ []
  | some (front, back) ↦ if is_empty front then [] else b'.' ∷ back
]

-- The variables of the loop in `parse_desktop_file`.
pub record Parser : Type 0 where
  pub in_desktop_entry : Bool
  pub info : SessionInfo

-- The assignments for one `key=value`.
unfoldable pub set_key : Text → Text → SessionInfo → SessionInfo
set_key key val info =
    if text_eq key (codes "Name") && is_empty info.name
    then record info { name = val }
    else if text_eq key (codes "Exec") && is_empty info.exec
    then record info { exec = val }
    else if text_eq key (codes "Comment") && is_empty info.comment
    then record info { comment = val }
    else if text_eq key (codes "DesktopNames")
    then record info { desktop_names = val }
    else info

unfoldable pub parse_setting : Text → SessionInfo → SessionInfo
unfolding set_key
parse_setting line info = elim (split_first b'=' line) [
  | none ↦ info
  | some (key, val) ↦ set_key key val info
]

-- The body of the loop behind the trimming. A line of blanks only is the empty line here.
unfoldable pub parse_line : Parser → Text → Parser
parse_line p [] = p
parse_line p (c ∷ s) =
    if c == b'#'
    then p
    else if text_eq (c ∷ s) (codes "[Desktop Entry]")
    then record p { in_desktop_entry = true }
    else if c == b'['
    then record p { in_desktop_entry = false }
    else if not p.in_desktop_entry
    then p
    else record p { info = parse_setting (c ∷ s) p.info }

unfoldable pub parse_lines : Parser → List Text → Parser
parse_lines p [] = p
parse_lines p (line ∷ rest) = parse_lines (parse_line p (trim line)) rest

-- The defaults behind the loop.
unfoldable pub fill_names : SessionInfo → SessionInfo
fill_names info =
    let named = if is_empty info.name then record info { name = info.id } else info in
    if is_empty named.desktop_names then record named { desktop_names = named.name } else named

-- `parse_desktop_file`.
unfoldable pub parse_desktop_file : Text → Option Text → Bool → SessionInfo
parse_desktop_file file_path content is_wayland =
    let info = record default_session {
      desktop_file = file_path;
      id = stem file_path;
      is_wayland = is_wayland;
    } in
    elim content [
      | none ↦ info
      | some text ↦
          fill_names
            (parse_lines (record { in_desktop_entry = false; info = info }) (lines text)).info
    ]

-- The predicate of `std::find_if`: the same id or the same name.
unfoldable pub same_session : SessionInfo → SessionInfo → Bool
same_session session s = text_eq s.id session.id || text_eq s.name session.name

unfoldable pub add_session : SessionInfo → List SessionInfo → List SessionInfo
unfolding same_session
add_session session out_sessions =
    if not (is_empty session.name) && not (is_empty session.exec)
    then elim (find_if (same_session session) out_sessions) [
      | none ↦ out_sessions ++ session ∷ []
      | some _ ↦ out_sessions
    ]
    else out_sessions

unfoldable pub scan_entry : Bool → DirEntry → List SessionInfo → List SessionInfo
scan_entry is_wayland entry out_sessions =
    if not entry.is_regular_file
    then out_sessions
    else if not (text_eq (extension entry.path) (codes ".desktop"))
    then out_sessions
    else add_session (parse_desktop_file entry.path entry.content is_wayland) out_sessions

unfoldable pub scan_entries : Bool → List DirEntry → List SessionInfo → List SessionInfo
scan_entries is_wayland [] out_sessions = out_sessions
scan_entries is_wayland (entry ∷ rest) out_sessions =
    scan_entries is_wayland rest (scan_entry is_wayland entry out_sessions)

-- `scan_directory`.
unfoldable pub scan_directory : Option (List DirEntry) → Bool → List SessionInfo → List SessionInfo
scan_directory none is_wayland out_sessions = out_sessions
scan_directory (some entries) is_wayland out_sessions = scan_entries is_wayland entries out_sessions

abbrev pub fallback_session : SessionInfo
fallback_session = record default_session {
  id = codes "miquland";
  name = codes "miquland (Wayland)";
  exec = codes "miquland";
  comment = codes "Default miquland Wayland Compositor";
  desktop_names = codes "miquland";
}

-- `SessionScanner::scan_all`, over what the directories hold.
unfoldable pub scan_all : (Text → Option (List DirEntry)) → List SessionInfo
scan_all dir =
    let first = scan_directory (dir (codes "/usr/share/wayland-sessions")) true [] in
    let sessions = scan_directory (dir (codes "/usr/local/share/wayland-sessions")) true first in
    if is_empty sessions then fallback_session ∷ [] else sessions

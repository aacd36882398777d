-- ===== src/Sessions/Desktop.antt =====
-- `parse_desktop_file` of common/session_scanner.hpp.
use miqudm.Prelude.{
  ℕ, ◌≡◌, refl, ◌∙◌, ap, Bool, true, false, ◌||◌, List, [], ◌∷◌, ◌++◌, some, Text, codes, text_eq,
  is_empty, All, arith, inl, inr, Option-cases, lines, split_first, ◌==◌, has, split_first-append,
  setting-one_line, lines-append,
}
use mathlib.Core.List.{append_assoc}
use miqudm.Config.Trim.{trim, is_blank}
use miqudm.Config.Trim.Laws.{trim_setting}
use miqudm.Sessions.{
  SessionInfo, Parser, set_key, parse_setting, parse_line, parse_lines, fill_names,
  parse_desktop_file, stem, default_session,
}

-- What a key that was read before keeps.
record Keeps (old new : SessionInfo) : Type 0 where
  name : is_empty old.name ≡ false → new.name ≡ old.name
  exec : is_empty old.exec ≡ false → new.exec ≡ old.exec
  comment : is_empty old.comment ≡ false → new.comment ≡ old.comment
  id : new.id ≡ old.id
  desktop_file : new.desktop_file ≡ old.desktop_file
  is_wayland : new.is_wayland ≡ old.is_wayland

set_key-Keeps : (key val : Text) (i : SessionInfo) → Keeps i (set_key key val i)
unfolding set_key
set_key-Keeps key val i = ground arith

parse_setting-Keeps : (line : Text) (i : SessionInfo) → Keeps i (parse_setting line i)
unfolding parse_setting
parse_setting-Keeps line i = elim (Option-cases (split_first b'=' line)) [
  | inl e ↦ rw (e, parse_setting) (ground arith)
  | inr ((key, val), e) ↦ rw (e, parse_setting) (set_key-Keeps key val i)
]

parse_line-Keeps : (p : Parser) (line : Text) → Keeps p.info (parse_line p line).info
unfolding parse_line
parse_line-Keeps p [] = ground arith
parse_line-Keeps p (c ∷ s) = ground (arith, parse_setting-Keeps (c ∷ s) p.info)

-- The first non-empty `Name`, `Exec` and `Comment` of the group count; later ones change nothing.
parse_lines-Keeps : (ls : List Text) (p : Parser) → Keeps p.info (parse_lines p ls).info
unfolding parse_lines
parse_lines-Keeps [] p = ground arith
parse_lines-Keeps (l ∷ ls) p =
    ground (arith, parse_line-Keeps p (trim l), parse_lines-Keeps ls (parse_line p (trim l)))

fill_names-Keeps : (i : SessionInfo) → Keeps i (fill_names i)
unfolding fill_names
fill_names-Keeps i = ground arith

-- Outside the group `[Desktop Entry]` nothing is read.
parse_line-outside :
    (p : Parser) (line : Text)
    → p.in_desktop_entry ≡ false
    → text_eq line (codes "[Desktop Entry]") ≡ false
    → parse_line p line ≡ p
unfolding parse_line
parse_line-outside p [] out e = refl
parse_line-outside p (c ∷ s) out e = ground arith

parse_lines-outside :
    (ls : List Text) (p : Parser)
    → p.in_desktop_entry ≡ false
    → All (λ l. text_eq (trim l) (codes "[Desktop Entry]") ≡ false) ls
    → parse_lines p ls ≡ p
unfolding parse_lines
parse_lines-outside [] p out a = refl
parse_lines-outside (l ∷ ls) p out a =
    ap (λ q. parse_lines q ls) (parse_line-outside p (trim l) out a.0)
    ∙ parse_lines-outside ls p out a.1

parse_line-setting :
    (p : Parser) (first : ℕ) (more val : Text)
    → p.in_desktop_entry ≡ true
    → (first == b'#' || first == b'[') ≡ false
    → has b'=' (first ∷ more) ≡ false
    → parse_line p (first ∷ (more ++ b'=' ∷ val))
      ≡ record p { info = set_key (first ∷ more) val p.info }
unfolding parse_line parse_setting text_eq
parse_line-setting p first more val inside mark no_eq =
    ground (arith, split_first-append b'=' (first ∷ more) val no_eq)

-- A text that stands on one line, and begins and ends with no blank.
abbrev pub IsLine : Text → Type 0
IsLine v = (trim v ≡ v) × (has b'\n' v ≡ false) × (is_empty v ≡ false)

abbrev pub line_of : Text → Text → Text → Text
line_of key val rest = key ++ b'=' ∷ (val ++ b'\n' ∷ rest)

parse_lines-setting :
    (p : Parser) (first : ℕ) (more val rest : Text)
    → p.in_desktop_entry ≡ true
    → (first == b'#' || first == b'[') ≡ false
    → is_blank first ≡ false
    → has b'=' (first ∷ more) ≡ false
    → has b'\n' (first ∷ more) ≡ false
    → IsLine val
    → parse_lines p (lines (line_of (first ∷ more) val rest))
      ≡ parse_lines (record p { info = set_key (first ∷ more) val p.info }) (lines rest)
unfolding parse_lines
parse_lines-setting p first more val rest inside mark solid no_eq one_line v =
    let line : Text = first ∷ (more ++ b'=' ∷ val) in
    let split : lines (line_of (first ∷ more) val rest) ≡ line ∷ lines rest =
      rw (← append_assoc more (b'=' ∷ val) (b'\n' ∷ rest))
        (lines-append line rest (setting-one_line (first ∷ more) val one_line v.1)) in
    ap (parse_lines p) split
    ∙ ap (λ t. parse_lines (parse_line p t) (lines rest))
        (trim_setting (first ∷ more) val solid v.0)
    ∙ ap (λ q. parse_lines q (lines rest)) (parse_line-setting p first more val inside mark no_eq)

parse_lines-header :
    (p : Parser) (rest : Text)
    → parse_lines p (lines (codes "[Desktop Entry]\n" ++ rest))
      ≡ parse_lines (record p { in_desktop_entry = true }) (lines rest)
unfolding parse_lines parse_line trim text_eq has
parse_lines-header p rest = ap (parse_lines p) (lines-append (codes "[Desktop Entry]") rest refl)

-- The lines of a file that begins with its group, a name and a command.
abbrev pub first_lines : Text → Text → Text → Text
first_lines name exec rest =
    codes "[Desktop Entry]\n" ++ line_of (codes "Name") name (line_of (codes "Exec") exec rest)

parse_first_lines :
    (info : SessionInfo) (name exec rest : Text)
    → info.name ≡ []
    → info.exec ≡ []
    → IsLine name
    → IsLine exec
    → parse_lines
        (record { in_desktop_entry = false; info = info })
        (lines (first_lines name exec rest))
      ≡ parse_lines
          (record { in_desktop_entry = true; info = record info { name = name; exec = exec } })
          (lines rest)
unfolding has is_blank set_key text_eq
parse_first_lines info name exec rest no_name no_exec n x =
    parse_lines-header _ _
    ∙ parse_lines-setting _ b'N' (codes "ame") name _ refl refl refl refl refl n
    ∙ parse_lines-setting _ b'E' (codes "xec") exec rest refl refl refl refl refl x
    ∙ rw (no_name, no_exec)

-- A readable file whose group begins with a name and a command has that name and that command, and
-- the id of its file name, whatever follows them: later keys and groups change none of the three.
pub parse_desktop_file_first :
    (path name exec rest : Text) (is_wayland : Bool)
    → IsLine name
    → IsLine exec
    → let info = parse_desktop_file path (some (first_lines name exec rest)) is_wayland in
      (info.name ≡ name) × (info.exec ≡ exec) × (info.id ≡ stem path)
unfolding parse_desktop_file
parse_desktop_file_first path name exec rest is_wayland n x =
    let begun = record default_session {
      id = stem path;
      desktop_file = path;
      is_wayland = is_wayland;
    } in
    let named : Parser = record {
      in_desktop_entry = true;
      info = record begun { name = name; exec = exec };
    } in
    let kept = parse_lines-Keeps (lines rest) named in
    let filled = fill_names-Keeps (parse_lines named (lines rest)).info in
    rw (parse_first_lines begun name exec rest refl refl n x) (ground (arith, kept, filled))

-- ===== src/Sessions/Distinct.antt =====
-- The list that `SessionScanner::scan_all` of common/session_scanner.hpp returns.
use miqudm.Prelude.{
  ◌≡◌, ◌≢◌, Bool, true, false, List, [], ◌∷◌, ◌++◌, Option, none, some, Text, codes, text_eq_iff,
  is_empty, find_if, All, All-append, arith,
}
use miqudm.Sessions.{
  SessionInfo, DirEntry, same_session, add_session, scan_entry, scan_entries, scan_directory,
  scan_all, parse_desktop_file,
}

-- A session that can be shown and started.
abbrev IsUsable : SessionInfo → Type 0
IsUsable s = (is_empty s.name ≡ false) × (is_empty s.exec ≡ false)

-- Two sessions with another id and another name.
abbrev pub IsApart : SessionInfo → SessionInfo → Type 0
IsApart s r = (s.id ≢ r.id) × (s.name ≢ r.name)

-- Every session is usable, and apart from all behind it.
abbrev pub IsMenu : List SessionInfo → Type 0
IsMenu [] = Unit
IsMenu (s ∷ ss) = IsUsable s × All (IsApart s) ss × IsMenu ss

not_found-IsApart :
    (s : SessionInfo) (ss : List SessionInfo)
    → find_if (same_session s) ss ≡ none
    → All (λ r. IsApart r s) ss
unfolding find_if same_session
not_found-IsApart s [] e = tt
not_found-IsApart s (r ∷ ss) e =
    ground (arith, not_found-IsApart s ss, text_eq_iff r.id s.id, text_eq_iff r.name s.name)

IsMenu-append :
    (ss : List SessionInfo) (s : SessionInfo)
    → IsMenu ss
    → IsUsable s
    → All (λ r. IsApart r s) ss
    → IsMenu (ss ++ s ∷ [])
IsMenu-append [] s m u a = (u, tt, tt)
IsMenu-append (r ∷ ss) s m u a =
    (m.0, All-append (IsApart r) ss (s ∷ []) m.1 (a.0, tt), IsMenu-append ss s m.2 u a.1)

add_session-IsMenu :
    (s : SessionInfo) (ss : List SessionInfo) → IsMenu ss → IsMenu (add_session s ss)
unfolding add_session
add_session-IsMenu s ss m = ground (arith, IsMenu-append ss s, not_found-IsApart s ss)

scan_entry-IsMenu :
    (w : Bool) (e : DirEntry) (ss : List SessionInfo) → IsMenu ss → IsMenu (scan_entry w e ss)
unfolding scan_entry
scan_entry-IsMenu w e ss m =
    ground (arith, add_session-IsMenu (parse_desktop_file e.path e.content w) ss m)

scan_entries-IsMenu :
    (w : Bool) (es : List DirEntry) (ss : List SessionInfo)
    → IsMenu ss
    → IsMenu (scan_entries w es ss)
unfolding scan_entries
scan_entries-IsMenu w [] ss m = m
scan_entries-IsMenu w (e ∷ es) ss m = scan_entries-IsMenu w es _ (scan_entry-IsMenu w e ss m)

scan_directory-IsMenu :
    (d : Option (List DirEntry)) (w : Bool) (ss : List SessionInfo)
    → IsMenu ss
    → IsMenu (scan_directory d w ss)
unfolding scan_directory
scan_directory-IsMenu none w ss m = m
scan_directory-IsMenu (some es) w ss m = scan_entries-IsMenu w es ss m

-- The menu is never empty, every session in it has a name and a command, and no two have the same
-- id or the same name, whatever the directories hold.
pub scan_all-IsMenu :
    (dir : Text → Option (List DirEntry))
    → IsMenu (scan_all dir) × (is_empty (scan_all dir) ≡ false)
unfolding scan_all
scan_all-IsMenu dir =
    let first = scan_directory-IsMenu (dir (codes "/usr/share/wayland-sessions")) true [] tt in
    let both =
      scan_directory-IsMenu (dir (codes "/usr/local/share/wayland-sessions")) true _ first in
    ground arith

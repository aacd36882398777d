-- ===== src/Config/Trim.antt =====
-- `trim` of common/config.cpp (session_scanner.hpp repeats it in `parse_desktop_file`).
pub mod Laws
use miqudm.Prelude.{ℕ, Bool, ◌&&◌, ◌||◌, [], ◌∷◌, ◌==◌, if◌then◌else◌, is_empty, Text}

-- The set " \t\r\n".
unfoldable pub is_blank : ℕ → Bool
is_blank c = c == b' ' || c == b'\t' || c == b'\r' || c == b'\n'

-- From `find_first_not_of` on; nothing where it finds no byte.
unfoldable pub trim_start : Text → Text
unfolding is_blank
trim_start [] = []
trim_start (c ∷ s) = let rest = trim_start s in if is_blank c then rest else c ∷ s

-- Up to `find_last_not_of`.
unfoldable pub trim_end : Text → Text
unfolding is_blank
trim_end [] = []
trim_end (c ∷ s) = let rest = trim_end s in if is_blank c && is_empty rest then [] else c ∷ rest

unfoldable pub trim : Text → Text
unfolding trim_start trim_end
trim s = trim_end (trim_start s)

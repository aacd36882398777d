-- ===== src/Config/Restart.antt =====
-- A restart of the daemon after it remembered a user, common/config.cpp and daemon/daemon.cpp.
use miqudm.Prelude.{
  Bool, true, false, List, [], ◌∷◌, Option, none, some, ◌≡◌, refl, sym, ◌∙◌, inl, inr, arith,
  if◌then◌else◌, Option-cases, Text, text_eq, text_eq_iff, split_first, lines, is_empty, find_if,
}
use miqudm.Config.Trim.{trim}
use miqudm.Config.Values.{IsValue, IsClean, load-IsClean}
use miqudm.Config.{
  Config, FileSystem, Loader, set_value, load_line, load_lines, load_content, load,
  find_config_file, save, save_path, saved_text, write_file, or_empty, remember, candidates,
}
use miqudm.Config.RoundTrip.{IsStored, load-save}

-- A file that is made to exist and was the first found is the first found.
find_if-written :
    (exists : Text → Bool) (ps : List Text) (path : Text)
    → or_empty (find_if exists ps) ≡ path
    → is_empty path ≡ false
    → or_empty (find_if (λ p. if text_eq p path then true else exists p) ps) ≡ path
unfolding find_if
find_if-written exists [] path e full = ground arith
find_if-written exists (p ∷ ps) path e full =
    ground (arith, find_if-written exists ps path, text_eq_iff p path)

set_value-loaded_path :
    (section key val : Text) (c : Config)
    → (set_value section key val c).loaded_path ≡ c.loaded_path
unfolding set_value
set_value-loaded_path section key val c = ground arith

load_line-loaded_path :
    (l : Loader) (line : Text) → (load_line l line).config.loaded_path ≡ l.config.loaded_path
unfolding load_line
load_line-loaded_path l [] = refl
load_line-loaded_path l (c ∷ s) = elim (Option-cases (split_first b'=' (c ∷ s))) [
  | inl none_left ↦ ground arith
  | inr ((key, val), found) ↦
      ground (arith, set_value-loaded_path l.current_section (trim key) (trim val) l.config)
]

load_lines-loaded_path :
    (l : Loader) (ls : List Text) → (load_lines l ls).config.loaded_path ≡ l.config.loaded_path
unfolding load_lines
load_lines-loaded_path l [] = refl
load_lines-loaded_path l (t ∷ ts) =
    load_lines-loaded_path (load_line l (trim t)) ts ∙ load_line-loaded_path l (trim t)

load_content-loaded_path :
    (c : Config) (o : Option Text) → (load_content c o).1.loaded_path ≡ c.loaded_path
unfolding load_content
load_content-loaded_path c none = refl
load_content-loaded_path c (some text) = load_lines-loaded_path _ (lines text)

load-true :
    (c c' : Config) (custom_path : Text) (fs : FileSystem)
    → load c custom_path fs ≡ (true, c')
    → (is_empty (find_config_file fs custom_path) ≡ false)
      × (c'.loaded_path ≡ find_config_file fs custom_path)
unfolding load
load-true c c' custom_path fs e = ground (
  arith,
  load_content-loaded_path (record c { loaded_path = find_config_file fs custom_path })
      (fs.content (find_config_file fs custom_path)),
)

remember-IsClean :
    (c c1 : Config) (fs : FileSystem) (username : Text)
    → IsClean c
    → IsValue username
    → load c [] fs ≡ (true, c1)
    → IsClean (remember username c1)
remember-IsClean c c1 fs username h v loaded =
    let clean : IsClean c1 = rw loaded at (load-IsClean c [] fs h) in ground arith

save_path-loaded : (c : Config) → is_empty c.loaded_path ≡ false → save_path c [] ≡ c.loaded_path
unfolding save_path
save_path-loaded c full = ground arith

save-eq-write_file :
    (c : Config) (custom_path : Text) (fs fs' : FileSystem)
    → save c custom_path fs ≡ (true, fs')
    → fs'
      ≡ write_file (save_path c custom_path) (fs.kept (save_path c custom_path) (saved_text c)) fs
unfolding save
save-eq-write_file c custom_path fs fs' e = ground arith

find-write_file :
    (path text : Text) (fs : FileSystem)
    → find_config_file fs [] ≡ path
    → is_empty path ≡ false
    → find_config_file (write_file path text fs) [] ≡ path
unfolding find_config_file write_file
find-write_file path text fs found full = find_if-written fs.exists candidates path found full

-- After a save to the file that was found, the same file is found.
find-saved :
    (c : Config) (fs fs' : FileSystem)
    → is_empty c.loaded_path ≡ false
    → find_config_file fs [] ≡ c.loaded_path
    → save c [] fs ≡ (true, fs')
    → find_config_file fs' [] ≡ c.loaded_path
find-saved c fs fs' full path saved =
    rw (save-eq-write_file c [] fs fs' saved, save_path-loaded c full)
      (find-write_file c.loaded_path (fs.kept c.loaded_path (saved_text c)) fs path full)

-- The daemon's own use: it loads the first file that exists, remembers a user and saves, both succeed,
-- and no write of the save fails. After a restart it finds the same file, and has the settings with
-- that user, if the settings were clean before the load and the name is a trimmed one-line text.
pub load-remember :
    (c c1 c' : Config) (fs fs' : FileSystem) (username : Text)
    → IsClean c
    → IsValue username
    → load c [] fs ≡ (true, c1)
    → IsStored (remember username c1) [] fs
    → save (remember username c1) [] fs ≡ (true, fs')
    → load c' [] fs' ≡ (true, remember username c1)
load-remember c c1 c' fs fs' username h v loaded stored saved =
    let remembered = remember username c1 in
    let (full, path) = load-true c c1 [] fs loaded in
    let full' : is_empty c1.loaded_path ≡ false = rw path full in
    let kept = save_path-loaded remembered full' in
    rw kept at (
      load-save remembered c' [] [] fs fs' (remember-IsClean c c1 fs username h v loaded) stored
        saved (find-saved remembered fs fs' full' (sym path) saved ∙ sym kept))

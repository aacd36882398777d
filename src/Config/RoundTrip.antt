-- ===== src/Config/RoundTrip.antt =====
-- `Config::load` behind `Config::save`, common/config.cpp.
use mathlib.Core.List.{append_assoc}
use miqudm.Prelude.{
  ℕ, ◌+◌, Bool, true, false, ◌&&◌, ◌||◌, not, [], ◌∷◌, ◌++◌, some, ◌≡◌, refl, ◌∙◌, ap, arith, ◌==◌,
  Text, codes, text_eq, text_eq_iff, text_eq_refl, has, split_first-append, setting-one_line, lines,
  lines-append, ℤ, pos, negsuc, All, is_empty,
}
use miqudm.Prelude.Decimal.{IsDigits, digits-IsDigits, stoi-to_text, to_text, has-to_text, is_digit}
use miqudm.Config.Trim.{trim, is_blank}
use miqudm.Config.Trim.Laws.{trim_setting, trim_solid}
use miqudm.Config.Values.{IsValue, GeneralIsClean, AutologinIsClean, IsClean}
use miqudm.Config.{
  GeneralConfig, AutologinConfig, Config, FileSystem, Loader, set_value, load_line, load_lines,
  load_content, load, parse_bool, find_config_file, save, save_path, saved_text, write_file,
  setting, general_text, autologin_text, bool_text,
}

-- A key that a line can begin with: no comment mark, no section mark, no `=` and no newline.
is_key : Text → Bool
is_key [] = false
is_key (c ∷ s) =
    not (is_blank c)
    && not (c == b'#' || c == b';' || c == b'[')
    && not (has b'\n' (c ∷ s))
    && not (has b'=' (c ∷ s))
    && text_eq (trim (c ∷ s)) (c ∷ s)

record IsKey (first : ℕ) (more : Text) : Type 0 where
  starts : is_blank first ≡ false
  not_comment : (first == b'#' || first == b';') ≡ false
  not_section : (first == b'[') ≡ false
  one_line : has b'\n' (first ∷ more) ≡ false
  no_eq : has b'=' (first ∷ more) ≡ false
  trimmed : trim (first ∷ more) ≡ first ∷ more

is_key-IsKey : (c : ℕ) (s : Text) → is_key (c ∷ s) ≡ true → IsKey c s
unfolding is_key
is_key-IsKey c s h = ground (arith, text_eq_iff (trim (c ∷ s)) (c ∷ s))

load_line-setting :
    (l : Loader) (first : ℕ) (more val : Text)
    → IsKey first more
    → IsValue val
    → load_line l (first ∷ (more ++ b'=' ∷ val))
      ≡ record l { config = set_value l.current_section (first ∷ more) val l.config }
unfolding load_line
load_line-setting l first more val k v =
    ground (arith, split_first-append b'=' (first ∷ more) val k.no_eq, k.trimmed, v.trimmed)

-- The loop takes one written setting as that setting, under the section in force.
load_lines-setting :
    (l : Loader) (first : ℕ) (more val rest : Text)
    → IsKey first more
    → IsValue val
    → load_lines l (lines (setting (first ∷ more) val rest))
      ≡ load_lines
          (record l { config = set_value l.current_section (first ∷ more) val l.config })
          (lines rest)
unfolding load_lines
load_lines-setting l first more val rest k v =
    let line : Text = first ∷ (more ++ b'=' ∷ val) in
    let split : lines (setting (first ∷ more) val rest) ≡ line ∷ lines rest =
      rw (← append_assoc more (b'=' ∷ val) (b'\n' ∷ rest))
        (lines-append line rest (setting-one_line (first ∷ more) val k.one_line v.one_line)) in
    ap (load_lines l) split
    ∙ ap (λ t. load_lines (load_line l t) (lines rest))
        (trim_setting (first ∷ more) val k.starts v.trimmed)
    ∙ ap (λ m. load_lines m (lines rest)) (load_line-setting l first more val k v)

-- A header line of the two that `save` writes, and the empty line.
load_lines-header :
    (l : Loader) (header name rest : Text)
    → has b'\n' header ≡ false
    → load_line l (trim header) ≡ record l { current_section = name }
    → load_lines l (lines (header ++ b'\n' ∷ rest))
      ≡ load_lines (record l { current_section = name }) (lines rest)
unfolding load_lines
load_lines-header l header name rest h e =
    ap (load_lines l) (lines-append header rest h) ∙ ap (λ m. load_lines m (lines rest)) e

load_lines-blank :
    (l : Loader) (rest : Text) → load_lines l (lines (b'\n' ∷ rest)) ≡ load_lines l (lines rest)
unfolding load_lines lines load_line trim
load_lines-blank l rest = refl

bool_text-IsValue : (b : Bool) → IsValue (bool_text b)
unfolding bool_text trim has
bool_text-IsValue true = record { trimmed = refl; one_line = refl }
bool_text-IsValue false = record { trimmed = refl; one_line = refl }

parse_bool-bool_text : (b d : Bool) → parse_bool (bool_text b) d ≡ b
unfolding parse_bool bool_text text_eq
parse_bool-bool_text true d = refl
parse_bool-bool_text false d = refl

load_lines-key :
    (section key val rest : Text) (c : Config)
    → is_key key ≡ true
    → IsValue val
    → load_lines (record { current_section = section; config = c }) (lines (setting key val rest))
      ≡ load_lines
          (record { current_section = section; config = set_value section key val c })
          (lines rest)
unfolding is_key
load_lines-key section [] val rest c k v = cc
load_lines-key section (first ∷ more) val rest c k v =
    load_lines-setting (record { current_section = section; config = c }) first more val rest
      (is_key-IsKey first more k) v

IsDigits-solid : (s : Text) → IsDigits s → All (λ c. is_blank c ≡ false) s
unfolding is_digit is_blank
IsDigits-solid [] d = tt
IsDigits-solid (c ∷ s) d = (ground arith, IsDigits-solid s d.1)

to_text-solid : (n : ℤ) → All (λ c. is_blank c ≡ false) (to_text n)
unfolding to_text is_blank
to_text-solid (pos n) = IsDigits-solid _ (digits-IsDigits 10 n)
to_text-solid (negsuc n) = (refl, IsDigits-solid _ (digits-IsDigits 10 (n + 1)))

to_text-IsValue : (n : ℤ) → IsValue (to_text n)
unfolding is_digit
to_text-IsValue n = record {
  trimmed = trim_solid (to_text n) (to_text-solid n);
  one_line = has-to_text b'\n' n refl (λ e. omega arith);
}

abbrev general : Text
general = codes "General"

abbrev autologin : Text
autologin = codes "Autologin"

-- The settings of `[General]`, read back.
load_lines-general_text :
    (c : Config) (g : GeneralConfig) (rest : Text)
    → GeneralIsClean g
    → load_lines
        (record { current_section = codes "General"; config = c })
        (lines (general_text g rest))
      ≡ load_lines
          (record { current_section = codes "General"; config = record c { general = g } })
          (lines rest)
unfolding general_text is_key trim has text_eq set_value
load_lines-general_text c g rest h =
    load_lines-key general (codes "default_session") g.default_session _ c refl h.default_session
    ∙ load_lines-key general (codes "remember_last_user") _ _ _ refl
        (bool_text-IsValue g.remember_last_user)
    ∙ load_lines-key general (codes "last_user") _ _ _ refl h.last_user
    ∙ load_lines-key general (codes "greeter_command") _ _ _ refl h.greeter_command
    ∙ load_lines-key general (codes "greeter_user") _ _ _ refl h.greeter_user
    ∙ load_lines-key general (codes "vt") _ _ _ refl (to_text-IsValue g.vt)
    ∙ load_lines-key general (codes "numlock") _ _ _ refl (bool_text-IsValue g.numlock)
    ∙ rw (parse_bool-bool_text, stoi-to_text, h.vt, parse_bool-bool_text)

-- The settings of `[Autologin]`, read back.
load_lines-autologin_text :
    (c : Config) (a : AutologinConfig) (rest : Text)
    → AutologinIsClean a
    → load_lines
        (record { current_section = autologin; config = c })
        (lines (autologin_text a rest))
      ≡ load_lines
          (record { current_section = autologin; config = record c { autologin = a } })
          (lines rest)
unfolding autologin_text is_key trim has text_eq set_value
load_lines-autologin_text c a rest h =
    load_lines-key autologin (codes "enabled") _ _ c refl (bool_text-IsValue a.enabled)
    ∙ load_lines-key autologin (codes "user") a.user _ _ refl h.user
    ∙ load_lines-key autologin (codes "session") a.session _ _ refl h.session
    ∙ rw parse_bool-bool_text

load_lines-nil : (l : Loader) → load_lines l (lines []) ≡ l
unfolding load_lines lines
load_lines-nil l = refl

-- Reading what `Config::save` writes of clean settings gives them back, whatever was set before.
load_lines-saved_text :
    (c c' : Config)
    → IsClean c
    → (load_lines (record { current_section = []; config = c' }) (lines (saved_text c))).config
      ≡ record c { loaded_path = c'.loaded_path }
unfolding saved_text trim has load_line
load_lines-saved_text c c' h =
    ap (λ l. l.config)
      (load_lines-header (record { current_section = []; config = c' }) (codes "[General]") general
          _ refl refl
        ∙ load_lines-general_text c' c.general _ h.general
        ∙ load_lines-blank _ _
        ∙ load_lines-header _ (codes "[Autologin]") autologin _ refl refl
        ∙ load_lines-autologin_text _ c.autologin [] h.autologin
        ∙ load_lines-nil _)

pub save_path-is_empty :
    (c : Config) (custom_path : Text) → is_empty (save_path c custom_path) ≡ false
unfolding save_path
save_path-is_empty c custom_path = ground arith

-- No write of a save fails.
abbrev pub IsStored : Config → Text → FileSystem → Type 0
IsStored c custom_path fs = fs.kept (save_path c custom_path) (saved_text c) ≡ saved_text c

save-written :
    (c : Config) (custom_path : Text) (fs fs' : FileSystem)
    → IsStored c custom_path fs
    → save c custom_path fs ≡ (true, fs')
    → fs'.content (save_path c custom_path) ≡ some (saved_text c)
unfolding save write_file
save-written c custom_path fs fs' stored e = ground (arith, text_eq_refl (save_path c custom_path))

load_content-saved_text :
    (c c' : Config)
    → IsClean c
    → load_content c' (some (saved_text c)) ≡ (true, record c { loaded_path = c'.loaded_path })
unfolding load_content
load_content-saved_text c c' h = rw (load_lines-saved_text c c' h)

load_found :
    (c : Config) (custom_path path text : Text) (fs : FileSystem)
    → find_config_file fs custom_path ≡ path
    → is_empty path ≡ false
    → fs.content path ≡ some text
    → load c custom_path fs ≡ load_content (record c { loaded_path = path }) (some text)
unfolding load
load_found c custom_path path text fs found full readable = rw (found, full, readable)

-- After `save` succeeded and none of its writes failed, a `load` that finds the file that was written
-- succeeds and gives the saved settings back, whatever the settings were before, if those saved were
-- clean.
pub load-save :
    (c c' : Config) (custom_path again : Text) (fs fs' : FileSystem)
    → IsClean c
    → IsStored c custom_path fs
    → save c custom_path fs ≡ (true, fs')
    → find_config_file fs' again ≡ save_path c custom_path
    → load c' again fs' ≡ (true, record c { loaded_path = save_path c custom_path })
load-save c c' custom_path again fs fs' h stored saved found =
    load_found c' again (save_path c custom_path) (saved_text c) fs' found
      (save_path-is_empty c custom_path) (save-written c custom_path fs fs' stored saved)
    ∙ load_content-saved_text c (record c' { loaded_path = save_path c custom_path }) h

-- ===== src/Config/Values.antt =====
-- The values that common/config.cpp keeps: trimmed one-line texts, and an `int` for the terminal.
use miqudm.Prelude.{
  ℕ, false, List, [], ◌∷◌, Option, none, some, ◌≡◌, refl, inl, inr, arith, ◌==◌, Bool-cases,
  Option-cases, Text, has, split_first, lines, cons_head, ℤ, IsInt, All,
}
use miqudm.Prelude.Decimal.{stoi, stoi-IsInt}
use miqudm.Config.Trim.{trim}
use miqudm.Config.Trim.Laws.{trim_idem, has-trim}
use miqudm.Config.{
  GeneralConfig, AutologinConfig, Config, FileSystem, Loader, set_value, or_kept, load_line,
  load_lines, load_content, load, find_config_file,
}

-- A value that a line of the file can carry.
pub record IsValue (v : Text) : Type 0 where
  pub trimmed : trim v ≡ v
  pub one_line : has b'\n' v ≡ false

-- Every field of the two groups can be written and read back.
pub record GeneralIsClean (g : GeneralConfig) : Type 0 where
  pub default_session : IsValue g.default_session
  pub last_user : IsValue g.last_user
  pub greeter_command : IsValue g.greeter_command
  pub greeter_user : IsValue g.greeter_user
  pub vt : IsInt g.vt

pub record AutologinIsClean (a : AutologinConfig) : Type 0 where
  pub user : IsValue a.user
  pub session : IsValue a.session

pub record IsClean (c : Config) : Type 0 where
  pub general : GeneralIsClean c.general
  pub autologin : AutologinIsClean c.autologin

or_kept-IsInt : (n : ℤ) (s : Text) → IsInt n → IsInt (or_kept n (stoi s))
or_kept-IsInt n s h = elim (Option-cases (stoi s)) [
  | inl e ↦ rw e h
  | inr (m, e) ↦ rw e (stoi-IsInt s e)
]

set_value-IsClean :
    (section key val : Text) (c : Config)
    → IsValue val
    → IsClean c
    → IsClean (set_value section key val c)
unfolding set_value
set_value-IsClean section key val c v h =
    ground (arith, or_kept-IsInt c.general.vt val h.general.vt)

split_first-has :
    (d c : ℕ) (s : Text) {k v : Text}
    → split_first c s ≡ some (k, v)
    → has d s ≡ false
    → (has d k ≡ false) × (has d v ≡ false)
unfolding split_first has
split_first-has d c [] e h = cc
split_first-has d c (b ∷ s) {k} {v} e h = elim (Option-cases (split_first c s)) [
  | inl none_left ↦ ground arith
  | inr ((k', v'), found) ↦ ground (arith, split_first-has d c s found)
]

trim-IsValue : (s : Text) → has b'\n' s ≡ false → IsValue (trim s)
trim-IsValue s h = record { trimmed = trim_idem s; one_line = has-trim b'\n' s h }

load_line-IsClean :
    (l : Loader) (line : Text)
    → has b'\n' line ≡ false
    → IsClean l.config
    → IsClean (load_line l line).config
unfolding load_line
load_line-IsClean l [] h k = k
load_line-IsClean l (c ∷ s) h k = elim (Option-cases (split_first b'=' (c ∷ s))) [
  | inl none_left ↦ ground arith
  | inr ((key, val), found) ↦
      let value = trim-IsValue val (split_first-has b'\n' b'=' (c ∷ s) found h).1 in
      ground (arith, set_value-IsClean l.current_section (trim key) (trim val) l.config value k)
]

cons_head-one_line :
    (b : ℕ) (ls : List Text)
    → (b == b'\n') ≡ false
    → All (λ l. has b'\n' l ≡ false) ls
    → All (λ l. has b'\n' l ≡ false) (cons_head b ls)
unfolding has
cons_head-one_line b [] h a = (ground arith, tt)
cons_head-one_line b (l ∷ ls) h a = (ground arith, a.1)

lines-one_line : (s : Text) → All (λ l. has b'\n' l ≡ false) (lines s)
unfolding lines has
lines-one_line [] = tt
lines-one_line (b ∷ s) = elim (Bool-cases (b == b'\n')) [
  | inl newline ↦ rw newline (refl, lines-one_line s)
  | inr other ↦ rw other (cons_head-one_line b (lines s) other (lines-one_line s))
]

load_lines-IsClean :
    (l : Loader) (ls : List Text)
    → All (λ t. has b'\n' t ≡ false) ls
    → IsClean l.config
    → IsClean (load_lines l ls).config
unfolding load_lines
load_lines-IsClean l [] a k = k
load_lines-IsClean l (t ∷ ts) a k =
    load_lines-IsClean (load_line l (trim t)) ts a.1
      (load_line-IsClean l (trim t) (has-trim b'\n' t a.0) k)

load_content-IsClean : (c : Config) (o : Option Text) → IsClean c → IsClean (load_content c o).1
unfolding load_content
load_content-IsClean c none h = h
load_content-IsClean c (some text) h =
    load_lines-IsClean (record { current_section = []; config = c }) (lines text)
      (lines-one_line text) h

-- Whatever the file holds, `Config::load` keeps clean settings clean: the texts it stores are
-- trimmed and hold no newline, and the terminal number stays in the range of `int`.
pub load-IsClean :
    (c : Config) (custom_path : Text) (fs : FileSystem)
    → IsClean c
    → IsClean (load c custom_path fs).1
unfolding load
load-IsClean c custom_path fs h = ground (
  arith,
  load_content-IsClean (record c { loaded_path = find_config_file fs custom_path })
      (fs.content (find_config_file fs custom_path))
      (record { general = h.general; autologin = h.autologin }),
)

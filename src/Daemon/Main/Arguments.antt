-- ===== src/Daemon/Main/Arguments.antt =====
-- What the arguments of daemon/main.cpp do.
use miqudm.Prelude.{
  ◌≡◌, refl, Bool, true, false, ◌||◌, List, [], ◌∷◌, Text, ℕ, arith, if◌then◌else◌,
}
use miqudm.Os.{Os, Trace}
use miqudm.Ipc.Library.{Json}
use miqudm.Daemon.Main.{
  Options, usage, version, serve, is_option, parse_options, exits_with, run_options, main,
}

-- The arguments less the paths: what follows -c or --config is one.
unfoldable pub flags : List Text → List Text
flags [] = []
flags (arg ∷ []) = arg ∷ []
flags (arg ∷ next ∷ rest) =
    let skipped = flags (next ∷ rest) in
    let taken = flags rest in arg ∷ (if is_option "-c" "--config" arg then taken else skipped)

-- One of them asks for the usage text or the version.
unfoldable pub asks : List Text → Bool
asks [] = false
asks (arg ∷ args) = is_option "-h" "--help" arg || is_option "-v" "--version" arg || asks args

abbrev IsParsed : Bool → Options → Type 0
IsParsed true usage = Unit
IsParsed true version = Unit
IsParsed false (serve path) = Unit
IsParsed _ _ = ⊥

option-IsParsed :
    (help shows takes : Bool) (taken skipped : List Text) (o o' : Options)
    → IsParsed (asks taken) o
    → IsParsed (asks skipped) o'
    → IsParsed
        (help || shows || asks (if takes then taken else skipped))
        (if help then usage else if shows then version else if takes then o else o')
option-IsParsed true shows takes taken skipped o o' p q = tt
option-IsParsed false true takes taken skipped o o' p q = tt
option-IsParsed false false true taken skipped o o' p q = p
option-IsParsed false false false taken skipped o o' p q = q

parse_options-IsParsed :
    (path : Text) (args : List Text) → IsParsed (asks (flags args)) (parse_options path args)
unfolding parse_options flags asks
parse_options-IsParsed path [] = tt
parse_options-IsParsed path (arg ∷ []) = ground arith
parse_options-IsParsed path (arg ∷ next ∷ rest) =
    option-IsParsed (is_option "-h" "--help" arg) (is_option "-v" "--version" arg)
      (is_option "-c" "--config" arg) (flags rest) (flags (next ∷ rest)) (parse_options next rest)
      (parse_options path (next ∷ rest)) (parse_options-IsParsed next rest)
      (parse_options-IsParsed path (next ∷ rest))

module _ (os : Os) (j : Json) (n : ℕ) (t : Trace) where
  run_options-parsed :
      (b : Bool) (o : Options)
      → IsParsed b o
      → run_options os j n o t ≡ (if b then (exits_with 0, t) else main os j n [] t)
  unfolding run_options main parse_options
  run_options-parsed true usage p = refl
  run_options-parsed true version p = refl
  run_options-parsed true (serve path) p = absurd p
  run_options-parsed false usage p = absurd p
  run_options-parsed false version p = absurd p
  run_options-parsed false (serve path) p = refl

  -- With -h, --help, -v or --version among the arguments, paths aside, the process exits with code 0
  -- and makes no call; with any other arguments it does what it does without any. So no path, given
  -- after -c or --config, chooses another configuration file.
  pub main-flags :
      (args : List Text)
      → main os j n args t ≡ (if asks (flags args) then (exits_with 0, t) else main os j n [] t)
  unfolding main
  main-flags args = run_options-parsed (asks (flags args)) _ (parse_options-IsParsed [] args)

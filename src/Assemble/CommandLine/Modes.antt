-- ===== src/Assemble/CommandLine/Modes.antt =====
-- src/main.rs: the command lines that the program's usage names are read as what they say.
use docsis_config_generator.Common.{
  ℕ, ◌+◌, ◌≤◌, ◌⊎◌, inl, inr, ◌≡◌, ◌≢◌, refl, ◌∙◌, true, false, some, List, [], ◌∷◌, ◌++◌, Bytes,
  ok, arith,
}
use docsis_config_generator.Text.{ascii, bytes_eq}
use docsis_config_generator.Assemble.CommandLine.{
  Modifiers, Arguments, no_arguments, no_modifiers, read_args, read_flag, flag_of, set_hash,
  read_encode, read_decode, read_mta, read_files, asks_version, arguments_of,
}

-- What the program is asked for: a modem's file, an MTA's file, or the text of a file.
pub data Mode : Type 0 where
  modem : Bytes → Bytes → Bytes → Mode
  mta : Bytes → Bytes → Mode
  show : Bytes → Mode

abbrev pub mode_args : Mode → List Bytes
mode_args (modem file key output) = ascii "-e" ∷ file ∷ key ∷ output ∷ []
mode_args (mta file output) = ascii "-p" ∷ file ∷ output ∷ []
mode_args (show file) = ascii "-d" ∷ file ∷ []

-- A file behind `-p` is not called `-dialplan`, which is a modifier there.
abbrev pub IsNamed : Mode → Type 0
IsNamed (modem file key output) = Unit {0}
IsNamed (mta file output) = bytes_eq file (ascii "-dialplan") ≡ false
IsNamed (show file) = Unit {0}

-- What the usage calls a modifier.
pub data Modifier : Type 0 where
  nohash numeric_oids na eu dialplan : Modifier
  mibs : Bytes → Modifier

abbrev modifier_args : Modifier → List Bytes
modifier_args nohash = ascii "-nohash" ∷ []
modifier_args numeric_oids = ascii "-o" ∷ []
modifier_args na = ascii "-na" ∷ []
modifier_args eu = ascii "-eu" ∷ []
modifier_args dialplan = ascii "-dialplan" ∷ []
modifier_args (mibs dirs) = ascii "-M" ∷ dirs ∷ []

-- The modifiers and the mode on the command line.
abbrev pub command_line : List Modifier → Mode → List Bytes
command_line [] mode = mode_args mode
command_line (m ∷ ms) mode = modifier_args m ++ command_line ms mode

-- One option is set, and the others stay.
abbrev pub set : Modifier → Modifiers → Modifiers
set nohash o = record o { nohash = true }
set numeric_oids o = record o { numeric_oids = true }
set na o = record o { hash = 1 }
set eu o = record o { hash = 2 }
set dialplan o = record o { dialplan = true }
set (mibs dirs) o = record o { custom_mibs = some dirs }

abbrev pub all_set : List Modifier → Modifiers → Modifiers
all_set [] o = o
all_set (m ∷ ms) o = all_set ms (set m o)

-- How often a hash is asked for.
abbrev pub hashes : List Modifier → ℕ
hashes [] = 0
hashes (na ∷ ms) = 1 + hashes ms
hashes (eu ∷ ms) = 1 + hashes ms
hashes (_ ∷ ms) = hashes ms

-- What the program is to do.
abbrev pub arguments : Modifiers → Mode → Arguments
arguments m (modem file key output) = record no_arguments {
  opts = m;
  encode_docsis = true;
  config_file = some file;
  key_file = some key;
  output_file = some output;
}
arguments m (mta file output) = record no_arguments {
  opts = m;
  config_file = some file;
  output_file = some output;
  rest = file ∷ output ∷ [];
}
arguments m (show file) = record no_arguments {
  opts = m;
  decode_bin = true;
  config_file = some file;
}

module _ (all : List Bytes) where
  read_mode :
      (m : Modifiers) (mode : Mode)
      → IsNamed mode
      → read_args all (record no_arguments { opts = m }) (mode_args mode) ≡ ok (arguments m mode)
  unfolding read_args read_flag flag_of bytes_eq read_encode read_decode read_mta read_files
  read_mode m (modem file key output) named = refl
  read_mode m (mta file output) named = rw named refl
  read_mode m (show file) named = refl

  append-ne_nil : (xs ys : List Bytes) → ys ≢ [] → xs ++ ys ≢ []
  append-ne_nil [] ys h = h
  append-ne_nil (x ∷ xs) ys h = ground arith

  mode-ne_nil : (mode : Mode) → mode_args mode ≢ []
  mode-ne_nil (modem file key output) = ground arith
  mode-ne_nil (mta file output) = ground arith
  mode-ne_nil (show file) = ground arith

  command_line-ne_nil : (ms : List Modifier) (mode : Mode) → command_line ms mode ≢ []
  command_line-ne_nil [] mode = mode-ne_nil mode
  command_line-ne_nil (m ∷ ms) mode =
      append-ne_nil (modifier_args m) (command_line ms mode) (command_line-ne_nil ms mode)

  -- One modifier in front of something.
  read_modifier :
      (m : Modifier) (o : Modifiers) (args : List Bytes)
      → args ≢ []
      → (o.hash ≡ 0) ⊎ (hashes (m ∷ []) ≡ 0)
      → read_args all (record no_arguments { opts = o }) (modifier_args m ++ args)
        ≡ read_args all (record no_arguments { opts = set m o }) args
  unfolding read_args read_flag flag_of bytes_eq set_hash
  read_modifier m o [] ne h = absurd (ne refl)
  read_modifier nohash o (arg ∷ args) ne h = refl
  read_modifier numeric_oids o (arg ∷ args) ne h = refl
  read_modifier dialplan o (arg ∷ args) ne h = refl
  read_modifier (mibs dirs) o (arg ∷ args) ne h = refl
  read_modifier na o (arg ∷ args) ne (inl e) = rw e refl
  read_modifier eu o (arg ∷ args) ne (inl e) = rw e refl
  read_modifier na o (arg ∷ args) ne (inr e) = absurd (omega arith)
  read_modifier eu o (arg ∷ args) ne (inr e) = absurd (omega arith)

  -- A second hash is not asked for.
  hashes-cons :
      (m : Modifier) (ms : List Modifier) (o : Modifiers)
      → hashes (m ∷ ms) ≤ 1
      → (o.hash ≡ 0) ⊎ (hashes (m ∷ ms) ≡ 0)
      → ((o.hash ≡ 0) ⊎ (hashes (m ∷ []) ≡ 0))
        × (hashes ms ≤ 1)
        × (((set m o).hash ≡ 0) ⊎ (hashes ms ≡ 0))
  hashes-cons na ms o one (inl e) = (inl e, omega arith, inr (omega arith))
  hashes-cons eu ms o one (inl e) = (inl e, omega arith, inr (omega arith))
  hashes-cons na ms o one (inr e) = absurd (omega arith)
  hashes-cons eu ms o one (inr e) = absurd (omega arith)
  hashes-cons nohash ms o one h = (inr refl, one, h)
  hashes-cons numeric_oids ms o one h = (inr refl, one, h)
  hashes-cons dialplan ms o one h = (inr refl, one, h)
  hashes-cons (mibs dirs) ms o one h = (inr refl, one, h)

  read_modifiers :
      (ms : List Modifier) (o : Modifiers) (mode : Mode)
      → hashes ms ≤ 1
      → (o.hash ≡ 0) ⊎ (hashes ms ≡ 0)
      → read_args all (record no_arguments { opts = o }) (command_line ms mode)
        ≡ read_args all (record no_arguments { opts = all_set ms o }) (mode_args mode)
  read_modifiers [] o mode one h = refl
  read_modifiers (m ∷ ms) o mode one h =
      let (here, one', h') = hashes-cons m ms o one h in
      read_modifier m o (command_line ms mode) (command_line-ne_nil ms mode) here
      ∙ read_modifiers ms (set m o) mode one' h'

-- The program reads what its usage says: any modifiers in any order, `-M` with any path and at most
-- one of `-na` and `-eu`, in front of `-e`, `-p` or `-d` with the names that belong there, set the
-- options that they name and no others (of several `-M` the last counts), the mode and its names,
-- whatever the names are, but for a file behind `-p` that is called `-dialplan`, and for a name or a
-- path that is `-V` or `--version`, which asks for the version in any place.
pub arguments_of-command_line :
    (ms : List Modifier) (mode : Mode)
    → hashes ms ≤ 1
    → IsNamed mode
    → asks_version (command_line ms mode) ≡ false
    → arguments_of (command_line ms mode) ≡ ok (arguments (all_set ms no_modifiers) mode)
unfolding arguments_of
arguments_of-command_line ms mode one named quiet =
    let all = command_line ms mode in
    rw quiet (
      read_modifiers all ms no_modifiers mode one (inl refl)
      ∙ read_mode all (all_set ms no_modifiers) mode named)

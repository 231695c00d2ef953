-- ===== src/Assemble/CommandLine.antt =====
-- src/main.rs: how `main` reads the command line. The position is the list of the arguments not
-- read yet.
pub mod Modes
use docsis_config_generator.Common.{
  ℕ, zero, suc, ◌-◌, Bool, true, false, Option, none, some, List, [], ◌∷◌, ltb, ◌==◌, if◌then◌else◌,
  length, drop, get_or, Bytes, Run, ok, exit, ◌>>=◌, ◌||◌,
}
use docsis_config_generator.Text.{ascii, bytes_eq}

-- The `Options` of `main`.
pub record Modifiers : Type 0 where
  pub nohash : Bool
  pub numeric_oids : Bool
  pub custom_mibs : Option Bytes
  pub hash : ℕ
  pub dialplan : Bool

-- The variables that the loop sets.
pub record Arguments : Type 0 where
  pub opts : Modifiers
  pub config_file : Option Bytes
  pub key_file : Option Bytes
  pub output_file : Option Bytes
  pub extension : Option Bytes
  pub encode_docsis : Bool
  pub decode_bin : Bool
  pub rest : List Bytes

abbrev pub no_modifiers : Modifiers
no_modifiers = record {
  nohash = false;
  numeric_oids = false;
  custom_mibs = none;
  hash = 0;
  dialplan = false;
}

abbrev pub no_arguments : Arguments
no_arguments = record {
  opts = no_modifiers;
  config_file = none;
  key_file = none;
  output_file = none;
  extension = none;
  encode_docsis = false;
  decode_bin = false;
  rest = [];
}

-- The arguments that the loop knows, and all others.
pub data Flag : Type 0 where
  nohash numeric_oids mibs na eu dialplan decode encode many mta operand : Flag

unfoldable pub flag_of : Bytes → Flag
flag_of arg =
    if bytes_eq arg (ascii "-nohash")
    then Flag.nohash
    else if bytes_eq arg (ascii "-o")
    then Flag.numeric_oids
    else if bytes_eq arg (ascii "-M")
    then mibs
    else if bytes_eq arg (ascii "-na")
    then na
    else if bytes_eq arg (ascii "-eu")
    then eu
    else if bytes_eq arg (ascii "-dialplan")
    then Flag.dialplan
    else if bytes_eq arg (ascii "-d")
    then decode
    else if bytes_eq arg (ascii "-e")
    then encode
    else if bytes_eq arg (ascii "-m")
    then many
    else if bytes_eq arg (ascii "-p")
    then mta
    else operand

-- `usage()`.
abbrev pub usage {ℓ} : {A : Type ℓ} → Run A
usage = exit 246

-- `-na` and `-eu`, of which one may stand.
unfoldable pub set_hash : ℕ → Arguments → Run Arguments
set_hash hash a =
    if a.opts.hash == 0 then ok (record a { opts = record a.opts { hash = hash } }) else usage

-- What follows `-d`.
unfoldable pub read_decode : Arguments → List Bytes → Run Arguments
read_decode a [] = usage
read_decode a (file ∷ args) = ok (record a { decode_bin = true; config_file = some file })

-- What follows `-e`.
unfoldable pub read_encode : Arguments → List Bytes → Run Arguments
read_encode a (file ∷ key ∷ output ∷ args) = ok (record a {
  encode_docsis = true;
  config_file = some file;
  key_file = some key;
  output_file = some output;
})
read_encode a _ = usage

-- What follows `-p`, behind `-dialplan` if that stands there.
unfoldable pub read_files : Arguments → List Bytes → Run Arguments
read_files a (file ∷ output ∷ args) =
    let named = record a { config_file = some file; output_file = some output } in
    ok (elim a.extension [
      | none ↦ record named { rest = file ∷ output ∷ args }
      | some ext ↦ record a { rest = file ∷ output ∷ args }
    ])
read_files a _ = usage

unfoldable pub read_mta : Arguments → List Bytes → Run Arguments
unfolding read_files
read_mta a (arg ∷ next ∷ args) =
    let unsigned = record a { encode_docsis = false } in
    if bytes_eq arg (ascii "-dialplan")
    then read_files (record unsigned { opts = record a.opts { dialplan = true } }) (next ∷ args)
    else read_files unsigned (arg ∷ next ∷ args)
read_mta a _ = usage

-- `-m`: the last two of all arguments.
unfoldable pub read_many : List Bytes → Arguments → Run Arguments
read_many all a =
    let n = length all in
    if ltb n 3
    then usage
    else ok (record a {
      extension = some (get_or all (n - 1) []);
      key_file = some (get_or all (n - 2) []);
      encode_docsis = true;
    })

-- One round of the loop, by the argument's flag: `again` is the round for the next argument,
-- `behind_mibs` the one behind the argument of `-M`.
unfoldable pub read_flag :
    List Bytes
    → Arguments
    → Bytes
    → List Bytes
    → (Arguments → Run Arguments)
    → Run Arguments
    → Flag
    → Run Arguments
read_flag all a arg args again behind_mibs Flag.nohash =
    again (record a { opts = record a.opts { nohash = true } })
read_flag all a arg args again behind_mibs Flag.numeric_oids =
    again (record a { opts = record a.opts { numeric_oids = true } })
read_flag all a arg args again behind_mibs mibs = behind_mibs
read_flag all a arg args again behind_mibs na = set_hash 1 a >>= again
read_flag all a arg args again behind_mibs eu = set_hash 2 a >>= again
read_flag all a arg args again behind_mibs Flag.dialplan =
    again (record a { opts = record a.opts { dialplan = true } })
read_flag all a arg args again behind_mibs decode = read_decode a args
read_flag all a arg args again behind_mibs encode = read_encode a args
read_flag all a arg args again behind_mibs many = read_many all a >>= again
read_flag all a arg args again behind_mibs mta = read_mta a args
read_flag all a arg args again behind_mibs operand =
    if a.encode_docsis || a.decode_bin then ok (record a { rest = arg ∷ args }) else usage

-- The loop, over the arguments from the current one on.
unfoldable pub read_args : List Bytes → Arguments → List Bytes → Run Arguments
read_args all a [] = usage
read_args all a (arg ∷ []) = read_flag all a arg [] (λ a'. read_args all a' []) usage (flag_of arg)
read_args all a (arg ∷ next ∷ args) =
    read_flag all a arg (next ∷ args) (λ a'. read_args all a' (next ∷ args))
      (read_args all (record a { opts = record a.opts { custom_mibs = some next } }) args)
      (flag_of arg)

-- `print_and_exit_if_requested` ends the process on such arguments.
unfoldable pub asks_version : List Bytes → Bool
asks_version [] = false
asks_version (arg ∷ args) =
    bytes_eq arg (ascii "--version") || bytes_eq arg (ascii "-V") || asks_version args

-- How `main` begins; the report is left out.
unfoldable pub arguments_of : List Bytes → Run Arguments
arguments_of args = if asks_version args then exit 0 else read_args args no_arguments args

-- ===== src/Assemble/Program/Termination.antt =====
-- src/main.rs: `main` comes to an end.
use docsis_config_generator.Common.{
  ℕ, ◌≢◌, true, false, ltb, ◌||◌, Option, some, List, [], ◌∷◌, leb, ◌==◌, if◌then◌else◌, length,
  Bytes, Run, ok, exit, out_of_fuel, or_exit,
}
use docsis_config_generator.Text.{ascii, bytes_eq, Ipv6Text}
use docsis_config_generator.Mib.{Mib}
use docsis_config_generator.Symtable.Generic.{generic_tlv, generic_row}
use docsis_config_generator.Assemble.{Digests}
use docsis_config_generator.Assemble.Extension.{replace_extension}
use docsis_config_generator.Assemble.OneFile.{World, encode_one_file, decode_file}
use docsis_config_generator.Assemble.Halts.{
  Halts, Halts-bind, Halts-if, Halts-option, Halts-or_exit, Halts-not, encode_one_file-Halts,
  decode_file-Halts,
}
use docsis_config_generator.Assemble.CommandLine
use docsis_config_generator.Assemble.CommandLine.{Arguments, Flag, no_arguments, read_args}
use docsis_config_generator.Assemble.Program

set_hash-Halts : (hash : ℕ) (a : Arguments) → Halts (CommandLine.set_hash hash a)
unfolding CommandLine.set_hash
set_hash-Halts hash a = Halts-if (a.opts.hash == 0) _ _ tt tt

read_decode-Halts : (a : Arguments) (args : List Bytes) → Halts (CommandLine.read_decode a args)
unfolding CommandLine.read_decode
read_decode-Halts a [] = tt
read_decode-Halts a (file ∷ args) = tt

read_encode-Halts : (a : Arguments) (args : List Bytes) → Halts (CommandLine.read_encode a args)
unfolding CommandLine.read_encode
read_encode-Halts a [] = tt
read_encode-Halts a (file ∷ []) = tt
read_encode-Halts a (file ∷ key ∷ []) = tt
read_encode-Halts a (file ∷ key ∷ output ∷ args) = tt

read_files-Halts : (a : Arguments) (args : List Bytes) → Halts (CommandLine.read_files a args)
unfolding CommandLine.read_files
read_files-Halts a [] = tt
read_files-Halts a (file ∷ []) = tt
read_files-Halts a (file ∷ output ∷ args) = tt

read_mta-Halts : (a : Arguments) (args : List Bytes) → Halts (CommandLine.read_mta a args)
unfolding CommandLine.read_mta
read_mta-Halts a [] = tt
read_mta-Halts a (arg ∷ []) = tt
read_mta-Halts a (arg ∷ next ∷ args) =
    let unsigned = record a { encode_docsis = false } in
    let planned : Arguments = record unsigned { opts = record a.opts { dialplan = true } } in
    Halts-if (bytes_eq arg (ascii "-dialplan")) (CommandLine.read_files planned (next ∷ args))
      (CommandLine.read_files unsigned (arg ∷ next ∷ args)) (read_files-Halts planned (next ∷ args))
      (read_files-Halts unsigned (arg ∷ next ∷ args))

read_many-Halts : (all : List Bytes) (a : Arguments) → Halts (CommandLine.read_many all a)
unfolding CommandLine.read_many
read_many-Halts all a = Halts-if (ltb (length all) 3) _ (ok _) tt tt

read_flag-Halts :
    (all : List Bytes) (a : Arguments) (arg : Bytes) (args : List Bytes)
    (again : Arguments → Run Arguments) (behind_mibs : Run Arguments) (flag : Flag)
    → ((a' : Arguments) → Halts (again a'))
    → Halts behind_mibs
    → Halts (CommandLine.read_flag all a arg args again behind_mibs flag)
unfolding CommandLine.read_flag
read_flag-Halts all a arg args again behind_mibs Flag.nohash h hm = h _
read_flag-Halts all a arg args again behind_mibs Flag.numeric_oids h hm = h _
read_flag-Halts all a arg args again behind_mibs Flag.mibs h hm = hm
read_flag-Halts all a arg args again behind_mibs Flag.na h hm =
    Halts-bind (CommandLine.set_hash 1 a) again (set_hash-Halts 1 a) h
read_flag-Halts all a arg args again behind_mibs Flag.eu h hm =
    Halts-bind (CommandLine.set_hash 2 a) again (set_hash-Halts 2 a) h
read_flag-Halts all a arg args again behind_mibs Flag.dialplan h hm = h _
read_flag-Halts all a arg args again behind_mibs Flag.decode h hm = read_decode-Halts a args
read_flag-Halts all a arg args again behind_mibs Flag.encode h hm = read_encode-Halts a args
read_flag-Halts all a arg args again behind_mibs Flag.many h hm =
    Halts-bind (CommandLine.read_many all a) again (read_many-Halts all a) h
read_flag-Halts all a arg args again behind_mibs Flag.mta h hm = read_mta-Halts a args
read_flag-Halts all a arg args again behind_mibs Flag.operand h hm =
    Halts-if (a.encode_docsis || a.decode_bin) (ok _) _ tt tt

read_args-Halts :
    (all : List Bytes) (a : Arguments) (args : List Bytes) → Halts (read_args all a args)
unfolding read_args
read_args-Halts all a [] = tt
read_args-Halts all a (arg ∷ []) =
    read_flag-Halts all a arg [] _ _ (CommandLine.flag_of arg) (λ a'. read_args-Halts all a' []) tt
read_args-Halts all a (arg ∷ next ∷ args) =
    read_flag-Halts all a arg (next ∷ args) _ _ (CommandLine.flag_of arg)
      (λ a'. read_args-Halts all a' (next ∷ args))
      (read_args-Halts all (record a { opts = record a.opts { custom_mibs = some next } }) args)

arguments_of-Halts : (args : List Bytes) → Halts (CommandLine.arguments_of args)
unfolding CommandLine.arguments_of
arguments_of-Halts args =
    Halts-if (CommandLine.asks_version args) (exit 0) _ tt (read_args-Halts args no_arguments args)

read_key-Halts : (w : World) (a : Arguments) → Halts (Program.read_key w a)
unfolding Program.read_key
read_key-Halts w a =
    Halts-if a.encode_docsis _ (ok [])
      (Halts-bind (or_exit a.key_file 246) _ (Halts-or_exit a.key_file 246) (λ path.
        Halts-bind (or_exit (w.files path) 251) _ (Halts-or_exit (w.files path) 251) (λ key. tt)))
      tt

module _ (mibs : Option Bytes → Mib) (ipv6 : Ipv6Text) (digests : Digests) where
  encode_file-Halts :
      (a : Arguments) (key : Bytes) (w : World) (input output : Bytes)
      → Halts (Program.encode_file mibs ipv6 digests a key w input output)
  unfolding Program.encode_file
  encode_file-Halts a key w input output =
      let s = Program.settings mibs ipv6 digests a.opts in
      let opts = Program.options mibs ipv6 digests w a key in
      Halts-bind (encode_one_file s digests w opts input output) _
        (encode_one_file-Halts s digests w opts input output generic_tlv generic_row) (λ buffer. tt)

  encode_files-Halts :
      (a : Arguments) (key ext : Bytes) (w : World) (inputs : List Bytes)
      → Halts (Program.encode_files mibs ipv6 digests a key ext w inputs)
  unfolding Program.encode_files
  encode_files-Halts a key ext w [] = tt
  encode_files-Halts a key ext w (input ∷ inputs) =
      Halts-option (replace_extension input ext) _ _ (encode_files-Halts a key ext w inputs)
        (λ output.
          Halts-bind (Program.encode_file mibs ipv6 digests a key w input output) _
            (encode_file-Halts a key w input output) (λ w'. encode_files-Halts a key ext w' inputs))

  encode_named-Halts :
      (a : Arguments) (key : Bytes) (w : World)
      → Halts (Program.encode_named mibs ipv6 digests a key w)
  unfolding Program.encode_named
  encode_named-Halts a key w =
      Halts-option a.extension _ _
        (Halts-bind (or_exit a.config_file 246) _ (Halts-or_exit a.config_file 246) (λ input.
          Halts-bind (or_exit a.output_file 246) _ (Halts-or_exit a.output_file 246)
            (λ output. encode_file-Halts a key w input output)))
        (λ ext.
          Halts-if (leb (length a.rest) (if a.encode_docsis then 2 else 1)) (exit 246) _ tt
            (encode_files-Halts a key ext w _))

  -- The program comes to an end on every command line and whatever the files hold, the MIBs, the
  -- digests and the parser of IPv6 addresses: it leaves files and a text, exits with a code, or
  -- panics. None of the loops that the model gives fuel and that could go on for ever, of the
  -- scanner, the parser, the decoder and the selection for the CMTS MIC, runs out of it.
  pub main_halts :
      (w : World) (args : List Bytes) → Program.main mibs ipv6 digests w args ≢ out_of_fuel
  unfolding Program.main
  main_halts w args = Halts-not (Program.main mibs ipv6 digests w args) (
      Halts-bind (CommandLine.arguments_of args) _ (arguments_of-Halts args) (λ a.
        Halts-bind (Program.read_key w a) _ (read_key-Halts w a) (λ key.
          Halts-if a.decode_bin _ _
            (Halts-bind (decode_file (Program.settings mibs ipv6 digests a.opts) w _) _
              (decode_file-Halts (Program.settings mibs ipv6 digests a.opts) w _) (λ text. tt))
            (Halts-bind (Program.encode_named mibs ipv6 digests a key w) _
              (encode_named-Halts a key w) (λ w'. tt)))))

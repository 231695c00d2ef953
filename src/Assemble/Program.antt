-- ===== src/Assemble/Program.antt =====
-- src/main.rs: `main`, from the command line to the files it leaves. The MIBs that `load_mibs` finds
-- are a parameter, by the path of `-M`; the environment, the text of the version report and the dial
-- plan that the decoder writes beside its output are left out.
pub mod Termination
use mathlib.Core.Option
use docsis_config_generator.Common.{
  ℕ, ◌-◌, Bool, ◌&&◌, ◌||◌, not, Option, none, some, List, [], ◌∷◌, leb, ◌==◌, if◌then◌else◌,
  length, take, Bytes, Run, ok, exit, ◌>>=◌, or_exit,
}
use docsis_config_generator.Text.{ascii, bytes_eq, Ipv6Text}
use docsis_config_generator.Mib.{Mib}
use docsis_config_generator.Symtable.{symtable}
use docsis_config_generator.Decode.{Settings}
use docsis_config_generator.Assemble.{Options, Digests}
use docsis_config_generator.Assemble.Extension.{replace_extension}
use docsis_config_generator.Assemble.OneFile.{World, is_stdio, encode_one_file, decode_file}
use docsis_config_generator.Assemble.CommandLine.{Modifiers, Arguments, arguments_of, usage}

-- The loop that drops line ends from the end of the key.
unfoldable pub strip_line_ends : Bytes → Bytes
strip_line_ends [] = []
strip_line_ends (b ∷ key) =
    let behind = strip_line_ends key in
    if (b == b'\n' || b == b'\r') && length behind == 0 then [] else b ∷ behind

unfoldable pub read_key : World → Arguments → Run Bytes
unfolding strip_line_ends
read_key w a =
    if a.encode_docsis
    then (do
      path ← or_exit a.key_file 246
      key ← or_exit (w.files path) 251
      ok (strip_line_ends (take 64 key)))
    else ok []

-- What `write` leaves: the file, if it is one.
unfoldable pub write_file : World → Bytes → Bytes → World
write_file w path buffer =
    if is_stdio path
    then w
    else record w { files = λ other. if bytes_eq other path then some buffer else w.files other }

-- The standard input is read to its end.
unfoldable pub after_reading : World → Bytes → World
after_reading w input =
    if is_stdio input then record w { stdin = Option.map (λ bytes. []) w.stdin } else w

module _ (mibs : Option Bytes → Mib) (ipv6 : Ipv6Text) (digests : Digests) where
  abbrev pub settings : Modifiers → Settings
  settings opts = record {
    symtable = symtable;
    mib = mibs opts.custom_mibs;
    ipv6 = ipv6;
    nohash = opts.nohash;
    numeric_oids = opts.numeric_oids;
  }

  abbrev pub options : World → Arguments → Bytes → Options
  options w a key = record {
    encode_docsis = a.encode_docsis;
    key = key;
    dialplan = a.opts.dialplan;
    dialplan_file = w.files (ascii "dialplan.txt");
    hash = a.opts.hash;
  }

  unfoldable pub encode_file : Arguments → Bytes → World → Bytes → Bytes → Run World
  unfolding write_file after_reading
  encode_file a key w input output = do
    buffer ← encode_one_file (settings a.opts) digests w (options w a key) input output
    ok (write_file (after_reading w input) output buffer)

  -- The loop over several files; a file whose name has too short an extension is skipped.
  unfoldable pub encode_files : Arguments → Bytes → Bytes → World → List Bytes → Run World
  unfolding encode_file
  encode_files a key ext w [] = ok w
  encode_files a key ext w (input ∷ inputs) = elim (replace_extension input ext) [
    | none ↦ encode_files a key ext w inputs
    | some output ↦ encode_file a key w input output >>= λ w'. encode_files a key ext w' inputs
  ]

  -- Several files with a new extension, or one file.
  unfoldable pub encode_named : Arguments → Bytes → World → Run World
  unfolding encode_file
  encode_named a key w = elim a.extension [
    | some ext ↦
        let last = if a.encode_docsis then 2 else 1 in
        if leb (length a.rest) last
        then usage
        else encode_files a key ext w (take (length a.rest - last) a.rest)
    | none ↦ do
      input ← or_exit a.config_file 246
      output ← or_exit a.output_file 246
      encode_file a key w input output
  ]

  -- The files behind a run, and what it prints when it decodes.
  unfoldable pub main : World → List Bytes → Run (World × Bytes)
  unfolding read_key encode_named
  main w args = do
    a ← arguments_of args
    key ← read_key w a
    if a.decode_bin
        then (do
          text ← decode_file (settings a.opts) w (Option.get_or a.config_file [])
          ok (w, text))
        else (encode_named a key w >>= λ w'. ok (w', []))

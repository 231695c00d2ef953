-- ===== src/Assemble/OneFile.antt =====
-- src/main.rs: `encode_one_file` and `decode_file` as a whole, from the source to the output. An
-- error that `main` answers with `exit(2)` is that exit. The files, the standard input and whether
-- an output can be written are parameters; what is printed is left out.
use docsis_config_generator.Common.{
  Bool, ◌&&◌, not, Option, List, map, if◌then◌else◌, Bytes, Run, ok, exit, out_of_fuel, ◌>>=◌,
  or_exit,
}
use docsis_config_generator.Text.{ascii, bytes_eq}
use docsis_config_generator.Decode.{Settings, new, decode_main_aggregate}
use docsis_config_generator.Lexer.{Token, Tok, Scan, done, fail, no_fuel, tokenize}
use docsis_config_generator.Parser.{parse}
use docsis_config_generator.Assemble.{Options, Digests, encode_tree}

pub record World : Type 0 where
  pub files : Bytes → Option Bytes
  pub stdin : Option Bytes
  pub writable : Bytes → Bool

abbrev pub is_stdio : Bytes → Bool
is_stdio path = bytes_eq path (ascii "-")

unfoldable pub read_input : World → Bytes → Run Bytes
read_input w input = if is_stdio input then or_exit w.stdin 2 else or_exit (w.files input) 2

unfoldable pub tokens_of : Scan (List Token) → Run (List Tok)
tokens_of (done ts) = ok (map (λ t. t.tok) ts)
tokens_of (fail e) = exit 2
tokens_of no_fuel = out_of_fuel

-- From the source to the buffer.
unfoldable pub encode_source : Settings → Digests → World → Options → Bytes → Run Bytes
unfolding tokens_of
encode_source s digests w opts source = do
  toks ← tokens_of (tokenize s.symtable s.ipv6 source)
  tree ← parse s.symtable s.mib s.ipv6 w.files toks
  encode_tree s digests opts tree

-- What is written to the output.
unfoldable pub encode_one_file : Settings → Digests → World → Options → Bytes → Bytes → Run Bytes
unfolding read_input encode_source
encode_one_file s digests w opts input output =
    if bytes_eq input output && not (is_stdio input) then exit 2 else do
      source ← read_input w input
      buffer ← encode_source s digests w opts source
      if w.writable output then ok buffer else exit 2

-- What is printed.
unfoldable pub decode_file : Settings → World → Bytes → Run Bytes
decode_file s w path = do
  buf ← or_exit (w.files path) 255
  d ← decode_main_aggregate s new buf
  ok d.out

-- ===== src/Examples/Source.antt =====
-- Small sources, their tokens and trees, and rows of the symbol table.
use docsis_config_generator.Common.{
  ◌≤◌, ◌≡◌, ◌≢◌, refl, inl, inr, true, false, Option, some, none, List, [], ◌∷◌, ◌++◌, length,
  Bytes, arith, ok, out_of_fuel, pos,
}
use docsis_config_generator.Text.{ascii, Ipv6Text, bytes_eq, to_string, parse_i64}
use docsis_config_generator.Values.{Value, num, as_num}
use docsis_config_generator.Symbol.{Symbol, Enc, Render}
use docsis_config_generator.Mib.{Mib}
use docsis_config_generator.Symtable.{symtable}
use docsis_config_generator.Symtable.Every.{Among}
use docsis_config_generator.Symtable.Generic.{generic_tlv, generic_row}
use docsis_config_generator.Symtable.Printed.{ranged_rows_print}
use docsis_config_generator.Symtable.Numbers.{Exact, encode-Exact}
use docsis_config_generator.Encode.{encode, encode_as}
use docsis_config_generator.Encode.Scalar.{encode_uchar, range_check, num_u32}
use docsis_config_generator.Encode.Exits.{Stops}
use docsis_config_generator.Decode.{Settings, new, leaf, write}
use docsis_config_generator.Decode.Leaf.{line}
use docsis_config_generator.Lexer.{
  Pat, Tok, no_fuel, match_pattern, longest_match, tokenize, AsnType, scan_string, done,
}
use docsis_config_generator.Lexer.Longest.{FlexRule, longest_match-FlexRule}
use docsis_config_generator.Lexer.Termination.{tokenize_ends}
use docsis_config_generator.Lexer.Strings.{escape, scan_string-escape}
use docsis_config_generator.Parser.Addresses.{typed_bytes-lost}
use docsis_config_generator.Lexer.Bounds.{match_pattern-Within}
use docsis_config_generator.Assemble.Tree
use docsis_config_generator.Assemble.Tree.{Tlvs, nil, cons, node}
use docsis_config_generator.Parser.{parse, typed_bytes}
use docsis_config_generator.Parser.Exits.{parser_code}
use docsis_config_generator.Parser.Termination.{parse-Stops}
use docsis_config_generator.Parser.RoundTrip.{tree_tokens, parse-tree_tokens}
use docsis_config_generator.Assemble.{Digests}
use docsis_config_generator.Assemble.OneFile.{World}
use docsis_config_generator.Assemble.Program.{main}
use docsis_config_generator.Assemble.Program.Termination.{main_halts}
use docsis_config_generator.Assemble.CommandLine.{no_modifiers, arguments_of, asks_version}
use docsis_config_generator.Assemble.CommandLine.Modes.{
  Mode, modem, Modifier, eu, mibs, numeric_oids, command_line, all_set, arguments,
  arguments_of-command_line,
}

abbrev no_addresses : Ipv6Text
no_addresses = record { parse = λ t. none; print = λ a. [] }

no_addresses-length : (t a : Bytes) → no_addresses.parse t ≡ some a → length a ≡ 16
no_addresses-length t a e = ground (arith, e)

abbrev no_mib : Mib
no_mib = record {
  resolve_oid = λ name. none;
  resolve_oid_numeric_first = λ name. none;
  read_objid = λ name. none;
  get_node = λ name. none;
  get_tree = λ oid. none;
  sprint_objid = λ oid format. [];
}

-- The settings of a run with the whole symbol table.
abbrev whole : Settings
whole = record {
  symtable = symtable;
  mib = no_mib;
  ipv6 = no_addresses;
  nohash = false;
  numeric_oids = false;
}

abbrev no_files : Bytes → Option Bytes
no_files path = none

abbrev network_access : Symbol
network_access = record {
  id = 3;
  ident = ascii "NetworkAccess";
  code = 3;
  parent_id = 0;
  enc = Enc.uchar;
  dec = Render.uchar;
  low = 0;
  high = 1;
}

network_access-Among : Among network_access symtable
unfolding symtable
network_access-Among = inr (inr (inr (inl refl)))

longest_match-FlexRule_example :
    FlexRule no_addresses
      (ascii "10.0.0.1,10.0.0.2;")
      (longest_match no_addresses (ascii "10.0.0.1,10.0.0.2;"))
longest_match-FlexRule_example = longest_match-FlexRule no_addresses (ascii "10.0.0.1,10.0.0.2;")

match_pattern-Within_example :
    match_pattern no_addresses Pat.hex_string (ascii "0x0102;") ≤ length (ascii "0x0102;")
match_pattern-Within_example = match_pattern-Within no_addresses Pat.hex_string (ascii "0x0102;")

tokenize_ends_example : tokenize symtable no_addresses (ascii "Main { NetworkAccess 1; }") ≢ no_fuel
tokenize_ends_example = tokenize_ends symtable no_addresses (ascii "Main { NetworkAccess 1; }")

parse-Stops_example : Stops parser_code (
    parse symtable no_mib no_addresses no_files
      (Tok.main ∷ Tok.l_brace ∷ Tok.identifier network_access ∷ []))
parse-Stops_example =
    parse-Stops symtable no_mib no_addresses no_files generic_tlv generic_row
      (Tok.main ∷ Tok.l_brace ∷ Tok.identifier network_access ∷ [])

-- A setting, and a block with one setting, which has no bytes.
abbrev small_tree : Tlvs
small_tree = cons (Tree.leaf 3 (1 ∷ [])) (cons (node 24 (cons (Tree.leaf 1 []) nil)) nil)

parse-tree_tokens_example :
    parse symtable no_mib no_addresses no_files (tree_tokens generic_tlv small_tree) ≡ ok small_tree
parse-tree_tokens_example =
    parse-tree_tokens symtable no_mib no_addresses no_files generic_tlv small_tree (ground arith)

ranged_rows_print_example :
    (leaf whole Render.uchar new network_access (1 ∷ [])
      ≡ some (ok (write new (line network_access (to_string (num_u32 (num (pos 1))))))))
    × (parse_i64 (to_string (num_u32 (num (pos 1)))) ≡ some (pos (num_u32 (num (pos 1)))))
    × (encode no_addresses (λ t. none) network_access (num (pos (num_u32 (num (pos 1)))))
        ≡ ok (1 ∷ []))
ranged_rows_print_example =
    ranged_rows_print whole (λ t. none) new network_access network_access-Among (ground arith) tt
      refl (num (pos 1)) (1 ∷ [])
      (unfold encode encode_as encode_uchar range_check num_u32 as_num in refl)

encode-Exact_example : Exact network_access (num_u32 (num (pos 1))) (1 ∷ [])
encode-Exact_example =
    encode-Exact no_addresses (λ t. none) network_access network_access-Among (ground arith) tt refl
      (num (pos 1)) (1 ∷ [])
      (unfold encode encode_as encode_uchar range_check num_u32 as_num in refl)

abbrev world : World
world = record {
  files = λ path. some (ascii "Main { NetworkAccess 1; }");
  stdin = none;
  writable = λ path. true;
}

abbrev no_digests : Digests
no_digests = record { md5 = λ file. []; hmac_md5 = λ key file. []; sha1 = λ file. [] }

main_halts_example :
    main (λ dirs. no_mib) no_addresses no_digests world (ascii "-p" ∷ ascii "in" ∷ ascii "out" ∷ [])
    ≢ out_of_fuel
main_halts_example =
    main_halts (λ dirs. no_mib) no_addresses no_digests world
      (ascii "-p" ∷ ascii "in" ∷ ascii "out" ∷ [])

-- The European hash, a path of MIBs, and numeric identifiers.
abbrev some_modifiers : List Modifier
some_modifiers = eu ∷ mibs (ascii "/mibs") ∷ numeric_oids ∷ []

abbrev modem_mode : Mode
modem_mode = modem (ascii "modem.cfg") (ascii "key") (ascii "modem.bin")

arguments_of-command_line_example :
    arguments_of (command_line some_modifiers modem_mode)
    ≡ ok (arguments (all_set some_modifiers no_modifiers) modem_mode)
arguments_of-command_line_example =
    arguments_of-command_line some_modifiers modem_mode (omega arith) tt
      (unfold asks_version bytes_eq in refl)

-- A string with a quote in it.
abbrev quoted_text : Bytes
quoted_text = ascii "a\"b"

scan_string-escape_example :
    scan_string 1 0 (escape quoted_text ++ b'"' ∷ ascii ";") ≡ done (quoted_text, ascii ";")
scan_string-escape_example =
    scan_string-escape 1 0 quoted_text (ascii ";") (ground arith) (omega arith)

typed_bytes-lost_example :
    typed_bytes symtable no_mib no_addresses no_files AsnType.ip (Value.text (ascii "10.0.0.1"))
    ≡ ok []
typed_bytes-lost_example =
    typed_bytes-lost no_mib no_addresses no_files (Value.text (ascii "10.0.0.1"))

-- ===== src/Examples/Runs.antt =====
-- Runs over a small symbol table, from the text of a source to the bytes of its file, and rows of
-- the whole table at the edge of their ranges.
use mathlib.Core.Option
use docsis_config_generator.Common.{
  map, ◌≡◌, refl, some, none, List, [], ◌∷◌, ◌==◌, Bytes, ok, exit, pos,
}
use docsis_config_generator.Text.{ascii, bytes_eq, Ipv6Text, parse_i64}
use docsis_config_generator.Values.{num, text, as_num, as_text}
use docsis_config_generator.Symbol.{Symbol, Enc, Render, find, find_by_name}
use docsis_config_generator.Mib.{Mib}
use docsis_config_generator.Symtable.{symtable}
use docsis_config_generator.Encode.{encode, encode_as}
use docsis_config_generator.Encode.Scalar.{
  encode_uchar, encode_ushort, encode_char_list, encode_ushort_list, ushorts, check_string_len,
  range_check, num_u32,
}
use docsis_config_generator.Lexer
use docsis_config_generator.Lexer.Matchers
use docsis_config_generator.Text
use docsis_config_generator.Lexer.{AsnType, Tok, tokenize, Scan, done}
use docsis_config_generator.Assemble.Tree.{leaf, cons, nil}
use docsis_config_generator.Parser
use docsis_config_generator.Parser.Reading
use docsis_config_generator.Parser.{parse, typed_bytes, encode_value}

abbrev no_ipv6 : Ipv6Text
no_ipv6 = record { parse = λ t. none; print = λ a. [] }

abbrev empty_mib : Mib
empty_mib = record {
  resolve_oid = λ name. none;
  resolve_oid_numeric_first = λ name. none;
  read_objid = λ name. none;
  get_node = λ name. none;
  get_tree = λ oid. none;
  sprint_objid = λ oid format. [];
}

-- Lists with one entry, which is a number for the parser.
abbrev user_priority : Symbol
user_priority = record {
  id = 52;
  ident = ascii "UserPriority";
  code = 1;
  parent_id = 51;
  enc = Enc.char_list;
  dec = Render.char_list;
  low = 0;
  high = 0;
}

abbrev latency_histogram : Symbol
latency_histogram = record {
  id = 1434;
  ident = ascii "LatencyHistogramEncodings";
  code = 6;
  parent_id = 753;
  enc = Enc.ushort_list;
  dec = Render.ushort_list;
  low = 1;
  high = 15;
}

one_character : encode no_ipv6 (λ t. none) user_priority (num (pos 5)) ≡ ok []
unfolding encode encode_as encode_char_list as_text Text.nonempty Text.split_on
one_character = refl

one_number : encode no_ipv6 (λ t. none) latency_histogram (num (pos 7)) ≡ exit 255
unfolding encode encode_as encode_ushort_list as_text Text.nonempty Text.split_on ushorts
    check_string_len
one_number = refl

abbrev network_timing : Symbol
network_timing = record {
  id = 496;
  ident = ascii "NetworkTimingProfileReference";
  code = 1;
  parent_id = 495;
  enc = Enc.ushort;
  dec = Render.ushort;
  low = 1;
  high = 65536;
}

-- The row with a range that is wider than its two bytes, and what it does with the last value.
network_timing_row : find (λ row. row.id == 496) symtable ≡ some network_timing
unfolding symtable find
network_timing_row = refl

network_timing_wraps : encode no_ipv6 (λ t. none) network_timing (num (pos 65536)) ≡ ok (0 ∷ 0 ∷ [])
unfolding encode encode_as encode_ushort range_check num_u32 as_num
network_timing_wraps = refl

abbrev generic_row : Symbol
generic_row = record {
  id = 998;
  ident = ascii "GenericTLV";
  code = 0;
  parent_id = 0;
  enc = Enc.nothing;
  dec = Render.special;
  low = 0;
  high = 0;
}

abbrev access_row : Symbol
access_row = record {
  id = 3;
  ident = ascii "NetworkAccess";
  code = 3;
  parent_id = 0;
  enc = Enc.uchar;
  dec = Render.uchar;
  low = 0;
  high = 1;
}

abbrev two_rows : List Symbol
two_rows = access_row ∷ generic_row ∷ []

-- An address behind `TlvType` is lost.
typed_address_empty :
    typed_bytes two_rows empty_mib no_ipv6 (λ path. none) AsnType.ip (text (ascii "10.0.0.1"))
    ≡ ok []
unfolding typed_bytes encode_value encode encode_as find_by_name find bytes_eq
typed_address_empty = refl

abbrev small_source : Bytes
small_source = ascii "Main { NetworkAccess 1; /* on */ GenericTLV TlvCode 4 TlvString \"a\"; }"

abbrev toks_of : Scan (List Lexer.Token) → List Tok
toks_of (done ts) = map (λ t. t.tok) ts
toks_of _ = []

small_source_tokens :
    toks_of (tokenize two_rows no_ipv6 small_source)
    ≡ Tok.main
      ∷ Tok.l_brace
      ∷ Tok.identifier access_row
      ∷ Tok.integer (pos 1)
      ∷ Tok.semi
      ∷ Tok.ident_generic generic_row
      ∷ Tok.tlv_code
      ∷ Tok.integer (pos 4)
      ∷ Tok.tlv_string
      ∷ Tok.str (ascii "a")
      ∷ Tok.semi
      ∷ Tok.r_brace
      ∷ []
unfolding Lexer.comment_body Lexer.skip_stars Lexer.skip_comment Lexer.push Lexer.scan_string
    Lexer.asn_name Lexer.tlv_word Lexer.symbol_token Lexer.to_lower Lexer.is_main
    Lexer.match_pattern Lexer.longest_of Lexer.longest_match Lexer.keyword_or_identifier
    Lexer.classify Lexer.pattern_token Lexer.string_token Lexer.next_token Lexer.tokens_from
    Lexer.tokenize Matchers.is_alpha Matchers.is_alnum Matchers.is_label_char Matchers.is_hex
    Matchers.span Matchers.number Matchers.groups Matchers.filters_loop Matchers.m_submgt_filters
    Matchers.m_ipv4 Matchers.items Matchers.m_list Matchers.m_with_suffix_num Matchers.m_hexstring
    Matchers.hex_groups Matchers.m_mac Matchers.m_ethermask Matchers.m_timeticks Matchers.m_word
    Matchers.m_integer Matchers.label_ends Matchers.oid_prefix_positions Matchers.best_tail
    Matchers.m_label_oid Matchers.is_quoted_char Matchers.quoted_tail Matchers.m_label_oid_quoted
    Matchers.is_text_char Matchers.any Matchers.text_tail Matchers.m_label_oid_text
    Matchers.ipv6_prefix Matchers.m_ipv6 find find_by_name Text.is_digit Text.to_digit
    Text.from_str_radix Text.parse_i64 Text.bytes_eq Option.bind Text.digits_nonempty
    Text.digits_value Text.next_digit
small_source_tokens = refl

small_source_tree :
    parse two_rows empty_mib no_ipv6
      (λ path. none)
      (toks_of (tokenize two_rows no_ipv6 small_source))
    ≡ ok (cons (leaf 3 (1 ∷ [])) (cons (leaf 4 (ascii "a")) nil))
unfolding Parser.to_i32 Parser.chunk_tlvs Parser.is_solid Parser.keep_solid
    Parser.hexadecimal_to_binary Parser.quad_octets Parser.var_value Parser.take_var_value
    Parser.is_length Parser.external_file_tlvs Parser.read_dialplan Parser.snmpset_tlv
    Parser.encode_value Parser.typed_bytes Parser.counted_bytes Parser.generic_of
    Parser.generic_body Parser.generic_statement Parser.plain_statement Parser.statement_of
    Parser.statement Parser.assignment_list Parser.parse Reading.bump Reading.expect Reading.as_semi
    Reading.as_l_brace Reading.as_r_brace Reading.as_main Reading.as_integer Reading.as_string
    Reading.as_label_oid Reading.as_hex_string Reading.as_ip Reading.as_asn_type Reading.as_tlv_code
    Reading.as_tlv_value Reading.as_value Reading.expect_semi Reading.expect_l_brace
    Reading.expect_r_brace Reading.expect_integer Reading.expect_string Reading.expect_label_oid
    Reading.take_value Reading.at_l_brace Reading.at_end encode encode_as encode_uchar range_check
    num_u32 as_num
small_source_tree = rw small_source_tokens refl

-- ===== src/Parser.antt =====
-- src/parser.rs: the recursive-descent parser, from tokens to the tree of settings. It encodes
-- values as it reads. The files that settings name are a parameter.
pub mod Reading
pub mod Exits
pub mod Termination
pub mod RoundTrip
pub mod Addresses
use mathlib.Core.Option
use mathlib.Core.List.{filter}
use docsis_config_generator.Common
use docsis_config_generator.Common.{
  ℕ, zero, suc, ◌+◌, ◌-◌, ◌%◌, ◌^◌, Bool, true, false, ◌||◌, ◌&&◌, not, Option, none, some, List,
  [], ◌∷◌, ◌++◌, map, ltb, leb, ◌==◌, if◌then◌else◌, length, take, drop, replicate, Bytes, ℤ, pos,
  negsuc, wrap, be_bytes, Run, ok, exit, panic, out_of_fuel, or_exit,
}
use docsis_config_generator.Text.{ascii, from_str_radix, u32_max, split, strip_prefix, Ipv6Text}
use docsis_config_generator.Values.{Value, as_num}
use docsis_config_generator.Symbol.{Symbol, find_by_name}
use docsis_config_generator.Mib.{Mib}
use docsis_config_generator.Snmp.{VarValue, encode_vbind, encode_snmp_oid}
use docsis_config_generator.Encode.{encode}
use docsis_config_generator.Encode.Scalar.{parse_hexstr, hex_pairs, or_else}
use docsis_config_generator.Decode.Leaf.{until_nul}
use docsis_config_generator.Lexer.{Tok, AsnType}
use docsis_config_generator.Assemble.Tree.{Tlv, Tlvs, leaf, node, nil, cons}
use docsis_config_generator.Parser.Reading.{
  Parse, ◌>>=◌, ◌>>◌, return, error, lift, bump, expect, as_main, as_hex_string, as_ip, as_asn_type,
  as_tlv_code, as_tlv_value, expect_semi, expect_l_brace, expect_r_brace, expect_integer,
  expect_string, expect_label_oid, take_value, at_l_brace, at_end,
}

abbrev max_dialplan_size : ℕ
max_dialplan_size = 8192

abbrev dialplan_oid : Bytes
dialplan_oid = ascii "1.3.6.1.4.1.4491.2.2.8.2.1.1.3.1.1.2.1"

abbrev pub append_tlvs : Tlvs → Tlvs → Tlvs
append_tlvs nil rest = rest
append_tlvs (cons t ts) rest = cons t (append_tlvs ts rest)

abbrev pub single : Tlv → Tlvs
single t = cons t nil

-- `v as i32`.
unfoldable pub to_i32 : ℤ → ℤ
to_i32 v = let w = wrap (2 ^ 32) v in if ltb w (2 ^ 31) then pos w else negsuc (2 ^ 32 - 1 - w)

-- `v as u32` and `v as u8`.
abbrev to_u32 : ℤ → ℕ
to_u32 v = wrap (2 ^ 32) v

abbrev pub to_u8 : ℤ → ℕ
to_u8 v = wrap 256 v

-- `data.chunks(254)` as leaves with one code; a round takes a byte at least.
unfoldable pub chunk_tlvs : ℕ → ℕ → Bytes → Tlvs
chunk_tlvs fuel code [] = nil
chunk_tlvs zero code (b ∷ v) = nil
chunk_tlvs (suc fuel) code (b ∷ v) =
    cons (leaf code (take 254 (b ∷ v))) (chunk_tlvs fuel code (drop 254 (b ∷ v)))

-- `b.is_ascii_whitespace()`, negated.
unfoldable pub is_solid : ℕ → Bool
is_solid b = not (b == b' ' || b == 9 || b == 10 || b == 12 || b == 13)

unfoldable pub keep_solid : Bytes → Bytes
keep_solid [] = []
keep_solid (b ∷ s) = if is_solid b then b ∷ keep_solid s else keep_solid s

unfoldable pub hexadecimal_to_binary : Bytes → Option Bytes
unfolding keep_solid is_solid
hexadecimal_to_binary text =
    let body =
      Option.get_or (or_else (strip_prefix (ascii "0x") text) (strip_prefix (ascii "0X") text))
        text in
    let digits = keep_solid body in if length digits % 2 == 0 then hex_pairs digits else none

-- The four octets of a dotted quad; what is no number is 0.
unfoldable pub quad_octets : Bytes → Bytes
quad_octets text = take 4 (
    map (λ part. Option.get_or (from_str_radix 10 u32_max part) 0 % 256) (split b'.' text)
    ++ replicate 4 0)

-- The value behind a type name.
unfoldable pub var_value : AsnType → Parse VarValue
var_value AsnType.int = do v ← expect_integer; return (VarValue.int (to_i32 v))
var_value AsnType.gauge = do v ← expect_integer; return (VarValue.gauge (to_u32 v))
var_value AsnType.uint = do v ← expect_integer; return (VarValue.gauge (to_u32 v))
var_value AsnType.counter = do v ← expect_integer; return (VarValue.counter (to_u32 v))
var_value AsnType.time_ticks = do v ← expect_integer; return (VarValue.time_ticks (to_u32 v))
var_value AsnType.ip = do t ← expect as_ip; return (VarValue.ip (quad_octets t))
var_value AsnType.str = do s ← expect_string; return (VarValue.str s)
var_value AsnType.hex_str = do
  hex ← expect as_hex_string
  b ← lift (or_exit (hexadecimal_to_binary hex) 255)
  return (VarValue.str b)
var_value AsnType.obj_id = do o ← expect_label_oid; return (VarValue.oid o)
var_value _ = error

unfoldable pub take_var_value : Parse VarValue
take_var_value = do asn ← expect as_asn_type; var_value asn

-- `bytes.len() as i64 == declared`.
unfoldable pub is_length : ℤ → ℕ → Bool
is_length (pos n) len = n == len
is_length (negsuc n) len = false

-- Braces around a list of settings.
abbrev pub block : Parse Tlvs → Parse Tlvs
block list = do expect_l_brace; children ← list; expect_r_brace; return children

module _ (files : Bytes → Option Bytes) where
  unfoldable pub external_file_tlvs : Symbol → Bytes → Run Tlvs
  external_file_tlvs sym path = elim (files path) [
    | none ↦ exit 251
    | some [] ↦ exit 251
    | some (b ∷ v) ↦ ok (chunk_tlvs (length (b ∷ v)) sym.code (b ∷ v))
  ]

  unfoldable pub read_dialplan : Bytes → Run Bytes
  read_dialplan path = elim (files path) [
    | none ↦ exit 251
    | some d ↦ if ltb max_dialplan_size (length d) then exit 251 else ok (until_nul d)
  ]

module _ (symtable : List Symbol) (mib : Mib) (ipv6 : Ipv6Text) (files : Bytes → Option Bytes) where
  unfoldable pub snmpset_tlv : Symbol → Bytes → VarValue → Run Tlvs
  snmpset_tlv sym oid var =
      Common.◌>>=◌ (or_exit (encode_vbind mib oid var) 255) λ v. ok (single (leaf sym.code v))

  unfoldable pub encode_value : Symbol → Value → Run Bytes
  encode_value sym value = encode ipv6 (encode_snmp_oid mib) sym value

  -- `GenericTLV … TlvType …`, by the type name. `expect` of the row panics where there is none.
  unfoldable pub typed_bytes : AsnType → Value → Run Bytes
  typed_bytes AsnType.int value = ok (be_bytes 4 (to_u32 (as_num value)))
  typed_bytes AsnType.short value = ok (be_bytes 2 (wrap (2 ^ 16) (as_num value)))
  typed_bytes AsnType.char value = ok (wrap 256 (as_num value) ∷ [])
  typed_bytes AsnType.ip value = elim (find_by_name symtable (ascii "GenericTLV")) [
    | some sym ↦ encode_value sym value
    | none ↦ panic
  ]
  typed_bytes _ value = exit 255

  -- The bytes of `TlvLength … TlvValue …`.
  unfoldable pub counted_bytes : ℤ → Bytes → Run Bytes
  counted_bytes declared hex =
      Common.◌>>=◌ (or_exit (parse_hexstr hex) 255)
        λ b. if is_length declared (length b) then ok b else exit 255

  -- What follows the code of a `GenericTLV`, by the token that has just been read.
  unfoldable pub generic_of : ℕ → Tok → Parse Tlvs
  generic_of code Tok.tlv_string = do s ← expect_string; expect_semi; return (single (leaf code s))
  generic_of code Tok.tlv_string_zero = do
    s ← expect_string
    expect_semi
    return (single (leaf code (if leb (length s) 254 then s ++ 0 ∷ [] else s)))
  generic_of code Tok.tlv_length = do
    declared ← expect_integer
    expect as_tlv_value
    hex ← expect as_hex_string
    expect_semi
    b ← lift (counted_bytes declared hex)
    return (single (leaf code b))
  generic_of code Tok.tlv_type = do
    asn ← expect as_asn_type
    expect as_tlv_value
    value ← take_value
    expect_semi
    b ← lift (typed_bytes asn value)
    return (single (leaf code b))
  generic_of code _ = error

  unfoldable pub generic_body : Parse Tlvs → ℕ → Parse Tlvs
  generic_body list code toks =
      if at_l_brace toks
      then (do children ← block list; return (single (node code children))) toks
      else (do t ← expect some; generic_of code t) toks

  unfoldable pub generic_statement : Parse Tlvs → Parse Tlvs
  generic_statement list = do
    expect as_tlv_code
    code ← expect_integer
    generic_body list (to_u8 code)

  -- A keyword with a block or with a value.
  unfoldable pub plain_statement : Parse Tlvs → Symbol → Parse Tlvs
  plain_statement list sym toks =
      if at_l_brace toks
      then (do children ← block list; return (single (node sym.code children))) toks
      else (do
        value ← take_value
        expect_semi
        b ← lift (encode_value sym value)
        return (single (leaf sym.code b)))
          toks

  -- `statement`, by its first token; `list` reads the settings of a block.
  unfoldable pub statement_of : Parse Tlvs → Tok → Parse Tlvs
  statement_of list (Tok.identifier sym) = plain_statement list sym
  statement_of list (Tok.ident_generic sym) = generic_statement list
  statement_of list (Tok.ident_cvc sym) = do
    path ← expect_string
    expect_semi
    lift (external_file_tlvs files sym path)
  statement_of list (Tok.ident_snmp_w sym) = do
    oid ← expect_label_oid
    control ← expect_integer
    expect_semi
    value ← lift (or_exit (encode_snmp_oid mib oid) 255)
    return (single (leaf sym.code (value ++ to_u8 control ∷ [])))
  statement_of list (Tok.ident_snmp_set sym) = do
    oid ← expect_label_oid
    var ← take_var_value
    expect_semi
    lift (snmpset_tlv sym oid var)
  statement_of list (Tok.digit_map sym) = do
    path ← expect_string
    expect_semi
    body ← lift (read_dialplan files path)
    lift (snmpset_tlv sym dialplan_oid (VarValue.str body))
  statement_of list _ = error

  unfoldable pub statement : Parse Tlvs → Parse Tlvs
  statement list [] = exit 255
  statement list (t ∷ toks) = statement_of list t toks

  -- The loop over statements; each takes a token at least.
  unfoldable pub assignment_list : ℕ → Parse Tlvs
  assignment_list fuel [] = ok (nil, [])
  assignment_list zero (t ∷ toks) = if at_end (t ∷ toks) then ok (nil, t ∷ toks) else out_of_fuel
  assignment_list (suc fuel) (t ∷ toks) =
      let more = Common.◌>>=◌ (statement (assignment_list fuel) (t ∷ toks)) λ (first, behind).
        Common.◌>>=◌ (assignment_list fuel behind)
          λ (others, rest). ok (append_tlvs first others, rest) in
      if at_end (t ∷ toks) then ok (nil, t ∷ toks) else more

  -- `parse`: the tree of a whole file. As many rounds as there are tokens are enough.
  unfoldable pub parse : List Tok → Run Tlvs
  parse toks =
      Common.◌>>=◌ ((do expect as_main; block (assignment_list (length toks))) toks)
        λ (tree, rest). ok tree

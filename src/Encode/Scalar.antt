-- ===== src/Encode/Scalar.antt =====
-- src/encode.rs: the encoders of numbers, strings and number lists. An encoder that aborts ends in
-- `exit`; its message, and with it the line of `Ctx`, is left out.
use mathlib.Core.Option
use docsis_config_generator.Common.{
  ℕ, ◌%◌, ◌^◌, Bool, ◌&&◌, ◌||◌, Option, none, some, List, [], ◌∷◌, ◌++◌, map, ltb, leb, ◌==◌,
  if◌then◌else◌, length, Bytes, pos, wrap, be_bytes, Run, ok, exit, ◌>>=◌, ◌>>◌, or_exit,
}
use docsis_config_generator.Text.{
  ascii, from_str_radix, parse_i64, u8_max, u16_max, u64_max, split, split_on, nonempty, trim,
  strip_prefix,
}
use docsis_config_generator.Values.{Value, as_num, as_text, as_bytes}
use docsis_config_generator.Symbol.{Symbol}

-- `sym.low == 0 && sym.high == 0`: the symbol has no range.
abbrev pub unranged : Symbol → Bool
unranged sym = sym.low == 0 && sym.high == 0

abbrev pub in_range : Symbol → ℕ → Bool
in_range sym v = leb sym.low v && leb v sym.high

unfoldable pub range_check : Symbol → ℕ → Run (Unit {0})
range_check sym v =
    if unranged sym then ok tt else if ltb v sym.low || ltb sym.high v then exit 241 else ok tt

-- `value.as_num() as u32`.
unfoldable pub num_u32 : Value → ℕ
num_u32 value = wrap (2 ^ 32) (as_num value)

unfoldable pub encode_uint : Symbol → Value → Run Bytes
encode_uint sym value = do range_check sym (num_u32 value); ok (be_bytes 4 (num_u32 value))

unfoldable pub encode_uint24 : Value → Run Bytes
encode_uint24 value = ok (be_bytes 3 (num_u32 value))

unfoldable pub encode_ushort : Symbol → Value → Run Bytes
encode_ushort sym value = do
  range_check sym (num_u32 value)
  ok (be_bytes 2 (num_u32 value % 2 ^ 16))

unfoldable pub encode_uchar : Symbol → Value → Run Bytes
encode_uchar sym value = do range_check sym (num_u32 value); ok ((num_u32 value % 256) ∷ [])

-- `parts.next().and_then(|p| p.trim().parse().ok()).unwrap_or(0)`, and the parts left.
unfoldable pub next_tag : List Bytes → ℕ × List Bytes
next_tag [] = (0, [])
next_tag (p ∷ parts) = (Option.get_or (from_str_radix 10 u16_max (trim p)) 0, parts)

unfoldable pub encode_dual_qtag : Value → Run Bytes
encode_dual_qtag value =
    let (a, parts) = next_tag (split b',' (as_text value)) in
    ok (be_bytes 2 a ++ be_bytes 2 (next_tag parts).0)

unfoldable pub char_of : Bytes → ℕ
char_of p = wrap 256 (Option.get_or (parse_i64 (trim p)) (pos 0))

unfoldable pub encode_char_list : Value → Run Bytes
encode_char_list value = ok (map char_of (nonempty (split b',' (as_text value))))

unfoldable pub check_string_len : Symbol → ℕ → Run (Unit {0})
check_string_len sym len =
    if unranged sym
    then ok tt
    else if ltb (len % 2 ^ 32) sym.low
    then exit 255
    else if ltb sym.high (len % 2 ^ 32)
    then exit 255
    else ok tt

unfoldable pub encode_string : Symbol → Value → Run Bytes
encode_string sym value = do check_string_len sym (length (as_bytes value)); ok (as_bytes value)

unfoldable pub encode_strzero : Symbol → Value → Run Bytes
encode_strzero sym value = do
  check_string_len sym (length (as_bytes value))
  ok (as_bytes value ++ 0 ∷ [])

-- `body.chunks(2)`, each read as a hexadecimal byte. A pair that is not UTF-8 has no such reading.
unfoldable pub hex_pairs : Bytes → Option Bytes
hex_pairs [] = some []
hex_pairs (a ∷ []) = Option.map (λ v. v ∷ []) (from_str_radix 16 u8_max (a ∷ []))
hex_pairs (a ∷ b ∷ body) =
    Option.bind (from_str_radix 16 u8_max (a ∷ b ∷ []))
      λ v. Option.map (λ out. v ∷ out) (hex_pairs body)

-- `first.or_else(|| second)`.
abbrev pub or_else : Option Bytes → Option Bytes → Option Bytes
or_else (some a) second = some a
or_else none second = second

unfoldable pub parse_hexstr : Bytes → Option Bytes
parse_hexstr text =
    if length text % 2 == 0
    then Option.bind (or_else (strip_prefix (ascii "0x") text) (strip_prefix (ascii "0X") text))
        hex_pairs
    else none

unfoldable pub encode_hexstr : Symbol → Value → Run Bytes
encode_hexstr sym value = do
  bytes ← or_exit (parse_hexstr (as_bytes value)) 255
  check_string_len sym (length bytes)
  ok bytes

-- The loop of `encode_ushort_list`.
unfoldable pub ushorts : List Bytes → Run Bytes
ushorts [] = ok []
ushorts (part ∷ parts) = do
  v ← or_exit (from_str_radix 10 u64_max part) 245
  if ltb 65535 v then exit 245 else do out ← ushorts parts; ok (be_bytes 2 v ++ out)

unfoldable pub encode_ushort_list : Symbol → Value → Run Bytes
encode_ushort_list sym value = do
  let parts = nonempty (split_on (λ c. c == b',' || c == b' ') (as_text value))
  out ← ushorts parts
  check_string_len sym (length parts)
  ok out

-- ===== src/RoundTrip/Strings.antt =====
-- Hexadecimal strings, quoted strings and number lists.
use docsis_config_generator.Common.{
  ℕ, zero, suc, ◌*◌, ◌%◌, ◌^◌, ◌<◌, ◌≤◌, ◌≡◌, ◌≢◌, refl, ap, ◌∙◌, Bool, false, some, List, [], ◌∷◌,
  ◌++◌, ltb, ◌==◌, ◌||◌, length, length-map, be_value, Bytes, IsByte, All, arith, map, ok, inr,
}
use mathlib.Core.Option
use docsis_config_generator.Text.{
  ascii, from_str_radix, split_on, join, nonempty, to_string, hex_byte, u8_max, u64_max,
  strip_prefix,
}
use docsis_config_generator.Text.Split.{split_on-join, nonempty-All, Whole}
use docsis_config_generator.Text.Numeral.{
  from_str_radix-to_string, from_str_radix-hex_byte, to_string-ne-nil, to_string-IsDigit, IsDigit,
}
use docsis_config_generator.Values.{Value, text, as_text, as_bytes}
use docsis_config_generator.Symbol.{Symbol}
use docsis_config_generator.Snmp.{hexadecimal, hex_bytes}
use docsis_config_generator.Encode.Scalar.{
  check_string_len, hex_pairs, parse_hexstr, ushorts, encode_ushort_list, encode_strzero,
  encode_string,
}
use docsis_config_generator.Decode.Leaf
use docsis_config_generator.Decode.Leaf.{
  line, chunks_exact, chunk_list, decode_ushort_list, until_nul, write_quoted,
}
use docsis_config_generator.RoundTrip.Numbers.{Fits, be_two}

check_string_len_ok :
    (sym : Symbol) (n : ℕ) → n < 2 ^ 32 → Fits sym n → check_string_len sym n ≡ ok tt
unfolding check_string_len
check_string_len_ok sym n small h = let e : n % 2 ^ 32 ≡ n = omega arith in rw e (ground arith)

digit_pair :
    (b : ℕ) (rest : Bytes)
    → b < 256
    → (high low : ℕ) × (hex_byte b ++ rest ≡ high ∷ low ∷ rest)
      × (from_str_radix 16 u8_max (high ∷ low ∷ []) ≡ some b)
unfolding hex_byte
digit_pair b rest h = (_, _, refl, from_str_radix-hex_byte u8_max b (omega arith) h)

hex_pairs_step :
    (b : ℕ) (rest : Bytes)
    → b < 256
    → hex_pairs (hex_byte b ++ rest) ≡ Option.map (λ out. b ∷ out) (hex_pairs rest)
unfolding hex_pairs Option.bind
hex_pairs_step b rest h = let (high, low, e, d) = digit_pair b rest h in rw (e, d)

hex_pairs-hex_bytes : (v : Bytes) → All IsByte v → hex_pairs (hex_bytes v) ≡ some v
unfolding hex_bytes
hex_pairs-hex_bytes [] h = unfold hex_pairs in refl
hex_pairs-hex_bytes (b ∷ v) (h, hs) =
    hex_pairs_step b (hex_bytes v) h ∙ ap (Option.map (λ out. b ∷ out)) (hex_pairs-hex_bytes v hs)

length-hex_bytes : (v : Bytes) → length (hex_bytes v) ≡ 2 * length v
unfolding hex_bytes hex_byte
length-hex_bytes [] = refl
length-hex_bytes (b ∷ v) = omega (arith, length-hex_bytes v)

-- `parse_hexstr` reads back what `hexadecimal` printed.
pub parse_hexstr-hexadecimal : (v : Bytes) → All IsByte v → parse_hexstr (hexadecimal v) ≡ some v
unfolding parse_hexstr hexadecimal strip_prefix Option.bind
parse_hexstr-hexadecimal v h =
    let even : length (ascii "0x" ++ hex_bytes v) % 2 ≡ 0 = omega (arith, length-hex_bytes v) in
    rw (even, hex_pairs-hex_bytes v h)

-- Pairs of bytes as 16-bit numbers.
abbrev pub IsPairs : Bytes → Type 0
IsPairs [] = Unit {0}
IsPairs (a ∷ []) = ⊥
IsPairs (a ∷ b ∷ v) = IsByte a × IsByte b × IsPairs v

abbrev number : Bytes → Bytes
number c = to_string (be_value 0 c)

abbrev is_sep : ℕ → Bool
is_sep c = c == b',' || c == b' '

chunks_step :
    (fuel a b : ℕ) (v : Bytes)
    → chunks_exact 2 (suc fuel) (a ∷ b ∷ v) ≡ (a ∷ b ∷ []) ∷ chunks_exact 2 fuel v
unfolding chunks_exact
chunks_step fuel a b v = ground arith

ushorts_step :
    (a b : ℕ) (parts : List Bytes) (v : Bytes)
    → IsByte a
    → IsByte b
    → ushorts parts ≡ ok v
    → ushorts (number (a ∷ b ∷ []) ∷ parts) ≡ ok (a ∷ b ∷ v)
unfolding ushorts
ushorts_step a b parts v ha hb rest =
    let n = be_value 0 (a ∷ b ∷ []) in
    let fits : ltb 65535 n ≡ false = ground arith in
    rw (from_str_radix-to_string u64_max n (omega arith) (omega arith), fits, rest)
      (ap (λ x. ok (x ++ v)) (be_two a b (ha, (hb, tt))))

ushorts-chunks :
    (v : Bytes) (fuel : ℕ)
    → IsPairs v
    → length v ≤ fuel
    → ushorts (map number (chunks_exact 2 fuel v)) ≡ ok v
ushorts-chunks [] zero h enough = unfold ushorts chunks_exact in refl
ushorts-chunks [] (suc fuel) h enough = unfold ushorts chunks_exact in refl
ushorts-chunks (a ∷ []) fuel h enough = absurd h
ushorts-chunks (a ∷ b ∷ v) zero h enough = absurd (omega arith)
ushorts-chunks (a ∷ b ∷ v) (suc fuel) (ha, hb, hv) enough = rw (chunks_step fuel a b v) (
    ushorts_step a b (map number (chunks_exact 2 fuel v)) v ha hb
      (ushorts-chunks v fuel hv (omega arith)))

Whole-IsDigit : (s : Bytes) → All IsDigit s → Whole is_sep s
Whole-IsDigit [] h = tt
Whole-IsDigit (c ∷ s) (h, hs) = (ground arith, Whole-IsDigit s hs)

list_parts :
    (cs : List Bytes) → nonempty (split_on is_sep (join b',' (map number cs))) ≡ map number cs
list_parts [] = unfold join split_on nonempty in refl
list_parts (c ∷ cs) =
    rw (split_on-join is_sep b',' (number c) (map number cs) refl (whole c) (wholes cs))
      (nonempty-All (map number (c ∷ cs)) (filled (c ∷ cs)))
  where
    whole : (x : Bytes) → Whole is_sep (number x)
    whole x = Whole-IsDigit (number x) (to_string-IsDigit (be_value 0 x))

    wholes : (xs : List Bytes) → All (Whole is_sep) (map number xs)
    wholes [] = tt
    wholes (x ∷ xs) = (whole x, wholes xs)

    filled : (xs : List Bytes) → All (λ p. p ≢ []) (map number xs)
    filled [] = tt
    filled (x ∷ xs) = (to_string-ne-nil (be_value 0 x), filled xs)

length-chunks :
    (v : Bytes) (fuel : ℕ)
    → IsPairs v
    → length v ≤ fuel
    → 2 * length (chunks_exact 2 fuel v) ≡ length v
length-chunks [] zero h enough = unfold chunks_exact in refl
length-chunks [] (suc fuel) h enough = unfold chunks_exact in refl
length-chunks (a ∷ []) fuel h enough = absurd h
length-chunks (a ∷ b ∷ v) zero h enough = absurd (omega arith)
length-chunks (a ∷ b ∷ v) (suc fuel) (ha, hb, hv) enough =
    rw (chunks_step fuel a b v) (omega (arith, length-chunks v fuel hv (omega arith)))

no_warning :
    (n low high : ℕ)
    → n < 2 ^ 31
    → 2 * low ≤ n
    → n ≤ 2 * high
    → high < 2 ^ 31
    → (ltb (n % 2 ^ 32) (2 * low % 2 ^ 32) || ltb (2 * high % 2 ^ 32) (n % 2 ^ 32)) ≡ false
no_warning n low high small lo hi wide =
    let e : n % 2 ^ 32 ≡ n = omega arith in
    let e_low : 2 * low % 2 ^ 32 ≡ 2 * low = omega arith in
    let e_high : 2 * high % 2 ^ 32 ≡ 2 * high = omega arith in rw (e, e_low, e_high) (ground arith)

-- A list of two to 128 16-bit numbers survives, if its length is in the symbol's range and the
-- symbol's limits are such that the decoder prints no warning: the encoder reads the printed text as
-- the same bytes. (A single number is printed without a comma and is no text when it is read.)
pub ushort_list_survives :
    (sym : Symbol) (v : Bytes)
    → IsPairs v
    → 4 ≤ length v
    → length v ≤ 256
    → 2 * sym.low ≤ length v
    → length v ≤ 2 * sym.high
    → sym.high < 2 ^ 31
    → (t : Bytes) × (decode_ushort_list sym v ≡ line sym t)
      × (encode_ushort_list sym (text t) ≡ ok v)
unfolding decode_ushort_list encode_ushort_list as_text chunk_list
ushort_list_survives sym v h two few lo hi wide =
    let chunks = chunks_exact 2 (length v) v in
    let count = length-chunks v (length v) h (omega arith) in
    (
      join b',' (map number chunks),
      rw (no_warning (length v) sym.low sym.high (omega arith) lo hi wide),
      rw (
        list_parts chunks,
        ushorts-chunks v (length v) h (omega arith),
        length-map number chunks,
        check_string_len_ok sym (length chunks) (omega (arith, count)) (inr (omega (arith, count))),
      ),
    )

-- No NUL stands in the bytes.
abbrev pub HasNoNul : Bytes → Type 0
HasNoNul = All (λ b. b ≢ 0)

until_nul_append : (v : Bytes) → HasNoNul v → (until_nul v ≡ v) × (until_nul (v ++ 0 ∷ []) ≡ v)
unfolding until_nul
until_nul_append [] h = (refl, refl)
until_nul_append (b ∷ v) (hb, hv) =
    let (plain, ended) = until_nul_append v hv in (ground arith, ground arith)

-- What the encoder of a string writes, with the terminating NUL or without, is printed by the
-- decoder as the same bytes between quotes, if they hold no NUL; their number is in the range.
pub strings_survive :
    (sym : Symbol) (v : Bytes)
    → HasNoNul v
    → length v < 2 ^ 32
    → Fits sym (length v)
    → (plain zero_ended : Bytes) × (encode_string sym (Value.bytes v) ≡ ok plain)
      × (encode_strzero sym (Value.bytes v) ≡ ok zero_ended)
      × (write_quoted sym plain ≡ sym.ident ++ b' ' ∷ (b'"' ∷ (v ++ ascii "\";\n")))
      × (write_quoted sym zero_ended ≡ write_quoted sym plain)
unfolding encode_string encode_strzero as_bytes write_quoted
strings_survive sym v h small fits =
    let (plain, ended) = until_nul_append v h in
    let accepted = check_string_len_ok sym (length v) small fits in
    (v, v ++ 0 ∷ [], rw accepted, rw accepted, rw plain, rw (plain, ended))

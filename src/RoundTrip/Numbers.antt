-- ===== src/RoundTrip/Numbers.antt =====
-- Numbers: `decode_uint` and its like against `encode_uint` and its like.
use docsis_config_generator.Common.{
  ℕ, ◌%◌, ◌^◌, ◌<◌, ◌≤◌, ◌≡◌, ◌≢◌, refl, subst, ap₂, some, List, [], ◌∷◌, ◌++◌, be_bytes, be_value,
  Bytes, length, IsByte, All, arith, map, pos, Run, ok, ◌⊎◌,
}
use docsis_config_generator.Text.{parse_i64, split, split_on, join, nonempty, to_string, u16_max}
use docsis_config_generator.Text.Split.{split-join, nonempty-All, All-map, Lacks}
use docsis_config_generator.Text.Numeral.{
  from_str_radix-to_string, to_string-ne-nil, Lacks-to_string, parse_i64-to_string, trim-to_string,
}
use docsis_config_generator.Values.{Value, num, text, as_num, as_text}
use docsis_config_generator.Symbol.{Symbol}
use docsis_config_generator.Encode.Scalar.{
  range_check, num_u32, encode_uint, encode_uint24, encode_ushort, encode_uchar, next_tag,
  encode_dual_qtag, char_of, encode_char_list,
}
use docsis_config_generator.Decode.Leaf.{
  line, decode_uint, decode_uint24, decode_ushort, decode_uchar, decode_dual_qtag, decode_char_list,
}

-- The symbol has no range, or the number is in it.
abbrev pub Fits : Symbol → ℕ → Type 0
Fits sym v = ((sym.low ≡ 0) × (sym.high ≡ 0)) ⊎ ((sym.low ≤ v) × (v ≤ sym.high))

range_check_ok : (sym : Symbol) (v : ℕ) → Fits sym v → range_check sym v ≡ ok tt
unfolding range_check
range_check_ok sym v h = ground arith

pub num_u32_num : (v : ℕ) → v < 2 ^ 32 → num_u32 (num (pos v)) ≡ v
unfolding num_u32 as_num
num_u32_num v h = omega arith

be_four :
    (a b c d : ℕ)
    → All IsByte (a ∷ b ∷ c ∷ d ∷ [])
    → be_bytes 4 (be_value 0 (a ∷ b ∷ c ∷ d ∷ [])) ≡ a ∷ b ∷ c ∷ d ∷ []
be_four a b c d h = ground arith

be_three :
    (a b c : ℕ)
    → All IsByte (a ∷ b ∷ c ∷ [])
    → be_bytes 3 (be_value 0 (a ∷ b ∷ c ∷ [])) ≡ a ∷ b ∷ c ∷ []
be_three a b c h = ground arith

pub be_two : (a b : ℕ) → All IsByte (a ∷ b ∷ []) → be_bytes 2 (be_value 0 (a ∷ b ∷ [])) ≡ a ∷ b ∷ []
be_two a b h = ground arith

-- The decoder prints `value` as a decimal that the lexer reads as `n`, and the encoder writes the
-- value for `n`.
abbrev pub Survives : Symbol → ℕ → Bytes → Run Bytes → Run Bytes → Type 0
Survives sym n value decoded encoded =
    (decoded ≡ ok (line sym (to_string n)))
    × (parse_i64 (to_string n) ≡ some (pos n))
    × (encoded ≡ ok value)

uint-Survives :
    (sym : Symbol) (a b c d : ℕ)
    → All IsByte (a ∷ b ∷ c ∷ d ∷ [])
    → Fits sym (be_value 0 (a ∷ b ∷ c ∷ d ∷ []))
    → let v = a ∷ b ∷ c ∷ d ∷ [] in
      let n = be_value 0 v in Survives sym n v (decode_uint sym v) (encode_uint sym (num (pos n)))
unfolding decode_uint encode_uint
uint-Survives sym a b c d h fits =
    let n = be_value 0 (a ∷ b ∷ c ∷ d ∷ []) in
    (
      refl,
      parse_i64-to_string n (omega arith),
      rw (num_u32_num n (omega arith), range_check_ok sym n fits, be_four a b c d h),
    )

uint24-Survives :
    (sym : Symbol) (a b c : ℕ)
    → All IsByte (a ∷ b ∷ c ∷ [])
    → let v = a ∷ b ∷ c ∷ [] in
      let n = be_value 0 v in Survives sym n v (decode_uint24 sym v) (encode_uint24 (num (pos n)))
unfolding decode_uint24 encode_uint24
uint24-Survives sym a b c h =
    let n = be_value 0 (a ∷ b ∷ c ∷ []) in
    (refl, parse_i64-to_string n (omega arith), rw (num_u32_num n (omega arith), be_three a b c h))

ushort-Survives :
    (sym : Symbol) (a b : ℕ)
    → All IsByte (a ∷ b ∷ [])
    → Fits sym (be_value 0 (a ∷ b ∷ []))
    → let v = a ∷ b ∷ [] in
      let n = be_value 0 v in
      Survives sym n v (decode_ushort sym v) (encode_ushort sym (num (pos n)))
unfolding decode_ushort encode_ushort
ushort-Survives sym a b h fits =
    let n = be_value 0 (a ∷ b ∷ []) in
    let small : n % 2 ^ 16 ≡ n = omega arith in
    (
      refl,
      parse_i64-to_string n (omega arith),
      rw (num_u32_num n (omega arith), range_check_ok sym n fits, small, be_two a b h),
    )

uchar-Survives :
    (sym : Symbol) (a : ℕ)
    → a < 256
    → Fits sym a
    → Survives sym a (a ∷ []) (ok (decode_uchar sym (a ∷ []))) (encode_uchar sym (num (pos a)))
unfolding decode_uchar encode_uchar
uchar-Survives sym a h fits =
    let small : a % 256 ≡ a = omega arith in
    (
      refl,
      parse_i64-to_string a (omega arith),
      rw (num_u32_num a (omega arith), range_check_ok sym a fits, small),
    )

-- The settings that are one number.
pub data Number : Type 0 where
  uint uint24 ushort uchar : Number

abbrev pub width : Number → ℕ
width uint = 4
width uint24 = 3
width ushort = 2
width uchar = 1

abbrev pub decoded : Number → Symbol → Bytes → Run Bytes
decoded uint sym v = decode_uint sym v
decoded uint24 sym v = decode_uint24 sym v
decoded ushort sym v = decode_ushort sym v
decoded uchar sym v = ok (decode_uchar sym v)

abbrev pub encoded : Number → Symbol → Value → Run Bytes
encoded uint sym value = encode_uint sym value
encoded uint24 sym value = encode_uint24 value
encoded ushort sym value = encode_ushort sym value
encoded uchar sym value = encode_uchar sym value

-- A three-byte number has no range.
abbrev pub InRange : Number → Symbol → ℕ → Type 0
InRange uint sym n = Fits sym n
InRange uint24 sym n = Unit {0}
InRange ushort sym n = Fits sym n
InRange uchar sym n = Fits sym n

-- A number of each width survives decoding and encoding: the decoder of the width prints its bytes
-- as a decimal, which is read as the same number, and the encoder of the width writes the same
-- bytes. There are as many bytes as the width asks for, and the number is in the symbol's range or
-- the symbol has none; a three-byte number needs no range.
pub numbers_survive :
    (kind : Number) (sym : Symbol) (v : Bytes)
    → All IsByte v
    → length v ≡ width kind
    → InRange kind sym (be_value 0 v)
    → Survives sym
        (be_value 0 v)
        v
        (decoded kind sym v)
        (encoded kind sym (num (pos (be_value 0 v))))
numbers_survive uint sym (a ∷ b ∷ c ∷ d ∷ []) h len fits = uint-Survives sym a b c d h fits
numbers_survive uint24 sym (a ∷ b ∷ c ∷ []) h len fits = uint24-Survives sym a b c h
numbers_survive ushort sym (a ∷ b ∷ []) h len fits = ushort-Survives sym a b h fits
numbers_survive uchar sym (a ∷ []) (h, _) len fits =
    let e : be_value 0 (a ∷ []) ≡ a = omega arith in
    rw e (uchar-Survives sym a h (subst (λ n. Fits sym n) e fits))
numbers_survive _ sym v h len fits = absurd (omega arith)

char_of-to_string : (b : ℕ) → b < 256 → char_of (to_string b) ≡ b
unfolding char_of
char_of-to_string b h = rw (trim-to_string b, parse_i64-to_string b (omega arith)) (omega arith)

map-char_of : (v : Bytes) → All IsByte v → map char_of (map to_string v) ≡ v
map-char_of [] h = refl
map-char_of (b ∷ v) (h, hs) = rw (char_of-to_string b h, map-char_of v hs)

char_parts : (v : Bytes) → nonempty (split b',' (join b',' (map to_string v))) ≡ map to_string v
char_parts [] = unfold join split_on nonempty in refl
char_parts (b ∷ v) =
    rw
      (split-join b',' (to_string b) (map to_string v) (Lacks-to_string b',' b (omega arith)) (
        All-map (λ x. Unit {0}) (Lacks b',') to_string (λ x _. Lacks-to_string b',' x (omega arith))
          v (all_unit v)))
      (nonempty-All (map to_string (b ∷ v)) (
        to_string-ne-nil b,
        All-map (λ x. Unit {0}) (λ p. p ≢ []) to_string (λ x _. to_string-ne-nil x) v (all_unit v),
      ))
  where
    all_unit : (xs : Bytes) → All (λ x. Unit {0}) xs
    all_unit [] = tt
    all_unit (x ∷ xs) = (tt, all_unit xs)

-- A list of two to 128 characters survives: the decoder prints the bytes in decimal with commas
-- between, and the encoder reads that text as the same bytes. (A single character is printed without
-- a comma and is a number, no text, when it is read.)
pub char_list_survives :
    (sym : Symbol) (v : Bytes)
    → All IsByte v
    → 2 ≤ length v
    → length v ≤ 128
    → (t : Bytes) × (decode_char_list sym v ≡ line sym t) × (encode_char_list (text t) ≡ ok v)
unfolding decode_char_list encode_char_list as_text
char_list_survives sym v h two few =
    (join b',' (map to_string v), refl, rw (char_parts v, map-char_of v h))

next_tag-to_string :
    (n : ℕ) (parts : List Bytes) → n < 2 ^ 16 → next_tag (to_string n ∷ parts) ≡ (n, parts)
unfolding next_tag
next_tag-to_string n parts h =
    rw (trim-to_string n, from_str_radix-to_string u16_max n (omega arith) (omega arith))

-- A pair of VLAN tags survives: four bytes are printed as two decimals with a comma between, and
-- read as the same bytes.
pub dual_qtag_survives :
    (sym : Symbol) (a b c d : ℕ)
    → All IsByte (a ∷ b ∷ c ∷ d ∷ [])
    → (t : Bytes) × (decode_dual_qtag sym (a ∷ b ∷ c ∷ d ∷ []) ≡ ok (line sym t))
      × (encode_dual_qtag (text t) ≡ ok (a ∷ b ∷ c ∷ d ∷ []))
unfolding decode_dual_qtag encode_dual_qtag as_text join
dual_qtag_survives sym a b c d (ha, (hb, (hc, (hd, _)))) =
    let m = be_value 0 (a ∷ b ∷ []) in
    let n = be_value 0 (c ∷ d ∷ []) in
    (
      to_string m ++ b',' ∷ to_string n,
      refl,
      rw
          (
            split-join b',' (to_string m) (to_string n ∷ []) (Lacks-to_string b',' m (omega arith))
                (Lacks-to_string b',' n (omega arith), tt),
            next_tag-to_string m (to_string n ∷ []) (omega arith),
            next_tag-to_string n [] (omega arith),
          )
          (ap₂ (λ (x y : Bytes). ok (x ++ y)) (be_two a b (ha, (hb, tt)))
            (be_two c d (hc, (hd, tt)))),
    )

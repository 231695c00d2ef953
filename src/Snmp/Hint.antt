-- ===== src/Snmp/Hint.antt =====
-- src/snmp.rs: `hinted_integer`, an integer printed by a DISPLAY-HINT.
use mathlib.Core.Option
use docsis_config_generator.Common.{
  ℕ, zero, suc, ◌+◌, ◌-◌, ◌/◌, ◌%◌, ◌^◌, Bool, true, false, [], ◌∷◌, ◌++◌, leb, ◌==◌, if◌then◌else◌,
  length, take, drop, replicate, Bytes, ℤ, pos, negsuc, wrap,
}
use docsis_config_generator.Text.{from_str_radix, u64_max, hex_digit, to_string, i64_to_string}

-- The digits of a `u64` in base 8 or 16; 22 places are enough for both.
unfoldable pub radix_digits : ℕ → ℕ → ℕ → Bytes
radix_digits radix zero n = []
radix_digits radix (suc places) n =
    let front = radix_digits radix places (n / radix) in
    (if n / radix == 0 then [] else front) ++ hex_digit (n % radix) ∷ []

-- The lower bits of a pattern, highest first.
unfoldable pub bits : ℕ → ℕ → Bytes
bits zero w = []
bits (suc i) w = (b'0' + w / 2 ^ i % 2) ∷ bits i w

-- `-v` of a negative `i64`, which wraps around at the least one.
unfoldable pub magnitude : ℤ → ℤ
magnitude (pos n) = pos n
magnitude (negsuc n) = if n == 2 ^ 63 - 1 then negsuc n else pos (suc n)

is_negative : ℤ → Bool
is_negative (pos n) = false
is_negative (negsuc n) = true

-- `format!("{:x}", v)` and `{:o}` print the 64-bit pattern.
in_radix : ℕ → ℤ → Bytes
in_radix radix v = radix_digits radix 22 (wrap (2 ^ 64) v)

decimal : ℕ → ℤ → Bytes
unfolding in_radix
decimal decimal_type v =
    if decimal_type == b'u'
    then to_string (wrap (2 ^ 64) v)
    else if decimal_type == b'x'
    then in_radix 16 v
    else if decimal_type == b'o'
    then in_radix 8 v
    else i64_to_string v

-- The digits behind `d-`, else 0.
shift_of : Bytes → ℕ
shift_of (d ∷ dash ∷ rest) =
    if dash == b'-' then Option.get_or (from_str_radix 10 u64_max rest) 0 else 0
shift_of _ = 0

unfoldable pub place_point : ℕ → Bytes → Bytes
place_point shift text =
    let len = length text in
    if shift == 0
    then text
    else if leb shift len
    then take (len - shift) text ++ b'.' ∷ drop (len - shift) text
    else b'.' ∷ (replicate (shift - len) b'0' ++ text)

unfoldable pub hinted_integer : ℤ → ℕ → Bytes → Bytes
unfolding is_negative in_radix decimal shift_of
hinted_integer val decimal_type [] = i64_to_string val
hinted_integer val decimal_type (h ∷ hint) =
    if h == b'd'
    then (let text = place_point (shift_of (h ∷ hint)) (decimal decimal_type (magnitude val)) in
        if is_negative val then b'-' ∷ text else text)
    else if h == b'x'
    then in_radix 16 val
    else if h == b'o'
    then in_radix 8 val
    else if h == b'b'
    then bits 32 (wrap (2 ^ 64) val)
    else i64_to_string val

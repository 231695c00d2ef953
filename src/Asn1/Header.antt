-- ===== src/Asn1/Header.antt =====
-- src/asn1.rs: tags and lengths, `build_length` and `build_header` against `parse_tlv`.
use docsis_config_generator.Common.{
  ℕ, ◌+◌, ◌/◌, ◌%◌, ◌^◌, ◌<◌, ◌≡◌, refl, some, [], ◌∷◌, ◌++◌, arith, length, take, length-append,
  take-append, take-le, be_value, Bytes, ltb, if◌then◌else◌, append_assoc,
}
use docsis_config_generator.Asn1.{build_header, build_string, parse_tlv}

abbrev pub header_len : ℕ → ℕ
header_len len = if ltb len 0x80 then 2 else if ltb len 0x100 then 3 else 4

pub length-build_header : (tag len : ℕ) → length (build_header tag len) ≡ header_len len
unfolding build_header
length-build_header tag len = ground arith

pub length-build_string :
    (tag : ℕ) (value : Bytes)
    → length (build_string tag value) ≡ header_len (length value) + length value
unfolding build_string
length-build_string tag value = omega (
  arith,
  length-append (build_header tag (length value)) value,
  length-build_header tag (length value),
)

-- A header read back, with the length as a variable.
parse_tlv_at :
    (tag len : ℕ) (value rest : Bytes)
    → length value ≡ len
    → len < 2 ^ 16
    → parse_tlv (build_header tag len ++ (value ++ rest))
      ≡ some (record { tag = tag; value = take len (value ++ rest); header_len = header_len len })
unfolding build_header parse_tlv
parse_tlv_at tag len value rest e h = ground (arith, length-append value rest)

take_at : (len : ℕ) (value rest : Bytes) → length value ≡ len → take len (value ++ rest) ≡ value
take_at len value rest e = rw (← e) (take-append value rest)

-- A value of at most 65535 octets behind the header built for it is read back whole, whatever
-- follows it: `parse_tlv` returns the tag, the value and the length of the header.
pub parse_tlv-build_string :
    (tag : ℕ) (value rest : Bytes)
    → length value < 2 ^ 16
    → parse_tlv (build_string tag value ++ rest)
      ≡ some (record { tag = tag; value = value; header_len = header_len (length value) })
unfolding build_string
parse_tlv-build_string tag value rest h = rw (
  append_assoc (build_header tag (length value)) value rest,
  parse_tlv_at tag (length value) value rest refl h,
  take-append value rest,
)

-- The two-octet and the four-octet header, around all that follows.
pub parse_tlv_short :
    (tag : ℕ) (value : Bytes)
    → length value < 0x80
    → parse_tlv (tag ∷ (length value % 256) ∷ value)
      ≡ some (record { tag = tag; value = value; header_len = 2 })
unfolding parse_tlv
parse_tlv_short tag value h =
    let whole : take (length value % 256) value ≡ value =
      take-le (length value % 256) value (omega arith) in
    rw whole (ground arith)

pub parse_tlv_long :
    (tag : ℕ) (value : Bytes)
    → length value < 2 ^ 16
    → parse_tlv (tag ∷ 0x82 ∷ (length value / 256 % 256) ∷ (length value % 256) ∷ value)
      ≡ some (record { tag = tag; value = value; header_len = 4 })
unfolding parse_tlv
parse_tlv_long tag value h =
    let len : be_value 0 ((length value / 256 % 256) ∷ (length value % 256) ∷ []) ≡ length value =
      omega arith in
    rw (len, take-le (length value) value (omega arith)) (ground arith)

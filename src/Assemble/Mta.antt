-- ===== src/Assemble/Mta.antt =====
-- src/main.rs: the configuration hash and the dial plan of an MTA file.
use docsis_config_generator.Common.{
  ℕ, ◌+◌, ◌-◌, ◌%◌, ◌^◌, [], ◌∷◌, ◌++◌, ltb, ◌==◌, if◌then◌else◌, length, take, be_bytes, Bytes,
}

abbrev pub mta_end : Bytes
mta_end = 0xfe ∷ 0x01 ∷ 0xff ∷ []

abbrev pub na_hash_prefix : Bytes
na_hash_prefix =
    0x0b ∷ 0x28 ∷ 0x30 ∷ 0x26 ∷ 0x06 ∷ 0x0e ∷ 0x2b ∷ 0x06 ∷ 0x01 ∷ 0x04 ∷ 0x01 ∷ 0xa3 ∷ 0x0b ∷ 0x02
    ∷ 0x02 ∷ 0x01 ∷ 0x01 ∷ 0x02 ∷ 0x07 ∷ 0x00 ∷ 0x04 ∷ 0x14 ∷ []

abbrev pub eu_hash_prefix : Bytes
eu_hash_prefix =
    0x0b ∷ 0x26 ∷ 0x30 ∷ 0x24 ∷ 0x06 ∷ 0x0c ∷ 0x2b ∷ 0x06 ∷ 0x01 ∷ 0x04 ∷ 0x01 ∷ 0xba ∷ 0x08 ∷ 0x01
    ∷ 0x01 ∷ 0x02 ∷ 0x09 ∷ 0x00 ∷ 0x04 ∷ 0x14 ∷ []

abbrev pub hash_prefix : ℕ → Bytes
hash_prefix hash = if hash == 1 then na_hash_prefix else eu_hash_prefix

unfoldable pub add_mta_hash : (Bytes → Bytes) → ℕ → Bytes → Bytes
add_mta_hash sha1 hash buf =
    if ltb (length buf) 3
    then buf
    else take (length buf - 3) buf ++ (hash_prefix hash ++ (sha1 buf ++ mta_end))

abbrev pub dialplan_asn_oid : Bytes
dialplan_asn_oid =
    0x06 ∷ 0x12 ∷ 0x2b ∷ 0x06 ∷ 0x01 ∷ 0x04 ∷ 0x01 ∷ 0xa3 ∷ 0x0b ∷ 0x02 ∷ 0x02 ∷ 0x08 ∷ 0x02 ∷ 0x01
    ∷ 0x01 ∷ 0x03 ∷ 0x01 ∷ 0x01 ∷ 0x02 ∷ 0x01 ∷ []

-- The length that follows the TLV's code; each `as u16` keeps 16 bits.
unfoldable pub dialplan_outer : ℕ → ℕ
dialplan_outer size =
    (if ltb 0x7f size
      then 2 + 2 + 20 + 2 + 2 + size
      else if ltb 0x69 size
      then 2 + 2 + 20 + 1 + 1 + size
      else 1 + 1 + 20 + 1 + 1 + size)
    % 2 ^ 16

-- The header of the SEQUENCE.
unfoldable pub dialplan_sequence : ℕ → Bytes
dialplan_sequence size =
    let inner = if ltb 0x7f size then 20 + 2 + 2 + size else 20 + 1 + 1 + size in
    0x30
    ∷ (if ltb (0x16 + size) 0x80
        then ((0x16 + size) % 256) ∷ []
        else 0x82 ∷ be_bytes 2 (inner % 2 ^ 16))

unfoldable pub dialplan_string : Bytes → Bytes
dialplan_string body =
    let size = length body in
    0x04
    ∷ ((if ltb 0x7f size then 0x82 ∷ be_bytes 2 (size % 2 ^ 16) else (size % 256) ∷ []) ++ body)

unfoldable pub dialplan_value : Bytes → Bytes
dialplan_value body = dialplan_sequence (length body) ++ (dialplan_asn_oid ++ dialplan_string body)

unfoldable pub add_dialplan : Bytes → Bytes → Bytes
add_dialplan body buf =
    if ltb (length buf) 3
    then buf
    else take (length buf - 3) buf
      ++ (0x40 ∷ (be_bytes 2 (dialplan_outer (length body)) ++ (dialplan_value body ++ mta_end)))

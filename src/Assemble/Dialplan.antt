-- ===== src/Assemble/Dialplan.antt =====
-- src/main.rs: the dial plan that `add_dialplan` writes, read back.
use docsis_config_generator.Common.{
  ℕ, ◌+◌, ◌/◌, ◌%◌, ◌^◌, ◌<◌, ◌≡◌, some, List, [], ◌∷◌, ◌++◌, ltb, if◌then◌else◌, length, drop,
  Bytes, arith, Bool-cases, inl, inr,
}
use mathlib.Core.Option
use docsis_config_generator.Asn1.{parse_tlv, parse_objid_tlv, parse_binding, parse_var_op}
use docsis_config_generator.Asn1.{build_string, build_header}
use docsis_config_generator.Asn1.Header.{parse_tlv_short, parse_tlv_long, parse_tlv-build_string}
use docsis_config_generator.Assemble.Mta.{
  dialplan_asn_oid, dialplan_outer, dialplan_sequence, dialplan_string, dialplan_value,
}

abbrev pub dialplan_name : List ℕ
dialplan_name = 1 ∷ 3 ∷ 6 ∷ 1 ∷ 4 ∷ 1 ∷ 4491 ∷ 2 ∷ 2 ∷ 8 ∷ 2 ∷ 1 ∷ 1 ∷ 3 ∷ 1 ∷ 1 ∷ 2 ∷ 1 ∷ []

abbrev string_header : Bytes → ℕ
string_header body = if ltb 0x7f (length body) then 4 else 2

string_tlv :
    (body : Bytes)
    → length body < 2 ^ 16
    → parse_tlv (dialplan_string body)
      ≡ some (record { tag = 4; value = body; header_len = string_header body })
unfolding dialplan_string
string_tlv body h = elim (Bool-cases (ltb 0x7f (length body))) [
  | inl wide ↦
      let hi : length body % 2 ^ 16 / 256 ^ 1 % 256 ≡ length body / 256 % 256 = omega arith in
      let lo : length body % 2 ^ 16 / 256 ^ 0 % 256 ≡ length body % 256 = omega arith in
      rw (wide, hi, lo) (parse_tlv_long 4 body h)
  | inr narrow ↦ rw narrow (parse_tlv_short 4 body (ground arith))
]

-- The object identifier and the string.
abbrev inner : Bytes → Bytes
inner body = dialplan_asn_oid ++ dialplan_string body

length-inner : (body : Bytes) → length (inner body) ≡ string_header body + (20 + length body)
unfolding dialplan_string
length-inner body = elim (Bool-cases (ltb 0x7f (length body))) [
  | inl wide ↦ rw wide (omega arith)
  | inr narrow ↦ rw narrow (omega arith)
]

abbrev name_body : Bytes
name_body = drop 2 dialplan_asn_oid

name_tlv :
    (rest : Bytes)
    → parse_tlv (dialplan_asn_oid ++ rest)
      ≡ some (record { tag = 6; value = name_body; header_len = 2 })
name_tlv rest =
    unfold build_string build_header in parse_tlv-build_string 6 name_body rest (omega arith)

inner_binding :
    (body : Bytes)
    → length body < 2 ^ 16
    → parse_binding (inner body) ≡ some (record { name = dialplan_name; val_type = 4; val = body })
unfolding parse_binding parse_objid_tlv Option.bind
inner_binding body h = rw (name_tlv (dialplan_string body), string_tlv body h)

value_tlv :
    (body : Bytes)
    → length body + 28 < 2 ^ 16
    → (header : ℕ) × (parse_tlv (dialplan_value body)
        ≡ some (record { tag = 0x30; value = inner body; header_len = header }))
unfolding dialplan_value dialplan_sequence
value_tlv body h = elim (Bool-cases (ltb (0x16 + length body) 0x80)) [
  | inl narrow ↦
      let e : 0x16 + length body ≡ length (inner body) = ground (arith, length-inner body) in
      (2, rw (narrow, e) (parse_tlv_short 0x30 (inner body) (ground (arith, length-inner body))))
  | inr wide ↦
      let n =
        if ltb 0x7f (length body) then 20 + 2 + 2 + length body else 20 + 1 + 1 + length body in
      let e : n ≡ length (inner body) = ground (arith, length-inner body) in
      let hi : n % 2 ^ 16 / 256 ^ 1 % 256 ≡ length (inner body) / 256 % 256 =
        omega (arith, e, length-inner body) in
      let lo : n % 2 ^ 16 / 256 ^ 0 % 256 ≡ length (inner body) % 256 =
        omega (arith, e, length-inner body) in
      (4, rw (wide, hi, lo) (parse_tlv_long 0x30 (inner body) (ground (arith, length-inner body))))
]

length-dialplan_value :
    (body : Bytes)
    → length body + 28 < 2 ^ 16
    → dialplan_outer (length body) ≡ length (dialplan_value body)
unfolding dialplan_value dialplan_outer dialplan_sequence
length-dialplan_value body h = ground (arith, length-inner body)

-- The dial plan is written as one variable binding that reads back as the dial plan object with the
-- file's contents, in each of the three forms of the lengths, and the length in front of it is the
-- binding's own, for a file of at most 65507 bytes.
pub parse_var_op-dialplan_value :
    (body : Bytes)
    → length body + 28 < 2 ^ 16
    → (parse_var_op (dialplan_value body)
        ≡ some (record { name = dialplan_name; val_type = 4; val = body }))
      × (dialplan_outer (length body) ≡ length (dialplan_value body))
unfolding parse_var_op Option.bind
parse_var_op-dialplan_value body h =
    let (header, e) = value_tlv body h in
    (rw e (inner_binding body (omega arith)), length-dialplan_value body h)

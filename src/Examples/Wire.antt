-- ===== src/Examples/Wire.antt =====
-- Encoded values of the wire formats.
use mathlib.Core.Option
use docsis_config_generator.Common.{
  ℕ, ◌%◌, ◌^◌, pos, ◌+◌, ◌<◌, ◌≤◌, ◌≡◌, refl, true, some, none, List, [], ◌∷◌, ◌++◌, length,
  replicate, Bytes, IsByte, All, negsuc, arith, inr, length-append,
}
use docsis_config_generator.Text.{
  ascii, split, split_on, from_str_radix, digits_nonempty, digits_value, next_digit, to_digit,
  is_digit,
}
use docsis_config_generator.Asn1.{
  parse_tlv, build_string, build_objid, parse_objid, parse_int, int_content, parse_unsigned,
  unsigned_content, parse_var_op, build_var_op, asn_object_id, encode_subids, pack_arcs,
}
use docsis_config_generator.Asn1.Header.{parse_tlv-build_string, header_len, length-build_string}
use docsis_config_generator.Asn1.Number.{
  parse_int-int_content, IsShortest, parse_unsigned-unsigned_content, IsNonneg,
}
use docsis_config_generator.Asn1.ObjectId.{
  parse_objid-build_objid, build_objid_collides, length-encode_subids, length-pack_arcs,
}
use docsis_config_generator.Asn1.VarOp.{binding, parse_var_op-build_var_op, parse_var_op_overlong}
use docsis_config_generator.Mib.{Mib}
use docsis_config_generator.Snmp.{VarValue, node_size_ok, size_ok, in_some_range}
use docsis_config_generator.Snmp.Bindings.{Reads, numbers_read, string_read}
use docsis_config_generator.Ethermac.{ether_aton, aton_slots, aton_group}
use docsis_config_generator.Ethermac.RoundTrip.{ether_aton-shape}

abbrev sys_contact : List ℕ
sys_contact = 1 ∷ 3 ∷ 6 ∷ 1 ∷ 2 ∷ 1 ∷ 1 ∷ 4 ∷ 0 ∷ []

abbrev contact : Bytes
contact = ascii "admin"

-- Long enough for a header of three octets.
abbrev long_value : Bytes
long_value = replicate 200 b'x'

parse_tlv-build_string_example :
    parse_tlv (build_string 4 long_value ++ contact)
    ≡ some (record { tag = 4; value = long_value; header_len = header_len (length long_value) })
parse_tlv-build_string_example = parse_tlv-build_string 4 long_value contact (omega arith)

parse_int-int_content_example :
    (parse_int (int_content (negsuc 128)) ≡ negsuc 128) × IsShortest (int_content (negsuc 128))
parse_int-int_content_example = parse_int-int_content (negsuc 128) (omega arith)

parse_unsigned-unsigned_content_example :
    (parse_unsigned (unsigned_content 200) ≡ 200) × IsNonneg (unsigned_content 200)
parse_unsigned-unsigned_content_example = parse_unsigned-unsigned_content 200 (omega arith)

parse_objid-build_objid_example :
    Option.bind (build_objid asn_object_id (1 ∷ 3 ∷ 6 ∷ 1 ∷ 4 ∷ 1 ∷ 4491 ∷ [])) parse_objid
    ≡ some (1 ∷ 3 ∷ 6 ∷ 1 ∷ 4 ∷ 1 ∷ 4491 ∷ [])
parse_objid-build_objid_example =
    parse_objid-build_objid (1 ∷ 3 ∷ 6 ∷ 1 ∷ 4 ∷ 1 ∷ 4491 ∷ []) (ground arith) (omega arith)

build_objid_collides_example :
    build_objid asn_object_id (0 ∷ 43 ∷ 6 ∷ []) ≡ build_objid asn_object_id (1 ∷ 3 ∷ 6 ∷ [])
build_objid_collides_example = build_objid_collides asn_object_id 3 (6 ∷ [])

-- The name takes 44 octets at most.
length-binding :
    (val : Bytes)
    → (length (build_string 4 val) ≤ length (binding sys_contact 4 val))
      × (length (binding sys_contact 4 val) ≤ 44 + length (build_string 4 val))
length-binding val =
    let body = encode_subids (pack_arcs sys_contact) in
    let valid = parts in
    (
      omega (arith, length-append (build_string asn_object_id body) (build_string 4 val)),
      grind (
        arith,
        length-append (build_string asn_object_id body) (build_string 4 val),
        length-build_string asn_object_id body,
        length-encode_subids (pack_arcs sys_contact),
        valid,
      ),
    )
  where
    parts : length (pack_arcs sys_contact) < length sys_contact
    parts = length-pack_arcs sys_contact (ground arith)

parse_var_op-build_var_op_example :
    parse_var_op (build_var_op sys_contact (build_string 4 contact) true)
    ≡ some (record { name = sys_contact; val_type = 4; val = contact })
parse_var_op-build_var_op_example =
    parse_var_op-build_var_op sys_contact 4 contact true (ground arith) (omega arith) (omega arith)
      (omega (arith, length-binding contact, length-build_string 4 contact))

parse_var_op_overlong_example :
    parse_var_op (build_var_op sys_contact (build_string 4 long_value) true) ≡ none
parse_var_op_overlong_example = parse_var_op_overlong sys_contact 4 long_value (ground arith) (
    inr (
      omega (arith, length-binding long_value, length-build_string 4 long_value),
      omega (arith, length-binding long_value, length-build_string 4 long_value),
    ))

mac_read : ether_aton (ascii "00:1a:2b:3c:4d:5e") ≡ some (0 ∷ 0x1a ∷ 0x2b ∷ 0x3c ∷ 0x4d ∷ 0x5e ∷ [])
unfolding ether_aton aton_slots aton_group split_on from_str_radix digits_nonempty digits_value
    next_digit to_digit is_digit Option.bind
mac_read = refl

ether_aton-shape_example :
    (length (split b':' (ascii "00:1a:2b:3c:4d:5e")) ≡ 6)
    × (length {A = ℕ} (0 ∷ 0x1a ∷ 0x2b ∷ 0x3c ∷ 0x4d ∷ 0x5e ∷ []) ≡ 6)
    × All IsByte (0 ∷ 0x1a ∷ 0x2b ∷ 0x3c ∷ 0x4d ∷ 0x5e ∷ [])
ether_aton-shape_example =
    ether_aton-shape (ascii "00:1a:2b:3c:4d:5e") (0 ∷ 0x1a ∷ 0x2b ∷ 0x3c ∷ 0x4d ∷ 0x5e ∷ [])
      mac_read

-- A MIB that knows one name, and a node of up to 255 bytes.
abbrev contact_mib : Mib
contact_mib = record {
  resolve_oid = λ name. some sys_contact;
  resolve_oid_numeric_first = λ name. none;
  read_objid = λ name. none;
  get_node = λ name. none;
  get_tree = λ oid. some (record { ranges = (pos 0, pos 255) ∷ []; enums = []; hint = none });
  sprint_objid = λ oid format. [];
}

numbers_read_example :
    Reads contact_mib
      (ascii "sysContact.0")
      sys_contact
      (VarValue.int (negsuc 300))
      0x02
      (λ content. parse_int content ≡ negsuc 300)
    × Reads contact_mib
        (ascii "sysContact.0")
        sys_contact
        (VarValue.gauge 4000000000)
        0x42
        (λ content. parse_unsigned content % 2 ^ 32 ≡ 4000000000)
    × Reads contact_mib
        (ascii "sysContact.0")
        sys_contact
        (VarValue.counter 4000000000)
        0x41
        (λ content. parse_unsigned content % 2 ^ 32 ≡ 4000000000)
    × Reads contact_mib
        (ascii "sysContact.0")
        sys_contact
        (VarValue.time_ticks 4000000000)
        0x43
        (λ content. parse_unsigned content % 2 ^ 32 ≡ 4000000000)
numbers_read_example =
    numbers_read contact_mib (ascii "sysContact.0") sys_contact (negsuc 300) 4000000000 refl
      (ground arith) (omega arith) (omega arith) (omega arith)

string_read_example :
    Reads contact_mib
      (ascii "sysContact.0")
      sys_contact
      (VarValue.str contact)
      0x04
      (λ content. content ≡ contact)
string_read_example =
    string_read contact_mib (ascii "sysContact.0") sys_contact contact refl (ground arith)
      (omega arith) (omega arith) (unfold node_size_ok size_ok in_some_range in refl)
      (omega (arith, length-binding contact, length-build_string 4 contact))

-- ===== src/Snmp.antt =====
-- src/snmp.rs: variable bindings and object identifiers as TLV values, and as text. Diagnostics on
-- standard error are left out.
pub mod Hint
pub mod Bindings
use mathlib.Core.Option
use docsis_config_generator.Common.{
  ℕ, ◌+◌, ◌-◌, ◌%◌, ◌^◌, Bool, true, false, ◌&&◌, ◌||◌, Option, none, some, List, [], ◌∷◌, ◌++◌,
  ltb, leb, ◌==◌, if◌then◌else◌, length, get_or, Bytes, ℤ, pos, negsuc, wrap,
}
use docsis_config_generator.Text.{ascii, hex_byte, to_string, i64_to_string, bytes_eq}
use docsis_config_generator.Mib.{Mib, Syntax, OidFormat, suffix, full, numeric}
use docsis_config_generator.Asn1
use docsis_config_generator.Asn1.{VarBind}
use docsis_config_generator.Snmp.Hint.{hinted_integer}

pub data VarValue : Type 0 where
  int : ℤ → VarValue
  gauge counter time_ticks : ℕ → VarValue
  str : Bytes → VarValue
  ip : Bytes → VarValue
  oid : Bytes → VarValue

-- `v as i32 as i64 as u64` of a `u32`: the sign bit is spread over the upper half.
unfoldable pub sign_extend : ℕ → ℕ
sign_extend v = if ltb v (2 ^ 31) then v else 2 ^ 64 - 2 ^ 32 + v

-- `a <= b` on `i64`.
abbrev pub leb_ℤ : ℤ → ℤ → Bool
leb_ℤ (pos a) (pos b) = leb a b
leb_ℤ (pos a) (negsuc b) = false
leb_ℤ (negsuc a) (pos b) = true
leb_ℤ (negsuc a) (negsuc b) = leb b a

unfoldable pub in_some_range : List (ℤ × ℤ) → ℤ → Bool
in_some_range [] n = false
in_some_range ((lo, hi) ∷ ranges) n = (leb_ℤ lo n && leb_ℤ n hi) || in_some_range ranges n

-- A string fits where the object has no SIZE clause or its length is in one of the ranges.
unfoldable pub size_ok : List (ℤ × ℤ) → Bytes → Bool
size_ok [] bytes = true
size_ok (r ∷ ranges) bytes = in_some_range (r ∷ ranges) (pos (length bytes))

unfoldable pub node_size_ok : Option Syntax → Bytes → Bool
unfolding size_ok
node_size_ok none bytes = true
node_size_ok (some syntax) bytes = size_ok syntax.ranges bytes

-- `first.or_else(|| second)`.
oid_or_else : Option (List ℕ) → Option (List ℕ) → Option (List ℕ)
oid_or_else (some o) second = some o
oid_or_else none second = second

module _ (mib : Mib) where
  -- The value TLV, and whether the short SEQUENCE header is chosen.
  unfoldable pub build_value : List ℕ → VarValue → Option (Bytes × Bool)
  unfolding node_size_ok oid_or_else
  build_value name (int v) = some (Asn1.build_int Asn1.asn_integer v, true)
  build_value name (gauge v) = some (Asn1.build_unsigned_int Asn1.asn_gauge (sign_extend v), true)
  build_value name (counter v) =
      some (Asn1.build_unsigned_int Asn1.asn_counter (sign_extend v), true)
  build_value name (time_ticks v) =
      some (Asn1.build_unsigned_int Asn1.asn_timeticks (sign_extend v), true)
  build_value name (ip addr) = some (Asn1.build_string Asn1.asn_ipaddress addr, true)
  build_value name (oid text) =
      Option.bind (oid_or_else (mib.read_objid text) (mib.get_node text))
        λ value_oid. Option.map (λ val. (val, true)) (Asn1.build_objid Asn1.asn_object_id value_oid)
  build_value name (str bytes) =
      if node_size_ok (mib.get_tree name) bytes
      then some
          (Asn1.build_string Asn1.asn_octet_str bytes, ltb (length bytes + length name + 8) 0x7f)
      else none

  unfoldable pub encode_vbind : Bytes → VarValue → Option Bytes
  encode_vbind oid_string value = Option.bind (mib.resolve_oid oid_string) λ name.
      Option.map (λ (val, short_header). Asn1.build_var_op name val short_header)
        (build_value name value)

  unfoldable pub encode_snmp_oid : Bytes → Option Bytes
  encode_snmp_oid oid_string =
      Option.bind (mib.resolve_oid_numeric_first oid_string) (Asn1.build_objid Asn1.asn_object_id)

  unfoldable pub decode_snmp_oid : Bytes → Bytes
  decode_snmp_oid bytes =
      Option.get_or (Option.map (λ o. mib.sprint_objid o numeric) (Asn1.parse_objid bytes)) []

unfoldable pub is_printable : Bytes → Bool
is_printable [] = true
is_printable (b ∷ s) = leb 0x20 b && leb b 0x7e && is_printable s

unfoldable pub hex_bytes : Bytes → Bytes
hex_bytes [] = []
hex_bytes (b ∷ s) = hex_byte b ++ hex_bytes s

unfoldable pub hexadecimal : Bytes → Bytes
unfolding hex_bytes
hexadecimal s = ascii "0x" ++ hex_bytes s

unfoldable pub type_label : ℕ → Bytes
type_label t =
    if t == 0x02
    then ascii "Integer"
    else if t == 0x41
    then ascii "Counter32"
    else if t == 0x42
    then ascii "Gauge32"
    else if t == 0x43
    then ascii "TimeTicks"
    else if t == 0x47
    then ascii "Unsigned32"
    else if t == 0x46
    then ascii "Counter64"
    else if t == 0x04
    then ascii "String"
    else if t == 0x40
    then ascii "IPAddress"
    else if t == 0x44
    then ascii "Opaque"
    else if t == 0x45
    then ascii "NSAP"
    else if t == 0x06
    then ascii "ObjectID"
    else if t == 0x03
    then ascii "BitString"
    else if t == 0x01
    then ascii "Boolean"
    else []

-- `Some(h) => hinted_integer(v, decimal_type, h), None => v.to_string()`.
with_hint : Option Bytes → ℕ → ℤ → Bytes
with_hint (some h) decimal_type v = hinted_integer v decimal_type h
with_hint none decimal_type v = i64_to_string v

-- The label and the text of a value.
module _ (mib : Mib) where
  unfoldable pub value_text : Option Bytes → ℕ → Bytes → Bytes × Bytes
  unfolding with_hint
  value_text hint t val =
      let label = type_label t in
      let unsigned = Asn1.parse_unsigned val in
      if t == 0x02
      then (label, with_hint hint b'd' (Asn1.parse_int val))
      else if t == 0x41 || t == 0x42 || t == 0x47
      then (label, with_hint hint b'u' (pos (unsigned % 2 ^ 32)))
      else if t == 0x43
      then (label, to_string (unsigned % 2 ^ 32))
      else if t == 0x46
      then (label, to_string unsigned)
      else if t == 0x04 || t == 0x44 || t == 0x45
      then (if is_printable val
          then (label, b'"' ∷ (val ++ b'"' ∷ []))
          else (ascii "HexString", hexadecimal val))
      else if t == 0x40
      then (
        label,
        if leb 4 (length val)
            then to_string (get_or val 0 0)
              ++ b'.'
                ∷ (to_string (get_or val 1 0)
                    ++ b'.' ∷ (to_string (get_or val 2 0) ++ b'.' ∷ to_string (get_or val 3 0)))
            else [],
      )
      else if t == 0x06
      then (
        label,
        Option.get_or (Option.map (λ o. mib.sprint_objid o numeric) (Asn1.parse_objid_body val)) [],
      )
      else if t == 0x03
      then (label, hexadecimal val)
      else (label, [])

-- `==` on `i64`.
eq_ℤ : ℤ → ℤ → Bool
eq_ℤ (pos a) (pos b) = a == b
eq_ℤ (negsuc a) (negsuc b) = a == b
eq_ℤ _ _ = false

enum_label : List (Bytes × ℤ) → ℤ → Option Bytes
unfolding eq_ℤ
enum_label [] v = none
enum_label ((label, ev) ∷ enums) v = if eq_ℤ ev v then some label else enum_label enums v

-- The comment with the enumeration label that ends a binding's text.
label_comment : Option Bytes → Bytes
label_comment none = []
label_comment (some e) = ascii " /* " ++ (e ++ ascii " */")

module _ (mib : Mib) where
  -- The name as printed, and the syntax of the node that the printed name leads back to.
  shown_name : Bool → List ℕ → Bytes × Option Syntax
  shown_name numeric_oids name =
      let oid_text = mib.sprint_objid name (if numeric_oids then numeric else suffix) in
      elim (mib.resolve_oid oid_text) [
        | some o ↦ (oid_text, mib.get_tree o)
        | none ↦ (mib.sprint_objid name full, none)
      ]

  binding_text : Bool → VarBind → Bytes
  unfolding shown_name enum_label label_comment
  binding_text numeric_oids vb =
      let (oid_text, node) = shown_name numeric_oids vb.name in
      let hint = Option.bind node (λ syntax. syntax.hint) in
      let (label, text) = value_text mib hint vb.val_type vb.val in
      let enum =
        if vb.val_type == 0x02
        then Option.bind node (λ syntax. enum_label syntax.enums (Asn1.parse_int vb.val))
        else none in
      oid_text ++ b' ' ∷ (label ++ b' ' ∷ (text ++ b';' ∷ label_comment enum))

  unfoldable pub decode_vbind : Bytes → Bool → Bytes
  unfolding binding_text
  decode_vbind bytes numeric_oids =
      Option.get_or (Option.map (binding_text numeric_oids) (Asn1.parse_var_op bytes)) []

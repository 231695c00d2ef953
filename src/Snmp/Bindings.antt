-- ===== src/Snmp/Bindings.antt =====
-- src/snmp.rs: the bindings that `encode_vbind` builds, read back.
use mathlib.Core.Option
use docsis_config_generator.Common.{
  ℕ, ◌+◌, ◌%◌, ◌^◌, ◌<◌, ◌≤◌, ◌≡◌, refl, ap, ◌∙◌, true, some, List, length, Bytes, ltb, ℤ, IsI64,
  arith, length-append,
}
use docsis_config_generator.Mib.{Mib}
use docsis_config_generator.Asn1.{
  parse_var_op, build_var_op, build_string, build_int, build_unsigned_int, int_content,
  unsigned_content, parse_int, parse_unsigned, asn_object_id, encode_subids, pack_arcs,
}
use docsis_config_generator.Asn1.Header.{length-build_string}
use docsis_config_generator.Asn1.Number.{
  parse_int-int_content, parse_unsigned-unsigned_content, length-int_content,
  length-unsigned_content,
}
use docsis_config_generator.Asn1.ObjectId.{IsOid, length-encode_subids, length-pack_arcs}
use docsis_config_generator.Asn1.VarOp.{binding, capacity, parse_var_op-build_var_op}
use docsis_config_generator.Snmp.{
  VarValue, int, str, node_size_ok, gauge, counter, time_ticks, encode_vbind, build_value,
  sign_extend,
}

-- A name of at most 23 arcs and a number leave room for the short header.
length-binding :
    (name : List ℕ) (tag : ℕ) (val : Bytes)
    → IsOid name
    → length name ≤ 23
    → length val ≤ 9
    → length (binding name tag val) < 0x80
length-binding name tag val h few small =
    let body = encode_subids (pack_arcs name) in
    grind (
      arith,
      length-append (build_string asn_object_id body) (build_string tag val),
      length-build_string asn_object_id body,
      length-build_string tag val,
      length-encode_subids (pack_arcs name),
      length-pack_arcs name h,
    )

-- `encode_vbind` builds a binding for the name and the value, `parse_var_op` reads it as the name,
-- the tag and a content, and the content is as `P` says.
abbrev pub Reads : Mib → Bytes → List ℕ → VarValue → ℕ → (Bytes → Type 0) → Type 0
Reads mib text name value tag P =
    (out content : Bytes) × (encode_vbind mib text value ≡ some out)
    × (parse_var_op out ≡ some (record { name = name; val_type = tag; val = content }))
    × P content

Reads-build_value :
    (mib : Mib) (text : Bytes) (name : List ℕ) (value : VarValue) (tag : ℕ) (content : Bytes)
    (P : Bytes → Type 0)
    → mib.resolve_oid text ≡ some name
    → IsOid name
    → length name ≤ 23
    → length content ≤ 9
    → build_value mib name value ≡ some (build_string tag content, true)
    → P content
    → Reads mib text name value tag P
Reads-build_value mib text name value tag content P found h few small e p = (
  build_var_op name (build_string tag content) true,
  content,
  unfold encode_vbind Option.bind in rw (found, e),
  parse_var_op-build_var_op name tag content true h (omega arith) (omega arith)
      (length-binding name tag content h few small),
  p,
)

sign_extend_low : (w : ℕ) → w < 2 ^ 32 → (sign_extend w < 2 ^ 64) × (sign_extend w % 2 ^ 32 ≡ w)
unfolding sign_extend
sign_extend_low w h = ground arith

-- A number that was encoded under a name is read back: for every value of the types INTEGER, Gauge,
-- Counter and TimeTicks, `parse_var_op` finds the resolved name, the tag of the type and a content
-- that the decoder reads as the same number, if the name resolves to a valid identifier of at most
-- 23 arcs. Of a Gauge, a Counter and TimeTicks the decoder keeps the lower 32 bits.
pub numbers_read :
    (mib : Mib) (text : Bytes) (name : List ℕ) (v : ℤ) (w : ℕ)
    → mib.resolve_oid text ≡ some name
    → IsOid name
    → length name ≤ 23
    → IsI64 v
    → w < 2 ^ 32
    → Reads mib text name (int v) 0x02 (λ content. parse_int content ≡ v)
      × Reads mib text name (gauge w) 0x42 (λ content. parse_unsigned content % 2 ^ 32 ≡ w)
      × Reads mib text name (counter w) 0x41 (λ content. parse_unsigned content % 2 ^ 32 ≡ w)
      × Reads mib text name (time_ticks w) 0x43 (λ content. parse_unsigned content % 2 ^ 32 ≡ w)
unfolding build_value build_int build_unsigned_int build_string
numbers_read mib text name v w found h few hv hw =
    let (whole, low) = sign_extend_low w hw in
    let (back, _) = parse_unsigned-unsigned_content (sign_extend w) whole in
    let content = unsigned_content (sign_extend w) in
    let small = length-unsigned_content (sign_extend w) in
    let read : parse_unsigned content % 2 ^ 32 ≡ w = ap (λ x. x % 2 ^ 32) back ∙ low in
    let (signed, _) = parse_int-int_content v hv in
    (
      Reads-build_value mib text name (int v) 0x02 (int_content v) _ found h few
          (omega (arith, length-int_content v)) refl signed,
      Reads-build_value mib text name (gauge w) 0x42 content _ found h few small refl read,
      Reads-build_value mib text name (counter w) 0x41 content _ found h few small refl read,
      Reads-build_value mib text name (time_ticks w) 0x43 content _ found h few small refl read,
    )

-- A string that was encoded under a name is read back, whatever its bytes, if the name resolves to a
-- valid identifier of at most 13,000 arcs, the string has less than 65536 bytes, the MIB's node of
-- the name, where there is one, has no sizes or has the string's length in one of them, and the
-- binding is shorter than 128 octets where the length and the number of arcs are below 119
-- together, and shorter than 65536 elsewhere.
pub string_read :
    (mib : Mib) (text : Bytes) (name : List ℕ) (bytes : Bytes)
    → mib.resolve_oid text ≡ some name
    → IsOid name
    → length name ≤ 13000
    → length bytes < 2 ^ 16
    → node_size_ok (mib.get_tree name) bytes ≡ true
    → length (binding name 4 bytes) < capacity (ltb (length bytes + length name + 8) 0x7f)
    → Reads mib text name (str bytes) 0x04 (λ content. content ≡ bytes)
unfolding encode_vbind build_value Option.bind
string_read mib text name bytes found h few short sized room =
    let short_header = ltb (length bytes + length name + 8) 0x7f in
    (
      build_var_op name (build_string 4 bytes) short_header,
      bytes,
      rw (found, sized),
      parse_var_op-build_var_op name 4 bytes short_header h few short room,
      refl,
    )

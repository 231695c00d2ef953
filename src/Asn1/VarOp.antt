-- ===== src/Asn1/VarOp.antt =====
-- src/asn1.rs: variable bindings, `build_var_op` against `parse_var_op`.
use mathlib.Core.Option
use docsis_config_generator.Common.{
  ℕ, ◌/◌, ◌%◌, ◌^◌, ◌<◌, ◌≤◌, ◌≡◌, ◌∙◌, Bool, true, false, some, none, List, [], ◌∷◌, ◌++◌, arith,
  length, drop-append, Bytes, append-nil, ◌⊎◌,
}
use docsis_config_generator.Asn1.{
  asn_object_id, asn_sequence, encode_subids, pack_arcs, build_string, parse_tlv, parse_binding,
  parse_var_op, build_var_op, objid_or_nothing,
}
use docsis_config_generator.Asn1.Header.{
  header_len, parse_tlv_short, parse_tlv_long, parse_tlv-build_string, length-build_string,
}
use docsis_config_generator.Asn1.ObjectId.{
  IsOid, build_objid_valid, parse_objid_body-encode_subids, length-encode_subids, length-pack_arcs,
}

-- The name and the value of a binding, one behind the other.
abbrev pub binding : List ℕ → ℕ → Bytes → Bytes
binding oid tag val =
    build_string asn_object_id (encode_subids (pack_arcs oid)) ++ build_string tag val

parse_binding_lem :
    (oid : List ℕ) (tag : ℕ) (val : Bytes)
    → IsOid oid
    → length oid ≤ 13000
    → length val < 2 ^ 16
    → parse_binding (binding oid tag val) ≡ some (record { name = oid; val_type = tag; val = val })
unfolding parse_binding Option.bind
parse_binding_lem oid tag val h len fits =
    let body = encode_subids (pack_arcs oid) in
    let short : length body < 2 ^ 16 =
      omega (arith, length-encode_subids (pack_arcs oid), length-pack_arcs oid h) in
    rw (
      parse_tlv-build_string asn_object_id body (build_string tag val) short,
      parse_objid_body-encode_subids oid h,
      ← length-build_string asn_object_id body,
      drop-append (build_string asn_object_id body) (build_string tag val),
      last,
    )
  where
    last :
        parse_tlv (build_string tag val)
        ≡ some (record { tag = tag; value = val; header_len = header_len (length val) })
    last = rw (append-nil (build_string tag val)) at (parse_tlv-build_string tag val [] fits)

objid_or_nothing_valid :
    (oid : List ℕ)
    → IsOid oid
    → objid_or_nothing oid ≡ build_string asn_object_id (encode_subids (pack_arcs oid))
unfolding objid_or_nothing
objid_or_nothing_valid oid h = rw (build_objid_valid asn_object_id oid h)

-- Both forms of the SEQUENCE header, read back.
parse_var_op_short :
    (inner : Bytes)
    → length inner < 0x80
    → parse_var_op (asn_sequence ∷ (length inner % 256) ∷ inner) ≡ parse_binding inner
unfolding parse_var_op Option.bind
parse_var_op_short inner h = rw (parse_tlv_short asn_sequence inner h)

parse_var_op_long :
    (inner : Bytes)
    → length inner < 2 ^ 16
    → parse_var_op (asn_sequence ∷ 0x82 ∷ (length inner / 256 % 256) ∷ (length inner % 256) ∷ inner)
      ≡ parse_binding inner
unfolding parse_var_op Option.bind
parse_var_op_long inner h = rw (parse_tlv_long asn_sequence inner h)

-- How many octets the chosen SEQUENCE header can announce.
abbrev pub capacity : Bool → ℕ
capacity true = 0x80
capacity false = 2 ^ 16

-- `parse_var_op` gives back the name, the type and the value of every binding that `build_var_op`
-- wrote, if the name is a valid identifier of at most 13,000 arcs, the value has less than 65536
-- octets, and the binding is shorter than 128 octets under the short header, than 65536 under the
-- long one.
pub parse_var_op-build_var_op :
    (oid : List ℕ) (tag : ℕ) (val : Bytes) (short_header : Bool)
    → IsOid oid
    → length oid ≤ 13000
    → length val < 2 ^ 16
    → length (binding oid tag val) < capacity short_header
    → parse_var_op (build_var_op oid (build_string tag val) short_header)
      ≡ some (record { name = oid; val_type = tag; val = val })
unfolding build_var_op
parse_var_op-build_var_op oid tag val true h len fits small =
    rw (objid_or_nothing_valid oid h)
      (parse_var_op_short (binding oid tag val) small ∙ parse_binding_lem oid tag val h len fits)
parse_var_op-build_var_op oid tag val false h len fits small =
    rw (objid_or_nothing_valid oid h)
      (parse_var_op_long (binding oid tag val) small ∙ parse_binding_lem oid tag val h len fits)

-- The forced short header is no BER length from 128 octets on: `parse_var_op` reads no binding of
-- 133 to 255 octets that was written with it, nor one of exactly 128.
pub parse_var_op_overlong :
    (oid : List ℕ) (tag : ℕ) (val : Bytes)
    → IsOid oid
    → (length (binding oid tag val) ≡ 128)
      ⊎ ((133 ≤ length (binding oid tag val)) × (length (binding oid tag val) ≤ 255))
    → parse_var_op (build_var_op oid (build_string tag val) true) ≡ none
unfolding build_var_op
parse_var_op_overlong oid tag val h wide =
    rw (objid_or_nothing_valid oid h) (unread (binding oid tag val) wide)
  where
    header :
        (inner : Bytes)
        → (length inner ≡ 128) ⊎ ((133 ≤ length inner) × (length inner ≤ 255))
        → parse_tlv (asn_sequence ∷ (length inner % 256) ∷ inner) ≡ none
    header inner w = unfold parse_tlv in ground arith

    unread :
        (inner : Bytes)
        → (length inner ≡ 128) ⊎ ((133 ≤ length inner) × (length inner ≤ 255))
        → parse_var_op (asn_sequence ∷ (length inner % 256) ∷ inner) ≡ none
    unread inner w = unfold parse_var_op Option.bind in rw (header inner w)

-- ===== src/Asn1/ObjectId.antt =====
-- src/asn1.rs: object identifiers, `build_objid` against `parse_objid`.
use mathlib.Core.Option
use docsis_config_generator.Common.{
  ℕ, zero, suc, ◌+◌, ◌*◌, ◌%◌, ◌^◌, ◌<◌, ◌≤◌, ◌≡◌, refl, ◌∙◌, true, false, some, List, [], ◌∷◌,
  arith, length, length-append, Bytes, IsU32, All, append-nil, ◌⊎◌,
}
use docsis_config_generator.Asn1.{
  asn_object_id, encode_subid, encode_subids, pack_arcs, unpack_arc, objid_loop, build_objid,
  build_string, parse_objid_body, parse_objid,
}
use docsis_config_generator.Asn1.Header.{parse_tlv-build_string}
use docsis_config_generator.Asn1.Subid.{objid_loop-encode_subid, length-encode_subid}

-- The object identifiers that BER can carry: two arcs at least, the first at most 2, the second
-- below 40 under 0 and 1, and every sub-identifier a `u32`.
abbrev pub IsOid : List ℕ → Type 0
IsOid (a ∷ b ∷ rest) = (((a < 2) × (b < 40)) ⊎ ((a ≡ 2) × (80 + b < 2 ^ 32))) × All IsU32 rest
IsOid (a ∷ []) = ⊥
IsOid [] = ⊥

objid_loop-encode_subids :
    (vs : List ℕ) → All IsU32 vs → objid_loop false false 0 (encode_subids vs) ≡ some vs
unfolding encode_subids
objid_loop-encode_subids [] h = unfold objid_loop in refl
objid_loop-encode_subids (v ∷ vs) (h, hs) =
    objid_loop-encode_subid v false (encode_subids vs) h
    ∙ rw (objid_loop-encode_subids vs hs) (unfold unpack_arc in refl)

unpack_arc-pack :
    (a b : ℕ)
    → (((a < 2) × (b < 40)) ⊎ ((a ≡ 2) × (80 + b < 2 ^ 32)))
    → unpack_arc true ((a * 40 + b) % 2 ^ 32) ≡ a ∷ b ∷ []
unfolding unpack_arc
unpack_arc-pack zero b h = ground arith
unpack_arc-pack (suc zero) b h = ground arith
unpack_arc-pack (suc (suc zero)) b h = ground arith
unpack_arc-pack (suc (suc (suc a))) b h = absurd (omega arith)

-- The content octets of an object identifier give it back.
pub parse_objid_body-encode_subids :
    (oid : List ℕ) → IsOid oid → parse_objid_body (encode_subids (pack_arcs oid)) ≡ some oid
unfolding parse_objid_body pack_arcs
parse_objid_body-encode_subids [] h = absurd h
parse_objid_body-encode_subids (a ∷ []) h = absurd h
parse_objid_body-encode_subids (a ∷ b ∷ rest) (h, hs) =
    unfold encode_subids in
    (objid_loop-encode_subid ((a * 40 + b) % 2 ^ 32) true (encode_subids rest) (omega arith)
      ∙ rw (objid_loop-encode_subids rest hs, unpack_arc-pack a b h))

pub length-encode_subids : (vs : List ℕ) → length (encode_subids vs) ≤ 5 * length vs
unfolding encode_subids
length-encode_subids [] = omega arith
length-encode_subids (v ∷ vs) = omega (
  arith,
  length-append (encode_subid v) (encode_subids vs),
  length-encode_subid v,
  length-encode_subids vs,
)

pub length-pack_arcs : (oid : List ℕ) → IsOid oid → length (pack_arcs oid) < length oid
unfolding pack_arcs
length-pack_arcs [] h = absurd h
length-pack_arcs (a ∷ []) h = absurd h
length-pack_arcs (a ∷ b ∷ rest) h = omega arith

-- A valid object identifier is built as its content behind a header.
pub build_objid_valid :
    (tag : ℕ) (oid : List ℕ)
    → IsOid oid
    → build_objid tag oid ≡ some (build_string tag (encode_subids (pack_arcs oid)))
unfolding build_objid build_string
build_objid_valid tag [] h = absurd h
build_objid_valid tag (a ∷ []) h = absurd h
build_objid_valid tag (a ∷ b ∷ rest) h = ground arith

parse_objid-build_string :
    (body : Bytes)
    → length body < 2 ^ 16
    → parse_objid (build_string asn_object_id body) ≡ parse_objid_body body
unfolding parse_objid Option.bind
parse_objid-build_string body h = rw (
    rw (append-nil (build_string asn_object_id body)) at
      (parse_tlv-build_string asn_object_id body [] h))

-- `parse_objid` gives back every valid object identifier of at most 13,000 arcs that `build_objid`
-- wrote, and `build_objid` refuses none of them.
pub parse_objid-build_objid :
    (oid : List ℕ)
    → IsOid oid
    → length oid ≤ 13000
    → Option.bind (build_objid asn_object_id oid) parse_objid ≡ some oid
unfolding Option.bind
parse_objid-build_objid oid h len =
    let short : length (encode_subids (pack_arcs oid)) < 2 ^ 16 =
      omega (arith, length-encode_subids (pack_arcs oid), length-pack_arcs oid h) in
    rw (build_objid_valid asn_object_id oid h) (
      parse_objid-build_string (encode_subids (pack_arcs oid)) short
      ∙ parse_objid_body-encode_subids oid h)

-- `build_objid` does not check the second arc, so two identifiers share one encoding: a second arc
-- of 40 or more under 0 is written as the identifier under 1 whose second arc is 40 less.
pub build_objid_collides :
    (tag b : ℕ) (rest : List ℕ)
    → build_objid tag (0 ∷ (40 + b) ∷ rest) ≡ build_objid tag (1 ∷ b ∷ rest)
unfolding build_objid pack_arcs
build_objid_collides tag b rest = let e : 0 * 40 + (40 + b) ≡ 1 * 40 + b = omega arith in rw e

-- ===== src/Assemble/Hash.antt =====
-- src/main.rs: the configuration hash that `add_mta_hash` writes, read back.
use docsis_config_generator.Common.{
  ℕ, suc, ◌+◌, ◌-◌, ◌%◌, ◌<◌, ◌≡◌, refl, ap, subst, ◌∙◌, sym, true, false, some, List, [], ◌∷◌,
  ◌++◌, ltb, ◌==◌, if◌then◌else◌, length, take, drop, Bytes, arith, length-append, append_assoc,
  take-append, drop-append, Bool-cases, inl, inr,
}
use mathlib.Core.Option
use docsis_config_generator.Asn1.{
  parse_tlv, parse_objid_body, parse_objid_tlv, parse_binding, parse_var_op, objid_loop, unpack_arc,
  build_string, build_header, build_length,
}
use docsis_config_generator.Asn1.Header.{parse_tlv_short, parse_tlv-build_string}
use docsis_config_generator.Assemble.Mta.{
  mta_end, na_hash_prefix, eu_hash_prefix, hash_prefix, add_mta_hash,
}
use docsis_config_generator.Assemble.Frames.{short, frame_bytes}

-- `pktcMtaDevConfigHash` of the two standards.
abbrev pub hash_name : ℕ → List ℕ
hash_name hash =
    if hash == 1
    then 1 ∷ 3 ∷ 6 ∷ 1 ∷ 4 ∷ 1 ∷ 4491 ∷ 2 ∷ 2 ∷ 1 ∷ 1 ∷ 2 ∷ 7 ∷ 0 ∷ []
    else 1 ∷ 3 ∷ 6 ∷ 1 ∷ 4 ∷ 1 ∷ 7432 ∷ 1 ∷ 1 ∷ 2 ∷ 9 ∷ 0 ∷ []

-- The value of the setting with code 11: what follows its code and its length.
abbrev pub hash_value : ℕ → Bytes → Bytes
hash_value hash digest = drop 2 (hash_prefix hash ++ digest)

short_string :
    (tag : ℕ) (value : Bytes)
    → length value < 0x80
    → build_string tag value ≡ tag ∷ length value ∷ value
unfolding build_string build_header build_length
short_string tag value h =
    let e : length value % 256 ≡ length value = omega arith in
    let narrow : ltb (length value) 0x80 ≡ true = ground arith in rw (narrow, e)

short_tlv :
    (tag : ℕ) (value rest : Bytes)
    → length value < 0x80
    → parse_tlv (tag ∷ length value ∷ (value ++ rest))
      ≡ some (record { tag = tag; value = value; header_len = 2 })
short_tlv tag value rest h =
    let narrow : ltb (length value) 0x80 ≡ true = ground arith in
    rw (short_string tag value h, narrow) at (parse_tlv-build_string tag value rest (omega arith))

last_tlv :
    (tag n : ℕ) (value : Bytes)
    → n ≡ length value
    → n < 0x80
    → parse_tlv (tag ∷ n ∷ value) ≡ some (record { tag = tag; value = value; header_len = 2 })
last_tlv tag n value e h =
    let whole : length value % 256 ≡ n = omega (arith, e) in
    subst
      (λ k.
        parse_tlv (tag ∷ k ∷ value) ≡ some (record { tag = tag; value = value; header_len = 2 }))
      whole (parse_tlv_short tag value (omega (arith, e)))

digest_binding :
    (name : Bytes) (oid : List ℕ) (digest : Bytes)
    → length name < 100
    → length digest ≡ 20
    → parse_objid_body name ≡ some oid
    → parse_var_op (0x30 ∷ (24 + length name) ∷ (6 ∷ length name ∷ (name ++ 4 ∷ 20 ∷ digest)))
      ≡ some (record { name = oid; val_type = 4; val = digest })
unfolding parse_var_op parse_binding parse_objid_tlv Option.bind
digest_binding name oid digest small twenty ok =
    let string : Bytes = 4 ∷ 20 ∷ digest in
    let inner : Bytes = 6 ∷ length name ∷ (name ++ string) in
    let len : 24 + length name ≡ length inner = omega (arith, length-append name string) in
    let seq = last_tlv 0x30 (24 + length name) inner len (omega arith) in
    let val = last_tlv 4 20 digest (omega (arith, twenty)) (omega arith) in
    let two : 2 + length name ≡ suc (suc (length name)) = omega arith in
    rw (seq, short_tlv 6 name string (omega arith), ok, two, drop-append name string, val)

hash_value_lem :
    (hash : ℕ) (digest : Bytes)
    → length digest ≡ 20
    → (hash_prefix hash ++ digest ≡ frame_bytes (short 11 (hash_value hash digest)))
      × (parse_var_op (hash_value hash digest)
          ≡ some (record { name = hash_name hash; val_type = 4; val = digest }))
hash_value_lem hash digest twenty = elim (Bool-cases (hash == 1)) [
  | inl na ↦ rw na (
    ap (λ n. 11 ∷ n ∷ drop 2 (na_hash_prefix ++ digest)) (omega arith),
    digest_binding (take 14 (drop 6 na_hash_prefix)) (hash_name 1) digest (omega arith) twenty
        (unfold parse_objid_body objid_loop unpack_arc in refl),
  )
  | inr eu ↦ rw eu (
    ap (λ n. 11 ∷ n ∷ drop 2 (eu_hash_prefix ++ digest)) (omega arith),
    digest_binding (take 12 (drop 6 eu_hash_prefix)) (hash_name 2) digest (omega arith) twenty
        (unfold parse_objid_body objid_loop unpack_arc in refl),
  )
]

-- The configuration hash replaces the end marker of an MTA file and is followed by a new one: a
-- setting of code 11, of the length that stands in front of it, whose value is a variable binding
-- that reads back as the hash object of the chosen standard with the digest of the whole old file.
-- The digest has 20 bytes.
pub add_mta_hash-appends :
    (sha1 : Bytes → Bytes) (hash : ℕ) (body : Bytes)
    → length (sha1 (body ++ mta_end)) ≡ 20
    → (add_mta_hash sha1 hash (body ++ mta_end)
        ≡ body ++ (frame_bytes (short 11 (hash_value hash (sha1 (body ++ mta_end)))) ++ mta_end))
      × (parse_var_op (hash_value hash (sha1 (body ++ mta_end)))
          ≡ some (record { name = hash_name hash; val_type = 4; val = sha1 (body ++ mta_end) }))
unfolding add_mta_hash
add_mta_hash-appends sha1 hash body twenty =
    let digest = sha1 (body ++ mta_end) in
    let (framed, read) = hash_value_lem hash digest twenty in
    let long_enough : ltb (length (body ++ mta_end)) 3 ≡ false =
      ground (arith, length-append body mta_end) in
    let rest : length (body ++ mta_end) - 3 ≡ length body =
      omega (arith, length-append body mta_end) in
    (
      rw (long_enough, rest, take-append body mta_end)
          (ap (λ x. body ++ x)
            (sym (append_assoc (hash_prefix hash) digest mta_end) ∙ ap (λ x. x ++ mta_end) framed)),
      read,
    )

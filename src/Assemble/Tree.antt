-- ===== src/Assemble/Tree.antt =====
-- src/main.rs, src/parser.rs: the tree of settings and its serialisation. The warnings of `flatten`
-- are left out.
use docsis_config_generator.Common.{
  ℕ, ◌%◌, ◌^◌, [], ◌∷◌, ◌++◌, ltb, leb, ◌==◌, if◌then◌else◌, length, be_bytes, Bytes,
}

-- A setting carries a value or sub-settings, never both.
mutual
  pub data Tlv : Type 0 where
    leaf : ℕ → Bytes → Tlv
    node : ℕ → Tlvs → Tlv

  pub data Tlvs : Type 0 where
    nil : Tlvs
    cons : Tlv → Tlvs → Tlvs

unfoldable pub flatten_leaf : ℕ → Bytes → Bytes
flatten_leaf code value =
    if leb (length value) 255
    then code ∷ (length value % 256) ∷ value
    else if code == 11
    then 64 ∷ (be_bytes 2 (length value % 2 ^ 16) ++ value)
    else []

unfoldable pub flatten_node : ℕ → Bytes → Bytes
flatten_node code sub = if ltb 255 (length sub) then [] else code ∷ (length sub % 256) ∷ sub

unfoldable mutual
  pub flatten_tlv : Tlv → Bytes
  flatten_tlv (leaf code value) = flatten_leaf code value
  flatten_tlv (node code children) = flatten_node code (flatten children)

  pub flatten : Tlvs → Bytes
  flatten nil = []
  flatten (cons tlv tlvs) = flatten_tlv tlv ++ flatten tlvs

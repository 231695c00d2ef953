-- ===== src/Mib.antt =====
-- src/mib/mod.rs: what the encoders and the decoder ask of the MIB tree, as an interface. The tree
-- itself, its reader and its printer (src/mib/) stand behind it.
use docsis_config_generator.Common.{ℕ, Option, List, Bytes, ℤ}

pub data OidFormat : Type 0 where
  suffix full numeric : OidFormat

-- The part of a node's `Syntax` that is read: size ranges, enumeration labels, the DISPLAY-HINT.
pub record Syntax : Type 0 where
  pub ranges : List (ℤ × ℤ)
  pub enums : List (Bytes × ℤ)
  pub hint : Option Bytes

-- `get_tree` is the syntax of the node that `Mib::get_tree` finds.
pub record Mib : Type 0 where
  pub resolve_oid : Bytes → Option (List ℕ)
  pub resolve_oid_numeric_first : Bytes → Option (List ℕ)
  pub read_objid : Bytes → Option (List ℕ)
  pub get_node : Bytes → Option (List ℕ)
  pub get_tree : List ℕ → Option Syntax
  pub sprint_objid : List ℕ → OidFormat → Bytes

-- ===== src/Ethermac.antt =====
-- src/ethermac.rs: MAC addresses as text.
pub mod RoundTrip
use mathlib.Core.Option
use docsis_config_generator.Common.{
  ℕ, zero, suc, ◌||◌, Option, none, some, List, [], ◌∷◌, map, ltb, ◌==◌, if◌then◌else◌, length,
  take, Bytes,
}
use docsis_config_generator.Text.{from_str_radix, u32_max, hex_byte, split, join}

-- One group: one or two characters that are a hexadecimal number of at most 255.
unfoldable pub aton_group : Bytes → Option ℕ
aton_group part =
    if length part == 0 || ltb 2 (length part)
    then none
    else Option.bind (from_str_radix 16 u32_max part) λ v. if ltb 255 v then none else some v

-- The loop over the slots left to fill, over the parts not read yet.
unfoldable pub aton_slots : ℕ → List Bytes → Option Bytes
aton_slots zero [] = some []
aton_slots zero (part ∷ parts) = none
aton_slots (suc slots) [] = none
aton_slots (suc slots) (part ∷ parts) =
    Option.bind (aton_group part) λ v. Option.map (λ out. v ∷ out) (aton_slots slots parts)

unfoldable pub ether_aton : Bytes → Option Bytes
ether_aton macstr = aton_slots 6 (split b':' macstr)

unfoldable pub ether_ntoa : Bytes → Bytes
ether_ntoa mac = join b':' (map hex_byte (take 6 mac))

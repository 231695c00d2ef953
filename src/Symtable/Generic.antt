-- ===== src/Symtable/Generic.antt =====
-- src/symtable.rs: the row that the parser looks up by name.
use docsis_config_generator.Common.{◌≡◌, refl, some}
use docsis_config_generator.Text.{ascii, bytes_eq}
use docsis_config_generator.Symbol.{Symbol, Enc, Render, find, find_by_name}
use docsis_config_generator.Symtable.{symtable}

-- The row of `GenericTLV`, which the parser looks up.
abbrev pub generic_tlv : Symbol
generic_tlv = record {
  id = 998;
  ident = ascii "GenericTLV";
  code = 0;
  parent_id = 0;
  enc = Enc.nothing;
  dec = Render.special;
  low = 0;
  high = 0;
}

pub generic_row : find_by_name symtable (ascii "GenericTLV") ≡ some generic_tlv
unfolding symtable find_by_name find bytes_eq
generic_row = refl

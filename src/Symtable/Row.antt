-- ===== src/Symtable/Row.antt =====
-- src/symtable.rs: the form of a row.
use Prim.Native.String.{String}
use docsis_config_generator.Common.{ℕ}
use docsis_config_generator.Text.{ascii}
use docsis_config_generator.Symbol.{Symbol, Enc, Render}

abbrev pub row : ℕ → String → ℕ → ℕ → Enc → Render → ℕ → ℕ → Symbol
row id ident code parent_id enc dec low high = record {
  id = id;
  ident = ascii ident;
  code = code;
  parent_id = parent_id;
  enc = enc;
  dec = dec;
  low = low;
  high = high;
}

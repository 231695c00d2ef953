-- ===== src/Parser/Addresses.antt =====
-- src/parser.rs: addresses behind `TlvType`.
use docsis_config_generator.Common.{◌≡◌, refl, sym, subst, Option, some, none, [], Bytes, ok, panic}
use docsis_config_generator.Text.{Ipv6Text}
use docsis_config_generator.Values.{Value}
use docsis_config_generator.Mib.{Mib}
use docsis_config_generator.Encode.{encode, encode_as}
use docsis_config_generator.Symtable.{symtable}
use docsis_config_generator.Symtable.Generic.{generic_row}
use docsis_config_generator.Lexer.{AsnType}
use docsis_config_generator.Parser

-- With the table of the program, `TlvType IPAddress` writes no byte, whatever the value: the row that
-- it is encoded with has no encoder.
pub typed_bytes-lost :
    (mib : Mib) (ipv6 : Ipv6Text) (files : Bytes → Option Bytes) (value : Value)
    → Parser.typed_bytes symtable mib ipv6 files AsnType.ip value ≡ ok []
unfolding Parser.typed_bytes Parser.encode_value encode encode_as
typed_bytes-lost mib ipv6 files value =
    subst
      (λ found.
        (elim found [
          | some row ↦ Parser.encode_value symtable mib ipv6 files row value
          | none ↦ panic
        ])
        ≡ ok [])
      (sym generic_row) refl

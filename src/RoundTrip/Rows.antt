-- ===== src/RoundTrip/Rows.antt =====
-- src/symtable.rs: the settings of a fixed width, printed and read by the codecs that their rows name.
use docsis_config_generator.Common.{◌≡◌, Option, some, Bytes, be_value, ok}
use docsis_config_generator.Text.{parse_i64}
use docsis_config_generator.Values.{Value, num, text}
use docsis_config_generator.Symbol.{Symbol, Enc, Render}
use docsis_config_generator.Encode.{encode_as}
use docsis_config_generator.Encode.Width.{Width}
use docsis_config_generator.Decode
use docsis_config_generator.Decode.{Decoder, Settings}
use docsis_config_generator.Decode.Leaf.{line}
use docsis_config_generator.RoundTrip.Numbers.{Fits}

-- Numbers, IPv4 addresses, MAC addresses and pairs of VLAN tags.
abbrev IsFixed : Enc → Type 0
IsFixed Enc.uint = Unit {0}
IsFixed Enc.uint24 = Unit {0}
IsFixed Enc.ushort = Unit {0}
IsFixed Enc.uchar = Unit {0}
IsFixed Enc.ip = Unit {0}
IsFixed Enc.ether = Unit {0}
IsFixed Enc.dual_qtag = Unit {0}
IsFixed _ = ⊥

-- What the encoder of the kind checks against the row's range, is in it.
abbrev InRange : Enc → Symbol → Bytes → Type 0
InRange Enc.uint row v = Fits row (be_value 0 v)
InRange Enc.ushort row v = Fits row (be_value 0 v)
InRange Enc.uchar row v = Fits row (be_value 0 v)
InRange _ row v = Unit {0}

-- The parser's value of a text: a decimal is a number, an address or a list the text itself.
abbrev pub ReadAs : Bytes → Value → Type 0
ReadAs t (num n) = parse_i64 t ≡ some n
ReadAs t (text u) = u ≡ t
ReadAs t (Value.bytes b) = ⊥

module _ (s : Settings) (encode_snmp_oid : Bytes → Option Bytes) (d : Decoder) (row : Symbol) where
  -- The decoder prints the bytes behind the row's name, and the encoder of the row makes the same
  -- bytes of what it printed.
  abbrev Returns : Render → Enc → Bytes → Type 0
  Returns dec enc v =
      (value : Value) × (t : Bytes) × (Decode.leaf s dec d row v
        ≡ some (ok (Decode.write d (line row t))))
      × ReadAs t value
      × (encode_as s.ipv6 encode_snmp_oid enc row value ≡ ok v)

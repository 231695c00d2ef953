-- ===== src/Examples/Settings.antt =====
-- Values of settings, printed and read.
use docsis_config_generator.Common.{
  refl, ℕ, some, none, length, replicate, ◌≡◌, [], ◌∷◌, ◌++◌, Bytes, pos, arith, inr, ok,
}
use docsis_config_generator.Text.{ascii, Ipv6Text}
use docsis_config_generator.Encode.{encode, encode_as}
use docsis_config_generator.Encode.Width.{Width, encode-Width}
use docsis_config_generator.Values.{Value, num, text}
use docsis_config_generator.Symbol.{Symbol, Enc, Render}
use docsis_config_generator.Encode.Scalar.{
  encode_char_list, encode_dual_qtag, encode_ushort_list, encode_string, encode_strzero,
}
use docsis_config_generator.Encode.Address.{
  encode_char_ip_ip6, encode_ip, encode_ether, encode_ethermask,
}
use docsis_config_generator.Decode.Leaf
use docsis_config_generator.Decode.Leaf.{
  line, decode_uint, decode_uint24, decode_ushort, decode_uchar, decode_char_list, decode_dual_qtag,
  decode_ip, decode_ether, decode_ethermask, decode_ushort_list, write_quoted,
}
use docsis_config_generator.RoundTrip.Numbers
use docsis_config_generator.RoundTrip.Numbers.{
  numbers_survive, char_list_survives, dual_qtag_survives,
}
use docsis_config_generator.RoundTrip.Addresses
use docsis_config_generator.RoundTrip.Addresses.{addresses_survive}
use docsis_config_generator.RoundTrip.Strings.{ushort_list_survives, strings_survive}

-- A row with a range.
abbrev max_rate : Symbol
max_rate = record {
  id = 8;
  ident = ascii "MaxRateDown";
  code = 2;
  parent_id = 7;
  enc = Enc.uint;
  dec = Render.uint;
  low = 0;
  high = 4294967295;
}

abbrev two_tags : Bytes
two_tags = 1 ∷ 2 ∷ 3 ∷ 4 ∷ []

abbrev mac : Bytes
mac = 0 ∷ 0x1a ∷ 0x2b ∷ 0x3c ∷ 0x4d ∷ 0x5e ∷ []

abbrev mask : Bytes
mask = 255 ∷ 255 ∷ 255 ∷ 0 ∷ 0 ∷ 0 ∷ []

-- A row whose number is a class from 1 to 16.
abbrev class_id : Symbol
class_id = record max_rate {
  ident = ascii "ClassID";
  enc = Enc.uchar;
  dec = Render.uchar;
  low = 1;
  high = 16;
}

numbers_survive_example :
    Numbers.Survives class_id 7
      (7 ∷ [])
      (Numbers.decoded Numbers.Number.uchar class_id (7 ∷ []))
      (Numbers.encoded Numbers.Number.uchar class_id (num (pos 7)))
numbers_survive_example =
    numbers_survive Numbers.Number.uchar class_id (7 ∷ []) (omega arith) (omega arith)
      (inr (omega arith))

char_list_survives_example :
    (t : Bytes) × (decode_char_list max_rate two_tags ≡ line max_rate t)
    × (encode_char_list (text t) ≡ ok two_tags)
char_list_survives_example =
    char_list_survives max_rate two_tags (omega arith) (omega arith) (omega arith)

dual_qtag_survives_example :
    (t : Bytes) × (decode_dual_qtag max_rate two_tags ≡ ok (line max_rate t))
    × (encode_dual_qtag (text t) ≡ ok two_tags)
dual_qtag_survives_example = dual_qtag_survives max_rate 1 2 3 4 (omega arith)

addresses_survive_example :
    Addresses.Survives max_rate two_tags (decode_ip max_rate two_tags) (λ t. encode_ip (text t))
    × Addresses.Survives max_rate mac (decode_ether max_rate mac) (λ t. encode_ether (text t))
    × Addresses.Survives max_rate
        (mac ++ mask)
        (decode_ethermask max_rate (mac ++ mask))
        (λ t. encode_ethermask (text t))
addresses_survive_example =
    addresses_survive max_rate two_tags mac mask (omega arith) (omega arith) (omega arith)
      (omega arith) (omega arith) (omega arith)

-- At most eight numbers.
abbrev port_list : Symbol
port_list = record max_rate {
  ident = ascii "PortList";
  enc = Enc.ushort_list;
  dec = Render.ushort_list;
  high = 8;
}

ushort_list_survives_example :
    (t : Bytes) × (decode_ushort_list port_list two_tags ≡ line port_list t)
    × (encode_ushort_list port_list (text t) ≡ ok two_tags)
ushort_list_survives_example =
    ushort_list_survives port_list two_tags (omega arith) (omega arith) (omega arith) (omega arith)
      (omega arith) (omega arith)

strings_survive_example :
    (plain zero_ended : Bytes) × (encode_string port_list (Value.bytes (ascii "gold")) ≡ ok plain)
    × (encode_strzero port_list (Value.bytes (ascii "gold")) ≡ ok zero_ended)
    × (write_quoted port_list plain
        ≡ ascii "PortList" ++ b' ' ∷ (b'"' ∷ (ascii "gold" ++ ascii "\";\n")))
    × (write_quoted port_list zero_ended ≡ write_quoted port_list plain)
strings_survive_example =
    strings_survive port_list (ascii "gold") (omega arith) (omega arith) (inr (omega arith))

-- Every text is read as one address.
abbrev one_address : Ipv6Text
one_address = record { parse = λ t. some (replicate 16 1); print = λ a. [] }

-- An address with a selector in front of it.
abbrev server : Symbol
server = record max_rate {
  ident = ascii "Server";
  enc = Enc.char_ip_ip6;
  dec = Render.char_ip_ip6;
  high = 0;
}

one_address-length : (t a : Bytes) → one_address.parse t ≡ some a → length a ≡ 16
one_address-length t a e = ground (arith, e)

encode-Width_example : Width server.enc (length {A = ℕ} (2 ∷ replicate 16 1))
encode-Width_example =
    encode-Width one_address one_address-length (λ t. none) server (text (ascii "2001:db8::1"))
      (2 ∷ replicate 16 1) (unfold encode encode_as encode_char_ip_ip6 in refl)

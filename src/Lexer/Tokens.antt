-- ===== src/Lexer/Tokens.antt =====
-- src/lexer.rs: tokens, patterns and keywords. An error message is a value of `LexError`; the line is
-- the one it names.
use docsis_config_generator.Common.{
  ℕ, ◌+◌, Bool, ◌&&◌, ◌||◌, Option, none, some, List, [], ◌∷◌, map, leb, if◌then◌else◌, Bytes, ℤ,
}
use docsis_config_generator.Text.{ascii, bytes_eq}
use docsis_config_generator.Symbol.{Symbol}

pub data AsnType : Type 0 where
  int uint short char gauge counter time_ticks ip obj_id str hex_str dec_str bit_str : AsnType
  big_int u_big_int float double : AsnType

pub data Tok : Type 0 where
  identifier ident_snmp_w ident_snmp_set ident_generic ident_cvc digit_map : Symbol → Tok
  main : Tok
  integer : ℤ → Tok
  str : Bytes → Tok
  hex_string submgt_filters ip ip_list ip6 ip6_list ip6_prefix_list : Bytes → Tok
  ip_ip6_port mac ethermask label_oid time_ticks : Bytes → Tok
  asn_type : AsnType → Tok
  tlv_code tlv_length tlv_value tlv_string tlv_string_zero tlv_type : Tok
  l_brace r_brace semi : Tok

pub record Token : Type 0 where
  pub tok : Tok
  pub line : ℕ

pub data Pat : Type 0 where
  submgt_filters ip ip_list hex_string ethermask ip_ip6_port mac label_oid : Pat
  label_oid_quoted label_oid_text time_ticks word integer ip6 ip6_port ip6_prefix_list : Pat
  ip6_list : Pat

abbrev pub patterns : List Pat
patterns =
    Pat.submgt_filters ∷ Pat.ip ∷ Pat.ip_list ∷ Pat.hex_string ∷ Pat.ethermask ∷ Pat.ip_ip6_port
    ∷ Pat.mac ∷ Pat.label_oid ∷ Pat.label_oid_quoted ∷ Pat.label_oid_text ∷ Pat.time_ticks
    ∷ Pat.word ∷ Pat.integer ∷ Pat.ip6 ∷ Pat.ip6_port ∷ Pat.ip6_prefix_list ∷ Pat.ip6_list ∷ []

pub data LexError : Type 0 where
  unrecognized_char : ℕ → ℕ → LexError
  unrecognized_symbol : Bytes → ℕ → LexError
  newline_in_string tab_in_string string_too_long unterminated_string : ℕ → LexError

-- A `Result`, or, in the model alone, a loop that ran out of fuel.
pub data Scan {ℓ} (A : Type ℓ) : Type ℓ where
  done : A → Scan A
  fail : LexError → Scan A
  no_fuel : Scan A

infixl 5 ◌>>=◌ ◌>>◌
abbrev pub ◌>>=◌ {ℓ κ} : {A : Type ℓ} {B : Type κ} → Scan A → (A → Scan B) → Scan B
done a >>= f = f a
fail e >>= f = fail e
no_fuel >>= f = no_fuel

abbrev pub ◌>>◌ {ℓ} : {B : Type ℓ} → Scan (Unit {0}) → Scan B → Scan B
m >> k = m >>= λ _. k

-- The type names.
unfoldable pub asn_name : Bytes → Option AsnType
asn_name text =
    if bytes_eq text (ascii "Integer")
    then some AsnType.int
    else if bytes_eq text (ascii "Unsigned32")
    then some AsnType.uint
    else if bytes_eq text (ascii "Short")
    then some AsnType.short
    else if bytes_eq text (ascii "Char")
    then some AsnType.char
    else if bytes_eq text (ascii "Gauge") || bytes_eq text (ascii "Gauge32")
    then some AsnType.gauge
    else if bytes_eq text (ascii "Counter32")
    then some AsnType.counter
    else if bytes_eq text (ascii "TimeTicks")
    then some AsnType.time_ticks
    else if bytes_eq text (ascii "IPAddress")
    then some AsnType.ip
    else if bytes_eq text (ascii "ObjectID")
    then some AsnType.obj_id
    else if bytes_eq text (ascii "String")
    then some AsnType.str
    else if bytes_eq text (ascii "HexString")
    then some AsnType.hex_str
    else if bytes_eq text (ascii "DecimalString")
    then some AsnType.dec_str
    else if bytes_eq text (ascii "BitString")
    then some AsnType.bit_str
    else if bytes_eq text (ascii "BigInt")
    then some AsnType.big_int
    else if bytes_eq text (ascii "UnsignedBigInt")
    then some AsnType.u_big_int
    else if bytes_eq text (ascii "Float")
    then some AsnType.float
    else if bytes_eq text (ascii "Double")
    then some AsnType.double
    else none

-- The words of `GenericTLV` statements.
unfoldable pub tlv_word : Bytes → Option Tok
tlv_word text =
    if bytes_eq text (ascii "TlvCode")
    then some tlv_code
    else if bytes_eq text (ascii "TlvLength")
    then some tlv_length
    else if bytes_eq text (ascii "TlvValue")
    then some tlv_value
    else if bytes_eq text (ascii "TlvString")
    then some tlv_string
    else if bytes_eq text (ascii "TlvStringZero")
    then some tlv_string_zero
    else if bytes_eq text (ascii "TlvType")
    then some tlv_type
    else none

-- The token of a row, by its keyword.
unfoldable pub symbol_token : Bytes → Symbol → Tok
symbol_token text sym =
    if bytes_eq text (ascii "SnmpWriteControl")
    then ident_snmp_w sym
    else if bytes_eq text (ascii "SnmpMibObject")
    then ident_snmp_set sym
    else if bytes_eq text (ascii "DigitMap")
    then digit_map sym
    else if bytes_eq text (ascii "ManufacturerCVC")
        || bytes_eq text (ascii "CoSignerCVC")
        || bytes_eq text (ascii "ManufacturerCVCChainFile")
        || bytes_eq text (ascii "CoSignerCVCChainFile")
    then ident_cvc sym
    else if bytes_eq text (ascii "GenericTLV")
    then ident_generic sym
    else identifier sym

unfoldable pub to_lower : ℕ → ℕ
to_lower c = if leb b'A' c && leb c b'Z' then c + 32 else c

-- `text.eq_ignore_ascii_case("main")`.
unfoldable pub is_main : Bytes → Bool
is_main text = bytes_eq (map to_lower text) (ascii "main")

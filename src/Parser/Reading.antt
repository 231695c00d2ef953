-- ===== src/Parser/Reading.antt =====
-- src/parser.rs: the parser's state and the steps that take one token. The position is the list of
-- the tokens not read yet; their lines stand in messages alone and are left out.
use docsis_config_generator.Common
use docsis_config_generator.Common.{
  ℕ, Bool, true, false, Option, none, some, List, [], ◌∷◌, Bytes, ℤ, Run, ok, exit, panic,
  out_of_fuel,
}
use docsis_config_generator.Lexer.{Tok, AsnType}
use docsis_config_generator.Values.{Value, num, text, bytes}

-- What a function of the parser does with the tokens not read yet.
abbrev pub Parse : Type 0 → Type 0
Parse A = List Tok → Run (A × List Tok)

infixl 5 ◌>>=◌ ◌>>◌
abbrev pub ◌>>=◌ : {A B : Type 0} → Parse A → (A → Parse B) → Parse B
◌>>=◌ m f toks = Common.◌>>=◌ (m toks) λ (a, rest). f a rest

abbrev pub ◌>>◌ : {B : Type 0} → Parse (Unit {0}) → Parse B → Parse B
m >> k = m >>= λ _. k

abbrev pub return : {A : Type 0} → A → Parse A
return a toks = ok (a, toks)

-- `self.error(what)`.
abbrev pub error : {A : Type 0} → Parse A
error toks = exit 255

-- Code that reads no token.
abbrev pub lift : {A : Type 0} → Run A → Parse A
lift run toks = Common.◌>>=◌ run λ a. ok (a, toks)

-- `self.bump()`.
unfoldable pub bump : Parse (Option Tok)
bump [] = ok (none, [])
bump (t ∷ toks) = ok (some t, toks)

-- `match self.bump() { … => v, _ => self.error(what) }`.
unfoldable pub expect : {A : Type 0} → (Tok → Option A) → Parse A
expect want [] = exit 255
expect want (t ∷ toks) = elim (want t) [ some a ↦ ok (a, toks) | none ↦ exit 255 ]

unfoldable pub as_semi : Tok → Option (Unit {0})
as_semi Tok.semi = some tt
as_semi _ = none

unfoldable pub as_l_brace : Tok → Option (Unit {0})
as_l_brace Tok.l_brace = some tt
as_l_brace _ = none

unfoldable pub as_r_brace : Tok → Option (Unit {0})
as_r_brace Tok.r_brace = some tt
as_r_brace _ = none

unfoldable pub as_main : Tok → Option (Unit {0})
as_main Tok.main = some tt
as_main _ = none

unfoldable pub as_integer : Tok → Option ℤ
as_integer (Tok.integer v) = some v
as_integer _ = none

unfoldable pub as_string : Tok → Option Bytes
as_string (Tok.str s) = some s
as_string _ = none

-- A bare dotted quad also reads as an object identifier.
unfoldable pub as_label_oid : Tok → Option Bytes
as_label_oid (Tok.label_oid s) = some s
as_label_oid (Tok.ip s) = some s
as_label_oid _ = none

unfoldable pub as_hex_string : Tok → Option Bytes
as_hex_string (Tok.hex_string s) = some s
as_hex_string _ = none

unfoldable pub as_ip : Tok → Option Bytes
as_ip (Tok.ip s) = some s
as_ip _ = none

unfoldable pub as_asn_type : Tok → Option AsnType
as_asn_type (Tok.asn_type a) = some a
as_asn_type _ = none

unfoldable pub as_tlv_code : Tok → Option (Unit {0})
as_tlv_code Tok.tlv_code = some tt
as_tlv_code _ = none

unfoldable pub as_tlv_value : Tok → Option (Unit {0})
as_tlv_value Tok.tlv_value = some tt
as_tlv_value _ = none

-- The tokens that are values of plain settings.
unfoldable pub as_value : Tok → Option Value
as_value (Tok.integer v) = some (num v)
as_value (Tok.str s) = some (bytes s)
as_value (Tok.hex_string s) = some (text s)
as_value (Tok.submgt_filters s) = some (text s)
as_value (Tok.ip s) = some (text s)
as_value (Tok.ip_list s) = some (text s)
as_value (Tok.ip6 s) = some (text s)
as_value (Tok.ip6_list s) = some (text s)
as_value (Tok.ip6_prefix_list s) = some (text s)
as_value (Tok.ip_ip6_port s) = some (text s)
as_value (Tok.mac s) = some (text s)
as_value (Tok.ethermask s) = some (text s)
as_value (Tok.label_oid s) = some (text s)
as_value (Tok.time_ticks s) = some (text s)
as_value _ = none

unfoldable pub expect_semi : Parse (Unit {0})
expect_semi = expect as_semi

unfoldable pub expect_l_brace : Parse (Unit {0})
expect_l_brace = expect as_l_brace

unfoldable pub expect_r_brace : Parse (Unit {0})
expect_r_brace = expect as_r_brace

unfoldable pub expect_integer : Parse ℤ
expect_integer = expect as_integer

unfoldable pub expect_string : Parse Bytes
expect_string = expect as_string

unfoldable pub expect_label_oid : Parse Bytes
expect_label_oid = expect as_label_oid

unfoldable pub take_value : Parse Value
take_value = expect as_value

-- `matches!(self.peek(), Some(Tok::LBrace))`.
unfoldable pub at_l_brace : List Tok → Bool
at_l_brace (Tok.l_brace ∷ toks) = true
at_l_brace _ = false

-- `matches!(self.peek(), Some(Tok::RBrace) | None)`.
unfoldable pub at_end : List Tok → Bool
at_end [] = true
at_end (Tok.r_brace ∷ toks) = true
at_end _ = false

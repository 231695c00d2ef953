-- ===== src/Text.antt =====
-- What the program uses of Rust's text functions: `split`, `join`, `trim`, `from_str_radix`,
-- `parse`, and formatting by `{}` and `{:02x}`. A `&str` is the list of its bytes.
pub mod Split
pub mod Numeral
use Prim.Native.Char.{code}
use Prim.Native.String
use Prim.Native.String.{String}
use docsis_config_generator.Common.{
  ℕ, zero, suc, ◌+◌, ◌-◌, ◌*◌, ◌/◌, ◌%◌, ◌^◌, Bool, true, false, ◌&&◌, ◌||◌, Option, none, some,
  List, [], ◌∷◌, ◌++◌, map, ltb, leb, ◌==◌, if◌then◌else◌, Bytes, ℤ, pos, negsuc,
}
use mathlib.Core.List.{reverse, filter}
use mathlib.Core.Option

-- The bytes of an ASCII literal.
abbrev pub ascii : String → Bytes
ascii String.[] = []
ascii (String.◌∷◌ c s) = code c ∷ ascii s

unfoldable pub is_digit : ℕ → Bool
is_digit c = leb b'0' c && leb c b'9'

-- `char::to_digit`, the value of a digit below the radix.
unfoldable pub to_digit : ℕ → ℕ → Option ℕ
to_digit radix c =
    let value =
      if leb b'0' c && leb c b'9'
      then c - b'0'
      else if leb b'a' c && leb c b'f'
      then c - b'a' + 10
      else if leb b'A' c && leb c b'F'
      then c - b'A' + 10
      else radix in
    if ltb value radix then some value else none

-- One more digit behind `acc`; a result above `max` is an overflow.
unfoldable pub next_digit : ℕ → ℕ → ℕ → Option ℕ → Option ℕ
next_digit radix max acc none = none
next_digit radix max acc (some d) =
    if leb (acc * radix + d) max then some (acc * radix + d) else none

unfoldable pub digits_value : ℕ → ℕ → Option ℕ → Bytes → Option ℕ
digits_value radix max none text = none
digits_value radix max (some acc) [] = some acc
digits_value radix max (some acc) (c ∷ rest) =
    digits_value radix max (next_digit radix max acc (to_digit radix c)) rest

-- Digits, at least one.
unfoldable pub digits_nonempty : ℕ → ℕ → Bytes → Option ℕ
digits_nonempty radix max [] = none
digits_nonempty radix max (c ∷ text) = digits_value radix max (some 0) (c ∷ text)

-- `from_str_radix` of an unsigned type whose largest value is `max`: a leading `+` is accepted.
unfoldable pub from_str_radix : ℕ → ℕ → Bytes → Option ℕ
from_str_radix radix max [] = none
from_str_radix radix max (c ∷ text) =
    if c == b'+' then digits_nonempty radix max text else digits_nonempty radix max (c ∷ text)

abbrev pub u8_max : ℕ
u8_max = 2 ^ 8 - 1

abbrev pub u16_max : ℕ
u16_max = 2 ^ 16 - 1

abbrev pub u32_max : ℕ
u32_max = 2 ^ 32 - 1

abbrev pub u64_max : ℕ
u64_max = 2 ^ 64 - 1

-- `-n` as an integer.
unfoldable pub negate : ℕ → ℤ
negate zero = pos 0
negate (suc n) = negsuc n

-- `parse::<i64>()`.
unfoldable pub parse_i64 : Bytes → Option ℤ
parse_i64 [] = none
parse_i64 (c ∷ text) =
    if c == b'-'
    then Option.map negate (digits_nonempty 10 (2 ^ 63) text)
    else Option.map pos (from_str_radix 10 (2 ^ 63 - 1) (c ∷ text))

-- `n.to_string()`, with room for `fuel` digits; twenty are enough for every `u64`.
unfoldable pub digits_of : ℕ → ℕ → Bytes
digits_of zero n = []
digits_of (suc fuel) n =
    let front = digits_of fuel (n / 10) in
    (if n / 10 == 0 then [] else front) ++ (b'0' + n % 10) ∷ []

unfoldable pub to_string : ℕ → Bytes
to_string n = digits_of 20 n

unfoldable pub hex_digit : ℕ → ℕ
hex_digit d = if ltb d 10 then b'0' + d else b'a' + (d - 10)

-- `format!("{:02x}", b)` of a byte.
unfoldable pub hex_byte : ℕ → Bytes
hex_byte b = hex_digit (b / 16) ∷ hex_digit (b % 16) ∷ []

-- A character in front of the first part.
abbrev pub extend : ℕ → List Bytes → List Bytes
extend c [] = (c ∷ []) ∷ []
extend c (part ∷ parts) = (c ∷ part) ∷ parts

-- `text.split(p)`, where `p` is a set of one-byte separators.
unfoldable pub split_on : (ℕ → Bool) → Bytes → List Bytes
split_on is_sep [] = [] ∷ []
split_on is_sep (c ∷ text) =
    let parts = split_on is_sep text in if is_sep c then [] ∷ parts else extend c parts

abbrev pub split : ℕ → Bytes → List Bytes
split sep = split_on (λ c. c == sep)

-- `text.split_once(sep)`.
unfoldable pub split_once : ℕ → Bytes → Option (Bytes × Bytes)
split_once sep [] = none
split_once sep (c ∷ text) =
    if c == sep
    then some ([], text)
    else Option.map (λ (before, after). (c ∷ before, after)) (split_once sep text)

-- `parts.join(sep)`.
unfoldable pub join : ℕ → List Bytes → Bytes
join sep [] = []
join sep (p ∷ []) = p
join sep (p ∷ q ∷ parts) = p ++ sep ∷ join sep (q ∷ parts)

-- `.filter(|p| !p.is_empty())`.
unfoldable pub nonempty : List Bytes → List Bytes
nonempty [] = []
nonempty ([] ∷ parts) = nonempty parts
nonempty ((c ∷ p) ∷ parts) = (c ∷ p) ∷ nonempty parts

unfoldable pub is_space : ℕ → Bool
is_space c = c == b' ' || (leb 9 c && leb c 13)

unfoldable pub trim_start : Bytes → Bytes
trim_start [] = []
trim_start (c ∷ text) = if is_space c then trim_start text else c ∷ text

-- `text.trim()`, of ASCII whitespace.
unfoldable pub trim : Bytes → Bytes
trim text = reverse (trim_start (reverse (trim_start text)))

unfoldable pub strip_prefix : Bytes → Bytes → Option Bytes
strip_prefix [] text = some text
strip_prefix (p ∷ prefix) [] = none
strip_prefix (p ∷ prefix) (c ∷ text) = if c == p then strip_prefix prefix text else none

abbrev pub starts_with : Bytes → Bytes → Bool
starts_with text prefix = elim (strip_prefix prefix text) [ some rest ↦ true | none ↦ false ]

unfoldable pub bytes_eq : Bytes → Bytes → Bool
bytes_eq [] [] = true
bytes_eq (a ∷ as') (b ∷ bs) = a == b && bytes_eq as' bs
bytes_eq _ _ = false

-- `i64::to_string`.
unfoldable pub i64_to_string : ℤ → Bytes
i64_to_string (pos n) = to_string n
i64_to_string (negsuc n) = b'-' ∷ to_string (suc n)

-- `std::net::Ipv6Addr`: what its parser accepts, as sixteen octets, and what it prints.
pub record Ipv6Text : Type 0 where
  pub parse : Bytes → Option Bytes
  pub print : Bytes → Bytes

-- ===== src/Text/Numeral.antt =====
-- Numbers and bytes printed and read back.
use docsis_config_generator.Common.{
  ℕ, zero, suc, ◌+◌, ◌-◌, ◌*◌, ◌/◌, ◌%◌, ◌^◌, ◌<◌, ◌≤◌, ◌≡◌, ◌≢◌, refl, ap, ◌∙◌, [], ◌∷◌, ◌++◌,
  some, arith, Bytes, All, All-append, ◌==◌, if◌then◌else◌, append_assoc, append-nil, Bool-cases,
  inl, inr, pos,
}
use mathlib.Core.List.{concat-ne-nil, reverse, reverse-cons, reverse-reverse}
use mathlib.Core.Option
use docsis_config_generator.Text.{
  to_digit, next_digit, digits_value, digits_nonempty, from_str_radix, digits_of, to_string,
  hex_digit, hex_byte, trim, trim_start, is_space, parse_i64,
}
use docsis_config_generator.Text.Split.{Lacks}

digit_step :
    (max acc d : ℕ)
    → d < 10
    → acc * 10 + d ≤ max
    → next_digit 10 max acc (to_digit 10 (b'0' + d)) ≡ some (acc * 10 + d)
unfolding next_digit to_digit
digit_step max acc d h fits = ground arith

digits_value_step :
    (max acc n : ℕ) (rest : Bytes)
    → acc * 10 + n % 10 ≡ n
    → n ≤ max
    → digits_value 10 max (some acc) ((b'0' + n % 10) ∷ rest) ≡ digits_value 10 max (some n) rest
unfolding digits_value
digits_value_step max acc n rest e fits =
    ap (λ o. digits_value 10 max o rest)
      (digit_step max acc (n % 10) (omega arith) (omega arith) ∙ ap some e)

digits_value-digits_of :
    (fuel max n : ℕ) (rest : Bytes)
    → n < 10 ^ fuel
    → n ≤ max
    → digits_value 10 max (some 0) (digits_of fuel n ++ rest) ≡ digits_value 10 max (some n) rest
unfolding digits_of
digits_value-digits_of zero max n rest h fits = let e : n ≡ 0 = omega arith in rw e
digits_value-digits_of (suc fuel) max n rest h fits = elim (Bool-cases (n / 10 == 0)) [
  | inl last ↦ rw last (digits_value_step max 0 n rest (ground arith) fits)
  | inr more ↦
      rw (more, append_assoc (digits_of fuel (n / 10)) ((b'0' + n % 10) ∷ []) rest)
        (digits_value-digits_of fuel max (n / 10) ((b'0' + n % 10) ∷ rest) (grind arith)
            (omega arith)
          ∙ digits_value_step max (n / 10) n rest (omega arith) fits)
]

abbrev pub IsDigit : ℕ → Type 0
IsDigit c = (b'0' ≤ c) × (c ≤ b'9')

digits_of-IsDigit : (fuel n : ℕ) → All IsDigit (digits_of fuel n)
unfolding digits_of
digits_of-IsDigit zero n = tt
digits_of-IsDigit (suc fuel) n = elim (Bool-cases (n / 10 == 0)) [
  | inl last ↦ rw last (omega arith)
  | inr more ↦ rw more (
      All-append IsDigit (digits_of fuel (n / 10)) _ (digits_of-IsDigit fuel (n / 10))
        (omega arith))
]

digits_of-ne-nil : (fuel n : ℕ) → digits_of (suc fuel) n ≢ []
unfolding digits_of
digits_of-ne-nil fuel n =
    concat-ne-nil (b'0' + n % 10) (if n / 10 == 0 then [] else digits_of fuel (n / 10))

from_str_radix_digits :
    (max : ℕ) (s : Bytes)
    → s ≢ []
    → All IsDigit s
    → from_str_radix 10 max s ≡ digits_value 10 max (some 0) s
unfolding from_str_radix digits_nonempty
from_str_radix_digits max [] ne h = absurd (ne refl)
from_str_radix_digits max (c ∷ s) ne (h, hs) = ground arith

pub to_string-IsDigit : (n : ℕ) → All IsDigit (to_string n)
unfolding to_string
to_string-IsDigit n = digits_of-IsDigit 20 n

pub to_string-ne-nil : (n : ℕ) → to_string n ≢ []
unfolding to_string
to_string-ne-nil n = digits_of-ne-nil 19 n

-- A number that fits the type is read back from its decimal print.
pub from_str_radix-to_string :
    (max n : ℕ) → n ≤ max → n < 2 ^ 64 → from_str_radix 10 max (to_string n) ≡ some n
from_str_radix-to_string max n fits h =
    from_str_radix_digits max (to_string n) (to_string-ne-nil n) (to_string-IsDigit n) ∙ value
  where
    value : digits_value 10 max (some 0) (to_string n) ≡ some n
    value =
        unfold to_string digits_value in
        rw (append-nil (digits_of 20 n)) at (digits_value-digits_of 20 max n [] (omega arith) fits)

-- No byte below the digits stands in a decimal print.
pub Lacks-IsDigit : (sep : ℕ) (s : Bytes) → sep < b'0' → All IsDigit s → Lacks sep s
Lacks-IsDigit sep [] h _ = tt
Lacks-IsDigit sep (c ∷ s) h (hc, hs) = (omega arith, Lacks-IsDigit sep s h hs)

pub Lacks-to_string : (sep n : ℕ) → sep < b'0' → Lacks sep (to_string n)
Lacks-to_string sep n h = Lacks-IsDigit sep (to_string n) h (to_string-IsDigit n)

to_digit-hex_digit : (d : ℕ) → d < 16 → to_digit 16 (hex_digit d) ≡ some d
unfolding to_digit hex_digit
to_digit-hex_digit d h = ground arith

pub hex_digit-range :
    (d : ℕ) → d < 16 → (b'0' ≤ hex_digit d) × (hex_digit d ≢ b':') × (hex_digit d ≢ b'/')
unfolding hex_digit
hex_digit-range d h = ground arith

next_hex :
    (max acc d : ℕ) → acc * 16 + d ≤ max → next_digit 16 max acc (some d) ≡ some (acc * 16 + d)
unfolding next_digit
next_hex max acc d h = ground arith

-- A byte is read back from its two hexadecimal digits.
pub from_str_radix-hex_byte :
    (max b : ℕ) → 255 ≤ max → b < 256 → from_str_radix 16 max (hex_byte b) ≡ some b
unfolding from_str_radix digits_nonempty digits_value hex_byte
from_str_radix-hex_byte max b fits h =
    let e : 0 * 16 + b / 16 ≡ b / 16 = omega arith in
    ground (
      arith,
      hex_digit-range (b / 16),
      to_digit-hex_digit (b / 16) (omega arith),
      to_digit-hex_digit (b % 16) (omega arith),
      next_hex max 0 (b / 16) (omega arith),
      next_hex max (b / 16) (b % 16) (omega arith),
    )

parse_i64_digits :
    (s : Bytes)
    → s ≢ []
    → All IsDigit s
    → parse_i64 s ≡ Option.map pos (from_str_radix 10 (2 ^ 63 - 1) s)
unfolding parse_i64
parse_i64_digits [] ne h = absurd (ne refl)
parse_i64_digits (c ∷ s) ne (h, hs) = ground arith

-- `parse::<i64>` reads a decimal print back.
pub parse_i64-to_string : (n : ℕ) → n < 2 ^ 63 → parse_i64 (to_string n) ≡ some (pos n)
parse_i64-to_string n h =
    parse_i64_digits (to_string n) (to_string-ne-nil n) (to_string-IsDigit n)
    ∙ ap (Option.map pos) (from_str_radix-to_string (2 ^ 63 - 1) n (omega arith) (omega arith))

no_space : (s : Bytes) → All IsDigit s → trim_start s ≡ s
unfolding trim_start is_space
no_space [] h = refl
no_space (c ∷ s) (hc, hs) = ground arith

All-reverse : (xs : Bytes) → All IsDigit xs → All IsDigit (reverse xs)
All-reverse [] h = tt
All-reverse (x ∷ xs) (h, hs) =
    rw (reverse-cons x xs) (All-append IsDigit (reverse xs) (x ∷ []) (All-reverse xs hs) (h, tt))

-- A decimal print has no space around it.
pub trim-to_string : (n : ℕ) → trim (to_string n) ≡ to_string n
unfolding trim
trim-to_string n =
    let digits = to_string-IsDigit n in
    rw
      (
        no_space (to_string n) digits,
        no_space (reverse (to_string n)) (All-reverse (to_string n) digits),
      )
      (reverse-reverse (to_string n))

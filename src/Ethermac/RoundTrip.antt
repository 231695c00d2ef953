-- ===== src/Ethermac/RoundTrip.antt =====
-- src/ethermac.rs: `ether_aton` and `ether_ntoa` against each other.
use mathlib.Core.Option
use docsis_config_generator.Common.{
  ℕ, zero, suc, ◌/◌, ◌%◌, ◌<◌, ◌≡◌, ◌≢◌, refl, ap, Option, some, none, List, [], ◌∷◌, map, arith,
  length, take-le, Bytes, IsByte, All, All-append, ◌⊎◌, inr,
}
use docsis_config_generator.Text.{hex_byte, hex_digit, u32_max, split, join}
use docsis_config_generator.Text.Split.{Lacks, split-join, All-map}
use docsis_config_generator.Text.Numeral.{from_str_radix-hex_byte, hex_digit-range}
use docsis_config_generator.Ethermac.{aton_group, aton_slots, ether_aton, ether_ntoa}

aton_group-hex_byte : (b : ℕ) → b < 256 → aton_group (hex_byte b) ≡ some b
unfolding aton_group Option.bind
aton_group-hex_byte b h =
    rw (from_str_radix-hex_byte u32_max b (omega arith) h) (unfold hex_byte in ground arith)

aton_slots-map : (bs : Bytes) → All IsByte bs → aton_slots (length bs) (map hex_byte bs) ≡ some bs
unfolding aton_slots Option.bind
aton_slots-map [] h = refl
aton_slots-map (b ∷ bs) (h, hs) = rw (aton_group-hex_byte b h, aton_slots-map bs hs)

Lacks-hex_byte : (b : ℕ) → b < 256 → Lacks b':' (hex_byte b)
unfolding hex_byte
Lacks-hex_byte b h =
    let hi : hex_digit (b / 16) ≢ b':' = (hex_digit-range (b / 16) (omega arith)).1 in
    let lo : hex_digit (b % 16) ≢ b':' = (hex_digit-range (b % 16) (omega arith)).1 in
    (hi, (lo, tt))

ntoa_split :
    (bs : Bytes)
    → bs ≢ []
    → All IsByte bs
    → split b':' (join b':' (map hex_byte bs)) ≡ map hex_byte bs
ntoa_split [] ne h = absurd (ne refl)
ntoa_split (b ∷ bs) ne (h, hs) =
    split-join b':' (hex_byte b) (map hex_byte bs) (Lacks-hex_byte b h)
      (All-map IsByte (Lacks b':') hex_byte Lacks-hex_byte bs hs)

-- `ether_aton` reads back every six-byte address that `ether_ntoa` printed.
pub ether_aton-ether_ntoa :
    (mac : Bytes) → length mac ≡ 6 → All IsByte mac → ether_aton (ether_ntoa mac) ≡ some mac
unfolding ether_aton ether_ntoa
ether_aton-ether_ntoa mac six bytes =
    rw
      (
        take-le 6 mac (omega arith),
        ntoa_split mac (λ e. absurd (omega (arith, ap length e))) bytes,
        ← six,
      )
      (aton_slots-map mac bytes)

aton_group-lt : (part : Bytes) (v : ℕ) → aton_group part ≡ some v → v < 256
unfolding aton_group Option.bind
aton_group-lt part v h = ground arith

slot_inversion :
    (g : Option ℕ) (r : Option Bytes) {out : Bytes}
    → Option.bind g (λ v. Option.map (λ rest. v ∷ rest) r) ≡ some out
    → (v : ℕ) × (rest : Bytes) × (g ≡ some v) × (r ≡ some rest) × (out ≡ v ∷ rest)
unfolding Option.bind
slot_inversion (some v) (some rest) h = (v, rest, refl, refl, cc)
slot_inversion (some v) none h = cc
slot_inversion none r h = cc

aton_slots-shape :
    (slots : ℕ) (parts : List Bytes) (out : Bytes)
    → aton_slots slots parts ≡ some out
    → (length parts ≡ slots) × (length out ≡ slots) × All IsByte out
unfolding aton_slots
aton_slots-shape zero [] out h = ground arith
aton_slots-shape zero (p ∷ parts) out h = cc
aton_slots-shape (suc slots) [] out h = cc
aton_slots-shape (suc slots) (p ∷ parts) out h =
    let (v, rest, g, r, e) = slot_inversion (aton_group p) (aton_slots slots parts) h in
    let (n, m, bytes) = aton_slots-shape slots parts rest r in
    rw e (ap suc n, ap suc m, (aton_group-lt p v g, bytes))

-- An accepted address has exactly six groups and gives six bytes.
pub ether_aton-shape :
    (text out : Bytes)
    → ether_aton text ≡ some out
    → (length (split b':' text) ≡ 6) × (length out ≡ 6) × All IsByte out
unfolding ether_aton
ether_aton-shape text out h = aton_slots-shape 6 (split b':' text) out h

Lacks-hex : (c b : ℕ) → (c ≡ b':') ⊎ (c ≡ b'/') → b < 256 → Lacks c (hex_byte b)
unfolding hex_byte
Lacks-hex c b hc h =
    let hi = hex_digit-range (b / 16) (omega arith) in
    let lo = hex_digit-range (b % 16) (omega arith) in (ground arith, (ground arith, tt))

Lacks-join : (parts : List Bytes) → All (Lacks b'/') parts → Lacks b'/' (join b':' parts)
unfolding join
Lacks-join [] h = tt
Lacks-join (p ∷ []) (h, _) = h
Lacks-join (p ∷ q ∷ parts) (h, hs) =
    All-append (λ c. c ≢ b'/') p (b':' ∷ join b':' (q ∷ parts)) h
      (omega arith, Lacks-join (q ∷ parts) hs)

-- No slash stands in a printed address.
pub Lacks-ether_ntoa : (mac : Bytes) → length mac ≡ 6 → All IsByte mac → Lacks b'/' (ether_ntoa mac)
unfolding ether_ntoa
Lacks-ether_ntoa mac six bytes = rw (take-le 6 mac (omega arith)) (
    Lacks-join (map hex_byte mac)
      (All-map IsByte (Lacks b'/') hex_byte (λ b h. Lacks-hex b'/' b (inr refl) h) mac bytes))

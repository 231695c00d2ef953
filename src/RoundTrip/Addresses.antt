-- ===== src/RoundTrip/Addresses.antt =====
-- Addresses: `decode_ip`, `decode_ether` and their like against the encoders.
use docsis_config_generator.Common.{
  ℕ, ◌<◌, ◌≡◌, refl, ap, some, [], ◌∷◌, ◌++◌, length, take, drop, take-le, take-append, drop-append,
  length-map, Bytes, IsByte, All, arith, length-append, append-nil, map, Run, ok,
}
use mathlib.Core.Option
use docsis_config_generator.Text.{split, join, to_string, u32_max}
use docsis_config_generator.Text.Split.{split-join, split_once_lem, Lacks}
use docsis_config_generator.Text.Numeral.{from_str_radix-to_string, Lacks-to_string}
use docsis_config_generator.Values.{text, as_text}
use docsis_config_generator.Symbol.{Symbol}
use docsis_config_generator.Ethermac.{ether_aton, ether_ntoa}
use docsis_config_generator.Ethermac.RoundTrip.{ether_aton-ether_ntoa, Lacks-ether_ntoa}
use docsis_config_generator.Encode.Address.{
  octet, octets, parse_ipv4, encode_ip, extend_all, encode_ether, encode_ethermask,
}
use docsis_config_generator.Decode.Leaf.{line, ipv4, decode_ip, decode_ether, decode_ethermask}

octet-to_string : (b : ℕ) → b < 256 → octet (to_string b) ≡ some b
unfolding octet Option.bind
octet-to_string b h =
    rw (from_str_radix-to_string u32_max b (omega arith) (omega arith)) (ground arith)

octets-to_string : (v : Bytes) → All IsByte v → octets (map to_string v) ≡ some v
unfolding octets Option.bind
octets-to_string [] h = refl
octets-to_string (b ∷ v) (h, hs) = rw (octet-to_string b h, octets-to_string v hs)

quad_parts :
    (b : ℕ) (v : Bytes) → split b'.' (join b'.' (map to_string (b ∷ v))) ≡ map to_string (b ∷ v)
quad_parts b v =
    split-join b'.' (to_string b) (map to_string v) (Lacks-to_string b'.' b (omega arith)) (parts v)
  where
    parts : (xs : Bytes) → All (Lacks b'.') (map to_string xs)
    parts [] = tt
    parts (x ∷ xs) = (Lacks-to_string b'.' x (omega arith), parts xs)

pub parse_ipv4-ipv4 : (v : Bytes) → length v ≡ 4 → All IsByte v → parse_ipv4 (ipv4 v) ≡ some v
unfolding parse_ipv4 ipv4
parse_ipv4-ipv4 [] four h = absurd (omega arith)
parse_ipv4-ipv4 (b ∷ v) four h =
    rw (take-le 3 v (omega arith), quad_parts b v, length-map to_string (b ∷ v), four)
      (octets-to_string (b ∷ v) h)

-- The decoder prints `value` by `decoded`, and the encoder reads the printed text as `value`.
abbrev pub Survives : Symbol → Bytes → Run Bytes → (Bytes → Run Bytes) → Type 0
Survives sym value decoded encoder =
    (t : Bytes) × (decoded ≡ ok (line sym t)) × (encoder t ≡ ok value)

pub ip-Survives :
    (sym : Symbol) (v : Bytes)
    → length v ≡ 4
    → All IsByte v
    → Survives sym v (decode_ip sym v) (λ t. encode_ip (text t))
unfolding decode_ip encode_ip as_text
ip-Survives sym v four h = (ipv4 v, rw four, rw (parse_ipv4-ipv4 v four h))

pub ether-Survives :
    (sym : Symbol) (v : Bytes)
    → length v ≡ 6
    → All IsByte v
    → Survives sym v (decode_ether sym v) (λ t. encode_ether (text t))
unfolding decode_ether encode_ether as_text
ether-Survives sym v six h = (ether_ntoa v, rw six, rw (ether_aton-ether_ntoa v six h))

extend_two :
    (mac mask : Bytes) (a b : Bytes)
    → ether_aton a ≡ some mac
    → ether_aton b ≡ some mask
    → extend_all ether_aton (a ∷ b ∷ []) ≡ ok (mac ++ mask)
unfolding extend_all
extend_two mac mask a b ea eb = rw (ea, eb) (ap (λ x. ok (mac ++ x)) (append-nil mask))

take_six :
    (mac mask : Bytes)
    → length mac ≡ 6
    → (take 6 (mac ++ mask) ≡ mac) × (drop 6 (mac ++ mask) ≡ mask)
take_six mac mask six = rw (← six) (take-append mac mask, drop-append mac mask)

ethermask-Survives :
    (sym : Symbol) (mac mask : Bytes)
    → length mac ≡ 6
    → All IsByte mac
    → length mask ≡ 6
    → All IsByte mask
    → Survives sym
        (mac ++ mask)
        (decode_ethermask sym (mac ++ mask))
        (λ t. encode_ethermask (text t))
unfolding decode_ethermask encode_ethermask as_text
ethermask-Survives sym mac mask six hmac six' hmask =
    let (front, back) = take_six mac mask six in
    let twelve : length (mac ++ mask) ≡ 12 = omega (arith, length-append mac mask) in
    (
      ether_ntoa mac ++ b'/' ∷ ether_ntoa mask,
      rw (twelve, front, back),
      rw (split_once_lem b'/' (ether_ntoa mac) (ether_ntoa mask) (Lacks-ether_ntoa mac six hmac)) (
          extend_two mac mask (ether_ntoa mac) (ether_ntoa mask)
            (ether_aton-ether_ntoa mac six hmac) (ether_aton-ether_ntoa mask six' hmask)),
    )

-- The kinds of address that the program reads and prints by itself survive decoding and encoding:
-- an IPv4 address of four bytes, and a MAC address of six bytes, alone or with a mask behind it,
-- are printed as a text that the encoder of the setting reads as the same bytes.
pub addresses_survive :
    (sym : Symbol) (ip mac mask : Bytes)
    → length ip ≡ 4
    → All IsByte ip
    → length mac ≡ 6
    → All IsByte mac
    → length mask ≡ 6
    → All IsByte mask
    → Survives sym ip (decode_ip sym ip) (λ t. encode_ip (text t))
      × Survives sym mac (decode_ether sym mac) (λ t. encode_ether (text t))
      × Survives sym
          (mac ++ mask)
          (decode_ethermask sym (mac ++ mask))
          (λ t. encode_ethermask (text t))
addresses_survive sym ip mac mask four hip six hmac six' hmask = (
  ip-Survives sym ip four hip,
  ether-Survives sym mac six hmac,
  ethermask-Survives sym mac mask six hmac six' hmask,
)

-- ===== src/Encode/Address.antt =====
-- src/encode.rs: the encoders of IP and MAC addresses. Rust's parser of IPv6 addresses is a
-- parameter.
use mathlib.Core.Option
use docsis_config_generator.Common.{
  ℕ, Option, none, some, List, [], ◌∷◌, ◌++◌, ltb, ◌==◌, if◌then◌else◌, length, Bytes, be_bytes,
  Run, ok, ◌>>=◌, or_exit,
}
use docsis_config_generator.Text.{
  from_str_radix, u8_max, u16_max, u32_max, split, split_once, nonempty, Ipv6Text,
}
use docsis_config_generator.Ethermac.{ether_aton}
use docsis_config_generator.Values.{Value, as_text}
use docsis_config_generator.Encode.Scalar.{or_else}

-- One part of a dotted quad.
unfoldable pub octet : Bytes → Option ℕ
octet part = Option.bind (from_str_radix 10 u32_max part) λ v. if ltb 255 v then none else some v

unfoldable pub octets : List Bytes → Option Bytes
octets [] = some []
octets (part ∷ parts) = Option.bind (octet part) λ v. Option.map (λ out. v ∷ out) (octets parts)

unfoldable pub parse_ipv4 : Bytes → Option Bytes
parse_ipv4 text = let parts = split b'.' text in if length parts == 4 then octets parts else none

unfoldable pub encode_ip : Value → Run Bytes
encode_ip value = or_exit (parse_ipv4 (as_text value)) 255

-- The loop of the list encoders: every part that is not empty, one behind the other.
unfoldable pub extend_all : (Bytes → Option Bytes) → List Bytes → Run Bytes
extend_all parse [] = ok []
extend_all parse (part ∷ parts) = do
  a ← or_exit (parse part) 255
  out ← extend_all parse parts
  ok (a ++ out)

unfoldable pub encode_ip_list : Value → Run Bytes
encode_ip_list value = extend_all parse_ipv4 (nonempty (split b',' (as_text value)))

unfoldable pub encode_ether : Value → Run Bytes
encode_ether value = or_exit (ether_aton (as_text value)) 255

unfoldable pub encode_ethermask : Value → Run Bytes
encode_ethermask value = do
  (mac, mask) ← or_exit (split_once b'/' (as_text value)) 255
  extend_all ether_aton (mac ∷ mask ∷ [])

module _ (ipv6 : Ipv6Text) where
  unfoldable pub encode_ip6 : Value → Run Bytes
  encode_ip6 value = or_exit (ipv6.parse (as_text value)) 255

  unfoldable pub encode_ip6_list : Value → Run Bytes
  encode_ip6_list value = extend_all ipv6.parse (nonempty (split b',' (as_text value)))

  -- One field of an entry: an address, or else a prefix length.
  unfoldable pub prefix_field : Bytes × ℕ → Bytes → Bytes × ℕ
  prefix_field (addr, prefix) field = elim (ipv6.parse field) [
    | some a ↦ (a, prefix)
    | none ↦ (addr, Option.get_or (from_str_radix 10 u8_max field) 0)
  ]

  unfoldable pub prefix_fields : Bytes × ℕ → List Bytes → Bytes × ℕ
  prefix_fields state [] = state
  prefix_fields state (field ∷ fields) = prefix_fields (prefix_field state field) fields

  unfoldable pub prefix_entry : Bytes → Bytes
  unfolding prefix_field prefix_fields
  prefix_entry entry =
      let (addr, prefix) = prefix_fields (be_bytes 16 0, 0) (split b'/' entry) in
      addr ++ prefix ∷ []

  unfoldable pub prefix_entries : List Bytes → Bytes
  prefix_entries [] = []
  prefix_entries (entry ∷ entries) = prefix_entry entry ++ prefix_entries entries

  unfoldable pub encode_ip6_prefix_list : Value → Run Bytes
  encode_ip6_prefix_list value = ok (prefix_entries (nonempty (split b',' (as_text value))))

  -- An IPv6 address, or else an IPv4 one.
  unfoldable pub parse_ip_ip6 : Bytes → Option Bytes
  parse_ip_ip6 text = or_else (ipv6.parse text) (parse_ipv4 text)

  unfoldable pub encode_ip_ip6 : Value → Run Bytes
  encode_ip_ip6 value = or_exit (parse_ip_ip6 (as_text value)) 255

  unfoldable pub encode_char_ip_ip6 : Value → Run Bytes
  encode_char_ip_ip6 value = elim (ipv6.parse (as_text value)) [
    | some a ↦ ok (2 ∷ a)
    | none ↦ or_exit (Option.map (λ a. 1 ∷ a) (parse_ipv4 (as_text value))) 255
  ]

  unfoldable pub port_of : List Bytes → ℕ
  port_of [] = 0
  port_of (p ∷ parts) = Option.get_or (from_str_radix 10 u16_max p) 0

  -- `split` always gives a first part.
  unfoldable pub encode_addr_port : List Bytes → Run Bytes
  encode_addr_port [] = do a ← or_exit (parse_ip_ip6 []) 255; ok (a ++ be_bytes 2 0)
  encode_addr_port (addr ∷ parts) = do
    a ← or_exit (parse_ip_ip6 addr) 255
    ok (a ++ be_bytes 2 (port_of parts))

  unfoldable pub encode_ip_ip6_port : Value → Run Bytes
  encode_ip_ip6_port value = encode_addr_port (split b'/' (as_text value))

-- ===== src/Encode/Width.antt =====
-- src/encode.rs: how many bytes each encoder writes.
use mathlib.Core.Option
use docsis_config_generator.Common.{
  ℕ, suc, ◌*◌, ◌%◌, ◌≤◌, ◌≡◌, ◌⊎◌, inl, inr, refl, sym, subst, Option, none, some, List, [], ◌∷◌,
  ◌++◌, length, length-append, length-be_bytes, be_bytes, Bytes, ltb, ◌==◌, ◌||◌, ok, exit, ◌>>=◌,
  or_exit, arith, Bool-cases,
}
use docsis_config_generator.Text.{
  Ipv6Text, split, split_on, split_once, nonempty, from_str_radix, u8_max, u64_max,
}
use docsis_config_generator.Values.{Value, as_text, as_bytes}
use docsis_config_generator.Symbol.{Enc, Symbol}
use docsis_config_generator.Ethermac.{ether_aton}
use docsis_config_generator.Ethermac.RoundTrip.{ether_aton-shape}
use docsis_config_generator.Encode.{encode, encode_as, encode_oid}
use docsis_config_generator.Encode.Scalar.{
  range_check, num_u32, encode_uint, encode_uint24, encode_ushort, encode_uchar, encode_char_list,
  encode_hexstr, encode_dual_qtag, encode_string, encode_strzero, check_string_len, ushorts,
  encode_ushort_list,
}
use docsis_config_generator.Encode.Address.{
  octet, octets, parse_ipv4, encode_ip, extend_all, encode_ip_list, encode_ether, encode_ethermask,
  encode_ip6, encode_ip6_list, prefix_field, prefix_fields, port_of, prefix_entry, prefix_entries,
  encode_ip6_prefix_list, parse_ip_ip6, encode_ip_ip6, encode_char_ip_ip6, encode_addr_port,
  encode_ip_ip6_port,
}
use docsis_config_generator.Encode.Outcome.{
  IfSome, IfOk, IfSome-intro, IfOk-or_exit, IfOk-bind, IfOk-guard, IfOk-any, IfOk-if, IfOk-all,
  IfSome-or_else, IfSome-imply,
}

-- The lengths that the decoder of a setting of the same kind accepts.
abbrev pub Width : Enc → ℕ → Type 0
Width Enc.uint n = n ≡ 4
Width Enc.uint24 n = n ≡ 3
Width Enc.ushort n = n ≡ 2
Width Enc.uchar n = n ≡ 1
Width Enc.ip n = n ≡ 4
Width Enc.ip_list n = n % 4 ≡ 0
Width Enc.ip6 n = n ≡ 16
Width Enc.ip6_list n = n % 16 ≡ 0
Width Enc.ip6_prefix_list n = n % 17 ≡ 0
Width Enc.ip_ip6 n = (n ≡ 4) ⊎ (n ≡ 16)
Width Enc.char_ip_ip6 n = (n ≡ 5) ⊎ (n ≡ 17)
Width Enc.ip_ip6_port n = (n ≡ 6) ⊎ (n ≡ 18)
Width Enc.lenzero n = n ≡ 0
Width Enc.ether n = n ≡ 6
Width Enc.dual_qtag n = n ≡ 4
Width Enc.ethermask n = n ≡ 12
Width Enc.strzero n = 1 ≤ n
Width Enc.ushort_list n = n % 2 ≡ 0
Width Enc.nothing n = n ≡ 0
Width Enc.char_list n = Unit {0}
Width Enc.string n = Unit {0}
Width Enc.hexstr n = Unit {0}
Width Enc.oid n = Unit {0}

length-octets : (parts : List Bytes) → IfSome (λ out. length out ≡ length parts) (octets parts)
unfolding octets Option.bind
length-octets [] = refl
length-octets (part ∷ parts) = go (octet part) (octets parts) (length-octets parts)
  where
    go :
        (v : Option ℕ) (rest : Option Bytes)
        → IfSome (λ out. length out ≡ length parts) rest
        → IfSome
            (λ out. length out ≡ suc (length parts))
            (Option.bind v λ b. Option.map (λ out. b ∷ out) rest)
    go none rest h = tt
    go (some b) none h = tt
    go (some b) (some out) h = omega (arith, h)

length-parse_ipv4 : (text : Bytes) → IfSome (λ a. length a ≡ 4) (parse_ipv4 text)
unfolding parse_ipv4
length-parse_ipv4 text = elim (Bool-cases (length (split b'.' text) == 4)) [
  | inl four ↦
      let n : length (split b'.' text) ≡ 4 = ground arith in
      rw four (
        subst (λ k. IfSome (λ a. length a ≡ k) (octets (split b'.' text))) n
          (length-octets (split b'.' text)))
  | inr other ↦ rw other tt
]

length-ether_aton : (text : Bytes) → IfSome (λ a. length a ≡ 6) (ether_aton text)
length-ether_aton text =
    IfSome-intro (ether_aton text) (λ a. length a ≡ 6) (λ a e. (ether_aton-shape text a e).1)

-- A list of values of one kind, for a property that holds of the empty list and of sums.
extend_all-IfOk :
    (P Q : Bytes → Type 0) (parse : Bytes → Option Bytes) (parts : List Bytes)
    → ((part : Bytes) → IfSome P (parse part))
    → Q []
    → ((a out : Bytes) → P a → Q out → Q (a ++ out))
    → IfOk Q (extend_all parse parts)
unfolding extend_all
extend_all-IfOk P Q parse [] hp empty more = empty
extend_all-IfOk P Q parse (part ∷ parts) hp empty more =
    let rest = extend_all-IfOk P Q parse parts hp empty more in
    IfOk-bind P Q (or_exit (parse part) 255) _ (IfOk-or_exit P (parse part) 255 (hp part))
      (λ a ha. IfOk-bind Q Q (extend_all parse parts) _ rest (λ out ho. more a out ha ho))

ushorts-even : (parts : List Bytes) → IfOk (λ out. length out % 2 ≡ 0) (ushorts parts)
unfolding ushorts
ushorts-even [] = refl
ushorts-even (part ∷ parts) =
    let Even : Bytes → Type 0 = λ out. length out % 2 ≡ 0 in
    let rest = ushorts-even parts in
    IfOk-any Even (or_exit (from_str_radix 10 u64_max part) 245) _ (λ v.
      IfOk-if Even (ltb 65535 v) (exit 245) _ tt (
        IfOk-bind Even Even (ushorts parts) _ rest
          (λ out h. omega (arith, h, length-append (be_bytes 2 v) out, length-be_bytes 2 v))))

length-extend_all :
    (parts : List Bytes) → IfOk (λ out. length out ≡ 6 * length parts) (extend_all ether_aton parts)
unfolding extend_all
length-extend_all [] = refl
length-extend_all (part ∷ parts) =
    let rest = length-extend_all parts in
    IfOk-bind (λ a. length a ≡ 6) _ (or_exit (ether_aton part) 255) _
      (IfOk-or_exit _ (ether_aton part) 255 (length-ether_aton part))
      (λ a ha.
        IfOk-bind (λ out. length out ≡ 6 * length parts) _ (extend_all ether_aton parts) _ rest
          (λ out ho. omega (arith, ha, ho, length-append a out)))

module _ (ipv6 : Ipv6Text) (sixteen : (t a : Bytes) → ipv6.parse t ≡ some a → length a ≡ 16) where
  length-parse : (text : Bytes) → IfSome (λ a. length a ≡ 16) (ipv6.parse text)
  length-parse text = IfSome-intro (ipv6.parse text) (λ a. length a ≡ 16) (sixteen text)

  length-parse_ip_ip6 :
      (text : Bytes) → IfSome (λ a. (length a ≡ 4) ⊎ (length a ≡ 16)) (parse_ip_ip6 ipv6 text)
  unfolding parse_ip_ip6
  length-parse_ip_ip6 text =
      let Either : Bytes → Type 0 = λ a. (length a ≡ 4) ⊎ (length a ≡ 16) in
      IfSome-or_else Either (ipv6.parse text) (parse_ipv4 text)
        (IfSome-imply (λ a. length a ≡ 16) Either (ipv6.parse text) (length-parse text)
          (λ a h. inr h))
        (IfSome-imply (λ a. length a ≡ 4) Either (parse_ipv4 text) (length-parse_ipv4 text)
          (λ a h. inl h))

  length-prefix_field :
      (state : Bytes × ℕ) (field : Bytes)
      → length state.0 ≡ 16
      → length (prefix_field ipv6 state field).0 ≡ 16
  unfolding prefix_field
  length-prefix_field (addr, prefix) field h = go (ipv6.parse field) (length-parse field)
    where
      go :
          (o : Option Bytes)
          → IfSome (λ a. length a ≡ 16) o
          → length
              (elim o as (λ x. Bytes × ℕ) [
                | some a ↦ (a, prefix)
                | none ↦ (addr, Option.get_or (from_str_radix 10 u8_max field) 0)
              ]).0
            ≡ 16
      go (some a) k = k
      go none k = h

  length-prefix_fields :
      (fields : List Bytes) (state : Bytes × ℕ)
      → length state.0 ≡ 16
      → length (prefix_fields ipv6 state fields).0 ≡ 16
  unfolding prefix_fields
  length-prefix_fields [] state h = h
  length-prefix_fields (field ∷ fields) state h =
      length-prefix_fields fields (prefix_field ipv6 state field)
        (length-prefix_field state field h)

  length-prefix_entry : (entry : Bytes) → length (prefix_entry ipv6 entry) ≡ 17
  unfolding prefix_entry
  length-prefix_entry entry =
      let (addr, prefix) = prefix_fields ipv6 (be_bytes 16 0, 0) (split b'/' entry) in
      omega (
        arith,
        length-append addr (prefix ∷ []),
        length-prefix_fields (split b'/' entry) (be_bytes 16 0, 0) (length-be_bytes 16 0),
      )

  length-prefix_entries : (entries : List Bytes) → length (prefix_entries ipv6 entries) % 17 ≡ 0
  unfolding prefix_entries
  length-prefix_entries [] = refl
  length-prefix_entries (entry ∷ entries) = omega (
    arith,
    length-append (prefix_entry ipv6 entry) (prefix_entries ipv6 entries),
    length-prefix_entry entry,
    length-prefix_entries entries,
  )

  encode_char_ip_ip6-Width :
      (value : Value)
      → IfOk (λ out. Width Enc.char_ip_ip6 (length out)) (encode_char_ip_ip6 ipv6 value)
  unfolding encode_char_ip_ip6
  encode_char_ip_ip6-Width value =
      go (ipv6.parse (as_text value)) (parse_ipv4 (as_text value)) (length-parse (as_text value))
        (length-parse_ipv4 (as_text value))
    where
      go :
          (six four : Option Bytes)
          → IfSome (λ a. length a ≡ 16) six
          → IfSome (λ a. length a ≡ 4) four
          → IfOk
              (λ out. Width Enc.char_ip_ip6 (length out))
              (elim six [ some a ↦ ok (2 ∷ a) | none ↦ or_exit (Option.map (λ a. 1 ∷ a) four) 255 ])
      go (some a) four h k = inr (omega (arith, h))
      go none (some a) h k = inl (omega (arith, k))
      go none none h k = tt

  -- An address, with a port of two bytes behind it.
  with_port :
      (addr : Bytes) (port : ℕ)
      → IfOk
          (λ out. Width Enc.ip_ip6_port (length out))
          (or_exit (parse_ip_ip6 ipv6 addr) 255 >>= λ a. ok (a ++ be_bytes 2 port))
  with_port addr port =
      let Either : Bytes → Type 0 = λ a. (length a ≡ 4) ⊎ (length a ≡ 16) in
      IfOk-bind Either _ (or_exit (parse_ip_ip6 ipv6 addr) 255) _
        (IfOk-or_exit Either (parse_ip_ip6 ipv6 addr) 255 (length-parse_ip_ip6 addr))
        (λ a h. ground (arith, h, length-append a (be_bytes 2 port), length-be_bytes 2 port))

  encode_addr_port-Width :
      (parts : List Bytes)
      → IfOk (λ out. Width Enc.ip_ip6_port (length out)) (encode_addr_port ipv6 parts)
  unfolding encode_addr_port
  encode_addr_port-Width [] = with_port [] 0
  encode_addr_port-Width (addr ∷ parts) = with_port addr (port_of ipv6 parts)

  encode_as-Width :
      (encode_snmp_oid : Bytes → Option Bytes) (enc : Enc) (sym : Symbol) (value : Value)
      → IfOk (λ out. Width enc (length out)) (encode_as ipv6 encode_snmp_oid enc sym value)
  unfolding encode_as encode_uint encode_uint24 encode_ushort encode_uchar encode_ip encode_ip_list
      encode_ip6 encode_ip6_list encode_ip6_prefix_list encode_ip_ip6 encode_ip_ip6_port
      encode_ether encode_dual_qtag encode_ethermask encode_strzero encode_ushort_list
  encode_as-Width oid Enc.uint sym value =
      IfOk-guard _ (range_check sym (num_u32 value)) _ (length-be_bytes 4 (num_u32 value))
  encode_as-Width oid Enc.uint24 sym value = length-be_bytes 3 (num_u32 value)
  encode_as-Width oid Enc.ushort sym value = IfOk-guard _ (range_check sym (num_u32 value)) _ refl
  encode_as-Width oid Enc.uchar sym value = IfOk-guard _ (range_check sym (num_u32 value)) _ refl
  encode_as-Width oid Enc.ip sym value =
      IfOk-or_exit _ (parse_ipv4 (as_text value)) 255 (length-parse_ipv4 (as_text value))
  encode_as-Width oid Enc.ip_list sym value =
      extend_all-IfOk (λ a. length a ≡ 4) (λ out. length out % 4 ≡ 0) parse_ipv4
        (nonempty (split b',' (as_text value))) length-parse_ipv4 refl
        (λ a out ha ho. omega (arith, ha, ho, length-append a out))
  encode_as-Width oid Enc.ip6 sym value =
      IfOk-or_exit _ (ipv6.parse (as_text value)) 255 (length-parse (as_text value))
  encode_as-Width oid Enc.ip6_list sym value =
      extend_all-IfOk (λ a. length a ≡ 16) (λ out. length out % 16 ≡ 0) ipv6.parse
        (nonempty (split b',' (as_text value))) length-parse refl
        (λ a out ha ho. omega (arith, ha, ho, length-append a out))
  encode_as-Width oid Enc.ip6_prefix_list sym value =
      length-prefix_entries (nonempty (split b',' (as_text value)))
  encode_as-Width oid Enc.ip_ip6 sym value =
      IfOk-or_exit _ (parse_ip_ip6 ipv6 (as_text value)) 255 (length-parse_ip_ip6 (as_text value))
  encode_as-Width oid Enc.char_ip_ip6 sym value = encode_char_ip_ip6-Width value
  encode_as-Width oid Enc.ip_ip6_port sym value =
      encode_addr_port-Width (split b'/' (as_text value))
  encode_as-Width oid Enc.lenzero sym value = refl
  encode_as-Width oid Enc.ether sym value =
      IfOk-or_exit _ (ether_aton (as_text value)) 255 (length-ether_aton (as_text value))
  encode_as-Width oid Enc.dual_qtag sym value = refl
  encode_as-Width oid Enc.char_list sym value = IfOk-all _ (encode_char_list value) (λ out. tt)
  encode_as-Width oid Enc.ethermask sym value =
      IfOk-any _ (or_exit (split_once b'/' (as_text value)) 255) _
        (λ p. length-extend_all (p.0 ∷ p.1 ∷ []))
  encode_as-Width oid Enc.string sym value = IfOk-all _ (encode_string sym value) (λ out. tt)
  encode_as-Width oid Enc.strzero sym value =
      IfOk-guard _ (check_string_len sym (length (as_bytes value))) _
        (omega (arith, length-append (as_bytes value) (0 ∷ [])))
  encode_as-Width oid Enc.hexstr sym value = IfOk-all _ (encode_hexstr sym value) (λ out. tt)
  encode_as-Width oid Enc.oid sym value = IfOk-all _ (encode_oid ipv6 oid value) (λ out. tt)
  encode_as-Width oid Enc.ushort_list sym value =
      let parts = nonempty (split_on (λ c. c == b',' || c == b' ') (as_text value)) in
      IfOk-bind (λ out. length out % 2 ≡ 0) _ (ushorts parts) _ (ushorts-even parts)
        (λ out h. IfOk-guard _ (check_string_len sym (length parts)) _ h)
  encode_as-Width oid Enc.nothing sym value = refl

  -- What an encoder writes has the length that the decoder of the same kind of setting expects, for
  -- every symbol and every value that the encoder accepts: four, three, two or one bytes for a
  -- number, four or sixteen for an address and a byte or two more with a selector or a port, six or
  -- twelve for MAC addresses, a multiple of an entry's length for a list (strings, lists of
  -- characters and object identifiers have none). An IPv6 address that Rust parses has sixteen bytes.
  pub encode-Width :
      (encode_snmp_oid : Bytes → Option Bytes) (sym : Symbol) (value : Value) (out : Bytes)
      → encode ipv6 encode_snmp_oid sym value ≡ ok out
      → Width sym.enc (length out)
  unfolding encode
  encode-Width oid sym value out e =
      subst (IfOk (λ o. Width sym.enc (length o))) e (encode_as-Width oid sym.enc sym value)

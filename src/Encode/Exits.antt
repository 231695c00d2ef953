-- ===== src/Encode/Exits.antt =====
-- src/encode.rs: how an encoder can end.
use mathlib.Core.Option
use docsis_config_generator.Common.{
  ℕ, ◌%◌, ◌^◌, Bool, true, false, ◌||◌, ◌≡◌, refl, Option, none, some, List, [], ◌∷◌, length, Bytes,
  ltb, ◌==◌, if◌then◌else◌, Run, ok, exit, panic, out_of_fuel, ◌>>=◌, or_exit,
}
use docsis_config_generator.Text.{Ipv6Text, split_on, split_once, nonempty, from_str_radix, u64_max}
use docsis_config_generator.Values.{Value, as_text, as_bytes}
use docsis_config_generator.Symbol.{Enc, Symbol}
use docsis_config_generator.Ethermac.{ether_aton}
use docsis_config_generator.Encode.{encode, encode_as, encode_oid}
use docsis_config_generator.Encode.Scalar.{
  unranged, range_check, num_u32, encode_uint, encode_uint24, encode_ushort, encode_uchar,
  encode_char_list, encode_hexstr, encode_dual_qtag, encode_string, encode_strzero, parse_hexstr,
  check_string_len, ushorts, encode_ushort_list,
}
use docsis_config_generator.Encode.Address.{
  parse_ipv4, encode_ip, extend_all, encode_ip_list, encode_ether, encode_ethermask, encode_ip6,
  encode_ip6_list, encode_ip6_prefix_list, parse_ip_ip6, encode_ip_ip6, encode_char_ip_ip6,
  encode_addr_port, encode_ip_ip6_port,
}

-- A run that gives a value or exits with a code that passes the test: it neither panics nor runs
-- out of fuel.
abbrev pub Stops {ℓ} : {A : Type ℓ} → (ℕ → Bool) → Run A → Type 0
Stops code (ok a) = Unit {0}
Stops code (exit c) = code c ≡ true
Stops code panic = ⊥
Stops code out_of_fuel = ⊥

-- The codes of the encoders.
abbrev pub encoder_code : ℕ → Bool
encoder_code c = c == 241 || c == 245 || c == 255

abbrev Closes {ℓ} : {A : Type ℓ} → Run A → Type 0
Closes run = Stops encoder_code run

pub Stops-bind {ℓ κ} :
    {A : Type ℓ} {B : Type κ} (code : ℕ → Bool) (run : Run A) (f : A → Run B)
    → Stops code run
    → ((a : A) → Stops code (f a))
    → Stops code (run >>= f)
Stops-bind code (ok a) f h k = k a
Stops-bind code (exit c) f h k = h
Stops-bind code panic f h k = absurd h
Stops-bind code out_of_fuel f h k = absurd h

pub Stops-if {ℓ} :
    {A : Type ℓ} (code : ℕ → Bool) (test : Bool) (x y : Run A)
    → Stops code x
    → Stops code y
    → Stops code (if test then x else y)
Stops-if code true x y hx hy = hx
Stops-if code false x y hx hy = hy

pub Stops-option {ℓ κ} :
    {A : Type ℓ} {B : Type κ} (code : ℕ → Bool) (o : Option A) (x : Run B) (f : A → Run B)
    → Stops code x
    → ((a : A) → Stops code (f a))
    → Stops code (elim o [ some a ↦ f a | none ↦ x ])
Stops-option code (some a) x f hx hf = hf a
Stops-option code none x f hx hf = hx

pub Stops-or_exit {ℓ} :
    {A : Type ℓ} (code : ℕ → Bool) (o : Option A) (c : ℕ) → code c ≡ true → Stops code (or_exit o c)
Stops-or_exit code (some a) c h = tt
Stops-or_exit code none c h = h

range_check-Closes : (sym : Symbol) (v : ℕ) → Closes (range_check sym v)
unfolding range_check
range_check-Closes sym v =
    Stops-if _ (unranged sym) _ _ tt (Stops-if _ (ltb v sym.low || ltb sym.high v) _ _ refl tt)

check_string_len-Closes : (sym : Symbol) (len : ℕ) → Closes (check_string_len sym len)
unfolding check_string_len
check_string_len-Closes sym len = Stops-if _ (unranged sym) _ _ tt (
    Stops-if _ (ltb (len % 2 ^ 32) sym.low) _ _ refl
      (Stops-if _ (ltb sym.high (len % 2 ^ 32)) _ _ refl tt))

ushorts-Closes : (parts : List Bytes) → Closes (ushorts parts)
unfolding ushorts
ushorts-Closes [] = tt
ushorts-Closes (part ∷ parts) =
    Stops-bind _ (or_exit (from_str_radix 10 u64_max part) 245) _ (Stops-or_exit _ _ 245 refl) (λ v.
      Stops-if _ (ltb 65535 v) _ _ refl
        (Stops-bind _ (ushorts parts) _ (ushorts-Closes parts) (λ out. tt)))

extend_all-Closes :
    (parse : Bytes → Option Bytes) (parts : List Bytes) → Closes (extend_all parse parts)
unfolding extend_all
extend_all-Closes parse [] = tt
extend_all-Closes parse (part ∷ parts) =
    Stops-bind _ (or_exit (parse part) 255) _ (Stops-or_exit _ _ 255 refl)
      (λ a. Stops-bind _ (extend_all parse parts) _ (extend_all-Closes parse parts) (λ out. tt))

or_exit-Closes {ℓ} : {A : Type ℓ} (o : Option A) → Closes (or_exit o 255)
or_exit-Closes o = Stops-or_exit _ o 255 refl

module _ (ipv6 : Ipv6Text) where
  addr_port-Closes : (parts : List Bytes) → Closes (encode_addr_port ipv6 parts)
  unfolding encode_addr_port
  addr_port-Closes [] =
      Stops-bind _ (or_exit (parse_ip_ip6 ipv6 []) 255) _ (or_exit-Closes _) (λ a. tt)
  addr_port-Closes (addr ∷ parts) =
      Stops-bind _ (or_exit (parse_ip_ip6 ipv6 addr) 255) _ (or_exit-Closes _) (λ a. tt)

  char_ip_ip6-Closes : (value : Value) → Closes (encode_char_ip_ip6 ipv6 value)
  unfolding encode_char_ip_ip6
  char_ip_ip6-Closes value = choose (ipv6.parse (as_text value))
    where
      choose :
          (found : Option Bytes)
          → Closes (elim found [
            | some a ↦ ok (2 ∷ a)
            | none ↦ or_exit (Option.map (λ a. 1 ∷ a) (parse_ipv4 (as_text value))) 255
          ])
      choose (some a) = tt
      choose none = or_exit-Closes (Option.map (λ a. 1 ∷ a) (parse_ipv4 (as_text value)))

module _ (ipv6 : Ipv6Text) (encode_snmp_oid : Bytes → Option Bytes) where
  encode_as-Closes :
      (kind : Enc) (sym : Symbol) (value : Value)
      → Closes (encode_as ipv6 encode_snmp_oid kind sym value)
  unfolding encode_as encode_uint encode_uint24 encode_ushort encode_uchar encode_ip encode_ip_list
      encode_ip6 encode_ip6_list encode_ip6_prefix_list encode_ip_ip6 encode_ip_ip6_port
      encode_ether encode_dual_qtag encode_char_list encode_ethermask encode_string encode_strzero
      encode_hexstr encode_oid encode_ushort_list
  encode_as-Closes Enc.uint sym value =
      Stops-bind _ (range_check sym (num_u32 value)) _ (range_check-Closes sym _) (λ u. tt)
  encode_as-Closes Enc.uint24 sym value = tt
  encode_as-Closes Enc.ushort sym value =
      Stops-bind _ (range_check sym (num_u32 value)) _ (range_check-Closes sym _) (λ u. tt)
  encode_as-Closes Enc.uchar sym value =
      Stops-bind _ (range_check sym (num_u32 value)) _ (range_check-Closes sym _) (λ u. tt)
  encode_as-Closes Enc.ip sym value = or_exit-Closes _
  encode_as-Closes Enc.ip_list sym value = extend_all-Closes parse_ipv4 _
  encode_as-Closes Enc.ip6 sym value = or_exit-Closes _
  encode_as-Closes Enc.ip6_list sym value = extend_all-Closes ipv6.parse _
  encode_as-Closes Enc.ip6_prefix_list sym value = tt
  encode_as-Closes Enc.ip_ip6 sym value = or_exit-Closes _
  encode_as-Closes Enc.char_ip_ip6 sym value = char_ip_ip6-Closes ipv6 value
  encode_as-Closes Enc.ip_ip6_port sym value = addr_port-Closes ipv6 _
  encode_as-Closes Enc.lenzero sym value = tt
  encode_as-Closes Enc.ether sym value = or_exit-Closes _
  encode_as-Closes Enc.dual_qtag sym value = tt
  encode_as-Closes Enc.char_list sym value = tt
  encode_as-Closes Enc.ethermask sym value =
      Stops-bind _ (or_exit (split_once b'/' (as_text value)) 255) _ (or_exit-Closes _)
        (λ (mac, mask). extend_all-Closes ether_aton (mac ∷ mask ∷ []))
  encode_as-Closes Enc.string sym value =
      Stops-bind _ (check_string_len sym (length (as_bytes value))) _
        (check_string_len-Closes sym _) (λ u. tt)
  encode_as-Closes Enc.strzero sym value =
      Stops-bind _ (check_string_len sym (length (as_bytes value))) _
        (check_string_len-Closes sym _) (λ u. tt)
  encode_as-Closes Enc.hexstr sym value =
      Stops-bind _ (or_exit (parse_hexstr (as_bytes value)) 255) _ (or_exit-Closes _) (λ out.
        Stops-bind _ (check_string_len sym (length out)) _ (check_string_len-Closes sym _)
          (λ u. tt))
  encode_as-Closes Enc.oid sym value = tt
  encode_as-Closes Enc.ushort_list sym value =
      let parts = nonempty (split_on (λ c. c == b',' || c == b' ') (as_text value)) in
      Stops-bind _ (ushorts parts) _ (ushorts-Closes parts) (λ out.
        Stops-bind _ (check_string_len sym (length parts)) _ (check_string_len-Closes sym _)
          (λ u. tt))
  encode_as-Closes Enc.nothing sym value = tt

  -- Every encoder gives bytes or exits with 241, 245 or 255, whatever the row and the value; it
  -- never panics.
  pub encode-Stops :
      (sym : Symbol) (value : Value) → Stops encoder_code (encode ipv6 encode_snmp_oid sym value)
  unfolding encode
  encode-Stops sym value = encode_as-Closes sym.enc sym value

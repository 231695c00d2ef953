-- ===== src/Symtable/Codecs.antt =====
-- src/symtable.rs: the encoder and the decoder of each row belong together.
use docsis_config_generator.Common.{
  ℕ, ◌≡◌, ◌≢◌, refl, sym, ap, subst, ◌∙◌, Bool, true, false, ◌||◌, Option, some, List, [], ◌∷◌,
  Bytes, length, get_or, ltb, ◌==◌, if◌then◌else◌, Run, ok, exit, panic, arith,
}
use docsis_config_generator.Symbol.{Symbol, Enc, Render}
use docsis_config_generator.Values.{Value}
use docsis_config_generator.Encode.{encode}
use docsis_config_generator.Encode.Width.{Width, encode-Width}
use docsis_config_generator.Decode
use docsis_config_generator.Decode.{Decoder, Settings}
use docsis_config_generator.Decode.Leaf
use docsis_config_generator.Symtable.{symtable}
use docsis_config_generator.Symtable.Every.{Among, every, every-Among}

-- The decoder of what an encoder writes.
abbrev pub decoder_of : Enc → Render
decoder_of Enc.char_ip_ip6 = Render.char_ip_ip6
decoder_of Enc.char_list = Render.char_list
decoder_of Enc.dual_qtag = Render.dual_qtag
decoder_of Enc.ether = Render.ether
decoder_of Enc.ethermask = Render.ethermask
decoder_of Enc.hexstr = Render.hexstr
decoder_of Enc.ip = Render.ip
decoder_of Enc.ip6 = Render.ip6
decoder_of Enc.ip6_list = Render.ip6_list
decoder_of Enc.ip6_prefix_list = Render.ip6_prefix_list
decoder_of Enc.ip_ip6 = Render.ip_ip6
decoder_of Enc.ip_ip6_port = Render.ip_ip6_port
decoder_of Enc.ip_list = Render.ip_list
decoder_of Enc.lenzero = Render.lenzero
decoder_of Enc.nothing = Render.aggregate
decoder_of Enc.oid = Render.oid
decoder_of Enc.string = Render.string
decoder_of Enc.strzero = Render.strzero
decoder_of Enc.uchar = Render.uchar
decoder_of Enc.uint = Render.uint
decoder_of Enc.uint24 = Render.uint24
decoder_of Enc.ushort = Render.ushort
decoder_of Enc.ushort_list = Render.ushort_list

-- A number for each decoder.
abbrev tag : Render → ℕ
tag Render.aggregate = 0
tag Render.char_ip_ip6 = 1
tag Render.char_list = 2
tag Render.dual_qtag = 3
tag Render.ether = 4
tag Render.ethermask = 5
tag Render.hexstr = 6
tag Render.ip = 7
tag Render.ip6 = 8
tag Render.ip6_list = 9
tag Render.ip6_prefix_list = 10
tag Render.ip_ip6 = 11
tag Render.ip_ip6_port = 12
tag Render.ip_list = 13
tag Render.lenzero = 14
tag Render.md5 = 15
tag Render.oid = 16
tag Render.snmp_object = 17
tag Render.snmp_wd = 18
tag Render.special = 19
tag Render.string = 20
tag Render.strzero = 21
tag Render.uchar = 22
tag Render.uint = 23
tag Render.uint24 = 24
tag Render.ushort = 25
tag Render.ushort_list = 26

-- The decoders in the order of their numbers.
abbrev decoders : List Render
decoders =
    Render.aggregate ∷ Render.char_ip_ip6 ∷ Render.char_list ∷ Render.dual_qtag ∷ Render.ether
    ∷ Render.ethermask ∷ Render.hexstr ∷ Render.ip ∷ Render.ip6 ∷ Render.ip6_list
    ∷ Render.ip6_prefix_list ∷ Render.ip_ip6 ∷ Render.ip_ip6_port ∷ Render.ip_list ∷ Render.lenzero
    ∷ Render.md5 ∷ Render.oid ∷ Render.snmp_object ∷ Render.snmp_wd ∷ Render.special ∷ Render.string
    ∷ Render.strzero ∷ Render.uchar ∷ Render.uint ∷ Render.uint24 ∷ Render.ushort
    ∷ Render.ushort_list ∷ []

abbrev untag : ℕ → Render
untag n = get_or decoders n Render.aggregate

untag-tag : (r : Render) → untag (tag r) ≡ r
untag-tag Render.aggregate = refl
untag-tag Render.char_ip_ip6 = refl
untag-tag Render.char_list = refl
untag-tag Render.dual_qtag = refl
untag-tag Render.ether = refl
untag-tag Render.ethermask = refl
untag-tag Render.hexstr = refl
untag-tag Render.ip = refl
untag-tag Render.ip6 = refl
untag-tag Render.ip6_list = refl
untag-tag Render.ip6_prefix_list = refl
untag-tag Render.ip_ip6 = refl
untag-tag Render.ip_ip6_port = refl
untag-tag Render.ip_list = refl
untag-tag Render.lenzero = refl
untag-tag Render.md5 = refl
untag-tag Render.oid = refl
untag-tag Render.snmp_object = refl
untag-tag Render.snmp_wd = refl
untag-tag Render.special = refl
untag-tag Render.string = refl
untag-tag Render.strzero = refl
untag-tag Render.uchar = refl
untag-tag Render.uint = refl
untag-tag Render.uint24 = refl
untag-tag Render.ushort = refl
untag-tag Render.ushort_list = refl

abbrev pub writes_nothing : Enc → Bool
writes_nothing Enc.nothing = true
writes_nothing _ = false

-- An encoder of no bytes goes with settings that other code writes.
abbrev paired : Symbol → Bool
paired row = writes_nothing row.enc || tag row.dec == tag (decoder_of row.enc)

symtable-paired : every paired symtable ≡ true
unfolding symtable
symtable-paired = refl

pub row-decoder :
    (row : Symbol)
    → Among row symtable
    → writes_nothing row.enc ≡ false
    → row.dec ≡ decoder_of row.enc
row-decoder row among writes =
    let pair = every-Among paired row symtable among symtable-paired in
    let same : tag row.dec ≡ tag (decoder_of row.enc) = ground (arith, pair, writes) in
    sym (untag-tag row.dec) ∙ ap untag same ∙ untag-tag (decoder_of row.enc)

-- A decoder's run that writes.
abbrev Writes : Option (Run Decoder) → Type 0
Writes (some (ok d)) = Unit {0}
Writes _ = ⊥

module _ (s : Settings) (d : Decoder) (row : Symbol) where
  checked_Writes :
      (n : ℕ) (v t : Bytes)
      → length v ≡ n
      → Writes (some (Decode.write_run d (Leaf.need_len n v (ok t))))
  checked_Writes n v t h = choose (length v == n) (ground (arith, h))
    where
      choose :
          (fits : Bool)
          → fits ≡ true
          → Writes (some (Decode.write_run d (if fits then ok t else exit 211)))
      choose true h = tt
      choose false h = ground arith

  long_Writes :
      (short : Bool) (t : Bytes)
      → short ≡ false
      → Writes (some (Decode.write_run d (if short then panic else ok t)))
  long_Writes true t h = ground arith
  long_Writes false t h = tt

  leaf-Writes :
      (kind : Enc) (v : Bytes)
      → writes_nothing kind ≡ false
      → Width kind (length v)
      → Writes (Decode.leaf s (decoder_of kind) d row v)
  unfolding Decode.leaf Leaf.decode_uint Leaf.decode_uint24 Leaf.decode_ushort Leaf.decode_ip
      Leaf.decode_ip6 Leaf.decode_ether Leaf.decode_dual_qtag Leaf.decode_ethermask
  leaf-Writes Enc.nothing v writes w = ground arith
  leaf-Writes Enc.uint v writes w = checked_Writes 4 v _ w
  leaf-Writes Enc.uint24 v writes w = long_Writes (ltb (length v) 3) _ (ground (arith, w))
  leaf-Writes Enc.ushort v writes w = checked_Writes 2 v _ w
  leaf-Writes Enc.ip v writes w = checked_Writes 4 v _ w
  leaf-Writes Enc.ip6 v writes w = checked_Writes 16 v _ w
  leaf-Writes Enc.ether v writes w = checked_Writes 6 v _ w
  leaf-Writes Enc.dual_qtag v writes w = checked_Writes 4 v _ w
  leaf-Writes Enc.ethermask v writes w = checked_Writes 12 v _ w
  leaf-Writes _ v writes w = tt

writes_nothing_lem : (kind : Enc) → kind ≢ Enc.nothing → writes_nothing kind ≡ false
writes_nothing_lem Enc.nothing h = absurd (h refl)
writes_nothing_lem _ h = refl

-- The decoder of a row neither exits nor panics on what the encoder of the row wrote, for every row
-- with an encoder of its own. An IPv6 address that Rust parses has sixteen bytes.
encoded-Writes :
    (s : Settings)
    → ((t a : Bytes) → s.ipv6.parse t ≡ some a → length a ≡ 16)
    → (encode_snmp_oid : Bytes → Option Bytes) (d : Decoder) (row : Symbol) → Among row symtable
    → row.enc ≢ Enc.nothing
    → (value : Value) (out : Bytes) → encode s.ipv6 encode_snmp_oid row value ≡ ok out
    → Writes (Decode.leaf s row.dec d row out)
encoded-Writes s sixteen encode_snmp_oid d row among own value out e =
    let writes = writes_nothing_lem row.enc own in
    subst (λ r. Writes (Decode.leaf s r d row out)) (sym (row-decoder row among writes))
      (leaf-Writes s d row row.enc out writes
        (encode-Width s.ipv6 sixteen encode_snmp_oid row value out e))

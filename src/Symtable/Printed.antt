-- ===== src/Symtable/Printed.antt =====
-- src/symtable.rs: what the decoder of a row with a range prints for what its encoder wrote.
use docsis_config_generator.Common.{
  ℕ, ◌^◌, ◌<◌, ◌≤◌, ◌≡◌, ◌≢◌, refl, sym, ap, subst, ◌∙◌, false, Option, none, some, [], ◌∷◌, Bytes,
  length, be_value, pos, ok, arith,
}
use docsis_config_generator.Text.{Ipv6Text, parse_i64, to_string}
use docsis_config_generator.Text.Numeral.{parse_i64-to_string}
use docsis_config_generator.Values.{Value, num}
use docsis_config_generator.Symbol.{Symbol, Enc}
use docsis_config_generator.Encode.{encode, encode_as}
use docsis_config_generator.Encode.Scalar.{num_u32, encode_uint, encode_ushort, encode_uchar}
use docsis_config_generator.Encode.Width.{Width, encode-Width}
use docsis_config_generator.Decode
use docsis_config_generator.Decode.{Decoder, Settings}
use docsis_config_generator.Decode.Leaf
use docsis_config_generator.Decode.Leaf.{line}
use docsis_config_generator.RoundTrip.Numbers.{num_u32_num}
use docsis_config_generator.Symtable.{symtable}
use docsis_config_generator.Symtable.Every.{Among}
use docsis_config_generator.Symtable.Codecs.{decoder_of, row-decoder, writes_nothing}
use docsis_config_generator.Symtable.Numbers.{
  IsRanged, too_wide, capacity, row-capacity, encode-Exact,
}
use docsis_config_generator.Encode.Scalar.{unranged}

-- Numbers need no parser of addresses.
abbrev without_ipv6 : Ipv6Text
without_ipv6 = record { parse = λ t. none; print = λ a. [] }

module _ (s : Settings) (encode_snmp_oid : Bytes → Option Bytes) where
  ranged-Width :
      (kind : Enc) (row : Symbol) (value : Value) (out : Bytes)
      → row.enc ≡ kind
      → IsRanged kind
      → encode s.ipv6 encode_snmp_oid row value ≡ ok out
      → Width kind (length out)
  unfolding encode encode_as
  ranged-Width kind row value out e h written =
      subst (λ k. Width k (length out)) e
        (encode-Width without_ipv6 (λ t a found. ground (arith, found)) encode_snmp_oid row value
          out (same kind e h ∙ written))
    where
      same :
          (k : Enc)
          → row.enc ≡ k
          → IsRanged k
          → encode without_ipv6 encode_snmp_oid row value ≡ encode s.ipv6 encode_snmp_oid row value
      same Enc.uint f h = rw f refl
      same Enc.ushort f h = rw f refl
      same Enc.uchar f h = rw f refl
      same _ f h = absurd h

  -- The encoder of a number reads the value as its `num_u32`.
  encode-num_u32 :
      (kind : Enc) (row : Symbol) (value : Value)
      → IsRanged kind
      → num_u32 value < 2 ^ 32
      → encode_as s.ipv6 encode_snmp_oid kind row (num (pos (num_u32 value)))
        ≡ encode_as s.ipv6 encode_snmp_oid kind row value
  unfolding encode_as encode_uint encode_ushort encode_uchar
  encode-num_u32 Enc.uint row value h small = rw (num_u32_num (num_u32 value) small)
  encode-num_u32 Enc.ushort row value h small = rw (num_u32_num (num_u32 value) small)
  encode-num_u32 Enc.uchar row value h small = rw (num_u32_num (num_u32 value) small)
  encode-num_u32 _ row value h small = absurd h

  leaf-line :
      (d : Decoder) (row : Symbol) (kind : Enc) (v : Bytes)
      → IsRanged kind
      → Width kind (length v)
      → Decode.leaf s (decoder_of kind) d row v
        ≡ some (ok (Decode.write d (line row (to_string (be_value 0 v)))))
  unfolding Decode.leaf Leaf.decode_uint Leaf.decode_ushort Leaf.decode_uchar
  leaf-line d row Enc.uint v h w = rw w
  leaf-line d row Enc.ushort v h w = rw w
  leaf-line d row Enc.uchar (b ∷ []) h w = let e : be_value 0 (b ∷ []) ≡ b = omega arith in rw e
  leaf-line d row _ v h w = absurd (omega arith)

  -- What the program writes for a number of the table, the row's decoder prints as that number, and
  -- the text, read again, is encoded as the same bytes: for every row that checks its numbers
  -- against a range and every value that its encoder accepts, the decoder writes the row's name and
  -- the number in decimal, and does not end the process. The row is not
  -- `NetworkTimingProfileReference`. (The number is the value modulo 2 ^ 32.)
  pub ranged_rows_print :
      (d : Decoder) (row : Symbol)
      → Among row symtable
      → row.id ≢ too_wide
      → IsRanged row.enc
      → unranged row ≡ false
      → (value : Value) (out : Bytes) → encode s.ipv6 encode_snmp_oid row value ≡ ok out
      → (Decode.leaf s row.dec d row out
          ≡ some (ok (Decode.write d (line row (to_string (num_u32 value))))))
        × (parse_i64 (to_string (num_u32 value)) ≡ some (pos (num_u32 value)))
        × (encode s.ipv6 encode_snmp_oid row (num (pos (num_u32 value))) ≡ ok out)
  unfolding encode
  ranged_rows_print d row among narrow ranged checked value out written =
      let n = num_u32 value in
      let (same, above, below) =
        encode-Exact s.ipv6 encode_snmp_oid row among narrow ranged checked value out written in
      let small : n < 2 ^ 32 = u32 row.enc n ranged below (row-capacity row among narrow) in
      let width = ranged-Width row.enc row value out refl ranged written in
      (
        subst (λ r. Decode.leaf s r d row out ≡ some (ok (Decode.write d (line row (to_string n)))))
            (sym (row-decoder row among (own row.enc ranged)))
            (leaf-line d row row.enc out ranged width
              ∙ ap (λ m. some (ok (Decode.write d (line row (to_string m))))) same),
        parse_i64-to_string n (omega (arith, small)),
        encode-num_u32 row.enc row value ranged small ∙ written,
      )
    where
      own : (kind : Enc) → IsRanged kind → writes_nothing kind ≡ false
      own Enc.nothing h = absurd h
      own _ h = refl

      u32 :
          (kind : Enc) (n : ℕ)
          → IsRanged kind
          → n ≤ row.high
          → row.high < capacity kind
          → n < 2 ^ 32
      u32 Enc.uint n h le fits = omega (arith, le, fits)
      u32 Enc.ushort n h le fits = omega (arith, le, fits)
      u32 Enc.uchar n h le fits = omega (arith, le, fits)
      u32 _ n h le fits = absurd h

-- ===== src/Symtable/Numbers.antt =====
-- src/symtable.rs: the ranges of the rows and the widths of the numbers.
use docsis_config_generator.Common.{
  ℕ, ◌%◌, ◌^◌, ◌<◌, ◌≤◌, ◌≡◌, ◌≢◌, refl, sym, ap, subst, Bool, true, false, ◌||◌, Option, [], ◌∷◌,
  Bytes, ltb, ◌==◌, if◌then◌else◌, be_bytes, be_value, Run, ok, exit, ◌>>=◌, arith,
}
use docsis_config_generator.Symbol.{Symbol, Enc}
use docsis_config_generator.Text.{Ipv6Text}
use docsis_config_generator.Values.{Value}
use docsis_config_generator.Encode.{encode, encode_as}
use docsis_config_generator.Encode.Scalar.{
  unranged, range_check, num_u32, encode_uint, encode_ushort, encode_uchar,
}
use docsis_config_generator.Symtable.{symtable}
use docsis_config_generator.Symtable.Every.{Among, every, every-Among}

-- The numbers below this fit in what an encoder writes.
abbrev pub capacity : Enc → ℕ
capacity Enc.uchar = 2 ^ 8
capacity Enc.ushort = 2 ^ 16
capacity _ = 2 ^ 32

-- The numbers that are checked against a range.
abbrev pub IsRanged : Enc → Type 0
IsRanged Enc.uchar = Unit {0}
IsRanged Enc.ushort = Unit {0}
IsRanged Enc.uint = Unit {0}
IsRanged _ = ⊥

-- `NetworkTimingProfileReference`.
abbrev pub too_wide : ℕ
too_wide = 496

abbrev range_fits : Symbol → Bool
range_fits row = row.id == too_wide || ltb row.high (capacity row.enc)

symtable-range_fits : every range_fits symtable ≡ true
unfolding symtable
symtable-range_fits = refl

pub row-capacity :
    (row : Symbol) → Among row symtable → row.id ≢ too_wide → row.high < capacity row.enc
row-capacity row among narrow =
    let fits = every-Among range_fits row symtable among symtable-range_fits in
    choose (row.id == too_wide) (ltb row.high (capacity row.enc)) refl refl fits
  where
    choose :
        (wide fits : Bool)
        → (row.id == too_wide) ≡ wide
        → ltb row.high (capacity row.enc) ≡ fits
        → (wide || fits) ≡ true
        → row.high < capacity row.enc
    choose true fits w f h = absurd (narrow (ground arith))
    choose false true w f h = ground arith
    choose false false w f h = ground arith

-- Bytes that are the number, which is in the row's range.
abbrev pub Exact : Symbol → ℕ → Bytes → Type 0
Exact row n out = (be_value 0 out ≡ n) × (row.low ≤ n) × (n ≤ row.high)

abbrev ok_or : Run Bytes → Bytes
ok_or (ok a) = a
ok_or _ = []

abbrev IsOk : Run Bytes → Type 0
IsOk (ok a) = Unit {0}
IsOk _ = ⊥

range_check-Exact :
    (row : Symbol) (n : ℕ) (b out : Bytes)
    → unranged row ≡ false
    → (n ≤ row.high → be_value 0 b ≡ n)
    → (range_check row n >>= λ _. ok b) ≡ ok out
    → Exact row n out
unfolding range_check
range_check-Exact row n b out ranged exact e =
    choose (unranged row) (ltb n row.low || ltb row.high n) refl refl e
  where
    choose :
        (free outside : Bool)
        → unranged row ≡ free
        → (ltb n row.low || ltb row.high n) ≡ outside
        → (let checked : Run (Unit {0}) =
              if free then ok tt else if outside then exit 241 else ok tt in
            (checked >>= λ _. ok b) ≡ ok out)
        → Exact row n out
    choose true outside f o e = ground arith
    choose false true f o e = absurd (subst IsOk (sym e) tt)
    choose false false f o e =
        let inside : (row.low ≤ n) × (n ≤ row.high) = (ground arith, ground arith) in
        let same : b ≡ out = ap ok_or e in
        (subst (λ v. be_value 0 v ≡ n) same (exact inside.1), inside.0, inside.1)

be_four : (n : ℕ) → n < 2 ^ 32 → be_value 0 (be_bytes 4 n) ≡ n
be_four n h = omega arith

module _ (ipv6 : Ipv6Text) (encode_snmp_oid : Bytes → Option Bytes) where
  encode_as-Exact :
      (kind : Enc) (row : Symbol) (value : Value) (out : Bytes)
      → IsRanged kind
      → row.high < capacity kind
      → unranged row ≡ false
      → encode_as ipv6 encode_snmp_oid kind row value ≡ ok out
      → Exact row (num_u32 value) out
  unfolding encode_as encode_uint encode_ushort encode_uchar
  encode_as-Exact Enc.uint row value out kind fits ranged e =
      let n = num_u32 value in
      range_check-Exact row n (be_bytes 4 n) out ranged (λ le. be_four n (omega (arith, le, fits)))
        e
  encode_as-Exact Enc.ushort row value out kind fits ranged e =
      let n = num_u32 value in
      range_check-Exact row n (be_bytes 2 (n % 2 ^ 16)) out ranged (λ le. omega (arith, le, fits)) e
  encode_as-Exact Enc.uchar row value out kind fits ranged e =
      let n = num_u32 value in
      range_check-Exact row n ((n % 256) ∷ []) out ranged (λ le. omega (arith, le, fits)) e
  encode_as-Exact _ row value out kind fits ranged e = absurd kind

  -- A number of a setting of the table is written as it is: for every row that checks its numbers
  -- against a range, an accepted value is in the range and the bytes are that value, if the row is
  -- not `NetworkTimingProfileReference`, whose range is wider than its two bytes. The value is taken
  -- modulo 2 ^ 32, as the source does.
  pub encode-Exact :
      (row : Symbol)
      → Among row symtable
      → row.id ≢ too_wide
      → IsRanged row.enc
      → unranged row ≡ false
      → (value : Value) (out : Bytes) → encode ipv6 encode_snmp_oid row value ≡ ok out
      → Exact row (num_u32 value) out
  unfolding encode
  encode-Exact row among narrow kind ranged value out e =
      encode_as-Exact row.enc row value out kind (row-capacity row among narrow) ranged e

-- ===== src/Asn1/Number.antt =====
-- src/asn1.rs: integers, `build_int` and `build_unsigned_int` against `parse_int` and
-- `parse_unsigned`.
use docsis_config_generator.Common.{
  ℕ, ◌+◌, ◌-◌, ◌/◌, ◌%◌, ◌^◌, ◌<◌, ◌≤◌, ◌≡◌, ◌≢◌, refl, ◌∙◌, Bool, true, [], ◌∷◌, length,
  length-be_bytes, arith, ◌&&◌, ◌||◌, Bool-cases, inl, inr, ◌⊎◌, Bytes, IsByte, All, ltb, leb,
  if◌then◌else◌, ◌==◌, ℤ, pos, negsuc, wrap, signed64, IsI64, signed64-wrap, be_bytes, be_bytes-All,
  be_value, be_value-be_bytes, shift_in,
}
use docsis_config_generator.Asn1.{
  strip_sign, strip_zeros, pad_sign, int_content, unsigned_content, parse_int, parse_unsigned,
}

-- No leading octet could be left out: a first octet of 0 stands before one with the high bit set,
-- and a first octet of 255 before one without.
abbrev pub IsShortest : Bytes → Type 0
IsShortest [] = ⊥
IsShortest (a ∷ []) = Unit {0}
IsShortest (a ∷ b ∷ rest) = ((a ≢ 0) ⊎ (128 ≤ b)) × ((a ≢ 255) ⊎ (b < 128))

-- The test of the loop in `build_int`.
abbrev redundant : ℕ → ℕ → Bool
redundant a b = (a == 0 && ltb b 0x80) || (a == 0xff && leb 0x80 b)

start : ℕ → ℕ
start a = if leb 0x80 a then 2 ^ 64 - 1 else 0

shift_in-redundant : (a b : ℕ) → redundant a b ≡ true → shift_in (start a) a ≡ start b
unfolding start
shift_in-redundant a b h = ground arith

parse_int-start :
    (a : ℕ) (rest : Bytes) → parse_int (a ∷ rest) ≡ signed64 (be_value (start a) (a ∷ rest))
unfolding parse_int start
parse_int-start a rest = refl

parse_int_drop :
    (a b : ℕ) (rest : Bytes)
    → redundant a b ≡ true
    → parse_int (a ∷ b ∷ rest) ≡ parse_int (b ∷ rest)
parse_int_drop a b rest h =
    rw (parse_int-start a (b ∷ rest), parse_int-start b rest, shift_in-redundant a b h)

parse_int-strip_sign : (bs : Bytes) → All IsByte bs → parse_int (strip_sign bs) ≡ parse_int bs
unfolding strip_sign
parse_int-strip_sign [] h = refl
parse_int-strip_sign (b ∷ []) h = refl
parse_int-strip_sign (a ∷ b ∷ rest) (ha, (hb, hs)) =
    ground (arith, parse_int_drop a b rest, parse_int-strip_sign (b ∷ rest) (hb, hs))

strip_sign-IsShortest : (b : ℕ) (bs : Bytes) → IsShortest (strip_sign (b ∷ bs))
unfolding strip_sign
strip_sign-IsShortest b [] = tt
strip_sign-IsShortest a (b ∷ rest) = elim (Bool-cases (redundant a b)) [
  | inl drop ↦ rw drop (strip_sign-IsShortest b rest)
  | inr keep ↦ rw keep (ground arith)
]

parse_int-be_bytes : (w : ℕ) → w < 2 ^ 64 → parse_int (be_bytes 8 w) ≡ signed64 w
unfolding parse_int
parse_int-be_bytes w h =
    rw (be_value-be_bytes (if leb 0x80 (w / 256 ^ 7 % 256) then 2 ^ 64 - 1 else 0) w h)

wrap-lt : (v : ℤ) → wrap (2 ^ 64) v < 2 ^ 64
wrap-lt (pos n) = omega arith
wrap-lt (negsuc n) = omega arith

-- Every `i64` is read back from the content octets that `build_int` writes, and those are as few
-- as possible: a first octet that only repeats the sign bit of the second never stands.
pub parse_int-int_content :
    (v : ℤ) → IsI64 v → (parse_int (int_content v) ≡ v) × IsShortest (int_content v)
unfolding int_content
parse_int-int_content v h = (
  parse_int-strip_sign (be_bytes 8 (wrap (2 ^ 64) v)) (be_bytes-All 8 (wrap (2 ^ 64) v))
      ∙ parse_int-be_bytes (wrap (2 ^ 64) v) (wrap-lt v)
      ∙ signed64-wrap v h,
  strip_sign-IsShortest (wrap (2 ^ 64) v / 256 ^ 7 % 256) (be_bytes 7 (wrap (2 ^ 64) v)),
)

parse_unsigned-strip_zeros : (bs : Bytes) → parse_unsigned (strip_zeros bs) ≡ parse_unsigned bs
unfolding strip_zeros parse_unsigned
parse_unsigned-strip_zeros [] = refl
parse_unsigned-strip_zeros (b ∷ []) = refl
parse_unsigned-strip_zeros (a ∷ b ∷ rest) = ground (arith, parse_unsigned-strip_zeros (b ∷ rest))

parse_unsigned-pad_sign : (bs : Bytes) → parse_unsigned (pad_sign bs) ≡ parse_unsigned bs
unfolding pad_sign parse_unsigned
parse_unsigned-pad_sign [] = refl
parse_unsigned-pad_sign (b ∷ bs) = ground arith

-- A receiver that reads the content as a signed integer sees no sign bit.
abbrev pub IsNonneg : Bytes → Type 0
IsNonneg [] = ⊥
IsNonneg (a ∷ rest) = a < 128

pad_sign-IsNonneg : (b : ℕ) (bs : Bytes) → IsNonneg (pad_sign (b ∷ bs))
unfolding pad_sign
pad_sign-IsNonneg b bs = elim (Bool-cases (leb 0x80 b)) [
  | inl high ↦ rw high (omega arith)
  | inr low ↦ rw low (ground arith)
]

strip_zeros-cons :
    (b : ℕ) (bs : Bytes) → (a : ℕ) × (rest : Bytes) × (strip_zeros (b ∷ bs) ≡ a ∷ rest)
unfolding strip_zeros
strip_zeros-cons b [] = (b, [], refl)
strip_zeros-cons a (b ∷ rest) = elim (Bool-cases (a == 0)) [
  | inl zero_lead ↦ rw zero_lead (strip_zeros-cons b rest)
  | inr other ↦ rw other (a, b ∷ rest, refl)
]

-- Every `u64` is read back from the content octets that `build_unsigned_int` writes, and the first
-- of them is below 128, so that they are not a negative number to a reader of signed integers.
pub parse_unsigned-unsigned_content :
    (v : ℕ) → v < 2 ^ 64 → (parse_unsigned (unsigned_content v) ≡ v) × IsNonneg (unsigned_content v)
unfolding unsigned_content
parse_unsigned-unsigned_content v h =
    let (a, rest, e) = strip_zeros-cons (v / 256 ^ 7 % 256) (be_bytes 7 v) in
    (
      parse_unsigned-pad_sign (strip_zeros (be_bytes 8 v))
          ∙ parse_unsigned-strip_zeros (be_bytes 8 v)
          ∙ unfold parse_unsigned in be_value-be_bytes 0 v h,
      rw e (pad_sign-IsNonneg a rest),
    )

length-strip_sign : (bs : Bytes) → length (strip_sign bs) ≤ length bs
unfolding strip_sign
length-strip_sign (lead ∷ next ∷ rest) = ground (arith, length-strip_sign (next ∷ rest))
length-strip_sign (b ∷ []) = omega arith
length-strip_sign [] = omega arith

length-strip_zeros : (bs : Bytes) → length (strip_zeros bs) ≤ length bs
unfolding strip_zeros
length-strip_zeros (lead ∷ next ∷ rest) = ground (arith, length-strip_zeros (next ∷ rest))
length-strip_zeros (b ∷ []) = omega arith
length-strip_zeros [] = omega arith

length-pad_sign : (bs : Bytes) → length (pad_sign bs) ≤ length bs + 1
unfolding pad_sign
length-pad_sign [] = omega arith
length-pad_sign (b ∷ bs) = ground arith

-- Eight octets hold an `i64`, and nine a `u64`.
pub length-int_content : (v : ℤ) → length (int_content v) ≤ 8
unfolding int_content
length-int_content v =
    omega
      (arith, length-strip_sign (be_bytes 8 (wrap (2 ^ 64) v)), length-be_bytes 8 (wrap (2 ^ 64) v))

pub length-unsigned_content : (v : ℕ) → length (unsigned_content v) ≤ 9
unfolding unsigned_content
length-unsigned_content v = omega (
  arith,
  length-pad_sign (strip_zeros (be_bytes 8 v)),
  length-strip_zeros (be_bytes 8 v),
  length-be_bytes 8 v,
)

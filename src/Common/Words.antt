-- ===== src/Common/Words.antt =====
-- Machine words and signed integers. A `u64` is a number below 2 ^ 64; an `i64` is the ℤ it stands
-- for, and a cast goes through its two's complement pattern.
use Prim.Native.Nat.{ℕ, zero, suc, ◌+◌, ◌-◌, ◌*◌, ◌/◌, ◌%◌, ◌^◌, ◌<◌}
use mathlib.Core.Path.{◌≡◌, refl}
use mathlib.Core.List.{List, [], ◌∷◌}
use native.Mathlib.Omega.{arith}
use docsis_config_generator.Common.Tests.{ltb, if◌then◌else◌}
use docsis_config_generator.Common.Lists.{length, All}

-- `negsuc n` is -(n + 1).
pub data ℤ : Type 0 where
  pos : ℕ → ℤ
  negsuc : ℕ → ℤ

-- The two's complement pattern of an integer, modulo `m`: `v as u8` at m = 256, and so on.
abbrev pub wrap : ℕ → ℤ → ℕ
wrap m (pos n) = n % m
wrap m (negsuc n) = m - 1 - n % m

-- The `i64` that a 64-bit pattern stands for.
abbrev pub signed64 : ℕ → ℤ
signed64 w = if ltb w (2 ^ 63) then pos w else negsuc (2 ^ 64 - 1 - w)

-- The values of an `i64`.
abbrev pub IsI64 : ℤ → Type 0
IsI64 (pos n) = n < 2 ^ 63
IsI64 (negsuc n) = n < 2 ^ 63

pub signed64-wrap : (v : ℤ) → IsI64 v → signed64 (wrap (2 ^ 64) v) ≡ v
signed64-wrap (pos n) h = ground arith
signed64-wrap (negsuc n) h = ground arith

-- `v.to_be_bytes()` of a word of `n` bytes.
abbrev pub be_bytes : ℕ → ℕ → List ℕ
be_bytes zero v = []
be_bytes (suc n) v = (v / 256 ^ n % 256) ∷ be_bytes n v

-- `(acc << 8) | b` on 64 bits.
abbrev pub shift_in : ℕ → ℕ → ℕ
shift_in acc b = acc * 256 % 2 ^ 64 + b

-- The loop that shifts the bytes of a big-endian number in.
abbrev pub be_value : ℕ → List ℕ → ℕ
be_value acc [] = acc
be_value acc (b ∷ bs) = be_value (shift_in acc b) bs

pub length-be_bytes : (n v : ℕ) → length (be_bytes n v) ≡ n
length-be_bytes zero v = refl
length-be_bytes (suc n) v = omega (arith, length-be_bytes n v)

pub be_bytes-All : (n v : ℕ) → All (λ b. b < 256) (be_bytes n v)
be_bytes-All zero v = tt
be_bytes-All (suc n) v = (omega arith, be_bytes-All n v)

-- Eight bytes shifted in push out whatever was there before.
pub be_value-be_bytes : (acc v : ℕ) → v < 2 ^ 64 → be_value acc (be_bytes 8 v) ≡ v
be_value-be_bytes acc v h = omega arith

-- Two bytes are a 16-bit number.
pub be_value-pair : (v : ℕ) → v < 2 ^ 16 → be_value 0 (be_bytes 2 v) ≡ v
be_value-pair v h = omega arith

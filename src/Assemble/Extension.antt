-- ===== src/Assemble/Extension.antt =====
-- src/main.rs: `replace_extension`.
use docsis_config_generator.Common.{
  ℕ, ◌+◌, ◌-◌, ◌||◌, ◌≡◌, ◌≢◌, refl, ◌∙◌, Option, none, some, [], ◌∷◌, ◌++◌, ltb, ◌==◌,
  if◌then◌else◌, length, take, Bytes, arith, All, All-append, length-append, append_assoc,
  take-append,
}
use mathlib.Core.List.{reverse, reverse-append, reverse-cons}

-- The length of a path's extension, from its last `.` on; the second argument is the path backwards,
-- the first the number of characters seen.
unfoldable pub old_len : ℕ → Bytes → ℕ
old_len seen [] = 0
old_len seen (c ∷ rev) =
    let more = old_len (seen + 1) rev in
    if c == b'/' || c == 0x5c then 0 else if c == b'.' then seen + 1 else more

unfoldable pub replace_extension : Bytes → Bytes → Option Bytes
replace_extension path extension =
    let old = old_len 0 (reverse path) in
    if ltb old (length extension) then none else some (take (length path - old) path ++ extension)

-- A character that neither ends the search nor starts an extension.
abbrev pub IsPlainChar : ℕ → Type 0
IsPlainChar c = (c ≢ b'.') × (c ≢ b'/') × (c ≢ 0x5c)

old_len-dot :
    (xs ys : Bytes) (seen : ℕ)
    → All IsPlainChar xs
    → old_len seen (xs ++ b'.' ∷ ys) ≡ seen + length xs + 1
unfolding old_len
old_len-dot [] ys seen h = omega arith
old_len-dot (c ∷ xs) ys seen (hc, hs) = ground (arith, old_len-dot xs ys (seen + 1) hs)

old_len-separator :
    (xs ys : Bytes) (seen : ℕ) → All IsPlainChar xs → old_len seen (xs ++ b'/' ∷ ys) ≡ 0
unfolding old_len
old_len-separator [] ys seen h = omega arith
old_len-separator (c ∷ xs) ys seen (hc, hs) = ground (arith, old_len-separator xs ys (seen + 1) hs)

All-reverse : (xs : Bytes) → All IsPlainChar xs → All IsPlainChar (reverse xs)
All-reverse [] h = tt
All-reverse (x ∷ xs) (h, hs) =
    rw (reverse-cons x xs)
      (All-append IsPlainChar (reverse xs) (x ∷ []) (All-reverse xs hs) (h, tt))

length-reverse_ℕ : (xs : Bytes) → length (reverse xs) ≡ length xs
length-reverse_ℕ [] = refl
length-reverse_ℕ (x ∷ xs) =
    rw (reverse-cons x xs) (omega (arith, length-append (reverse xs) (x ∷ []), length-reverse_ℕ xs))

reverse_middle : (xs ys : Bytes) (c : ℕ) → reverse (xs ++ c ∷ ys) ≡ reverse ys ++ c ∷ reverse xs
reverse_middle xs ys c =
    rw (reverse-append xs (c ∷ ys), reverse-cons c ys)
      (append_assoc (reverse ys) (c ∷ []) (reverse xs))

take_stem : (n : ℕ) (stem rest : Bytes) → n ≡ length stem → take n (stem ++ rest) ≡ stem
take_stem n stem rest e = rw e (take-append stem rest)

old_len-path :
    (stem old : Bytes)
    → All IsPlainChar old
    → old_len 0 (reverse (stem ++ b'.' ∷ old)) ≡ length old + 1
old_len-path stem old h = rw (reverse_middle stem old b'.') (
    old_len-dot (reverse old) (reverse stem) 0 (All-reverse old h)
    ∙ omega (arith, length-reverse_ℕ old))

-- The extension of a path is what starts at its last `.`, if no separator follows that: it is
-- replaced by the new one if that is no longer, and the path is refused if it is longer.
pub replace_extension_lem :
    (stem old extension : Bytes)
    → All IsPlainChar old
    → replace_extension (stem ++ b'.' ∷ old) extension
      ≡ (if ltb (length old + 1) (length extension) then none else some (stem ++ extension))
unfolding replace_extension
replace_extension_lem stem old extension h = rw (
  old_len-path stem old h,
  take_stem (length (stem ++ b'.' ∷ old) - (length old + 1)) stem (b'.' ∷ old)
      (omega (arith, length-append stem (b'.' ∷ old))),
)

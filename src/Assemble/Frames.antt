-- ===== src/Assemble/Frames.antt =====
-- src/main.rs: what `flatten` writes, as the sequence of settings that a reader of the file finds.
use docsis_config_generator.Common.{
  ℕ, ◌%◌, ◌^◌, ◌<◌, ◌≡◌, ◌≢◌, refl, sym, Bool, true, false, List, [], ◌∷◌, ◌++◌, ltb, leb, ◌==◌,
  if◌then◌else◌, length, be_bytes, Bytes, arith, append_assoc, append-nil, Bool-cases, inl, inr,
}
use docsis_config_generator.Assemble.Tree.{
  Tlv, Tlvs, leaf, node, nil, cons, flatten, flatten_leaf, flatten_node,
}

-- A setting in the file: with a one-byte length, or a long TLV 64.
pub data Frame : Type 0 where
  short : ℕ → Bytes → Frame
  long : Bytes → Frame

abbrev pub frame_bytes : Frame → Bytes
frame_bytes (short code value) = code ∷ length value ∷ value
frame_bytes (long value) = 64 ∷ (be_bytes 2 (length value) ++ value)

abbrev pub file_bytes : List Frame → Bytes
file_bytes [] = []
file_bytes (f ∷ fs) = frame_bytes f ++ file_bytes fs

-- The lengths fit, and no short setting has the code of the long one.
abbrev pub IsFrame : Frame → Type 0
IsFrame (short code value) = (length value < 2 ^ 8) × (code ≢ 64)
IsFrame (long value) = length value < 2 ^ 16

-- The settings of a tree that are written: an oversized value of TLV 11 as a long TLV 64, any other
-- oversized one and an oversized block not at all.
abbrev pub written : Tlv → List Frame
written (leaf code value) =
    if ltb (length value) 256
    then short code value ∷ []
    else if code == 11
    then long value ∷ []
    else []
written (node code children) =
    if ltb (length (flatten children)) 256 then short code (flatten children) ∷ [] else []

abbrev pub all_written : Tlvs → List Frame
all_written nil = []
all_written (cons t ts) = written t ++ all_written ts

-- No top-level setting has code 64 itself, and no value has 65536 bytes or more.
abbrev pub IsPlain : Tlvs → Type 0
IsPlain nil = Unit {0}
IsPlain (cons (leaf code value) ts) = (code ≢ 64) × (length value < 2 ^ 16) × IsPlain ts
IsPlain (cons (node code children) ts) = (code ≢ 64) × Unit {0} × IsPlain ts

file_bytes-append : (fs gs : List Frame) → file_bytes (fs ++ gs) ≡ file_bytes fs ++ file_bytes gs
file_bytes-append [] gs = refl
file_bytes-append (f ∷ fs) gs =
    rw (file_bytes-append fs gs)
      (sym (append_assoc (frame_bytes f) (file_bytes fs) (file_bytes gs)))

flatten_leaf-written :
    (code : ℕ) (value : Bytes)
    → length value < 2 ^ 16
    → flatten_leaf code value ≡ file_bytes (written (leaf code value))
unfolding flatten_leaf
flatten_leaf-written code value h = elim (Bool-cases (ltb (length value) 256)) [
  | inl fits ↦
      let e : length value % 256 ≡ length value = ground arith in
      let l : leb (length value) 255 ≡ true = ground arith in
      rw (fits, l, e) (sym (append-nil (code ∷ length value ∷ value)))
  | inr wide ↦
      let e : length value % 2 ^ 16 ≡ length value = omega arith in
      let l : leb (length value) 255 ≡ false = ground arith in rw (wide, l, e) (last (code == 11))
]
  where
    last :
        (b : Bool)
        → (if b then 64 ∷ (be_bytes 2 (length value) ++ value) else [])
          ≡ file_bytes (if b then long value ∷ [] else [])
    last true = sym (append-nil (64 ∷ (be_bytes 2 (length value) ++ value)))
    last false = refl

flatten_node-written :
    (code : ℕ) (children : Tlvs)
    → flatten_node code (flatten children) ≡ file_bytes (written (node code children))
unfolding flatten_node
flatten_node-written code children = elim (Bool-cases (ltb (length (flatten children)) 256)) [
  | inl fits ↦
      let e : length (flatten children) % 256 ≡ length (flatten children) = ground arith in
      let l : ltb 255 (length (flatten children)) ≡ false = ground arith in
      rw (fits, l, e) (sym (append-nil (code ∷ length (flatten children) ∷ flatten children)))
  | inr wide ↦ let l : ltb 255 (length (flatten children)) ≡ true = ground arith in rw (wide, l)
]

-- `flatten` writes the settings that it keeps, in order and in the form that their size asks for.
pub flatten-all_written : (ts : Tlvs) → IsPlain ts → flatten ts ≡ file_bytes (all_written ts)
unfolding flatten
flatten-all_written nil h = refl
flatten-all_written (cons (leaf code value) ts) (hc, hv, hs) =
    rw (flatten_leaf-written code value hv, flatten-all_written ts hs)
      (sym (file_bytes-append (written (leaf code value)) (all_written ts)))
flatten-all_written (cons (node code children) ts) (hc, hv, hs) =
    rw (flatten_node-written code children, flatten-all_written ts hs)
      (sym (file_bytes-append (written (node code children)) (all_written ts)))

-- ===== src/Assemble/Reader.antt =====
-- A reader of the file format: a setting's length is one byte, but two bytes for a TLV 64 behind a
-- TLV 254, which stands in an MTA's file only.
use docsis_config_generator.Common.{
  ℕ, zero, suc, ◌^◌, ◌<◌, ◌≤◌, ◌≡◌, ◌≢◌, refl, ap, ◌∙◌, Bool, true, false, ◌&&◌, ◌||◌, Option, none,
  some, List, [], ◌∷◌, ◌++◌, ltb, ◌==◌, if◌then◌else◌, length, take, drop, get_or, be_bytes,
  be_value, Bytes, arith, All, All-append, length-append, take-append, drop-append, Bool-cases, inl,
  inr,
}
use mathlib.Core.Option
use docsis_config_generator.Assemble.Tree.{Tlvs, leaf, node, nil, cons, flatten}
use docsis_config_generator.Assemble.Frames.{
  Frame, short, long, frame_bytes, file_bytes, IsFrame, IsPlain, all_written, written,
  flatten-all_written,
}

-- A value of `len` bytes in front of the rest.
abbrev cut : ℕ → Bytes → Option (Bytes × Bytes)
cut len bytes = if ltb (length bytes) len then none else some (take len bytes, drop len bytes)

-- The first setting and the bytes behind it; `mta` says whether a TLV 254 has been read.
pub read_frame : Bool → Bytes → Option (Frame × Bytes)
read_frame mta [] = none
read_frame mta (code ∷ []) = none
read_frame mta (code ∷ a ∷ rest) =
    if mta && code == 64
    then Option.map (λ (v, more). (long v, more))
        (cut (be_value 0 (a ∷ get_or rest 0 0 ∷ [])) (drop 1 rest))
    else Option.map (λ (v, more). (short code v, more)) (cut a rest)

abbrev marks : Frame → Bool
marks (short code value) = code == 254
marks (long value) = false

pub read_file : Bool → ℕ → Bytes → Option (List Frame)
read_file mta fuel [] = some []
read_file mta zero (b ∷ bs) = none
read_file mta (suc fuel) (b ∷ bs) =
    Option.bind (read_frame mta (b ∷ bs))
      λ (f, rest). Option.map (λ fs. f ∷ fs) (read_file (mta || marks f) fuel rest)

-- A long setting stands only behind a TLV 254.
abbrev pub IsAnnounced : Bool → List Frame → Type 0
IsAnnounced mta [] = Unit {0}
IsAnnounced mta (short code value ∷ fs) = IsAnnounced (mta || code == 254) fs
IsAnnounced mta (long value ∷ fs) = (mta ≡ true) × IsAnnounced mta fs

-- The same of one setting.
abbrev MayStand : Bool → Frame → Type 0
MayStand mta (short code value) = Unit {0}
MayStand mta (long value) = mta ≡ true

IsAnnounced-cons :
    (mta : Bool) (f : Frame) (fs : List Frame)
    → IsAnnounced mta (f ∷ fs)
    → MayStand mta f × IsAnnounced (mta || marks f) fs
IsAnnounced-cons mta (short code value) fs h = (tt, h)
IsAnnounced-cons true (long value) fs (h, hs) = (h, hs)
IsAnnounced-cons false (long value) fs (h, hs) = absurd (ground arith)

cut-append : (v rest : Bytes) → cut (length v) (v ++ rest) ≡ some (v, rest)
cut-append v rest =
    let fits : ltb (length (v ++ rest)) (length v) ≡ false = ground (arith, length-append v rest) in
    rw (fits, take-append v rest, drop-append v rest)

read_frame-frame_bytes :
    (mta : Bool) (f : Frame) (rest : Bytes)
    → IsFrame f
    → MayStand mta f
    → read_frame mta (frame_bytes f ++ rest) ≡ some (f, rest)
unfolding read_frame
read_frame-frame_bytes mta (short code value) rest (hl, hc) may =
    let other : (mta && code == 64) ≡ false = ground arith in rw (other, cut-append value rest)
read_frame-frame_bytes mta (long value) rest h may =
    let e : be_value 0 (be_bytes 2 (length value)) ≡ length value = omega arith in
    rw (may, e, cut-append value rest)

read_file_step :
    (mta : Bool) (fuel : ℕ) (buf rest : Bytes) (f : Frame)
    → read_frame mta buf ≡ some (f, rest)
    → read_file mta (suc fuel) buf
      ≡ Option.map (λ fs. f ∷ fs) (read_file (mta || marks f) fuel rest)
unfolding read_file Option.bind
read_file_step mta fuel [] rest f h = unfold read_frame in cc
read_file_step mta fuel (b ∷ bs) rest f h = rw h

read_file-file_bytes :
    (mta : Bool) (fs : List Frame) (fuel : ℕ)
    → All IsFrame fs
    → IsAnnounced mta fs
    → length fs ≤ fuel
    → read_file mta fuel (file_bytes fs) ≡ some fs
read_file-file_bytes mta [] fuel h announced enough = unfold read_file in refl
read_file-file_bytes mta (f ∷ fs) zero h announced enough = absurd (omega arith)
read_file-file_bytes mta (f ∷ fs) (suc fuel) (h, hs) announced enough =
    let (may, others) = IsAnnounced-cons mta f fs announced in
    read_file_step mta fuel _ (file_bytes fs) f (read_frame-frame_bytes mta f (file_bytes fs) h may)
    ∙ ap (Option.map (λ gs. f ∷ gs))
        (read_file-file_bytes (mta || marks f) fs fuel hs others (omega arith))

written-IsFrame :
    (code : ℕ) (v : Bytes) → code ≢ 64 → length v < 2 ^ 16 → All IsFrame (written (leaf code v))
written-IsFrame code v hc hv = elim (Bool-cases (ltb (length v) 256)) [
  | inl fits ↦ rw fits (ground arith)
  | inr wide ↦ rw wide (elim (Bool-cases (code == 11)) [
    | inl object ↦ rw object (omega arith)
    | inr other ↦ rw other tt
  ])
]

node-IsFrame : (code : ℕ) (children : Tlvs) → code ≢ 64 → All IsFrame (written (node code children))
node-IsFrame code children hc = elim (Bool-cases (ltb (length (flatten children)) 256)) [
  | inl fits ↦ rw fits (ground arith)
  | inr wide ↦ rw wide tt
]

pub all_written-IsFrame : (ts : Tlvs) → IsPlain ts → All IsFrame (all_written ts)
all_written-IsFrame nil h = tt
all_written-IsFrame (cons (leaf code v) ts) (hc, hv, hs) =
    All-append IsFrame (written (leaf code v)) (all_written ts) (written-IsFrame code v hc hv)
      (all_written-IsFrame ts hs)
all_written-IsFrame (cons (node code children) ts) (hc, hv, hs) =
    All-append IsFrame (written (node code children)) (all_written ts)
      (node-IsFrame code children hc) (all_written-IsFrame ts hs)

pub length-file_bytes : (fs : List Frame) → length fs ≤ length (file_bytes fs)
length-file_bytes [] = omega arith
length-file_bytes (short code value ∷ fs) =
    omega (arith, length-file_bytes fs, length-append value (file_bytes fs))
length-file_bytes (long value ∷ fs) =
    omega (arith, length-file_bytes fs, length-append value (file_bytes fs))

-- A reader of the file that `flatten` wrote finds exactly the settings of the tree that fit the
-- format, in order, a block's value being the bytes of its own settings. The reader takes two length
-- bytes for a TLV 64 behind a TLV 254 and one for all else, as the decoder does. The tree has no
-- top-level setting of code 64 and no value of 65536 bytes or more, and one of code 11 with more
-- than 255 bytes only behind a TLV 254.
pub read_file-flatten :
    (ts : Tlvs)
    → IsPlain ts
    → IsAnnounced false (all_written ts)
    → read_file false (length (flatten ts)) (flatten ts) ≡ some (all_written ts)
read_file-flatten ts h announced = rw (flatten-all_written ts h) (
    read_file-file_bytes false (all_written ts) (length (file_bytes (all_written ts)))
      (all_written-IsFrame ts h) announced (length-file_bytes (all_written ts)))

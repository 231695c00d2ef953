-- ===== src/Assemble/Selection.antt =====
-- src/main.rs: the settings that the CMTS MIC covers.
use docsis_config_generator.Common.{
  ℕ, zero, suc, ◌+◌, ◌^◌, ◌<◌, ◌≤◌, ◌≡◌, ◌≢◌, refl, ap, ◌∙◌, sym, Bool, true, false, ok, ◌>>=◌,
  List, [], ◌∷◌, ◌++◌, ltb, ◌==◌, if◌then◌else◌, length, be_bytes, be_value, Bytes, arith, All,
  All-append, append_assoc, append-nil, take-append, drop-append,
}
use docsis_config_generator.Assemble.Tree.{Tlvs, flatten}
use docsis_config_generator.Assemble.Sign.{select, select_all, selected, cmts_mic_tlvs, add_cm_mic}
use docsis_config_generator.Assemble.Frames.{
  Frame, short, long, frame_bytes, file_bytes, IsFrame, IsPlain, all_written, flatten-all_written,
}
use docsis_config_generator.Assemble.Reader.{length-file_bytes, all_written-IsFrame}

-- The bytes of the settings with one code; a long setting is TLV 64, which is in no list.
abbrev pub coded : ℕ → List Frame → Bytes
coded want [] = []
coded want (short code value ∷ fs) =
    if code == want then frame_bytes (short code value) ++ coded want fs else coded want fs
coded want (long value ∷ fs) = coded want fs

-- For each code of a list in turn, the settings with it in the order of the file.
abbrev pub by_code : List ℕ → List Frame → Bytes
by_code [] fs = []
by_code (want ∷ wants) fs = coded want fs ++ by_code wants fs

select_short :
    (fuel want code : ℕ) (value rest : Bytes)
    → length value < 256
    → code ≢ 64
    → select (suc fuel) want (code ∷ length value ∷ (value ++ rest)) ≡ (
        if code == want
        then (select fuel want rest >>= λ out. ok ((code ∷ length value ∷ value) ++ out))
        else select fuel want rest)
unfolding select
select_short fuel want code value rest h hc =
    let two : length value + 2 ≡ suc (suc (length value)) = omega arith in
    let other : (code == 64) ≡ false = ground arith in
    rw (other, two, drop-append value rest, take-append value rest)

select_long :
    (fuel want : ℕ) (value rest : Bytes)
    → length value < 2 ^ 16
    → want ≢ 64
    → select (suc fuel) want (frame_bytes (long value) ++ rest) ≡ select fuel want rest
unfolding select
select_long fuel want value rest h hw =
    let e : be_value 0 (be_bytes 2 (length value)) + 3 ≡ suc (suc (suc (length value))) =
      omega arith in
    let long_enough : ltb (suc (suc (suc (length (value ++ rest))))) 3 ≡ false = ground arith in
    let other : (64 == want) ≡ false = ground arith in
    rw (e, long_enough, other, drop-append value rest)

-- `want` is a code of the list, so not 64.
select-file_bytes :
    (fs : List Frame) (fuel want : ℕ)
    → All IsFrame fs
    → length fs ≤ fuel
    → want ≢ 64
    → select fuel want (file_bytes fs) ≡ ok (coded want fs)
select-file_bytes [] fuel want h enough hw = unfold select in refl
select-file_bytes (f ∷ fs) zero want h enough hw = absurd (omega arith)
select-file_bytes (short code value ∷ fs) (suc fuel) want ((hl, hc), hs) enough hw =
    select_short fuel want code value (file_bytes fs) hl hc
    ∙ ap (λ t. if code == want then (t >>= λ out. ok ((code ∷ length value ∷ value) ++ out)) else t)
        (select-file_bytes fs fuel want hs (omega arith) hw)
    ∙ inside (code == want)
  where
    inside :
        (test : Bool)
        → (if test then ok ((code ∷ length value ∷ value) ++ coded want fs) else ok (coded want fs))
          ≡ ok (if test then (code ∷ length value ∷ value) ++ coded want fs else coded want fs)
    inside true = refl
    inside false = refl
select-file_bytes (long value ∷ fs) (suc fuel) want (h, hs) enough hw =
    select_long fuel want value (file_bytes fs) h hw
    ∙ select-file_bytes fs fuel want hs (omega arith) hw

select_all-file_bytes :
    (wants : List ℕ) (fs : List Frame)
    → All IsFrame fs
    → All (λ w. w ≢ 64) wants
    → select_all wants (file_bytes fs) ≡ ok (by_code wants fs)
unfolding select_all
select_all-file_bytes [] fs h hw = refl
select_all-file_bytes (want ∷ wants) fs h (hw, hws) = rw (
  select-file_bytes fs (length (file_bytes fs)) want h (length-file_bytes fs) hw,
  select_all-file_bytes wants fs h hws,
)

pub selected-file_bytes :
    (fs : List Frame) → All IsFrame fs → selected (file_bytes fs) ≡ ok (by_code cmts_mic_tlvs fs)
unfolding selected
selected-file_bytes fs h = select_all-file_bytes cmts_mic_tlvs fs h (omega arith)

file_bytes-snoc :
    (fs : List Frame) (f : Frame) → file_bytes (fs ++ f ∷ []) ≡ file_bytes fs ++ frame_bytes f
file_bytes-snoc [] f = append-nil (frame_bytes f)
file_bytes-snoc (g ∷ fs) f =
    rw (file_bytes-snoc fs f) (sym (append_assoc (frame_bytes g) (file_bytes fs) (frame_bytes f)))

pub add_cm_mic-frames :
    (md5 : Bytes → Bytes) (buf : Bytes)
    → buf ≢ []
    → length (md5 buf) ≡ 16
    → add_cm_mic md5 buf ≡ buf ++ frame_bytes (short 6 (md5 buf))
unfolding add_cm_mic
add_cm_mic-frames md5 [] ne h = absurd (ne refl)
add_cm_mic-frames md5 (b ∷ bs) ne h = rw h

-- The CMTS MIC of a modem file is computed over the top-level settings whose code is in the list
-- `CMTS_MIC_TLVS`, the CM MIC among them: code by code in the list's order, and settings of one code
-- in the file's order. A value of one setting is never taken for another setting, and a long TLV 64
-- is stepped over. (The tree is not empty once written, the digest has 16 bytes, and the tree has no
-- top-level setting of code 64 and no value of 65536 bytes or more.)
pub selected-add_cm_mic :
    (md5 : Bytes → Bytes) (ts : Tlvs)
    → IsPlain ts
    → flatten ts ≢ []
    → length (md5 (flatten ts)) ≡ 16
    → selected (add_cm_mic md5 (flatten ts))
      ≡ ok (by_code cmts_mic_tlvs (all_written ts ++ short 6 (md5 (flatten ts)) ∷ []))
selected-add_cm_mic md5 ts plain ne sixteen =
    let mic : Frame = short 6 (md5 (flatten ts)) in
    rw (add_cm_mic-frames md5 (flatten ts) ne sixteen) (
      ap (λ b. selected (b ++ frame_bytes mic)) (flatten-all_written ts plain)
      ∙ ap selected (sym (file_bytes-snoc (all_written ts) mic))
      ∙ selected-file_bytes (all_written ts ++ mic ∷ []) (
          All-append IsFrame (all_written ts) (mic ∷ []) (all_written-IsFrame ts plain)
            ((omega arith, omega arith), tt)))

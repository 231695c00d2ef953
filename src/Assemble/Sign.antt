-- ===== src/Assemble/Sign.antt =====
-- src/main.rs: the message integrity checks, the end marker and the padding of a modem file.
use docsis_config_generator.Common.{
  ℕ, zero, suc, ◌+◌, ◌-◌, ◌%◌, ◌&&◌, List, [], ◌∷◌, ◌++◌, ltb, ◌==◌, if◌then◌else◌, length, take,
  drop, get_or, replicate, be_value, Bytes, Run, ok, out_of_fuel, ◌>>=◌,
}
use docsis_config_generator.Decode.{Settings, new, decode_main_aggregate}

unfoldable pub add_cm_mic : (Bytes → Bytes) → Bytes → Bytes
add_cm_mic md5 [] = []
add_cm_mic md5 (b ∷ bs) = (b ∷ bs) ++ 6 ∷ 16 ∷ md5 (b ∷ bs)

abbrev pub cmts_mic_tlvs : List ℕ
cmts_mic_tlvs =
    1 ∷ 2 ∷ 3 ∷ 4 ∷ 17 ∷ 43 ∷ 6 ∷ 18 ∷ 19 ∷ 20 ∷ 22 ∷ 23 ∷ 24 ∷ 25 ∷ 28 ∷ 29 ∷ 26 ∷ 35 ∷ 36 ∷ 37
    ∷ 40 ∷ []

-- The inner loop of `add_cmts_mic`, over the bytes from `pos` on; a round takes two bytes at least.
unfoldable pub select : ℕ → ℕ → Bytes → Run Bytes
select fuel want [] = ok []
select fuel want (code ∷ []) = ok []
select zero want (code ∷ len ∷ rest) = out_of_fuel
select (suc fuel) want (code ∷ len ∷ rest) =
    let buf = code ∷ len ∷ rest in
    let step = if code == 64 then be_value 0 (len ∷ get_or rest 0 0 ∷ []) + 3 else len + 2 in
    let taken =
      select fuel want (drop (len + 2) buf) >>= λ behind. ok (take (len + 2) buf ++ behind) in
    let skipped = select fuel want (drop step buf) in
    if code == 64 && ltb (length buf) 3 then ok [] else if code == want then taken else skipped

unfoldable pub select_all : List ℕ → Bytes → Run Bytes
select_all [] buf = ok []
select_all (want ∷ wants) buf = do
  first ← select (length buf) want buf
  others ← select_all wants buf
  ok (first ++ others)

-- The TLVs that the CMTS MIC covers, in the order of the table.
unfoldable pub selected : Bytes → Run Bytes
unfolding select_all
selected buf = select_all cmts_mic_tlvs buf

unfoldable pub add_cmts_mic : Settings → (Bytes → Bytes → Bytes) → Bytes → Bytes → Run Bytes
add_cmts_mic s hmac_md5 key [] = ok []
add_cmts_mic s hmac_md5 key (b ∷ bs) =
    let buf = b ∷ bs in
    do
      covered ← selected buf
      shown ← decode_main_aggregate s new covered
      ok (buf ++ 7 ∷ 16 ∷ hmac_md5 key covered)

unfoldable pub add_eod_and_pad : Bytes → Bytes
add_eod_and_pad [] = []
add_eod_and_pad (b ∷ bs) =
    let buf = (b ∷ bs) ++ 255 ∷ [] in let pad = (4 - length buf % 4) % 4 in buf ++ replicate pad 0

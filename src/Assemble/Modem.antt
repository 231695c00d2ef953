-- ===== src/Assemble/Modem.antt =====
-- src/main.rs: `encode_one_file` for a modem's file, from the tree to the buffer.
use docsis_config_generator.Common.{
  ℕ, ◌%◌, ◌<◌, ◌≡◌, ◌≢◌, refl, true, false, Option, [], ◌∷◌, ◌++◌, arith, length, replicate, Bytes,
  ok,
}
use docsis_config_generator.Decode.{Settings, Decoder, new, decode_main_aggregate}
use docsis_config_generator.Assemble
use docsis_config_generator.Assemble.{Options, Digests, encode_tree, starts_mta}
use docsis_config_generator.Assemble.Tree.{Tlv, Tlvs, cons, flatten}
use docsis_config_generator.Assemble.Sign.{selected, add_cm_mic, add_cmts_mic, add_eod_and_pad}
use docsis_config_generator.Assemble.Covered.{covered_by, selected-covered_by}
use docsis_config_generator.Assemble.Padding.{add_eod_and_pad_lem}

-- A modem's file, with a key and without a dial plan or a hash.
abbrev pub modem_options : Bytes → Options
modem_options key = record {
  encode_docsis = true;
  key = key;
  dialplan = false;
  dialplan_file = Option.none;
  hash = 0;
}

-- The settings of the tree with the CM MIC behind them.
abbrev pub with_cm_mic : Digests → Bytes → Bytes
with_cm_mic digests file = file ++ 6 ∷ 16 ∷ digests.md5 file

-- The same with the CMTS MIC behind that, over what it covers.
abbrev pub with_both_mics : Digests → Bytes → Bytes → Bytes
with_both_mics digests key file =
    let buf = with_cm_mic digests file in buf ++ 7 ∷ 16 ∷ digests.hmac_md5 key (covered_by buf)

sign_modem_lem :
    (s : Settings) (digests : Digests) (key file : Bytes) (shown : Decoder)
    → file ≢ []
    → decode_main_aggregate s new (covered_by (with_cm_mic digests file)) ≡ ok shown
    → Assemble.sign_modem s digests (modem_options key) true file
      ≡ ok (add_eod_and_pad (with_both_mics digests key file))
unfolding Assemble.sign_modem add_cm_mic add_cmts_mic
sign_modem_lem s digests key [] shown ne h = absurd (ne refl)
sign_modem_lem s digests key (b ∷ bs) shown ne h =
    rw (selected-covered_by (with_cm_mic digests (b ∷ bs)), h)

with_both_mics-ne_nil :
    (digests : Digests) (key file : Bytes) → file ≢ [] → with_both_mics digests key file ≢ []
with_both_mics-ne_nil digests key [] ne = absurd (ne refl)
with_both_mics-ne_nil digests key (b ∷ bs) ne = ground arith

-- A modem's file is the settings of the tree, then the CM MIC (TLV 6, the digest of the settings),
-- then the CMTS MIC (TLV 7, the keyed digest of what is selected from the settings and the CM MIC),
-- then the end marker and fewer than four zero bytes, which make its length a multiple of four: if
-- the tree writes something and does not begin with TLV 254, and the decoder returns from both of
-- its runs, the one over the selection and the one over the file.
pub encode_tree-modem :
    (s : Settings) (digests : Digests) (key : Bytes) (tlv : Tlv) (tlvs : Tlvs)
    (covered shown : Decoder)
    → starts_mta (cons tlv tlvs) ≡ false
    → flatten (cons tlv tlvs) ≢ []
    → decode_main_aggregate s new (covered_by (with_cm_mic digests (flatten (cons tlv tlvs))))
      ≡ ok covered
    → decode_main_aggregate s new
        (add_eod_and_pad (with_both_mics digests key (flatten (cons tlv tlvs))))
      ≡ ok shown
    → (pad : ℕ) × (buffer : Bytes) × (encode_tree s digests (modem_options key) (cons tlv tlvs)
        ≡ ok buffer)
      × (selected (with_cm_mic digests (flatten (cons tlv tlvs)))
          ≡ ok (covered_by (with_cm_mic digests (flatten (cons tlv tlvs)))))
      × (buffer ≡ with_both_mics digests key (flatten (cons tlv tlvs)) ++ 255 ∷ replicate pad 0)
      × (pad < 4)
      × (length buffer % 4 ≡ 0)
unfolding encode_tree
encode_tree-modem s digests key tlv tlvs covered shown modem ne first second =
    let file = flatten (cons tlv tlvs) in
    let (pad, padded, few, fourth) =
      add_eod_and_pad_lem (with_both_mics digests key file)
        (with_both_mics-ne_nil digests key file ne) in
    (
      pad,
      add_eod_and_pad (with_both_mics digests key file),
      rw (modem, sign_modem_lem s digests key file covered ne first, second),
      selected-covered_by (with_cm_mic digests file),
      padded,
      few,
      fourth,
    )

-- ===== src/Assemble.antt =====
-- src/main.rs: the byte sequence of a configuration file, from the parsed settings to the finished
-- buffer. The digests of the md5, hmac and sha1 crates, the file `dialplan.txt` and the key are
-- parameters. What is printed on the way is left out, but for the decodings, which may end the run.
pub mod Tree
pub mod Sign
pub mod Mta
pub mod Frames
pub mod Reader
pub mod Selection
pub mod Padding
pub mod Dialplan
pub mod Hash
pub mod Covered
pub mod Modem
pub mod Recovery
pub mod Extension
pub mod OneFile
pub mod Halts
pub mod CommandLine
pub mod Program
use docsis_config_generator.Common.{
  ℕ, zero, suc, ◌+◌, ◌-◌, ◌*◌, ◌/◌, ◌%◌, ◌^◌, Bool, true, false, ◌&&◌, ◌||◌, not, Option, none,
  some, List, [], ◌∷◌, ◌++◌, ltb, leb, ◌==◌, if◌then◌else◌, length, take, drop, get_or, replicate,
  be_bytes, be_value, Bytes, Run, ok, exit, ◌>>=◌, ◌>>◌, or_exit,
}
use docsis_config_generator.Decode.{Settings, Decoder, new, decode_main_aggregate}
use docsis_config_generator.Assemble.Tree.{Tlvs, nil, cons, leaf, node, flatten}
use docsis_config_generator.Assemble.Sign.{add_cm_mic, add_cmts_mic, add_eod_and_pad}
use docsis_config_generator.Assemble.Mta.{add_mta_hash, add_dialplan}

-- What `encode_one_file` is given beside the settings.
pub record Options : Type 0 where
  pub encode_docsis : Bool
  pub key : Bytes
  pub dialplan : Bool
  pub dialplan_file : Option Bytes
  pub hash : ℕ

pub record Digests : Type 0 where
  pub md5 : Bytes → Bytes
  pub hmac_md5 : Bytes → Bytes → Bytes
  pub sha1 : Bytes → Bytes

-- `tree[0].code`; the caller has refused an empty tree.
unfoldable pub starts_mta : Tlvs → Bool
starts_mta nil = false
starts_mta (cons (leaf code value) tlvs) = code == 254
starts_mta (cons (node code children) tlvs) = code == 254

sign_modem : Settings → Digests → Options → Bool → Bytes → Run Bytes
sign_modem s digests opts false buffer = ok buffer
sign_modem s digests opts true buffer = do
  signed ← add_cmts_mic s digests.hmac_md5 opts.key (add_cm_mic digests.md5 buffer)
  ok (add_eod_and_pad signed)

with_dialplan : Options → Bytes → Run Bytes
with_dialplan opts buffer =
    if opts.dialplan
    then (do body ← or_exit opts.dialplan_file 255; ok (add_dialplan body buffer))
    else ok buffer

with_hash : Digests → Options → Bytes → Bytes
with_hash digests opts buffer =
    if opts.hash == 0 then buffer else add_mta_hash digests.sha1 opts.hash buffer

-- `encode_one_file` between the parser and the write of the output: the buffer that is written. An
-- empty tree is the error that `main` answers with `exit(2)`.
unfoldable pub encode_tree : Settings → Digests → Options → Tlvs → Run Bytes
unfolding starts_mta sign_modem with_dialplan with_hash
encode_tree s digests opts nil = exit 2
encode_tree s digests opts (cons tlv tlvs) =
    let tree = cons tlv tlvs in
    do
      signed ←
          sign_modem s digests opts (opts.encode_docsis && not (starts_mta tree)) (flatten tree)
      planned ← with_dialplan opts signed
      let buffer = with_hash digests opts planned
      shown ← decode_main_aggregate s new buffer
      ok buffer

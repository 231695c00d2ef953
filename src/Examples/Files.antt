-- ===== src/Examples/Files.antt =====
-- Small trees of settings and the files made of them.
use docsis_config_generator.Common.{
  ℕ, ◌+◌, ◌%◌, ◌<◌, ◌≡◌, refl, false, some, none, [], ◌∷◌, ◌++◌, if◌then◌else◌, ltb, length,
  replicate, Bytes, arith, ◌⊎◌, Run, ok, exit, panic,
}
use docsis_config_generator.Text.{ascii}
use docsis_config_generator.Symbol.{find, find_by_code_and_pid}
use docsis_config_generator.Asn1.{parse_var_op}
use docsis_config_generator.Decode.{
  dialplan_body, Settings, Decoder, new, decode_main_aggregate, decode_main_loop, main_header,
  decode_tlv,
}
use docsis_config_generator.Assemble.Recovery.{dialplan_body-dialplan_value}
use docsis_config_generator.Decode.Termination.{decode_main_aggregate-returns}
use docsis_config_generator.Assemble.{Digests, encode_tree, starts_mta}
use docsis_config_generator.Assemble.Tree.{
  Tlvs, nil, cons, leaf, node, flatten, flatten_leaf, flatten_node,
}
use docsis_config_generator.Assemble.Sign.{
  selected, select, add_cm_mic, add_eod_and_pad, cmts_mic_tlvs,
}
use docsis_config_generator.Assemble.Mta.{mta_end, add_mta_hash, dialplan_outer, dialplan_value}
use docsis_config_generator.Assemble.Frames.{short, frame_bytes, all_written}
use docsis_config_generator.Assemble.Reader.{read_file, read_file-flatten}
use docsis_config_generator.Assemble.Selection.{by_code, selected-add_cm_mic}
use docsis_config_generator.Assemble.Covered.{covered_by}
use docsis_config_generator.Assemble.Padding.{add_eod_and_pad_lem}
use docsis_config_generator.Assemble.Dialplan.{dialplan_name, parse_var_op-dialplan_value}
use docsis_config_generator.Assemble.Hash.{hash_name, hash_value, add_mta_hash-appends}
use docsis_config_generator.Assemble.Modem.{
  modem_options, with_cm_mic, with_both_mics, encode_tree-modem,
}
use docsis_config_generator.Assemble.Extension.{replace_extension, replace_extension_lem}

-- NetworkAccess, and a block with one setting.
abbrev modem_tree : Tlvs
modem_tree = cons (leaf 3 (1 ∷ [])) (cons (node 24 (cons (leaf 1 (0 ∷ 1 ∷ [])) nil)) nil)

-- An object of 300 bytes in an MTA file.
abbrev mta_tree : Tlvs
mta_tree = cons (leaf 254 (1 ∷ [])) (cons (leaf 11 (replicate 300 7)) nil)

abbrev digest16 : Bytes → Bytes
digest16 file = replicate 16 (length file)

abbrev digest20 : Bytes → Bytes
digest20 file = replicate 20 (length file)

flat : flatten modem_tree ≡ 3 ∷ 1 ∷ 1 ∷ 24 ∷ 4 ∷ 1 ∷ 2 ∷ 0 ∷ 1 ∷ []
unfolding flatten flatten_leaf flatten_node
flat = refl

read_file-flatten_example :
    read_file false (length (flatten mta_tree)) (flatten mta_tree) ≡ some (all_written mta_tree)
read_file-flatten_example = read_file-flatten mta_tree (omega arith) (refl, tt)

selected-add_cm_mic_example :
    selected (add_cm_mic digest16 (flatten modem_tree))
    ≡ ok (
        by_code cmts_mic_tlvs
          (all_written modem_tree ++ short 6 (digest16 (flatten modem_tree)) ∷ []))
selected-add_cm_mic_example =
    selected-add_cm_mic digest16 modem_tree (omega arith) (rw flat (ground arith)) (omega arith)

add_eod_and_pad_lem_example :
    (pad : ℕ) × (add_eod_and_pad (1 ∷ 2 ∷ 3 ∷ 4 ∷ [])
      ≡ (1 ∷ 2 ∷ 3 ∷ 4 ∷ []) ++ 255 ∷ replicate pad 0)
    × (pad < 4)
    × (length (add_eod_and_pad (1 ∷ 2 ∷ 3 ∷ 4 ∷ [])) % 4 ≡ 0)
add_eod_and_pad_lem_example = add_eod_and_pad_lem (1 ∷ 2 ∷ 3 ∷ 4 ∷ []) (ground arith)

abbrev digit_map : Bytes
digit_map = replicate 110 b'x'

parse_var_op-dialplan_value_example :
    (parse_var_op (dialplan_value digit_map)
      ≡ some (record { name = dialplan_name; val_type = 4; val = digit_map }))
    × (dialplan_outer (length digit_map) ≡ length (dialplan_value digit_map))
parse_var_op-dialplan_value_example = parse_var_op-dialplan_value digit_map (omega arith)

abbrev mta_body : Bytes
mta_body = 254 ∷ 1 ∷ 1 ∷ []

add_mta_hash-appends_example :
    (add_mta_hash digest20 1 (mta_body ++ mta_end)
      ≡ mta_body
        ++ (frame_bytes (short 11 (hash_value 1 (digest20 (mta_body ++ mta_end)))) ++ mta_end))
    × (parse_var_op (hash_value 1 (digest20 (mta_body ++ mta_end)))
        ≡ some (record { name = hash_name 1; val_type = 4; val = digest20 (mta_body ++ mta_end) }))
add_mta_hash-appends_example = add_mta_hash-appends digest20 1 mta_body (omega arith)

replace_extension_lem_example :
    replace_extension (ascii "dir.d/modem" ++ b'.' ∷ ascii "conf") (ascii ".bin") ≡ (
      if ltb (length (ascii "conf") + 1) (length (ascii ".bin"))
      then none
      else some (ascii "dir.d/modem" ++ ascii ".bin"))
replace_extension_lem_example =
    replace_extension_lem (ascii "dir.d/modem") (ascii "conf") (ascii ".bin") (ground arith)

-- No MIB and no symbol table: every setting is unknown.
abbrev bare : Settings
bare = record {
  symtable = [];
  mib = record {
    resolve_oid = λ name. none;
    resolve_oid_numeric_first = λ name. none;
    read_objid = λ name. none;
    get_node = λ name. none;
    get_tree = λ oid. none;
    sprint_objid = λ oid format. [];
  };
  ipv6 = record { parse = λ t. none; print = λ a. [] };
  nohash = false;
  numeric_oids = false;
}

decode_main_aggregate-returns_example :
    ((d' : Decoder) × (t : Bytes) × (decode_main_aggregate bare new (3 ∷ 1 ∷ 1 ∷ 255 ∷ []) ≡ ok d')
      × (d'.tabs ≡ 0)
      × (d'.out ≡ [] ++ (ascii "Main \n{\n" ++ (t ++ ascii "}\n"))))
    ⊎ (((code : ℕ) × (decode_main_aggregate bare new (3 ∷ 1 ∷ 1 ∷ 255 ∷ []) ≡ exit code))
        ⊎ (decode_main_aggregate bare new (3 ∷ 1 ∷ 1 ∷ 255 ∷ []) ≡ panic))
decode_main_aggregate-returns_example =
    decode_main_aggregate-returns bare new (3 ∷ 1 ∷ 1 ∷ 255 ∷ [])

abbrev digests : Digests
digests = record {
  md5 = digest16;
  hmac_md5 = λ key file. replicate 16 (length key);
  sha1 = digest20;
}

-- The decoder that a run leaves.
abbrev left_by : Run Decoder → Decoder
left_by (ok d) = d
left_by (exit code) = new
left_by panic = new
left_by Run.out_of_fuel = new

covered_run :
    decode_main_aggregate bare new (covered_by (with_cm_mic digests (flatten modem_tree)))
    ≡ ok (
        left_by
          (decode_main_aggregate bare new (covered_by (with_cm_mic digests (flatten modem_tree)))))
unfolding flatten flatten_leaf flatten_node selected select decode_main_aggregate decode_main_loop
    decode_tlv main_header find_by_code_and_pid find
covered_run = refl

file_run :
    decode_main_aggregate bare new
      (add_eod_and_pad (with_both_mics digests (ascii "key") (flatten modem_tree)))
    ≡ ok (
        left_by (
          decode_main_aggregate bare new
            (add_eod_and_pad (with_both_mics digests (ascii "key") (flatten modem_tree)))))
unfolding flatten flatten_leaf flatten_node selected select decode_main_aggregate decode_main_loop
    decode_tlv main_header find_by_code_and_pid find add_eod_and_pad
file_run = refl

encode_tree-modem_example :
    (pad : ℕ) × (buffer : Bytes) × (encode_tree bare digests
        (modem_options (ascii "key"))
        modem_tree
      ≡ ok buffer)
    × (selected (with_cm_mic digests (flatten modem_tree))
        ≡ ok (covered_by (with_cm_mic digests (flatten modem_tree))))
    × (buffer ≡ with_both_mics digests (ascii "key") (flatten modem_tree) ++ 255 ∷ replicate pad 0)
    × (pad < 4)
    × (length buffer % 4 ≡ 0)
encode_tree-modem_example =
    encode_tree-modem bare digests (ascii "key") (leaf 3 (1 ∷ []))
      (cons (node 24 (cons (leaf 1 (0 ∷ 1 ∷ [])) nil)) nil)
      (left_by
        (decode_main_aggregate bare new (covered_by (with_cm_mic digests (flatten modem_tree)))))
      (left_by (
        decode_main_aggregate bare new
          (add_eod_and_pad (with_both_mics digests (ascii "key") (flatten modem_tree)))))
      (unfold starts_mta in refl) (rw flat (ground arith)) covered_run file_run

dialplan_body-dialplan_value_example :
    dialplan_body bare (dialplan_value digit_map) ≡ some digit_map
dialplan_body-dialplan_value_example = dialplan_body-dialplan_value bare digit_map (omega arith)

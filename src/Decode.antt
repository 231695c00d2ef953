-- ===== src/Decode.antt =====
-- src/decode.rs: a binary configuration file as text. A `Decoder` is the mutable part of the
-- source's; the MIB, the flags and the symbol table are the `Settings`. The position in a buffer is
-- the list of the bytes not read yet.
pub mod Leaf
pub mod Returns
pub mod Termination
use mathlib.Core.Option
use docsis_config_generator.Common.{
  ℕ, zero, suc, ◌+◌, ◌-◌, Bool, true, false, ◌&&◌, ◌||◌, not, Option, none, some, List, [], ◌∷◌,
  ◌++◌, ltb, leb, ◌==◌, if◌then◌else◌, length, take, drop, get_or, replicate, last?, min, be_value,
  Bytes, Run, ok, exit, panic, out_of_fuel, ◌>>=◌, ◌>>◌,
}
use docsis_config_generator.Text.{ascii, to_string, starts_with, bytes_eq, Ipv6Text}
use docsis_config_generator.Symbol.{Symbol, Render, find_by_code_and_pid}
use docsis_config_generator.Mib.{Mib}
use docsis_config_generator.Snmp.{decode_snmp_oid, decode_vbind, is_printable, hexadecimal}
use docsis_config_generator.Decode.Leaf

pub record Settings : Type 0 where
  pub symtable : List Symbol
  pub mib : Mib
  pub ipv6 : Ipv6Text
  pub nohash : Bool
  pub numeric_oids : Bool

-- `dialplan` is what the file `dialplan_output.txt` was last written with.
pub record Decoder : Type 0 where
  pub out : Bytes
  pub tabs : ℕ
  pub vspecific : Bool
  pub dialplan : Option Bytes

abbrev pub new : Decoder
new = record { out = []; tabs = 0; vspecific = false; dialplan = none }

abbrev pub write : Decoder → Bytes → Decoder
write d text = record d { out = d.out ++ text }

abbrev pub indent : Decoder → Decoder
indent d = write d (replicate d.tabs b'\t')

abbrev na_hash_prefix : Bytes
na_hash_prefix = 0x30 ∷ 0x26 ∷ 0x06 ∷ 0x0e ∷ []

abbrev eu_hash_prefix : Bytes
eu_hash_prefix = 0x30 ∷ 0x24 ∷ 0x06 ∷ 0x0c ∷ []

abbrev pub dialplan_oid : Bytes
dialplan_oid =
    0x06 ∷ 0x12 ∷ 0x2b ∷ 0x06 ∷ 0x01 ∷ 0x04 ∷ 0x01 ∷ 0xa3 ∷ 0x0b ∷ 0x02 ∷ 0x02 ∷ 0x08 ∷ 0x02 ∷ 0x01
    ∷ 0x01 ∷ 0x03 ∷ 0x01 ∷ 0x01 ∷ 0x02 ∷ []

-- `body.last() == Some(&0)`.
ends_in_nul : Bytes → Bool
ends_in_nul body = elim (last? body) [ some b ↦ b == 0 | none ↦ false ]

-- A TLV with no row in the symbol table, as a `GenericTLV` statement.
unfoldable pub unknown_text : Bytes → ℕ → Bytes
unfolding ends_in_nul
unknown_text tlv length_field =
    let len = min length_field 256 in
    let body = take len (drop 2 tlv) in
    let front = take (length body - 1) body in
    let head = ascii "GenericTLV TlvCode " ++ to_string (get_or tlv 0 0) in
    let comment = ascii "\"; /* tlv length = " ++ (to_string len ++ ascii " */") in
    (if is_printable body && ltb 1 len
      then head ++ (ascii " TlvString \"" ++ (body ++ comment))
      else if ltb 1 len && ends_in_nul body && is_printable front
      then head ++ (ascii " TlvStringZero \"" ++ (front ++ comment))
      else head
        ++ (ascii " TlvLength "
            ++ (to_string len ++ (ascii " TlvValue " ++ (hexadecimal body ++ ascii ";")))))
    ++ ascii "\n"

-- A vendor identifier other than FF FF FF.
vendor_block : Symbol → Bytes → Bool
vendor_block sym v =
    starts_with sym.ident (ascii "VendorIdentifier")
    && leb 3 (length v)
    && not (get_or v 0 0 == 0xff && get_or v 1 0 == 0xff && get_or v 2 0 == 0xff)

unfoldable pub decode_hexstr : Decoder → Symbol → Bytes → Decoder
unfolding vendor_block
decode_hexstr d sym v =
    let d' = write d (Leaf.decode_hexstr sym v) in
    if vendor_block sym v then record d' { vspecific = true } else d'

-- `self.out` gets the text, unless the run ends.
abbrev pub write_run : Decoder → Run Bytes → Run Decoder
write_run d text = do t ← text; ok (write d t)

module _ (s : Settings) where
  unfoldable pub decode_oid : Symbol → Bytes → Bytes
  decode_oid sym v = Leaf.line sym (decode_snmp_oid s.mib v)

  unfoldable pub decode_snmp_wd : Symbol → Bytes → Bytes
  decode_snmp_wd sym [] = []
  decode_snmp_wd sym (b ∷ v) =
      let n = length v in
      Leaf.line sym
        (decode_snmp_oid s.mib (take n (b ∷ v)) ++ b' ' ∷ to_string (get_or (b ∷ v) n 0))

  -- Where the dial plan's body starts, if the value holds one.
  unfoldable pub dialplan_body : Bytes → Option Bytes
  dialplan_body v =
      let short_form = leb 24 (length v) && bytes_eq (take 19 (drop 2 v)) dialplan_oid in
      let long_form = leb 26 (length v) && bytes_eq (take 19 (drop 4 v)) dialplan_oid in
      if short_form
      then some (drop 24 v)
      else if long_form
      then some (if bytes_eq (take 2 (drop 24 v)) (0x04 ∷ 0x82 ∷ []) then drop 28 v else drop 26 v)
      else none

  unfoldable pub plain_object : Decoder → Symbol → Bytes → Decoder
  plain_object d sym v = elim (dialplan_body v) [
    | some body ↦ record d {
      out = d.out ++ ascii "DigitMap \"dialplan_output.txt\"; /* file created. */\n";
      dialplan = some body;
    }
    | none ↦ write d (sym.ident ++ b' ' ∷ (decode_vbind s.mib v s.numeric_oids ++ ascii "\n"))
  ]

  unfoldable pub decode_snmp_object : Decoder → Symbol → Bytes → Decoder
  decode_snmp_object d sym v =
      if s.nohash && (starts_with v na_hash_prefix || starts_with v eu_hash_prefix)
      then write d (
          ascii "/* "
          ++ (sym.ident ++ b' ' ∷ (decode_vbind s.mib v s.numeric_oids ++ ascii " */\n")))
      else plain_object d sym v

  -- The decoders of settings that hold no others; `none` is an aggregate.
  unfoldable pub leaf : Render → Decoder → Symbol → Bytes → Option (Run Decoder)
  leaf Render.aggregate d sym v = none
  leaf Render.special d sym v = some (ok (write d (sym.ident ++ ascii "\n")))
  leaf Render.uint d sym v = some (write_run d (Leaf.decode_uint sym v))
  leaf Render.uint24 d sym v = some (write_run d (Leaf.decode_uint24 sym v))
  leaf Render.ushort d sym v = some (write_run d (Leaf.decode_ushort sym v))
  leaf Render.uchar d sym v = some (ok (write d (Leaf.decode_uchar sym v)))
  leaf Render.ip d sym v = some (write_run d (Leaf.decode_ip sym v))
  leaf Render.ip_list d sym v = some (ok (write d (Leaf.decode_ip_list sym v)))
  leaf Render.ip6 d sym v = some (write_run d (Leaf.decode_ip6 s.ipv6 sym v))
  leaf Render.ip6_list d sym v = some (ok (write d (Leaf.decode_ip6_list s.ipv6 sym v)))
  leaf Render.ip6_prefix_list d sym v =
      some (ok (write d (Leaf.decode_ip6_prefix_list s.ipv6 sym v)))
  leaf Render.ip_ip6 d sym v = some (ok (write d (Leaf.decode_ip_ip6 s.ipv6 sym v)))
  leaf Render.char_ip_ip6 d sym v = some (ok (write d (Leaf.decode_char_ip_ip6 s.ipv6 sym v)))
  leaf Render.ip_ip6_port d sym v = some (ok (write d (Leaf.decode_ip_ip6_port s.ipv6 sym v)))
  leaf Render.lenzero d sym v = some (ok (write d (Leaf.line sym (ascii "0x00"))))
  leaf Render.ether d sym v = some (write_run d (Leaf.decode_ether sym v))
  leaf Render.dual_qtag d sym v = some (write_run d (Leaf.decode_dual_qtag sym v))
  leaf Render.char_list d sym v = some (ok (write d (Leaf.decode_char_list sym v)))
  leaf Render.ethermask d sym v = some (write_run d (Leaf.decode_ethermask sym v))
  leaf Render.md5 d sym v = some (write_run d (Leaf.decode_md5 sym v))
  leaf Render.oid d sym v = some (ok (write d (decode_oid sym v)))
  leaf Render.snmp_object d sym v = some (ok (decode_snmp_object d sym v))
  leaf Render.snmp_wd d sym v = some (ok (write d (decode_snmp_wd sym v)))
  leaf Render.string d sym v = some (ok (write d (Leaf.write_quoted sym v)))
  leaf Render.strzero d sym v = some (ok (write d (Leaf.write_quoted sym v)))
  leaf Render.hexstr d sym v = some (ok (decode_hexstr d sym v))
  leaf Render.ushort_list d sym v = some (ok (write d (Leaf.decode_ushort_list sym v)))

  -- `decode_aggregate` around the loop over its settings.
  unfoldable pub decode_aggregate :
      (Decoder → ℕ → Bytes → Run Decoder) → Decoder → Symbol → Bytes → Run Decoder
  decode_aggregate settings d sym v = do
    let opened = write (indent (write d (sym.ident ++ ascii "\n"))) (ascii "{\n")
    d' ← settings (record opened { tabs = d.tabs + 1 }) sym.id v
    let closed = indent (record d' { tabs = d'.tabs - 1 })
    ok (write (record closed { vspecific = false }) (ascii "}\n"))

  unfoldable pub dispatch :
      (Decoder → ℕ → Bytes → Run Decoder) → Decoder → Symbol → Bytes → Run Decoder
  dispatch settings d sym v = elim (leaf sym.dec d sym v) [
    | some run ↦ run
    | none ↦ decode_aggregate settings d sym v
  ]

  -- One setting: by the row found for it, or as unknown.
  unfoldable pub decode_tlv :
      (Decoder → ℕ → Bytes → Run Decoder) → Decoder → Option Symbol → Bytes → ℕ → ℕ → Run Decoder
  decode_tlv settings d (some sym) buf header vlen =
      dispatch settings d sym (take vlen (drop header buf))
  decode_tlv settings d none buf header vlen = ok (write d (unknown_text buf vlen))

  unfoldable pub child : Decoder → ℕ → ℕ → Option Symbol
  child d code pid = if d.vspecific then none else find_by_code_and_pid s.symtable code pid

  -- The loop of `decode_aggregate`; each round takes a byte at least.
  unfoldable pub decode_settings : ℕ → Decoder → ℕ → Bytes → Run Decoder
  decode_settings fuel d pid [] = ok d
  decode_settings zero d pid (code ∷ rest) = out_of_fuel
  decode_settings (suc fuel) d pid (code ∷ rest) =
      let buf = code ∷ rest in
      let vlen = get_or buf 1 0 in
      do
        d' ← decode_tlv (decode_settings fuel) (indent d) (child d code pid) buf 2 vlen
        decode_settings fuel d' pid (drop vlen (drop 2 buf))

  -- Row, header length and value length of a top-level setting.
  unfoldable pub main_header : Bool → ℕ → Bytes → Option Symbol × ℕ × ℕ
  main_header is_mta code buf =
      if is_mta && code == 64
      then (
        find_by_code_and_pid s.symtable 11 0,
        3,
        be_value 0 (get_or buf 1 0 ∷ get_or buf 2 0 ∷ []),
      )
      else (find_by_code_and_pid s.symtable code 0, 2, get_or buf 1 0)

  -- The loop of `decode_main_aggregate`.
  unfoldable pub decode_main_loop : ℕ → Decoder → Bool → Bytes → Run Decoder
  decode_main_loop fuel d is_mta [] = ok d
  decode_main_loop zero d is_mta (code ∷ rest) = out_of_fuel
  decode_main_loop (suc fuel) d is_mta (code ∷ rest) =
      let buf = code ∷ rest in
      let mta = is_mta || code == 254 in
      let (sym, header, vlen) = main_header mta code buf in
      do
        d' ← decode_tlv (decode_settings (length buf)) (indent d) sym buf header vlen
        decode_main_loop fuel d' mta (drop vlen (drop header buf))

  -- The whole file. As many rounds as there are bytes are enough.
  unfoldable pub decode_main_aggregate : Decoder → Bytes → Run Decoder
  decode_main_aggregate d buf = do
    let opened = write (record d { tabs = 0 }) (ascii "Main \n{\n")
    d' ← decode_main_loop (length buf) (record opened { tabs = 1 }) false buf
    ok (write (record d' { tabs = d'.tabs - 1 }) (ascii "}\n"))

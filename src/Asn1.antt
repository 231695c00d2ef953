-- ===== src/Asn1.antt =====
-- src/asn1.rs: the BER encoder and decoder for SNMP variable bindings. A builder that appends to
-- `out` is the function that gives the bytes appended. On a byte `b`, `b & 0x80 == 0` is `b < 128`
-- and `b & 0x7F` is `b % 128`.
pub mod Header
pub mod Number
pub mod Subid
pub mod ObjectId
pub mod VarOp
use mathlib.Core.Option
use mathlib.Core.List.{reverse}
use docsis_config_generator.Common.{
  ℕ, zero, suc, ◌+◌, ◌-◌, ◌*◌, ◌/◌, ◌%◌, ◌^◌, Bool, true, false, ◌&&◌, ◌||◌, Option, none, some,
  List, [], ◌∷◌, ◌++◌, map, ltb, leb, ◌==◌, if◌then◌else◌, length, take, drop, Bytes, ℤ, wrap,
  signed64, be_bytes, shift_in, be_value,
}

abbrev pub asn_integer : ℕ
asn_integer = 0x02

abbrev pub asn_octet_str : ℕ
asn_octet_str = 0x04

abbrev pub asn_object_id : ℕ
asn_object_id = 0x06

abbrev pub asn_sequence : ℕ
asn_sequence = 0x30

abbrev pub asn_ipaddress : ℕ
asn_ipaddress = 0x40

abbrev pub asn_counter : ℕ
asn_counter = 0x41

abbrev pub asn_gauge : ℕ
asn_gauge = 0x42

abbrev pub asn_timeticks : ℕ
asn_timeticks = 0x43

unfoldable pub build_length : ℕ → Bytes
build_length len =
    if ltb len 0x80
    then (len % 256) ∷ []
    else if leb len 0xff
    then 0x81 ∷ (len % 256) ∷ []
    else 0x82 ∷ (len / 256 % 256) ∷ (len % 256) ∷ []

unfoldable pub build_header : ℕ → ℕ → Bytes
unfolding build_length
build_header tag len = tag ∷ build_length len

-- The loop that drops leading octets which only repeat the sign bit.
pub strip_sign : Bytes → Bytes
strip_sign (lead ∷ next ∷ rest) =
    let shorter = strip_sign (next ∷ rest) in
    if (lead == 0 && ltb next 0x80) || (lead == 0xff && leb 0x80 next)
    then shorter
    else lead ∷ next ∷ rest
strip_sign (b ∷ []) = b ∷ []
strip_sign [] = []

-- The loop that drops leading zero octets.
pub strip_zeros : Bytes → Bytes
strip_zeros (lead ∷ next ∷ rest) =
    let shorter = strip_zeros (next ∷ rest) in if lead == 0 then shorter else lead ∷ next ∷ rest
strip_zeros (b ∷ []) = b ∷ []
strip_zeros [] = []

-- The content octets of `build_int`, and of `build_unsigned_int`.
unfoldable pub int_content : ℤ → Bytes
unfolding strip_sign
int_content value = strip_sign (be_bytes 8 (wrap (2 ^ 64) value))

pad_sign : Bytes → Bytes
pad_sign [] = []
pad_sign (b ∷ bs) = if leb 0x80 b then 0 ∷ b ∷ bs else b ∷ bs

unfoldable pub unsigned_content : ℕ → Bytes
unfolding strip_zeros pad_sign
unsigned_content value = pad_sign (strip_zeros (be_bytes 8 value))

unfoldable pub build_string : ℕ → Bytes → Bytes
unfolding build_header
build_string tag value = build_header tag (length value) ++ value

unfoldable pub build_int : ℕ → ℤ → Bytes
unfolding int_content build_header
build_int tag value = let bytes = int_content value in build_header tag (length bytes) ++ bytes

unfoldable pub build_unsigned_int : ℕ → ℕ → Bytes
unfolding unsigned_content build_header
build_unsigned_int tag value =
    let bytes = unsigned_content value in build_header tag (length bytes) ++ bytes

-- The stack that `encode_subid` fills, lowest group of seven bits first; it has room for five.
pub subid_stack : ℕ → ℕ → Bytes
subid_stack zero v = []
subid_stack (suc room) v =
    let more = subid_stack room (v / 128) in (v % 128) ∷ (if v / 128 == 0 then [] else more)

-- The stack is written out from its top; every octet but the last one has the high bit set.
emit_subid : Bytes → Bytes
emit_subid [] = []
emit_subid (low ∷ more) = map (λ g. g + 0x80) (reverse more) ++ low ∷ []

unfoldable pub encode_subid : ℕ → Bytes
unfolding subid_stack emit_subid
encode_subid v = emit_subid (subid_stack 5 v)

-- The first two arcs share a sub-identifier. The release build's `u32` arithmetic wraps.
pub pack_arcs : List ℕ → List ℕ
pack_arcs [] = 0 ∷ []
pack_arcs (a ∷ []) = (a * 40 % 2 ^ 32) ∷ []
pack_arcs (a ∷ b ∷ rest) = ((a * 40 + b) % 2 ^ 32) ∷ rest

pub encode_subids : List ℕ → Bytes
unfolding encode_subid
encode_subids [] = []
encode_subids (v ∷ vs) = encode_subid v ++ encode_subids vs

first_arc_ok : List ℕ → Bool
first_arc_ok [] = true
first_arc_ok (a ∷ rest) = leb a 2

-- `none` where the source returns `false` and appends nothing.
unfoldable pub build_objid : ℕ → List ℕ → Option Bytes
unfolding first_arc_ok pack_arcs encode_subids build_header
build_objid tag oid =
    let body = encode_subids (pack_arcs oid) in
    if first_arc_ok oid then some (build_header tag (length body) ++ body) else none

pub record Tlv : Type 0 where
  pub tag : ℕ
  pub value : Bytes
  pub header_len : ℕ

-- The value of `len` octets behind a header, unless the data ends before.
abbrev delimit : Bytes → ℕ → ℕ → ℕ → Option Tlv
delimit whole tag len header_len =
    if ltb (length whole) (header_len + len)
    then none
    else some
        (record { tag = tag; value = take len (drop header_len whole); header_len = header_len })

unfoldable pub parse_tlv : Bytes → Option Tlv
parse_tlv (tag ∷ first ∷ rest) =
    let whole = tag ∷ first ∷ rest in
    let count = first % 128 in
    if ltb first 0x80
    then delimit whole tag first 2
    else if count == 0 || ltb 4 count || ltb (length whole) (2 + count)
    then none
    else delimit whole tag (be_value 0 (take count rest)) (2 + count)
parse_tlv (tag ∷ []) = none
parse_tlv [] = none

unfoldable pub parse_int : Bytes → ℤ
parse_int [] = signed64 0
parse_int (b ∷ bs) = signed64 (be_value (if leb 0x80 b then 2 ^ 64 - 1 else 0) (b ∷ bs))

unfoldable pub parse_unsigned : Bytes → ℕ
parse_unsigned value = be_value 0 value

-- net-snmp splits values below 40 as 0.x, else 1.x or 2.x.
unfoldable pub unpack_arc : Bool → ℕ → List ℕ
unpack_arc true v =
    if ltb v 40 then 0 ∷ v ∷ [] else if ltb v 80 then 1 ∷ (v - 40) ∷ [] else 2 ∷ (v - 80) ∷ []
unpack_arc false v = v ∷ []

-- The two nested loops of `parse_objid_body` as one pass over the octets: `inside` says that the
-- inner loop is under way, with `v` so far. Running out of input there is the `return None`, and so
-- is an overflow of the checked `u32` arithmetic.
unfoldable pub objid_loop : Bool → Bool → ℕ → Bytes → Option (List ℕ)
unfolding unpack_arc
objid_loop first inside v [] = if inside then none else some []
objid_loop first inside v (b ∷ rest) =
    let next = v * 128 + b % 128 in
    let done = Option.map (λ arcs. unpack_arc first next ++ arcs) (objid_loop false false 0 rest) in
    let more = objid_loop first true next rest in
    if leb (2 ^ 32) next then none else if ltb b 0x80 then done else more

unfoldable pub parse_objid_body : Bytes → Option (List ℕ)
unfolding objid_loop
parse_objid_body value = objid_loop true false 0 value

unfoldable pub parse_objid_tlv : Tlv → Option (List ℕ)
unfolding parse_objid_body
parse_objid_tlv tlv = if tlv.tag == asn_object_id then parse_objid_body tlv.value else none

unfoldable pub parse_objid : Bytes → Option (List ℕ)
unfolding parse_tlv parse_objid_tlv
parse_objid bytes = Option.bind (parse_tlv bytes) parse_objid_tlv

pub record VarBind : Type 0 where
  pub name : List ℕ
  pub val_type : ℕ
  pub val : Bytes

-- What `parse_var_op` does with the value of the SEQUENCE.
unfoldable pub parse_binding : Bytes → Option VarBind
unfolding parse_tlv parse_objid_tlv
parse_binding body = Option.bind (parse_tlv body) λ name_tlv.
    Option.bind (parse_objid_tlv name_tlv) λ name.
      Option.bind (parse_tlv (drop (name_tlv.header_len + length name_tlv.value) body))
        λ val_tlv. some (record { name = name; val_type = val_tlv.tag; val = val_tlv.value })

unfoldable pub parse_var_op : Bytes → Option VarBind
unfolding parse_tlv parse_binding
parse_var_op bytes =
    Option.bind (parse_tlv bytes)
      λ seq. if seq.tag == asn_sequence then parse_binding seq.value else none

-- `build_var_op` ignores a `build_objid` that fails.
objid_or_nothing : List ℕ → Bytes
unfolding build_objid
objid_or_nothing oid = Option.get_or (build_objid asn_object_id oid) []

unfoldable pub build_var_op : List ℕ → Bytes → Bool → Bytes
unfolding objid_or_nothing
build_var_op oid val_tlv short_header =
    let inner = objid_or_nothing oid ++ val_tlv in
    let len = length inner in
    (if short_header
      then asn_sequence ∷ (len % 256) ∷ []
      else asn_sequence ∷ 0x82 ∷ (len / 256 % 256) ∷ (len % 256) ∷ [])
    ++ inner

-- ===== src/Decode/Leaf.antt =====
-- src/decode.rs: the text of one setting that holds no others. A decoder that writes to `self.out`
-- is the function that gives the text written; `exit` and an index out of range end the run.
use docsis_config_generator.Common.{
  ℕ, ◌*◌, ◌^◌, ◌%◌, ◌||◌, List, [], ◌∷◌, ◌++◌, map, ltb, ◌==◌, if◌then◌else◌, length, take, drop,
  get_or, be_value, Bytes, Run, ok, exit, panic,
}
use docsis_config_generator.Text.{ascii, to_string, hex_byte, join, Ipv6Text}
use docsis_config_generator.Ethermac.{ether_ntoa}
use docsis_config_generator.Symbol.{Symbol}
use docsis_config_generator.Snmp.{hexadecimal}

-- `writeln!(out, "{} {};", sym.ident, text)`.
abbrev pub line : Symbol → Bytes → Bytes
line sym text = sym.ident ++ b' ' ∷ (text ++ ascii ";\n")

-- `if v.len() != n { exit(211) }`.
abbrev pub need_len : ℕ → Bytes → Run Bytes → Run Bytes
need_len n v run = if length v == n then run else exit 211

unfoldable pub decode_uint : Symbol → Bytes → Run Bytes
decode_uint sym v = need_len 4 v (ok (line sym (to_string (be_value 0 v))))

-- `v[0]`, `v[1]` and `v[2]` are read whatever the length.
unfoldable pub decode_uint24 : Symbol → Bytes → Run Bytes
decode_uint24 sym v =
    if ltb (length v) 3 then panic else ok (line sym (to_string (be_value 0 (take 3 v))))

unfoldable pub decode_ushort : Symbol → Bytes → Run Bytes
decode_ushort sym v = need_len 2 v (ok (line sym (to_string (be_value 0 v))))

unfoldable pub decode_uchar : Symbol → Bytes → Bytes
decode_uchar sym v = line sym (to_string (get_or v 0 0))

-- `Ipv4Addr`'s print of the first four bytes.
unfoldable pub ipv4 : Bytes → Bytes
ipv4 v = join b'.' (map to_string (take 4 v))

unfoldable pub decode_ip : Symbol → Bytes → Run Bytes
decode_ip sym v = need_len 4 v (ok (line sym (ipv4 v)))

-- `v.chunks_exact(n)`, over at most `fuel` chunks.
unfoldable pub chunks_exact : ℕ → ℕ → Bytes → List Bytes
chunks_exact n ℕ.zero v = []
chunks_exact n (ℕ.suc fuel) v =
    let more = chunks_exact n fuel (drop n v) in if ltb (length v) n then [] else take n v ∷ more

-- The chunks of a value, each printed, with commas between.
unfoldable pub chunk_list : ℕ → (Bytes → Bytes) → Bytes → Bytes
chunk_list n print v = join b',' (map print (chunks_exact n (length v) v))

unfoldable pub decode_ip_list : Symbol → Bytes → Bytes
decode_ip_list sym v = line sym (chunk_list 4 ipv4 v)

unfoldable pub decode_ether : Symbol → Bytes → Run Bytes
decode_ether sym v = need_len 6 v (ok (line sym (ether_ntoa v)))

unfoldable pub decode_dual_qtag : Symbol → Bytes → Run Bytes
decode_dual_qtag sym v =
    need_len 4 v (
      ok (line sym (to_string (be_value 0 (take 2 v)) ++ b',' ∷ to_string (be_value 0 (drop 2 v)))))

unfoldable pub decode_char_list : Symbol → Bytes → Bytes
decode_char_list sym v = line sym (join b',' (map to_string v))

unfoldable pub decode_ethermask : Symbol → Bytes → Run Bytes
decode_ethermask sym v =
    need_len 12 v (ok (line sym (ether_ntoa (take 6 v) ++ b'/' ∷ ether_ntoa (drop 6 v))))

hex_bytes : Bytes → Bytes
hex_bytes [] = []
hex_bytes (b ∷ v) = hex_byte b ++ hex_bytes v

unfoldable pub decode_md5 : Symbol → Bytes → Run Bytes
unfolding hex_bytes
decode_md5 sym v =
    need_len 16 v (ok (ascii "/* " ++ (sym.ident ++ b' ' ∷ (hex_bytes v ++ ascii "; */\n"))))

-- The bytes up to the first NUL.
unfoldable pub until_nul : Bytes → Bytes
until_nul [] = []
until_nul (b ∷ v) = if b == 0 then [] else b ∷ until_nul v

unfoldable pub write_quoted : Symbol → Bytes → Bytes
write_quoted sym v = sym.ident ++ b' ' ∷ (b'"' ∷ (until_nul v ++ ascii "\";\n"))

unfoldable pub decode_hexstr : Symbol → Bytes → Bytes
decode_hexstr sym v = line sym (hexadecimal v)

unfoldable pub decode_ushort_list : Symbol → Bytes → Bytes
decode_ushort_list sym v =
    let len = length v % 2 ^ 32 in
    sym.ident
    ++ b' '
      ∷ ((if ltb len (2 * sym.low % 2 ^ 32) || ltb (2 * sym.high % 2 ^ 32) len
            then ascii "/* -- warning: illegal length of buffer --*/"
            else [])
          ++ (chunk_list 2 (λ c. to_string (be_value 0 c)) v ++ ascii ";\n"))

module _ (ipv6_text : Ipv6Text) where
  -- `Ipv6Addr`'s print of sixteen bytes.
  unfoldable pub ipv6 : Bytes → Bytes
  ipv6 v = ipv6_text.print (take 16 v)

  unfoldable pub decode_ip6 : Symbol → Bytes → Run Bytes
  decode_ip6 sym v = need_len 16 v (ok (line sym (ipv6 v)))

  unfoldable pub decode_ip6_list : Symbol → Bytes → Bytes
  decode_ip6_list sym v = line sym (chunk_list 16 ipv6 v)

  unfoldable pub decode_ip6_prefix_list : Symbol → Bytes → Bytes
  decode_ip6_prefix_list sym v =
      line sym (chunk_list 17 (λ c. ipv6 (take 16 c) ++ b'/' ∷ to_string (get_or c 16 0)) v)

  -- Any other length writes nothing.
  unfoldable pub decode_ip_ip6 : Symbol → Bytes → Bytes
  decode_ip_ip6 sym v =
      if length v == 4 then line sym (ipv4 v) else if length v == 16 then line sym (ipv6 v) else []

  unfoldable pub decode_char_ip_ip6 : Symbol → Bytes → Bytes
  decode_char_ip_ip6 sym v =
      if length v == 5
      then line sym (ipv4 (drop 1 v))
      else if length v == 17
      then line sym (ipv6 (drop 1 v))
      else []

  unfoldable pub decode_ip_ip6_port : Symbol → Bytes → Bytes
  decode_ip_ip6_port sym v =
      if length v == 6
      then line sym (ipv4 (take 4 v) ++ b'/' ∷ to_string (be_value 0 (drop 4 v)))
      else if length v == 18
      then line sym (ipv6 (take 16 v) ++ b'/' ∷ to_string (be_value 0 (drop 16 v)))
      else []

-- ===== src/Encode.antt =====
-- src/encode.rs: the value bytes of a setting, by the encoding of its symbol. `encode_snmp_oid` is
-- the call of src/snmp.rs.
pub mod Scalar
pub mod Address
pub mod Outcome
pub mod Width
pub mod Exits
use mathlib.Core.Option
use docsis_config_generator.Common.{
  ℕ, suc, ◌%◌, ◌^◌, Bool, true, false, ◌&&◌, ◌||◌, Option, none, some, List, [], ◌∷◌, ◌++◌, map,
  ltb, leb, ◌==◌, if◌then◌else◌, length, Bytes, ℤ, pos, wrap, be_bytes, Run, ok, exit, ◌>>=◌, ◌>>◌,
  or_exit,
}
use docsis_config_generator.Text.{
  ascii, from_str_radix, parse_i64, u8_max, u16_max, u32_max, u64_max, split, split_on, split_once,
  nonempty, trim, strip_prefix, Ipv6Text,
}
use docsis_config_generator.Ethermac.{ether_aton}
use docsis_config_generator.Values.{Value, as_num, as_text, as_bytes}
use docsis_config_generator.Symbol.{Enc, Symbol}
use docsis_config_generator.Encode.Scalar.{
  encode_uint, encode_uint24, encode_ushort, encode_uchar, encode_dual_qtag, encode_char_list,
  encode_string, encode_strzero, encode_hexstr, encode_ushort_list,
}
use docsis_config_generator.Encode.Address.{
  encode_ip, encode_ip_list, encode_ether, encode_ethermask, encode_ip6, encode_ip6_list,
  encode_ip6_prefix_list, encode_ip_ip6, encode_char_ip_ip6, encode_ip_ip6_port,
}

module _ (ipv6 : Ipv6Text) (encode_snmp_oid : Bytes → Option Bytes) where
  unfoldable pub encode_oid : Value → Run Bytes
  encode_oid value = ok (Option.get_or (encode_snmp_oid (as_text value)) [])

  unfoldable pub encode_as : Enc → Symbol → Value → Run Bytes
  encode_as Enc.uint sym value = encode_uint sym value
  encode_as Enc.uint24 sym value = encode_uint24 value
  encode_as Enc.ushort sym value = encode_ushort sym value
  encode_as Enc.uchar sym value = encode_uchar sym value
  encode_as Enc.ip sym value = encode_ip value
  encode_as Enc.ip_list sym value = encode_ip_list value
  encode_as Enc.ip6 sym value = encode_ip6 ipv6 value
  encode_as Enc.ip6_list sym value = encode_ip6_list ipv6 value
  encode_as Enc.ip6_prefix_list sym value = encode_ip6_prefix_list ipv6 value
  encode_as Enc.ip_ip6 sym value = encode_ip_ip6 ipv6 value
  encode_as Enc.char_ip_ip6 sym value = encode_char_ip_ip6 ipv6 value
  encode_as Enc.ip_ip6_port sym value = encode_ip_ip6_port ipv6 value
  encode_as Enc.lenzero sym value = ok []
  encode_as Enc.ether sym value = encode_ether value
  encode_as Enc.dual_qtag sym value = encode_dual_qtag value
  encode_as Enc.char_list sym value = encode_char_list value
  encode_as Enc.ethermask sym value = encode_ethermask value
  encode_as Enc.string sym value = encode_string sym value
  encode_as Enc.strzero sym value = encode_strzero sym value
  encode_as Enc.hexstr sym value = encode_hexstr sym value
  encode_as Enc.oid sym value = encode_oid value
  encode_as Enc.ushort_list sym value = encode_ushort_list sym value
  encode_as Enc.nothing sym value = ok []

  unfoldable pub encode : Symbol → Value → Run Bytes
  unfolding encode_as
  encode sym value = encode_as sym.enc sym value

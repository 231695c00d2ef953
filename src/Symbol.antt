-- ===== src/Symbol.antt =====
-- src/symbol.rs: the rows of the symbol table and the two ways to look one up. The table itself
-- (src/symtable.rs) is an argument of the functions that search it.
use docsis_config_generator.Common.{
  ℕ, Bool, ◌&&◌, Option, none, some, List, [], ◌∷◌, ◌==◌, if◌then◌else◌, Bytes,
}
use docsis_config_generator.Text.{bytes_eq}

-- How the value of a setting is turned into TLV value bytes.
pub data Enc : Type 0 where
  char_ip_ip6 char_list dual_qtag ether ethermask hexstr ip ip6 ip6_list ip6_prefix_list : Enc
  ip_ip6 ip_ip6_port ip_list lenzero nothing oid string strzero uchar uint uint24 ushort : Enc
  ushort_list : Enc

-- How TLV value bytes are rendered as text.
pub data Render : Type 0 where
  aggregate char_ip_ip6 char_list dual_qtag ether ethermask hexstr ip ip6 ip6_list : Render
  ip6_prefix_list ip_ip6 ip_ip6_port ip_list lenzero md5 oid snmp_object snmp_wd special : Render
  string strzero uchar uint uint24 ushort ushort_list : Render

pub record Symbol : Type 0 where
  pub id : ℕ
  pub ident : Bytes
  pub code : ℕ
  pub parent_id : ℕ
  pub enc : Enc
  pub dec : Render
  pub low : ℕ
  pub high : ℕ

unfoldable pub find : (Symbol → Bool) → List Symbol → Option Symbol
find test [] = none
find test (s ∷ table) = if test s then some s else find test table

-- The first row with the keyword.
unfoldable pub find_by_name : List Symbol → Bytes → Option Symbol
find_by_name symtable name = find (λ s. bytes_eq s.ident name) symtable

-- The first row with the code under the parent.
unfoldable pub find_by_code_and_pid : List Symbol → ℕ → ℕ → Option Symbol
find_by_code_and_pid symtable code pid = find (λ s. s.code == code && s.parent_id == pid) symtable

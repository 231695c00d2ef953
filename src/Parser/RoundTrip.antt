-- ===== src/Parser/RoundTrip.antt =====
-- src/parser.rs: the tokens of a tree that is written as `GenericTLV` statements are parsed as it.
use docsis_config_generator.Common
use docsis_config_generator.Common.{
  ℕ, zero, suc, ◌+◌, ◌≤◌, ◌≡◌, refl, ap, sym, ◌∙◌, Bool, true, List, [], ◌∷◌, ◌++◌, append_assoc,
  length-append, All, IsByte, Bytes, ltb, ◌==◌, if◌then◌else◌, length, pos, Run, ok, or_exit, arith,
}
use docsis_config_generator.Text.{Ipv6Text}
use docsis_config_generator.Symbol.{Symbol}
use docsis_config_generator.Mib.{Mib}
use docsis_config_generator.Snmp.{hexadecimal}
use docsis_config_generator.Lexer.{Tok}
use docsis_config_generator.Assemble.Tree.{Tlvs, leaf, node, nil, cons}
use docsis_config_generator.RoundTrip.Strings.{parse_hexstr-hexadecimal}
use docsis_config_generator.Parser
use docsis_config_generator.Parser.Reading

-- A tree whose codes and values are bytes.
abbrev pub IsTree : Tlvs → Type 0
IsTree nil = Unit {0}
IsTree (cons (leaf code v) ts) = IsByte code × All IsByte v × IsTree ts
IsTree (cons (node code kids) ts) = IsByte code × IsTree kids × IsTree ts

-- The tokens of a tree's statements, with the row of `GenericTLV` in them: `TlvString ""` for a value
-- without bytes, and `TlvLength … TlvValue 0x…` for any other.
abbrev pub statements : Symbol → Tlvs → List Tok
statements row nil = []
statements row (cons (leaf code []) ts) =
    Tok.ident_generic row
    ∷ Tok.tlv_code
    ∷ Tok.integer (pos code)
    ∷ Tok.tlv_string
    ∷ Tok.str []
    ∷ Tok.semi
    ∷ statements row ts
statements row (cons (leaf code (b ∷ v)) ts) =
    Tok.ident_generic row
    ∷ Tok.tlv_code
    ∷ Tok.integer (pos code)
    ∷ Tok.tlv_length
    ∷ Tok.integer (pos (length (b ∷ v)))
    ∷ Tok.tlv_value
    ∷ Tok.hex_string (hexadecimal (b ∷ v))
    ∷ Tok.semi
    ∷ statements row ts
statements row (cons (node code kids) ts) =
    Tok.ident_generic row
    ∷ Tok.tlv_code
    ∷ Tok.integer (pos code)
    ∷ Tok.l_brace
    ∷ (statements row kids ++ Tok.r_brace ∷ statements row ts)

-- The tokens of a whole source.
abbrev pub tree_tokens : Symbol → Tlvs → List Tok
tree_tokens row ts = Tok.main ∷ Tok.l_brace ∷ (statements row ts ++ Tok.r_brace ∷ [])

module _ (symtable : List Symbol) (mib : Mib) (ipv6 : Ipv6Text)
    (files : Bytes → Common.Option Bytes) where
  to_u8-byte : (code : ℕ) → IsByte code → Parser.to_u8 (pos code) ≡ code
  to_u8-byte code h = omega arith

  counted_bytes-hexadecimal :
      (v : Bytes)
      → All IsByte v
      → Parser.counted_bytes symtable mib ipv6 files (pos (length v)) (hexadecimal v) ≡ ok v
  unfolding Parser.counted_bytes Parser.is_length
  counted_bytes-hexadecimal v h = rw (parse_hexstr-hexadecimal v h, same (length v)) refl
    where
      same : (n : ℕ) → (n == n) ≡ true
      same n = ground arith

  list-statements :
      (row : Symbol) (fuel : ℕ) (ts : Tlvs) (rest : List Tok)
      → length (statements row ts) ≤ fuel
      → IsTree ts
      → Parser.assignment_list symtable mib ipv6 files fuel
          (statements row ts ++ Tok.r_brace ∷ rest)
        ≡ ok (ts, Tok.r_brace ∷ rest)
  unfolding Parser.assignment_list Parser.statement Parser.statement_of Parser.generic_statement
      Parser.generic_body Parser.generic_of Reading.expect Reading.at_end Reading.at_l_brace
      Reading.expect_integer Reading.expect_semi Reading.expect_l_brace Reading.expect_r_brace
      Reading.as_integer Reading.as_semi Reading.as_l_brace Reading.as_r_brace Reading.as_tlv_code
      Reading.as_tlv_value Reading.as_hex_string Reading.expect_string Reading.as_string
  list-statements row zero nil rest le h = refl
  list-statements row (suc fuel) nil rest le h = refl
  list-statements row zero (cons (leaf code []) ts) rest le h = absurd (omega arith)
  list-statements row zero (cons (leaf code (b ∷ v)) ts) rest le h = absurd (omega arith)
  list-statements row zero (cons (node code kids) ts) rest le h = absurd (omega arith)
  list-statements row (suc fuel) (cons (leaf code []) ts) rest le (byte, bytes, others) =
      rw (list-statements row fuel ts rest (omega (arith, le)) others, to_u8-byte code byte) refl
  list-statements row (suc fuel) (cons (leaf code (b ∷ v)) ts) rest le (byte, bytes, others) =
      rw
        (
          counted_bytes-hexadecimal (b ∷ v) bytes,
          list-statements row fuel ts rest (omega (arith, le)) others,
          to_u8-byte code byte,
        )
        refl
  list-statements row (suc fuel) (cons (node code kids) ts) rest le (byte, inner, others) =
      let behind = statements row ts ++ Tok.r_brace ∷ rest in
      let fits = length-append (statements row kids) (Tok.r_brace ∷ statements row ts) in
      rw
        (
          append_assoc (statements row kids) (Tok.r_brace ∷ statements row ts) (Tok.r_brace ∷ rest),
          list-statements row fuel kids behind (omega (arith, le, fits)) inner,
          list-statements row fuel ts rest (omega (arith, le, fits)) others,
          to_u8-byte code byte,
        )
        refl

  -- Every tree of settings, if its codes and values are bytes, can be given to the parser: the tokens
  -- of nested `GenericTLV` statements, in which a value without bytes is the string `""` and any
  -- other is its length and a hexadecimal string, are parsed as the same tree. (This is about the
  -- tokens; that the scanner gives them is not part of it.)
  pub parse-tree_tokens :
      (row : Symbol) (ts : Tlvs)
      → IsTree ts
      → Parser.parse symtable mib ipv6 files (tree_tokens row ts) ≡ ok ts
  unfolding Parser.parse Reading.expect Reading.as_main Reading.as_l_brace Reading.as_r_brace
      Reading.expect_l_brace Reading.expect_r_brace
  parse-tree_tokens row ts h =
      let fits = length-append (statements row ts) (Tok.r_brace ∷ []) in
      rw (list-statements row (length (tree_tokens row ts)) ts [] (omega (arith, fits)) h) refl

-- ===== src/Parser/Termination.antt =====
-- src/parser.rs: every statement and the loop over statements come to an end.
use docsis_config_generator.Common
use docsis_config_generator.Common.{
  ℕ, zero, suc, ◌+◌, ◌≤◌, ◌<◌, ◌≡◌, refl, sym, subst, Bool, true, false, ◌||◌, Option, none, some,
  List, [], ◌∷◌, ◌++◌, Bytes, ltb, leb, ◌==◌, if◌then◌else◌, length, take, drop, ℤ, pos, Run, ok,
  exit, panic, out_of_fuel, or_exit, arith,
}
use docsis_config_generator.Text.{ascii, Ipv6Text}
use docsis_config_generator.Values.{Value}
use docsis_config_generator.Symbol.{Symbol, find_by_name}
use docsis_config_generator.Mib.{Mib}
use docsis_config_generator.Snmp.{VarValue, encode_vbind, encode_snmp_oid}
use docsis_config_generator.Encode.Exits.{
  Stops, Stops-bind, Stops-if, Stops-option, Stops-or_exit, encode-Stops,
}
use docsis_config_generator.Encode.Scalar.{parse_hexstr}
use docsis_config_generator.Lexer.{Tok, AsnType}
use docsis_config_generator.Assemble.Tree.{Tlvs, nil}
use docsis_config_generator.Parser
use docsis_config_generator.Parser.Reading
use docsis_config_generator.Parser.Reading.{
  Parse, ◌>>=◌, ◌>>◌, return, error, lift, bump, expect, as_main, as_hex_string, as_ip, as_asn_type,
  as_tlv_code, as_tlv_value, at_l_brace, at_end,
}
use docsis_config_generator.Parser.Exits.{
  parser_code, After, Reads, After-bind, After-le, Reads-bind, Reads-if, Reads-error, Reads-lift,
  reads_token, reads_semi, reads_lift, block-Reads, var_value-Reads, Stops-wider,
}

After-if :
    {A : Type 0} (n : ℕ) (test : Bool) (x y : Run (A × List Tok))
    → After n x
    → After n y
    → After n (if test then x else y)
After-if n true x y hx hy = hx
After-if n false x y hx hy = hy

After-Stops :
    {A B : Type 0} (n : ℕ) (run : Run (A × List Tok)) (f : A × List Tok → B)
    → After n run
    → Stops parser_code (Common.◌>>=◌ run λ r. ok (f r))
After-Stops n (ok r) f h = tt
After-Stops n (exit c) f h = h
After-Stops n panic f h = absurd h
After-Stops n out_of_fuel f h = absurd h

take_var_value-Reads : (n : ℕ) → Reads n Parser.take_var_value
unfolding Parser.take_var_value
take_var_value-Reads n = reads_token n as_asn_type _ (λ asn. var_value-Reads n asn)

module _ (files : Bytes → Option Bytes) where
  external_file_tlvs-Stops :
      (sym : Symbol) (path : Bytes) → Stops parser_code (Parser.external_file_tlvs files sym path)
  unfolding Parser.external_file_tlvs
  external_file_tlvs-Stops sym path = Stops-option _ (files path) (exit 251) _ refl content
    where
      content :
          (v : Bytes)
          → Stops parser_code (elim v [
            | [] ↦ exit 251
            | b ∷ v ↦ ok (Parser.chunk_tlvs (length (b ∷ v)) sym.code (b ∷ v))
          ])
      content [] = refl
      content (b ∷ v) = tt

  read_dialplan-Stops : (path : Bytes) → Stops parser_code (Parser.read_dialplan files path)
  unfolding Parser.read_dialplan
  read_dialplan-Stops path =
      Stops-option _ (files path) (exit 251) _ refl
        (λ d. Stops-if _ (ltb Parser.max_dialplan_size (length d)) (exit 251) _ refl tt)

module _ (symtable : List Symbol) (mib : Mib) (ipv6 : Ipv6Text) (files : Bytes → Option Bytes)
    (generic : Symbol)
    (has_generic : find_by_name symtable (ascii "GenericTLV") ≡ some generic) where
  snmpset_tlv-Stops :
      (sym : Symbol) (oid : Bytes) (var : VarValue)
      → Stops parser_code (Parser.snmpset_tlv symtable mib ipv6 files sym oid var)
  unfolding Parser.snmpset_tlv
  snmpset_tlv-Stops sym oid var =
      Stops-bind _ (or_exit (encode_vbind mib oid var) 255) _ (Stops-or_exit _ _ 255 refl) (λ v. tt)

  encode_value-Stops :
      (sym : Symbol) (value : Value)
      → Stops parser_code (Parser.encode_value symtable mib ipv6 files sym value)
  unfolding Parser.encode_value
  encode_value-Stops sym value = Stops-wider _ (encode-Stops ipv6 (encode_snmp_oid mib) sym value)

  typed_bytes-Stops :
      (asn : AsnType) (value : Value)
      → Stops parser_code (Parser.typed_bytes symtable mib ipv6 files asn value)
  unfolding Parser.typed_bytes
  typed_bytes-Stops AsnType.int value = tt
  typed_bytes-Stops AsnType.short value = tt
  typed_bytes-Stops AsnType.char value = tt
  typed_bytes-Stops AsnType.ip value =
      subst
        (λ found. Stops {A = Bytes} parser_code (elim found [
          | some row ↦ Parser.encode_value symtable mib ipv6 files row value
          | none ↦ panic
        ]))
        (sym has_generic) (encode_value-Stops generic value)
  typed_bytes-Stops _ value = refl

  counted_bytes-Stops :
      (declared : ℤ) (hex : Bytes)
      → Stops parser_code (Parser.counted_bytes symtable mib ipv6 files declared hex)
  unfolding Parser.counted_bytes
  counted_bytes-Stops declared hex =
      Stops-bind _ (or_exit (parse_hexstr hex) 255) _ (Stops-or_exit _ _ 255 refl)
        (λ b. Stops-if _ (Parser.is_length declared (length b)) (ok b) (exit 255) tt refl)

  generic_of-Reads :
      (n code : ℕ) (t : Tok) → Reads n (Parser.generic_of symtable mib ipv6 files code t)
  unfolding Parser.generic_of Reading.expect_string Reading.expect_integer Reading.take_value
  generic_of-Reads n code Tok.tlv_string =
      reads_token n Reading.as_string _ (λ s. reads_semi n _ (λ toks le. omega arith))
  generic_of-Reads n code Tok.tlv_string_zero =
      reads_token n Reading.as_string _ (λ s. reads_semi n _ (λ toks le. omega arith))
  generic_of-Reads n code Tok.tlv_length = reads_token n Reading.as_integer _ (λ declared.
      reads_token n as_tlv_value _ (λ _. reads_token n as_hex_string _ (λ hex.
        reads_semi n _
          (reads_lift n _ _ (counted_bytes-Stops declared hex) (λ b toks le. omega arith)))))
  generic_of-Reads n code Tok.tlv_type = reads_token n as_asn_type _ (λ asn.
      reads_token n as_tlv_value _ (λ _. reads_token n Reading.as_value _ (λ value.
        reads_semi n _
          (reads_lift n _ _ (typed_bytes-Stops asn value) (λ b toks le. omega arith)))))
  generic_of-Reads n code _ = Reads-error Tlvs n

  plain_statement-Reads :
      (n : ℕ) (list : Parse Tlvs) (sym : Symbol)
      → Reads n list
      → Reads n (Parser.plain_statement symtable mib ipv6 files list sym)
  unfolding Parser.plain_statement Reading.take_value
  plain_statement-Reads n list sym h =
      Reads-if n at_l_brace _ _
        (Reads-bind n (Parser.block list) _ (block-Reads n list h)
          (λ children toks le. omega arith))
        (reads_token n Reading.as_value _ (λ value.
          reads_semi n _
            (reads_lift n _ _ (encode_value-Stops sym value) (λ b toks le. omega arith))))

  generic_statement-Reads :
      (n : ℕ) (list : Parse Tlvs)
      → Reads n list
      → Reads n (Parser.generic_statement symtable mib ipv6 files list)
  unfolding Parser.generic_statement Parser.generic_body Reading.expect_integer
  generic_statement-Reads n list h = reads_token n as_tlv_code _ (λ _.
      reads_token n Reading.as_integer _ (λ code.
        Reads-if n at_l_brace _ _
          (Reads-bind n (Parser.block list) _ (block-Reads n list h)
            (λ children toks le. omega arith))
          (reads_token n some _ (λ t. generic_of-Reads n (Parser.to_u8 code) t))))

  statement_of-Reads :
      (n : ℕ) (list : Parse Tlvs) (t : Tok)
      → Reads n list
      → Reads n (Parser.statement_of symtable mib ipv6 files list t)
  unfolding Parser.statement_of Reading.expect_string Reading.expect_integer
      Reading.expect_label_oid
  statement_of-Reads n list (Tok.identifier row) h = plain_statement-Reads n list row h
  statement_of-Reads n list (Tok.ident_generic row) h = generic_statement-Reads n list h
  statement_of-Reads n list (Tok.ident_cvc row) h =
      reads_token n Reading.as_string _
        (λ path. reads_semi n _ (Reads-lift n _ (external_file_tlvs-Stops files row path)))
  statement_of-Reads n list (Tok.ident_snmp_w row) h = reads_token n Reading.as_label_oid _ (λ oid.
      reads_token n Reading.as_integer _ (λ control. reads_semi n _ (
        reads_lift n (or_exit (encode_snmp_oid mib oid) 255) _ (Stops-or_exit _ _ 255 refl)
          (λ value toks le. omega arith))))
  statement_of-Reads n list (Tok.ident_snmp_set row) h =
      reads_token n Reading.as_label_oid _ (λ oid.
        Reads-bind n Parser.take_var_value _ (take_var_value-Reads n)
          (λ var. reads_semi n _ (Reads-lift n _ (snmpset_tlv-Stops row oid var))))
  statement_of-Reads n list (Tok.digit_map row) h = reads_token n Reading.as_string _ (λ path.
      reads_semi n _ (
        reads_lift n _ _ (read_dialplan-Stops files path)
          (λ body. Reads-lift n _ (snmpset_tlv-Stops row Parser.dialplan_oid (VarValue.str body)))))
  statement_of-Reads n list _ h = Reads-error Tlvs n

  assignment_list-Reads :
      (fuel : ℕ) → Reads fuel (Parser.assignment_list symtable mib ipv6 files fuel)
  unfolding Parser.assignment_list Parser.statement
  assignment_list-Reads fuel [] le = omega arith
  assignment_list-Reads zero (t ∷ toks) le = absurd (omega arith)
  assignment_list-Reads (suc fuel) (t ∷ toks) le =
      let n = length toks in
      let again = assignment_list-Reads fuel in
      let list = Parser.assignment_list symtable mib ipv6 files fuel in
      After-if (suc n) (at_end (t ∷ toks)) (ok (nil, t ∷ toks)) _ (omega arith) (
        After-le n (suc n) _ (omega arith) (
          After-bind n (Parser.statement_of symtable mib ipv6 files list t toks) _
            (statement_of-Reads fuel list t again toks (omega (arith, le)))
            (λ first behind fewer. After-le (length behind) n _ fewer (
              After-bind (length behind) (list behind) _ (again behind (omega (arith, fewer, le)))
                (λ others rest fewer'. fewer')))))

  -- Parsing comes to an end, whatever the tokens: it gives a tree or exits with 241, 245, 251 or 255,
  -- and it never panics, if the table has a row for `GenericTLV`.
  pub parse-Stops :
      (toks : List Tok) → Stops parser_code (Parser.parse symtable mib ipv6 files toks)
  unfolding Parser.parse
  parse-Stops toks =
      let n = length toks in
      let list = Parser.assignment_list symtable mib ipv6 files n in
      After-Stops n ((expect as_main >>= λ _. Parser.block list) toks) _ (
        reads_token n as_main _ (λ _. block-Reads n list (assignment_list-Reads n)) toks
          (omega arith))

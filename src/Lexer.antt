-- ===== src/Lexer.antt =====
-- src/lexer.rs: the scanner of configuration files. A lexer's position is the list of the bytes not
-- read yet.
pub mod Tokens
pub mod Matchers
pub mod Longest
pub mod Termination
pub mod Bounds
pub mod Strings
unfoldable pub use Tokens.*
use mathlib.Core.Option
use docsis_config_generator.Common.{
  ℕ, zero, suc, ◌+◌, Bool, true, false, ◌&&◌, ◌||◌, Option, none, some, List, [], ◌∷◌, map, ltb,
  leb, ◌==◌, if◌then◌else◌, length, take, drop, Bytes, ℤ, pos,
}
use docsis_config_generator.Text.{ascii, bytes_eq, parse_i64, Ipv6Text}
use docsis_config_generator.Symbol.{Symbol, find_by_name}
use docsis_config_generator.Lexer.Matchers.{
  head_is, m_submgt_filters, m_ipv4, m_list, m_with_suffix_num, m_hexstring, m_mac, m_ethermask,
  m_timeticks, m_word, m_integer, m_label_oid, m_label_oid_quoted, m_label_oid_text, m_ipv6,
}

-- The body of a comment, behind its opening; the flag says that a `*` has just been read. Gives the
-- bytes behind the comment and the line there.
unfoldable pub comment_body : Bool → ℕ → Bytes → Bytes × ℕ
comment_body star line [] = ([], line)
comment_body star line (c ∷ s) =
    let behind = comment_body (c == b'*') (if c == b'\n' then line + 1 else line) s in
    if star && c == b'/' then (s, line) else behind

-- The stars that open a comment.
unfoldable pub skip_stars : Bytes → Bytes
skip_stars [] = []
skip_stars (c ∷ s) = let behind = skip_stars s in if c == b'*' then behind else c ∷ s

-- `skip_comment`, behind the `/`.
unfoldable pub skip_comment : ℕ → Bytes → Bytes × ℕ
skip_comment line s = comment_body false line (skip_stars s)

-- `out.push(c)` and the test of the length that follows, when `count` bytes stood there before.
unfoldable pub push : ℕ → ℕ → ℕ → Scan (Bytes × Bytes) → Scan (Bytes × Bytes)
push line count c rest =
    if ltb 2048 (count + 1)
    then fail (string_too_long line)
    else rest >>= λ (out, behind). done (c ∷ out, behind)

-- `scan_string` behind the opening quote: the string, and the bytes behind it.
unfoldable pub scan_string : ℕ → ℕ → Bytes → Scan (Bytes × Bytes)
unfolding push
scan_string line count [] = fail (unterminated_string line)
scan_string line count (c ∷ []) =
    if c == b'"'
    then done ([], [])
    else if c == b'\n'
    then fail (newline_in_string line)
    else if c == b'\t'
    then fail (tab_in_string line)
    else push line count c (fail (unterminated_string line))
scan_string line count (c ∷ d ∷ s) =
    let escaped = push line count b'"' (scan_string line (count + 1) s) in
    let plain =
      push line count (if c == b'\\' then b' ' else c) (scan_string line (count + 1) (d ∷ s)) in
    if c == b'"'
    then done ([], d ∷ s)
    else if c == b'\n'
    then fail (newline_in_string line)
    else if c == b'\t'
    then fail (tab_in_string line)
    else if c == b'\\' && d == b'"'
    then escaped
    else plain

-- A token, the bytes behind it and the line there.
abbrev pub Next : Type 0
Next = Option (Token × Bytes × ℕ)

abbrev pub token : Tok → ℕ → Bytes → Scan Next
token tok line s = done (some (record { tok = tok; line = line }, s, line))

module _ (ipv6 : Ipv6Text) where
  unfoldable pub match_pattern : Pat → Bytes → ℕ
  match_pattern Pat.submgt_filters s = m_submgt_filters s
  match_pattern Pat.ip s = m_ipv4 s
  match_pattern Pat.ip_list s = m_list m_ipv4 16 s
  match_pattern Pat.hex_string s = m_hexstring s
  match_pattern Pat.ethermask s = m_ethermask s
  match_pattern Pat.ip_ip6_port s = m_with_suffix_num m_ipv4 s
  match_pattern Pat.mac s = m_mac s
  match_pattern Pat.label_oid s = m_label_oid s
  match_pattern Pat.label_oid_quoted s = m_label_oid_quoted s
  match_pattern Pat.label_oid_text s = m_label_oid_text s
  match_pattern Pat.time_ticks s = m_timeticks s
  match_pattern Pat.word s = m_word s
  match_pattern Pat.integer s = m_integer s
  match_pattern Pat.ip6 s = m_ipv6 ipv6 s
  match_pattern Pat.ip6_port s = m_with_suffix_num (m_ipv6 ipv6) s
  match_pattern Pat.ip6_prefix_list s = m_list (m_with_suffix_num (m_ipv6 ipv6)) 15 s
  match_pattern Pat.ip6_list s = m_list (m_ipv6 ipv6) 16 s

  -- The loop of `longest_match`.
  unfoldable pub longest_of : Bytes → Pat × ℕ → List Pat → Pat × ℕ
  longest_of s best [] = best
  longest_of s best (p ∷ ps) =
      let len = match_pattern p s in longest_of s (if ltb best.1 len then (p, len) else best) ps

  unfoldable pub longest_match : Bytes → Pat × ℕ
  longest_match s = longest_of s (Pat.word, 0) patterns

module _ (symtable : List Symbol) where
  unfoldable pub keyword_or_identifier : Bytes → ℕ → Scan Tok
  keyword_or_identifier text line = if is_main text then done main else elim (asn_name text) [
    | some a ↦ done (asn_type a)
    | none ↦ elim (tlv_word text) [
      | some t ↦ done t
      | none ↦ elim (find_by_name symtable text) [
        | some sym ↦ done (symbol_token text sym)
        | none ↦ fail (unrecognized_symbol text line)
      ]
    ]
  ]

  unfoldable pub classify : Pat → Bytes → ℕ → Scan Tok
  classify Pat.submgt_filters text line = done (Tok.submgt_filters text)
  classify Pat.ip text line = done (Tok.ip text)
  classify Pat.ip_list text line = done (Tok.ip_list text)
  classify Pat.hex_string text line = done (Tok.hex_string text)
  classify Pat.ethermask text line = done (Tok.ethermask text)
  classify Pat.ip_ip6_port text line = done (Tok.ip_ip6_port text)
  classify Pat.ip6_port text line = done (Tok.ip_ip6_port text)
  classify Pat.mac text line = done (Tok.mac text)
  classify Pat.label_oid text line = done (Tok.label_oid text)
  classify Pat.label_oid_quoted text line = done (Tok.label_oid text)
  classify Pat.label_oid_text text line = done (Tok.label_oid text)
  classify Pat.time_ticks text line = done (Tok.time_ticks text)
  classify Pat.ip6 text line = done (Tok.ip6 text)
  classify Pat.ip6_prefix_list text line = done (Tok.ip6_prefix_list text)
  classify Pat.ip6_list text line = done (Tok.ip6_list text)
  classify Pat.integer text line = done (Tok.integer (Option.get_or (parse_i64 text) (pos 0)))
  classify Pat.word text line = keyword_or_identifier text line

module _ (symtable : List Symbol) (ipv6 : Ipv6Text) where
  -- What is neither blank nor comment, string or mark.
  unfoldable pub pattern_token : ℕ → Bytes → ℕ → Scan Next
  pattern_token line s c =
      let (pat, len) = longest_match ipv6 s in
      if len == 0
      then fail (unrecognized_char c line)
      else classify symtable pat (take len s) line >>= λ tok. token tok line (drop len s)

  unfoldable pub string_token : ℕ → Bytes → Scan Next
  string_token line s = scan_string line 0 s >>= λ (out, behind). token (Tok.str out) line behind

  -- `next_token`: blanks and comments are skipped in rounds that take a byte at least.
  unfoldable pub next_token : ℕ → ℕ → Bytes → Scan Next
  unfolding pattern_token string_token
  next_token fuel line [] = done none
  next_token zero line (c ∷ s) = no_fuel
  next_token (suc fuel) line (c ∷ s) =
      let blank = next_token fuel line s in
      let newline = next_token fuel (line + 1) s in
      let comment = let (behind, line') = skip_comment line s in next_token fuel line' behind in
      if c == b' ' || c == b'\t' || c == b'\r'
      then blank
      else if c == b'\n'
      then newline
      else if c == b'/' && head_is b'*' s
      then comment
      else if c == b'"'
      then string_token line s
      else if c == b'{'
      then token l_brace line s
      else if c == b'}'
      then token r_brace line s
      else if c == b';'
      then token semi line s
      else pattern_token line (c ∷ s) c

  -- The loop of `tokenize`, with as many rounds as there are bytes and one more.
  unfoldable pub tokens_from : ℕ → ℕ → Bytes → Scan (List Token)
  tokens_from zero line s = no_fuel
  tokens_from (suc fuel) line s = next_token (length s) line s >>= λ found. elim found [
    | none ↦ done []
    | some (t, behind, line') ↦ tokens_from fuel line' behind >>= λ ts. done (t ∷ ts)
  ]

  unfoldable pub tokenize : Bytes → Scan (List Token)
  tokenize s = tokens_from (suc (length s)) 1 s

-- ===== src/Lexer/Matchers.antt =====
-- src/lexer.rs: the matchers. Each gives the length of its match at the front of the bytes not read
-- yet, or 0; the position is the list itself. Rust's parser of IPv6 addresses is a parameter.
use mathlib.Core.Option
use docsis_config_generator.Common.{
  ℕ, zero, suc, ◌+◌, Bool, true, false, ◌&&◌, ◌||◌, not, Option, none, some, List, [], ◌∷◌, ltb,
  leb, ◌==◌, if◌then◌else◌, take, drop, Bytes,
}
use docsis_config_generator.Text.{is_digit, Ipv6Text}

unfoldable pub is_alpha : ℕ → Bool
is_alpha c = (leb b'a' c && leb c b'z') || (leb b'A' c && leb c b'Z')

unfoldable pub is_alnum : ℕ → Bool
is_alnum c = is_alpha c || is_digit c

unfoldable pub is_label_char : ℕ → Bool
is_label_char c = is_alnum c || c == b'_' || c == b'-'

unfoldable pub is_hex : ℕ → Bool
is_hex c = is_digit c || (leb b'a' c && leb c b'f') || (leb b'A' c && leb c b'F')

-- How many bytes from the front on pass a test.
unfoldable pub span : (ℕ → Bool) → Bytes → ℕ
span test [] = 0
span test (c ∷ s) = if test c then suc (span test s) else 0

abbrev pub digits : Bytes → ℕ
digits = span is_digit

-- `s.get(i) == Some(&c)`, at the list that starts at `i`.
abbrev pub head_is : ℕ → Bytes → Bool
head_is c [] = false
head_is c (d ∷ s) = d == c

-- Digits, at least one.
unfoldable pub number : Bytes → Option ℕ
number s = let d = digits s in if d == 0 then none else some d

-- `n` times digits and a separator.
unfoldable pub groups : ℕ → ℕ → Bytes → Option ℕ
groups zero sep s = some 0
groups (suc n) sep s =
    let d = digits s in
    let more = Option.map (λ k. d + 1 + k) (groups n sep (drop (d + 1) s)) in
    if d == 0 || not (head_is sep (drop d s)) then none else more

-- One match behind another.
abbrev pub then_match : Option ℕ → (Bytes → Option ℕ) → Bytes → Option ℕ
then_match first second s = Option.bind first λ i. Option.map (λ j. i + j) (second (drop i s))

-- The loop of `m_submgt_filters`, with room for so many more commas.
unfoldable pub filters_loop : ℕ → Bool → Bytes → Option ℕ
filters_loop zero first s = if first then none else number s
filters_loop (suc room) first s =
    let d = digits s in
    let more = Option.map (λ k. d + 1 + k) (filters_loop room false (drop (d + 1) s)) in
    if d == 0
    then none
    else if head_is b',' (drop d s)
    then more
    else if first
    then none
    else some d

unfoldable pub m_submgt_filters : Bytes → ℕ
m_submgt_filters s = Option.get_or (filters_loop 127 true s) 0

unfoldable pub m_ipv4 : Bytes → ℕ
m_ipv4 s = Option.get_or (then_match (groups 3 b'.' s) number s) 0

-- The loop of `m_list`: how many items there are, and where the last of them ends.
unfoldable pub items : (Bytes → ℕ) → ℕ → Bytes → ℕ × ℕ
items item zero s = (0, 0)
items item (suc room) s =
    let len = item s in
    let (count, end) = items item room (drop (len + 1) s) in
    let more : ℕ × ℕ = (count + 1, if count == 0 then len else len + 1 + end) in
    if len == 0 then (0, 0) else if head_is b',' (drop len s) then more else (1, len)

unfoldable pub m_list : (Bytes → ℕ) → ℕ → Bytes → ℕ
m_list item max s = let (count, end) = items item max s in if ltb count 2 then 0 else end

unfoldable pub m_with_suffix_num : (Bytes → ℕ) → Bytes → ℕ
m_with_suffix_num item s =
    let len = item s in
    let d = digits (drop (len + 1) s) in
    if len == 0 || not (head_is b'/' (drop len s)) || d == 0 then 0 else len + 1 + d

unfoldable pub m_hexstring : Bytes → ℕ
m_hexstring (a ∷ b ∷ s) =
    let n = span is_hex s in
    if a == b'0' && (b == b'x' || b == b'X') && not (n == 0) then 2 + n else 0
m_hexstring (a ∷ []) = 0
m_hexstring [] = 0

-- `n` times two hexadecimal digits and a colon, and two digits more.
unfoldable pub hex_groups : ℕ → Bytes → Option ℕ
hex_groups zero (a ∷ b ∷ s) = if is_hex a && is_hex b then some 2 else none
hex_groups (suc n) (a ∷ b ∷ c ∷ s) =
    let more = Option.map (λ k. 3 + k) (hex_groups n s) in
    if is_hex a && is_hex b && c == b':' then more else none
hex_groups _ _ = none

unfoldable pub m_mac : Bytes → ℕ
m_mac s = Option.get_or (hex_groups 5 s) 0

unfoldable pub m_ethermask : Bytes → ℕ
m_ethermask s =
    let a = m_mac s in
    let b = m_mac (drop (a + 1) s) in
    if a == 0 || not (head_is b'/' (drop a s)) || b == 0 then 0 else a + 1 + b

unfoldable pub m_timeticks : Bytes → ℕ
m_timeticks s =
    Option.get_or (then_match (then_match (groups 3 b':' s) (groups 1 b'.') s) number s) 0

unfoldable pub m_word : Bytes → ℕ
m_word s = let a = span is_alpha s in if a == 0 then 0 else a + span is_alnum (drop a s)

unfoldable pub m_integer : Bytes → ℕ
m_integer s =
    let sign = if head_is b'-' s then 1 else 0 in
    let d = digits (drop sign s) in if d == 0 then 0 else sign + d

-- Where the `label.` groups end, read byte by byte: `named` says that a label has begun in front of
-- `pos`, where the bytes stand.
unfoldable pub label_ends : Bool → ℕ → Bytes → List ℕ
label_ends named pos [] = []
label_ends named pos (c ∷ s) =
    let in_label = is_label_char c in
    let more = label_ends in_label (pos + 1) s in
    if in_label then more else if named && c == b'.' then (pos + 1) ∷ more else []

unfoldable pub oid_prefix_positions : Bytes → List ℕ
oid_prefix_positions s = let dots = span (λ c. c == b'.') s in label_ends false dots (drop dots s)

-- The last of the positions behind which `tail` matches, with that match.
unfoldable pub best_tail : (Bytes → ℕ) → Bytes → ℕ → List ℕ → ℕ
best_tail tail s best [] = best
best_tail tail s best (start ∷ starts) =
    let n = tail (drop start s) in best_tail tail s (if n == 0 then best else start + n) starts

unfoldable pub m_label_oid : Bytes → ℕ
m_label_oid s = best_tail (span is_alnum) s 0 (oid_prefix_positions s)

unfoldable pub is_quoted_char : ℕ → Bool
is_quoted_char c =
    is_alnum c
    || c == b'['
    || c == b']'
    || c == b'@'
    || c == b','
    || c == b':'
    || c == b'_'
    || c == b'.'
    || c == b'-'

-- What stands between single quotes, with them.
unfoldable pub quoted_tail : Bytes → ℕ
quoted_tail [] = 0
quoted_tail (c ∷ s) =
    let n = span is_quoted_char s in
    if c == 0x27 && not (n == 0) && head_is 0x27 (drop n s) then n + 2 else 0

unfoldable pub m_label_oid_quoted : Bytes → ℕ
m_label_oid_quoted s = best_tail quoted_tail s 0 (oid_prefix_positions s)

unfoldable pub is_text_char : ℕ → Bool
is_text_char c = is_alnum c || c == b',' || c == b':' || c == b'_' || c == b'.' || c == b'-'

unfoldable pub any : (ℕ → Bool) → Bytes → Bool
any test [] = false
any test (c ∷ s) = test c || any test s

-- Quotes and text characters, one of these at least.
unfoldable pub text_tail : Bytes → ℕ
text_tail s =
    let n = span (λ c. c == b'"' || is_text_char c) s in
    if any is_text_char (take n s) then n else 0

unfoldable pub m_label_oid_text : Bytes → ℕ
m_label_oid_text s = best_tail text_tail s 0 (oid_prefix_positions s)

module _ (ipv6 : Ipv6Text) where
  pub is_address : Bytes → Bool
  is_address text =
      any (λ c. c == b':') text && elim (ipv6.parse text) [ some a ↦ true | none ↦ false ]

  -- The longest prefix of at most `n` bytes that is an address.
  unfoldable pub ipv6_prefix : ℕ → Bytes → ℕ
  unfolding is_address
  ipv6_prefix zero s = 0
  ipv6_prefix (suc n) s =
      let shorter = ipv6_prefix n s in if is_address (take (suc n) s) then suc n else shorter

  unfoldable pub m_ipv6 : Bytes → ℕ
  m_ipv6 s = ipv6_prefix (span (λ c. is_hex c || c == b':') s) s

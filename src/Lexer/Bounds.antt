-- ===== src/Lexer/Bounds.antt =====
-- src/lexer.rs: a match is no longer than the text, so that the scanner's slices are in range.
mod Shapes
use mathlib.Core.Option
use docsis_config_generator.Common.{
  ℕ, zero, suc, ◌+◌, ◌-◌, ◌≤◌, ◌<◌, ◌≡◌, refl, Bool, true, false, ◌&&◌, ◌||◌, not, Option, none,
  some, List, [], ◌∷◌, map, Bytes, All, length, take, drop, length-drop, ltb, ◌==◌, if◌then◌else◌,
  arith,
}
use docsis_config_generator.Text.{Ipv6Text, is_digit}
use docsis_config_generator.Lexer
use docsis_config_generator.Lexer.{Pat}
use docsis_config_generator.Lexer.Matchers
use docsis_config_generator.Lexer.Matchers.{
  span, digits, number, groups, head_is, then_match, filters_loop, items, is_hex, hex_groups,
  label_ends, best_tail,
}
use docsis_config_generator.Lexer.Bounds.Shapes.{
  Within, le-if, le-test, span-length, head_is-lt, passed, m_ipv4-Within, m_timeticks-Within,
  m_submgt_filters-Within, m_list-Within, m_with_suffix_num-Within, m_hexstring-Within,
  m_mac-Within, m_ethermask-Within, m_word-Within, m_integer-Within,
}

All-if :
    (P : ℕ → Type 0) (test : Bool) (xs ys : List ℕ)
    → All P xs
    → All P ys
    → All P (if test then xs else ys)
All-if P true xs ys hx hy = hx
All-if P false xs ys hx hy = hy

label_ends-All :
    (n : ℕ) (named : Bool) (pos : ℕ) (s : Bytes)
    → pos + length s ≤ n
    → All (λ k. k ≤ n) (label_ends named pos s)
unfolding label_ends
label_ends-All n named pos [] le = tt
label_ends-All n named pos (c ∷ s) le =
    let more = label_ends-All n (Matchers.is_label_char c) (pos + 1) s (omega (arith, le)) in
    All-if _ (Matchers.is_label_char c) _ _ more
      (All-if _ (named && c == b'.') _ _ (omega (arith, le), more) tt)

best_tail-le :
    (tail : Bytes → ℕ) (s : Bytes) (best : ℕ) (starts : List ℕ)
    → Within tail
    → best ≤ length s
    → All (λ k. k ≤ length s) starts
    → best_tail tail s best starts ≤ length s
unfolding best_tail
best_tail-le tail s best [] h le hs = le
best_tail-le tail s best (start ∷ starts) h le (k, hs) =
    let n = tail (drop start s) in
    best_tail-le tail s (if n == 0 then best else start + n) starts h
      (le-if _ (n == 0) _ _ le (omega (arith, k, h (drop start s), length-drop start s))) hs

positions-All : (s : Bytes) → All (λ k. k ≤ length s) (Matchers.oid_prefix_positions s)
unfolding Matchers.oid_prefix_positions
positions-All s =
    let dots = span (λ c. c == b'.') s in
    label_ends-All (length s) false dots (drop dots s)
      (omega (arith, length-drop dots s, span-length (λ c. c == b'.') s))

label_tail-Within :
    (tail : Bytes → ℕ)
    → Within tail
    → Within (λ s. best_tail tail s 0 (Matchers.oid_prefix_positions s))
label_tail-Within tail h s =
    best_tail-le tail s 0 (Matchers.oid_prefix_positions s) h (omega arith) (positions-All s)

quoted_tail-Within : Within Matchers.quoted_tail
unfolding Matchers.quoted_tail
quoted_tail-Within [] = omega arith
quoted_tail-Within (c ∷ s) =
    let n = span Matchers.is_quoted_char s in
    le-test _ (c == 0x27 && not (n == 0) && head_is 0x27 (drop n s)) (n + 2) 0
      (λ closed. omega (arith, head_is-lt 0x27 n s (last_true (c == 0x27) (not (n == 0)) _ closed)))
      (λ _. omega arith)
  where
    last_true : (a b d : Bool) → (a && b && d) ≡ true → d ≡ true
    last_true a b d h = ground arith

text_tail-Within : Within Matchers.text_tail
unfolding Matchers.text_tail
text_tail-Within s =
    let is_text : ℕ → Bool = λ c. c == b'"' || Matchers.is_text_char c in
    le-if _ (Matchers.any Matchers.is_text_char (take (span is_text s) s)) _ _
      (span-length is_text s) (omega arith)

module _ (ipv6 : Ipv6Text) where
  ipv6_prefix-le : (n : ℕ) (s : Bytes) → Matchers.ipv6_prefix ipv6 n s ≤ n
  unfolding Matchers.ipv6_prefix
  ipv6_prefix-le zero s = omega arith
  ipv6_prefix-le (suc n) s =
      le-if _ (Matchers.is_address ipv6 (take (suc n) s)) (suc n) _ (omega arith)
        (omega (arith, ipv6_prefix-le n s))

  m_ipv6-Within : Within (Matchers.m_ipv6 ipv6)
  unfolding Matchers.m_ipv6
  m_ipv6-Within s =
      let test : ℕ → Bool = λ c. is_hex c || c == b':' in
      omega (arith, ipv6_prefix-le (span test s) s, span-length test s)

  -- No match is longer than the text: `pos + len` never leaves the source.
  pub match_pattern-Within : (p : Pat) (s : Bytes) → Lexer.match_pattern ipv6 p s ≤ length s
  unfolding Lexer.match_pattern Matchers.m_label_oid Matchers.m_label_oid_quoted
      Matchers.m_label_oid_text
  match_pattern-Within Pat.submgt_filters s = m_submgt_filters-Within s
  match_pattern-Within Pat.ip s = m_ipv4-Within s
  match_pattern-Within Pat.ip_list s = m_list-Within Matchers.m_ipv4 16 m_ipv4-Within s
  match_pattern-Within Pat.hex_string s = m_hexstring-Within s
  match_pattern-Within Pat.ethermask s = m_ethermask-Within s
  match_pattern-Within Pat.ip_ip6_port s = m_with_suffix_num-Within Matchers.m_ipv4 m_ipv4-Within s
  match_pattern-Within Pat.mac s = m_mac-Within s
  match_pattern-Within Pat.label_oid s =
      label_tail-Within (span Matchers.is_alnum) (span-length Matchers.is_alnum) s
  match_pattern-Within Pat.label_oid_quoted s =
      label_tail-Within Matchers.quoted_tail quoted_tail-Within s
  match_pattern-Within Pat.label_oid_text s =
      label_tail-Within Matchers.text_tail text_tail-Within s
  match_pattern-Within Pat.time_ticks s = m_timeticks-Within s
  match_pattern-Within Pat.word s = m_word-Within s
  match_pattern-Within Pat.integer s = m_integer-Within s
  match_pattern-Within Pat.ip6 s = m_ipv6-Within s
  match_pattern-Within Pat.ip6_port s =
      m_with_suffix_num-Within (Matchers.m_ipv6 ipv6) m_ipv6-Within s
  match_pattern-Within Pat.ip6_prefix_list s =
      m_list-Within (Matchers.m_with_suffix_num (Matchers.m_ipv6 ipv6)) 15
        (m_with_suffix_num-Within (Matchers.m_ipv6 ipv6) m_ipv6-Within) s
  match_pattern-Within Pat.ip6_list s = m_list-Within (Matchers.m_ipv6 ipv6) 16 m_ipv6-Within s

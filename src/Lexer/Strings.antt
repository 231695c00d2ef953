-- ===== src/Lexer/Strings.antt =====
-- src/lexer.rs: a string that is written between quotes is scanned back.
use docsis_config_generator.Common.{
  ℕ, ◌+◌, ◌≤◌, ◌≡◌, ◌≢◌, refl, Bool, true, false, [], ◌∷◌, ◌++◌, All, Bytes, length, ◌==◌,
  if◌then◌else◌, arith, le→ltb,
}
use docsis_config_generator.Lexer.{done, push, scan_string}

-- A byte that can stand in a string: no line end, no tab and no backslash, which would be read as a
-- space.
abbrev pub IsQuotable : ℕ → Type 0
IsQuotable c = (c ≢ b'\n') × (c ≢ b'\t') × (c ≢ b'\\')

-- The string with `\"` for every quote.
abbrev pub escape : Bytes → Bytes
escape [] = []
escape (c ∷ t) = if c == b'"' then b'\\' ∷ b'"' ∷ escape t else c ∷ escape t

push_lem :
    (line count c : ℕ) (t rest : Bytes)
    → count + 1 ≤ 2048
    → push line count c (done (t, rest)) ≡ done (c ∷ t, rest)
unfolding push
push_lem line count c t rest h = rw (le→ltb 2048 (count + 1) (omega arith)) refl

scan_string-quote :
    (line count : ℕ) (rest : Bytes) → scan_string line count (b'"' ∷ rest) ≡ done ([], rest)
unfolding scan_string
scan_string-quote line count [] = refl
scan_string-quote line count (d ∷ s) = refl

scan_string-plain :
    (line count c : ℕ) (s : Bytes)
    → s ≢ []
    → IsQuotable c
    → (c == b'"') ≡ false
    → scan_string line count (c ∷ s) ≡ push line count c (scan_string line (count + 1) s)
unfolding scan_string
scan_string-plain line count c [] more quotable quote = absurd (more refl)
scan_string-plain line count c (d ∷ s) more (newline, tab, backslash) quote =
    let n : (c == b'\n') ≡ false = ground (arith, newline) in
    let t : (c == b'\t') ≡ false = ground (arith, tab) in
    let b : (c == b'\\') ≡ false = ground (arith, backslash) in rw (quote, n, t, b) refl

scan_string-escaped :
    (line count : ℕ) (s : Bytes)
    → scan_string line count (b'\\' ∷ b'"' ∷ s)
      ≡ push line count b'"' (scan_string line (count + 1) s)
unfolding scan_string
scan_string-escaped line count s = refl

closed-ne_nil : (t rest : Bytes) → t ++ b'"' ∷ rest ≢ []
closed-ne_nil [] rest = ground arith
closed-ne_nil (c ∷ t) rest = ground arith

-- A string survives its quotes: the bytes with a backslash before every quote, closed by a quote, are
-- scanned as the same bytes, and the scanner stands behind the closing quote; if the bytes hold no
-- line end, tab or backslash and, with the `count` bytes before them, are at most 2048.
pub scan_string-escape :
    (line count : ℕ) (t rest : Bytes)
    → All IsQuotable t
    → count + length t ≤ 2048
    → scan_string line count (escape t ++ b'"' ∷ rest) ≡ done (t, rest)
scan_string-escape line count [] rest h fits = scan_string-quote line count rest
scan_string-escape line count (c ∷ t) rest (h, hs) fits =
    choose (c == b'"') refl (scan_string-escape line (count + 1) t rest hs (omega (arith, fits)))
  where
    s : Bytes
    s = escape t ++ b'"' ∷ rest

    choose :
        (quote : Bool)
        → (c == b'"') ≡ quote
        → scan_string line (count + 1) s ≡ done (t, rest)
        → scan_string line count
            ((if quote then b'\\' ∷ b'"' ∷ escape t else c ∷ escape t) ++ b'"' ∷ rest)
          ≡ done (c ∷ t, rest)
    choose true q behind =
        let same : c ≡ b'"' = ground (arith, q) in
        rw (scan_string-escaped line count s, behind, same)
          (push_lem line count b'"' t rest (omega (arith, fits)))
    choose false q behind =
        rw (scan_string-plain line count c s (closed-ne_nil (escape t) rest) h q, behind)
          (push_lem line count c t rest (omega (arith, fits)))

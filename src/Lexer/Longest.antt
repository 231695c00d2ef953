-- ===== src/Lexer/Longest.antt =====
-- src/lexer.rs: which pattern `longest_match` chooses.
use docsis_config_generator.Common.{
  ℕ, ◌≤◌, ◌<◌, ◌≡◌, refl, sym, ap, subst, Bool, true, false, ◌⊎◌, inl, inr, List, [], ◌∷◌, ◌++◌,
  All, All-mono, Bytes, ltb, if◌then◌else◌, arith, ltb→lt,
}
use docsis_config_generator.Text.{Ipv6Text}
use docsis_config_generator.Lexer
use docsis_config_generator.Lexer.{Pat, patterns}

module _ (ipv6 : Ipv6Text) where
  -- The rule of the original scanner: the pattern's match is longer than those of the patterns
  -- before it in the list, and no match of a pattern behind it is longer.
  abbrev pub FirstLongest : Bytes → List Pat → Pat × ℕ → Type 0
  FirstLongest s ps (p, n) =
      (before after : List Pat) × (ps ≡ before ++ p ∷ after)
      × (Lexer.match_pattern ipv6 p s ≡ n)
      × All (λ q. Lexer.match_pattern ipv6 q s < n) before
      × All (λ q. Lexer.match_pattern ipv6 q s ≤ n) after

  -- How the loop ends: with the match it started with, which none of `ps` is longer than, or with
  -- a longer one of `ps`.
  Ends : Bytes → Pat × ℕ → List Pat → Pat × ℕ → Type 0
  Ends s best ps found =
      ((found ≡ best) × All (λ q. Lexer.match_pattern ipv6 q s ≤ best.1) ps)
      ⊎ (FirstLongest s ps found × (best.1 < found.1))

  -- The match of `p` was longer.
  Ends-took :
      (s : Bytes) (best : Pat × ℕ) (p : Pat) (ps : List Pat) (found : Pat × ℕ)
      → best.1 < Lexer.match_pattern ipv6 p s
      → Ends s (p, Lexer.match_pattern ipv6 p s) ps found
      → Ends s best (p ∷ ps) found
  unfolding Ends
  Ends-took s best p ps found longer (inl (same, below)) = inr (
    subst (λ r. FirstLongest s (p ∷ ps) r) (sym same) ([], ps, refl, refl, tt, below),
    omega (arith, ap (λ r. r.1) same, longer),
  )
  Ends-took s best p ps found longer (inr ((before, after, list, len, below, up), more)) = inr (
    (p ∷ before, after, ap (λ l. p ∷ l) list, len, (more, below), up),
    omega (arith, more, longer),
  )

  -- It was not.
  Ends-kept :
      (s : Bytes) (best : Pat × ℕ) (p : Pat) (ps : List Pat) (found : Pat × ℕ)
      → Lexer.match_pattern ipv6 p s ≤ best.1
      → Ends s best ps found
      → Ends s best (p ∷ ps) found
  unfolding Ends
  Ends-kept s best p ps found short (inl (same, below)) = inl (same, (short, below))
  Ends-kept s best p ps found short (inr ((before, after, list, len, below, up), more)) = inr (
    (p ∷ before, after, ap (λ l. p ∷ l) list, len, (omega (arith, more, short), below), up),
    more,
  )

  longest_of_lem :
      (s : Bytes) (best : Pat × ℕ) (ps : List Pat)
      → Ends s best ps (Lexer.longest_of ipv6 s best ps)
  unfolding Ends Lexer.longest_of
  longest_of_lem s best [] = inl (refl, tt)
  longest_of_lem s best (p ∷ ps) =
      choose (ltb best.1 n) refl (longest_of_lem s (p, n) ps) (longest_of_lem s best ps)
    where
      n : ℕ
      n = Lexer.match_pattern ipv6 p s

      choose :
          (longer : Bool)
          → ltb best.1 n ≡ longer
          → Ends s (p, n) ps (Lexer.longest_of ipv6 s (p, n) ps)
          → Ends s best ps (Lexer.longest_of ipv6 s best ps)
          → Ends s best (p ∷ ps) (Lexer.longest_of ipv6 s (if longer then (p, n) else best) ps)
      choose true h took kept = Ends-took s best p ps _ (ltb→lt best.1 n h) took
      choose false h took kept = Ends-kept s best p ps _ (ground arith) kept

  -- The rule of the original scanner on all the patterns; no match has the length 0.
  abbrev pub FlexRule : Bytes → Pat × ℕ → Type 0
  FlexRule s found =
      ((0 < found.1) × FirstLongest s patterns found)
      ⊎ ((found.1 ≡ 0) × All (λ q. Lexer.match_pattern ipv6 q s ≡ 0) patterns)

  -- The scanner takes the longest match of any pattern at the front of the text, and of the longest
  -- ones that of the first pattern in the list's order. It finds the length 0 when and only when no
  -- pattern matches.
  pub longest_match-FlexRule : (s : Bytes) → FlexRule s (Lexer.longest_match ipv6 s)
  unfolding Ends Lexer.longest_match
  longest_match-FlexRule s = choose (longest_of_lem s (Pat.word, 0) patterns)
    where
      choose :
          Ends s (Pat.word, 0) patterns (Lexer.longest_match ipv6 s)
          → FlexRule s (Lexer.longest_match ipv6 s)
      choose (inl (same, none)) = inr (
        ap (λ r. r.1) same,
        All-mono (λ q. Lexer.match_pattern ipv6 q s ≤ 0) (λ q. Lexer.match_pattern ipv6 q s ≡ 0)
            patterns (λ q h. omega (arith, h)) none,
      )
      choose (inr (first, more)) = inl (more, first)

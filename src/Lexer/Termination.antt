-- ===== src/Lexer/Termination.antt =====
-- src/lexer.rs: the scanner's loops come to an end, since every round takes a byte.
use docsis_config_generator.Common.{
  ℕ, zero, suc, ◌+◌, ◌≤◌, ◌<◌, ◌≡◌, ◌≢◌, refl, subst, Bool, true, false, ◌&&◌, ◌||◌, Option, none,
  some, List, [], ◌∷◌, Bytes, length, take, drop, length-drop, ltb, ◌==◌, if◌then◌else◌, arith,
}
use docsis_config_generator.Text.{Ipv6Text}
use docsis_config_generator.Symbol.{Symbol, find_by_name}
use docsis_config_generator.Lexer
use docsis_config_generator.Lexer.{Scan, Next, done, fail, no_fuel, ◌>>=◌, Pat, Tok, Token}
use docsis_config_generator.Lexer.Matchers.{head_is}

-- The scan has not run out of fuel, and what it found is as `P` says.
abbrev pub Ends {ℓ} : {A : Type ℓ} → (A → Type 0) → Scan A → Type 0
Ends P (done a) = P a
Ends P (fail e) = Unit {0}
Ends P no_fuel = ⊥

Ends-bind {ℓ κ} :
    {A : Type ℓ} {B : Type κ} (P : A → Type 0) (Q : B → Type 0) (scan : Scan A) (f : A → Scan B)
    → Ends P scan
    → ((a : A) → P a → Ends Q (f a))
    → Ends Q (scan >>= f)
Ends-bind P Q (done a) f h k = k a h
Ends-bind P Q (fail e) f h k = tt
Ends-bind P Q no_fuel f h k = absurd h

Ends-if {ℓ} :
    {A : Type ℓ} (P : A → Type 0) (test : Bool) (x y : Scan A)
    → Ends P x
    → Ends P y
    → Ends P (if test then x else y)
Ends-if P true x y hx hy = hx
Ends-if P false x y hx hy = hy

Ends-unless {ℓ} :
    {A : Type ℓ} (P : A → Type 0) (test : Bool) (x y : Scan A)
    → Ends P x
    → (test ≡ false → Ends P y)
    → Ends P (if test then x else y)
Ends-unless P true x y hx hy = hx
Ends-unless P false x y hx hy = hy refl

Ends-option {ℓ κ} :
    {A : Type ℓ} {B : Type κ} (P : B → Type 0) (o : Option A) (x : Scan B) (f : A → Scan B)
    → Ends P x
    → ((a : A) → Ends P (f a))
    → Ends P (elim o [ some a ↦ f a | none ↦ x ])
Ends-option P (some a) x f hx hf = hf a
Ends-option P none x f hx hf = hx

Ends-not {ℓ} : {A : Type ℓ} (P : A → Type 0) (scan : Scan A) → Ends P scan → scan ≢ no_fuel
Ends-not P scan h e = subst (Ends P) e h

skip_stars-length : (s : Bytes) → length (Lexer.skip_stars s) ≤ length s
unfolding Lexer.skip_stars
skip_stars-length [] = omega arith
skip_stars-length (c ∷ s) = keep (c == b'*') (skip_stars-length s)
  where
    keep :
        (star : Bool)
        → length (Lexer.skip_stars s) ≤ length s
        → length (if star then Lexer.skip_stars s else c ∷ s) ≤ suc (length s)
    keep true h = omega (arith, h)
    keep false h = omega arith

comment_body-length :
    (star : Bool) (line : ℕ) (s : Bytes) → length (Lexer.comment_body star line s).0 ≤ length s
unfolding Lexer.comment_body
comment_body-length star line [] = omega arith
comment_body-length star line (c ∷ s) =
    let line' = if c == b'\n' then line + 1 else line in
    keep (star && c == b'/') (Lexer.comment_body (c == b'*') line' s)
      (comment_body-length (c == b'*') line' s)
  where
    keep :
        (closed : Bool) (behind : Bytes × ℕ)
        → length behind.0 ≤ length s
        → length (if closed then (s, line) else behind).0 ≤ suc (length s)
    keep true behind h = omega arith
    keep false behind h = omega (arith, h)

skip_comment-length : (line : ℕ) (s : Bytes) → length (Lexer.skip_comment line s).0 ≤ length s
unfolding Lexer.skip_comment
skip_comment-length line s =
    omega (arith, skip_stars-length s, comment_body-length false line (Lexer.skip_stars s))

-- A string that has been read, with the bytes behind it: fewer than `n`.
abbrev Fewer : ℕ → Bytes × Bytes → Type 0
Fewer n (out, behind) = length behind < n

push-Ends :
    (m n line count c : ℕ) (rest : Scan (Bytes × Bytes))
    → m ≤ n
    → Ends (Fewer m) rest
    → Ends (Fewer n) (Lexer.push line count c rest)
unfolding Lexer.push
push-Ends m n line count c rest le h =
    Ends-if _ (ltb 2048 (count + 1)) (fail _) _ tt
      (Ends-bind (Fewer m) (Fewer n) rest _ h (λ (out, behind) fewer. omega (arith, fewer, le)))

scan_string-Ends :
    (line count : ℕ) (s : Bytes) → Ends (Fewer (suc (length s))) (Lexer.scan_string line count s)
unfolding Lexer.scan_string
scan_string-Ends line count [] = tt
scan_string-Ends line count (c ∷ []) = Ends-if _ (c == b'"') _ _ (omega arith) (
    Ends-if _ (c == b'\n') _ _ tt
      (Ends-if _ (c == b'\t') _ _ tt (push-Ends 1 2 line count c (fail _) (omega arith) tt)))
scan_string-Ends line count (c ∷ d ∷ s) =
    let n = suc (suc (suc (length s))) in
    Ends-if _ (c == b'"') _ _ (omega arith) (
      Ends-if _ (c == b'\n') _ _ tt (
        Ends-if _ (c == b'\t') _ _ tt (
          Ends-if _ (c == b'\\' && d == b'"') _ _
            (push-Ends (suc (length s)) n line count b'"' (Lexer.scan_string line (count + 1) s)
              (omega arith) (scan_string-Ends line (count + 1) s))
            (push-Ends (suc (suc (length s))) n line count (if c == b'\\' then b' ' else c)
              (Lexer.scan_string line (count + 1) (d ∷ s)) (omega arith)
              (scan_string-Ends line (count + 1) (d ∷ s))))))

module _ (symtable : List Symbol) where
  keyword_or_identifier-Ends :
      (text : Bytes) (line : ℕ)
      → Ends (λ t. Unit {0}) (Lexer.keyword_or_identifier symtable text line)
  unfolding Lexer.keyword_or_identifier
  keyword_or_identifier-Ends text line = Ends-if _ (Lexer.is_main text) (done Tok.main) _ tt (
      Ends-option _ (Lexer.asn_name text) _ (λ a. done (Tok.asn_type a))
        (Ends-option _ (Lexer.tlv_word text) _ (λ t. done t)
          (Ends-option _ (find_by_name symtable text) (fail _)
            (λ row. done (Lexer.symbol_token text row)) tt (λ row. tt))
          (λ t. tt))
        (λ a. tt))

  classify-Ends :
      (p : Pat) (text : Bytes) (line : ℕ)
      → Ends (λ t. Unit {0}) (Lexer.classify symtable p text line)
  unfolding Lexer.classify
  classify-Ends Pat.submgt_filters text line = tt
  classify-Ends Pat.ip text line = tt
  classify-Ends Pat.ip_list text line = tt
  classify-Ends Pat.hex_string text line = tt
  classify-Ends Pat.ethermask text line = tt
  classify-Ends Pat.ip_ip6_port text line = tt
  classify-Ends Pat.ip6_port text line = tt
  classify-Ends Pat.mac text line = tt
  classify-Ends Pat.label_oid text line = tt
  classify-Ends Pat.label_oid_quoted text line = tt
  classify-Ends Pat.label_oid_text text line = tt
  classify-Ends Pat.time_ticks text line = tt
  classify-Ends Pat.ip6 text line = tt
  classify-Ends Pat.ip6_prefix_list text line = tt
  classify-Ends Pat.ip6_list text line = tt
  classify-Ends Pat.integer text line = tt
  classify-Ends Pat.word text line = keyword_or_identifier-Ends text line

-- What has been found stands before fewer than `n` bytes.
abbrev Before : ℕ → Next → Type 0
Before n none = Unit {0}
Before n (some (t, behind, line)) = length behind < n

Before-le : (m n : ℕ) (found : Next) → m ≤ n → Before m found → Before n found
Before-le m n none le h = tt
Before-le m n (some (t, behind, line)) le h = omega (arith, h, le)

Ends-le : (m n : ℕ) (scan : Scan Next) → m ≤ n → Ends (Before m) scan → Ends (Before n) scan
Ends-le m n (done found) le h = Before-le m n found le h
Ends-le m n (fail e) le h = tt
Ends-le m n no_fuel le h = absurd h

module _ (symtable : List Symbol) (ipv6 : Ipv6Text) where
  pattern_token-Ends :
      (line c : ℕ) (s : Bytes)
      → Ends (Before (suc (length s))) (Lexer.pattern_token symtable ipv6 line (c ∷ s) c)
  unfolding Lexer.pattern_token
  pattern_token-Ends line c s =
      let (p, len) = Lexer.longest_match ipv6 (c ∷ s) in
      let text = take len (c ∷ s) in
      Ends-unless _ (len == 0) (fail _) _ tt (λ some_bytes.
        Ends-bind (λ t. Unit {0}) _ (Lexer.classify symtable p text line) _
          (classify-Ends symtable p text line) (λ t _. shorter len (ground (arith, some_bytes))))
    where
      shorter : (len : ℕ) → 0 < len → length (drop len (c ∷ s)) < suc (length s)
      shorter len h = omega (arith, h, length-drop len (c ∷ s))

  next_token-Ends :
      (fuel line : ℕ) (s : Bytes)
      → length s ≤ fuel
      → Ends (Before (length s)) (Lexer.next_token symtable ipv6 fuel line s)
  unfolding Lexer.next_token Lexer.string_token
  next_token-Ends fuel line [] short = tt
  next_token-Ends zero line (c ∷ s) short = absurd (omega arith)
  next_token-Ends (suc fuel) line (c ∷ s) short =
      let n = length s in
      let after = Lexer.skip_comment line s in
      let again : (line' : ℕ) (behind : Bytes)
          → length behind ≤ n
          → Ends (Before (suc n)) (Lexer.next_token symtable ipv6 fuel line' behind) =
        λ line' behind le.
          Ends-le (length behind) (suc n) (Lexer.next_token symtable ipv6 fuel line' behind)
            (omega (arith, le)) (next_token-Ends fuel line' behind (omega (arith, le, short))) in
      Ends-if _ (c == b' ' || c == b'\t' || c == b'\r') _ _ (again line s (omega arith)) (
        Ends-if _ (c == b'\n') _ _ (again (line + 1) s (omega arith)) (
          Ends-if _ (c == b'/' && head_is b'*' s) _ _
            (again after.1 after.0 (skip_comment-length line s))
            (Ends-if _ (c == b'"') _ _
              (Ends-bind (Fewer (suc n)) _ (Lexer.scan_string line 0 s) _
                (scan_string-Ends line 0 s) (λ (out, behind) fewer. fewer))
              (Ends-if _ (c == b'{') _ _ (omega arith) (
                Ends-if _ (c == b'}') _ _ (omega arith)
                  (Ends-if _ (c == b';') _ _ (omega arith) (pattern_token-Ends line c s)))))))

  tokens_from-Ends :
      (fuel line : ℕ) (s : Bytes)
      → length s < fuel
      → Ends (λ ts. Unit {0}) (Lexer.tokens_from symtable ipv6 fuel line s)
  unfolding Lexer.tokens_from
  tokens_from-Ends zero line s short = absurd (omega arith)
  tokens_from-Ends (suc fuel) line s short =
      Ends-bind (Before (length s)) _ (Lexer.next_token symtable ipv6 (length s) line s) _
        (next_token-Ends (length s) line s (omega arith))
        (again
          λ line' behind fewer. tokens_from-Ends fuel line' behind (omega (arith, fewer, short)))
    where
      again :
          ((line' : ℕ) (behind : Bytes)
            → length behind < length s
            → Ends (λ ts. Unit {0}) (Lexer.tokens_from symtable ipv6 fuel line' behind))
          → (found : Next) → Before (length s) found
          → Ends
              (λ ts. Unit {0})
              (elim found [
                | none ↦ done []
                | some (t, behind, line') ↦
                    Lexer.tokens_from symtable ipv6 fuel line' behind >>= λ ts. done (t ∷ ts)
              ])
      again h none before = tt
      again h (some (t, behind, line')) before =
          Ends-bind (λ ts. Unit {0}) _ (Lexer.tokens_from symtable ipv6 fuel line' behind) _
            (h line' behind before) (λ ts _. tt)

  -- Scanning a text comes to an end, whatever the text: it gives tokens or an error. The loops over
  -- the tokens and over what stands between them have fuel, and the text's length is enough; the
  -- loops inside a token go over its bytes.
  pub tokenize_ends : (s : Bytes) → Lexer.tokenize symtable ipv6 s ≢ no_fuel
  unfolding Lexer.tokenize
  tokenize_ends s = Ends-not _ _ (tokens_from-Ends (suc (length s)) 1 s (omega arith))

-- ===== src/Lexer/Bounds/Shapes.antt =====
-- src/lexer.rs: how long the matches of numbers, addresses, words and lists of them can be.
use mathlib.Core.Option
use docsis_config_generator.Common.{
  ℕ, zero, suc, ◌+◌, ◌≤◌, ◌<◌, ◌≡◌, refl, Bool, true, false, ◌&&◌, ◌||◌, not, Option, none, some,
  [], ◌∷◌, Bytes, length, drop, length-drop, ltb, ◌==◌, if◌then◌else◌, arith,
}
use docsis_config_generator.Text.{is_digit}
use docsis_config_generator.Lexer.Matchers
use docsis_config_generator.Lexer.Matchers.{
  span, digits, number, groups, head_is, then_match, filters_loop, items, is_hex, hex_groups,
  label_ends, best_tail,
}

-- A match of at most `n` bytes, if there is one.
abbrev Fits : ℕ → Option ℕ → Type 0
Fits n none = Unit {0}
Fits n (some k) = k ≤ n

Fits-get_or : (n : ℕ) (found : Option ℕ) → Fits n found → Option.get_or found 0 ≤ n
Fits-get_or n none h = omega arith
Fits-get_or n (some k) h = h

Fits-if :
    (n : ℕ) (test : Bool) (x y : Option ℕ) → Fits n x → Fits n y → Fits n (if test then x else y)
Fits-if n true x y hx hy = hx
Fits-if n false x y hx hy = hy

Fits-test :
    (n : ℕ) (test : Bool) (x y : Option ℕ)
    → (test ≡ true → Fits n x)
    → (test ≡ false → Fits n y)
    → Fits n (if test then x else y)
Fits-test n true x y hx hy = hx refl
Fits-test n false x y hx hy = hy refl

pub le-test :
    (n : ℕ) (test : Bool) (x y : ℕ)
    → (test ≡ true → x ≤ n)
    → (test ≡ false → y ≤ n)
    → (if test then x else y) ≤ n
le-test n true x y hx hy = hx refl
le-test n false x y hx hy = hy refl

-- A match behind `k` bytes.
Fits-map :
    (n m k : ℕ) (found : Option ℕ)
    → (k + m ≤ n)
    → Fits m found
    → Fits n (Option.map (λ j. k + j) found)
Fits-map n m k none le h = tt
Fits-map n m k (some j) le h = omega (arith, le, h)

pub le-if : (n : ℕ) (test : Bool) (x y : ℕ) → x ≤ n → y ≤ n → (if test then x else y) ≤ n
le-if n true x y hx hy = hx
le-if n false x y hx hy = hy

-- A byte stands at the front of the list behind the first `n`.
pub head_is-lt : (c n : ℕ) (s : Bytes) → head_is c (drop n s) ≡ true → n < length s
head_is-lt c zero [] h = ground arith
head_is-lt c zero (d ∷ s) h = omega arith
head_is-lt c (suc n) [] h = ground arith
head_is-lt c (suc n) (d ∷ s) h = omega (arith, head_is-lt c n s h)

pub span-length : (test : ℕ → Bool) (s : Bytes) → span test s ≤ length s
unfolding span
span-length test [] = omega arith
span-length test (c ∷ s) = le-if _ (test c) _ _ (omega (arith, span-length test s)) (omega arith)

number-Fits : (s : Bytes) → Fits (length s) (number s)
unfolding number
number-Fits s = Fits-if _ (digits s == 0) none (some (digits s)) tt (span-length is_digit s)

pub passed : (a b : Bool) → (a || not b) ≡ false → b ≡ true
passed a b h = ground arith

groups-Fits : (n sep : ℕ) (s : Bytes) → Fits (length s) (groups n sep s)
unfolding groups
groups-Fits zero sep s = omega arith
groups-Fits (suc n) sep s =
    let d = digits s in
    let rest = drop (d + 1) s in
    Fits-test (length s) (d == 0 || not (head_is sep (drop d s))) none
      (Option.map (λ k. d + 1 + k) (groups n sep rest)) (λ _. tt)
      (λ found.
        Fits-map (length s) (length rest) (d + 1) (groups n sep rest)
          (omega (arith, length-drop (d + 1) s, head_is-lt sep d s (passed (d == 0) _ found)))
          (groups-Fits n sep rest))

then_match-Fits :
    (first : Option ℕ) (second : Bytes → Option ℕ) (s : Bytes)
    → Fits (length s) first
    → ((t : Bytes) → Fits (length t) (second t))
    → Fits (length s) (then_match first second s)
unfolding Option.bind
then_match-Fits none second s h hs = tt
then_match-Fits (some i) second s h hs =
    Fits-map (length s) (length (drop i s)) i (second (drop i s))
      (omega (arith, h, length-drop i s)) (hs (drop i s))

filters_loop-Fits :
    (room : ℕ) (first : Bool) (s : Bytes) → Fits (length s) (filters_loop room first s)
unfolding filters_loop
filters_loop-Fits zero first s = Fits-if _ first none (number s) tt (number-Fits s)
filters_loop-Fits (suc room) first s =
    let d = digits s in
    let n = length s in
    let rest = drop (d + 1) s in
    Fits-if n (d == 0) _ _ tt (
      Fits-test n (head_is b',' (drop d s))
        (Option.map (λ k. d + 1 + k) (filters_loop room false rest)) _
        (λ comma.
          Fits-map n (length rest) (d + 1) (filters_loop room false rest)
            (omega (arith, length-drop (d + 1) s, head_is-lt b',' d s comma))
            (filters_loop-Fits room false rest))
        (λ _. Fits-if n first none (some d) tt (span-length is_digit s)))

-- What a matcher finds at the front of a text is not longer than the text.
abbrev pub Within : (Bytes → ℕ) → Type 0
Within item = (s : Bytes) → item s ≤ length s

pub m_ipv4-Within : Within Matchers.m_ipv4
unfolding Matchers.m_ipv4
m_ipv4-Within s =
    Fits-get_or _ _ (then_match-Fits (groups 3 b'.' s) number s (groups-Fits 3 b'.' s) number-Fits)

pub m_timeticks-Within : Within Matchers.m_timeticks
unfolding Matchers.m_timeticks
m_timeticks-Within s = Fits-get_or _ _ (
    then_match-Fits _ number s
      (then_match-Fits (groups 3 b':' s) (groups 1 b'.') s (groups-Fits 3 b':' s)
        (groups-Fits 1 b'.'))
      number-Fits)

pub m_submgt_filters-Within : Within Matchers.m_submgt_filters
unfolding Matchers.m_submgt_filters
m_submgt_filters-Within s = Fits-get_or _ _ (filters_loop-Fits 127 true s)

items-length :
    (item : Bytes → ℕ) (room : ℕ) (s : Bytes) → Within item → (items item room s).1 ≤ length s
unfolding items
items-length item zero s h = omega arith
items-length item (suc room) s h =
    let len = item s in
    let rest = drop (len + 1) s in
    ends (len == 0) (head_is b',' (drop len s)) (items item room rest) (λ comma.
      omega (
        arith,
        length-drop (len + 1) s,
        head_is-lt b',' len s comma,
        items-length item room rest h,
      ))
  where
    ends :
        (empty comma : Bool) (behind : ℕ × ℕ)
        → (comma ≡ true → item s + 1 + behind.1 ≤ length s)
        → (let more : ℕ × ℕ =
              (behind.0 + 1, if behind.0 == 0 then item s else item s + 1 + behind.1) in
            let found : ℕ × ℕ = if empty then (0, 0) else if comma then more else (1, item s) in
            found.1 ≤ length s)
    ends true comma behind le = omega arith
    ends false true behind le = le-if _ (behind.0 == 0) _ _ (h s) (le refl)
    ends false false behind le = h s

middle_passed : (a b c : Bool) → (a || not b || c) ≡ false → b ≡ true
middle_passed a b c h = ground arith

-- Two matches with the byte `c` between.
separated-le :
    (c a b : ℕ) (s : Bytes)
    → b ≤ length (drop (a + 1) s)
    → (if a == 0 || not (head_is c (drop a s)) || b == 0 then 0 else a + 1 + b) ≤ length s
separated-le c a b s h =
    le-test _ (a == 0 || not (head_is c (drop a s)) || b == 0) 0 (a + 1 + b) (λ _. omega arith)
      (λ found. omega (
        arith,
        h,
        length-drop (a + 1) s,
        head_is-lt c a s (middle_passed (a == 0) _ (b == 0) found),
      ))

pub m_list-Within : (item : Bytes → ℕ) (max : ℕ) → Within item → Within (Matchers.m_list item max)
unfolding Matchers.m_list
m_list-Within item max h s =
    le-if _ (ltb (items item max s).0 2) _ _ (omega arith) (items-length item max s h)

pub m_with_suffix_num-Within :
    (item : Bytes → ℕ) → Within item → Within (Matchers.m_with_suffix_num item)
unfolding Matchers.m_with_suffix_num
m_with_suffix_num-Within item h s =
    separated-le b'/' (item s) _ s (span-length is_digit (drop (item s + 1) s))

pub m_hexstring-Within : Within Matchers.m_hexstring
unfolding Matchers.m_hexstring
m_hexstring-Within [] = omega arith
m_hexstring-Within (a ∷ []) = omega arith
m_hexstring-Within (a ∷ b ∷ s) =
    le-if (suc (suc (length s))) (a == b'0' && (b == b'x' || b == b'X') && not (span is_hex s == 0))
      (2 + span is_hex s) 0 (omega (arith, span-length is_hex s)) (omega arith)

hex_groups-Fits : (n : ℕ) (s : Bytes) → Fits (length s) (hex_groups n s)
unfolding hex_groups
hex_groups-Fits zero [] = tt
hex_groups-Fits zero (a ∷ []) = tt
hex_groups-Fits zero (a ∷ b ∷ s) = Fits-if _ (is_hex a && is_hex b) _ none (omega arith) tt
hex_groups-Fits (suc n) [] = tt
hex_groups-Fits (suc n) (a ∷ []) = tt
hex_groups-Fits (suc n) (a ∷ b ∷ []) = tt
hex_groups-Fits (suc n) (a ∷ b ∷ c ∷ s) =
    Fits-if _ (is_hex a && is_hex b && c == b':') _ none
      (Fits-map _ (length s) 3 (hex_groups n s) (omega arith) (hex_groups-Fits n s)) tt

pub m_mac-Within : Within Matchers.m_mac
unfolding Matchers.m_mac
m_mac-Within s = Fits-get_or _ _ (hex_groups-Fits 5 s)

pub m_ethermask-Within : Within Matchers.m_ethermask
unfolding Matchers.m_ethermask
m_ethermask-Within s =
    separated-le b'/' (Matchers.m_mac s) _ s (m_mac-Within (drop (Matchers.m_mac s + 1) s))

pub m_word-Within : Within Matchers.m_word
unfolding Matchers.m_word
m_word-Within s =
    let a = span Matchers.is_alpha s in
    le-if _ (a == 0) _ _ (omega arith) (
      omega (
        arith,
        span-length Matchers.is_alpha s,
        span-length Matchers.is_alnum (drop a s),
        length-drop a s,
      ))

pub m_integer-Within : Within Matchers.m_integer
unfolding Matchers.m_integer
m_integer-Within s = signed (sign s)
  where
    sign : (t : Bytes) → (if head_is b'-' t then 1 else 0) ≤ length t
    sign [] = omega arith
    sign (c ∷ t) = le-if _ (c == b'-') _ _ (omega arith) (omega arith)

    signed : (if head_is b'-' s then 1 else 0) ≤ length s → Matchers.m_integer s ≤ length s
    signed h =
        let n = if head_is b'-' s then 1 else 0 in
        le-if _ (digits (drop n s) == 0) _ _ (omega arith)
          (omega (arith, h, length-drop n s, span-length is_digit (drop n s)))

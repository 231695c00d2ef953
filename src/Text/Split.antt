-- ===== src/Text/Split.antt =====
-- `split` and `join` at one separator.
use docsis_config_generator.Common.{
  ℕ, ◌≡◌, ◌≢◌, refl, ap, ◌∙◌, Bool, true, false, some, List, [], ◌∷◌, ◌++◌, arith, Bytes, All, map,
  ◌==◌,
}
use docsis_config_generator.Text.{split_on, split_once, split, join, nonempty}

-- No separator stands in the text.
abbrev pub Whole : (ℕ → Bool) → Bytes → Type 0
Whole is_sep = All (λ c. is_sep c ≡ false)

split-Whole : (is_sep : ℕ → Bool) (p : Bytes) → Whole is_sep p → split_on is_sep p ≡ p ∷ []
unfolding split_on
split-Whole is_sep [] h = refl
split-Whole is_sep (c ∷ p) (hc, hp) = rw (hc, split-Whole is_sep p hp)

split_at_sep :
    (is_sep : ℕ → Bool) (sep : ℕ) (p rest : Bytes)
    → is_sep sep ≡ true
    → Whole is_sep p
    → split_on is_sep (p ++ sep ∷ rest) ≡ p ∷ split_on is_sep rest
unfolding split_on
split_at_sep is_sep sep [] rest s h = rw s
split_at_sep is_sep sep (c ∷ p) rest s (hc, hp) = rw (hc, split_at_sep is_sep sep p rest s hp)

-- Splitting joined parts gives the parts back, if there is one and none holds a separator.
pub split_on-join :
    (is_sep : ℕ → Bool) (sep : ℕ) (p : Bytes) (parts : List Bytes)
    → is_sep sep ≡ true
    → Whole is_sep p
    → All (Whole is_sep) parts
    → split_on is_sep (join sep (p ∷ parts)) ≡ p ∷ parts
unfolding join
split_on-join is_sep sep p [] s h _ = split-Whole is_sep p h
split_on-join is_sep sep p (q ∷ parts) s h (hq, hs) =
    split_at_sep is_sep sep p (join sep (q ∷ parts)) s h
    ∙ ap (λ t. p ∷ t) (split_on-join is_sep sep q parts s hq hs)

-- The separator does not stand in the text.
abbrev pub Lacks : ℕ → Bytes → Type 0
Lacks sep = All (λ c. c ≢ sep)

Whole-Lacks : (sep : ℕ) (p : Bytes) → Lacks sep p → Whole (λ c. c == sep) p
Whole-Lacks sep [] h = tt
Whole-Lacks sep (c ∷ p) (h, hs) = (ground arith, Whole-Lacks sep p hs)

All-Whole :
    (sep : ℕ) (parts : List Bytes) → All (Lacks sep) parts → All (Whole (λ c. c == sep)) parts
All-Whole sep [] h = tt
All-Whole sep (p ∷ parts) (h, hs) = (Whole-Lacks sep p h, All-Whole sep parts hs)

pub split-join :
    (sep : ℕ) (p : Bytes) (parts : List Bytes)
    → Lacks sep p
    → All (Lacks sep) parts
    → split sep (join sep (p ∷ parts)) ≡ p ∷ parts
split-join sep p parts h hs =
    split_on-join (λ c. c == sep) sep p parts (ground arith) (Whole-Lacks sep p h)
      (All-Whole sep parts hs)

pub split_once_lem :
    (sep : ℕ) (p rest : Bytes) → Lacks sep p → split_once sep (p ++ sep ∷ rest) ≡ some (p, rest)
unfolding split_once
split_once_lem sep [] rest h = ground arith
split_once_lem sep (c ∷ p) rest (hc, hp) =
    let other : (c == sep) ≡ false = ground arith in rw (other, split_once_lem sep p rest hp)

-- No part is empty.
pub nonempty-All : (parts : List Bytes) → All (λ p. p ≢ []) parts → nonempty parts ≡ parts
unfolding nonempty
nonempty-All [] h = refl
nonempty-All ([] ∷ parts) (h, hs) = absurd (h refl)
nonempty-All ((c ∷ p) ∷ parts) (h, hs) = ap (λ t. (c ∷ p) ∷ t) (nonempty-All parts hs)

module _ {ℓ κ μ} {A : Type ℓ} {B : Type κ} where
  pub All-map :
      (P : A → Type μ) (Q : B → Type μ) (f : A → B)
      → ((a : A) → P a → Q (f a))
      → (xs : List A) → All P xs
      → All Q (map f xs)
  All-map P Q f step [] h = tt
  All-map P Q f step (x ∷ xs) (h, hs) = (step x h, All-map P Q f step xs hs)

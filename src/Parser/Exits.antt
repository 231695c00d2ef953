-- ===== src/Parser/Exits.antt =====
-- src/parser.rs: how parsing can end. A reader comes to an end, and leaves no more tokens than it
-- was given; each statement takes one at least.
use docsis_config_generator.Common
use docsis_config_generator.Common.{
  ℕ, zero, suc, ◌+◌, ◌≤◌, ◌<◌, ◌≡◌, refl, ap, subst, Bool, true, false, ◌||◌, Option, none, some,
  List, [], ◌∷◌, ◌++◌, Bytes, ltb, leb, ◌==◌, if◌then◌else◌, length, take, drop, ℤ, pos, Run, ok,
  exit, panic, out_of_fuel, or_exit, arith,
}
use docsis_config_generator.Snmp.{VarValue}
use docsis_config_generator.Encode.Exits.{Stops, Stops-or_exit, encoder_code}
use docsis_config_generator.Lexer.{Tok, AsnType}
use docsis_config_generator.Assemble.Tree.{Tlvs}
use docsis_config_generator.Parser
use docsis_config_generator.Parser.Reading
use docsis_config_generator.Parser.Reading.{
  Parse, ◌>>=◌, ◌>>◌, return, error, lift, bump, expect, as_main, as_hex_string, as_ip, as_asn_type,
  as_tlv_code, as_tlv_value, at_l_brace, at_end,
}

-- The codes of the parser: those of the encoders, and 251 for files.
abbrev pub parser_code : ℕ → Bool
parser_code c = c == 241 || c == 245 || c == 251 || c == 255

-- What a reader must do that was given `n` tokens.
abbrev pub After {ℓ} : {A : Type ℓ} → ℕ → Run (A × List Tok) → Type 0
After n (ok (a, rest)) = length rest ≤ n
After n (exit c) = parser_code c ≡ true
After n panic = ⊥
After n out_of_fuel = ⊥

-- A reader of up to `n` tokens.
abbrev pub Reads : {A : Type 0} → ℕ → Parse A → Type 0
Reads n m = (toks : List Tok) → length toks ≤ n → After (length toks) (m toks)

pub After-bind :
    {A B : Type 0} (n : ℕ) (run : Run (A × List Tok)) (f : A × List Tok → Run (B × List Tok))
    → After n run
    → ((a : A) (rest : List Tok) → length rest ≤ n → After n (f (a, rest)))
    → After n (Common.◌>>=◌ run f)
After-bind n (ok (a, rest)) f h k = k a rest h
After-bind n (exit c) f h k = h
After-bind n panic f h k = absurd h
After-bind n out_of_fuel f h k = absurd h

pub After-le : {A : Type 0} (m n : ℕ) (run : Run (A × List Tok)) → m ≤ n → After m run → After n run
After-le m n (ok (a, rest)) le h = omega (arith, le, h)
After-le m n (exit c) le h = h
After-le m n panic le h = absurd h
After-le m n out_of_fuel le h = absurd h

pub Reads-bind :
    {A B : Type 0} (n : ℕ) (m : Parse A) (f : A → Parse B)
    → Reads n m
    → ((a : A) → Reads n (f a))
    → Reads n (m >>= f)
Reads-bind n m f h k toks le = After-bind (length toks) (m toks) _ (h toks le) (λ a rest fewer.
    After-le (length rest) (length toks) (f a rest) fewer (k a rest (omega (arith, fewer, le))))

Reads-return : {A : Type 0} (n : ℕ) (a : A) → Reads n (return a)
Reads-return n a toks le = omega arith

pub Reads-error : (A : Type 0) (n : ℕ) → Reads n (error {A = A})
Reads-error A n toks le = refl

pub Reads-expect : {A : Type 0} (n : ℕ) (want : Tok → Option A) → Reads n (expect want)
unfolding expect
Reads-expect n want [] le = refl
Reads-expect {A} n want (t ∷ toks) le = choose (want t)
  where
    choose :
        (found : Option A)
        → After (suc (length toks)) (elim found [ some a ↦ ok (a, toks) | none ↦ exit 255 ])
    choose (some a) = omega arith
    choose none = refl

pub Reads-lift : {A : Type 0} (n : ℕ) (run : Run A) → Stops parser_code run → Reads n (lift run)
Reads-lift n (ok a) h toks le = omega arith
Reads-lift n (exit c) h toks le = h
Reads-lift n panic h toks le = absurd h
Reads-lift n out_of_fuel h toks le = absurd h

pub Reads-if :
    {A : Type 0} (n : ℕ) (test : List Tok → Bool) (x y : Parse A)
    → Reads n x
    → Reads n y
    → Reads n (λ toks. if test toks then x toks else y toks)
Reads-if n test x y hx hy toks le = choose (test toks)
  where
    choose : (b : Bool) → After (length toks) (if b then x toks else y toks)
    choose true = hx toks le
    choose false = hy toks le

-- The forms that most readers have: one token, then a run of the codecs.
pub reads_token :
    {A B : Type 0} (n : ℕ) (want : Tok → Option A) (f : A → Parse B)
    → ((a : A) → Reads n (f a))
    → Reads n (expect want >>= f)
reads_token n want f h = Reads-bind n (expect want) f (Reads-expect n want) h

pub reads_semi : {B : Type 0} (n : ℕ) (f : Parse B) → Reads n f → Reads n (Reading.expect_semi >> f)
unfolding Reading.expect_semi
reads_semi n f h = reads_token n Reading.as_semi (λ _. f) (λ _. h)

pub reads_lift :
    {A B : Type 0} (n : ℕ) (run : Run A) (f : A → Parse B)
    → Stops parser_code run
    → ((a : A) → Reads n (f a))
    → Reads n (lift run >>= f)
reads_lift n run f stops h = Reads-bind n (lift run) f (Reads-lift n run stops) h

pub block-Reads : (n : ℕ) (list : Parse Tlvs) → Reads n list → Reads n (Parser.block list)
unfolding Reading.expect_l_brace Reading.expect_r_brace
block-Reads n list h = reads_token n Reading.as_l_brace _ (λ _.
    Reads-bind n list _ h
      (λ children. reads_token n Reading.as_r_brace _ (λ _ toks le. omega arith)))

pub var_value-Reads : (n : ℕ) (asn : AsnType) → Reads n (Parser.var_value asn)
unfolding Parser.var_value Reading.expect_integer Reading.expect_string Reading.expect_label_oid
var_value-Reads n AsnType.int = reads_token n Reading.as_integer _ (λ v toks le. omega arith)
var_value-Reads n AsnType.gauge = reads_token n Reading.as_integer _ (λ v toks le. omega arith)
var_value-Reads n AsnType.uint = reads_token n Reading.as_integer _ (λ v toks le. omega arith)
var_value-Reads n AsnType.counter = reads_token n Reading.as_integer _ (λ v toks le. omega arith)
var_value-Reads n AsnType.time_ticks = reads_token n Reading.as_integer _ (λ v toks le. omega arith)
var_value-Reads n AsnType.ip = reads_token n as_ip _ (λ t toks le. omega arith)
var_value-Reads n AsnType.str = reads_token n Reading.as_string _ (λ s toks le. omega arith)
var_value-Reads n AsnType.hex_str = reads_token n as_hex_string _ (λ hex.
    reads_lift n (or_exit (Parser.hexadecimal_to_binary hex) 255) _
      (Stops-or_exit parser_code _ 255 refl) (λ b toks le. omega arith))
var_value-Reads n AsnType.obj_id = reads_token n Reading.as_label_oid _ (λ o toks le. omega arith)
var_value-Reads n _ = Reads-error VarValue n

encoder_code-parser_code : (c : ℕ) → encoder_code c ≡ true → parser_code c ≡ true
encoder_code-parser_code c h = ground arith

pub Stops-wider : {A : Type 0} (run : Run A) → Stops encoder_code run → Stops parser_code run
Stops-wider (ok a) h = tt
Stops-wider (exit c) h = encoder_code-parser_code c h
Stops-wider panic h = absurd h
Stops-wider out_of_fuel h = absurd h

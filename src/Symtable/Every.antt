-- ===== src/Symtable/Every.antt =====
-- src/symtable.rs: tests that every row of a table passes.
use docsis_config_generator.Common.{
  ◌≡◌, sym, subst, ◌⊎◌, inl, inr, Bool, true, ◌&&◌, List, [], ◌∷◌, arith,
}
use docsis_config_generator.Symbol.{Symbol}

-- A row of the table.
abbrev pub Among : Symbol → List Symbol → Type 0
Among row [] = ⊥
Among row (first ∷ table) = (row ≡ first) ⊎ Among row table

abbrev pub every : (Symbol → Bool) → List Symbol → Bool
every test [] = true
every test (row ∷ table) = test row && every test table

pub both : (a b : Bool) → (a && b) ≡ true → (a ≡ true) × (b ≡ true)
both a b h = (ground arith, ground arith)

pub every-Among :
    (test : Symbol → Bool) (row : Symbol) (table : List Symbol)
    → Among row table
    → every test table ≡ true
    → test row ≡ true
every-Among test row [] among h = absurd among
every-Among test row (first ∷ table) (inl same) h =
    subst (λ r. test r ≡ true) (sym same) (both (test first) (every test table) h).0
every-Among test row (first ∷ table) (inr among) h =
    every-Among test row table among (both (test first) (every test table) h).1

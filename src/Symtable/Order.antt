-- ===== src/Symtable/Order.antt =====
-- src/symtable.rs: the settings form a tree.
use docsis_config_generator.Common.{
  ℕ, ◌≡◌, refl, inl, inr, Bool, true, false, ◌&&◌, ◌||◌, List, [], ◌∷◌, All, ◌==◌, arith,
}
use docsis_config_generator.Symbol.{Symbol, Render}
use docsis_config_generator.Symtable.{symtable}
use docsis_config_generator.Symtable.Every.{Among, both}

-- A row whose parents lead to a top-level setting, each of them a row that holds other settings.
pub data Reaches (table : List Symbol) : Symbol → Type 0 where
  top : (row : Symbol) → row.parent_id ≡ 0 → Reaches table row
  under :
      (parent row : Symbol)
      → Among parent table
      → parent.dec ≡ Render.aggregate
      → parent.id ≡ row.parent_id
      → Reaches table parent
      → Reaches table row

abbrev is_aggregate : Render → Bool
is_aggregate Render.aggregate = true
is_aggregate _ = false

is_aggregate-eq : (r : Render) → is_aggregate r ≡ true → r ≡ Render.aggregate
is_aggregate-eq Render.aggregate h = refl
is_aggregate-eq _ h = ground arith

abbrev has_id : ℕ → List Symbol → Bool
has_id id [] = false
has_id id (row ∷ seen) = row.id == id || has_id id seen

-- Every row's parent is 0 or one of the aggregates before it.
abbrev parents_before : List Symbol → List Symbol → Bool
parents_before seen [] = true
parents_before seen (row ∷ table) =
    (row.parent_id == 0 || has_id row.parent_id seen) && elim (is_aggregate row.dec) [
      | true ↦ parents_before (row ∷ seen) table
      | false ↦ parents_before seen table
    ]

-- An aggregate of the table that leads to the top.
abbrev IsParent : List Symbol → Symbol → Type 0
IsParent table row = Among row table × (row.dec ≡ Render.aggregate) × Reaches table row

parent-Reaches :
    (full : List Symbol) (row : Symbol) (seen : List Symbol)
    → All (IsParent full) seen
    → has_id row.parent_id seen ≡ true
    → Reaches full row
parent-Reaches full row [] good h = ground arith
parent-Reaches full row (p ∷ seen) ((here, agg, up), good) h =
    choose (p.id == row.parent_id) refl h (λ found. parent-Reaches full row seen good found)
  where
    choose :
        (same : Bool)
        → (p.id == row.parent_id) ≡ same
        → (same || has_id row.parent_id seen) ≡ true
        → (has_id row.parent_id seen ≡ true → Reaches full row)
        → Reaches full row
    choose true same h rest = under p row here agg (ground arith) up
    choose false same h rest = rest h

row-Reaches :
    (full : List Symbol) (row : Symbol) (seen : List Symbol)
    → All (IsParent full) seen
    → (row.parent_id == 0 || has_id row.parent_id seen) ≡ true
    → Reaches full row
row-Reaches full row seen good h = choose (row.parent_id == 0) refl h
  where
    choose :
        (zero : Bool)
        → (row.parent_id == 0) ≡ zero
        → (zero || has_id row.parent_id seen) ≡ true
        → Reaches full row
    choose true zero h = top row (ground arith)
    choose false zero h = parent-Reaches full row seen good h

table-Reaches :
    (full seen table : List Symbol)
    → All (IsParent full) seen
    → ((row : Symbol) → Among row table → Among row full)
    → parents_before seen table ≡ true
    → All (Reaches full) table
table-Reaches full seen [] good within h = tt
table-Reaches full seen (row ∷ table) good within h =
    let (found, rest) = both (row.parent_id == 0 || has_id row.parent_id seen) _ h in
    let up = row-Reaches full row seen good found in
    (
      up,
      go (is_aggregate row.dec) refl up rest
          (λ seen' good'. table-Reaches full seen' table good' (λ r among. within r (inr among))),
    )
  where
    go :
        (agg : Bool)
        → is_aggregate row.dec ≡ agg
        → Reaches full row
        → elim agg [ true ↦ parents_before (row ∷ seen) table | false ↦ parents_before seen table ]
          ≡ true
        → ((seen' : List Symbol)
            → All (IsParent full) seen'
            → parents_before seen' table ≡ true
            → All (Reaches full) table)
        → All (Reaches full) table
    go true agg up h again =
        again (row ∷ seen) ((within row (inl refl), is_aggregate-eq row.dec agg, up), good) h
    go false agg up h again = again seen good h

-- Every setting of the table reaches a top-level setting: its parents, up to a row of parent 0, all
-- are rows of the table, and rows that hold other settings.
pub symtable-Reaches : All (Reaches symtable) symtable
unfolding symtable
symtable-Reaches = table-Reaches symtable [] symtable tt (λ row among. among) refl

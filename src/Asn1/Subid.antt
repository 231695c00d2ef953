-- ===== src/Asn1/Subid.antt =====
-- src/asn1.rs: sub-identifiers, `encode_subid` against the loop that reads them.
use mathlib.Core.List.{reverse, reverse-cons}
use mathlib.Core.Option
use docsis_config_generator.Common.{
  ℕ, zero, suc, ◌+◌, ◌*◌, ◌/◌, ◌%◌, ◌^◌, ◌<◌, ◌≤◌, ◌≡◌, refl, ap, ◌∙◌, Bool, true, false, List, [],
  ◌∷◌, ◌++◌, map, arith, length, length-append, length-map, Bytes, IsU32, ◌≢◌, All, append_assoc,
}
use docsis_config_generator.Asn1.{subid_stack, emit_subid, encode_subid, unpack_arc, objid_loop}

abbrev IsGroup : ℕ → Type 0
IsGroup g = g < 128

-- The number that groups of seven bits spell, lowest group first.
stack_value : List ℕ → ℕ
stack_value [] = 0
stack_value (g ∷ gs) = g + 128 * stack_value gs

-- The same, highest first, behind `acc`.
spell : ℕ → List ℕ → ℕ
spell acc [] = acc
spell acc (g ∷ gs) = spell (acc * 128 + g) gs

spell_last : (acc : ℕ) (gs : List ℕ) (g : ℕ) → spell acc (gs ++ g ∷ []) ≡ spell acc gs * 128 + g
unfolding spell
spell_last acc [] g = refl
spell_last acc (x ∷ gs) g = spell_last (acc * 128 + x) gs g

spell-reverse : (gs : List ℕ) → spell 0 (reverse gs) ≡ stack_value gs
unfolding stack_value
spell-reverse [] = unfold spell in refl
spell-reverse (g ∷ gs) =
    rw (reverse-cons g gs) (omega (arith, spell_last 0 (reverse gs) g, spell-reverse gs))

le-spell : (gs : List ℕ) (acc : ℕ) → acc ≤ spell acc gs
unfolding spell
le-spell [] acc = omega arith
le-spell (g ∷ gs) acc = omega (arith, le-spell gs (acc * 128 + g))

All-reverse : (gs : List ℕ) → All IsGroup gs → All IsGroup (reverse gs)
All-reverse [] h = tt
All-reverse (g ∷ gs) (h, hs) = rw (reverse-cons g gs) (snoc (reverse gs) (All-reverse gs hs))
  where
    snoc : (xs : List ℕ) → All IsGroup xs → All IsGroup (xs ++ g ∷ [])
    snoc [] _ = (h, tt)
    snoc (x ∷ xs) (hx, hxs) = (hx, snoc xs hxs)

subid_stack-IsGroup : (room v : ℕ) → All IsGroup (subid_stack room v)
unfolding subid_stack
subid_stack-IsGroup zero v = tt
subid_stack-IsGroup (suc room) v = ground (arith, subid_stack-IsGroup room (v / 128))

-- The stack never overruns: with `room` places every number below 128 ^ room is spelled in full.
stack_value-subid_stack : (room v : ℕ) → v < 128 ^ room → stack_value (subid_stack room v) ≡ v
unfolding subid_stack stack_value
stack_value-subid_stack zero v h = omega arith
stack_value-subid_stack (suc room) v h =
    ground (arith, stack_value-subid_stack room (v / 128) (smaller room v h))
  where
    smaller : (room v : ℕ) → v < 128 ^ suc room → v / 128 < 128 ^ room
    smaller room v h = grind arith

-- One octet with the high bit set, and the last one.
high_octet :
    (first inside : Bool) (acc g : ℕ) (rest : Bytes)
    → g < 128
    → acc * 128 + g < 2 ^ 32
    → objid_loop first inside acc ((g + 0x80) ∷ rest) ≡ objid_loop first true (acc * 128 + g) rest
unfolding objid_loop
high_octet first inside acc g rest h fits =
    let low : (g + 0x80) % 128 ≡ g = omega arith in rw low (ground arith)

low_octet :
    (first inside : Bool) (acc g : ℕ) (rest : Bytes)
    → g < 128
    → acc * 128 + g < 2 ^ 32
    → objid_loop first inside acc (g ∷ rest)
      ≡ Option.map
          (λ arcs. unpack_arc first (acc * 128 + g) ++ arcs)
          (objid_loop false false 0 rest)
unfolding objid_loop
low_octet first inside acc g rest h fits =
    let low : g % 128 ≡ g = omega arith in rw low (ground arith)

objid_loop_octets :
    (gs : List ℕ) (first inside : Bool) (acc g : ℕ) (rest : Bytes)
    → All IsGroup gs
    → g < 128
    → spell acc gs * 128 + g < 2 ^ 32
    → objid_loop first inside acc (map (λ x. x + 0x80) gs ++ g ∷ rest)
      ≡ Option.map
          (λ arcs. unpack_arc first (spell acc gs * 128 + g) ++ arcs)
          (objid_loop false false 0 rest)
unfolding spell
objid_loop_octets [] first inside acc g rest hs h fits = low_octet first inside acc g rest h fits
objid_loop_octets (x ∷ gs) first inside acc g rest (hx, hs) h fits =
    high_octet first inside acc x _ hx (omega (arith, le-spell gs (acc * 128 + x)))
    ∙ objid_loop_octets gs first true (acc * 128 + x) g rest hs h fits

emit_subid_reads :
    (gs : List ℕ) (first : Bool) (rest : Bytes)
    → gs ≢ []
    → All IsGroup gs
    → stack_value gs < 2 ^ 32
    → objid_loop first false 0 (emit_subid gs ++ rest)
      ≡ Option.map
          (λ arcs. unpack_arc first (stack_value gs) ++ arcs)
          (objid_loop false false 0 rest)
unfolding emit_subid stack_value
emit_subid_reads [] first rest ne hs fits = absurd (ne refl)
emit_subid_reads (g ∷ gs) first rest ne (h, hs) fits =
    rw (append_assoc (map (λ x. x + 0x80) (reverse gs)) (g ∷ []) rest) (
      objid_loop_octets (reverse gs) first false 0 g rest (All-reverse gs hs) h
        (omega (arith, spell-reverse gs))
      ∙ ap (λ v. Option.map (λ arcs. unpack_arc first v ++ arcs) (objid_loop false false 0 rest))
          (omega (arith, spell-reverse gs)))

subid_stack-ne-nil : (room v : ℕ) → subid_stack (suc room) v ≢ []
unfolding subid_stack
subid_stack-ne-nil room v = λ e. cc

-- A `u32` that `encode_subid` wrote is read back by the loop of `parse_objid_body`, which goes on
-- with what follows; the first one is split into two arcs.
pub objid_loop-encode_subid :
    (v : ℕ) (first : Bool) (rest : Bytes)
    → IsU32 v
    → objid_loop first false 0 (encode_subid v ++ rest)
      ≡ Option.map (λ arcs. unpack_arc first v ++ arcs) (objid_loop false false 0 rest)
unfolding encode_subid
objid_loop-encode_subid v first rest h =
    let e : stack_value (subid_stack 5 v) ≡ v = stack_value-subid_stack 5 v (omega arith) in
    emit_subid_reads (subid_stack 5 v) first rest (subid_stack-ne-nil 4 v) (subid_stack-IsGroup 5 v)
      (omega arith)
    ∙ ap (λ w. Option.map (λ arcs. unpack_arc first w ++ arcs) (objid_loop false false 0 rest)) e

length-subid_stack : (room v : ℕ) → length (subid_stack room v) ≤ room
unfolding subid_stack
length-subid_stack zero v = omega arith
length-subid_stack (suc room) v = ground (arith, length-subid_stack room (v / 128))

length-reverse_ℕ : (gs : List ℕ) → length (reverse gs) ≡ length gs
length-reverse_ℕ [] = refl
length-reverse_ℕ (g ∷ gs) =
    rw (reverse-cons g gs) (omega (arith, length-append (reverse gs) (g ∷ []), length-reverse_ℕ gs))

length-emit_subid : (gs : List ℕ) → length (emit_subid gs) ≡ length gs
unfolding emit_subid
length-emit_subid [] = refl
length-emit_subid (g ∷ gs) =
    rw
      (
        length-append (map (λ x. x + 0x80) (reverse gs)) (g ∷ []),
        length-map (λ x. x + 0x80) (reverse gs),
        length-reverse_ℕ gs,
      )
      (omega arith)

-- A sub-identifier takes five octets at most.
pub length-encode_subid : (v : ℕ) → length (encode_subid v) ≤ 5
unfolding encode_subid
length-encode_subid v = rw (length-emit_subid (subid_stack 5 v)) (length-subid_stack 5 v)

-- ===== src/Assemble/Covered.antt =====
-- src/main.rs: the loops of `add_cmts_mic` come to an end on every buffer.
use docsis_config_generator.Common.{
  ℕ, zero, suc, ◌+◌, ◌≤◌, ◌≡◌, refl, Bool, true, false, ◌&&◌, List, [], ◌∷◌, ◌++◌, Bytes, length,
  take, drop, length-drop, get_or, be_value, ltb, ◌==◌, if◌then◌else◌, Run, ok, exit, panic,
  out_of_fuel, ◌>>=◌, arith,
}
use docsis_config_generator.Assemble.Sign.{select, select_all, selected, cmts_mic_tlvs}

-- The run gives a value.
abbrev pub Returns : Run Bytes → Type 0
Returns run = (out : Bytes) × (run ≡ ok out)

Returns-if :
    (test : Bool) (x y : Run Bytes) → Returns x → Returns y → Returns (if test then x else y)
Returns-if true x y hx hy = hx
Returns-if false x y hx hy = hy

Returns-behind :
    (front : Bytes) (run : Run Bytes) → Returns run → Returns (run >>= λ out. ok (front ++ out))
Returns-behind front run (out, e) = (front ++ out, rw e)

-- A round takes two bytes at least, so that there are as many rounds as bytes at most.
select-Returns : (fuel want : ℕ) (buf : Bytes) → length buf ≤ fuel → Returns (select fuel want buf)
unfolding select
select-Returns fuel want [] enough = ([], refl)
select-Returns fuel want (code ∷ []) enough = ([], refl)
select-Returns zero want (code ∷ len ∷ rest) enough = absurd (omega arith)
select-Returns (suc fuel) want (code ∷ len ∷ rest) enough =
    let buf = code ∷ len ∷ rest in
    let step = if code == 64 then be_value 0 (len ∷ get_or rest 0 0 ∷ []) + 3 else len + 2 in
    let moves : 1 ≤ step = ground arith in
    Returns-if (code == 64 && ltb (length buf) 3) _ _ ([], refl)
      (Returns-if (code == want) _ _
        (Returns-behind (take (len + 2) buf) (select fuel want (drop (len + 2) buf)) (
          select-Returns fuel want (drop (len + 2) buf)
            (omega (arith, enough, length-drop (len + 2) buf))))
        (select-Returns fuel want (drop step buf)
          (omega (arith, enough, moves, length-drop step buf))))

select_all-Returns : (wants : List ℕ) (buf : Bytes) → Returns (select_all wants buf)
unfolding select_all
select_all-Returns [] buf = ([], refl)
select_all-Returns (want ∷ wants) buf =
    let (first, e) = select-Returns (length buf) want buf (omega arith) in
    let (others, f) = select_all-Returns wants buf in (first ++ others, rw (e, f))

abbrev value_of : Run Bytes → Bytes
value_of (ok out) = out
value_of _ = []

value_of-Returns : (run : Run Bytes) → Returns run → run ≡ ok (value_of run)
value_of-Returns (ok out) h = refl
value_of-Returns (exit code) (out, e) = cc
value_of-Returns panic (out, e) = cc
value_of-Returns out_of_fuel (out, e) = cc

-- What the CMTS MIC covers.
abbrev pub covered_by : Bytes → Bytes
covered_by buf = value_of (selected buf)

-- The selection ends on every buffer.
pub selected-covered_by : (buf : Bytes) → selected buf ≡ ok (covered_by buf)
unfolding selected
selected-covered_by buf =
    value_of-Returns (select_all cmts_mic_tlvs buf) (select_all-Returns cmts_mic_tlvs buf)

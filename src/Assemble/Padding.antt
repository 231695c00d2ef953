-- ===== src/Assemble/Padding.antt =====
-- src/main.rs: the end marker and the padding.
use docsis_config_generator.Common.{
  ℕ, ◌-◌, ◌%◌, ◌<◌, ◌≡◌, ◌≢◌, refl, [], ◌∷◌, ◌++◌, length, replicate, Bytes, arith, length-append,
  length-replicate, append_assoc,
}
use docsis_config_generator.Assemble.Sign.{add_eod_and_pad}

-- A file that is not empty gets the end marker 255 and at most three zero bytes, and its length is
-- then a multiple of four.
pub add_eod_and_pad_lem :
    (buf : Bytes)
    → buf ≢ []
    → (pad : ℕ) × (add_eod_and_pad buf ≡ buf ++ 255 ∷ replicate pad 0)
      × (pad < 4)
      × (length (add_eod_and_pad buf) % 4 ≡ 0)
unfolding add_eod_and_pad
add_eod_and_pad_lem [] ne = absurd (ne refl)
add_eod_and_pad_lem (b ∷ bs) ne =
    let marked = (b ∷ bs) ++ 255 ∷ [] in
    let pad = (4 - length marked % 4) % 4 in
    (
      pad,
      append_assoc (b ∷ bs) (255 ∷ []) (replicate pad 0),
      omega arith,
      omega (
        arith,
        length-append marked (replicate pad 0),
        length-replicate pad (let z : ℕ = 0 in z),
      ),
    )

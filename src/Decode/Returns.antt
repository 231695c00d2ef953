-- ===== src/Decode/Returns.antt =====
-- src/decode.rs: what the decoders of settings that hold no others leave in the decoder.
use docsis_config_generator.Common.{
  ℕ, ◌≡◌, refl, ap, ◌∙◌, Bool, true, false, Option, none, some, ◌∷◌, ◌++◌, length, Bytes, Run, ok,
  exit, panic, out_of_fuel, ◌>>=◌, ltb, ◌==◌, if◌then◌else◌, sym, append_assoc,
}
use docsis_config_generator.Text.{ascii}
use docsis_config_generator.Symbol.{Symbol, Render}
use docsis_config_generator.Decode
use docsis_config_generator.Decode.{Decoder, Settings}
use docsis_config_generator.Decode.Leaf
use docsis_config_generator.Snmp.{decode_vbind}

-- The decoder has come back to its depth of indentation and has written `t` behind its text.
abbrev pub Wrote : Decoder → Decoder → Type 0
Wrote d d' = (d'.tabs ≡ d.tabs) × (t : Bytes) × (d'.out ≡ d.out ++ t)

-- A run that does not run out of fuel and, when it does not end the process, has only written.
abbrev pub Returns : Decoder → Run Decoder → Type 0
Returns d (ok d') = Wrote d d'
Returns d (exit code) = Unit {0}
Returns d panic = Unit {0}
Returns d out_of_fuel = ⊥

pub Wrote-trans : (a b c : Decoder) → Wrote a b → Wrote b c → Wrote a c
Wrote-trans a b c (tabs, t, out) (tabs', t', out') =
    (tabs' ∙ tabs, t ++ t', out' ∙ ap (λ x. x ++ t') out ∙ append_assoc a.out t t')

pub Returns-trans : (a b : Decoder) (run : Run Decoder) → Wrote a b → Returns b run → Returns a run
Returns-trans a b (ok c) h k = Wrote-trans a b c h k
Returns-trans a b (exit code) h k = tt
Returns-trans a b panic h k = tt
Returns-trans a b out_of_fuel h k = absurd k

pub Returns-bind :
    (a d : Decoder) (run : Run Decoder) (f : Decoder → Run Decoder)
    → Returns a run
    → ((d' : Decoder) → Wrote a d' → Returns d (f d'))
    → Returns d (run >>= f)
Returns-bind a d (ok d') f h k = k d' h
Returns-bind a d (exit code) f h k = tt
Returns-bind a d panic f h k = tt
Returns-bind a d out_of_fuel f h k = absurd h

-- A text that is made without fuel.
abbrev pub Made : Run Bytes → Type 0
Made (ok t) = Unit {0}
Made (exit code) = Unit {0}
Made panic = Unit {0}
Made out_of_fuel = ⊥

pub Returns-write_run :
    (d : Decoder) (text : Run Bytes) → Made text → Returns d (Decode.write_run d text)
Returns-write_run d (ok t) h = (refl, t, refl)
Returns-write_run d (exit code) h = tt
Returns-write_run d panic h = tt
Returns-write_run d out_of_fuel h = absurd h

pub Made-if : (b : Bool) (x y : Run Bytes) → Made x → Made y → Made (if b then x else y)
Made-if true x y hx hy = hx
Made-if false x y hx hy = hy

pub Made-need_len : (n : ℕ) (v t : Bytes) → Made (Leaf.need_len n v (ok t))
Made-need_len n v t = Made-if (length v == n) (ok t) (exit 211) tt tt

pub plain_write : (d : Decoder) (t : Bytes) → Wrote d (Decode.write d t)
plain_write d t = (refl, t, refl)

pub checked_write :
    (d : Decoder) (n : ℕ) (v t : Bytes) → Returns d (Decode.write_run d (Leaf.need_len n v (ok t)))
checked_write d n v t = Returns-write_run d (Leaf.need_len n v (ok t)) (Made-need_len n v t)

pub Wrote-if : (b : Bool) (d x y : Decoder) → Wrote d x → Wrote d y → Wrote d (if b then x else y)
Wrote-if true d x y hx hy = hx
Wrote-if false d x y hx hy = hy

pub decode_hexstr_lem :
    (d : Decoder) (sym : Symbol) (v : Bytes) → Wrote d (Decode.decode_hexstr d sym v)
unfolding Decode.decode_hexstr
decode_hexstr_lem d sym v =
    let text = Leaf.decode_hexstr sym v in
    let d' = Decode.write d text in
    Wrote-if (Decode.vendor_block sym v) d (record d' { vspecific = true }) d' (refl, text, refl)
      (refl, text, refl)

-- What a leaf decoder's run must do, where there is one.
abbrev pub ReturnsIfLeaf : Decoder → Option (Run Decoder) → Type 0
ReturnsIfLeaf d (some run) = Returns d run
ReturnsIfLeaf d none = Unit {0}

module _ (s : Settings) where
  pub plain_object_lem :
      (d : Decoder) (sym : Symbol) (v : Bytes) → Wrote d (Decode.plain_object s d sym v)
  unfolding Decode.plain_object
  plain_object_lem d sym v = either (Decode.dialplan_body s v)
    where
      -- The two records of the source, over any outcome of the test.
      either :
          (found : Option Bytes)
          → Wrote d (elim found [
            | some body ↦ record d {
              out = d.out ++ ascii "DigitMap \"dialplan_output.txt\"; /* file created. */\n";
              dialplan = some body;
            }
            | none ↦
                Decode.write d
                  (sym.ident ++ b' ' ∷ (decode_vbind s.mib v s.numeric_oids ++ ascii "\n"))
          ])
      either (some body) = (refl, _, refl)
      either none = (refl, _, refl)

  pub decode_snmp_object_lem :
      (d : Decoder) (sym : Symbol) (v : Bytes) → Wrote d (Decode.decode_snmp_object s d sym v)
  unfolding Decode.decode_snmp_object
  decode_snmp_object_lem d sym v = Wrote-if _ d _ _ (refl, _, refl) (plain_object_lem d sym v)

  pub leaf_lem :
      (r : Render) (d : Decoder) (sym : Symbol) (v : Bytes)
      → ReturnsIfLeaf d (Decode.leaf s r d sym v)
  unfolding Decode.leaf Leaf.decode_uint Leaf.decode_uint24 Leaf.decode_ushort Leaf.decode_ip
      Leaf.decode_ip6 Leaf.decode_ether Leaf.decode_dual_qtag Leaf.decode_ethermask Leaf.decode_md5
  leaf_lem Render.aggregate d sym v = tt
  leaf_lem Render.special d sym v = plain_write d _
  leaf_lem Render.uint d sym v = checked_write d 4 v _
  leaf_lem Render.uint24 d sym v = Returns-write_run d _ (Made-if (ltb (length v) 3) panic _ tt tt)
  leaf_lem Render.ushort d sym v = checked_write d 2 v _
  leaf_lem Render.uchar d sym v = plain_write d _
  leaf_lem Render.ip d sym v = checked_write d 4 v _
  leaf_lem Render.ip_list d sym v = plain_write d _
  leaf_lem Render.ip6 d sym v = checked_write d 16 v _
  leaf_lem Render.ip6_list d sym v = plain_write d _
  leaf_lem Render.ip6_prefix_list d sym v = plain_write d _
  leaf_lem Render.ip_ip6 d sym v = plain_write d _
  leaf_lem Render.char_ip_ip6 d sym v = plain_write d _
  leaf_lem Render.ip_ip6_port d sym v = plain_write d _
  leaf_lem Render.lenzero d sym v = plain_write d _
  leaf_lem Render.ether d sym v = checked_write d 6 v _
  leaf_lem Render.dual_qtag d sym v = checked_write d 4 v _
  leaf_lem Render.char_list d sym v = plain_write d _
  leaf_lem Render.ethermask d sym v = checked_write d 12 v _
  leaf_lem Render.md5 d sym v = checked_write d 16 v _
  leaf_lem Render.oid d sym v = plain_write d _
  leaf_lem Render.snmp_object d sym v = decode_snmp_object_lem d sym v
  leaf_lem Render.snmp_wd d sym v = plain_write d _
  leaf_lem Render.string d sym v = plain_write d _
  leaf_lem Render.strzero d sym v = plain_write d _
  leaf_lem Render.hexstr d sym v = decode_hexstr_lem d sym v
  leaf_lem Render.ushort_list d sym v = plain_write d _

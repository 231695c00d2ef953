-- ===== src/Decode/Termination.antt =====
-- src/decode.rs: the decoder's loops come to an end, and what a run leaves in the decoder.
use docsis_config_generator.Common.{
  ℕ, zero, suc, ◌+◌, ◌-◌, ◌≤◌, ◌≡◌, refl, ap, ◌∙◌, Bool, true, false, ◌||◌, ◌&&◌, ◌⊎◌, inl, inr,
  Option, none, some, [], ◌∷◌, ◌++◌, length, take, drop, get_or, Bytes, Run, ok, exit, panic,
  out_of_fuel, ◌>>=◌, ◌==◌, if◌then◌else◌, sym, append_assoc, append-nil, arith, length-take,
  length-drop,
}
use docsis_config_generator.Text.{ascii}
use docsis_config_generator.Symbol.{Symbol}
use docsis_config_generator.Decode
use docsis_config_generator.Decode.{Decoder, Settings}
use docsis_config_generator.Decode.Returns.{
  Wrote, Returns, Wrote-trans, Returns-trans, Returns-bind, plain_write, ReturnsIfLeaf, leaf_lem,
}

module _ (s : Settings) where
  -- A loop over settings that returns on every value of up to `n` bytes.
  abbrev ReturnsUpTo : ℕ → (Decoder → ℕ → Bytes → Run Decoder) → Type 0
  ReturnsUpTo n settings =
      (d : Decoder) (pid : ℕ) (v : Bytes) → length v ≤ n → Returns d (settings d pid v)

  decode_aggregate_lem :
      (n : ℕ) (settings : Decoder → ℕ → Bytes → Run Decoder)
      → ReturnsUpTo n settings
      → (d : Decoder) (sym : Symbol) (v : Bytes) → length v ≤ n
      → Returns d (Decode.decode_aggregate s settings d sym v)
  unfolding Decode.decode_aggregate
  decode_aggregate_lem n settings h d sym v short =
      let named = Decode.write d (sym.ident ++ ascii "\n") in
      let opened = Decode.write (Decode.indent named) (ascii "{\n") in
      let inner : Decoder = record opened { tabs = d.tabs + 1 } in
      let before : Wrote d opened = Wrote-trans d named opened (plain_write d _) (
        Wrote-trans named (Decode.indent named) opened (plain_write named _)
          (plain_write (Decode.indent named) _)) in
      Returns-bind inner d (settings inner sym.id v) _ (h inner sym.id v short)
        (λ d' (tabs, t, out).
          let outer : Decoder = record d' { tabs = d'.tabs - 1 } in
          let within : Wrote opened outer = (omega (arith, tabs), t, out) in
          let closed = Decode.indent outer in
          Wrote-trans d outer (Decode.write closed (ascii "}\n"))
            (Wrote-trans d opened outer before within)
            (Wrote-trans outer closed (Decode.write closed (ascii "}\n")) (plain_write outer _)
              (plain_write closed _)))

  dispatch_lem :
      (n : ℕ) (settings : Decoder → ℕ → Bytes → Run Decoder)
      → ReturnsUpTo n settings
      → (d : Decoder) (sym : Symbol) (v : Bytes) → length v ≤ n
      → Returns d (Decode.dispatch s settings d sym v)
  unfolding Decode.dispatch
  dispatch_lem n settings h d sym v short =
      choose (Decode.leaf s sym.dec d sym v) (leaf_lem s sym.dec d sym v)
    where
      choose :
          (run : Option (Run Decoder))
          → ReturnsIfLeaf d run
          → Returns d (elim run [ some r ↦ r | none ↦ Decode.decode_aggregate s settings d sym v ])
      choose (some run) k = k
      choose none k = decode_aggregate_lem n settings h d sym v short

  decode_tlv_lem :
      (n : ℕ) (settings : Decoder → ℕ → Bytes → Run Decoder)
      → ReturnsUpTo n settings
      → (d : Decoder) (sym : Option Symbol) (buf : Bytes) (header vlen : ℕ)
      → length buf ≤ n + header
      → Returns d (Decode.decode_tlv s settings d sym buf header vlen)
  unfolding Decode.decode_tlv
  decode_tlv_lem n settings h d (some sym) buf header vlen short =
      dispatch_lem n settings h d sym (take vlen (drop header buf))
        (omega (arith, length-take vlen (drop header buf), length-drop header buf))
  decode_tlv_lem n settings h d none buf header vlen short = plain_write d _

  decode_settings_lem :
      (fuel : ℕ) (d : Decoder) (pid : ℕ) (v : Bytes)
      → length v ≤ fuel
      → Returns d (Decode.decode_settings s fuel d pid v)
  unfolding Decode.decode_settings
  decode_settings_lem fuel d pid [] short = (refl, [], sym (append-nil d.out))
  decode_settings_lem zero d pid (code ∷ rest) short = absurd (omega arith)
  decode_settings_lem (suc fuel) d pid (code ∷ rest) short =
      let next = Decode.indent d in
      let vlen = get_or (code ∷ rest) 1 0 in
      Returns-bind next d _ _
        (decode_tlv_lem fuel (Decode.decode_settings s fuel)
          (λ d' pid' v' h. decode_settings_lem fuel d' pid' v' h) next (Decode.child s d code pid)
          (code ∷ rest) 2 vlen (omega arith))
        (λ d' h. Returns-trans d d' _ (Wrote-trans d next d' (plain_write d _) h) (
          decode_settings_lem fuel d' pid (drop vlen (drop 2 (code ∷ rest)))
            (omega (arith, length-drop vlen (drop 2 (code ∷ rest)), length-drop 2 (code ∷ rest)))))

  main_header_lem :
      (is_mta : Bool) (code : ℕ) (buf : Bytes) → 2 ≤ (Decode.main_header s is_mta code buf).1
  unfolding Decode.main_header
  main_header_lem is_mta code buf = either (is_mta && code == 64) _ _ _ _
    where
      either :
          (b : Bool) (x y : Option Symbol) (m n : ℕ)
          → 2 ≤ (if◌then◌else◌ {A = Option Symbol × ℕ × ℕ} b (x, 3, m) (y, 2, n)).1
      either true x y m n = omega arith
      either false x y m n = omega arith

  decode_main_loop_lem :
      (fuel : ℕ) (d : Decoder) (is_mta : Bool) (v : Bytes)
      → length v ≤ fuel
      → Returns d (Decode.decode_main_loop s fuel d is_mta v)
  unfolding Decode.decode_main_loop
  decode_main_loop_lem fuel d is_mta [] short = (refl, [], sym (append-nil d.out))
  decode_main_loop_lem zero d is_mta (code ∷ rest) short = absurd (omega arith)
  decode_main_loop_lem (suc fuel) d is_mta (code ∷ rest) short =
      let next = Decode.indent d in
      let buf = code ∷ rest in
      let mta = is_mta || code == 254 in
      let (row, header, vlen) = Decode.main_header s mta code buf in
      Returns-bind next d _ _
        (decode_tlv_lem (length buf) (Decode.decode_settings s (length buf))
          (decode_settings_lem (length buf)) next row buf header vlen (omega arith))
        (λ d' h. Returns-trans d d' _ (Wrote-trans d next d' (plain_write d _) h) (
          decode_main_loop_lem fuel d' mta (drop vlen (drop header buf)) (
            omega (
              arith,
              main_header_lem mta code buf,
              length-drop vlen (drop header buf),
              length-drop header buf,
            ))))

  -- Decoding a whole file comes to an end, whatever the file, the symbol table and the decoder it
  -- starts with: it returns, it exits with a code, or it panics. When it returns, it has written
  -- the opening of the block `Main`, some text and the closing brace, in this order, behind what
  -- was there, and the indentation is 0.
  pub decode_main_aggregate-returns :
      (d : Decoder) (buf : Bytes)
      → ((d' : Decoder) × (t : Bytes) × (Decode.decode_main_aggregate s d buf ≡ ok d')
          × (d'.tabs ≡ 0)
          × (d'.out ≡ d.out ++ (ascii "Main \n{\n" ++ (t ++ ascii "}\n"))))
        ⊎ (((code : ℕ) × (Decode.decode_main_aggregate s d buf ≡ exit code))
            ⊎ (Decode.decode_main_aggregate s d buf ≡ panic))
  unfolding Decode.decode_main_aggregate
  decode_main_aggregate-returns d buf =
      outcome (Decode.decode_main_loop s (length buf) inner false buf)
        (decode_main_loop_lem (length buf) inner false buf (omega arith))
    where
      inner : Decoder
      inner = record d { out = d.out ++ ascii "Main \n{\n"; tabs = 1 }

      close : Decoder → Run Decoder
      close d' = ok (Decode.write (record d' { tabs = d'.tabs - 1 }) (ascii "}\n"))

      outcome :
          (run : Run Decoder)
          → Returns inner run
          → ((d' : Decoder) × (t : Bytes) × (run >>= close ≡ ok d')
              × (d'.tabs ≡ 0)
              × (d'.out ≡ d.out ++ (ascii "Main \n{\n" ++ (t ++ ascii "}\n"))))
            ⊎ (((code : ℕ) × (run >>= close ≡ exit code)) ⊎ (run >>= close ≡ panic))
      outcome (ok d') (tabs, t, out) = inl (
        _,
        t,
        refl,
        omega (arith, tabs),
        ap (λ x. x ++ ascii "}\n") out
            ∙ append_assoc (d.out ++ ascii "Main \n{\n") t (ascii "}\n")
            ∙ append_assoc d.out (ascii "Main \n{\n") (t ++ ascii "}\n"),
      )
      outcome (exit code) h = inr (inl (code, refl))
      outcome panic h = inr (inr refl)
      outcome out_of_fuel h = absurd h

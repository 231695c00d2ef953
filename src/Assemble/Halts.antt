-- ===== src/Assemble/Halts.antt =====
-- src/main.rs: encoding a file and decoding one come to an end.
use docsis_config_generator.Common.{
  ℕ, ◌≡◌, ◌≢◌, refl, sym, subst, inl, inr, Bool, true, false, ◌&&◌, not, Option, none, some, List,
  [], ◌∷◌, if◌then◌else◌, Bytes, Run, ok, exit, panic, out_of_fuel, ◌>>=◌, or_exit,
}
use docsis_config_generator.Text.{ascii, bytes_eq}
use docsis_config_generator.Symbol.{Symbol, find_by_name}
use docsis_config_generator.Encode.Exits.{Stops}
use docsis_config_generator.Decode.{Settings, Decoder, new, decode_main_aggregate}
use docsis_config_generator.Decode.Termination.{decode_main_aggregate-returns}
use docsis_config_generator.Lexer.{Scan, done, fail, no_fuel, Token, tokenize}
use docsis_config_generator.Lexer.Termination.{tokenize_ends}
use docsis_config_generator.Parser.{parse}
use docsis_config_generator.Parser.Exits.{parser_code}
use docsis_config_generator.Parser.Termination.{parse-Stops}
use docsis_config_generator.Assemble
use docsis_config_generator.Assemble.{Options, Digests, encode_tree}
use docsis_config_generator.Assemble.Tree.{Tlvs, nil, cons}
use docsis_config_generator.Assemble.Sign.{add_cmts_mic, add_cm_mic, selected}
use docsis_config_generator.Assemble.Covered.{selected-covered_by}
use docsis_config_generator.Assemble.OneFile
use docsis_config_generator.Assemble.OneFile.{World}

-- The run has not run out of fuel: it gives a value, exits with a code, or panics.
abbrev pub Halts {ℓ} : {A : Type ℓ} → Run A → Type 0
Halts (ok a) = Unit {0}
Halts (exit c) = Unit {0}
Halts panic = Unit {0}
Halts out_of_fuel = ⊥

pub Halts-bind {ℓ κ} :
    {A : Type ℓ} {B : Type κ} (run : Run A) (f : A → Run B)
    → Halts run
    → ((a : A) → Halts (f a))
    → Halts (run >>= f)
Halts-bind (ok a) f h k = k a
Halts-bind (exit c) f h k = tt
Halts-bind panic f h k = tt
Halts-bind out_of_fuel f h k = absurd h

pub Halts-if {ℓ} :
    {A : Type ℓ} (test : Bool) (x y : Run A) → Halts x → Halts y → Halts (if test then x else y)
Halts-if true x y hx hy = hx
Halts-if false x y hx hy = hy

pub Halts-option {ℓ κ} :
    {A : Type ℓ} {B : Type κ} (o : Option A) (x : Run B) (f : A → Run B)
    → Halts x
    → ((a : A) → Halts (f a))
    → Halts (elim o [ some a ↦ f a | none ↦ x ])
Halts-option (some a) x f hx hf = hf a
Halts-option none x f hx hf = hx

pub Halts-or_exit {ℓ} : {A : Type ℓ} (o : Option A) (c : ℕ) → Halts (or_exit o c)
Halts-or_exit (some a) c = tt
Halts-or_exit none c = tt

Halts-Stops {ℓ} : {A : Type ℓ} (code : ℕ → Bool) (run : Run A) → Stops code run → Halts run
Halts-Stops code (ok a) h = tt
Halts-Stops code (exit c) h = tt
Halts-Stops code panic h = tt
Halts-Stops code out_of_fuel h = h

pub Halts-not {ℓ} : {A : Type ℓ} (run : Run A) → Halts run → run ≢ out_of_fuel
Halts-not run h e = subst Halts e h

module _ (s : Settings) where
  pub decode-Halts : (d : Decoder) (buf : Bytes) → Halts (decode_main_aggregate s d buf)
  decode-Halts d buf = elim (decode_main_aggregate-returns s d buf) [
    | inl (d', t, e, tabs, out) ↦ subst Halts (sym e) tt
    | inr (inl (code, e)) ↦ subst Halts (sym e) tt
    | inr (inr e) ↦ subst Halts (sym e) tt
  ]

  add_cmts_mic-Halts :
      (hmac_md5 : Bytes → Bytes → Bytes) (key buf : Bytes) → Halts (add_cmts_mic s hmac_md5 key buf)
  unfolding add_cmts_mic
  add_cmts_mic-Halts hmac_md5 key [] = tt
  add_cmts_mic-Halts hmac_md5 key (b ∷ bs) =
      Halts-bind (selected (b ∷ bs)) _ (subst Halts (sym (selected-covered_by (b ∷ bs))) tt)
        (λ covered.
          Halts-bind (decode_main_aggregate s new covered) _ (decode-Halts new covered)
            (λ shown. tt))

  sign_modem-Halts :
      (digests : Digests) (opts : Options) (sign : Bool) (buf : Bytes)
      → Halts (Assemble.sign_modem s digests opts sign buf)
  unfolding Assemble.sign_modem
  sign_modem-Halts digests opts false buf = tt
  sign_modem-Halts digests opts true buf =
      Halts-bind (add_cmts_mic s digests.hmac_md5 opts.key (add_cm_mic digests.md5 buf)) _
        (add_cmts_mic-Halts digests.hmac_md5 opts.key (add_cm_mic digests.md5 buf)) (λ signed. tt)

  with_dialplan-Halts : (opts : Options) (buf : Bytes) → Halts (Assemble.with_dialplan opts buf)
  unfolding Assemble.with_dialplan
  with_dialplan-Halts opts buf =
      Halts-if opts.dialplan _ (ok buf)
        (Halts-bind (or_exit opts.dialplan_file 255) _ (Halts-or_exit opts.dialplan_file 255)
          (λ body. tt))
        tt

  encode_tree-Halts :
      (digests : Digests) (opts : Options) (tree : Tlvs) → Halts (encode_tree s digests opts tree)
  unfolding encode_tree
  encode_tree-Halts digests opts nil = tt
  encode_tree-Halts digests opts (cons tlv tlvs) =
      Halts-bind (Assemble.sign_modem s digests opts _ _) _ (sign_modem-Halts digests opts _ _)
        (λ signed.
          Halts-bind (Assemble.with_dialplan opts signed) _ (with_dialplan-Halts opts signed)
            (λ planned.
              Halts-bind (decode_main_aggregate s new _) _ (decode-Halts new _) (λ shown. tt)))

tokens_of-Halts : (scan : Scan (List Token)) → scan ≢ no_fuel → Halts (OneFile.tokens_of scan)
unfolding OneFile.tokens_of
tokens_of-Halts (done ts) h = tt
tokens_of-Halts (fail e) h = tt
tokens_of-Halts no_fuel h = absurd (h refl)

pub decode_file-Halts :
    (s : Settings) (w : World) (path : Bytes) → Halts (OneFile.decode_file s w path)
unfolding OneFile.decode_file
decode_file-Halts s w path =
    Halts-bind (or_exit (w.files path) 255) _ (Halts-or_exit (w.files path) 255)
      (λ buf. Halts-bind (decode_main_aggregate s new buf) _ (decode-Halts s new buf) (λ d. tt))

read_input-Halts : (w : World) (input : Bytes) → Halts (OneFile.read_input w input)
unfolding OneFile.read_input
read_input-Halts w input =
    Halts-if (OneFile.is_stdio input) _ _ (Halts-or_exit w.stdin 2)
      (Halts-or_exit (w.files input) 2)

-- Encoding one file comes to an end, if the table has a row for `GenericTLV`.
pub encode_one_file-Halts :
    (s : Settings) (digests : Digests) (w : World) (opts : Options) (input output : Bytes)
    (generic : Symbol)
    → find_by_name s.symtable (ascii "GenericTLV") ≡ some generic
    → Halts (OneFile.encode_one_file s digests w opts input output)
unfolding OneFile.encode_one_file OneFile.encode_source
encode_one_file-Halts s digests w opts input output generic row =
    (Halts-if (bytes_eq input output && not (OneFile.is_stdio input)) (exit 2) _ tt (
      Halts-bind (OneFile.read_input w input) _ (read_input-Halts w input) (λ source.
        Halts-bind (OneFile.encode_source s digests w opts source) _ (encodes source)
          (λ buffer. Halts-if (w.writable output) (ok buffer) (exit 2) tt tt))))
  where
    encodes : (source : Bytes) → Halts (OneFile.encode_source s digests w opts source)
    encodes source =
        let scan = tokenize s.symtable s.ipv6 source in
        Halts-bind (OneFile.tokens_of scan) _
          (tokens_of-Halts scan (tokenize_ends s.symtable s.ipv6 source))
          (λ toks.
            Halts-bind (parse s.symtable s.mib s.ipv6 w.files toks) _
              (Halts-Stops parser_code _
                (parse-Stops s.symtable s.mib s.ipv6 w.files generic row toks))
              (λ tree. encode_tree-Halts s digests opts tree))

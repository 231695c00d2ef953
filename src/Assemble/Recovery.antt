-- ===== src/Assemble/Recovery.antt =====
-- src/main.rs, src/decode.rs: the dial plan of a file, as the decoder finds it.
use docsis_config_generator.Common.{
  ◌+◌, ◌^◌, ◌<◌, ◌≡◌, false, some, length, Bytes, ltb, arith, Bool-cases, inl, inr,
}
use docsis_config_generator.Text.{bytes_eq}
use docsis_config_generator.Decode.{Settings, dialplan_body}
use docsis_config_generator.Assemble.Mta.{dialplan_value, dialplan_sequence, dialplan_string}

-- The decoder takes the very file that was written as the dial plan out of the binding, in each of
-- the three forms of the lengths, for a file of at most 65507 bytes.
pub dialplan_body-dialplan_value :
    (s : Settings) (body : Bytes)
    → length body + 28 < 2 ^ 16
    → dialplan_body s (dialplan_value body) ≡ some body
unfolding dialplan_body dialplan_value dialplan_sequence dialplan_string bytes_eq
dialplan_body-dialplan_value s body h = elim (Bool-cases (ltb (0x16 + length body) 0x80)) [
  | inl narrow ↦
      let small : ltb 0x7f (length body) ≡ false = ground arith in rw (narrow, small) (ground arith)
  | inr wide ↦ elim (Bool-cases (ltb 0x7f (length body))) [
    | inl large ↦ rw (wide, large) (ground arith)
    | inr middle ↦ rw (wide, middle) (ground arith)
  ]
]

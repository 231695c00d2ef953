-- ===== src/Values.antt =====
-- src/value.rs: the raw value of a setting, between the parser and the encoders.
use docsis_config_generator.Common.{[], Bytes, ℤ, pos}

pub data Value : Type 0 where
  num : ℤ → Value
  text : Bytes → Value
  bytes : Bytes → Value

unfoldable pub as_num : Value → ℤ
as_num (num v) = v
as_num (text s) = pos 0
as_num (bytes b) = pos 0

unfoldable pub as_text : Value → Bytes
as_text (num v) = []
as_text (text s) = s
as_text (bytes b) = []

unfoldable pub as_bytes : Value → Bytes
as_bytes (num v) = []
as_bytes (text s) = s
as_bytes (bytes b) = b

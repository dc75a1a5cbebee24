-- ===== src/Query/Sample.antt =====
-- A small format for the examples: it renders the float64 values 9 and 10 and texts.
use file_dbv.Prelude.{ℕ, none, [], Str, codes, nat_eq, ◌==◌, if◌then◌else◌}
use file_dbv.Json.{Value, number, text}
use file_dbv.Query.{Format}

-- Their bits.
abbrev pub nine : ℕ
nine = 0x4022000000000000

abbrev pub ten : ℕ
ten = 0x4024000000000000

abbrev sample_sprint : Value → Str
sample_sprint (number x) = if x == ten then codes "10" else codes "9"
sample_sprint (text s) = s
sample_sprint _ = []

abbrev pub sample_format : Format
sample_format = record {
  sprint = sample_sprint;
  unmarshal = λ s. none;
  parse_float = λ s. none;
  regexp = λ s. none;
}

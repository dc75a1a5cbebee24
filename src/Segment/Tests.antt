-- ===== src/Segment/Tests.antt =====
-- Runs of the model of engine/segment.go.
use file_dbv.Prelude.{◌≡◌, refl, ◌≤◌, List, [], ◌∷◌, ℕ, some, ◌++◌, take, arith, false, All}
use file_dbv.Result.{ok, Result, ◌>>=◌}
use file_dbv.Store.{
  Entry, op_bytes, put_uint, checksum_header, checksum_fields, checksum, omit_empty, encode,
  newline,
}
use file_dbv.Store.RoundTrip.{stamp}
use file_dbv.Store.Sample.{
  sample_data-HasFields, sample_codec, sample_laws, sample_entry, sample_line,
}
use file_dbv.Segment.{Segment, append, append_bytes, read_at, scan_from, recover_partial_line}
use file_dbv.Segment.CompleteLines.{complete_lines}
use file_dbv.Segment.Recovery.{recover_partial_line_lem, recover_torn_append}
use file_dbv.Segment.Append.{IsWellFormed, read_at-append, read_at-append_before}
use file_dbv.Segment.Scan.{IsWritten, scan_from-append}

abbrev one_line : Segment
one_line = record { path = 1; bytes = sample_line ++ newline ∷ []; size = 10; sealed = false }

abbrev two_lines : Segment
two_lines = record {
  path = 1;
  bytes = (sample_line ++ newline ∷ []) ++ (sample_line ++ newline ∷ []);
  size = 20;
  sealed = false;
}

recover_partial_line_lem_example :
    recover_partial_line (65 ∷ newline ∷ 66 ∷ []) ≡ some (complete_lines (65 ∷ newline ∷ 66 ∷ []))
recover_partial_line_lem_example = recover_partial_line_lem (65 ∷ newline ∷ 66 ∷ [])

sample_line_printable : All (λ x. 32 ≤ x) sample_line
sample_line_printable = (
  omega arith,
  (
    omega arith,
    (
      omega arith,
      (omega arith, (omega arith, (omega arith, (omega arith, (omega arith, (omega arith, tt)))))),
    ),
  ),
)

one_line-IsWellFormed : IsWellFormed one_line
unfolding complete_lines
one_line-IsWellFormed = record { clean = refl; sized = refl }

one_line-IsWritten : IsWritten one_line
one_line-IsWritten = record {
  lines = sample_line ∷ [];
  printable = (sample_line_printable, tt);
  bytes = refl;
  sized = refl;
}

append_sample : append sample_codec one_line sample_entry ≡ ok (10, two_lines)
unfolding append append_bytes encode checksum checksum_fields checksum_header op_bytes put_uint
    omit_empty
append_sample = refl

recover_torn_append_example :
    recover_partial_line (one_line.bytes ++ take 3 (sample_line ++ newline ∷ []))
    ≡ some one_line.bytes
unfolding complete_lines
recover_torn_append_example =
    recover_torn_append one_line.bytes sample_line 3 refl sample_line_printable (omega arith)

read_at-append_example :
    IsWellFormed two_lines
    × ((sum : ℕ) × (checksum sample_codec sample_entry ≡ ok sum)
        × (read_at sample_codec two_lines 10 ≡ ok (stamp sample_entry sum)))
read_at-append_example =
    read_at-append sample_codec sample_laws one_line two_lines sample_entry 10 one_line-IsWellFormed
      sample_data-HasFields append_sample

read_at-append_before_example : read_at sample_codec two_lines 0 ≡ read_at sample_codec one_line 0
read_at-append_before_example =
    read_at-append_before sample_codec one_line two_lines sample_entry 10 0 one_line-IsWellFormed
      append_sample (omega arith)

abbrev note_offset : ℕ → Entry → List ℕ → Result (List ℕ)
note_offset off e seen = ok (off ∷ seen)

scan_from-append_example :
    (sum : ℕ) × (checksum sample_codec sample_entry ≡ ok sum)
    × (scan_from sample_codec note_offset two_lines [] ≡ (
        scan_from sample_codec note_offset one_line [] >>= note_offset 10 (stamp sample_entry sum)))
scan_from-append_example =
    scan_from-append sample_codec sample_laws note_offset one_line two_lines sample_entry 10 []
      one_line-IsWritten sample_data-HasFields append_sample

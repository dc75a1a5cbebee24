-- ===== src/Compaction/Tests.antt =====
-- Runs of the model of engine/compactor.go.
use file_dbv.Prelude.{ℕ, ◌≡◌, refl, true, some, List, [], ◌∷◌, ◌++◌, Str, length, insert, delete}
use file_dbv.Result.{ok}
use file_dbv.Json.{is_json_data, is_before, utf8_after}
use file_dbv.Store.{
  Entry, op_bytes, put_uint, checksum_header, checksum_fields, checksum, omit_empty, encode, decode,
  fill_absent, verify,
}
use file_dbv.Store.Sample.{sample_codec, sample_laws, sample_line, sample_entry}
use file_dbv.Segment.{
  Segment, append, append_bytes, scan_all, scan_all_lines, split_lines, scan_token, drop_cr, seal,
  open_active_segment, recover_partial_line,
}
use file_dbv.Collection.{expired}
use file_dbv.Compaction.{
  latest_of, surviving, latest_in, resolve_entries, new_seg, turn, write_loop, rebalance,
  rebalance_loop, write_compacted,
}
use file_dbv.Compaction.Resolved.{all_entries, live, IsCompact, resolve_entries_lem}
use file_dbv.Compaction.View.{bare_option, compacted_lem}

-- A segment that holds the same entry twice.
abbrev two_lines : Segment
two_lines =
    let b = (sample_line ++ 10 ∷ []) ++ (sample_line ++ 10 ∷ []) in
    record { path = 1; bytes = b; size = length b; sealed = true }

abbrev resolved_entry : Entry
resolved_entry = record sample_entry { crc = some 16 }

abbrev no_file : ℕ → Str
no_file n = []

abbrev temp_segment : Segment
temp_segment =
    let b = sample_line ++ 10 ∷ [] in record { path = 1; bytes = b; size = length b; sealed = true }

sample_pass :
    (resolve_entries sample_codec 9 (two_lines ∷ []) ≡ ok (resolved_entry ∷ []))
    × (write_compacted sample_codec no_file no_file (resolved_entry ∷ []) 50
        ≡ ok (temp_segment ∷ []))
unfolding resolve_entries latest_in latest_of surviving expired scan_all scan_all_lines split_lines
    scan_token drop_cr decode fill_absent verify insert delete write_compacted new_seg turn
    write_loop rebalance rebalance_loop open_active_segment recover_partial_line append append_bytes
    encode checksum checksum_fields checksum_header op_bytes put_uint is_json_data is_before
    utf8_after omit_empty seal
sample_pass = (refl, refl)

resolve_entries_lem_example :
    (es : List Entry) × (all_entries sample_codec (two_lines ∷ []) ≡ ok es)
    × IsCompact 9 (resolved_entry ∷ [])
    × ((k : ℕ) (later : List Entry)
        → live 9 k (resolved_entry ∷ [] ++ later) ≡ live 9 k (es ++ later))
resolve_entries_lem_example =
    resolve_entries_lem sample_codec 9 (two_lines ∷ []) (resolved_entry ∷ []) sample_pass.0

compacted_lem_example :
    (es : List Entry) × (es' : List Entry) × (all_entries sample_codec (two_lines ∷ []) ≡ ok es)
    × (all_entries sample_codec (temp_segment ∷ []) ≡ ok es')
    × ((k : ℕ) (later : List Entry)
        → bare_option (live 9 k (es' ++ later)) ≡ bare_option (live 9 k (es ++ later)))
compacted_lem_example =
    compacted_lem sample_codec sample_laws no_file no_file 9 50 (two_lines ∷ []) (temp_segment ∷ [])
      (resolved_entry ∷ []) (λ n. refl) (λ n. refl) sample_pass.0 (tt, tt) sample_pass.1

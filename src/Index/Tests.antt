-- ===== src/Index/Tests.antt =====
-- Runs of the model of engine/index.go.
use file_dbv.Prelude.{◌≡◌, refl, [], ◌∷◌, ◌++◌, ℕ, arith, false}
use file_dbv.Result.{ok, ◌>>=◌}
use file_dbv.Json.{is_json_data, is_before, utf8_after}
use file_dbv.Store.{
  op_bytes, put_uint, checksum_header, checksum_fields, checksum, omit_empty, fill_absent, encode,
  decode, verify, newline,
}
use file_dbv.Store.RoundTrip.{stamp}
use file_dbv.Store.Sample.{
  sample_data-HasFields, sample_codec, sample_laws, sample_entry, sample_line,
}
use file_dbv.Segment.{Segment, append, append_bytes}
use file_dbv.Segment.Holds.{Item, IsItem, Holds}
use file_dbv.Index.{rebuild_segment, rebuild_entry}
use file_dbv.Index.Replay.{rebuild_segment-append}

abbrev one_entry : Segment
one_entry = record { path = 1; bytes = sample_line ++ newline ∷ []; size = 10; sealed = false }

abbrev two_entries : Segment
two_entries = record {
  path = 1;
  bytes = (sample_line ++ newline ∷ []) ++ (sample_line ++ newline ∷ []);
  size = 20;
  sealed = false;
}

abbrev sample_item : Item
sample_item = record { line = sample_line; entry = stamp sample_entry 16 }

sample_item-IsItem : IsItem sample_codec sample_item
unfolding decode verify fill_absent checksum checksum_fields checksum_header op_bytes put_uint
    is_json_data is_before utf8_after
sample_item-IsItem = record {
  printable = (
    omega arith,
    (
      omega arith,
      (
        omega arith,
        (
          omega arith,
          (omega arith, (omega arith, (omega arith, (omega arith, (omega arith, tt))))),
        ),
      ),
    ),
  );
  some_line = λ e. cc;
  short = omega arith;
  decoded = refl;
}

one_entry-Holds : Holds sample_codec one_entry (sample_item ∷ [])
one_entry-Holds = record { all = (sample_item-IsItem, tt); bytes = refl; sized = refl }

append_sample : append sample_codec one_entry sample_entry ≡ ok (10, two_entries)
unfolding append append_bytes encode checksum checksum_fields checksum_header op_bytes put_uint
    is_json_data is_before utf8_after omit_empty
append_sample = refl

rebuild_segment-append_example :
    (sum : ℕ) × (checksum sample_codec sample_entry ≡ ok sum)
    × (rebuild_segment sample_codec two_entries [] ≡ (
        rebuild_segment sample_codec one_entry [] >>= λ idx.
        ok (rebuild_entry 1 idx 10 (stamp sample_entry sum))))
rebuild_segment-append_example =
    rebuild_segment-append sample_codec one_entry two_entries sample_entry 10 (sample_item ∷ []) []
      sample_laws one_entry-Holds sample_data-HasFields append_sample

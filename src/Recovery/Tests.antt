-- ===== src/Recovery/Tests.antt =====
-- Runs of the model of the open after a crash, load of engine/collection.go.
use file_dbv.Prelude.{◌≡◌, refl, lookup, false, none, [], ◌∷◌, arith}
use file_dbv.Result.{ok}
use file_dbv.Store.{
  op_bytes, put_uint, checksum_header, checksum_fields, checksum, omit_empty, encode,
}
use file_dbv.Store.Sample.{sample_codec, sample_laws, sample_data, sample_data-HasFields}
use file_dbv.Segment.{append, append_bytes, scan_all, scan_all_lines, split_lines}
use file_dbv.Index
use file_dbv.Index.{
  rebuild, rebuild_from, rebuild_segment, rebuild_entries, scan_offsets, offsets_from,
  segments_valid,
}
use file_dbv.Query.Sample.{sample_format}
use file_dbv.Collection.{
  Collection, insert, try_insert, check_quota, entry_quota_bytes, sidx_check_unique,
}
use file_dbv.Collection.Tests.{empty_collection}
use file_dbv.Load.{no_index, stored_index, load, sizes_of}
use file_dbv.Recovery.{IsRecoverable}
use file_dbv.Recovery.Crash.{IsTorn, crashed}
use file_dbv.Recovery.Runs.{here, then_step, inserts, load-Reaches}
use file_dbv.Recovery.Stale.{load-insert_lost, after_insert}

empty_collection-IsRecoverable : IsRecoverable sample_codec empty_collection
unfolding rebuild rebuild_from rebuild_segment scan_all scan_all_lines split_lines rebuild_entries
    scan_offsets offsets_from Index.get lookup
empty_collection-IsRecoverable = record {
  replayed = record {
    items = [];
    holds = record { all = tt; bytes = refl; sized = refl };
    rebuilt = refl;
  };
  taken = λ id above. refl;
  known = λ id above above_active. refl;
}

IsTorn-line : IsTorn (32 ∷ 33 ∷ [])
IsTorn-line = record {
  line = 32 ∷ 33 ∷ 37 ∷ [];
  k = 2;
  printable = (omega arith, (omega arith, (omega arith, tt)));
  short = omega arith;
  cut = refl;
}

abbrev after_one : Collection
after_one = (insert sample_codec sample_format sample_data 0 5 empty_collection).1

load-Reaches_example :
    (c'' : Collection) × (load sample_codec empty_collection.cfg []
        (crashed (32 ∷ 33 ∷ []) no_index none false after_one)
      ≡ ok (c'', stored_index after_one.index))
    × (c''.index ≡ after_one.index)
    × (c''.active.bytes ≡ after_one.active.bytes)
    × IsRecoverable sample_codec c''
load-Reaches_example =
    load-Reaches sample_codec sample_format sample_laws empty_collection.cfg [] (32 ∷ 33 ∷ [])
      no_index none false empty_collection after_one empty_collection-IsRecoverable
      (then_step empty_collection after_one here (inserts sample_data 0 5 sample_data-HasFields))
      IsTorn-line tt tt

load-insert_lost_example :
    (c'' : Collection) × (load sample_codec empty_collection.cfg []
        (after_insert sample_codec sample_format [] sample_data 0 5 empty_collection)
      ≡ ok (c'', stored_index []))
    × (Index.get 1 c''.index ≡ none)
unfolding insert try_insert check_quota Index.len sidx_check_unique append append_bytes encode
    checksum checksum_fields checksum_header op_bytes put_uint omit_empty entry_quota_bytes
    segments_valid sizes_of
load-insert_lost_example =
    load-insert_lost sample_codec sample_format empty_collection.cfg [] sample_data 0 5
      empty_collection 1 empty_collection-IsRecoverable refl refl

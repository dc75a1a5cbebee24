-- ===== src/Follower/Tests.antt =====
-- Runs of the model of a follower.
use file_dbv.Prelude.{◌≡◌, refl, [], ◌∷◌, ◌++◌, lookup}
use file_dbv.Result.{ok}
use file_dbv.Store.{
  Entry, op_bytes, put_uint, checksum_header, checksum_fields, checksum, omit_empty, encode,
}
use file_dbv.Store.Sample.{sample_codec, sample_laws, sample_data, sample_data-HasFields}
use file_dbv.Segment.{append, append_bytes}
use file_dbv.Index
use file_dbv.Query.Sample.{sample_format}
use file_dbv.Collection.{
  Collection, insert, try_insert, check_quota, sidx_check_unique, entry_quota_bytes,
  segment_by_path_in,
}
use file_dbv.Collection.Quota.{insert_entry}
use file_dbv.Collection.Tests.{empty_collection, empty_collection-IsReady}
use file_dbv.Segment.CompleteLines.{complete_lines}
use file_dbv.Follower.Shown.{IsReadable}
use file_dbv.Follower.{apply_entry, apply_all, apply_write}
use file_dbv.Follower.Twice.{apply_entry_twice}
use file_dbv.Follower.Leads.{done, by_insert}
use file_dbv.Follower.Lockstep.{SameRecords, apply_all-SameRecords}

-- The follower has larger segments than the leader.
abbrev replica : Collection
replica = record empty_collection {
  cfg = record { segment_max_size = 500; default_ttl = 0; max_records = 0; max_bytes = 0 };
}

abbrev first_entry : Entry
first_entry = insert_entry sample_codec sample_format sample_data 0 5 empty_collection

abbrev leader_after : Collection
leader_after = (insert sample_codec sample_format sample_data 0 5 empty_collection).1

abbrev replica_after : Collection
replica_after = (apply_entry sample_codec sample_format first_entry replica).1

apply_entry_twice_example :
    apply_entry sample_codec sample_format first_entry replica_after ≡ (ok tt, replica_after)
unfolding apply_entry apply_write Index.get lookup append append_bytes encode checksum
    checksum_fields checksum_header op_bytes put_uint omit_empty
apply_entry_twice_example = apply_entry_twice sample_codec sample_format first_entry replica refl

empty_collection-IsReadable : IsReadable sample_codec sample_format empty_collection
unfolding Index.get lookup
empty_collection-IsReadable = record {
  ready = empty_collection-IsReady;
  reads = λ k loc at. absurd cc;
}

replica-IsReadable : IsReadable sample_codec sample_format replica
unfolding Index.get lookup segment_by_path_in complete_lines
replica-IsReadable = record {
  ready = record { active = record { clean = refl; sized = refl }; fresh = refl };
  reads = λ k loc at. absurd cc;
}

apply_all-SameRecords_example :
    (leader_after.published ≡ [] ++ first_entry ∷ [])
    × SameRecords sample_codec sample_format leader_after replica_after
unfolding apply_all apply_entry apply_write insert try_insert check_quota Index.get Index.len lookup
    sidx_check_unique append append_bytes encode checksum checksum_fields checksum_header op_bytes
    put_uint omit_empty entry_quota_bytes
apply_all-SameRecords_example =
    apply_all-SameRecords sample_codec sample_format sample_laws empty_collection leader_after
      replica replica_after (first_entry ∷ []) (λ k past. refl) empty_collection-IsReadable
      replica-IsReadable (λ k. (refl, refl))
      (by_insert empty_collection leader_after [] sample_data 0 5 1 sample_data-HasFields refl
        (done leader_after))
      refl

-- ===== src/Collection/Tests.antt =====
-- Runs of the model of engine/collection.go.
use file_dbv.Prelude.{◌≡◌, ◌≤◌, refl, [], ◌∷◌, ◌+◌, false, true, some, arith, lookup}
use file_dbv.Result.{err, not_found, ok}
use file_dbv.Store.{
  op_bytes, put_uint, checksum_header, checksum_fields, checksum, omit_empty, encode,
}
use file_dbv.Store.Sample.{sample_codec, sample_laws, sample_data, sample_data-HasFields}
use file_dbv.Segment.{append, append_bytes}
use file_dbv.Segment.CompleteLines.{complete_lines}
use file_dbv.Index
use file_dbv.Index.{IndexEntry}
use file_dbv.Query.Sample.{sample_format}
use file_dbv.Collection.{
  Collection, try_update, try_delete, check_quota, entry_quota_bytes, sidx_check_unique, try_insert,
  insert, update, delete, segment_by_path_in, get, expired,
}
use file_dbv.Collection.Quota.{insert_quota}
use file_dbv.Collection.Rotation.{IsReady}
use file_dbv.Collection.ReadBack.{get-insert, get-update, get-delete}

abbrev pub empty_collection : Collection
empty_collection = record {
  cfg = record { segment_max_size = 5; default_ttl = 0; max_records = 1; max_bytes = 0 };
  sealed = [];
  active = record { path = 1; bytes = []; size = 0; sealed = false };
  index = [];
  id_seq = 0;
  meta_counter = 0;
  sidx_map = [];
  published = [];
  events = [];
}

abbrev full_collection : Collection
full_collection = record empty_collection {
  index = (1, record { segment_path = 1; offset = 0; rev = 1; expires_at = 0; epoch = 0 }) ∷ [];
  id_seq = 1;
}

pub empty_collection-IsReady : IsReady empty_collection
unfolding segment_by_path_in complete_lines
empty_collection-IsReady = record { active = record { clean = refl; sized = refl }; fresh = refl }

insert_quota_example :
    Index.len (insert sample_codec sample_format sample_data 0 5 empty_collection).1.index ≤ 1
unfolding insert try_insert check_quota Index.len sidx_check_unique append append_bytes encode
    checksum checksum_fields checksum_header op_bytes put_uint omit_empty entry_quota_bytes
insert_quota_example =
    insert_quota sample_codec sample_format sample_data 0 5 empty_collection 1 (omega arith) refl

-- The segment is full after one record, so the insert rotates it.
get-insert_example :
    (1 ≡ 0 + 1)
    × (get sample_codec sample_format
          (0 + 1)
          9
          (insert sample_codec sample_format sample_data 0 5 empty_collection).1
        ≡ ok (record { id = 0 + 1; key = []; rev = 1; ts = 5; fields = some sample_data }))
    × IsReady (insert sample_codec sample_format sample_data 0 5 empty_collection).1
unfolding insert try_insert check_quota Index.len sidx_check_unique append append_bytes encode
    checksum checksum_fields checksum_header op_bytes put_uint omit_empty entry_quota_bytes expired
    lookup
get-insert_example =
    get-insert sample_codec sample_format sample_laws sample_data 0 5 9 empty_collection 1
      empty_collection-IsReady sample_data-HasFields refl refl

abbrev one_location : IndexEntry
one_location = record { segment_path = 1; offset = 0; rev = 1; expires_at = 0; epoch = 0 }

full_collection-IsReady : IsReady full_collection
unfolding segment_by_path_in complete_lines
full_collection-IsReady = record { active = record { clean = refl; sized = refl }; fresh = refl }

get-update_example :
    (get sample_codec sample_format 1 9
        (update sample_codec sample_format 1 sample_data 0 true 5 full_collection).1
      ≡ ok (record { id = 1; key = []; rev = 1 + 1; ts = 5; fields = some sample_data }))
    × IsReady (update sample_codec sample_format 1 sample_data 0 true 5 full_collection).1
unfolding update try_update Index.get lookup sidx_check_unique append append_bytes encode checksum
    checksum_fields checksum_header op_bytes put_uint omit_empty expired
get-update_example =
    get-update sample_codec sample_format sample_laws 1 sample_data 0 true 5 9 full_collection
      one_location full_collection-IsReady sample_data-HasFields refl refl refl

get-delete_example :
    (get sample_codec sample_format 1 9 (delete sample_codec sample_format 1 5 full_collection).1
      ≡ err not_found)
    × IsReady (delete sample_codec sample_format 1 5 full_collection).1
unfolding delete try_delete Index.get lookup append append_bytes encode checksum checksum_fields
    checksum_header op_bytes put_uint omit_empty
get-delete_example =
    get-delete sample_codec sample_format sample_laws 1 5 9 full_collection one_location
      full_collection-IsReady refl refl

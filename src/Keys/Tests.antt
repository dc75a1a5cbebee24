-- ===== src/Keys/Tests.antt =====
-- Runs of the model of engine/keys.go.
use file_dbv.Prelude.{
  ℕ, ◌≡◌, ◌≢◌, refl, ◌+◌, ◌⊎◌, inl, inr, false, true, Option, none, some, List, [], ◌∷◌, arith,
  codes, length, lookup, Str,
}
use file_dbv.Result.{ok}
use file_dbv.Store.{
  Codec, op_insert, op_bytes, put_uint, checksum_header, checksum_fields, checksum, omit_empty,
  encode, decode,
}
use file_dbv.Store.Sample.{sample_data}
use file_dbv.Segment.{append, append_bytes, read_at}
use file_dbv.Index
use file_dbv.Index.{IndexEntry}
use file_dbv.Query.Sample.{sample_format}
use file_dbv.Sidx.{new_secondary_index}
use file_dbv.Collection.{Collection, key_field}
use file_dbv.Collection.Tests.{empty_collection}
use file_dbv.Keys.{upsert, update_if_rev, live_key}
use file_dbv.Keys.Swap.{update_if_rev_lem, update_if_rev_once}

-- It renders every entry as the same line.
abbrev constant_codec : Codec
constant_codec = record {
  marshal_fields = λ d. some [];
  marshal_line = λ l. some (33 ∷ []);
  unmarshal_line = λ s. some (record {
    id = 1;
    op = op_insert;
    ts = 5;
    rev = none;
    fields = none;
    epoch = none;
    expires_at = none;
    crc = none;
  });
  crc32c = length;
}

abbrev indexed_collection : Collection
indexed_collection = record empty_collection {
  sidx_map = (key_field, new_secondary_index key_field true) ∷ [];
}

abbrev keyed_collection : Collection
keyed_collection =
    (upsert constant_codec sample_format (codes "k") sample_data 5 indexed_collection).1

abbrev swapped : Collection
swapped =
    (update_if_rev constant_codec sample_format (codes "k") 1 sample_data 6 keyed_collection).1

abbrev one_location : ℕ → ℕ → IndexEntry
one_location offset rev = record {
  segment_path = 1;
  offset = offset;
  rev = rev;
  expires_at = 0;
  epoch = 0;
}

sample_swap :
    (live_key constant_codec sample_format (codes "k") keyed_collection
      ≡ some (1, one_location 0 1))
    × (live_key constant_codec sample_format (codes "k") swapped ≡ some (1, one_location 2 2))
    × ((update_if_rev constant_codec sample_format (codes "k") 1 sample_data 6 keyed_collection).0
        ≡ ok true)
unfolding file_dbv.Collection.emit file_dbv.Collection.entry_quota_bytes
    file_dbv.Collection.inserted file_dbv.Collection.max_seg
    file_dbv.Collection.resolve_insert_expiry file_dbv.Collection.rotate_if_full
    file_dbv.Collection.rotate_segment file_dbv.Collection.segment_by_path
    file_dbv.Collection.segment_by_path_in file_dbv.Collection.sidx_index_entry
    file_dbv.Collection.sidx_update_entry file_dbv.Collection.size_bytes
    file_dbv.Collection.total_size file_dbv.Collection.updated file_dbv.Collection.violates
    file_dbv.Collection.check_quota file_dbv.Collection.sidx_check_unique file_dbv.Keys.index_lookup
    file_dbv.Keys.read_current file_dbv.Keys.stamp_key file_dbv.Json.put_field file_dbv.Json.str_lt
    file_dbv.Keys.swap_if file_dbv.Keys.try_replace file_dbv.Keys.try_upsert_insert
    file_dbv.Keys.compare_and_swap file_dbv.Keys.update_if_rev file_dbv.Keys.upsert
    file_dbv.Keys.live_key file_dbv.Prelude.delete file_dbv.Prelude.insert file_dbv.Prelude.lookup
    file_dbv.Query.as_number file_dbv.Query.compare_values file_dbv.Query.float_compare
    file_dbv.Query.float_lt file_dbv.Query.signed_lt file_dbv.Query.str_compare
    file_dbv.Segment.append_bytes file_dbv.Segment.append file_dbv.Segment.read_at
    file_dbv.Segment.drop_cr file_dbv.Segment.read_first file_dbv.Segment.scan_token
    file_dbv.Segment.seal file_dbv.Segment.split_lines file_dbv.Sidx.add file_dbv.Sidx.drop_id
    file_dbv.Sidx.leave file_dbv.Sidx.merge_kind file_dbv.Sidx.observe file_dbv.Sidx.order_less_key
    file_dbv.Sidx.ordered_insert file_dbv.Sidx.ordered_remove file_dbv.Sidx.place
    file_dbv.Sidx.put_id file_dbv.Sidx.remove file_dbv.Sidx.search file_dbv.Sidx.search_sorted
    file_dbv.Sidx.to_index_key file_dbv.Sidx.update file_dbv.Sidx.val_for_kind
    file_dbv.Sidx.val_kind file_dbv.Sidx.lookup_ids file_dbv.Sidx.bucket_of
    file_dbv.Sidx.new_secondary_index file_dbv.Sidx.conflict file_dbv.Sidx.other_id
    file_dbv.Store.decode file_dbv.Store.fill_absent file_dbv.Store.verify
    file_dbv.Store.checksum_header file_dbv.Store.checksum_fields file_dbv.Store.checksum
    file_dbv.Store.omit_empty file_dbv.Store.op_bytes file_dbv.Store.put_uint file_dbv.Store.encode
    Index.get Index.set Index.len
sample_swap = (refl, refl, refl)

update_if_rev_once_example :
    ((update_if_rev constant_codec sample_format (codes "k") 1 sample_data 7 swapped).0 ≢ ok true)
    × ((update_if_rev constant_codec sample_format (codes "k") 1 sample_data 7 swapped).1 ≡ swapped)
update_if_rev_once_example =
    update_if_rev_once constant_codec sample_format (codes "k") 1 sample_data sample_data 6 7
      keyed_collection 1 (one_location 0 1) (one_location 2 2) sample_swap.0 sample_swap.2
      sample_swap.1

update_if_rev_lem_example :
    (((update_if_rev constant_codec sample_format (codes "k") 1 sample_data 6 keyed_collection).0
        ≡ ok true)
      × ((id : ℕ) × (loc : IndexEntry) × (loc' : IndexEntry) × (live_key constant_codec
              sample_format
              (codes "k")
              keyed_collection
            ≡ some (id, loc))
          × (loc.rev ≡ 1)
          × (Index.get id swapped.index ≡ some loc')
          × (loc'.rev ≡ 1 + 1)))
    ⊎ (((update_if_rev constant_codec sample_format (codes "k") 1 sample_data 6 keyed_collection).0
          ≢ ok true)
        × (swapped ≡ keyed_collection))
update_if_rev_lem_example =
    update_if_rev_lem constant_codec sample_format (codes "k") 1 sample_data 6 keyed_collection

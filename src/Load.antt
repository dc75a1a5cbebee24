-- ===== src/Load.antt =====
-- load and activeMaxID of engine/collection.go: the open of a collection from its directory. The
-- files stand in the order of their names; recoverCompaction has run, and the secondary indexes are
-- an argument.
use file_dbv.Prelude.{
  ℕ, Bool, true, Option, none, some, List, [], ◌∷◌, ◌++◌, Str, Map, length, ltb, nat_eq,
  if◌then◌else◌,
}
use file_dbv.Result.{Result, ok, err, recover_failed, load_index_failed, or_error, ◌>>=◌}
use file_dbv.Store.{Entry, Codec}
use file_dbv.Segment.{Segment, open_active_segment, scan_all}
use file_dbv.Index.{Index, rebuild, segments_valid}
use file_dbv.Sidx.{SecondaryIndex}
use file_dbv.Collection.{Collection, CollectionConfig}

-- index.json: it is not there, its checksum does not hold, it cannot be read or parsed, or it has an
-- index.
pub data IndexFile : Type 0 where
  no_index stale_index unreadable_index : IndexFile
  stored_index : Index → IndexFile

-- `files` are the segment files, and `meta` is the counter in meta.json if it can be read.
pub record Disk : Type 0 where
  pub files : List (ℕ × Str)
  pub persisted : IndexFile
  pub meta : Option ℕ
  pub swap_recovered : Bool

abbrev pub open_sealed_segment : ℕ × Str → Segment
open_sealed_segment (path, bytes) = record {
  path = path;
  bytes = bytes;
  size = length bytes;
  sealed = true;
}

-- The last file is the active segment, a new first file if there is none.
unfoldable pub split_active : List (ℕ × Str) → List Segment × (ℕ × Str)
split_active [] = ([], (1, []))
split_active (p ∷ []) = ([], p)
split_active (p ∷ q ∷ ps) =
    let rest = split_active (q ∷ ps) in (open_sealed_segment p ∷ rest.0, rest.1)

unfoldable pub sizes_of : List Segment → Map ℕ ℕ
sizes_of [] = []
sizes_of (s ∷ ss) = (s.path, s.size) ∷ sizes_of ss

unfoldable pub max_id : List Entry → ℕ
max_id [] = 0
max_id (e ∷ es) = let rest = max_id es in if ltb rest e.id then e.id else rest

unfoldable pub max_key : Index → ℕ
max_key [] = 0
max_key ((id, loc) ∷ idx) = let rest = max_key idx in if ltb rest id then id else rest

abbrev pub max_of : ℕ → ℕ → ℕ
max_of a b = if ltb a b then b else a

abbrev pub max_id_or_zero : Result (List Entry) → ℕ
max_id_or_zero (ok es) = max_id es
max_id_or_zero (err e) = 0

module _ (codec : Codec) where
  -- What was rebuilt is persisted.
  abbrev pub rebuild_index : List Segment → Result (Index × IndexFile)
  rebuild_index all = rebuild codec all >>= λ idx. ok (idx, stored_index idx)

  -- The index, and what index.json has then. It is not looked at when a swap was recovered, and its
  -- entries must point into the files.
  unfoldable pub load_index : Disk → List Segment → Result (Index × IndexFile)
  unfolding sizes_of
  load_index d all = if d.swap_recovered then rebuild_index all else elim d.persisted [
    | no_index ↦ rebuild_index all
    | stale_index ↦ rebuild_index all
    | unreadable_index ↦ err load_index_failed
    | stored_index idx ↦
        if segments_valid (sizes_of all) idx then ok (idx, stored_index idx) else rebuild_index all
  ]

  unfoldable pub active_max_id : Segment → ℕ
  unfolding max_id
  active_max_id active = max_id_or_zero (scan_all codec active)

  -- The loop over the segments; one that cannot be read is left out.
  unfoldable pub scan_max_id : List Segment → ℕ
  unfolding max_id
  scan_max_id [] = 0
  scan_max_id (s ∷ ss) = max_of (max_id_or_zero (scan_all codec s)) (scan_max_id ss)

  unfoldable pub load_counter : Option ℕ → Segment → List Segment → Index → ℕ
  unfolding active_max_id scan_max_id max_key
  load_counter (some counter) active all idx = max_of counter (active_max_id active)
  load_counter none active all idx = max_of (max_key idx) (scan_max_id all)

  -- Without a readable meta.json the counter that was found is written to it.
  abbrev pub persisted_counter : Option ℕ → ℕ → ℕ
  persisted_counter (some counter) found = counter
  persisted_counter none found = found

  -- The collection, and index.json.
  unfoldable pub load :
      CollectionConfig → Map Str SecondaryIndex → Disk → Result (Collection × IndexFile)
  unfolding split_active load_counter
  load cfg m d = do
    let found = split_active d.files
    active ← or_error (open_active_segment found.1.0 found.1.1) recover_failed
    let all = found.0 ++ active ∷ []
    (idx, file) ← load_index d all
    let counter = load_counter d.meta active all idx
    ok (
        (
          record {
            cfg = cfg;
            sealed = found.0;
            active = active;
            index = idx;
            id_seq = counter;
            meta_counter = persisted_counter d.meta counter;
            sidx_map = m;
            published = [];
            events = [];
          },
          file,
        ))

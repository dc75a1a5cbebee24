-- ===== src/Collection.antt =====
-- engine/collection.go, ttl.go and quota.go: the writes and reads of one collection that is not
-- encrypted. The clock is the argument `now`; fsync and locks are left out. `meta_counter` is the
-- id counter in meta.json, which a rotation persists. `published` and `events` are the calls of the replication feed and of `emit`.
pub mod Quota
pub mod Rotation
pub mod Written
pub mod ReadBack
pub mod Tests
use file_dbv.Prelude.{
  ℕ, zero, suc, ◌+◌, Bool, true, false, not, ◌&&◌, Option, none, some, List, [], ◌∷◌, ◌++◌, Str,
  codes, Map, lookup, length, ltb, leb, nat_beq, nat_eq, str_eq, ◌==◌, if◌then◌else◌,
}
use file_dbv.Result.{
  Result, Error, ok, err, resource_exhausted, duplicate_key, reserved_field, not_found,
  segment_not_found, ◌>>=◌, ◌>>◌,
}
use file_dbv.Json.{Data, Value, text}
use file_dbv.Store.{
  Entry, Codec, Op, op_insert, op_update, op_delete, new_insert, new_update, new_delete, encode,
}
use file_dbv.Segment.{Segment, append, read_at, seal}
use file_dbv.Index
use file_dbv.Index.{Index, IndexEntry}
use file_dbv.Query.{Format}
use file_dbv.Sidx
use file_dbv.Sidx.{SecondaryIndex, conflict, to_index_key}

pub record CollectionConfig : Type 0 where
  pub segment_max_size : ℕ
  pub default_ttl : ℕ
  pub max_records : ℕ
  pub max_bytes : ℕ

pub record WatchEvent : Type 0 where
  pub op : Op
  pub id : ℕ
  pub fields : Option Data
  pub ts : ℕ

pub record Collection : Type 0 where
  pub cfg : CollectionConfig
  pub sealed : List Segment
  pub active : Segment
  pub index : Index
  pub id_seq : ℕ
  pub meta_counter : ℕ
  pub sidx_map : Map Str SecondaryIndex
  pub published : List Entry
  pub events : List WatchEvent

pub record Record : Type 0 where
  pub id : ℕ
  pub key : Str
  pub rev : ℕ
  pub ts : ℕ
  pub fields : Option Data

abbrev pub key_field : Str
key_field = codes "_key"

-- `data[KeyField].(string)`, or the empty string.
abbrev string_or_empty : Option Value → Str
string_or_empty (some (text s)) = s
string_or_empty _ = []

abbrev pub key_of : Option Data → Str
key_of none = []
key_of (some d) = string_or_empty (lookup key_field d)

-- A zero deadline never expires.
unfoldable pub expired : ℕ → ℕ → Bool
expired deadline now = not (nat_beq deadline 0) && leb deadline now

-- `explicit` is the zero time when it is `none`.
unfoldable pub resolve_insert_expiry : Option ℕ → ℕ → CollectionConfig → ℕ
resolve_insert_expiry (some at) now cfg = at
resolve_insert_expiry none now cfg = if ltb 0 cfg.default_ttl then now + cfg.default_ttl else 0

unfoldable pub total_size : List Segment → ℕ
total_size [] = 0
total_size (s ∷ ss) = s.size + total_size ss

unfoldable pub size_bytes : Collection → ℕ
unfolding total_size
size_bytes c = total_size c.sealed + c.active.size

unfoldable pub check_quota : ℕ → ℕ → Collection → Result (Unit {0})
unfolding size_bytes
check_quota new_records new_bytes c =
    if ltb 0 c.cfg.max_records && ltb c.cfg.max_records (Index.len c.index + new_records)
    then err resource_exhausted
    else if ltb 0 c.cfg.max_bytes && ltb c.cfg.max_bytes (size_bytes c + new_bytes)
    then err resource_exhausted
    else ok tt

abbrev pub encoded_length : Result Str → ℕ
encoded_length (ok b) = length b
encoded_length (err e) = 0

unfoldable pub entry_quota_bytes : Codec → Entry → Collection → ℕ
entry_quota_bytes codec e c =
    if nat_beq c.cfg.max_bytes 0 then 0 else encoded_length (encode codec e)

-- One past the highest number among the sealed segments.
unfoldable pub max_seg : List Segment → ℕ
max_seg [] = 0
max_seg (s ∷ ss) = let rest = max_seg ss in if ltb rest s.path then s.path else rest

-- The new file is empty: no segment has its number.
unfoldable pub rotate_segment : Collection → Collection
unfolding seal
rotate_segment c =
    let sealed = c.sealed ++ seal c.active ∷ [] in
    record c {
      sealed = sealed;
      active = record { path = max_seg sealed + 1; bytes = []; size = 0; sealed = false };
      meta_counter = c.id_seq;
    }

unfoldable pub rotate_if_full : Collection → Collection
rotate_if_full c = if leb c.cfg.segment_max_size c.active.size then rotate_segment c else c

unfoldable pub emit : WatchEvent → Collection → Collection
emit ev c = record c { events = c.events ++ ev ∷ [] }

unfoldable pub segment_by_path_in : ℕ → List Segment → Option Segment
segment_by_path_in path [] = none
segment_by_path_in path (s ∷ ss) =
    if nat_beq s.path path then some s else segment_by_path_in path ss

unfoldable pub segment_by_path : ℕ → Collection → Option Segment
unfolding segment_by_path_in
segment_by_path path c = elim (segment_by_path_in path c.sealed) [
  | some s ↦ some s
  | none ↦ if nat_beq c.active.path path then some c.active else none
]

abbrev pub has_field : Str → Data → Bool
has_field field d = elim (lookup field d) [ none ↦ false | some v ↦ true ]

module _ (f : Format) where
  unfoldable pub violates : ℕ → Data → Str → SecondaryIndex → Bool
  violates id d field s =
      s.unique && elim (lookup field d) [ none ↦ false | some v ↦ conflict (to_index_key f v) id s ]

  unfoldable pub sidx_check_unique : ℕ → Data → Map Str SecondaryIndex → Result (Unit {0})
  unfolding violates
  sidx_check_unique id d [] = ok tt
  sidx_check_unique id d ((field, s) ∷ m) =
      if violates id d field s then err duplicate_key else sidx_check_unique id d m

  unfoldable pub sidx_index_entry : ℕ → Data → Map Str SecondaryIndex → Map Str SecondaryIndex
  sidx_index_entry id d [] = []
  sidx_index_entry id d ((field, s) ∷ m) =
      (field, elim (lookup field d) [ none ↦ s | some v ↦ Sidx.add f v id s ])
      ∷ sidx_index_entry id d m

  unfoldable pub sidx_update_entry : ℕ → Data → Map Str SecondaryIndex → Map Str SecondaryIndex
  sidx_update_entry id d [] = []
  sidx_update_entry id d ((field, s) ∷ m) =
      (field, elim (lookup field d) [ none ↦ Sidx.remove f id s | some v ↦ Sidx.update f id v s ])
      ∷ sidx_update_entry id d m

  unfoldable pub sidx_remove_entry : ℕ → Map Str SecondaryIndex → Map Str SecondaryIndex
  sidx_remove_entry id [] = []
  sidx_remove_entry id ((field, s) ∷ m) = (field, Sidx.remove f id s) ∷ sidx_remove_entry id m

-- Where an entry that was appended at an offset of the active segment stands.
abbrev pub location : Collection → ℕ → Entry → IndexEntry
location c offset e = record {
  segment_path = c.active.path;
  offset = offset;
  rev = e.rev;
  expires_at = e.expires_at;
  epoch = e.epoch;
}

abbrev pub event_of : Entry → WatchEvent
event_of e = record { op = e.op; id = e.id; fields = e.fields; ts = e.ts }

-- The steps of a write that can fail only look at the collection; the last one changes it. A step
-- that fails leaves the collection as the write has found it.
abbrev pub all_or : {A : Type 0} → Result (A × Collection) → Collection → Result A × Collection
all_or (ok (a, c')) c = (ok a, c')
all_or (err e) c = (err e, c)

module _ (codec : Codec) (f : Format) where
  -- What follows the append in `insert`.
  unfoldable pub inserted : Entry → Data → ℕ → Segment → Collection → Collection
  inserted e d offset active c = emit (event_of e) (
      rotate_if_full (record c {
        active = active;
        index = Index.set e.id (location c offset e) c.index;
        sidx_map = sidx_index_entry f e.id d c.sidx_map;
        published = c.published ++ e ∷ [];
      }))

  unfoldable pub try_insert : Entry → Data → Collection → Result (ℕ × Collection)
  try_insert e d c = do
    check_quota 1 (entry_quota_bytes codec e c) c
    sidx_check_unique f e.id d c.sidx_map
    (offset, active) ← append codec c.active e
    ok (e.id, inserted e d offset active c)

  -- The id is taken even if the write is refused.
  unfoldable pub insert : Data → ℕ → ℕ → Collection → Result ℕ × Collection
  insert d expires_at now c =
      let id = c.id_seq + 1 in
      let c' = record c { id_seq = id } in
      let e = record (new_insert now id d) { rev = 1; expires_at = expires_at } in
      all_or (try_insert e d c') c'

  unfoldable pub insert_public : Data → Option ℕ → ℕ → Collection → Result ℕ × Collection
  insert_public d explicit now c =
      if has_field key_field d
      then (err reserved_field, c)
      else insert d (resolve_insert_expiry explicit now c.cfg) now c

  unfoldable pub updated : Entry → Data → ℕ → Segment → Collection → Collection
  updated e d offset active c = emit (event_of e) (
      rotate_if_full (record c {
        active = active;
        index = Index.set e.id (location c offset e) c.index;
        sidx_map = sidx_update_entry f e.id d c.sidx_map;
        published = c.published ++ e ∷ [];
      }))

  abbrev pub update_entry : Data → ℕ → Bool → ℕ → ℕ → IndexEntry → Entry
  update_entry d expires_at keep_expiry now id cur = record (new_update now id d) {
    rev = cur.rev + 1;
    expires_at = if keep_expiry then cur.expires_at else expires_at;
  }

  unfoldable pub try_update : Entry → Data → Collection → Result (Unit {0} × Collection)
  try_update e d c = do
    sidx_check_unique f e.id d c.sidx_map
    (offset, active) ← append codec c.active e
    ok (tt, updated e d offset active c)

  unfoldable pub update : ℕ → Data → ℕ → Bool → ℕ → Collection → Result (Unit {0}) × Collection
  update id d expires_at keep_expiry now c = elim (Index.get id c.index) [
    | none ↦ (err not_found, c)
    | some cur ↦ all_or (try_update (update_entry d expires_at keep_expiry now id cur) d c) c
  ]

  -- Delete does not rotate the active segment.
  unfoldable pub deleted : Entry → Segment → Collection → Collection
  deleted e active c = emit (event_of e) (record c {
    active = active;
    index = Index.remove e.id c.index;
    sidx_map = sidx_remove_entry f e.id c.sidx_map;
    published = c.published ++ e ∷ [];
  })

  unfoldable pub try_delete : Entry → Collection → Result (Unit {0} × Collection)
  try_delete e c = do (offset, active) ← append codec c.active e; ok (tt, deleted e active c)

  unfoldable pub delete : ℕ → ℕ → Collection → Result (Unit {0}) × Collection
  delete id now c = elim (Index.get id c.index) [
    | none ↦ (err not_found, c)
    | some cur ↦ all_or (try_delete (new_delete now id) c) c
  ]

  unfoldable pub read_location : ℕ → IndexEntry → Collection → Result Record
  read_location id loc c = elim (segment_by_path loc.segment_path c) [
    | none ↦ err segment_not_found
    | some s ↦ (do
      e ← read_at codec s loc.offset
      ok (record { id = id; key = key_of e.fields; rev = loc.rev; ts = e.ts; fields = e.fields }))
  ]

  unfoldable pub get : ℕ → ℕ → Collection → Result Record
  unfolding read_location expired
  get id now c = elim (Index.get id c.index) [
    | none ↦ err not_found
    | some loc ↦ if expired loc.expires_at now then err not_found else read_location id loc c
  ]

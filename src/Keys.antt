-- ===== src/Keys.antt =====
-- engine/keys.go and the compare-and-swap of engine/collection.go: writes and reads by the reserved
-- key field, of a collection that is not encrypted and whose index on that field exists.
pub mod Swap
pub mod Tests
use file_dbv.Prelude.{
  ℕ, suc, ◌+◌, Bool, true, false, Option, none, some, List, [], ◌∷◌, ◌++◌, Str, Map, lookup,
  nat_beq, nat_eq, str_eq, if◌then◌else◌,
}
use file_dbv.Result.{Result, ok, err, reserved_field, key_not_found, segment_not_found, ◌>>=◌, ◌>>◌}
use file_dbv.Json.{Data, text, put_field}
use file_dbv.Store.{Entry, Codec, new_insert, new_update}
use file_dbv.Segment.{Segment, append, read_at}
use file_dbv.Index
use file_dbv.Index.{Index, IndexEntry}
use file_dbv.Query.{Format}
use file_dbv.Sidx.{SecondaryIndex, lookup_ids, new_secondary_index}
use file_dbv.Collection
use file_dbv.Collection.{
  Collection, Record, key_field, has_field, all_or, check_quota, entry_quota_bytes,
  sidx_check_unique, resolve_insert_expiry, inserted, updated, segment_by_path,
}

unfoldable pub stamp_key : Data → Str → Data
stamp_key d key = put_field key_field (text key) d

unfoldable pub index_lookup : Str → Str → Collection → Option (List ℕ)
index_lookup field value c = elim (lookup field c.sidx_map) [
  | none ↦ none
  | some s ↦ some (lookup_ids value s)
]

-- The first id that an index returned, if there is an index and an id.
abbrev pub first_id : Option (List ℕ) → Option ℕ
first_id none = none
first_id (some []) = none
first_id (some (id ∷ ids)) = some id

unfoldable pub resolve_key : Str → Collection → Result ℕ
unfolding index_lookup
resolve_key key c = elim (first_id (index_lookup key_field key c)) [
  | none ↦ err key_not_found
  | some id ↦ ok id
]

module _ (codec : Codec) (f : Format) where
  unfoldable pub insert_with_key : Str → Data → ℕ → Collection → Result ℕ × Collection
  insert_with_key key d now c =
      if has_field key_field d
      then (err reserved_field, c)
      else Collection.insert codec f (stamp_key d key) (resolve_insert_expiry none now c.cfg) now c

  unfoldable pub find_by_key : Str → ℕ → Collection → Result Record
  find_by_key key now c = resolve_key key c >>= λ id. Collection.get codec f id now c

  unfoldable pub update_by_key : Str → Data → ℕ → Collection → Result (Unit {0}) × Collection
  update_by_key key d now c =
      if has_field key_field d then (err reserved_field, c) else elim (resolve_key key c) [
        | err e ↦ (err e, c)
        | ok id ↦ Collection.update codec f id (stamp_key d key) 0 true now c
      ]

  unfoldable pub delete_by_key : Str → ℕ → Collection → Result (Unit {0}) × Collection
  delete_by_key key now c = elim (resolve_key key c) [
    | err e ↦ (err e, c)
    | ok id ↦ Collection.delete codec f id now c
  ]

  abbrev pub upsert_record : Entry → Str → Record
  upsert_record e key = record { id = e.id; key = key; rev = e.rev; ts = e.ts; fields = e.fields }

  abbrev pub upsert_insert_entry : Data → ℕ → Collection → Entry
  upsert_insert_entry stamped now c = record (new_insert now c.id_seq stamped) {
    rev = 1;
    expires_at = resolve_insert_expiry none now c.cfg;
  }

  -- `c.id_seq` is the id that was just taken.
  unfoldable pub try_upsert_insert : Str → Data → ℕ → Collection → Result (Record × Collection)
  try_upsert_insert key stamped now c = do
    let e = upsert_insert_entry stamped now c
    check_quota 1 (entry_quota_bytes codec e c) c
    sidx_check_unique f e.id stamped c.sidx_map
    (offset, active) ← append codec c.active e
    ok (upsert_record e key, inserted codec f e stamped offset active c)

  abbrev pub replace_entry : ℕ → IndexEntry → Data → ℕ → Entry
  replace_entry id cur stamped now = record (new_update now id stamped) {
    rev = cur.rev + 1;
    expires_at = cur.expires_at;
  }

  unfoldable pub try_replace :
      Str → ℕ → IndexEntry → Data → ℕ → Collection → Result (Record × Collection)
  try_replace key id cur stamped now c = do
    let e = replace_entry id cur stamped now
    sidx_check_unique f e.id stamped c.sidx_map
    (offset, active) ← append codec c.active e
    ok (upsert_record e key, updated codec f e stamped offset active c)

  -- The record that carries the key: its id and its place.
  unfoldable pub live_key : Str → Collection → Option (ℕ × IndexEntry)
  unfolding index_lookup
  live_key key c = elim (first_id (index_lookup key_field key c)) [
    | none ↦ none
    | some id ↦ elim (Index.get id c.index) [ none ↦ none | some cur ↦ some (id, cur) ]
  ]

  abbrev pub with_next_id : Collection → Collection
  with_next_id c = record c { id_seq = c.id_seq + 1 }

  unfoldable pub upsert : Str → Data → ℕ → Collection → Result Record × Collection
  unfolding live_key try_upsert_insert try_replace stamp_key
  upsert key d now c =
      if has_field key_field d then (err reserved_field, c) else elim (live_key key c) [
        | some (id, cur) ↦ all_or (try_replace key id cur (stamp_key d key) now c) c
        | none ↦
            all_or (try_upsert_insert key (stamp_key d key) now (with_next_id c)) (with_next_id c)
      ]

  unfoldable pub read_current : IndexEntry → Collection → Result Entry
  read_current loc c = elim (segment_by_path loc.segment_path c) [
    | none ↦ err segment_not_found
    | some s ↦ read_at codec s loc.offset
  ]

  abbrev pub swap_result : Result (Record × Collection) → Collection → Result Bool × Collection
  swap_result (ok (r, c')) c = (ok true, c')
  swap_result (err e) c = (err e, c)

  -- `holds` is the condition on the current data and revision.
  unfoldable pub swap_if :
      (Option Data → ℕ → Bool)
      → Str
      → ℕ
      → IndexEntry
      → Data
      → ℕ
      → Collection
      → Result Bool × Collection
  unfolding read_current try_replace stamp_key
  swap_if holds key id loc d now c = elim (read_current loc c) [
    | err e ↦ (err e, c)
    | ok cur ↦
        if holds cur.fields loc.rev
        then swap_result (try_replace key id loc (stamp_key d key) now c) c
        else (ok false, c)
  ]

  unfoldable pub compare_and_swap :
      Str → Data → (Option Data → ℕ → Bool) → ℕ → Collection → Result Bool × Collection
  unfolding live_key swap_if
  compare_and_swap key d holds now c = elim (live_key key c) [
    | none ↦ (ok false, c)
    | some (id, loc) ↦ swap_if holds key id loc d now c
  ]

  unfoldable pub update_if_rev : Str → ℕ → Data → ℕ → Collection → Result Bool × Collection
  update_if_rev key expected_rev d now c =
      if has_field key_field d
      then (err reserved_field, c)
      else compare_and_swap key d (λ cur cur_rev. nat_beq cur_rev expected_rev) now c

  unfoldable pub update_if_match :
      Str → (Option Data → Bool) → Data → ℕ → Collection → Result Bool × Collection
  update_if_match key pred d now c =
      if has_field key_field d
      then (err reserved_field, c)
      else compare_and_swap key d (λ cur cur_rev. pred cur) now c

-- ===== src/Follower.antt =====
-- engine/replication.go: what a follower does with an entry of the leader. The index on the key field
-- exists already (ensureKeyIndex has nothing to do), and fsync is left out.
pub mod Replica
pub mod Contents
pub mod Shown
pub mod Applied
pub mod Twice
pub mod Leads
pub mod Lockstep
pub mod Tests
use file_dbv.Prelude.{
  ℕ, Bool, true, false, Option, none, some, List, [], ◌∷◌, ◌++◌, leb, nat_eq, if◌then◌else◌,
}
use file_dbv.Result.{Result, ok, err, unknown_op, ◌>>=◌}
use file_dbv.Store.{Entry, Op, op_insert, op_update, op_delete, op_other, Codec}
use file_dbv.Segment.{Segment, append}
use file_dbv.Index
use file_dbv.Index.{IndexEntry}
use file_dbv.Query.{Format}
use file_dbv.Collection.{
  Collection, WatchEvent, all_or, location, rotate_if_full, emit, event_of, sidx_index_entry,
  sidx_update_entry, sidx_remove_entry,
}
use file_dbv.Scan.{data_of}

-- The id counter stays ahead of the applied ids.
abbrev pub raise_id_seq : ℕ → Collection → Collection
raise_id_seq id c = record c { id_seq = if leb id c.id_seq then c.id_seq else id }

-- The event of a delete has no fields.
abbrev pub applied_event : Entry → WatchEvent
applied_event e = elim e.op [ op_delete ↦ record (event_of e) { fields = none } | _ ↦ event_of e ]

-- What follows the change of the indexes.
unfoldable pub settle : Entry → Collection → Collection
settle e c = emit (applied_event e) (rotate_if_full (raise_id_seq e.id c))

-- An equal or newer revision is there already.
abbrev pub is_stale : Entry → Option IndexEntry → Bool
is_stale e none = false
is_stale e (some cur) = leb e.rev cur.rev

module _ (codec : Codec) (f : Format) where
  unfoldable pub apply_delete : Entry → Collection → Result (Unit {0} × Collection)
  apply_delete e c = do
    (offset, active) ← append codec c.active e
    ok (
      tt,
      settle e (record c {
        active = active;
        index = Index.remove e.id c.index;
        sidx_map = sidx_remove_entry f e.id c.sidx_map;
      }),
    )

  unfoldable pub apply_write :
      Entry → Option IndexEntry → Collection → Result (Unit {0} × Collection)
  apply_write e cur c = do
    (offset, active) ← append codec c.active e
    ok (
      tt,
      settle e (record c {
        active = active;
        index = Index.set e.id (location c offset e) c.index;
        sidx_map = elim cur [
          | none ↦ sidx_index_entry f e.id (data_of e.fields) c.sidx_map
          | some loc ↦ sidx_update_entry f e.id (data_of e.fields) c.sidx_map
        ];
      }),
    )

  abbrev pub apply_newer : Entry → Option IndexEntry → Collection → Result (Unit {0}) × Collection
  apply_newer e cur c = if is_stale e cur then (ok tt, c) else all_or (apply_write e cur c) c

  unfoldable pub apply_entry : Entry → Collection → Result (Unit {0}) × Collection
  apply_entry e c = elim e.op [
    | op_delete ↦ elim (Index.get e.id c.index) [
      | none ↦ (ok tt, c)
      | some cur ↦ all_or (apply_delete e c) c
    ]
    | op_insert ↦ apply_newer e (Index.get e.id c.index) c
    | op_update ↦ apply_newer e (Index.get e.id c.index) c
    | op_other s ↦ (err unknown_op, c)
  ]

  -- A run of entries of one collection, up to the first error.
  unfoldable pub apply_all : List Entry → Collection → Result Collection
  unfolding apply_entry
  apply_all [] c = ok c
  apply_all (e ∷ es) c = elim (apply_entry e c).0 [
    | err x ↦ err x
    | ok u ↦ apply_all es (apply_entry e c).1
  ]

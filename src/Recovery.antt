-- ===== src/Recovery.antt =====
-- The open of a collection after a crash, load of engine/collection.go without the persisted index:
-- the index that Rebuild makes from the segment files against the index that the writes kept.
pub mod Replayed
pub mod Kept
pub mod Writes
pub mod Batches
pub mod Bulk
pub mod Stamped
pub mod Keyed
pub mod Crash
pub mod Runs
pub mod Stale
pub mod Tests
use file_dbv.Prelude.{ℕ, ◌<◌, ◌≡◌, none, List, [], ◌∷◌, ◌++◌}
use file_dbv.Result.{ok}
use file_dbv.Store.{Codec}
use file_dbv.Segment.{Segment}
use file_dbv.Segment.Holds.{Item, Holds}
use file_dbv.Index
use file_dbv.Index.{Index, rebuild}
use file_dbv.Collection.{Collection}
use file_dbv.Load.{active_max_id}

-- The active segment holds what was appended to it, and Rebuild makes the index.
pub record IsReplayed (codec : Codec) (sealed : List Segment) (active : Segment) (index : Index)
    : Type 0 where
  pub items : List Item
  pub holds : Holds codec active items
  pub rebuilt : rebuild codec (sealed ++ active ∷ []) ≡ ok index

-- Besides, every id of the index has been taken from the counter, and stands in the active segment
-- if it is above the persisted counter.
pub record IsRecoverable (codec : Codec) (c : Collection) : Type 0 where
  pub replayed : IsReplayed codec c.sealed c.active c.index
  pub taken : (id : ℕ) → c.id_seq < id → Index.get id c.index ≡ none
  pub known :
      (id : ℕ)
      → c.meta_counter < id
      → active_max_id codec c.active < id
      → Index.get id c.index ≡ none

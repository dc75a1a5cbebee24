-- ===== src/Recovery/Crash.antt =====
-- A crash in the middle of an append, and the load of engine/collection.go that follows it.
use file_dbv.Prelude.{
  ℕ, ◌≤◌, ◌<◌, ◌≡◌, refl, sym, ap, ◌∙◌, ◌⊎◌, inl, inr, Bool-cases, Bool, true, false, Option, none,
  some, List, [], ◌∷◌, ◌++◌, map, arith, nat_eq, nat_beq_iff, Str, Map, length, take, lookup, All,
}
use file_dbv.Result.{Result, ok, err, ◌>>=◌}
use file_dbv.Store.{Codec, newline}
use file_dbv.Segment.{Segment, open_active_segment, scan_all}
use file_dbv.Segment.CompleteLines.{IsClean}
use file_dbv.Segment.Holds.{Holds-IsClean}
use file_dbv.Segment.Recovery.{recover_torn_append}
use file_dbv.Index
use file_dbv.Index.{Index, rebuild, rebuild_from, rebuild_segment, scan_offsets, segments_valid}
use file_dbv.Sidx.{SecondaryIndex}
use file_dbv.Collection.{Collection, CollectionConfig}
use file_dbv.Load.{
  Disk, IndexFile, no_index, stale_index, unreadable_index, stored_index, sizes_of,
  open_sealed_segment, split_active, max_key, load_index, active_max_id, load_counter,
  persisted_counter, load,
}
use file_dbv.Recovery.{IsReplayed, IsRecoverable}
use file_dbv.Recovery.Replayed.{rebuild_from-append}

abbrev pub file_of : Segment → ℕ × Str
file_of s = (s.path, s.bytes)

-- What a crash leaves: `tail` is behind the last line.
abbrev pub crashed : Str → IndexFile → Option ℕ → Bool → Collection → Disk
crashed tail file meta swap c = record {
  files = map file_of c.sealed ++ (c.active.path, c.active.bytes ++ tail) ∷ [];
  persisted = file;
  meta = meta;
  swap_recovered = swap;
}

-- The first `k` bytes of a line that was not written in full.
pub record IsTorn (tail : Str) : Type 0 where
  pub line : Str
  pub k : ℕ
  pub printable : All (λ x. 32 ≤ x) line
  pub short : k ≤ length line
  pub cut : tail ≡ take k (line ++ newline ∷ [])

-- meta.json cannot be read, or it has the counter that was persisted last.
abbrev pub IsMeta : Option ℕ → Collection → Type 0
IsMeta none c = Unit
IsMeta (some n) c = n ≡ c.meta_counter

pub split_active-append :
    (ps : List (ℕ × Str)) (p : ℕ × Str)
    → split_active (ps ++ p ∷ []) ≡ (map open_sealed_segment ps, p)
unfolding split_active
split_active-append [] p = refl
split_active-append (q ∷ []) p = refl
split_active-append (q ∷ r ∷ ps) p = rw (split_active-append (r ∷ ps) p) refl

-- No id above the greatest one stands in the index.
above_max_key : (idx : Index) (id : ℕ) → max_key idx < id → Index.get id idx ≡ none
unfolding max_key Index.get lookup
above_max_key [] id above = refl
above_max_key ((i, loc) ∷ idx) id above = ground (arith, above_max_key idx id, nat_beq_iff i id)

module _ (codec : Codec) where
  abbrev pub reopened : Segment → Segment
  reopened s = record { path = s.path; bytes = s.bytes; size = length s.bytes; sealed = false }

  rebuild_from-files :
      (ss : List Segment) (idx : Index)
      → rebuild_from codec (map open_sealed_segment (map file_of ss)) idx
        ≡ rebuild_from codec ss idx
  unfolding rebuild_from rebuild_segment scan_all scan_offsets
  rebuild_from-files [] idx = refl
  rebuild_from-files (s ∷ ss) idx = over (rebuild_segment codec s idx) (rebuild_from-files ss)
    where
      over :
          {after : Index → Result Index} (r : Result Index)
          → ((i : Index) → after i ≡ rebuild_from codec ss i)
          → (r >>= after) ≡ (r >>= rebuild_from codec ss)
      over (ok i) same = same i
      over (err x) same = refl

  pub open_active_segment-torn :
      (s : Segment) (tail : Str)
      → IsClean s.bytes
      → IsTorn tail
      → open_active_segment s.path (s.bytes ++ tail) ≡ some (reopened s)
  unfolding open_active_segment
  open_active_segment-torn s tail clean t =
      rw
        (
          t.cut,
          open_active_segment,
          recover_torn_append s.bytes t.line t.k clean t.printable t.short,
        )
        refl

  rebuild-files :
      (ss : List Segment) (s : Segment)
      → rebuild codec (map open_sealed_segment (map file_of ss) ++ reopened s ∷ [])
        ≡ rebuild codec (ss ++ s ∷ [])
  unfolding rebuild rebuild_segment scan_all scan_offsets
  rebuild-files ss s =
      rebuild_from-append codec (map open_sealed_segment (map file_of ss)) (reopened s) []
      ∙ (rw (rebuild_from-files ss []) (over (rebuild_from codec ss []))
          ∙ sym (rebuild_from-append codec ss s []))
    where
      over :
          (r : Result Index)
          → (r >>= rebuild_segment codec (reopened s)) ≡ (r >>= rebuild_segment codec s)
      over (ok idx) = refl
      over (err x) = refl

  -- The collection that the load makes with the index `idx`.
  abbrev pub loaded_with :
      CollectionConfig → Map Str SecondaryIndex → Option ℕ → Collection → Index → Collection
  loaded_with cfg m meta c idx =
      let sealed = map open_sealed_segment (map file_of c.sealed) in
      let active = reopened c.active in
      let counter = load_counter codec meta active (sealed ++ active ∷ []) idx in
      record {
        cfg = cfg;
        sealed = sealed;
        active = active;
        index = idx;
        id_seq = counter;
        meta_counter = persisted_counter codec meta counter;
        sidx_map = m;
        published = [];
        events = [];
      }

  abbrev pub loaded : CollectionConfig → Map Str SecondaryIndex → Option ℕ → Collection → Collection
  loaded cfg m meta c = loaded_with cfg m meta c c.index

  abbrev pub file_segments : Collection → List Segment
  file_segments c = map open_sealed_segment (map file_of c.sealed) ++ reopened c.active ∷ []

  -- index.json does not mislead a load: it is not looked at, it is refused, or it is up to date.
  abbrev pub IsIndexFile : Bool → IndexFile → Collection → Type 0
  IsIndexFile true file c = Unit
  IsIndexFile false no_index c = Unit
  IsIndexFile false stale_index c = Unit
  IsIndexFile false unreadable_index c = ⊥
  IsIndexFile false (stored_index idx) c =
      (segments_valid (sizes_of (file_segments c)) idx ≡ false) ⊎ (idx ≡ c.index)

  load_index-crashed :
      (tail : Str) (file : IndexFile) (meta : Option ℕ) (swap : Bool) (c : Collection)
      → rebuild codec (file_segments c) ≡ ok c.index
      → IsIndexFile swap file c
      → load_index codec (crashed tail file meta swap c) (file_segments c)
        ≡ ok (c.index, stored_index c.index)
  unfolding load_index
  load_index-crashed tail file meta true c rebuilt h = rw rebuilt refl
  load_index-crashed tail no_index meta false c rebuilt h = rw rebuilt refl
  load_index-crashed tail stale_index meta false c rebuilt h = rw rebuilt refl
  load_index-crashed tail unreadable_index meta false c rebuilt h = absurd h
  load_index-crashed tail (stored_index idx) meta false c rebuilt (inl invalid) =
      rw (invalid, rebuilt) refl
  load_index-crashed tail (stored_index idx) meta false c rebuilt (inr same) =
      elim (Bool-cases (segments_valid (sizes_of (file_segments c)) idx)) [
        | inl valid ↦ rw valid (ap (λ (i : Index). ok (i, stored_index i)) same)
        | inr invalid ↦ rw (invalid, rebuilt) refl
      ]

  -- A load after a crash, once its index is known.
  pub load-opened :
      (cfg : CollectionConfig) (m : Map Str SecondaryIndex) (tail : Str) (file file' : IndexFile)
      (meta : Option ℕ) (swap : Bool) (c : Collection) (idx : Index)
      → IsClean c.active.bytes
      → IsTorn tail
      → load_index codec (crashed tail file meta swap c) (file_segments c) ≡ ok (idx, file')
      → load codec cfg m (crashed tail file meta swap c) ≡ ok (loaded_with cfg m meta c idx, file')
  unfolding load
  load-opened cfg m tail file file' meta swap c idx clean t found =
      rw
        (
          load,
          split_active-append (map file_of c.sealed) (c.active.path, c.active.bytes ++ tail),
          open_active_segment-torn c.active tail clean t,
        )
        (rw found refl)

  pub load-loaded :
      (cfg : CollectionConfig) (m : Map Str SecondaryIndex) (tail : Str) (file : IndexFile)
      (meta : Option ℕ) (swap : Bool) (c : Collection)
      → IsRecoverable codec c
      → IsTorn tail
      → IsIndexFile swap file c
      → load codec cfg m (crashed tail file meta swap c)
        ≡ ok (loaded cfg m meta c, stored_index c.index)
  load-loaded cfg m tail file meta swap c h t is_file =
      load-opened cfg m tail file _ meta swap c c.index
        (Holds-IsClean codec c.active h.replayed.items h.replayed.holds) t
        (load_index-crashed tail file meta swap c
          (rebuild-files c.sealed c.active ∙ h.replayed.rebuilt) is_file)

  loaded-IsReplayed :
      (c : Collection)
      → IsRecoverable codec c
      → IsReplayed codec
          (map open_sealed_segment (map file_of c.sealed))
          (reopened c.active)
          c.index
  loaded-IsReplayed c h = record {
    items = h.replayed.items;
    holds = record { all = h.replayed.holds.all; bytes = h.replayed.holds.bytes; sized = refl };
    rebuilt = rebuild-files c.sealed c.active ∙ h.replayed.rebuilt;
  }

  pub loaded-IsRecoverable :
      (cfg : CollectionConfig) (m : Map Str SecondaryIndex) (meta : Option ℕ) (c : Collection)
      → IsRecoverable codec c
      → IsMeta meta c
      → IsRecoverable codec (loaded cfg m meta c)
  unfolding load_counter active_max_id scan_all
  loaded-IsRecoverable cfg m none c h is_meta = record {
    replayed = loaded-IsReplayed c h;
    taken = λ id above. above_max_key c.index id (ground arith);
    known = λ id above above_active. above_max_key c.index id (ground arith);
  }
  loaded-IsRecoverable cfg m (some n) c h is_meta = record {
    replayed = loaded-IsReplayed c h;
    taken = λ id above. h.known id (ground arith) (ground arith);
    known = λ id above above_active. h.known id (ground arith) above_active;
  }

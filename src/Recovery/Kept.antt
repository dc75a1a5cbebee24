-- ===== src/Recovery/Kept.antt =====
-- The parts that the writes of engine/collection.go are made of keep a collection recoverable.
use file_dbv.Prelude.{
  ℕ, ◌+◌, ◌≤◌, ◌<◌, ◌≡◌, ◌≢◌, ◌∙◌, subst, true, Bool-cases, none, List, [], ◌∷◌, inl, inr, arith,
  nat_eq, leb, Map, Str, lookup-insert, lookup-delete, nat_beq_iff,
}
use file_dbv.Result.{ok, >>=-eq-ok}
use file_dbv.Store.{Codec, Entry, op_delete}
use file_dbv.Store.RoundTrip.{CodecLaws, HasFields}
use file_dbv.Segment.{Segment, append}
use file_dbv.Index
use file_dbv.Index.{Index, IndexEntry, rev_or_zero}
use file_dbv.Sidx.{SecondaryIndex}
use file_dbv.Collection.{Collection, WatchEvent, rotate_if_full, rotate_segment, emit, location}
use file_dbv.Batch.{put_indexed, drop_indexed, publish_all, emit_all}
use file_dbv.Load.{active_max_id}
use file_dbv.Recovery.{IsReplayed, IsRecoverable}
use file_dbv.Recovery.Replayed.{
  sets, active_max_id-append, append-IsReplayed, rotate-IsReplayed, rebuild_entry-set,
  rebuild_entry-remove,
}

module _ (codec : Codec) where
  pub rotate-IsRecoverable :
      (c : Collection) → IsRecoverable codec c → IsRecoverable codec (rotate_if_full c)
  unfolding rotate_if_full rotate_segment
  rotate-IsRecoverable c h = elim (Bool-cases (leb c.cfg.segment_max_size c.active.size)) [
    | inl e ↦ rw e (record {
      replayed = rotate-IsReplayed codec c.sealed c.active _ c.index h.replayed;
      taken = h.taken;
      known = λ id above_meta above_active. h.taken id above_meta;
    })
    | inr e ↦ rw e h
  ]

  pub emit-IsRecoverable :
      (ev : WatchEvent) (c : Collection) → IsRecoverable codec c → IsRecoverable codec (emit ev c)
  unfolding emit
  emit-IsRecoverable ev c h = record { replayed = h.replayed; taken = h.taken; known = h.known }

  pub emit_all-IsRecoverable :
      (evs : List WatchEvent) (c : Collection)
      → IsRecoverable codec c
      → IsRecoverable codec (emit_all evs c)
  unfolding emit_all
  emit_all-IsRecoverable [] c h = h
  emit_all-IsRecoverable (ev ∷ evs) c h =
      emit_all-IsRecoverable evs (emit ev c) (emit-IsRecoverable ev c h)

  pub publish_all-IsRecoverable :
      (es : List Entry) (c : Collection)
      → IsRecoverable codec c
      → IsRecoverable codec (publish_all es c)
  unfolding publish_all
  publish_all-IsRecoverable es c h = record {
    replayed = h.replayed;
    taken = h.taken;
    known = h.known;
  }

  -- Ids that are taken and not used.
  pub id_seq-IsRecoverable :
      (n : ℕ) (c : Collection)
      → IsRecoverable codec c
      → IsRecoverable codec (record c { id_seq = c.id_seq + n })
  id_seq-IsRecoverable n c h = record {
    replayed = h.replayed;
    taken = λ id below. h.taken id (omega arith);
    known = h.known;
  }

  set-taken :
      (id next k : ℕ) (loc : IndexEntry) (idx : Index)
      → id ≤ next
      → next < k
      → Index.get k idx ≡ none
      → Index.get k (Index.set id loc idx) ≡ none
  unfolding Index.get Index.set
  set-taken id next k loc idx old new h =
      ground (arith, lookup-insert id k loc idx, nat_beq_iff id k)

  remove-taken :
      (id k : ℕ) (idx : Index) → Index.get k idx ≡ none → Index.get k (Index.remove id idx) ≡ none
  unfolding Index.get Index.remove
  remove-taken id k idx h = ground (arith, lookup-delete id k idx)

  pub set-elsewhere :
      (id k : ℕ) (loc : IndexEntry) (idx : Index)
      → k ≢ id
      → Index.get k (Index.set id loc idx) ≡ Index.get k idx
  unfolding Index.get Index.set
  set-elsewhere id k loc idx other = ground (arith, lookup-insert id k loc idx, nat_beq_iff id k)

  -- What an entry must satisfy for the index to be set to its place.
  pub record IsPut (c : Collection) (e : Entry) : Type 0 where
    pub has : HasFields e.fields
    pub sets_index : sets e.op ≡ true
    pub next_rev : e.rev ≡ rev_or_zero (Index.get e.id c.index) + 1
    pub taken_id : e.id ≤ c.id_seq

  module _ (laws : CodecLaws codec) where
    -- An id above every id of the active segment after an append was so before it.
    grown :
        (e : Entry) (off : ℕ) (active : Segment) (c : Collection)
        → IsRecoverable codec c
        → HasFields e.fields
        → append codec c.active e ≡ ok (off, active)
        → (k : ℕ) → active_max_id codec active < k
        → (active_max_id codec c.active < k) × (k ≢ e.id)
    grown e off active c h has wrote k above =
        let same =
          active_max_id-append codec laws c.active active e off h.replayed.items h.replayed.holds
            has wrote in
        ground (arith, same)

    pub set-IsRecoverable :
        (e : Entry) (m : Map Str SecondaryIndex) (off : ℕ) (active : Segment) (c : Collection)
        → IsRecoverable codec c
        → IsPut c e
        → append codec c.active e ≡ ok (off, active)
        → IsRecoverable codec (record c {
          active = active;
          index = Index.set e.id (location c off e) c.index;
          sidx_map = m;
        })
    set-IsRecoverable e m off active c h p wrote = record {
      replayed =
          subst (IsReplayed codec c.sealed active)
            (rebuild_entry-set c.active.path c.index off e p.sets_index p.next_rev)
            (append-IsReplayed codec laws c.sealed c.active active c.index e off h.replayed p.has
              wrote);
      taken = λ k above.
          set-taken e.id c.id_seq k (location c off e) c.index p.taken_id above (h.taken k above);
      known = λ k above_meta above_active.
          let (below, other) = grown e off active c h p.has wrote k above_active in
          set-elsewhere e.id k (location c off e) c.index other ∙ h.known k above_meta below;
    }

    pub remove-IsRecoverable :
        (e : Entry) (m : Map Str SecondaryIndex) (off : ℕ) (active : Segment) (c : Collection)
        → IsRecoverable codec c
        → HasFields e.fields
        → e.op ≡ op_delete
        → append codec c.active e ≡ ok (off, active)
        → IsRecoverable codec
            (record c { active = active; index = Index.remove e.id c.index; sidx_map = m })
    remove-IsRecoverable e m off active c h has deletes wrote = record {
      replayed =
          subst (IsReplayed codec c.sealed active)
            (rebuild_entry-remove c.active.path c.index off e deletes)
            (append-IsReplayed codec laws c.sealed c.active active c.index e off h.replayed has
              wrote);
      taken = λ k above. remove-taken e.id k c.index (h.taken k above);
      known = λ k above_meta above_active.
          let (below, other) = grown e off active c h has wrote k above_active in
          remove-taken e.id k c.index (h.known k above_meta below);
    }

    pub put_indexed-IsRecoverable :
        (e : Entry) (m : Map Str SecondaryIndex) (c c' : Collection)
        → IsRecoverable codec c
        → IsPut c e
        → put_indexed codec e m c ≡ ok c'
        → IsRecoverable codec c'
    unfolding put_indexed
    put_indexed-IsRecoverable e m c c' h p done =
        let ((off, active), wrote, same) = >>=-eq-ok (append codec c.active e) _ done in
        subst (IsRecoverable codec) (cc) (set-IsRecoverable e m off active c h p wrote)

    pub drop_indexed-IsRecoverable :
        (e : Entry) (m : Map Str SecondaryIndex) (c c' : Collection)
        → IsRecoverable codec c
        → HasFields e.fields
        → e.op ≡ op_delete
        → drop_indexed codec e m c ≡ ok c'
        → IsRecoverable codec c'
    unfolding drop_indexed
    drop_indexed-IsRecoverable e m c c' h has deletes done =
        let ((off, active), wrote, same) = >>=-eq-ok (append codec c.active e) _ done in
        subst (IsRecoverable codec) (cc) (remove-IsRecoverable e m off active c h has deletes wrote)

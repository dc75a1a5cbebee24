-- ===== src/Recovery/Replayed.antt =====
-- Appends and rotations keep the index equal to the one that Rebuild makes.
use file_dbv.Prelude.{
  ℕ, ◌+◌, ◌≡◌, refl, sym, ap, ◌∙◌, Bool, true, false, List, [], ◌∷◌, ◌++◌, inl, inr, arith, nat_eq,
}
use file_dbv.Result.{Result, Result-cases, ok, err, ◌>>=◌}
use file_dbv.Store.{Codec, Entry, Op, op_insert, op_update, op_delete, op_other}
use file_dbv.Store.RoundTrip.{CodecLaws, HasFields, stamp}
use file_dbv.Segment.{Segment, append, seal, scan_all, scan_all_lines, split_lines}
use file_dbv.Segment.Append.{append_inversion}
use file_dbv.Segment.Holds.{Item, Holds, append-Holds, appended_item, entries_of, scan_all-Holds}
use file_dbv.Index
use file_dbv.Index.{
  Index, IndexEntry, rebuild, rebuild_from, rebuild_segment, rebuild_entry, rebuild_op, rebuilt,
  rebuild_entries, scan_offsets, rev_or_zero, max_rev,
}
use file_dbv.Index.Replay.{rebuild_segment-Appended}
use file_dbv.Load.{active_max_id, max_id, max_of}
use file_dbv.Recovery.{IsReplayed}

abbrev empty_segment : ℕ → Segment
empty_segment path = record { path = path; bytes = []; size = 0; sealed = false }

-- What a put of the index must know of its entry.
abbrev pub sets : Op → Bool
sets op_insert = true
sets op_update = true
sets op_delete = false
sets (op_other s) = false

rebuild_op-stamp :
    (op : Op) (path : ℕ) (idx : Index) (off : ℕ) (e : Entry) (sum : ℕ)
    → rebuild_op op path idx off (stamp e sum) ≡ rebuild_op op path idx off e
unfolding rebuild_op rebuilt
rebuild_op-stamp op_insert path idx off e sum = refl
rebuild_op-stamp op_update path idx off e sum = refl
rebuild_op-stamp op_delete path idx off e sum = refl
rebuild_op-stamp (op_other s) path idx off e sum = refl

pub entries_of-append :
    (is : List Item) (i : Item) → entries_of (is ++ i ∷ []) ≡ entries_of is ++ i.entry ∷ []
entries_of-append [] i = refl
entries_of-append (j ∷ is) i = ap (λ (t : List Entry). j.entry ∷ t) (entries_of-append is i)

max_id-append : (es : List Entry) (e : Entry) → max_id (es ++ e ∷ []) ≡ max_of (max_id es) e.id
unfolding max_id
max_id-append [] e = ground arith
max_id-append (x ∷ es) e = ground (arith, max_id-append es e)

module _ (codec : Codec) where
  pub rebuild_from-append :
      (ss : List Segment) (s : Segment) (idx : Index)
      → rebuild_from codec (ss ++ s ∷ []) idx
        ≡ (rebuild_from codec ss idx >>= rebuild_segment codec s)
  unfolding rebuild_from
  rebuild_from-append [] s idx = elim (Result-cases (rebuild_segment codec s idx)) [
    | inl (idx', e) ↦ rw e
    | inr (x, e) ↦ rw e
  ]
  rebuild_from-append (t ∷ ss) s idx = elim (Result-cases (rebuild_segment codec t idx)) [
    | inl (idx', e) ↦ rw e (rebuild_from-append ss s idx')
    | inr (x, e) ↦ rw e
  ]

  rebuild_empty : (path : ℕ) (idx : Index) → rebuild_segment codec (empty_segment path) idx ≡ ok idx
  unfolding rebuild_segment scan_all scan_all_lines split_lines rebuild_entries scan_offsets
  rebuild_empty path idx = refl

  seal_lem :
      (active : Segment) (r : Result Index)
      → (r >>= rebuild_segment codec active) ≡ (r >>= rebuild_segment codec (seal active))
  unfolding seal rebuild_segment scan_all scan_offsets
  seal_lem active (ok i) = refl
  seal_lem active (err x) = refl

  -- A rotation keeps the index: the sealed segment is read as before, and the new one is empty.
  pub rotate-IsReplayed :
      (sealed : List Segment) (active : Segment) (path : ℕ) (idx : Index)
      → IsReplayed codec sealed active idx
      → IsReplayed codec
          (sealed ++ seal active ∷ [])
          (record { path = path; bytes = []; size = 0; sealed = false })
          idx
  unfolding rebuild
  rotate-IsReplayed sealed active path idx h = record {
    items = [];
    holds = record { all = tt; bytes = refl; sized = refl };
    rebuilt =
        rebuild_from-append (sealed ++ seal active ∷ []) (empty_segment path) []
        ∙ (rw (rebuild_from-append sealed (seal active) [] ∙ (sealed_same ∙ h.rebuilt))
            (rebuild_empty path idx));
  }
    where
      sealed_same :
          (rebuild_from codec sealed [] >>= rebuild_segment codec (seal active))
          ≡ rebuild_from codec (sealed ++ active ∷ []) []
      sealed_same =
          sym
            (rebuild_from-append sealed active [] ∙ seal_lem active (rebuild_from codec sealed []))

  module _ (laws : CodecLaws codec) where
    pub active_max_id-append :
        (active active' : Segment) (e : Entry) (off : ℕ) (items : List Item)
        → Holds codec active items
        → HasFields e.fields
        → append codec active e ≡ ok (off, active')
        → active_max_id codec active' ≡ max_of (active_max_id codec active) e.id
    unfolding active_max_id
    active_max_id-append active active' e off items h has wrote =
        let a = append_inversion codec laws active active' e off has wrote in
        let h' = append-Holds codec items h a in
        rw
          (
            scan_all-Holds codec active' (items ++ appended_item codec a ∷ []) h',
            scan_all-Holds codec active items h,
          )
          (ap max_id (entries_of-append items (appended_item codec a))
            ∙ max_id-append (entries_of items) (stamp e a.sum))

    -- An append moves the rebuilt index by one entry.
    pub append-IsReplayed :
        (sealed : List Segment) (active active' : Segment) (idx : Index) (e : Entry) (off : ℕ)
        → IsReplayed codec sealed active idx
        → HasFields e.fields
        → append codec active e ≡ ok (off, active')
        → IsReplayed codec sealed active' (rebuild_entry active.path idx off e)
    unfolding rebuild rebuild_entry
    append-IsReplayed sealed active active' idx e off h has wrote =
        let a = append_inversion codec laws active active' e off has wrote in
        record {
          items = h.items ++ appended_item codec a ∷ [];
          holds = append-Holds codec h.items h.holds a;
          rebuilt =
              rebuild_from-append sealed active' []
              ∙ (step_over (rebuild_from codec sealed [])
                  ∙ (ap (λ r. r >>= λ i. ok (rebuild_entry active.path i off (stamp e a.sum)))
                        (sym (rebuild_from-append sealed active []) ∙ h.rebuilt)
                      ∙ ap ok (rebuild_op-stamp e.op active.path idx off e a.sum)));
        }
      where
        step_over :
            (r : Result Index)
            → (r >>= rebuild_segment codec active') ≡ (
                (r >>= rebuild_segment codec active) >>= λ i. ok (
                  rebuild_entry active.path i off
                    (stamp e (append_inversion codec laws active active' e off has wrote).sum)))
        step_over (err x) = refl
        step_over (ok i) =
            rebuild_segment-Appended codec active active' e off h.items i h.holds
              (append_inversion codec laws active active' e off has wrote)

-- The index entry that Rebuild makes of a put is the one that the put sets.
pub rebuild_entry-set :
    (path : ℕ) (idx : Index) (off : ℕ) (e : Entry)
    → sets e.op ≡ true
    → e.rev ≡ rev_or_zero (Index.get e.id idx) + 1
    → rebuild_entry path idx off e
      ≡ Index.set e.id
          (record {
            segment_path = path;
            offset = off;
            rev = e.rev;
            expires_at = e.expires_at;
            epoch = e.epoch;
          })
          idx
unfolding rebuild_entry rebuild_op rebuilt
rebuild_entry-set path idx off e s r = set_op e.op s r
  where
    set_op :
        (op : Op)
        → sets op ≡ true
        → e.rev ≡ rev_or_zero (Index.get e.id idx) + 1
        → rebuild_op op path idx off e
          ≡ Index.set e.id
              (record {
                segment_path = path;
                offset = off;
                rev = e.rev;
                expires_at = e.expires_at;
                epoch = e.epoch;
              })
              idx
    set_op op_insert s r = ground arith
    set_op op_update s r = ground arith
    set_op op_delete s r = cc
    set_op (op_other x) s r = cc

pub rebuild_entry-remove :
    (path : ℕ) (idx : Index) (off : ℕ) (e : Entry)
    → e.op ≡ op_delete
    → rebuild_entry path idx off e ≡ Index.remove e.id idx
unfolding rebuild_entry rebuild_op
rebuild_entry-remove path idx off e h = rw (rebuild_entry, h) refl

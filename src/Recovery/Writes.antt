-- ===== src/Recovery/Writes.antt =====
-- Insert, Update and Delete of engine/collection.go keep a collection recoverable.
use file_dbv.Prelude.{
  ℕ, ◌+◌, ◌≤◌, ◌≡◌, refl, sym, subst, Bool, Option, Option-cases, none, some, [], ◌∷◌, inl, inr,
  arith, nat_eq, Map, Str,
}
use file_dbv.Result.{Result, ok, err, not_found}
use file_dbv.Json.{Data}
use file_dbv.Store.{Codec, Entry, new_delete}
use file_dbv.Store.RoundTrip.{CodecLaws, HasFields}
use file_dbv.Segment.{Segment, append}
use file_dbv.Index
use file_dbv.Index.{IndexEntry, rev_or_zero}
use file_dbv.Query.{Format}
use file_dbv.Sidx.{SecondaryIndex}
use file_dbv.Collection.{
  Collection, all_or, insert, inserted, update, updated, delete, deleted, update_entry, try_insert,
  try_update, try_delete, event_of, sidx_index_entry, sidx_update_entry, sidx_remove_entry,
}
use file_dbv.Collection.Quota.{checked, insert_entry}
use file_dbv.Collection.Written.{written}
use file_dbv.Collection.ReadBack.{
  update-some, delete-some, try_update_inversion, try_delete_inversion,
}
use file_dbv.Recovery.{IsRecoverable}
use file_dbv.Recovery.Kept.{
  IsPut, set-IsRecoverable, remove-IsRecoverable, rotate-IsRecoverable, emit-IsRecoverable,
  publish_all-IsRecoverable, id_seq-IsRecoverable,
}
use file_dbv.Batch.{publish_all}

pub fresh_rev : (o : Option IndexEntry) → o ≡ none → ◌≡◌ {A = ℕ} 1 (rev_or_zero o + 1)
fresh_rev o h = ground arith

module _ (codec : Codec) where
  -- A write that fails keeps the collection that it started from.
  pub all_or-IsRecoverable :
      {A : Type 0} (m : Result (A × Collection)) (c : Collection)
      → IsRecoverable codec c
      → ((a : A) (c' : Collection) → m ≡ ok (a, c') → IsRecoverable codec c')
      → IsRecoverable codec (all_or m c).1
  all_or-IsRecoverable (ok (a, c')) c h wrote = wrote a c' refl
  all_or-IsRecoverable (err e) c h wrote = h

module _ (codec : Codec) (f : Format) (laws : CodecLaws codec) where
  pub written-IsRecoverable :
      (e : Entry) (m : Map Str SecondaryIndex) (off : ℕ) (active : Segment) (c : Collection)
      → IsRecoverable codec c
      → IsPut codec c e
      → append codec c.active e ≡ ok (off, active)
      → IsRecoverable codec (written e m off active c)
  unfolding publish_all
  written-IsRecoverable e m off active c h p wrote = emit-IsRecoverable codec (event_of e) _ (
      rotate-IsRecoverable codec _ (
        publish_all-IsRecoverable codec (e ∷ []) _
          (set-IsRecoverable codec laws e m off active c h p wrote)))

  pub next_rev :
      (o : Option IndexEntry) (cur : IndexEntry) → o ≡ some cur → cur.rev + 1 ≡ rev_or_zero o + 1
  next_rev o cur h = ground arith

  -- An id in the index has been taken.
  pub indexed_taken :
      (id : ℕ) (c : Collection) (cur : IndexEntry)
      → IsRecoverable codec c
      → Index.get id c.index ≡ some cur
      → id ≤ c.id_seq
  indexed_taken id c cur h at = ground (arith, h.taken id)

  pub insert-IsRecoverable :
      (d : Data) (expires_at now : ℕ) (c : Collection)
      → IsRecoverable codec c
      → HasFields (some d)
      → IsRecoverable codec (insert codec f d expires_at now c).1
  unfolding insert inserted
  insert-IsRecoverable d expires_at now c h has =
      let c1 = record c { id_seq = c.id_seq + 1 } in
      let h1 = id_seq-IsRecoverable codec 1 c h in
      let e = insert_entry codec f d expires_at now c in
      let p : IsPut codec c1 e = record {
        has = has;
        sets_index = refl;
        next_rev =
            fresh_rev (Index.get (c.id_seq + 1) c.index) (h.taken (c.id_seq + 1) (omega arith));
        taken_id = omega arith;
      } in
      all_or-IsRecoverable codec (try_insert codec f e d c1) c1 h1 (λ id c' done.
        let (off, active, quota, wrote, same, eq) = checked codec f e d c1 done in
        subst (IsRecoverable codec) (sym eq)
          (written-IsRecoverable e (sidx_index_entry f e.id d c.sidx_map) off active c1 h1 p wrote))

  update-none :
      (id : ℕ) (d : Data) (expires_at : ℕ) (keep : Bool) (now : ℕ) (c : Collection)
      → Index.get id c.index ≡ none
      → update codec f id d expires_at keep now c ≡ (err not_found, c)
  unfolding update
  update-none id d expires_at keep now c at = rw (update, at) refl

  pub update-IsRecoverable :
      (id : ℕ) (d : Data) (expires_at : ℕ) (keep : Bool) (now : ℕ) (c : Collection)
      → IsRecoverable codec c
      → HasFields (some d)
      → IsRecoverable codec (update codec f id d expires_at keep now c).1
  unfolding updated
  update-IsRecoverable id d expires_at keep now c h has =
      elim (Option-cases (Index.get id c.index)) [
        | inl at ↦ rw (update-none id d expires_at keep now c at) h
        | inr (cur, at) ↦
            let e = update_entry codec f d expires_at keep now id cur in
            let p : IsPut codec c e = record {
              has = has;
              sets_index = refl;
              next_rev = next_rev (Index.get id c.index) cur at;
              taken_id = indexed_taken id c cur h at;
            } in
            rw (update-some codec f id d expires_at keep now c cur at) (
              all_or-IsRecoverable codec (try_update codec f e d c) c h (λ u c' done.
                let (off, active, wrote, eq) = try_update_inversion codec f e d c done in
                subst (IsRecoverable codec) (sym eq) (
                  written-IsRecoverable e (sidx_update_entry f e.id d c.sidx_map) off active c h p
                    wrote)))
      ]

  delete-none :
      (id now : ℕ) (c : Collection)
      → Index.get id c.index ≡ none
      → delete codec f id now c ≡ (err not_found, c)
  unfolding delete
  delete-none id now c at = rw (delete, at) refl

  pub delete-IsRecoverable :
      (id now : ℕ) (c : Collection)
      → IsRecoverable codec c
      → IsRecoverable codec (delete codec f id now c).1
  unfolding deleted publish_all
  delete-IsRecoverable id now c h = elim (Option-cases (Index.get id c.index)) [
    | inl at ↦ rw (delete-none id now c at) h
    | inr (cur, at) ↦
        let e = new_delete now id in
        rw (delete-some codec f id now c cur at) (
          all_or-IsRecoverable codec (try_delete codec f e c) c h (λ u c' done.
            let (off, active, wrote, eq) = try_delete_inversion codec f e c done in
            subst (IsRecoverable codec) (sym eq) (
              emit-IsRecoverable codec (event_of e) _ (
                publish_all-IsRecoverable codec (e ∷ []) _ (
                  remove-IsRecoverable codec laws e (sidx_remove_entry f e.id c.sidx_map) off active
                    c h (tt, tt) refl wrote)))))
  ]

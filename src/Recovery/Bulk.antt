-- ===== src/Recovery/Bulk.antt =====
-- InsertMany of engine/collection.go and reapExpired of engine/ttl.go keep a collection recoverable.
use file_dbv.Prelude.{
  ℕ, ◌+◌, ◌≤◌, ◌≡◌, refl, ◌∙◌, Bool-cases, Option, none, some, List, [], ◌∷◌, map, inl, inr, arith,
  nat_eq, length, All,
}
use file_dbv.Result.{Result, Result-cases, ok, err}
use file_dbv.Json.{Data}
use file_dbv.Store.{Codec, Entry, new_delete}
use file_dbv.Store.RoundTrip.{CodecLaws, HasFields}
use file_dbv.Index
use file_dbv.Index.{Index}
use file_dbv.Query.{Format}
use file_dbv.Collection.{
  Collection, sidx_index_entry, sidx_remove_entry, event_of, resolve_insert_expiry,
}
use file_dbv.Batch.{put_indexed, drop_indexed}
use file_dbv.Batch.Bulk.{
  many_entry, many_entries, any_reserved, put_many, check_many, insert_many, expired_ids,
  still_expired, reap_ids, reaped, reap_expired,
}
use file_dbv.Recovery.{IsRecoverable}
use file_dbv.Recovery.Kept.{rotate-IsRecoverable, emit_all-IsRecoverable, id_seq-IsRecoverable}
use file_dbv.Recovery.Writes.{fresh_rev}
use file_dbv.Recovery.Batches.{put_indexed-IsStep, drop_indexed-IsStep, finish-IsRecoverable}

module _ (codec : Codec) (f : Format) (laws : CodecLaws codec) where
  put_many-IsRecoverable :
      (ds : List Data) (id exp now : ℕ) (c : Collection)
      → IsRecoverable codec c
      → All (λ d. HasFields (some d)) ds
      → id + length ds ≤ c.id_seq + 1
      → ((k : ℕ) → id ≤ k → Index.get k c.index ≡ none)
      → IsRecoverable codec (put_many codec f (many_entries id exp now ds) c).1
  unfolding put_many many_entries
  put_many-IsRecoverable [] id exp now c h has fits unused = h
  put_many-IsRecoverable (d ∷ ds) id exp now c h (first, rest) fits unused =
      let es = many_entries id exp now (d ∷ ds) in
      elim (Result-cases
        (put_indexed codec (many_entry id exp now d) (sidx_index_entry f id d c.sidx_map) c)) [
          | inr (x, at) ↦ rw (put_many, at) h
          | inl (c', at) ↦
              let s =
                put_indexed-IsStep codec laws (many_entry id exp now d) _ c c' h
                  (record {
                    has = first;
                    sets_index = refl;
                    next_rev = fresh_rev (Index.get id c.index) (unused id (omega arith));
                    taken_id = omega arith;
                  })
                  at in
              rw (put_many, at)
                (put_many-IsRecoverable ds (id + 1) exp now c' s.recoverable rest
                  (rw s.same_seq (omega arith))
                  (λ k above. s.elsewhere k (omega arith) ∙ unused k (omega arith)))
        ]

  pub insert_many-IsRecoverable :
      (ds : List Data) (explicit : Option ℕ) (now : ℕ) (c : Collection)
      → IsRecoverable codec c
      → All (λ d. HasFields (some d)) ds
      → IsRecoverable codec (insert_many codec f ds explicit now c).1
  unfolding insert_many
  insert_many-IsRecoverable [] explicit now c h has = h
  insert_many-IsRecoverable (d ∷ ds) explicit now c h has =
      let exp = resolve_insert_expiry explicit now c.cfg in
      let es = many_entries (c.id_seq + 1) exp now (d ∷ ds) in
      let c' = record c { id_seq = c.id_seq + length (d ∷ ds) } in
      let h' = id_seq-IsRecoverable codec (length (d ∷ ds)) c h in
      elim (Bool-cases (any_reserved (d ∷ ds))) [
        | inl r ↦ rw (insert_many, r) h
        | inr r ↦ elim (Result-cases (check_many codec f es c')) [
          | inr (x, at) ↦ rw (insert_many, r, at) h'
          | inl (u, at) ↦
              rw (insert_many, r, at)
                (finish-IsRecoverable codec laws f (put_many codec f es c').0 _ (
                  put_many-IsRecoverable (d ∷ ds) (c.id_seq + 1) exp now c' h' has (omega arith)
                    (λ k above. h.taken k (omega arith))))
        ]
      ]

  reap_ids-IsRecoverable :
      (ids : List ℕ) (now ts : ℕ) (c : Collection)
      → IsRecoverable codec c
      → IsRecoverable codec (reap_ids codec f ids now ts c).1
  unfolding reap_ids
  reap_ids-IsRecoverable [] now ts c h = h
  reap_ids-IsRecoverable (id ∷ ids) now ts c h =
      elim (Bool-cases (still_expired now (Index.get id c.index))) [
        | inr r ↦ rw (reap_ids, r) (reap_ids-IsRecoverable ids now ts c h)
        | inl r ↦
            elim (Result-cases
              (drop_indexed codec (new_delete ts id) (sidx_remove_entry f id c.sidx_map) c)) [
                | inr (x, at) ↦ rw (reap_ids, r, at) h
                | inl (c', at) ↦
                    let s =
                      drop_indexed-IsStep codec laws (new_delete ts id) _ c c' h (tt, tt) refl at in
                    rw (reap_ids, r, at) (reap_ids-IsRecoverable ids now ts c' s.recoverable)
              ]
      ]

  reaped-IsRecoverable :
      (r : Result (List Entry)) (c : Collection)
      → IsRecoverable codec c
      → IsRecoverable codec (reaped codec f r c).1
  reaped-IsRecoverable (err x) c h = h
  reaped-IsRecoverable (ok es) c h =
      emit_all-IsRecoverable codec (map event_of es) _ (rotate-IsRecoverable codec c h)

  pub reap_expired-IsRecoverable :
      (now ts : ℕ) (c : Collection)
      → IsRecoverable codec c
      → IsRecoverable codec (reap_expired codec f now ts c).1
  unfolding reap_expired
  reap_expired-IsRecoverable now ts c h = over (expired_ids now c.index)
    where
      over :
          (ids : List ℕ)
          → IsRecoverable codec
              (elim ids as (λ x. Result (List Entry) × Collection) [
                | [] ↦ (ok [], c)
                | id ∷ rest ↦
                    (let done = reap_ids codec f (id ∷ rest) now ts c in
                      reaped codec f done.0 done.1)
              ]).1
      over [] = h
      over (id ∷ rest) =
          reaped-IsRecoverable (reap_ids codec f (id ∷ rest) now ts c).0 _
            (reap_ids-IsRecoverable (id ∷ rest) now ts c h)

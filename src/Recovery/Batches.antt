-- ===== src/Recovery/Batches.antt =====
-- CommitTx, InsertMany and reapExpired of engine/collection.go and ttl.go keep a collection
-- recoverable, also when an append of the loop fails.
use file_dbv.Prelude.{
  Bool, true, false, ℕ, ◌≤◌, ◌≡◌, ◌≢◌, refl, sym, ◌∙◌, subst, none, some, List, [], ◌∷◌, map, inl,
  inr, arith, nat_eq, Map, Str, lookup-delete, nat_beq_iff,
}
use file_dbv.Result.{Result, Result-cases, ok, err, >>=-eq-ok}
use file_dbv.Store.{Codec, Entry, op_delete}
use file_dbv.Store.RoundTrip.{CodecLaws, HasFields}
use file_dbv.Segment.{append}
use file_dbv.Index
use file_dbv.Index.{Index, IndexEntry, rev_or_zero}
use file_dbv.Query.{Format}
use file_dbv.Sidx.{SecondaryIndex}
use file_dbv.Tx.{TxOp, TxOpKind, tx_insert, tx_update, tx_delete}
use file_dbv.Collection.{
  Collection, sidx_index_entry, sidx_update_entry, sidx_remove_entry, event_of, location,
}
use file_dbv.Batch.{
  has_insert, persist_inserts, put_indexed, drop_indexed, apply_kind, apply_ops, finish,
  check_commit, commit_checked, commit_tx, tx_insert_entry, tx_update_entry, tx_delete_entry,
}
use file_dbv.Recovery.{IsRecoverable}
use file_dbv.Recovery.Kept.{
  IsPut, set-elsewhere, set-IsRecoverable, remove-IsRecoverable, rotate-IsRecoverable,
  emit_all-IsRecoverable, publish_all-IsRecoverable,
}
use file_dbv.Recovery.Writes.{fresh_rev}

-- What the staging of an op makes sure of: `free k` says that the id `k` is not in use.
pub record IsStagedOp (op : TxOp) (next : ℕ) (free : ℕ → Type 0) : Type 0 where
  pub has : HasFields (some op.fields)
  pub taken : op.id ≤ next
  pub fresh : op.kind ≡ tx_insert → free op.id

-- An op uses its id, so that no later op inserts it.
abbrev pub IsStaged : List TxOp → ℕ → (ℕ → Type 0) → Type 0
IsStaged [] next free = Unit
IsStaged (op ∷ ops) next free =
    IsStagedOp op next free × IsStaged ops next (λ k. free k × (k ≢ op.id))

-- A write of the entry `id`: the counter stays, and so do the other entries.
pub record IsStep (codec : Codec) (c c' : Collection) (id : ℕ) : Type 0 where
  pub recoverable : IsRecoverable codec c'
  pub same_seq : c'.id_seq ≡ c.id_seq
  pub elsewhere : (k : ℕ) → k ≢ id → Index.get k c'.index ≡ Index.get k c.index

remove-elsewhere :
    (id k : ℕ) (idx : Index) → k ≢ id → Index.get k (Index.remove id idx) ≡ Index.get k idx
unfolding Index.get Index.remove
remove-elsewhere id k idx other = ground (arith, lookup-delete id k idx, nat_beq_iff id k)

module _ (codec : Codec) (laws : CodecLaws codec) where
  pub put_indexed-IsStep :
      (e : Entry) (m : Map Str SecondaryIndex) (c c' : Collection)
      → IsRecoverable codec c
      → IsPut codec c e
      → put_indexed codec e m c ≡ ok c'
      → IsStep codec c c' e.id
  unfolding put_indexed
  put_indexed-IsStep e m c c' h p done =
      let ((off, active), wrote, same) = >>=-eq-ok (append codec c.active e) _ done in
      subst (λ x. IsStep codec c x e.id) (cc)
        (record {
          recoverable = set-IsRecoverable codec laws e m off active c h p wrote;
          same_seq = refl;
          elsewhere = λ k other. set-elsewhere codec e.id k (location c off e) c.index other;
        })

  pub drop_indexed-IsStep :
      (e : Entry) (m : Map Str SecondaryIndex) (c c' : Collection)
      → IsRecoverable codec c
      → HasFields e.fields
      → e.op ≡ op_delete
      → drop_indexed codec e m c ≡ ok c'
      → IsStep codec c c' e.id
  unfolding drop_indexed
  drop_indexed-IsStep e m c c' h has deletes done =
      let ((off, active), wrote, same) = >>=-eq-ok (append codec c.active e) _ done in
      subst (λ x. IsStep codec c x e.id) (cc)
        (record {
          recoverable = remove-IsRecoverable codec laws e m off active c h has deletes wrote;
          same_seq = refl;
          elsewhere = λ k other. remove-elsewhere e.id k c.index other;
        })

  module _ (f : Format) where
    apply_kind-IsStep :
        (kind : TxOpKind) (op : TxOp) (now : ℕ) (c c' : Collection) (e : Entry)
        → IsRecoverable codec c
        → HasFields (some op.fields)
        → op.id ≤ c.id_seq
        → (kind ≡ tx_insert → Index.get op.id c.index ≡ none)
        → apply_kind codec f kind op now c ≡ ok (e, c')
        → IsStep codec c c' op.id
    unfolding apply_kind
    apply_kind-IsStep tx_insert op now c c' e h has old fresh done =
        let e1 = tx_insert_entry op now c in
        let (c1, put, same) =
          >>=-eq-ok (put_indexed codec e1 (sidx_index_entry f op.id op.fields c.sidx_map) c) _
            done in
        subst (λ x. IsStep codec c x op.id) (cc)
          (put_indexed-IsStep e1 _ c c1 h
            (record {
              has = has;
              sets_index = refl;
              next_rev = fresh_rev (Index.get op.id c.index) (fresh refl);
              taken_id = old;
            })
            put)
    apply_kind-IsStep tx_update op now c c' e h has old fresh done =
        let e1 = tx_update_entry op c in
        let (c1, put, same) =
          >>=-eq-ok (put_indexed codec e1 (sidx_update_entry f op.id op.fields c.sidx_map) c) _
            done in
        subst (λ x. IsStep codec c x op.id) (cc)
          (put_indexed-IsStep e1 _ c c1 h
            (record { has = has; sets_index = refl; next_rev = refl; taken_id = old }) put)
    apply_kind-IsStep tx_delete op now c c' e h has old fresh done =
        let e1 = tx_delete_entry op in
        let (c1, put, same) =
          >>=-eq-ok (drop_indexed codec e1 (sidx_remove_entry f op.id c.sidx_map) c) _ done in
        subst (λ x. IsStep codec c x op.id) (cc) (drop_indexed-IsStep e1 _ c c1 h (tt, tt) refl put)

    apply_ops-IsRecoverable :
        (ops : List TxOp) (now : ℕ) (c : Collection) (free : ℕ → Type 0)
        → IsRecoverable codec c
        → IsStaged ops c.id_seq free
        → ((k : ℕ) → free k → Index.get k c.index ≡ none)
        → IsRecoverable codec (apply_ops codec f ops now c).1
    unfolding apply_ops
    apply_ops-IsRecoverable [] now c free h staged unused = h
    apply_ops-IsRecoverable (op ∷ ops) now c free h (first, rest) unused =
        elim (Result-cases (apply_kind codec f op.kind op now c)) [
          | inr (x, at) ↦ rw (apply_ops, at) h
          | inl ((e, c'), at) ↦
              let s =
                apply_kind-IsStep op.kind op now c c' e h first.has first.taken
                  (λ inserts. unused op.id (first.fresh inserts)) at in
              rw (apply_ops, at)
                (apply_ops-IsRecoverable ops now c' (λ k. free k × (k ≢ op.id)) s.recoverable
                  (subst (λ n. IsStaged ops n (λ k. free k × (k ≢ op.id))) (sym s.same_seq) rest)
                  (λ k (was, other). s.elsewhere k other ∙ unused k was))
        ]

    pub finish-IsRecoverable :
        (r : Result (List Entry)) (c : Collection)
        → IsRecoverable codec c
        → IsRecoverable codec (finish codec f r c).1
    unfolding finish
    finish-IsRecoverable (err x) c h = h
    finish-IsRecoverable (ok es) c h =
        emit_all-IsRecoverable codec (map event_of es) _
          (rotate-IsRecoverable codec _ (publish_all-IsRecoverable codec es c h))

    persist_inserts-IsRecoverable :
        (r : Result (List Entry)) (b : Bool) (c : Collection)
        → IsRecoverable codec c
        → IsRecoverable codec (persist_inserts r b c)
    unfolding persist_inserts
    persist_inserts-IsRecoverable (ok es) true c h = record {
      replayed = h.replayed;
      taken = h.taken;
      known = λ id above above_active. h.taken id above;
    }
    persist_inserts-IsRecoverable (ok es) false c h = h
    persist_inserts-IsRecoverable (err e) b c h = h

    pub commit_tx-IsRecoverable :
        (ops : List TxOp) (now : ℕ) (c : Collection)
        → IsRecoverable codec c
        → IsStaged ops c.id_seq (λ k. Index.get k c.index ≡ none)
        → IsRecoverable codec (commit_tx codec f ops now c).1
    unfolding commit_tx commit_checked
    commit_tx-IsRecoverable [] now c h staged = h
    commit_tx-IsRecoverable (op ∷ ops) now c h staged =
        elim (Result-cases (check_commit codec f (op ∷ ops) now c)) [
          | inr (x, at) ↦ rw (commit_tx, at) h
          | inl (u, at) ↦
              rw (commit_tx, at)
                (persist_inserts-IsRecoverable
                  (finish codec f (apply_ops codec f (op ∷ ops) now c).0
                    (apply_ops codec f (op ∷ ops) now c).1).0
                  (has_insert (op ∷ ops)) _
                  (finish-IsRecoverable (apply_ops codec f (op ∷ ops) now c).0 _
                    (apply_ops-IsRecoverable (op ∷ ops) now c _ h staged (λ k was. was))))
        ]

-- ===== src/Batch/Published.antt =====
-- What CommitTx of engine/collection.go hands to the replication feed and to the watchers.
use file_dbv.Prelude.{
  Bool, true, false, ℕ, ◌≡◌, refl, sym, ap, ◌∙◌, subst, Bool-cases, List, [], ◌∷◌, ◌++◌, map, inl,
  inr, nat_eq, leb, append_assoc, append-nil, Map, Str,
}
use file_dbv.Result.{Result, Result-cases, ok, err, >>=-eq-ok, ◌>>=◌}
use file_dbv.Store.{Codec, Entry}
use file_dbv.Segment.{append}
use file_dbv.Index
use file_dbv.Query.{Format}
use file_dbv.Sidx.{SecondaryIndex}
use file_dbv.Tx.{TxOp, TxOpKind, tx_insert, tx_update, tx_delete}
use file_dbv.Collection.{
  Collection, WatchEvent, rotate_if_full, rotate_segment, emit, event_of, location,
  sidx_index_entry, sidx_update_entry, sidx_remove_entry,
}
use file_dbv.Batch.{
  has_insert, persist_inserts, put_indexed, drop_indexed, publish_all, emit_all, apply_kind,
  apply_ops, finish, check_commit, commit_checked, commit_tx, tx_insert_entry, tx_update_entry,
  tx_delete_entry,
}

-- Nothing was handed on.
pub record IsSilent (c c' : Collection) : Type 0 where
  pub published : c'.published ≡ c.published
  pub events : c'.events ≡ c.events

abbrev pub op_ids : List TxOp → List ℕ
op_ids [] = []
op_ids (op ∷ ops) = op.id ∷ op_ids ops

abbrev pub entry_ids : List Entry → List ℕ
entry_ids [] = []
entry_ids (e ∷ es) = e.id ∷ entry_ids es

-- A batch that returns the entries `es` has handed them on, in their order.
abbrev pub IsHandedOn : List TxOp → Collection → Result (List Entry) → Collection → Type 0
IsHandedOn ops c (err e) c' = IsSilent c c'
IsHandedOn ops c (ok es) c' =
    (entry_ids es ≡ op_ids ops)
    × (c'.published ≡ c.published ++ es)
    × (c'.events ≡ c.events ++ map event_of es)

module _ (codec : Codec) where
  put_indexed-IsSilent :
      (e : Entry) (m : Map Str SecondaryIndex) (c c' : Collection)
      → put_indexed codec e m c ≡ ok c'
      → IsSilent c c'
  unfolding put_indexed
  put_indexed-IsSilent e m c c' done =
      let ((off, active), wrote, same) = >>=-eq-ok (append codec c.active e) _ done in
      let c1 : Collection = record c {
        active = active;
        index = Index.set e.id (location c off e) c.index;
        sidx_map = m;
      } in
      let same_c : c1 ≡ c' = cc in
      subst (IsSilent c) same_c (record { published = refl; events = refl })

  drop_indexed-IsSilent :
      (e : Entry) (m : Map Str SecondaryIndex) (c c' : Collection)
      → drop_indexed codec e m c ≡ ok c'
      → IsSilent c c'
  unfolding drop_indexed
  drop_indexed-IsSilent e m c c' done =
      let ((off, active), wrote, same) = >>=-eq-ok (append codec c.active e) _ done in
      let c1 : Collection = record c {
        active = active;
        index = Index.remove e.id c.index;
        sidx_map = m;
      } in
      let same_c : c1 ≡ c' = cc in
      subst (IsSilent c) same_c (record { published = refl; events = refl })

  module _ (f : Format) where
    apply_kind-IsSilent :
        (kind : TxOpKind) (op : TxOp) (now : ℕ) (c c' : Collection) (e : Entry)
        → apply_kind codec f kind op now c ≡ ok (e, c')
        → IsSilent c c' × (e.id ≡ op.id)
    unfolding apply_kind
    apply_kind-IsSilent tx_insert op now c c' e done =
        let (c1, put, same) =
          >>=-eq-ok
            (put_indexed codec (tx_insert_entry op now c)
              (sidx_index_entry f op.id op.fields c.sidx_map) c)
            _ done in
        let same_c : c1 ≡ c' = cc in
        let same_e : tx_insert_entry op now c ≡ e = cc in
        (
          subst (IsSilent c) same_c (put_indexed-IsSilent _ _ c c1 put),
          ap (λ (x : Entry). x.id) (sym same_e),
        )
    apply_kind-IsSilent tx_update op now c c' e done =
        let (c1, put, same) =
          >>=-eq-ok
            (put_indexed codec (tx_update_entry op c)
              (sidx_update_entry f op.id op.fields c.sidx_map) c)
            _ done in
        let same_c : c1 ≡ c' = cc in
        let same_e : tx_update_entry op c ≡ e = cc in
        (
          subst (IsSilent c) same_c (put_indexed-IsSilent _ _ c c1 put),
          ap (λ (x : Entry). x.id) (sym same_e),
        )
    apply_kind-IsSilent tx_delete op now c c' e done =
        let (c1, put, same) =
          >>=-eq-ok
            (drop_indexed codec (tx_delete_entry op) (sidx_remove_entry f op.id c.sidx_map) c) _
            done in
        let same_c : c1 ≡ c' = cc in
        let same_e : tx_delete_entry op ≡ e = cc in
        (
          subst (IsSilent c) same_c (drop_indexed-IsSilent _ _ c c1 put),
          ap (λ (x : Entry). x.id) (sym same_e),
        )

    -- The entries that a loop returns are those of its ops.
    abbrev IsOf : List TxOp → Result (List Entry) → Type 0
    IsOf ops (ok es) = entry_ids es ≡ op_ids ops
    IsOf ops (err e) = Unit

    cons-IsOf :
        (op : TxOp) (ops : List TxOp) (e : Entry) (r : Result (List Entry))
        → e.id ≡ op.id
        → IsOf ops r
        → IsOf (op ∷ ops) (r >>= λ es. ok (e ∷ es))
    cons-IsOf op ops e (ok es) same h = rw (same, h) refl
    cons-IsOf op ops e (err x) same h = tt

    apply_ops-IsSilent :
        (ops : List TxOp) (now : ℕ) (c : Collection)
        → IsSilent c (apply_ops codec f ops now c).1 × IsOf ops (apply_ops codec f ops now c).0
    unfolding apply_ops
    apply_ops-IsSilent [] now c = (record { published = refl; events = refl }, refl)
    apply_ops-IsSilent (op ∷ ops) now c =
        elim (Result-cases (apply_kind codec f op.kind op now c)) [
          | inr (x, at) ↦ rw (apply_ops, at) (record { published = refl; events = refl }, tt)
          | inl ((e, c'), at) ↦
              let (first, same) = apply_kind-IsSilent op.kind op now c c' e at in
              let (rest, of) = apply_ops-IsSilent ops now c' in
              rw (apply_ops, at)
                (
                  record {
                    published = rest.published ∙ first.published;
                    events = rest.events ∙ first.events;
                  },
                  cons-IsOf op ops e _ same of,
                )
        ]

    rotate-IsSilent : (c : Collection) → IsSilent c (rotate_if_full c)
    unfolding rotate_if_full rotate_segment
    rotate-IsSilent c = elim (Bool-cases (leb c.cfg.segment_max_size c.active.size)) [
      | inl e ↦ rw e (record { published = refl; events = refl })
      | inr e ↦ rw e (record { published = refl; events = refl })
    ]

    emit_all_lem :
        (evs : List WatchEvent) (c : Collection)
        → ((emit_all evs c).published ≡ c.published) × ((emit_all evs c).events ≡ c.events ++ evs)
    unfolding emit_all emit
    emit_all_lem [] c = (refl, sym (append-nil c.events))
    emit_all_lem (ev ∷ evs) c =
        let (published, events) = emit_all_lem evs (emit ev c) in
        (published, events ∙ append_assoc c.events (ev ∷ []) evs)

    finish-IsHandedOn :
        (ops : List TxOp) (r : Result (List Entry)) (c c' : Collection)
        → IsSilent c c'
        → IsOf ops r
        → IsHandedOn ops c (finish codec f r c').0 (finish codec f r c').1
    unfolding finish publish_all
    finish-IsHandedOn ops (err e) c c' silent of = silent
    finish-IsHandedOn ops (ok es) c c' silent of =
        let c1 = publish_all es c' in
        let turned = rotate-IsSilent c1 in
        let (published, events) = emit_all_lem (map event_of es) (rotate_if_full c1) in
        (
          of,
          published ∙ (turned.published ∙ ap (λ (ps : List Entry). ps ++ es) silent.published),
          events
              ∙ ap (λ (vs : List WatchEvent). vs ++ map event_of es)
                  (turned.events ∙ silent.events),
        )

    persist_inserts-IsHandedOn :
        (ops : List TxOp) (r : Result (List Entry)) (b : Bool) (c c' : Collection)
        → IsHandedOn ops c r c'
        → IsHandedOn ops c r (persist_inserts r b c')
    unfolding persist_inserts
    persist_inserts-IsHandedOn ops (ok es) true c c' h = h
    persist_inserts-IsHandedOn ops (ok es) false c c' h = h
    persist_inserts-IsHandedOn ops (err e) b c c' h = h

    -- A commit that succeeds publishes one entry for each op, with the ids of the ops and in their
    -- order, and emits their events in the same order; one that fails publishes nothing and emits
    -- nothing.
    pub commit_tx-IsHandedOn :
        (ops : List TxOp) (now : ℕ) (c : Collection)
        → IsHandedOn ops c (commit_tx codec f ops now c).0 (commit_tx codec f ops now c).1
    unfolding commit_tx commit_checked
    commit_tx-IsHandedOn [] now c = (refl, sym (append-nil c.published), sym (append-nil c.events))
    commit_tx-IsHandedOn (op ∷ ops) now c =
        elim (Result-cases (check_commit codec f (op ∷ ops) now c)) [
          | inr (x, at) ↦ rw (commit_tx, at) (record { published = refl; events = refl })
          | inl (u, at) ↦
              let (silent, of) = apply_ops-IsSilent (op ∷ ops) now c in
              let r = (apply_ops codec f (op ∷ ops) now c).0 in
              rw (commit_tx, at)
                (persist_inserts-IsHandedOn (op ∷ ops)
                  (finish codec f r (apply_ops codec f (op ∷ ops) now c).1).0
                  (has_insert (op ∷ ops)) c _
                  (finish-IsHandedOn (op ∷ ops) (apply_ops codec f (op ∷ ops) now c).0 c _ silent
                    of))
        ]

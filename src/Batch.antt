-- ===== src/Batch.antt =====
-- engine/collection.go and ttl.go: the writes of several entries in one critical section (CommitTx,
-- InsertMany, reapExpired) of a collection that is not encrypted.
pub mod Bulk
pub mod Published
pub mod Tests
use file_dbv.Prelude.{
  ℕ, zero, suc, ◌+◌, Bool, true, false, not, ◌&&◌, ◌||◌, Option, none, some, List, [], ◌∷◌, ◌++◌,
  map, Str, Map, lookup, insert as put, ltb, nat_beq, nat_eq, str_eq, if◌then◌else◌,
}
use file_dbv.Result.{Result, Error, ok, err, duplicate_key, reserved_field, not_found, ◌>>=◌, ◌>>◌}
use file_dbv.Json.{Data, Value}
use file_dbv.Store.{Entry, Codec, new_insert, new_update, new_delete}
use file_dbv.Segment.{Segment, append}
use file_dbv.Index
use file_dbv.Index.{Index, IndexEntry, rev_or_zero}
use file_dbv.Query.{Format}
use file_dbv.Sidx.{SecondaryIndex, conflict, to_index_key}
use file_dbv.Tx.{TxOp, TxOpKind, tx_insert, tx_update, tx_delete, staged_op}
use file_dbv.Collection.{
  Collection, WatchEvent, key_field, has_field, check_quota, entry_quota_bytes,
  resolve_insert_expiry, sidx_index_entry, sidx_update_entry, sidx_remove_entry, location, event_of,
  rotate_if_full, emit, expired,
}

-- `claimed[field][value]` is the id of the op that staked the value.
abbrev pub Claims : Type 0
Claims = Map Str (Map Str ℕ)

abbrev pub by_value : Option (Map Str ℕ) → Map Str ℕ
by_value none = []
by_value (some m) = m

abbrev pub claim : Str → Str → ℕ → Claims → Claims
claim field key id claimed = put field (put key id (by_value (lookup field claimed))) claimed

-- The value is staked by another id.
abbrev pub taken : Str → Str → ℕ → Claims → Bool
taken field key id claimed = elim (lookup key (by_value (lookup field claimed))) [
  | none ↦ false
  | some prev ↦ not (nat_beq prev id)
]

abbrev pub writes_data : TxOpKind → Bool
writes_data tx_insert = true
writes_data tx_update = true
writes_data tx_delete = false

module _ (f : Format) where
  unfoldable pub check_claim : ℕ → Str → SecondaryIndex → Value → Claims → Result Claims
  check_claim id field s v claimed =
      let key = to_index_key f v in
      if conflict key id s
      then err duplicate_key
      else if taken field key id claimed
      then err duplicate_key
      else ok (claim field key id claimed)

  unfoldable pub check_field : TxOp → Str → SecondaryIndex → Claims → Result Claims
  unfolding check_claim
  check_field op field s claimed =
      if not s.unique then ok claimed else elim (lookup field op.fields) [
        | none ↦ ok claimed
        | some v ↦ check_claim op.id field s v claimed
      ]

  unfoldable pub check_fields : TxOp → Map Str SecondaryIndex → Claims → Result Claims
  unfolding check_field
  check_fields op [] claimed = ok claimed
  check_fields op ((field, s) ∷ m) claimed = check_field op field s claimed >>= check_fields op m

  unfoldable pub check_ops : List TxOp → Map Str SecondaryIndex → Claims → Result (Unit {0})
  unfolding check_fields
  check_ops [] m claimed = ok tt
  check_ops (op ∷ ops) m claimed =
      (if writes_data op.kind then check_fields op m claimed else ok claimed) >>= check_ops ops m

  unfoldable pub tx_check_unique : List TxOp → Collection → Result (Unit {0})
  unfolding check_ops
  tx_check_unique ops c = check_ops ops c.sidx_map []

-- The id for an insert that a transaction stages.
unfoldable pub reserve_id : Collection → ℕ × Collection
reserve_id c = (c.id_seq + 1, record c { id_seq = c.id_seq + 1 })

-- Every update and every delete has a target in the index.
unfoldable pub check_targets : List TxOp → Collection → Result (Unit {0})
check_targets [] c = ok tt
check_targets (op ∷ ops) c =
    let rest = check_targets ops c in
    elim op.kind [
      | tx_insert ↦ rest
      | _ ↦ elim (Index.get op.id c.index) [ none ↦ err not_found | some cur ↦ rest ]
    ]

abbrev pub tx_insert_entry : TxOp → ℕ → Collection → Entry
tx_insert_entry op now c = record (new_insert op.ts op.id op.fields) {
  rev = 1;
  expires_at = resolve_insert_expiry none now c.cfg;
}

abbrev pub expiry_or_zero : Option IndexEntry → ℕ
expiry_or_zero none = 0
expiry_or_zero (some cur) = cur.expires_at

abbrev pub tx_update_entry : TxOp → Collection → Entry
tx_update_entry op c = record (new_update op.ts op.id op.fields) {
  rev = rev_or_zero (Index.get op.id c.index) + 1;
  expires_at = expiry_or_zero (Index.get op.id c.index);
}

abbrev pub tx_delete_entry : TxOp → Entry
tx_delete_entry op = new_delete op.ts op.id

unfoldable pub publish_all : List Entry → Collection → Collection
publish_all es c = record c { published = c.published ++ es }

unfoldable pub emit_all : List WatchEvent → Collection → Collection
unfolding emit
emit_all [] c = c
emit_all (ev ∷ evs) c = emit_all evs (emit ev c)

module _ (codec : Codec) where
  -- How many records the ops insert, and how many bytes they take.
  unfoldable pub insert_cost : List TxOp → ℕ → Collection → ℕ × ℕ
  insert_cost [] now c = (0, 0)
  insert_cost (op ∷ ops) now c =
      let rest = insert_cost ops now c in
      elim op.kind [
        | tx_insert ↦ (suc rest.0, entry_quota_bytes codec (tx_insert_entry op now c) c + rest.1)
        | _ ↦ rest
      ]

  -- Without a quota `check_quota` accepts everything.
  unfoldable pub check_tx_quota : List TxOp → ℕ → Collection → Result (Unit {0})
  unfolding insert_cost
  check_tx_quota ops now c =
      let cost = insert_cost ops now c in
      if ltb 0 cost.0 then check_quota cost.0 cost.1 c else ok tt

  -- The append of an entry, its place in the index, and the secondary indexes `m`.
  unfoldable pub put_indexed : Entry → Map Str SecondaryIndex → Collection → Result Collection
  put_indexed e m c = do
    (offset, active) ← append codec c.active e
    ok (record c {
      active = active;
      index = Index.set e.id (location c offset e) c.index;
      sidx_map = m;
    })

  unfoldable pub drop_indexed : Entry → Map Str SecondaryIndex → Collection → Result Collection
  drop_indexed e m c = do
    (offset, active) ← append codec c.active e
    ok (record c { active = active; index = Index.remove e.id c.index; sidx_map = m })

-- `maxInsertID > 0`
unfoldable pub has_insert : List TxOp → Bool
has_insert [] = false
has_insert (op ∷ ops) =
    let rest = has_insert ops in
    elim op.kind [ tx_insert ↦ ltb 0 op.id || rest | tx_update ↦ rest | tx_delete ↦ rest ]

-- A commit that inserted writes the id counter to meta.json.
unfoldable pub persist_inserts : Result (List Entry) → Bool → Collection → Collection
persist_inserts (ok es) true c = record c { meta_counter = c.id_seq }
persist_inserts (ok es) false c = c
persist_inserts (err e) b c = c

module _ (codec : Codec) (f : Format) where
  -- One op of the loop: the entry that it commits, and the collection.
  unfoldable pub apply_kind : TxOpKind → TxOp → ℕ → Collection → Result (Entry × Collection)
  unfolding put_indexed drop_indexed
  apply_kind tx_insert op now c = do
    let e = tx_insert_entry op now c
    c' ← put_indexed codec e (sidx_index_entry f op.id op.fields c.sidx_map) c
    ok (e, c')
  apply_kind tx_update op now c = do
    let e = tx_update_entry op c
    c' ← put_indexed codec e (sidx_update_entry f op.id op.fields c.sidx_map) c
    ok (e, c')
  apply_kind tx_delete op now c = do
    let e = tx_delete_entry op
    c' ← drop_indexed codec e (sidx_remove_entry f op.id c.sidx_map) c
    ok (e, c')

  -- The loop stops at the first append that fails; the ops before it stay applied.
  unfoldable pub apply_ops : List TxOp → ℕ → Collection → Result (List Entry) × Collection
  unfolding apply_kind
  apply_ops [] now c = (ok [], c)
  apply_ops (op ∷ ops) now c = elim (apply_kind op.kind op now c) [
    | err e ↦ (err e, c)
    | ok (e, c') ↦ (let rest = apply_ops ops now c' in (rest.0 >>= λ es. ok (e ∷ es), rest.1))
  ]

  -- After the loop; nothing is published when it has stopped early.
  unfoldable pub finish : Result (List Entry) → Collection → Result (List Entry) × Collection
  unfolding publish_all emit_all rotate_if_full
  finish (err e) c = (err e, c)
  finish (ok es) c = (ok es, emit_all (map event_of es) (rotate_if_full (publish_all es c)))

  unfoldable pub check_commit : List TxOp → ℕ → Collection → Result (Unit {0})
  check_commit ops now c = do
    check_targets ops c
    tx_check_unique f ops c
    check_tx_quota codec ops now c

  unfoldable pub commit_checked : List TxOp → ℕ → Collection → Result (List Entry) × Collection
  unfolding apply_ops finish persist_inserts
  commit_checked ops now c =
      let applied = apply_ops ops now c in
      let done = finish applied.0 applied.1 in
      (done.0, persist_inserts done.0 (has_insert ops) done.1)

  -- The entries that were committed are returned in place of nil.
  unfoldable pub commit_tx : List TxOp → ℕ → Collection → Result (List Entry) × Collection
  unfolding check_commit commit_checked
  commit_tx [] now c = (ok [], c)
  commit_tx (op ∷ ops) now c = elim (check_commit (op ∷ ops) now c) [
    | err e ↦ (err e, c)
    | ok u ↦ commit_checked (op ∷ ops) now c
  ]

-- ===== src/Batch/Bulk.antt =====
-- InsertMany of engine/collection.go, and reapExpired of engine/ttl.go.
use file_dbv.Prelude.{
  ℕ, ◌+◌, Bool, true, false, Option, none, some, List, [], ◌∷◌, map, length, if◌then◌else◌,
}
use file_dbv.Result.{Result, ok, err, reserved_field, ◌>>=◌, ◌>>◌}
use file_dbv.Json.{Data}
use file_dbv.Store.{Entry, Codec, new_insert, new_delete}
use file_dbv.Index
use file_dbv.Index.{Index, IndexEntry}
use file_dbv.Query.{Format}
use file_dbv.Tx.{TxOp, tx_insert, staged_op}
use file_dbv.Collection.{
  Collection, key_field, has_field, check_quota, entry_quota_bytes, resolve_insert_expiry,
  sidx_index_entry, sidx_remove_entry, event_of, rotate_if_full, expired,
}
use file_dbv.Batch.{put_indexed, drop_indexed, tx_check_unique, finish, emit_all}

abbrev pub many_entry : ℕ → ℕ → ℕ → Data → Entry
many_entry id exp now d = record (new_insert now id d) { rev = 1; expires_at = exp }

-- The ids from `id` on, one for each record.
unfoldable pub many_entries : ℕ → ℕ → ℕ → List Data → List (Entry × Data)
many_entries id exp now [] = []
many_entries id exp now (d ∷ ds) = (many_entry id exp now d, d) ∷ many_entries (id + 1) exp now ds

abbrev pub many_op : Entry × Data → TxOp
many_op (e, d) = staged_op tx_insert e.id d e.ts

abbrev pub any_reserved : List Data → Bool
any_reserved [] = false
any_reserved (d ∷ ds) = if has_field key_field d then true else any_reserved ds

abbrev pub entry_ids : List Entry → List ℕ
entry_ids [] = []
entry_ids (e ∷ es) = e.id ∷ entry_ids es

unfoldable pub expired_ids : ℕ → Index → List ℕ
unfolding expired
expired_ids now [] = []
expired_ids now ((id, loc) ∷ idx) =
    let rest = expired_ids now idx in if expired loc.expires_at now then id ∷ rest else rest

abbrev pub still_expired : ℕ → Option IndexEntry → Bool
still_expired now none = false
still_expired now (some loc) = expired loc.expires_at now

module _ (codec : Codec) (f : Format) where
  abbrev pub many_bytes : List (Entry × Data) → Collection → ℕ
  many_bytes [] c = 0
  many_bytes ((e, d) ∷ es) c = entry_quota_bytes codec e c + many_bytes es c

  unfoldable pub put_many : List (Entry × Data) → Collection → Result (List Entry) × Collection
  put_many [] c = (ok [], c)
  put_many ((e, d) ∷ es) c = elim (put_indexed codec e (sidx_index_entry f e.id d c.sidx_map) c) [
    | err x ↦ (err x, c)
    | ok c' ↦ (let rest = put_many es c' in (rest.0 >>= λ done. ok (e ∷ done), rest.1))
  ]

  unfoldable pub check_many : List (Entry × Data) → Collection → Result (Unit {0})
  check_many es c = do
    check_quota (length es) (many_bytes es c) c
    tx_check_unique f (map many_op es) c

  abbrev pub many_checked : List (Entry × Data) → Collection → Result (List Entry) × Collection
  many_checked es c = let put = put_many es c in finish codec f put.0 put.1

  -- The ids are taken before the checks. The entries stand for the ids that Go returns.
  unfoldable pub insert_many :
      List Data → Option ℕ → ℕ → Collection → Result (List Entry) × Collection
  unfolding check_many put_many many_entries
  insert_many [] explicit now c = (ok [], c)
  insert_many (d ∷ ds) explicit now c =
      let exp = resolve_insert_expiry explicit now c.cfg in
      let es = many_entries (c.id_seq + 1) exp now (d ∷ ds) in
      let c' = record c { id_seq = c.id_seq + length (d ∷ ds) } in
      if any_reserved (d ∷ ds)
      then (err reserved_field, c)
      else elim (check_many es c') [ err x ↦ (err x, c') | ok u ↦ many_checked es c' ]

  -- The loop over the ids; `ts` is the clock that NewDelete reads.
  unfoldable pub reap_ids : List ℕ → ℕ → ℕ → Collection → Result (List Entry) × Collection
  reap_ids [] now ts c = (ok [], c)
  reap_ids (id ∷ ids) now ts c =
      let e = new_delete ts id in
      let skip = reap_ids ids now ts c in
      if still_expired now (Index.get id c.index)
      then elim (drop_indexed codec e (sidx_remove_entry f id c.sidx_map) c) [
        | err x ↦ (err x, c)
        | ok c' ↦ (let rest = reap_ids ids now ts c' in (rest.0 >>= λ done. ok (e ∷ done), rest.1))
      ]
      else skip

  -- The tombstones are not published to the replication feed.
  abbrev pub reaped : Result (List Entry) → Collection → Result (List Entry) × Collection
  reaped (err x) c = (err x, c)
  reaped (ok es) c = (ok es, emit_all (map event_of es) (rotate_if_full c))

  unfoldable pub reap_expired : ℕ → ℕ → Collection → Result (List Entry) × Collection
  unfolding expired_ids reap_ids
  reap_expired now ts c = elim (expired_ids now c.index) [
    | [] ↦ (ok [], c)
    | id ∷ ids ↦ (let done = reap_ids (id ∷ ids) now ts c in reaped done.0 done.1)
  ]

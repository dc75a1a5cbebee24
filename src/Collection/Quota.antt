-- ===== src/Collection/Quota.antt =====
-- What a successful insert of engine/collection.go has done, and the record quota of engine/quota.go.
use file_dbv.Prelude.{ℕ, ◌+◌, ◌≤◌, ◌<◌, ◌≡◌, insert as put, length-delete_le, nat_eq, arith}
use file_dbv.Result.{Result, ok, err, >>=-eq-ok}
use file_dbv.Json.{Data}
use file_dbv.Store.{Entry, Codec, new_insert}
use file_dbv.Segment.{Segment, append}
use file_dbv.Index
use file_dbv.Index.{Index, IndexEntry}
use file_dbv.Query.{Format}
use file_dbv.Collection.{
  Collection, all_or, check_quota, entry_quota_bytes, sidx_check_unique, inserted, try_insert,
  insert, rotate_if_full, rotate_segment, emit, location,
}

pub all_or_ok :
    {A : Type 0} (m : Result (A × Collection)) (c : Collection) {a : A}
    → (all_or m c).0 ≡ ok a
    → m ≡ ok (a, (all_or m c).1)
all_or_ok (ok (a, c')) c h = ground arith
all_or_ok (err e) c h = cc

pub rotate-index : (c : Collection) → (rotate_if_full c).index ≡ c.index
unfolding rotate_if_full rotate_segment
rotate-index c = ground arith

module _ (codec : Codec) (f : Format) where
  pub checked :
      (e : Entry) (d : Data) (c : Collection) {id : ℕ} {c' : Collection}
      → try_insert codec f e d c ≡ ok (id, c')
      → (off : ℕ) × (active : Segment) × (check_quota 1 (entry_quota_bytes codec e c) c ≡ ok tt)
        × (append codec c.active e ≡ ok (off, active))
        × (id ≡ e.id)
        × (c' ≡ inserted codec f e d off active c)
  unfolding try_insert
  checked e d c h =
      let (u, quota, h') = >>=-eq-ok (check_quota 1 (entry_quota_bytes codec e c) c) _ h in
      let (v, unique, h'') = >>=-eq-ok (sidx_check_unique f e.id d c.sidx_map) _ h' in
      let ((off, active), wrote, done) = >>=-eq-ok (append codec c.active e) _ h'' in
      (off, active, quota, wrote, cc, cc)

  pub inserted-index :
      (e : Entry) (d : Data) (off : ℕ) (active : Segment) (c : Collection)
      → (inserted codec f e d off active c).index ≡ Index.set e.id (location c off e) c.index
  unfolding inserted emit
  inserted-index e d off active c = rotate-index _

  abbrev pub insert_entry : Data → ℕ → ℕ → Collection → Entry
  insert_entry d expires_at now c = record (new_insert now (c.id_seq + 1) d) {
    rev = 1;
    expires_at = expires_at;
  }

  pub insert_inversion :
      (d : Data) (expires_at now : ℕ) (c : Collection) {id : ℕ}
      → (insert codec f d expires_at now c).0 ≡ ok id
      → try_insert codec f (insert_entry d expires_at now c) d (record c { id_seq = c.id_seq + 1 })
        ≡ ok (id, (insert codec f d expires_at now c).1)
  unfolding insert
  insert_inversion d expires_at now c h = all_or_ok _ (record c { id_seq = c.id_seq + 1 }) h

  quota_room :
      (n b : ℕ) (c : Collection)
      → check_quota n b c ≡ ok tt
      → 0 < c.cfg.max_records
      → Index.len c.index + n ≤ c.cfg.max_records
  unfolding check_quota
  quota_room n b c h some_max = ground arith

  set-len :
      (id : ℕ) (e : IndexEntry) (idx : Index) → Index.len (Index.set id e idx) ≤ Index.len idx + 1
  unfolding Index.len Index.set
  set-len id e idx = unfold put in omega (arith, length-delete_le id idx)

  -- With a record quota set, an insert that succeeds leaves no more live records than the quota.
  pub insert_quota :
      (d : Data) (expires_at now : ℕ) (c : Collection) (id : ℕ)
      → 0 < c.cfg.max_records
      → (insert codec f d expires_at now c).0 ≡ ok id
      → Index.len (insert codec f d expires_at now c).1.index ≤ c.cfg.max_records
  insert_quota d expires_at now c id some_max h =
      let e = insert_entry d expires_at now c in
      let c1 = record c { id_seq = c.id_seq + 1 } in
      let (off, active, quota, wrote, same, done) =
        checked e d c1 (insert_inversion d expires_at now c h) in
      rw (done, inserted-index e d off active c1)
        (omega (
          arith,
          set-len e.id (location c1 off e) c.index,
          quota_room 1 (entry_quota_bytes codec e c1) c1 quota some_max,
        ))

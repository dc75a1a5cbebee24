-- ===== src/Collection/ReadBack.antt =====
-- Get after Insert, Update and Delete of engine/collection.go.
use file_dbv.Prelude.{
  none, lookup-delete, Bool, if◌then◌else◌, ℕ, ◌+◌, ◌≡◌, refl, sym, ap, subst, ◌∙◌, false, some,
  beq_refl, nat_eq,
}
use file_dbv.Result.{Result, ok, err, not_found, >>=-eq-ok}
use file_dbv.Json.{Data}
use file_dbv.Store.{Entry, Codec, new_delete}
use file_dbv.Store.RoundTrip.{CodecLaws, HasFields}
use file_dbv.Segment.{Segment, append}
use file_dbv.Segment.Append.{append_inversion, append-IsWellFormed}
use file_dbv.Index
use file_dbv.Index.{Index, IndexEntry}
use file_dbv.Query.{Format}
use file_dbv.Collection.{
  emit, delete, try_delete, deleted, sidx_update_entry, update, try_update, update_entry, updated,
  all_or, sidx_check_unique, key_of, Collection, inserted, insert, segment_by_path_in,
  sidx_index_entry, get, expired,
}
use file_dbv.Collection.Quota.{all_or_ok, checked, insert_entry, insert_inversion}
use file_dbv.Collection.Rotation.{IsReady}
use file_dbv.Collection.Written.{written, written_reads, get-written}

module _ (codec : Codec) (f : Format) where
  pub try_update_inversion :
      (e : Entry) (d : Data) (c : Collection) {c' : Collection}
      → try_update codec f e d c ≡ ok (tt, c')
      → (off : ℕ) × (active : Segment) × (append codec c.active e ≡ ok (off, active))
        × (c' ≡ updated codec f e d off active c)
  unfolding try_update
  try_update_inversion e d c h =
      let (u, unique, h') = >>=-eq-ok (sidx_check_unique f e.id d c.sidx_map) _ h in
      let ((off, active), wrote, done) = >>=-eq-ok (append codec c.active e) _ h' in
      (off, active, wrote, cc)

  pub update-some :
      (id : ℕ) (d : Data) (expires_at : ℕ) (keep : Bool) (now : ℕ) (c : Collection)
      (cur : IndexEntry)
      → Index.get id c.index ≡ some cur
      → update codec f id d expires_at keep now c
        ≡ all_or (try_update codec f (update_entry codec f d expires_at keep now id cur) d c) c
  unfolding update
  update-some id d expires_at keep now c cur at = rw (update, at) refl

  pub update_inversion :
      (id : ℕ) (d : Data) (expires_at : ℕ) (keep : Bool) (now : ℕ) (c : Collection)
      (cur : IndexEntry)
      → Index.get id c.index ≡ some cur
      → (update codec f id d expires_at keep now c).0 ≡ ok tt
      → (off : ℕ) × (active : Segment) × (append codec c.active
            (update_entry codec f d expires_at keep now id cur)
          ≡ ok (off, active))
        × ((update codec f id d expires_at keep now c).1
            ≡ written
                (update_entry codec f d expires_at keep now id cur)
                (sidx_update_entry f id d c.sidx_map)
                off
                active
                c)
  unfolding updated
  update_inversion id d expires_at keep now c cur at h =
      let e = update_entry codec f d expires_at keep now id cur in
      let same = update-some id d expires_at keep now c cur at in
      let succeeds = ap (λ (t : Result (Unit {0}) × Collection). t.0) (sym same) ∙ h in
      let (off, active, wrote, done) =
        try_update_inversion e d c (all_or_ok (try_update codec f e d c) c succeeds) in
      (off, active, wrote, ap (λ (t : Result (Unit {0}) × Collection). t.1) same ∙ done)

  pub try_delete_inversion :
      (e : Entry) (c : Collection) {c' : Collection}
      → try_delete codec f e c ≡ ok (tt, c')
      → (off : ℕ) × (active : Segment) × (append codec c.active e ≡ ok (off, active))
        × (c' ≡ deleted codec f e active c)
  unfolding try_delete
  try_delete_inversion e c h =
      let ((off, active), wrote, done) = >>=-eq-ok (append codec c.active e) _ h in
      (off, active, wrote, cc)

  pub delete-some :
      (id now : ℕ) (c : Collection) (cur : IndexEntry)
      → Index.get id c.index ≡ some cur
      → delete codec f id now c ≡ all_or (try_delete codec f (new_delete now id) c) c
  unfolding delete
  delete-some id now c cur at = rw (delete, at) refl

  pub remove-get : (id : ℕ) (idx : Index) → Index.get id (Index.remove id idx) ≡ none
  unfolding Index.get Index.remove
  remove-get id idx = rw (lookup-delete id id idx, beq_refl id) refl

  module _ (laws : CodecLaws codec) where
    -- After an insert that succeeds into a ready collection that is not encrypted, of fields that
    -- are not empty, have texts of valid UTF-8, names in order and at most 9998 levels, Get of the
    -- new id returns exactly the inserted fields, at revision 1 and with the time of the insert,
    -- at every time before the deadline, also when the insert rotated the active segment; the id
    -- is the next one, and the collection is ready again.
    pub get-insert :
        (d : Data) (expires_at now later : ℕ) (c : Collection) (id : ℕ)
        → IsReady c
        → HasFields (some d)
        → (insert codec f d expires_at now c).0 ≡ ok id
        → expired expires_at later ≡ false
        → (id ≡ c.id_seq + 1)
          × (get codec f (c.id_seq + 1) later (insert codec f d expires_at now c).1
              ≡ ok (record {
                id = c.id_seq + 1;
                key = key_of (some d);
                rev = 1;
                ts = now;
                fields = some d;
              }))
          × IsReady (insert codec f d expires_at now c).1
    unfolding inserted
    get-insert d expires_at now later c id ready has h live =
        let e = insert_entry codec f d expires_at now c in
        let c1 = record c { id_seq = c.id_seq + 1 } in
        let (off, active, quota, wrote, same, done) =
          checked codec f e d c1 (insert_inversion codec f d expires_at now c h) in
        let ready1 : IsReady c1 = record { active = ready.active; fresh = ready.fresh } in
        (
          same,
          ap (get codec f (c.id_seq + 1) later) done
              ∙ get-written codec f laws e (sidx_index_entry f e.id d c.sidx_map) off later active
                  c1 ready1 has wrote live,
          subst IsReady (sym done)
              (written_reads codec f laws e (sidx_index_entry f e.id d c.sidx_map) off active c1
                ready1 has wrote).0,
        )

    -- After an update that succeeds of an indexed record, in a ready collection, with fields that
    -- are not empty, have texts of valid UTF-8, names in order and at most 9998 levels, Get
    -- returns the new fields one revision higher and with the time of the update, at every time
    -- before the deadline that the update kept or set; and the collection is ready again.
    pub get-update :
        (id : ℕ) (d : Data) (expires_at : ℕ) (keep : Bool) (now later : ℕ) (c : Collection)
        (cur : IndexEntry)
        → IsReady c
        → HasFields (some d)
        → Index.get id c.index ≡ some cur
        → (update codec f id d expires_at keep now c).0 ≡ ok tt
        → expired (if keep then cur.expires_at else expires_at) later ≡ false
        → (get codec f id later (update codec f id d expires_at keep now c).1
            ≡ ok (record {
              id = id;
              key = key_of (some d);
              rev = cur.rev + 1;
              ts = now;
              fields = some d;
            }))
          × IsReady (update codec f id d expires_at keep now c).1
    get-update id d expires_at keep now later c cur ready has at h live =
        let (off, active, wrote, done) = update_inversion id d expires_at keep now c cur at h in
        let e = update_entry codec f d expires_at keep now id cur in
        let m = sidx_update_entry f id d c.sidx_map in
        (
          ap (get codec f id later) done
              ∙ get-written codec f laws e m off later active c ready has wrote live,
          subst IsReady (sym done) (written_reads codec f laws e m off active c ready has wrote).0,
        )

    get_gone :
        (id later : ℕ) (c : Collection)
        → Index.get id c.index ≡ none
        → get codec f id later c ≡ err not_found
    unfolding get
    get_gone id later c at = rw (get, at) refl

    pub deleted_reads :
        (e : Entry) (off later : ℕ) (active : Segment) (c : Collection)
        → IsReady c
        → HasFields e.fields
        → append codec c.active e ≡ ok (off, active)
        → (get codec f e.id later (deleted codec f e active c) ≡ err not_found)
          × IsReady (deleted codec f e active c)
    unfolding deleted emit
    deleted_reads e off later active c ready has wrote =
        let a = append_inversion codec laws c.active active e off has wrote in
        (
          get_gone e.id later (deleted codec f e active c) (remove-get e.id c.index),
          record {
            active = append-IsWellFormed codec laws c.active active e off ready.active a;
            fresh = ap (λ (n : ℕ). segment_by_path_in n c.sealed) a.path ∙ ready.fresh;
          },
        )

    -- After a delete that succeeds of an indexed record in a ready collection, Get does not find
    -- the id at any time, and the collection is ready again.
    pub get-delete :
        (id now later : ℕ) (c : Collection) (cur : IndexEntry)
        → IsReady c
        → Index.get id c.index ≡ some cur
        → (delete codec f id now c).0 ≡ ok tt
        → (get codec f id later (delete codec f id now c).1 ≡ err not_found)
          × IsReady (delete codec f id now c).1
    get-delete id now later c cur ready at h =
        let e = new_delete now id in
        let same = delete-some id now c cur at in
        let succeeds = ap (λ (t : Result (Unit {0}) × Collection). t.0) (sym same) ∙ h in
        let (off, active, wrote, done) =
          try_delete_inversion e c (all_or_ok (try_delete codec f e c) c succeeds) in
        let done' = ap (λ (t : Result (Unit {0}) × Collection). t.1) same ∙ done in
        let (gone, ready') = deleted_reads e off later active c ready (tt, tt) wrote in
        (ap (get codec f id later) done' ∙ gone, subst IsReady (sym done') ready')

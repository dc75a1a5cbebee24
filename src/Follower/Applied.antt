-- ===== src/Follower/Applied.antt =====
-- The writes of a leader and the entries that a follower applies, as changes of what is read.
use file_dbv.Prelude.{
  ℕ, ◌≡◌, refl, sym, ap, ◌∙◌, subst, false, Bool-cases, Option, Option-cases, none, List, inl, inr,
  ◌⊎◌, Map, Str, nat_eq, nat_beq_iff, ◌==◌,
}
use file_dbv.Result.{Result, ok, >>=-eq-ok}
use file_dbv.Store.{Entry, op_delete, Codec}
use file_dbv.Store.RoundTrip.{CodecLaws, HasFields, stamp}
use file_dbv.Segment.{Segment, append, read_at}
use file_dbv.Segment.Append.{IsWellFormed, append_inversion, append-IsWellFormed, read_at-Appended}
use file_dbv.Index
use file_dbv.Index.{Index, IndexEntry}
use file_dbv.Query.{Format}
use file_dbv.Sidx.{SecondaryIndex}
use file_dbv.Compaction.{is_delete}
use file_dbv.Collection.{
  Collection, WatchEvent, location, rotate_if_full, emit, event_of, segment_by_path_in, deleted,
  sidx_remove_entry,
}
use file_dbv.Collection.Quota.{rotate-index, all_or_ok}
use file_dbv.Collection.Rotation.{IsReady, rotate-IsReady, rotate-read_location}
use file_dbv.Collection.Written.{written}
use file_dbv.Collection.ReadBack.{deleted_reads}
use file_dbv.Follower.{
  settle, is_stale, raise_id_seq, applied_event, apply_delete, apply_write, apply_entry,
}
use file_dbv.Follower.Replica.{IsWrite, apply-delete, apply-delete_absent, apply-newer}
use file_dbv.Follower.Contents.{append-keeps, rotate-keeps}
use file_dbv.Follower.Shown.{shown_of, next_shown, IsReadable, IsShown, put-IsShown, drop-IsShown}

pub write-is_delete : (e : Entry) → IsWrite e.op → is_delete e.op ≡ false
write-is_delete e (inl is) = rw is refl
write-is_delete e (inr is) = rw is refl

second :
    {a b : Collection} → ◌≡◌ {A = Result (Unit {0} × Collection)} (ok (tt, a)) (ok (tt, b)) → a ≡ b
second h = cc

module _ (codec : Codec) (f : Format) (laws : CodecLaws codec) where
  appended-IsReady :
      (c c1 : Collection) (e : Entry) (off : ℕ) (active : Segment)
      → IsReady c
      → HasFields e.fields
      → append codec c.active e ≡ ok (off, active)
      → c1.sealed ≡ c.sealed
      → c1.active ≡ active
      → IsReady c1
  appended-IsReady c c1 e off active ready has wrote same_sealed same_active =
      let a = append_inversion codec laws c.active active e off has wrote in
      record {
        active =
            subst IsWellFormed (sym same_active)
              (append-IsWellFormed codec laws c.active active e off ready.active a);
        fresh =
            ap (λ (s : Segment). segment_by_path_in s.path c1.sealed) same_active
            ∙ (ap (λ (ss : List Segment). segment_by_path_in active.path ss) same_sealed
                ∙ (ap (λ (n : ℕ). segment_by_path_in n c.sealed) a.path ∙ ready.fresh));
      }

  -- An entry is appended and indexed, and a full segment is rotated.
  pub settled-IsShown :
      (ev : WatchEvent) (c c1 : Collection) (e : Entry) (off : ℕ) (active : Segment)
      → IsReadable codec f c
      → HasFields e.fields
      → append codec c.active e ≡ ok (off, active)
      → c1.sealed ≡ c.sealed
      → c1.active ≡ active
      → c1.index ≡ Index.set e.id (location c off e) c.index
      → is_delete e.op ≡ false
      → IsShown codec f c (emit ev (rotate_if_full c1)) e
  unfolding emit
  settled-IsShown ev c c1 e off active readable has wrote same_sealed same_active index is =
      let a = append_inversion codec laws c.active active e off has wrote in
      let ready1 =
        appended-IsReady c c1 e off active readable.ready has wrote same_sealed same_active in
      put-IsShown codec f c (emit ev (rotate_if_full c1)) e (location c off e) readable
        (rotate-IsReady ev c1 ready1)
        (λ k loc r h. rotate-keeps codec f ev c1 k loc r (
          append-keeps codec f c c1 e off active readable.ready wrote same_sealed same_active k loc
            r h))
        (rotate-index c1 ∙ index)
        (rotate-read_location codec f ev c1 e.id (location c off e) (stamp e a.sum) ready1
          (sym a.path ∙ ap (λ (s : Segment). s.path) (sym same_active))
          (subst (λ s. read_at codec s off ≡ ok (stamp e a.sum)) (sym same_active)
            (read_at-Appended codec laws c.active active e off readable.ready.active a)))
        is

  pub written-IsShown :
      (e : Entry) (m : Map Str SecondaryIndex) (off : ℕ) (active : Segment) (c : Collection)
      → IsReadable codec f c
      → HasFields e.fields
      → append codec c.active e ≡ ok (off, active)
      → IsWrite e.op
      → IsShown codec f c (written e m off active c) e
  written-IsShown e m off active c readable has wrote is =
      settled-IsShown (event_of e) c _ e off active readable has wrote refl refl refl
        (write-is_delete e is)

  pub deleted-IsShown :
      (e : Entry) (off : ℕ) (active : Segment) (c : Collection)
      → IsReadable codec f c
      → HasFields e.fields
      → append codec c.active e ≡ ok (off, active)
      → e.op ≡ op_delete
      → IsShown codec f c (deleted codec f e active c) e
  unfolding deleted emit
  deleted-IsShown e off active c readable has wrote is =
      drop-IsShown codec f c (deleted codec f e active c) e readable
        (deleted_reads codec f laws e off 0 active c readable.ready has wrote).1
        (append-keeps codec f c (deleted codec f e active c) e off active readable.ready wrote refl
          refl)
        refl (ap is_delete is)

  apply_write-IsShown :
      (e : Entry) (cur : Option IndexEntry) (c c' : Collection)
      → IsReadable codec f c
      → HasFields e.fields
      → IsWrite e.op
      → apply_write codec f e cur c ≡ ok (tt, c')
      → IsShown codec f c c' e
  unfolding apply_write settle
  apply_write-IsShown e cur c c' readable has is h =
      let ((off, active), wrote, done) = >>=-eq-ok (append codec c.active e) _ h in
      subst (λ x. IsShown codec f c x e) (second done)
        (settled-IsShown (applied_event e) c _ e off active readable has wrote refl refl refl
          (write-is_delete e is))

  apply_delete-IsShown :
      (e : Entry) (c c' : Collection)
      → IsReadable codec f c
      → HasFields e.fields
      → e.op ≡ op_delete
      → apply_delete codec f e c ≡ ok (tt, c')
      → IsShown codec f c c' e
  unfolding apply_delete settle emit
  apply_delete-IsShown e c c' readable has is h =
      let ((off, active), wrote, done) = >>=-eq-ok (append codec c.active e) _ h in
      let c1 = raise_id_seq e.id (record c {
        active = active;
        index = Index.remove e.id c.index;
        sidx_map = sidx_remove_entry f e.id c.sidx_map;
      }) in
      subst (λ x. IsShown codec f c x e) (second done)
        (drop-IsShown codec f c (emit (applied_event e) (rotate_if_full c1)) e readable
          (rotate-IsReady (applied_event e) c1
            (appended-IsReady c c1 e off active readable.ready has wrote refl refl))
          (λ k loc r at.
            rotate-keeps codec f (applied_event e) c1 k loc r
              (append-keeps codec f c c1 e off active readable.ready wrote refl refl k loc r at))
          (rotate-index c1) (ap is_delete is))

  absent-IsShown :
      (e : Entry) (c : Collection)
      → IsReadable codec f c
      → e.op ≡ op_delete
      → Index.get e.id c.index ≡ none
      → IsShown codec f c c e
  unfolding next_shown
  absent-IsShown e c readable is gone = record {
    shown = λ k. elim (Bool-cases (e.id == k)) [
      | inl same ↦
          (let at : Index.get k c.index ≡ none =
              subst (λ i. Index.get i c.index ≡ none) ((nat_beq_iff e.id k).0 same) gone in
            rw (next_shown, same, is) (ap (shown_of codec f k c) at))
      | inr other ↦ rw (next_shown, other) refl
    ];
    readable = readable;
  }

  -- A delete, or a write that is not stale.
  pub apply_entry-IsShown :
      (e : Entry) (c : Collection)
      → IsReadable codec f c
      → HasFields e.fields
      → (e.op ≡ op_delete) ⊎ (IsWrite e.op × (is_stale e (Index.get e.id c.index) ≡ false))
      → (apply_entry codec f e c).0 ≡ ok tt
      → IsShown codec f c (apply_entry codec f e c).1 e
  apply_entry-IsShown e c readable has (inr (is, fresh)) h =
      let same = apply-newer codec f e c is fresh in
      let m = apply_write codec f e (Index.get e.id c.index) c in
      apply_write-IsShown e (Index.get e.id c.index) c _ readable has is (
        all_or_ok m c (ap (λ (t : Result (Unit {0}) × Collection). t.0) (sym same) ∙ h)
        ∙ ap (λ (t : Result (Unit {0}) × Collection). ok (tt, t.1)) (sym same))
  apply_entry-IsShown e c readable has (inl is) h = elim (Option-cases (Index.get e.id c.index)) [
    | inl gone ↦
        subst (λ x. IsShown codec f c x e)
          (ap (λ (t : Result (Unit {0}) × Collection). t.1)
            (sym (apply-delete_absent codec f e c is gone)))
          (absent-IsShown e c readable is gone)
    | inr (cur, found) ↦
        (let same = apply-delete codec f e c cur is found in
          apply_delete-IsShown e c _ readable has is (
            all_or_ok (apply_delete codec f e c) c
              (ap (λ (t : Result (Unit {0}) × Collection). t.0) (sym same) ∙ h)
            ∙ ap (λ (t : Result (Unit {0}) × Collection). ok (tt, t.1)) (sym same)))
  ]

-- ===== src/Recovery/Keyed.antt =====
-- The writes by key of engine/keys.go, and the compare-and-swap of engine/collection.go, keep a
-- collection recoverable.
use file_dbv.Prelude.{
  ℕ, ◌+◌, ◌≡◌, refl, subst, Bool, Bool-cases, Option, Option-cases, some, inl, inr, arith, nat_eq,
  Str, true, str_eq,
}
use file_dbv.Result.{Result, Result-cases, ok, err, >>=-eq-ok}
use file_dbv.Json.{Data, is_utf8}
use file_dbv.Store.{Codec}
use file_dbv.Store.RoundTrip.{CodecLaws, HasFields, IsJson}
use file_dbv.Segment.{append}
use file_dbv.Index
use file_dbv.Index.{IndexEntry, rev_or_zero}
use file_dbv.Query.{Format}
use file_dbv.Collection.{
  Collection, Record, key_field, has_field, check_quota, entry_quota_bytes, sidx_check_unique,
  inserted, updated, sidx_index_entry, sidx_update_entry,
}
use file_dbv.Keys.{
  stamp_key, live_key, with_next_id, upsert_insert_entry, replace_entry, try_upsert_insert,
  try_replace, upsert, read_current, swap_result, swap_if, compare_and_swap,
}
use file_dbv.Keys.Swap.{live_key-get}
use file_dbv.Recovery.{IsRecoverable}
use file_dbv.Recovery.Stamped.{stamp_key-HasFields}
use file_dbv.Recovery.Kept.{IsPut, id_seq-IsRecoverable}
use file_dbv.Recovery.Writes.{
  fresh_rev, next_rev, indexed_taken, all_or-IsRecoverable, written-IsRecoverable,
}

module _ (codec : Codec) (f : Format) (laws : CodecLaws codec) where
  pub try_replace-IsRecoverable :
      (key : Str) (id : ℕ) (cur : IndexEntry) (d : Data) (now : ℕ) (c c' : Collection) (r : Record)
      → IsRecoverable codec c
      → Index.get id c.index ≡ some cur
      → HasFields (some d)
      → try_replace codec f key id cur d now c ≡ ok (r, c')
      → IsRecoverable codec c'
  unfolding try_replace updated
  try_replace-IsRecoverable key id cur d now c c' r h at has done =
      let e = replace_entry codec f id cur d now in
      let (u, unique, step) = >>=-eq-ok (sidx_check_unique f e.id d c.sidx_map) _ done in
      let ((off, active), wrote, same) = >>=-eq-ok (append codec c.active e) _ step in
      let p : IsPut codec c e = record {
        has = has;
        sets_index = refl;
        next_rev = next_rev codec f laws (Index.get id c.index) cur at;
        taken_id = indexed_taken codec f laws id c cur h at;
      } in
      subst (IsRecoverable codec) (cc) (
        written-IsRecoverable codec f laws e (sidx_update_entry f e.id d c.sidx_map) off active c h
          p wrote)

  try_upsert_insert-IsRecoverable :
      (key : Str) (d : Data) (now : ℕ) (c c' : Collection) (r : Record)
      → IsRecoverable codec c
      → HasFields (some d)
      → try_upsert_insert codec f key d now (with_next_id codec f c) ≡ ok (r, c')
      → IsRecoverable codec c'
  unfolding try_upsert_insert inserted
  try_upsert_insert-IsRecoverable key d now c c' r h has done =
      let c1 = with_next_id codec f c in
      let e = upsert_insert_entry codec f d now c1 in
      let (u, quota, step) = >>=-eq-ok (check_quota 1 (entry_quota_bytes codec e c1) c1) _ done in
      let (v, unique, step2) = >>=-eq-ok (sidx_check_unique f e.id d c1.sidx_map) _ step in
      let ((off, active), wrote, same) = >>=-eq-ok (append codec c1.active e) _ step2 in
      let p : IsPut codec c1 e = record {
        has = has;
        sets_index = refl;
        next_rev =
            fresh_rev (Index.get (c.id_seq + 1) c.index) (h.taken (c.id_seq + 1) (omega arith));
        taken_id = omega arith;
      } in
      subst (IsRecoverable codec) (cc) (
        written-IsRecoverable codec f laws e (sidx_index_entry f e.id d c1.sidx_map) off active c1
          (id_seq-IsRecoverable codec 1 c h) p wrote)

  pub upsert-IsRecoverable :
      (key : Str) (d : Data) (now : ℕ) (c : Collection)
      → IsRecoverable codec c
      → is_utf8 key ≡ true
      → IsJson (some d)
      → IsRecoverable codec (upsert codec f key d now c).1
  unfolding upsert
  upsert-IsRecoverable key d now c h valid json = elim (Bool-cases (has_field key_field d)) [
    | inl r ↦ rw (upsert, r) h
    | inr r ↦ elim (Option-cases (live_key codec f key c)) [
      | inl at ↦
          rw (upsert, r, at)
            (all_or-IsRecoverable codec
              (try_upsert_insert codec f key (stamp_key d key) now (with_next_id codec f c))
              (with_next_id codec f c) (id_seq-IsRecoverable codec 1 c h)
              (λ rec c' done.
                try_upsert_insert-IsRecoverable key (stamp_key d key) now c c' rec h
                  (stamp_key-HasFields d key valid json) done))
      | inr ((id, cur), at) ↦
          rw (upsert, r, at)
            (all_or-IsRecoverable codec (try_replace codec f key id cur (stamp_key d key) now c) c h
              (λ rec c' done.
                try_replace-IsRecoverable key id cur (stamp_key d key) now c c' rec h
                  (live_key-get codec f key c id cur at) (stamp_key-HasFields d key valid json)
                  done))
    ]
  ]

  swap_result-IsRecoverable :
      (m : Result (Record × Collection)) (c : Collection)
      → IsRecoverable codec c
      → ((r : Record) (c' : Collection) → m ≡ ok (r, c') → IsRecoverable codec c')
      → IsRecoverable codec (swap_result codec f m c).1
  swap_result-IsRecoverable (ok (r, c')) c h wrote = wrote r c' refl
  swap_result-IsRecoverable (err e) c h wrote = h

  swap_if-IsRecoverable :
      (holds : Option Data → ℕ → Bool) (key : Str) (id : ℕ) (loc : IndexEntry) (d : Data) (now : ℕ)
      (c : Collection)
      → IsRecoverable codec c
      → Index.get id c.index ≡ some loc
      → is_utf8 key ≡ true
      → IsJson (some d)
      → IsRecoverable codec (swap_if codec f holds key id loc d now c).1
  unfolding swap_if
  swap_if-IsRecoverable holds key id loc d now c h at valid json =
      elim (Result-cases (read_current codec f loc c)) [
        | inr (x, read) ↦ rw (swap_if, read) h
        | inl (cur, read) ↦ elim (Bool-cases (holds cur.fields loc.rev)) [
          | inr r ↦ rw (swap_if, read, r) h
          | inl r ↦
              rw (swap_if, read, r)
                (swap_result-IsRecoverable (try_replace codec f key id loc (stamp_key d key) now c)
                  c h
                  (λ rec c' done.
                    try_replace-IsRecoverable key id loc (stamp_key d key) now c c' rec h at
                      (stamp_key-HasFields d key valid json) done))
        ]
      ]

  pub compare_and_swap-IsRecoverable :
      (key : Str) (d : Data) (holds : Option Data → ℕ → Bool) (now : ℕ) (c : Collection)
      → IsRecoverable codec c
      → is_utf8 key ≡ true
      → IsJson (some d)
      → IsRecoverable codec (compare_and_swap codec f key d holds now c).1
  unfolding compare_and_swap
  compare_and_swap-IsRecoverable key d holds now c h valid json =
      elim (Option-cases (live_key codec f key c)) [
        | inl at ↦ rw (compare_and_swap, at) h
        | inr ((id, loc), at) ↦
            rw (compare_and_swap, at)
              (swap_if-IsRecoverable holds key id loc d now c h
                (live_key-get codec f key c id loc at) valid json)
      ]

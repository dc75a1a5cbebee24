-- ===== src/Follower/Lockstep.antt =====
-- A follower of engine/replication.go that applies the feed of a leader of engine/collection.go.
use file_dbv.Prelude.{
  ◌⊎◌, ℕ, ◌≡◌, refl, sym, ap, ◌∙◌, subst, Bool, false, some, List, [], ◌∷◌, ◌++◌, inl, inr, nat_eq,
  ◌+◌, leb, arith, append_assoc, append-nil,
}
use file_dbv.Result.{Result, ok, err}
use file_dbv.Json.{Data}
use file_dbv.Store.{Entry, new_delete, op_delete, Codec}
use file_dbv.Store.RoundTrip.{CodecLaws, HasFields}
use file_dbv.Index
use file_dbv.Index.{IndexEntry}
use file_dbv.Query.{Format}
use file_dbv.Collection.{
  Collection, insert, update, delete, update_entry, inserted, sidx_update_entry, try_delete,
  event_of,
}
use file_dbv.Collection.Quota.{all_or_ok, checked, insert_entry, insert_inversion}
use file_dbv.Collection.ReadBack.{update_inversion, delete-some, try_delete_inversion}
use file_dbv.Follower.{is_stale, apply_entry, apply_all}
use file_dbv.Follower.Shown.{shown_at, next_shown, IsReadable, IsShown}
use file_dbv.Follower.Applied.{
  settled-IsShown, written-IsShown, deleted-IsShown, apply_entry-IsShown,
}
use file_dbv.Follower.Replica.{version_at, next_version, IsWrite, apply_entry_lem, absent}
use file_dbv.Follower.Leads.{
  IsAhead, IsLed, led-IsAhead, same_stale, Leads, done, by_insert, by_update, by_delete,
  insert-IsLed, update-IsLed, delete-IsLed,
}

module _ (codec : Codec) (f : Format) where
  -- The two have the same records: what is read of them, and their revisions, deadlines and epochs.
  abbrev pub SameRecords : Collection → Collection → Type 0
  SameRecords a b =
      (k : ℕ) → (version_at k a ≡ version_at k b) × (shown_at codec f k a ≡ shown_at codec f k b)

  abbrev pub IsFresh : Collection → Entry → Type 0
  IsFresh c e = (e.op ≡ op_delete) ⊎ (IsWrite e.op × (is_stale e (Index.get e.id c.index) ≡ false))

  -- A write of the leader, with what is read after it.
  record IsMade (c c' : Collection) (e : Entry) : Type 0 where
    led : IsLed c c' e
    shown : IsShown codec f c c' e
    has : HasFields e.fields
    fresh : IsFresh c e

  module _ (laws : CodecLaws codec) where
    insert-IsMade :
        (d : Data) (expires_at now : ℕ) (c : Collection) (id : ℕ)
        → IsAhead c
        → IsReadable codec f c
        → HasFields (some d)
        → (insert codec f d expires_at now c).0 ≡ ok id
        → IsMade c (insert codec f d expires_at now c).1 (insert_entry codec f d expires_at now c)
    unfolding inserted
    insert-IsMade d expires_at now c id ahead readable has h =
        let e = insert_entry codec f d expires_at now c in
        let c1 = record c { id_seq = c.id_seq + 1 } in
        let (off, active, quota, wrote, same, made) =
          checked codec f e d c1 (insert_inversion codec f d expires_at now c h) in
        record {
          led = insert-IsLed codec f d expires_at now c id ahead h;
          shown =
              subst (λ x. IsShown codec f c x e) (sym made)
                (settled-IsShown codec f laws (event_of e) c _ e off active readable has wrote refl
                  refl refl refl);
          has = has;
          fresh = inr (
            inl refl,
            ap (is_stale e) (absent (Index.get e.id c.index) (ahead e.id (omega arith))),
          );
        }

    update-IsMade :
        (id : ℕ) (d : Data) (expires_at : ℕ) (keep : Bool) (now : ℕ) (c : Collection)
        (cur : IndexEntry)
        → IsAhead c
        → IsReadable codec f c
        → HasFields (some d)
        → Index.get id c.index ≡ some cur
        → (update codec f id d expires_at keep now c).0 ≡ ok tt
        → IsMade c
            (update codec f id d expires_at keep now c).1
            (update_entry codec f d expires_at keep now id cur)
    update-IsMade id d expires_at keep now c cur ahead readable has found h =
        let e = update_entry codec f d expires_at keep now id cur in
        let (off, active, wrote, made) =
          update_inversion codec f id d expires_at keep now c cur found h in
        let newer : leb (cur.rev + 1) cur.rev ≡ false = ground arith in
        record {
          led = update-IsLed codec f id d expires_at keep now c cur ahead found h;
          shown =
              subst (λ x. IsShown codec f c x e) (sym made)
                (written-IsShown codec f laws e (sidx_update_entry f id d c.sidx_map) off active c
                  readable has wrote (inr refl));
          has = has;
          fresh = inr (inr refl, ap (is_stale e) found ∙ newer);
        }

    delete-IsMade :
        (id now : ℕ) (c : Collection) (cur : IndexEntry)
        → IsAhead c
        → IsReadable codec f c
        → Index.get id c.index ≡ some cur
        → (delete codec f id now c).0 ≡ ok tt
        → IsMade c (delete codec f id now c).1 (new_delete now id)
    delete-IsMade id now c cur ahead readable found h =
        let e = new_delete now id in
        let same = delete-some codec f id now c cur found in
        let succeeds = ap (λ (t : Result (Unit {0}) × Collection). t.0) (sym same) ∙ h in
        let (off, active, wrote, made) =
          try_delete_inversion codec f e c (all_or_ok (try_delete codec f e c) c succeeds) in
        record {
          led = delete-IsLed codec f id now c cur ahead found h;
          shown =
              subst (λ x. IsShown codec f c x e)
                (sym (ap (λ (t : Result (Unit {0}) × Collection). t.1) same ∙ made))
                (deleted-IsShown codec f laws e off active c readable (tt, tt) wrote refl);
          has = (tt, tt);
          fresh = inl refl;
        }

  abbrev IsInStep : Collection → Collection → List Entry → Collection → Type 0
  IsInStep leader leader' es follower' =
      (leader'.published ≡ leader.published ++ es) × SameRecords leader' follower'

  -- The entries of a run are applied one after the other.
  apply_all-cons :
      (e : Entry) (es : List Entry) (c c' : Collection)
      → apply_all codec f (e ∷ es) c ≡ ok c'
      → ((apply_entry codec f e c).0 ≡ ok tt)
        × (apply_all codec f es (apply_entry codec f e c).1 ≡ ok c')
  unfolding apply_all
  apply_all-cons e es c c' h = over (apply_entry codec f e c).0 refl
    where
      over :
          (r : Result (Unit {0}))
          → (apply_entry codec f e c).0 ≡ r
          → ((apply_entry codec f e c).0 ≡ ok tt)
            × (apply_all codec f es (apply_entry codec f e c).1 ≡ ok c')
      over (ok tt) is = (is, sym (rw (apply_all, is) refl) ∙ h)
      over (err x) is =
          let refused : apply_all codec f (e ∷ es) c ≡ err x = rw (apply_all, is) refl in absurd cc

  same-IsFresh : (a b : Collection) (e : Entry) → SameRecords a b → IsFresh a e → IsFresh b e
  same-IsFresh a b e same (inl is) = inl is
  same-IsFresh a b e same (inr (is, fresh)) = inr (
    is,
    sym (same_stale e (Index.get e.id a.index) (Index.get e.id b.index) (same e.id).0) ∙ fresh,
  )

  module _ (laws : CodecLaws codec) where
    -- One write, and the rest of the run.
    in_step :
        (leader c leader' follower follower' : Collection) (e : Entry) (es : List Entry)
        → IsMade leader c e
        → IsAhead leader
        → IsReadable codec f follower
        → SameRecords leader follower
        → apply_all codec f (e ∷ es) follower ≡ ok follower'
        → (IsAhead c
            → IsReadable codec f c
            → IsReadable codec f (apply_entry codec f e follower).1
            → SameRecords c (apply_entry codec f e follower).1
            → apply_all codec f es (apply_entry codec f e follower).1 ≡ ok follower'
            → IsInStep c leader' es follower')
        → IsInStep leader leader' (e ∷ es) follower'
    in_step leader c leader' follower follower' e es made ahead readable same h rest =
        let (first, others) = apply_all-cons e es follower follower' h in
        let applied =
          apply_entry-IsShown codec f laws e follower readable made.has
            (same-IsFresh leader follower e same made.fresh) first in
        let same' : SameRecords c (apply_entry codec f e follower).1 = λ k. (
          made.led.versions k
              ∙ ap (next_version e k) (same k).0
              ∙ sym (apply_entry_lem codec f e follower k first),
          made.shown.shown k ∙ ap (next_shown codec f e k) (same k).1 ∙ sym (applied.shown k),
        ) in
        let (feed, end) =
          rest (led-IsAhead leader c e made.led ahead) made.shown.readable applied.readable same'
            others in
        (
          feed
              ∙ ap (λ (xs : List Entry). xs ++ es) made.led.feed
              ∙ append_assoc leader.published (e ∷ []) es,
          end,
        )

    -- A leader whose records can be read and have no id past its counter makes any run of inserts,
    -- updates and deletes that succeed, of data that are not empty, have texts of valid UTF-8,
    -- names in order and at most 9998 levels. A follower whose records can be read, and are the
    -- same, and that applies the entries of the run without an error, ends with the same records
    -- as the leader: for each id, what its place in the segments reads as (key, revision, time and
    -- fields) and the revision, the deadline and the epoch in the index. These entries are what
    -- the run published.
    pub apply_all-SameRecords :
        (leader leader' follower follower' : Collection) (es : List Entry)
        → IsAhead leader
        → IsReadable codec f leader
        → IsReadable codec f follower
        → SameRecords leader follower
        → Leads codec f leader es leader'
        → apply_all codec f es follower ≡ ok follower'
        → (leader'.published ≡ leader.published ++ es) × SameRecords leader' follower'
    unfolding apply_all
    apply_all-SameRecords leader _ follower follower' [] ahead readable also same (done c) h =
        let end : follower ≡ follower' = cc in
        (sym (append-nil leader.published), subst (SameRecords leader) end same)
    apply_all-SameRecords leader leader' follower follower' _ ahead readable also same
          (by_insert c c' es d expires_at now id has wrote run) h =
        in_step leader _ leader' follower follower' _ es
          (insert-IsMade laws d expires_at now leader id ahead readable has wrote) ahead also same h
          (λ ahead' readable' also' same' h'.
            apply_all-SameRecords _ leader' _ follower' es ahead' readable' also' same' run h')
    apply_all-SameRecords leader leader' follower follower' _ ahead readable also same
          (by_update c c' es id d expires_at keep now cur has found wrote run) h =
        in_step leader _ leader' follower follower' _ es
          (update-IsMade laws id d expires_at keep now leader cur ahead readable has found wrote)
          ahead also same h
          (λ ahead' readable' also' same' h'.
            apply_all-SameRecords _ leader' _ follower' es ahead' readable' also' same' run h')
    apply_all-SameRecords leader leader' follower follower' _ ahead readable also same
          (by_delete c c' es id now cur found wrote run) h =
        in_step leader _ leader' follower follower' _ es
          (delete-IsMade laws id now leader cur ahead readable found wrote) ahead also same h
          (λ ahead' readable' also' same' h'.
            apply_all-SameRecords _ leader' _ follower' es ahead' readable' also' same' run h')

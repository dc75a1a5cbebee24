-- ===== src/Follower/Leads.antt =====
-- The writes of a leader of engine/collection.go, and the entries that they publish.
use file_dbv.Prelude.{
  ℕ, ◌≡◌, ◌≢◌, ◌≤◌, ◌<◌, refl, sym, ap, ◌∙◌, subst, Bool, false, Bool-cases, Option, none, some,
  List, [], ◌∷◌, ◌++◌, inl, inr, Map, Str, nat_eq, nat_beq_iff, ◌==◌, ◌+◌, leb, arith,
}
use file_dbv.Result.{Result, ok}
use file_dbv.Json.{Data}
use file_dbv.Store.{Entry, new_delete, op_delete, Codec}
use file_dbv.Store.RoundTrip.{HasFields}
use file_dbv.Segment.{Segment}
use file_dbv.Index
use file_dbv.Index.{IndexEntry}
use file_dbv.Query.{Format}
use file_dbv.Sidx.{SecondaryIndex}
use file_dbv.Collection.{
  Collection, insert, update, delete, update_entry, location, rotate_if_full, rotate_segment, emit,
  inserted, deleted, sidx_index_entry, sidx_update_entry, try_delete,
}
use file_dbv.Collection.Quota.{all_or_ok, checked, insert_entry, insert_inversion}
use file_dbv.Collection.Written.{written, written-index}
use file_dbv.Collection.ReadBack.{update_inversion, delete-some, try_delete_inversion}
use file_dbv.Follower.{is_stale}
use file_dbv.Follower.Replica.{
  Version, version_of, version_at, next_version, IsWrite, set-version, remove-version, changed-next,
  changed-delete, changed-write, newer-fresh, absent,
}

-- No record has an id past the counter.
abbrev pub IsAhead : Collection → Type 0
IsAhead c = (k : ℕ) → c.id_seq < k → version_at k c ≡ none

-- A write of the leader, and the entry that it publishes.
pub record IsLed (c c' : Collection) (e : Entry) : Type 0 where
  pub versions : (k : ℕ) → version_at k c' ≡ next_version e k (version_at k c)
  pub taken : e.id ≤ c'.id_seq
  pub grows : c.id_seq ≤ c'.id_seq
  pub feed : c'.published ≡ c.published ++ e ∷ []

next-elsewhere : (e : Entry) (k : ℕ) (v : Option Version) → e.id ≢ k → next_version e k v ≡ v
unfolding next_version
next-elsewhere e k v other = elim (Bool-cases (e.id == k)) [
  | inl is ↦ absurd (other ((nat_beq_iff e.id k).0 is))
  | inr is_not ↦ rw (next_version, is_not) refl
]

pub led-IsAhead : (c c' : Collection) (e : Entry) → IsLed c c' e → IsAhead c → IsAhead c'
led-IsAhead c c' e led ahead k past =
    led.versions k
    ∙ next-elsewhere e k (version_at k c) (λ same. absurd (omega (arith, led.taken, past, same)))
    ∙ ahead k (omega (arith, led.grows, past))

written-IsLed :
    (e : Entry) (m : Map Str SecondaryIndex) (off : ℕ) (active : Segment) (c : Collection)
    → IsWrite e.op
    → is_stale e (Index.get e.id c.index) ≡ false
    → e.id ≤ c.id_seq
    → IsLed c (written e m off active c) e
unfolding rotate_if_full rotate_segment emit
written-IsLed e m off active c is fresh taken = record {
  versions = λ k.
      ap (λ idx. version_of (Index.get k idx)) (written-index e m off active c)
      ∙ set-version e.id k (location c off e) c.index
      ∙ changed-next e k c.index
          (changed-write e _ is ∙ newer-fresh e (Index.get e.id c.index) fresh);
  taken = ground (arith, taken);
  grows = ground arith;
  feed = ground arith;
}

pub same_stale :
    (e : Entry) (o o' : Option IndexEntry)
    → version_of o ≡ version_of o'
    → is_stale e o ≡ is_stale e o'
same_stale e none none h = refl
same_stale e none (some loc) h = absurd cc
same_stale e (some loc) none h = absurd cc
same_stale e (some loc) (some loc') h = let revs : loc.rev ≡ loc'.rev = cc in ap (leb e.rev) revs

module _ (codec : Codec) (f : Format) where
  -- Inserts, updates and deletes of the leader that succeed, with their entries.
  pub data Leads : Collection → List Entry → Collection → Type 0 where
    done : (c : Collection) → Leads c [] c
    by_insert :
        (c c' : Collection) (es : List Entry) (d : Data) (expires_at now id : ℕ)
        → HasFields (some d)
        → (insert codec f d expires_at now c).0 ≡ ok id
        → Leads (insert codec f d expires_at now c).1 es c'
        → Leads c (insert_entry codec f d expires_at now c ∷ es) c'
    by_update :
        (c c' : Collection) (es : List Entry) (id : ℕ) (d : Data) (expires_at : ℕ) (keep : Bool)
        (now : ℕ) (cur : IndexEntry)
        → HasFields (some d)
        → Index.get id c.index ≡ some cur
        → (update codec f id d expires_at keep now c).0 ≡ ok tt
        → Leads (update codec f id d expires_at keep now c).1 es c'
        → Leads c (update_entry codec f d expires_at keep now id cur ∷ es) c'
    by_delete :
        (c c' : Collection) (es : List Entry) (id now : ℕ) (cur : IndexEntry)
        → Index.get id c.index ≡ some cur
        → (delete codec f id now c).0 ≡ ok tt
        → Leads (delete codec f id now c).1 es c'
        → Leads c (new_delete now id ∷ es) c'

  pub insert-IsLed :
      (d : Data) (expires_at now : ℕ) (c : Collection) (id : ℕ)
      → IsAhead c
      → (insert codec f d expires_at now c).0 ≡ ok id
      → IsLed c (insert codec f d expires_at now c).1 (insert_entry codec f d expires_at now c)
  unfolding inserted
  insert-IsLed d expires_at now c id ahead h =
      let e = insert_entry codec f d expires_at now c in
      let c1 = record c { id_seq = c.id_seq + 1 } in
      let (off, active, quota, wrote, same, made) =
        checked codec f e d c1 (insert_inversion codec f d expires_at now c h) in
      let free = absent (Index.get e.id c.index) (ahead e.id (omega arith)) in
      let led =
        written-IsLed e (sidx_index_entry f e.id d c.sidx_map) off active c1 (inl refl)
          (ap (is_stale e) free) (omega arith) in
      subst (λ x. IsLed c x e) (sym made)
        (record {
          versions = led.versions;
          taken = led.taken;
          grows = omega (arith, led.grows);
          feed = led.feed;
        })

  indexed_taken :
      (id : ℕ) (c : Collection) (cur : IndexEntry)
      → IsAhead c
      → Index.get id c.index ≡ some cur
      → id ≤ c.id_seq
  indexed_taken id c cur ahead found = elim (Bool-cases (leb id c.id_seq)) [
    | inl within ↦ ground (arith, within)
    | inr past ↦
        (let none_there = absent (Index.get id c.index) (ahead id (ground (arith, past))) in
          absurd cc)
  ]

  pub update-IsLed :
      (id : ℕ) (d : Data) (expires_at : ℕ) (keep : Bool) (now : ℕ) (c : Collection)
      (cur : IndexEntry)
      → IsAhead c
      → Index.get id c.index ≡ some cur
      → (update codec f id d expires_at keep now c).0 ≡ ok tt
      → IsLed c
          (update codec f id d expires_at keep now c).1
          (update_entry codec f d expires_at keep now id cur)
  update-IsLed id d expires_at keep now c cur ahead found h =
      let e = update_entry codec f d expires_at keep now id cur in
      let (off, active, wrote, made) =
        update_inversion codec f id d expires_at keep now c cur found h in
      let fresh : leb (cur.rev + 1) cur.rev ≡ false = ground arith in
      subst (λ x. IsLed c x e) (sym made)
        (written-IsLed e (sidx_update_entry f id d c.sidx_map) off active c (inr refl)
          (ap (is_stale e) found ∙ fresh) (indexed_taken id c cur ahead found))

  deleted-IsLed :
      (e : Entry) (active : Segment) (c : Collection)
      → e.op ≡ op_delete
      → e.id ≤ c.id_seq
      → IsLed c (deleted codec f e active c) e
  unfolding deleted emit
  deleted-IsLed e active c is taken = record {
    versions =
        λ k. remove-version e.id k c.index ∙ changed-next e k c.index (changed-delete e _ is);
    taken = taken;
    grows = omega arith;
    feed = refl;
  }

  pub delete-IsLed :
      (id now : ℕ) (c : Collection) (cur : IndexEntry)
      → IsAhead c
      → Index.get id c.index ≡ some cur
      → (delete codec f id now c).0 ≡ ok tt
      → IsLed c (delete codec f id now c).1 (new_delete now id)
  delete-IsLed id now c cur ahead found h =
      let e = new_delete now id in
      let same = delete-some codec f id now c cur found in
      let succeeds = ap (λ (t : Result (Unit {0}) × Collection). t.0) (sym same) ∙ h in
      let (off, active, wrote, made) =
        try_delete_inversion codec f e c (all_or_ok (try_delete codec f e c) c succeeds) in
      subst (λ x. IsLed c x e) (sym (ap (λ (t : Result (Unit {0}) × Collection). t.1) same ∙ made))
        (deleted-IsLed e active c refl (indexed_taken id c cur ahead found))

-- ===== src/Follower/Shown.antt =====
-- What Get reads of the records, before and after a write of engine/collection.go or an entry that a
-- follower of engine/replication.go applies.
use file_dbv.Prelude.{
  ℕ, ◌≡◌, refl, sym, ap, ◌∙◌, subst, Bool, true, false, Bool-cases, Option, none, some, inl, inr,
  nat_eq, nat_beq_iff, ◌==◌, if◌then◌else◌, lookup-insert, lookup-delete,
}
use file_dbv.Result.{Result, ok}
use file_dbv.Store.{Entry, Codec}
use file_dbv.Index
use file_dbv.Index.{Index, IndexEntry}
use file_dbv.Query.{Format}
use file_dbv.Compaction.{is_delete}
use file_dbv.Collection.{Collection, Record, read_location}
use file_dbv.Collection.Rotation.{IsReady}
use file_dbv.Follower.Contents.{record_of}

get-set :
    (id k : ℕ) (loc : IndexEntry) (idx : Index)
    → Index.get k (Index.set id loc idx) ≡ (if id == k then some loc else Index.get k idx)
unfolding Index.get Index.set
get-set id k loc idx = lookup-insert id k loc idx

get-remove :
    (id k : ℕ) (idx : Index)
    → Index.get k (Index.remove id idx) ≡ (if id == k then none else Index.get k idx)
unfolding Index.get Index.remove
get-remove id k idx = lookup-delete id k idx

module _ (codec : Codec) (f : Format) where
  abbrev pub shown_of : ℕ → Collection → Option IndexEntry → Option (Result Record)
  shown_of k c none = none
  shown_of k c (some loc) = some (read_location codec f k loc c)

  -- What the place of a record reads as, if it is indexed.
  abbrev pub shown_at : ℕ → Collection → Option (Result Record)
  shown_at k c = shown_of k c (Index.get k c.index)

  -- The record `k` after the entry.
  unfoldable pub next_shown : Entry → ℕ → Option (Result Record) → Option (Result Record)
  next_shown e k v =
      if e.id == k then (if is_delete e.op then none else some (ok (record_of e e.rev))) else v

  -- Every indexed record can be read.
  pub record IsReadable (c : Collection) : Type 0 where
    pub ready : IsReady c
    pub reads :
        (k : ℕ) (loc : IndexEntry)
        → Index.get k c.index ≡ some loc
        → (r : Record) × (read_location codec f k loc c ≡ ok r)

  pub record IsShown (c c' : Collection) (e : Entry) : Type 0 where
    pub shown : (k : ℕ) → shown_at k c' ≡ next_shown e k (shown_at k c)
    pub readable : IsReadable c'

  abbrev pub Keeps : Collection → Collection → Type 0
  Keeps c c' =
      (k : ℕ) (loc : IndexEntry) (r : Record)
      → read_location codec f k loc c ≡ ok r
      → read_location codec f k loc c' ≡ ok r

  kept-shown :
      (c c' : Collection) (k : ℕ)
      → IsReadable c
      → Keeps c c'
      → Index.get k c'.index ≡ Index.get k c.index
      → shown_at k c' ≡ shown_at k c
  kept-shown c c' k readable keeps same = ap (shown_of k c') same ∙ over (Index.get k c.index) refl
    where
      over :
          (o : Option IndexEntry)
          → Index.get k c.index ≡ o
          → shown_of k c' (Index.get k c.index) ≡ shown_of k c (Index.get k c.index)
      over none is = ap (shown_of k c') is ∙ sym (ap (shown_of k c) is)
      over (some loc) is =
          let (r, reads) = readable.reads k loc is in
          ap (shown_of k c') is
          ∙ (ap some (keeps k loc r reads ∙ sym reads) ∙ sym (ap (shown_of k c) is))

  kept-reads :
      (c c' : Collection) (k : ℕ) (loc : IndexEntry)
      → IsReadable c
      → Keeps c c'
      → Index.get k c'.index ≡ Index.get k c.index
      → Index.get k c'.index ≡ some loc
      → (r : Record) × (read_location codec f k loc c' ≡ ok r)
  kept-reads c c' k loc readable keeps same at =
      let (r, reads) = readable.reads k loc (sym same ∙ at) in (r, keeps k loc r reads)

  pub put-IsShown :
      (c c' : Collection) (e : Entry) (loc : IndexEntry)
      → IsReadable c
      → IsReady c'
      → Keeps c c'
      → c'.index ≡ Index.set e.id loc c.index
      → read_location codec f e.id loc c' ≡ ok (record_of e e.rev)
      → is_delete e.op ≡ false
      → IsShown c c' e
  unfolding next_shown
  put-IsShown c c' e loc readable ready keeps index reads is = record {
    shown = λ k. elim (Bool-cases (e.id == k)) [
      | inl same ↦
          (let at : e.id ≡ k = (nat_beq_iff e.id k).0 same in
            rw (next_shown, same, is)
              (ap (shown_of k c')
                  (look k ∙ ap (λ (b : Bool). if b then some loc else Index.get k c.index) same)
                ∙ ap some (
                    subst (λ i. read_location codec f i loc c' ≡ ok (record_of e e.rev)) at reads)))
      | inr other ↦ rw (next_shown, other) (kept-shown c c' k readable keeps (elsewhere k other))
    ];
    readable = record {
      ready = ready;
      reads = λ k loc' at'. elim (Bool-cases (e.id == k)) [
        | inl same ↦
            (let at : e.id ≡ k = (nat_beq_iff e.id k).0 same in
              let found : Index.get k c'.index ≡ some loc =
                look k ∙ ap (λ (b : Bool). if b then some loc else Index.get k c.index) same in
              let eq : loc ≡ loc' = cc in
              (
                record_of e e.rev,
                subst (λ l. read_location codec f k l c' ≡ ok (record_of e e.rev)) eq
                    (subst (λ i. read_location codec f i loc c' ≡ ok (record_of e e.rev)) at reads),
              ))
        | inr other ↦ kept-reads c c' k loc' readable keeps (elsewhere k other) at'
      ];
    };
  }
    where
      look : (k : ℕ) → Index.get k c'.index ≡ (if e.id == k then some loc else Index.get k c.index)
      look k = ap (Index.get k) index ∙ get-set e.id k loc c.index

      elsewhere : (k : ℕ) → (e.id == k) ≡ false → Index.get k c'.index ≡ Index.get k c.index
      elsewhere k other =
          look k ∙ ap (λ (b : Bool). if b then some loc else Index.get k c.index) other

  pub drop-IsShown :
      (c c' : Collection) (e : Entry)
      → IsReadable c
      → IsReady c'
      → Keeps c c'
      → c'.index ≡ Index.remove e.id c.index
      → is_delete e.op ≡ true
      → IsShown c c' e
  unfolding next_shown
  drop-IsShown c c' e readable ready keeps index is = record {
    shown = λ k. elim (Bool-cases (e.id == k)) [
      | inl same ↦
          rw (next_shown, same, is)
            (ap (shown_of k c')
              (look k ∙ ap (λ (b : Bool). if b then none else Index.get k c.index) same))
      | inr other ↦ rw (next_shown, other) (kept-shown c c' k readable keeps (elsewhere k other))
    ];
    readable = record {
      ready = ready;
      reads = λ k loc' at'. elim (Bool-cases (e.id == k)) [
        | inl same ↦
            (let gone : Index.get k c'.index ≡ none =
                look k ∙ ap (λ (b : Bool). if b then none else Index.get k c.index) same in
              absurd cc)
        | inr other ↦ kept-reads c c' k loc' readable keeps (elsewhere k other) at'
      ];
    };
  }
    where
      look : (k : ℕ) → Index.get k c'.index ≡ (if e.id == k then none else Index.get k c.index)
      look k = ap (Index.get k) index ∙ get-remove e.id k c.index

      elsewhere : (k : ℕ) → (e.id == k) ≡ false → Index.get k c'.index ≡ Index.get k c.index
      elsewhere k other = look k ∙ ap (λ (b : Bool). if b then none else Index.get k c.index) other

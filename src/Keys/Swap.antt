-- ===== src/Keys/Swap.antt =====
-- The compare-and-swap of engine/collection.go: a swap takes effect when its condition holds, and
-- leaves the collection as it was in every other case.
use file_dbv.Prelude.{
  ℕ, ◌+◌, ◌≡◌, ◌≢◌, refl, sym, ap, ◌∙◌, subst, Bool, true, Bool-cases, Option, Option-cases, none,
  some, inl, inr, ◌⊎◌, arith, nat_eq, nat_beq, nat_beq_iff, Str, lookup-insert, beq_refl,
}
use file_dbv.Result.{Result, Result-cases, ok, >>=-eq-ok}
use file_dbv.Json.{Data}
use file_dbv.Store.{Codec, Entry}
use file_dbv.Segment.{append}
use file_dbv.Index
use file_dbv.Index.{Index, IndexEntry}
use file_dbv.Query.{Format}
use file_dbv.Collection.{
  Collection, Record, key_field, has_field, sidx_check_unique, updated, emit, location,
}
use file_dbv.Collection.Quota.{rotate-index}
use file_dbv.Keys.{
  stamp_key, first_id, index_lookup, live_key, replace_entry, try_replace, read_current, swap_if,
  compare_and_swap, update_if_rev,
}

module _ (codec : Codec) (f : Format) where
  -- The record that carries a key stands in the index.
  pub live_key-get :
      (key : Str) (c : Collection) (id : ℕ) (cur : IndexEntry)
      → live_key codec f key c ≡ some (id, cur)
      → Index.get id c.index ≡ some cur
  unfolding live_key
  live_key-get key c id cur found = over (first_id (index_lookup key_field key c)) found
    where
      here :
          (i : ℕ) (o : Option IndexEntry)
          → Index.get i c.index ≡ o
          → elim o as (λ x. Option (ℕ × IndexEntry)) [ none ↦ none | some x ↦ some (i, x) ]
            ≡ some (id, cur)
          → Index.get id c.index ≡ some cur
      here i none at eq = cc
      here i (some x) at eq =
          let same : i ≡ id = cc in
          let there : Index.get i c.index ≡ some cur = cc in
          subst (λ j. Index.get j c.index ≡ some cur) same there

      over :
          (o : Option ℕ)
          → elim o as (λ x. Option (ℕ × IndexEntry)) [
            | none ↦ none
            | some i ↦ elim (Index.get i c.index) as (λ x. Option (ℕ × IndexEntry)) [
              | none ↦ none
              | some x ↦ some (i, x)
            ]
          ]
            ≡ some (id, cur)
          → Index.get id c.index ≡ some cur
      over none eq = cc
      over (some i) eq = here i (Index.get i c.index) refl eq

  -- A swap that returns true.
  pub record IsSwapped (holds : Option Data → ℕ → Bool) (key : Str) (d : Data) (now : ℕ)
      (c c' : Collection) : Type 0 where
    pub id : ℕ
    pub loc : IndexEntry
    pub cur : Entry
    pub record_of : Record
    pub found : live_key codec f key c ≡ some (id, loc)
    pub current : read_current codec f loc c ≡ ok cur
    pub held : holds cur.fields loc.rev ≡ true
    pub replaced : try_replace codec f key id loc (stamp_key d key) now c ≡ ok (record_of, c')

  -- The outcomes of a swap: it took effect, or it returned false or an error and changed nothing.
  abbrev pub Outcome :
      (Option Data → ℕ → Bool) → Str → Data → ℕ → Collection → Result Bool × Collection → Type 0
  Outcome holds key d now c r =
      ((r.0 ≡ ok true) × IsSwapped holds key d now c r.1) ⊎ ((r.0 ≢ ok true) × (r.1 ≡ c))

  compare_and_swap_lem :
      (key : Str) (d : Data) (holds : Option Data → ℕ → Bool) (now : ℕ) (c : Collection)
      → Outcome holds key d now c (compare_and_swap codec f key d holds now c)
  unfolding compare_and_swap swap_if
  compare_and_swap_lem key d holds now c = elim (Option-cases (live_key codec f key c)) [
    | inl at ↦ rw (compare_and_swap, at) (inr (λ e. cc, refl))
    | inr ((id, loc), at) ↦ elim (Result-cases (read_current codec f loc c)) [
      | inr (x, read) ↦ rw (compare_and_swap, at, swap_if, read) (inr (λ e. cc, refl))
      | inl (cur, read) ↦ elim (Bool-cases (holds cur.fields loc.rev)) [
        | inr no_hold ↦ rw (compare_and_swap, at, swap_if, read, no_hold) (inr (λ e. cc, refl))
        | inl held ↦ elim (Result-cases (try_replace codec f key id loc (stamp_key d key) now c)) [
          | inr (x, wrote) ↦
              rw (compare_and_swap, at, swap_if, read, held, wrote) (inr (λ e. cc, refl))
          | inl ((r, c'), wrote) ↦
              rw (compare_and_swap, at, swap_if, read, held, wrote)
                (inl (
                  refl,
                  record {
                    id = id;
                    loc = loc;
                    cur = cur;
                    record_of = r;
                    found = at;
                    current = read;
                    held = held;
                    replaced = wrote;
                  },
                ))
        ]
      ]
    ]
  ]

  replaced-rev :
      (key : Str) (id : ℕ) (loc : IndexEntry) (d : Data) (now : ℕ) (c c' : Collection) (r : Record)
      → try_replace codec f key id loc d now c ≡ ok (r, c')
      → (loc' : IndexEntry) × (Index.get id c'.index ≡ some loc') × (loc'.rev ≡ loc.rev + 1)
  unfolding try_replace updated emit Index.get Index.set
  replaced-rev key id loc d now c c' r done =
      let e = replace_entry codec f id loc d now in
      let (u, unique, step) = >>=-eq-ok (sidx_check_unique f e.id d c.sidx_map) _ done in
      let ((off, active), wrote, same) = >>=-eq-ok (append codec c.active e) _ step in
      let c1 : Collection = updated codec f e d off active c in
      let same_collection : c1 ≡ c' = cc in
      let same_index = ap (λ (x : Collection). x.index) same_collection in
      (
        location c off e,
        sym (ap (Index.get id) same_index)
            ∙ (ap (Index.get id) (rotate-index _)
                ∙ (rw (lookup-insert id id (location c off e) c.index, beq_refl id) refl)),
        refl,
      )

  -- UpdateIfRev returns true only if the key led to a record of the expected revision, whose
  -- revision in the index is then one more; in every other case it leaves the collection as it
  -- was.
  pub update_if_rev_lem :
      (key : Str) (expected : ℕ) (d : Data) (now : ℕ) (c : Collection)
      → (((update_if_rev codec f key expected d now c).0 ≡ ok true)
          × ((id : ℕ) × (loc : IndexEntry) × (loc' : IndexEntry) × (live_key codec f key c
                ≡ some (id, loc))
              × (loc.rev ≡ expected)
              × (Index.get id (update_if_rev codec f key expected d now c).1.index ≡ some loc')
              × (loc'.rev ≡ expected + 1)))
        ⊎ (((update_if_rev codec f key expected d now c).0 ≢ ok true)
            × ((update_if_rev codec f key expected d now c).1 ≡ c))
  unfolding update_if_rev
  update_if_rev_lem key expected d now c = elim (Bool-cases (has_field key_field d)) [
    | inl reserved ↦ rw (update_if_rev, reserved) (inr (λ e. cc, refl))
    | inr free ↦
        rw (update_if_rev, free)
          (elim (compare_and_swap_lem key d (λ cur cur_rev. nat_beq cur_rev expected) now c) [
            | inr (refused, same) ↦ inr (refused, same)
            | inl (swapped, s) ↦
                let (loc', at, next) =
                  replaced-rev key s.id s.loc (stamp_key d key) now c _ s.record_of s.replaced in
                let revs : s.loc.rev ≡ expected = (nat_beq_iff s.loc.rev expected).0 s.held in
                inl (
                  swapped,
                  (s.id, s.loc, loc', s.found, revs, at, next ∙ ap (λ (n : ℕ). n + 1) revs),
                )
          ])
  ]

  bumped :
      (key : Str) (expected : ℕ) (d : Data) (now : ℕ) (c : Collection) (id : ℕ)
      (loc loc' : IndexEntry)
      → live_key codec f key c ≡ some (id, loc)
      → (update_if_rev codec f key expected d now c).0 ≡ ok true
      → live_key codec f key (update_if_rev codec f key expected d now c).1 ≡ some (id, loc')
      → loc'.rev ≡ expected + 1
  bumped key expected d now c id loc loc' found first still =
      elim (update_if_rev_lem key expected d now c) [
        | inr (refused, same) ↦ absurd (refused first)
        | inl (t, (i, l, l', live, same_rev, at, next)) ↦
            let c' = (update_if_rev codec f key expected d now c).1 in
            let here = live_key-get key c' id loc' still in
            let same_id : i ≡ id = cc in
            let there : Index.get id c'.index ≡ some l' =
              subst (λ (j : ℕ). Index.get j c'.index ≡ some l') same_id at in
            let same_loc : l' ≡ loc' = cc in ap (λ (x : IndexEntry). x.rev) (sym same_loc) ∙ next
      ]

  -- Of two UpdateIfRev calls that expect the same revision of a key, the second, when the key
  -- still leads to the same record, does not take effect and changes nothing, if the first took
  -- effect.
  pub update_if_rev_once :
      (key : Str) (expected : ℕ) (d d' : Data) (now now' : ℕ) (c : Collection) (id : ℕ)
      (loc loc' : IndexEntry)
      → live_key codec f key c ≡ some (id, loc)
      → (update_if_rev codec f key expected d now c).0 ≡ ok true
      → live_key codec f key (update_if_rev codec f key expected d now c).1 ≡ some (id, loc')
      → ((update_if_rev codec f key expected d' now'
            (update_if_rev codec f key expected d now c).1).0
          ≢ ok true)
        × ((update_if_rev codec f key expected d' now'
              (update_if_rev codec f key expected d now c).1).1
            ≡ (update_if_rev codec f key expected d now c).1)
  update_if_rev_once key expected d d' now now' c id loc loc' found first still =
      let c' = (update_if_rev codec f key expected d now c).1 in
      let next = bumped key expected d now c id loc loc' found first still in
      elim (update_if_rev_lem key expected d' now' c') [
        | inr unchanged ↦ unchanged
        | inl (second, (i, l, l', live, same_rev, at, after)) ↦
            let same_loc : l ≡ loc' = cc in
            absurd (ground (arith, ap (λ (x : IndexEntry). x.rev) same_loc))
      ]

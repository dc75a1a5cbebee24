-- ===== src/Sidx/Consistent.antt =====
-- The buckets and the reverse map of engine/secondary_index.go describe the same relation.
use file_dbv.Prelude.{
  ℕ, ◌≡◌, refl, subst, ap, sym, ◌∙◌, Bool, true, false, Bool-cases, Option-cases, inl, inr, Option,
  none, some, Str, lookup, delete, lookup-insert, lookup-delete, ◌==◌, nat_eq, str_eq, nat_beq_iff,
  if◌then◌else◌, arith,
}
use file_dbv.Json.{Value}
use file_dbv.Query.{Format}
use file_dbv.Sidx.{SecondaryIndex, add, remove, update, place, leave, to_index_key}
use file_dbv.Sidx.Buckets.{
  member, member-put_id, member-drop_id, buckets-place, reverse-place, buckets-leave, reverse-leave,
}

-- Whether the reverse map sends an id to `k`.
abbrev pub points_to : Option Str → Str → Option (Unit {0})
points_to none k = none
points_to (some j) k = if j == k then some tt else none

-- An id stands in the bucket of a key exactly when the reverse map sends it there.
pub record IsConsistent (s : SecondaryIndex) : Type 0 where
  pub at : (i : ℕ) (k : Str) → member i k s.buckets ≡ points_to (lookup i s.reverse) k

-- The same for every id but one, which stands in no bucket.
record ConsistentBut (id : ℕ) (s : SecondaryIndex) : Type 0 where
  at :
      (i : ℕ) (k : Str)
      → member i k s.buckets ≡ (if id == i then none else points_to (lookup i s.reverse) k)

IsConsistent-but :
    (id : ℕ) (s : SecondaryIndex) → IsConsistent s → lookup id s.reverse ≡ none → ConsistentBut id s
IsConsistent-but id s h fresh = record {
  at = λ i k. elim (Bool-cases (id == i)) [
    | inl e ↦ rw e (
        h.at i k
        ∙ ap (λ (o : Option Str). points_to o k)
            (subst (λ (j : ℕ). lookup j s.reverse ≡ none) ((nat_beq_iff id i).0 e) fresh))
    | inr e ↦ rw e (h.at i k)
  ];
}

placed :
    (b : Bool) (key k : Str) (o : Option Str)
    → (if key == k
        then (if b then some tt else (if b then none else points_to o k))
        else (if b then none else points_to o k))
      ≡ points_to (if b then some key else o) k
placed true key k o = ground arith
placed false key k o = ground arith

through_if :
    (b : Bool) (k : Str) (o : Option Str)
    → (if b then none else points_to o k) ≡ points_to (if b then none else o) k
through_if true k o = refl
through_if false k o = refl

left_alone :
    (b e : Bool) (p : Option (Unit {0}))
    → (e ≡ true → p ≡ (if b then some tt else none))
    → (if b then (if e then none else p) else p) ≡ (if e then none else p)
left_alone true e p h = refl
left_alone false true p h = h refl
left_alone false false p h = refl

module _ (f : Format) where
  place-IsConsistent :
      (v : Value) (id : ℕ) (s : SecondaryIndex) → ConsistentBut id s → IsConsistent (place f v id s)
  place-IsConsistent v id s h = record {
    at = λ i k.
        rw
          (
            buckets-place f v id s,
            reverse-place f v id s,
            member-put_id id i (to_index_key f v) k s.buckets,
            lookup-insert id i (to_index_key f v) s.reverse,
            h.at i k,
          )
          (placed (id == i) (to_index_key f v) k (lookup i s.reverse));
  }

  leave-ConsistentBut :
      (id : ℕ) (key : Str) (s : SecondaryIndex)
      → IsConsistent s
      → lookup id s.reverse ≡ some key
      → ConsistentBut id (leave f id key s)
  leave-ConsistentBut id key s h there = record {
    at = λ i k.
        rw
          (
            buckets-leave f id key s,
            reverse-leave f id key s,
            member-drop_id id i key k s.buckets,
            h.at i k,
          )
          (left_alone (key == k) (id == i) (points_to (lookup i s.reverse) k) (λ e.
            ap (λ (o : Option Str). points_to o k)
              (subst (λ (j : ℕ). lookup j s.reverse ≡ some key) ((nat_beq_iff id i).0 e) there)));
  }

  -- Adding an id that is not indexed yet, under any value, keeps the agreement of the buckets and
  -- the reverse map of a secondary index.
  pub add-IsConsistent :
      (v : Value) (id : ℕ) (s : SecondaryIndex)
      → IsConsistent s
      → lookup id s.reverse ≡ none
      → IsConsistent (add f v id s)
  unfolding add
  add-IsConsistent v id s h fresh = place-IsConsistent v id s (IsConsistent-but id s h fresh)

  pub update-some :
      (id : ℕ) (v : Value) (key : Str) (s : SecondaryIndex)
      → lookup id s.reverse ≡ some key
      → update f id v s ≡ place f v id (leave f id key s)
  unfolding update
  update-some id v key s e = rw (e, update)

  pub update-none :
      (id : ℕ) (v : Value) (s : SecondaryIndex)
      → lookup id s.reverse ≡ none
      → update f id v s ≡ place f v id s
  unfolding update
  update-none id v s e = rw (e, update)

  -- An update of a secondary index in which an id stands in the bucket of a key exactly when the
  -- reverse map sends it there keeps that agreement, whether the id was indexed before or not.
  pub update-IsConsistent :
      (id : ℕ) (v : Value) (s : SecondaryIndex) → IsConsistent s → IsConsistent (update f id v s)
  update-IsConsistent id v s h = elim (Option-cases (lookup id s.reverse)) [
    | inl e ↦
        subst IsConsistent (sym (update-none id v s e))
          (place-IsConsistent v id s (IsConsistent-but id s h e))
    | inr (key, e) ↦
        subst IsConsistent (sym (update-some id v key s e))
          (place-IsConsistent v id (leave f id key s) (leave-ConsistentBut id key s h e))
  ]

  remove-some :
      (id : ℕ) (key : Str) (s : SecondaryIndex)
      → lookup id s.reverse ≡ some key
      → remove f id s ≡ record (leave f id key s) { reverse = delete id s.reverse }
  unfolding remove
  remove-some id key s e = rw (e, remove)

  remove-none : (id : ℕ) (s : SecondaryIndex) → lookup id s.reverse ≡ none → remove f id s ≡ s
  unfolding remove
  remove-none id s e = rw (e, remove)

  -- Removing an id from a secondary index keeps the agreement of the buckets and the reverse map,
  -- whether the id was indexed or not.
  pub remove-IsConsistent :
      (id : ℕ) (s : SecondaryIndex) → IsConsistent s → IsConsistent (remove f id s)
  remove-IsConsistent id s h = elim (Option-cases (lookup id s.reverse)) [
    | inl e ↦ subst IsConsistent (sym (remove-none id s e)) h
    | inr (key, e) ↦ subst IsConsistent (sym (remove-some id key s e)) (record {
      at = λ i k.
          (leave-ConsistentBut id key s h e).at i k
          ∙ (rw (reverse-leave f id key s, lookup-delete id i s.reverse)
              (through_if (id == i) k (lookup i s.reverse)));
    })
  ]

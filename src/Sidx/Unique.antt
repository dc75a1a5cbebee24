-- ===== src/Sidx/Unique.antt =====
-- The uniqueness check of engine/secondary_index.go keeps a value on one live id.
use file_dbv.Prelude.{
  ℕ, ◌≡◌, refl, ap, ◌∙◌, false, Option-cases, inl, inr, Option, some, [], ◌∷◌, Str, lookup, insert,
  lookup-insert, ◌==◌, nat_eq, str_eq, nat_beq_iff, str_beq_iff, if◌then◌else◌, arith,
}
use file_dbv.Json.{Value}
use file_dbv.Query.{Format}
use file_dbv.Sidx.{
  SecondaryIndex, IdSet, update, leave, to_index_key, bucket_of, conflict, other_id,
}
use file_dbv.Sidx.Buckets.{reverse-place, reverse-leave}
use file_dbv.Sidx.Consistent.{IsConsistent, points_to, update-some, update-none}

-- Two ids under one key are one id.
pub record IsUnique (s : SecondaryIndex) : Type 0 where
  pub one : (i j : ℕ) (k : Str) → lookup i s.reverse ≡ some k → lookup j s.reverse ≡ some k → i ≡ j

other_id-false :
    (id j : ℕ) (b : IdSet) {u : Unit {0}} → other_id id b ≡ false → lookup j b ≡ some u → j ≡ id
unfolding other_id lookup
other_id-false id j [] h e = cc
other_id-false id j ((i, u) ∷ b) h e =
    ground (arith, nat_beq_iff i id, nat_beq_iff i j, other_id-false id j b)

no_conflict :
    (s : SecondaryIndex) (id j : ℕ) (key : Str)
    → IsConsistent s
    → conflict key id s ≡ false
    → lookup j s.reverse ≡ some key
    → j ≡ id
unfolding conflict
no_conflict s id j key h free there = other_id-false id j (bucket_of key s.buckets) free (
    h.at j key
    ∙ (ap (λ (o : Option Str). points_to o key) there ∙ rw ((str_beq_iff key key).1 refl)))

module _ (f : Format) where
  reverse-update :
      (id : ℕ) (v : Value) (s : SecondaryIndex)
      → (update f id v s).reverse ≡ insert id (to_index_key f v) s.reverse
  reverse-update id v s = elim (Option-cases (lookup id s.reverse)) [
    | inl e ↦
        ap (λ (t : SecondaryIndex). t.reverse) (update-none f id v s e) ∙ reverse-place f v id s
    | inr (key, e) ↦
        ap (λ (t : SecondaryIndex). t.reverse) (update-some f id v key s e)
        ∙ (reverse-place f v id (leave f id key s)
            ∙ ap (insert id (to_index_key f v)) (reverse-leave f id key s))
  ]

  -- On an index whose buckets and reverse map agree and in which every value stands on at most one
  -- id, writing an id under a value that conflicts with no other id leaves every value on at most
  -- one id.
  pub update-IsUnique :
      (id : ℕ) (v : Value) (s : SecondaryIndex)
      → IsConsistent s
      → IsUnique s
      → conflict (to_index_key f v) id s ≡ false
      → IsUnique (update f id v s)
  update-IsUnique id v s h u free = record {
    one = λ i j k hi hj.
        written i j k
          (rw (reverse-update id v s, lookup-insert id i (to_index_key f v) s.reverse) at hi)
          (rw (reverse-update id v s, lookup-insert id j (to_index_key f v) s.reverse) at hj);
  }
    where
      key : Str
      key = to_index_key f v

      written :
          (i j : ℕ) (k : Str)
          → (if id == i then some key else lookup i s.reverse) ≡ some k
          → (if id == j then some key else lookup j s.reverse) ≡ some k
          → i ≡ j
      written i j k hi hj = ground (
        arith,
        nat_beq_iff id i,
        nat_beq_iff id j,
        u.one i j k,
        no_conflict s id i key h free,
        no_conflict s id j key h free,
      )

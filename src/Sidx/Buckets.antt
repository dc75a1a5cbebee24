-- ===== src/Sidx/Buckets.antt =====
-- What the writes of engine/secondary_index.go do to the buckets and to the reverse map.
use file_dbv.Prelude.{
  ℕ, ◌≡◌, refl, ap, sym, ◌∙◌, true, Bool-cases, inl, inr, Option, none, some, [], ◌∷◌, Str, Map,
  lookup, insert, delete, lookup-insert, lookup-delete, ◌==◌, nat_eq, str_eq, str_beq_iff,
  if◌then◌else◌, arith,
}
use file_dbv.Json.{Value}
use file_dbv.Query.{Format}
use file_dbv.Sidx.{
  SecondaryIndex, IdSet, bucket_of, is_empty, drop_id, put_id, place, leave, to_index_key,
}

-- Whether the bucket of `key` has `id`.
abbrev pub member : ℕ → Str → Map Str IdSet → Option (Unit {0})
member id key buckets = lookup id (bucket_of key buckets)

bucket_of-insert :
    (k j : Str) (b : IdSet) (m : Map Str IdSet)
    → bucket_of j (insert k b m) ≡ (if k == j then b else bucket_of j m)
unfolding bucket_of
bucket_of-insert k j b m = rw lookup-insert (ground arith)

bucket_of-delete :
    (k j : Str) (m : Map Str IdSet)
    → bucket_of j (delete k m) ≡ (if k == j then [] else bucket_of j m)
unfolding bucket_of
bucket_of-delete k j m = rw lookup-delete (ground arith)

lookup_empty : (i : ℕ) (b : IdSet) → is_empty b ≡ true → lookup i b ≡ none
unfolding lookup
lookup_empty i [] h = refl
lookup_empty i (p ∷ b) h = cc

pub member-put_id :
    (id i : ℕ) (key k : Str) (m : Map Str IdSet)
    → member i k (put_id id key m)
      ≡ (if key == k then (if id == i then some tt else member i k m) else member i k m)
unfolding put_id
member-put_id id i key k m = rw bucket_of-insert (elim (Bool-cases (key == k)) [
  | inl e ↦ rw e (
      rw lookup-insert
        (ap (λ (t : Str). if id == i then some tt else member i t m) ((str_beq_iff key k).0 e)))
  | inr e ↦ rw e
])

pub member-drop_id :
    (id i : ℕ) (key k : Str) (m : Map Str IdSet)
    → member i k (drop_id id key m)
      ≡ (if key == k then (if id == i then none else member i k m) else member i k m)
unfolding drop_id bucket_of lookup
member-drop_id id i key k m =
    let left = delete id (bucket_of key m) in
    let inside : lookup i left ≡ (if id == i then none else lookup i (bucket_of key m)) =
      lookup-delete id i (bucket_of key m) in
    elim (Bool-cases (is_empty left)) [
      | inl e ↦
          rw (e, bucket_of-delete key k m)
            (elim (Bool-cases (key == k)) [
              | inl same ↦ rw same (
                  sym (lookup_empty i left e)
                  ∙ (inside
                      ∙ ap (λ (t : Str). if id == i then none else member i t m)
                          ((str_beq_iff key k).0 same)))
              | inr other ↦ rw other
            ])
      | inr e ↦
          rw (e, bucket_of-insert key k left m)
            (elim (Bool-cases (key == k)) [
              | inl same ↦ rw same (
                  inside
                  ∙ ap (λ (t : Str). if id == i then none else member i t m)
                      ((str_beq_iff key k).0 same))
              | inr other ↦ rw other
            ])
    ]

module _ (f : Format) where
  pub buckets-place :
      (v : Value) (id : ℕ) (s : SecondaryIndex)
      → (place f v id s).buckets ≡ put_id id (to_index_key f v) s.buckets
  unfolding place
  buckets-place v id s = ground arith

  pub reverse-place :
      (v : Value) (id : ℕ) (s : SecondaryIndex)
      → (place f v id s).reverse ≡ insert id (to_index_key f v) s.reverse
  unfolding place
  reverse-place v id s = ground arith

  pub buckets-leave :
      (id : ℕ) (key : Str) (s : SecondaryIndex)
      → (leave f id key s).buckets ≡ drop_id id key s.buckets
  unfolding leave
  buckets-leave id key s = ground arith

  pub reverse-leave :
      (id : ℕ) (key : Str) (s : SecondaryIndex) → (leave f id key s).reverse ≡ s.reverse
  unfolding leave
  reverse-leave id key s = ground arith

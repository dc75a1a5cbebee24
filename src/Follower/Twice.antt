-- ===== src/Follower/Twice.antt =====
-- applyEntry of engine/replication.go, for an entry that is delivered again.
use file_dbv.Prelude.{◌≡◌, refl, ◌∙◌, true, Option, none, some, inl, inr, nat_eq, beq_refl, arith}
use file_dbv.Result.{ok}
use file_dbv.Store.{Entry, Codec}
use file_dbv.Index.{IndexEntry}
use file_dbv.Query.{Format}
use file_dbv.Collection.{Collection}
use file_dbv.Follower.{is_stale, apply_entry}
use file_dbv.Follower.Replica.{
  Version, version_of, version_at, changed_version, newer, next_version, Op-cases, changed-delete,
  changed-write, apply-delete_absent, apply-stale, apply-other, apply_entry_lem, absent,
}

next-itself : (e : Entry) (v : Option Version) → next_version e e.id v ≡ changed_version e v
unfolding next_version
next-itself e v = rw (next_version, beq_refl e.id) refl

newer-is_stale :
    (e : Entry) (o : Option IndexEntry) (v : Option Version)
    → version_of o ≡ newer e v
    → is_stale e o ≡ true
newer-is_stale e none none h = absurd cc
newer-is_stale e none (some v) h = ground arith
newer-is_stale e (some loc) none h = ground arith
newer-is_stale e (some loc) (some v) h = ground arith

module _ (codec : Codec) (f : Format) where
  -- An entry of any kind that a follower applied without an error can be delivered again at once:
  -- it succeeds and changes nothing of the collection, not its segments, its indexes or its
  -- events.
  pub apply_entry_twice :
      (e : Entry) (c : Collection)
      → (apply_entry codec f e c).0 ≡ ok tt
      → apply_entry codec f e (apply_entry codec f e c).1 ≡ (ok tt, (apply_entry codec f e c).1)
  apply_entry_twice e c h =
      let c' = (apply_entry codec f e c).1 in
      let after = apply_entry_lem codec f e c e.id h ∙ next-itself e (version_at e.id c) in
      elim (Op-cases e.op) [
        | inl is ↦ apply-delete_absent codec f e c' is (absent _ (after ∙ changed-delete e _ is))
        | inr (inl is) ↦
            apply-stale codec f e c' is
              (newer-is_stale e _ (version_at e.id c) (after ∙ changed-write e _ is))
        | inr (inr (s, is)) ↦ absurd (apply-other codec f e c s is h)
      ]

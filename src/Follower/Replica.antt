-- ===== src/Follower/Replica.antt =====
-- What an entry of the leader does to a follower's records, without their places in the segments.
use file_dbv.Prelude.{
  ℕ, ◌≡◌, ◌≢◌, refl, sym, ap, ◌∙◌, Bool, true, false, Bool-cases, Option-cases, Option, none, some,
  [], subst, inl, inr, ◌⊎◌, ◌==◌, nat_eq, leb, nat_beq_iff, lookup-insert, lookup-delete,
  if◌then◌else◌, arith,
}
use file_dbv.Result.{Result, ok, err, unknown_op, >>=-eq-ok}
use file_dbv.Json.{Text}
use file_dbv.Store.{Entry, Op, op_insert, op_update, op_delete, op_other, Codec}
use file_dbv.Segment.{append}
use file_dbv.Index
use file_dbv.Index.{Index, IndexEntry}
use file_dbv.Query.{Format}
use file_dbv.Collection.{Collection, all_or, location, emit}
use file_dbv.Collection.Quota.{all_or_ok, rotate-index}
use file_dbv.Follower.{settle, is_stale, apply_delete, apply_write, apply_newer, apply_entry}

-- A record without its place.
pub record Version : Type 0 where
  pub rev : ℕ
  pub expires_at : ℕ
  pub epoch : ℕ

abbrev pub version_of : Option IndexEntry → Option Version
version_of none = none
version_of (some loc) =
    some (record { rev = loc.rev; expires_at = loc.expires_at; epoch = loc.epoch })

abbrev pub entry_version : Entry → Version
entry_version e = record { rev = e.rev; expires_at = e.expires_at; epoch = e.epoch }

abbrev pub version_at : ℕ → Collection → Option Version
version_at k c = version_of (Index.get k c.index)

abbrev pub newer : Entry → Option Version → Option Version
newer e none = some (entry_version e)
newer e (some v) = if leb e.rev v.rev then some v else some (entry_version e)

abbrev pub changed_version : Entry → Option Version → Option Version
changed_version e v = elim e.op [
  | op_delete ↦ none
  | op_insert ↦ newer e v
  | op_update ↦ newer e v
  | op_other s ↦ v
]

-- The record `k` after the entry.
unfoldable pub next_version : Entry → ℕ → Option Version → Option Version
next_version e k v = if e.id == k then changed_version e v else v

pub set-version :
    (id k : ℕ) (loc : IndexEntry) (idx : Index)
    → version_of (Index.get k (Index.set id loc idx))
      ≡ (if id == k then version_of (some loc) else version_of (Index.get k idx))
unfolding Index.get Index.set
set-version id k loc idx = rw (lookup-insert id k loc idx) (ground arith)

pub remove-version :
    (id k : ℕ) (idx : Index)
    → version_of (Index.get k (Index.remove id idx))
      ≡ (if id == k then none else version_of (Index.get k idx))
unfolding Index.get Index.remove
remove-version id k idx = rw (lookup-delete id k idx) (ground arith)

pub settle-index : (e : Entry) (c : Collection) → (settle e c).index ≡ c.index
unfolding settle emit
settle-index e c = rotate-index _

abbrev pub IsWrite : Op → Type 0
IsWrite op = (op ≡ op_insert) ⊎ (op ≡ op_update)

pub Op-cases : (op : Op) → (op ≡ op_delete) ⊎ (IsWrite op ⊎ ((s : Text) × (op ≡ op_other s)))
Op-cases op_delete = inl refl
Op-cases op_insert = inr (inl (inl refl))
Op-cases op_update = inr (inl (inr refl))
Op-cases (op_other s) = inr (inr (s, refl))

pub changed-delete :
    (e : Entry) (v : Option Version) → e.op ≡ op_delete → changed_version e v ≡ none
changed-delete e v is = rw is refl

pub changed-write :
    (e : Entry) (v : Option Version) → IsWrite e.op → changed_version e v ≡ newer e v
changed-write e v (inl is) = rw is refl
changed-write e v (inr is) = rw is refl

pub absent : (o : Option IndexEntry) → version_of o ≡ none → o ≡ none
absent none h = refl
absent (some loc) h = absurd cc

-- The records after the one of the entry is changed to `new`.
pub changed-next :
    (e : Entry) (k : ℕ) (idx : Index) {new : Option Version}
    → changed_version e (version_of (Index.get e.id idx)) ≡ new
    → (if e.id == k then new else version_of (Index.get k idx))
      ≡ next_version e k (version_of (Index.get k idx))
unfolding next_version Index.get
changed-next e k idx {new} same = elim (Bool-cases (e.id == k)) [
  | inr other ↦ rw (next_version, other) refl
  | inl is ↦
      (let same' : changed_version e (version_of (Index.get k idx)) ≡ new =
          subst (λ (i : ℕ). changed_version e (version_of (Index.get i idx)) ≡ new)
            ((nat_beq_iff e.id k).0 is) same in
        rw (next_version, is) (sym same'))
]

unchanged :
    (e : Entry) (k : ℕ) (idx : Index)
    → changed_version e (version_of (Index.get e.id idx)) ≡ version_of (Index.get e.id idx)
    → version_of (Index.get k idx) ≡ next_version e k (version_of (Index.get k idx))
unfolding next_version Index.get
unchanged e k idx same = elim (Bool-cases (e.id == k)) [
  | inr other ↦ rw (next_version, other) refl
  | inl is ↦
      (let same' =
          subst
            (λ (i : ℕ).
              changed_version e (version_of (Index.get i idx)) ≡ version_of (Index.get i idx))
            ((nat_beq_iff e.id k).0 is) same in
        rw (next_version, is) (sym same'))
]

newer-stale :
    (e : Entry) (o : Option IndexEntry)
    → is_stale e o ≡ true
    → newer e (version_of o) ≡ version_of o
newer-stale e none h = absurd cc
newer-stale e (some loc) h = rw h refl

pub newer-fresh :
    (e : Entry) (o : Option IndexEntry)
    → is_stale e o ≡ false
    → newer e (version_of o) ≡ some (entry_version e)
newer-fresh e none h = refl
newer-fresh e (some loc) h = rw h refl

module _ (codec : Codec) (f : Format) where
  apply-op :
      (e : Entry) (c : Collection) (op : Op)
      → e.op ≡ op
      → apply_entry codec f e c ≡ elim op as (λ x. Result (Unit {0}) × Collection) [
        | op_delete ↦ elim (Index.get e.id c.index) as (λ x. Result (Unit {0}) × Collection) [
          | none ↦ (ok tt, c)
          | some cur ↦ all_or (apply_delete codec f e c) c
        ]
        | op_insert ↦ apply_newer codec f e (Index.get e.id c.index) c
        | op_update ↦ apply_newer codec f e (Index.get e.id c.index) c
        | op_other s ↦ (err unknown_op, c)
      ]
  unfolding apply_entry
  apply-op e c op is =
      ap
        (λ (o : Op). elim o as (λ x. Result (Unit {0}) × Collection) [
          | op_delete ↦ elim (Index.get e.id c.index) as (λ x. Result (Unit {0}) × Collection) [
            | none ↦ (ok tt, c)
            | some cur ↦ all_or (apply_delete codec f e c) c
          ]
          | op_insert ↦ apply_newer codec f e (Index.get e.id c.index) c
          | op_update ↦ apply_newer codec f e (Index.get e.id c.index) c
          | op_other s ↦ (err unknown_op, c)
        ])
        is

  newer_or :
      (e : Entry) (c : Collection) {stale : Bool}
      → is_stale e (Index.get e.id c.index) ≡ stale
      → apply_newer codec f e (Index.get e.id c.index) c ≡ (
          if stale then (ok tt, c) else all_or (apply_write codec f e (Index.get e.id c.index) c) c)
  newer_or e c is =
      ap
        (λ (b : Bool).
          if b then (ok tt, c) else all_or (apply_write codec f e (Index.get e.id c.index) c) c)
        is

  pub apply-delete :
      (e : Entry) (c : Collection) (cur : IndexEntry)
      → e.op ≡ op_delete
      → Index.get e.id c.index ≡ some cur
      → apply_entry codec f e c ≡ all_or (apply_delete codec f e c) c
  apply-delete e c cur is at =
      apply-op e c op_delete is
      ∙ ap
          (λ (o : Option IndexEntry). elim o as (λ x. Result (Unit {0}) × Collection) [
            | none ↦ (ok tt, c)
            | some loc ↦ all_or (apply_delete codec f e c) c
          ])
          at

  pub apply-delete_absent :
      (e : Entry) (c : Collection)
      → e.op ≡ op_delete
      → Index.get e.id c.index ≡ none
      → apply_entry codec f e c ≡ (ok tt, c)
  unfolding apply_entry
  apply-delete_absent e c is at = rw (apply_entry, is, at) refl

  pub apply-stale :
      (e : Entry) (c : Collection)
      → IsWrite e.op
      → is_stale e (Index.get e.id c.index) ≡ true
      → apply_entry codec f e c ≡ (ok tt, c)
  unfolding apply_entry
  apply-stale e c (inl is) stale = rw (apply_entry, is, stale) refl
  apply-stale e c (inr is) stale = rw (apply_entry, is, stale) refl

  pub apply-newer :
      (e : Entry) (c : Collection)
      → IsWrite e.op
      → is_stale e (Index.get e.id c.index) ≡ false
      → apply_entry codec f e c ≡ all_or (apply_write codec f e (Index.get e.id c.index) c) c
  apply-newer e c (inl is) fresh = apply-op e c op_insert is ∙ newer_or e c fresh
  apply-newer e c (inr is) fresh = apply-op e c op_update is ∙ newer_or e c fresh

  pub apply-other :
      (e : Entry) (c : Collection) (s : Text)
      → e.op ≡ op_other s
      → (apply_entry codec f e c).0 ≢ ok tt
  unfolding apply_entry
  apply-other e c s is h =
      let refused : (apply_entry codec f e c).0 ≡ err unknown_op = rw (apply_entry, is) refl in cc

  pub apply_write-index :
      (e : Entry) (cur : Option IndexEntry) (c : Collection) {c' : Collection}
      → apply_write codec f e cur c ≡ ok (tt, c')
      → (off : ℕ) × (c'.index ≡ Index.set e.id (location c off e) c.index)
  unfolding apply_write
  apply_write-index e cur c h =
      let ((off, active), wrote, done) = >>=-eq-ok (append codec c.active e) _ h in
      (
        off,
        ap
              (λ (r : Result (Unit {0} × Collection)). elim r as (λ x. Index) [
                | err x ↦ []
                | ok (u, c'') ↦ c''.index
              ])
              (sym done)
            ∙ settle-index e _,
      )

  pub apply_delete-index :
      (e : Entry) (c : Collection) {c' : Collection}
      → apply_delete codec f e c ≡ ok (tt, c')
      → c'.index ≡ Index.remove e.id c.index
  unfolding apply_delete
  apply_delete-index e c h =
      let ((off, active), wrote, done) = >>=-eq-ok (append codec c.active e) _ h in
      ap
        (λ (r : Result (Unit {0} × Collection)). elim r as (λ x. Index) [
          | err x ↦ []
          | ok (u, c'') ↦ c''.index
        ])
        (sym done)
      ∙ settle-index e _

  -- The version of a record after an entry, in terms of the write that was made.
  written_version :
      (e : Entry) (c : Collection) (k : ℕ)
      → IsWrite e.op
      → is_stale e (Index.get e.id c.index) ≡ false
      → (apply_entry codec f e c).0 ≡ ok tt
      → version_at k (apply_entry codec f e c).1 ≡ next_version e k (version_at k c)
  written_version e c k is fresh h =
      let same = apply-newer e c is fresh in
      let m = apply_write codec f e (Index.get e.id c.index) c in
      let (off, at) =
        apply_write-index e (Index.get e.id c.index) c
          (all_or_ok m c (ap (λ (t : Result (Unit {0}) × Collection). t.0) (sym same) ∙ h)) in
      ap (λ (t : Result (Unit {0}) × Collection). version_at k t.1) same
      ∙ ap (λ (idx : Index). version_of (Index.get k idx)) at
      ∙ set-version e.id k (location c off e) c.index
      ∙ changed-next e k c.index
          (changed-write e _ is ∙ newer-fresh e (Index.get e.id c.index) fresh)

  removed_version :
      (e : Entry) (c : Collection) (k : ℕ) (cur : IndexEntry)
      → e.op ≡ op_delete
      → Index.get e.id c.index ≡ some cur
      → (apply_entry codec f e c).0 ≡ ok tt
      → version_at k (apply_entry codec f e c).1 ≡ next_version e k (version_at k c)
  removed_version e c k cur is found h =
      let same = apply-delete e c cur is found in
      let at = apply_delete-index e c (
        all_or_ok (apply_delete codec f e c) c
          (ap (λ (t : Result (Unit {0}) × Collection). t.0) (sym same) ∙ h)) in
      ap (λ (t : Result (Unit {0}) × Collection). version_at k t.1) same
      ∙ ap (λ (idx : Index). version_of (Index.get k idx)) at
      ∙ remove-version e.id k c.index
      ∙ changed-next e k c.index (changed-delete e _ is)

  kept_version :
      (e : Entry) (c : Collection) (k : ℕ)
      → apply_entry codec f e c ≡ (ok tt, c)
      → changed_version e (version_of (Index.get e.id c.index))
        ≡ version_of (Index.get e.id c.index)
      → version_at k (apply_entry codec f e c).1 ≡ next_version e k (version_at k c)
  kept_version e c k kept same =
      ap (λ (t : Result (Unit {0}) × Collection). version_at k t.1) kept
      ∙ unchanged e k c.index same

  -- After an entry that succeeds, the version of every record is the one of `next_version`.
  pub apply_entry_lem :
      (e : Entry) (c : Collection) (k : ℕ)
      → (apply_entry codec f e c).0 ≡ ok tt
      → version_at k (apply_entry codec f e c).1 ≡ next_version e k (version_at k c)
  apply_entry_lem e c k h = elim (Op-cases e.op) [
    | inl is ↦ elim (Option-cases (Index.get e.id c.index)) [
      | inl absent ↦
          kept_version e c k (apply-delete_absent e c is absent)
            (changed-delete e _ is ∙ ap version_of (sym absent))
      | inr (cur, found) ↦ removed_version e c k cur is found h
    ]
    | inr (inl is) ↦ elim (Bool-cases (is_stale e (Index.get e.id c.index))) [
      | inl stale ↦
          kept_version e c k (apply-stale e c is stale)
            (changed-write e _ is ∙ newer-stale e (Index.get e.id c.index) stale)
      | inr fresh ↦ written_version e c k is fresh h
    ]
    | inr (inr (s, is)) ↦ absurd (apply-other e c s is h)
  ]

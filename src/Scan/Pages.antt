-- ===== src/Scan/Pages.antt =====
-- A page token of engine/scan.go stands for the last row of its page.
use file_dbv.Prelude.{
  ◌≡◌, ◌≢◌, refl, sym, ap, ◌∙◌, Bool, true, false, Bool-cases, Option, none, some, List, [], ◌∷◌,
  ◌++◌, Str, lookup, lookup-insert, insert as put, str_eq, str_beq_iff, beq_refl, ◌==◌, length,
  arith, All, inl, inr, ◌⊎◌, Ordering, if◌then◌else◌, nat_beq, nat_beq_iff,
}
use file_dbv.Result.{ok}
use file_dbv.Json.{Data, Value, null}
use file_dbv.Query.{Format, compare_values}
use file_dbv.Query.Order.{flip, compare_values-flip}
use file_dbv.Scan.{ScanResult, SortField, data_of, field_of}
use file_dbv.Scan.Order.{
  directed, PageCursor, keys_of, boundary_data, boundary_of, sort_less, cursor_after,
}

-- The map has the row's value of a field.
abbrev Agrees : ScanResult → Data → SortField → Type 0
Agrees r d sf = lookup sf.field d ≡ some (field_of r.fields sf.field)

put-Agrees :
    (r : ScanResult) (d : Data) (sf sf' : SortField)
    → Agrees r d sf
    → Agrees r (put sf'.field (field_of r.fields sf'.field) d) sf
put-Agrees r d sf sf' h = over (Bool-cases (sf'.field == sf.field))
  where
    over :
        ((sf'.field == sf.field) ≡ true) ⊎ ((sf'.field == sf.field) ≡ false)
        → Agrees r (put sf'.field (field_of r.fields sf'.field) d) sf
    over (inl e) =
        lookup-insert sf'.field sf.field (field_of r.fields sf'.field) d
        ∙ (rw e
            (ap (λ (k : Str). some (field_of r.fields k)) ((str_beq_iff sf'.field sf.field).0 e)))
    over (inr e) = lookup-insert sf'.field sf.field (field_of r.fields sf'.field) d ∙ (rw e h)

boundary-Agrees :
    (r : ScanResult) (fields : List SortField) (d : Data) (sf : SortField)
    → Agrees r d sf
    → Agrees r (boundary_data fields (keys_of fields r) d) sf
unfolding boundary_data keys_of
boundary-Agrees r [] d sf h = h
boundary-Agrees r (sf' ∷ fields) d sf h =
    boundary-Agrees r fields (put sf'.field (field_of r.fields sf'.field) d) sf
      (put-Agrees r d sf sf' h)

boundary-All :
    (r : ScanResult) (fields : List SortField) (d : Data)
    → All (Agrees r (boundary_data fields (keys_of fields r) d)) fields
unfolding boundary_data keys_of
boundary-All r [] d = tt
boundary-All r (sf ∷ fields) d =
    let d' = put sf.field (field_of r.fields sf.field) d in
    (
      boundary-Agrees r fields d' sf (
          lookup-insert sf.field sf.field (field_of r.fields sf.field) d
          ∙ (rw (beq_refl sf.field) refl)),
      boundary-All r fields d',
    )

same_value :
    (r row : ScanResult) (d : Data) (sf : SortField)
    → r.fields ≡ some d
    → Agrees row d sf
    → field_of r.fields sf.field ≡ field_of row.fields sf.field
same_value r row d sf same h =
    ap (λ (o : Option Value). elim o as (λ x. Value) [ none ↦ null | some v ↦ v ])
      (ap (λ (x : Option Data). lookup sf.field (data_of x)) same ∙ h)

abbrev choose : SortField → Ordering → Bool → Bool
choose sf o rest = elim (directed sf.desc o) [
  | Ordering.lt ↦ true
  | Ordering.eq ↦ rest
  | Ordering.gt ↦ false
]

All-middle :
    (P : ScanResult → Type 0) (page : List ScanResult) (last : ScanResult) (rest : List ScanResult)
    → All P (page ++ last ∷ rest)
    → P last
All-middle P [] last rest (first, others) = first
All-middle P (r ∷ page) last rest (first, others) = All-middle P page last rest others

-- The token of a cursor is not empty, and decodes to it.
abbrev pub IsToken : (PageCursor → Str) → (Str → Option PageCursor) → PageCursor → Type 0
IsToken encode decode cur = (decode (encode cur) ≡ some cur) × (encode cur ≢ [])

unflipped : (o : Ordering) → o ≡ flip o → o ≡ Ordering.eq
unflipped Ordering.lt h = absurd cc
unflipped Ordering.eq h = refl
unflipped Ordering.gt h = absurd cc

module _ (f : Format) where
  -- The order looks at the sort fields and the id only.
  sort_less-same :
      (fields : List SortField) (r row s : ScanResult) (d : Data)
      → r.fields ≡ some d
      → r.id ≡ row.id
      → All (Agrees row d) fields
      → sort_less f fields r s ≡ sort_less f fields row s
  unfolding sort_less
  sort_less-same [] r row s d same id h = rw id refl
  sort_less-same (sf ∷ fields) r row s d same id (first, rest) =
      let again = sort_less-same fields r row s d same id rest in
      ap
        (λ (v : Value).
          choose sf (compare_values f v (field_of s.fields sf.field)) (sort_less f fields r s))
        (same_value r row d sf same first)
      ∙ ap
          (choose sf (compare_values f (field_of row.fields sf.field) (field_of s.fields sf.field)))
          again

  keys_of-length :
      (fields : List SortField) (r : ScanResult) → length (keys_of fields r) ≡ length fields
  unfolding keys_of
  keys_of-length [] r = refl
  keys_of-length (sf ∷ fields) r = omega (arith, keys_of-length fields r)

  -- The token of a row lets exactly the rows after it pass.
  cursor_after_lem :
      (encode : PageCursor → Str) (decode : Str → Option PageCursor) (fields : List SortField)
      (last : ScanResult)
      → IsToken encode decode (record { keys = keys_of fields last; id = last.id })
      → (after : ScanResult → Bool) × (cursor_after f decode
            (encode (record { keys = keys_of fields last; id = last.id }))
            fields
          ≡ ok (some after))
        × ((r : ScanResult) → after r ≡ sort_less f fields last r)
  unfolding cursor_after
  cursor_after_lem encode decode fields last law =
      let cur : PageCursor = record { keys = keys_of fields last; id = last.id } in
      (
        sort_less f fields (boundary_of fields cur),
        over (encode cur) refl,
        λ r.
            sort_less-same fields (boundary_of fields cur) last r _ refl refl
              (boundary-All last fields []),
      )
    where
      over :
          (token : Str)
          → encode (record { keys = keys_of fields last; id = last.id }) ≡ token
          → cursor_after f decode token fields
            ≡ ok (
                some (
                  sort_less f fields
                    (boundary_of fields (record { keys = keys_of fields last; id = last.id }))))
      over [] e = absurd (law.1 e)
      over (x ∷ token) e =
          let cur : PageCursor = record { keys = keys_of fields last; id = last.id } in
          let found : decode (x ∷ token) ≡ some cur = ap decode (sym e) ∙ law.0 in
          let fits : nat_beq (length cur.keys) (length fields) ≡ true =
            (nat_beq_iff (length cur.keys) (length fields)).1 (keys_of-length fields last) in
          rw (cursor_after, found, fits) refl

  -- Each row comes before every later one.
  abbrev pub IsSorted : List SortField → List ScanResult → Type 0
  IsSorted fields [] = Unit
  IsSorted fields (r ∷ rs) =
      All (λ s. (sort_less f fields r s ≡ true) × (sort_less f fields s r ≡ false)) rs
      × IsSorted fields rs

  unfoldable pub keep_after : (ScanResult → Bool) → List ScanResult → List ScanResult
  keep_after after [] = []
  keep_after after (r ∷ rs) = let rest = keep_after after rs in if after r then r ∷ rest else rest

  keep_after-rest :
      (after : ScanResult → Bool) (fields : List SortField) (last : ScanResult)
      (rest : List ScanResult)
      → ((r : ScanResult) → after r ≡ sort_less f fields last r)
      → All (λ s. (sort_less f fields last s ≡ true) × (sort_less f fields s last ≡ false)) rest
      → keep_after after rest ≡ rest
  unfolding keep_after
  keep_after-rest after fields last [] same h = refl
  keep_after-rest after fields last (s ∷ rest) same ((later, not_before), h) =
      rw (same s ∙ later, keep_after-rest after fields last rest same h) refl

  keep_after-page :
      (after : ScanResult → Bool) (fields : List SortField) (page : List ScanResult)
      (last : ScanResult) (rest : List ScanResult)
      → ((r : ScanResult) → after r ≡ sort_less f fields last r)
      → sort_less f fields last last ≡ false
      → IsSorted fields (page ++ last ∷ rest)
      → keep_after after (page ++ last ∷ rest) ≡ rest
  unfolding keep_after
  keep_after-page after fields [] last rest same itself (h, sorted) =
      rw (same last ∙ itself) (keep_after-rest after fields last rest same h)
  keep_after-page after fields (r ∷ page) last rest same itself (h, sorted) =
      rw (same r ∙ (All-middle _ page last rest h).1)
        (keep_after-page after fields page last rest same itself sorted)

  sort_less_irrefl : (fields : List SortField) (r : ScanResult) → sort_less f fields r r ≡ false
  unfolding sort_less
  sort_less_irrefl [] r = ground arith
  sort_less_irrefl (sf ∷ fields) r =
      let v = field_of r.fields sf.field in
      ap (λ (o : Ordering). choose sf o (sort_less f fields r r))
        (unflipped (compare_values f v v) (compare_values-flip f v v))
      ∙ (over sf.desc ∙ sort_less_irrefl fields r)
    where
      over :
          (desc : Bool)
          → elim (directed desc Ordering.eq) as (λ x. Bool) [
            | Ordering.lt ↦ true
            | Ordering.eq ↦ sort_less f fields r r
            | Ordering.gt ↦ false
          ]
            ≡ sort_less f fields r r
      over true = refl
      over false = refl

  -- When the token of the last row of a page is not empty and decodes to its cursor, it is
  -- accepted for the same sort fields, and of a list of rows in which each row comes before, and
  -- not after, every later one it lets exactly the rows behind that row pass, with no row twice
  -- and none left out.
  pub cursor_after_rest :
      (encode : PageCursor → Str) (decode : Str → Option PageCursor) (fields : List SortField)
      (page : List ScanResult) (last : ScanResult) (rest : List ScanResult)
      → IsToken encode decode (record { keys = keys_of fields last; id = last.id })
      → IsSorted fields (page ++ last ∷ rest)
      → (after : ScanResult → Bool) × (cursor_after f decode
            (encode (record { keys = keys_of fields last; id = last.id }))
            fields
          ≡ ok (some after))
        × (keep_after after (page ++ last ∷ rest) ≡ rest)
  cursor_after_rest encode decode fields page last rest law sorted =
      let (after, accepted, same) = cursor_after_lem encode decode fields last law in
      (
        after,
        accepted,
        keep_after-page after fields page last rest same (sort_less_irrefl fields last) sorted,
      )

-- ===== src/Scan/Order.antt =====
-- The order of a scan of engine/scan.go and its pages: sortLess, the page token, the top-K buffer and
-- scanOrdered. container/heap, sort.SliceStable, and base64 with JSON are parameters.
use file_dbv.Prelude.{
  ℕ, ◌+◌, Bool, true, false, ◌&&◌, Option, none, some, List, [], ◌∷◌, ◌++◌, Str, map, insert as put,
  str_eq, length, drop, take, ltb, nat_beq, Ordering, if◌then◌else◌,
}
use file_dbv.Result.{Result, ok, err, invalid_page_token, ◌>>=◌}
use file_dbv.Json.{Data, Value}
use file_dbv.Store.{Codec}
use file_dbv.Query.{Format, Filter, compare_values}
use file_dbv.Collection.{Collection}
use file_dbv.Scan.{
  ScanResult, SortField, Flow, next, state_of, error_of, field_of, for_each_match, finalize_record,
}

-- `if sf.Desc { c = -c }`
abbrev pub directed : Bool → Ordering → Ordering
directed false c = c
directed true Ordering.lt = Ordering.gt
directed true Ordering.eq = Ordering.eq
directed true Ordering.gt = Ordering.lt

-- The keys in the order of the sort fields, and the id.
pub record PageCursor : Type 0 where
  pub keys : List Value
  pub id : ℕ

unfoldable pub keys_of : List SortField → ScanResult → List Value
keys_of [] r = []
keys_of (sf ∷ fields) r = field_of r.fields sf.field ∷ keys_of fields r

unfoldable pub boundary_data : List SortField → List Value → Data → Data
boundary_data [] keys d = d
boundary_data (sf ∷ fields) [] d = d
boundary_data (sf ∷ fields) (key ∷ keys) d = boundary_data fields keys (put sf.field key d)

-- The row that a cursor stands for, which has the sort fields only.
abbrev pub boundary_of : List SortField → PageCursor → ScanResult
boundary_of fields cur = record {
  id = cur.id;
  rev = 0;
  fields = some (boundary_data fields cur.keys []);
  ts = 0;
}

module _ (f : Format) where
  unfoldable pub sort_less : List SortField → ScanResult → ScanResult → Bool
  sort_less [] a b = ltb a.id b.id
  sort_less (sf ∷ fields) a b =
      let rest = sort_less fields a b in
      elim (directed sf.desc
        (compare_values f (field_of a.fields sf.field) (field_of b.fields sf.field))) [
          | Ordering.lt ↦ true
          | Ordering.eq ↦ rest
          | Ordering.gt ↦ false
        ]

  -- `none` for an empty token, which lets every row pass.
  unfoldable pub cursor_after :
      (Str → Option PageCursor) → Str → List SortField → Result (Option (ScanResult → Bool))
  unfolding sort_less
  cursor_after decode [] fields = ok none
  cursor_after decode (x ∷ token) fields = elim (decode (x ∷ token)) [
    | none ↦ err invalid_page_token
    | some cur ↦
        if nat_beq (length cur.keys) (length fields)
        then ok (some (sort_less fields (boundary_of fields cur)))
        else err invalid_page_token
  ]

abbrev pub passes : Option (ScanResult → Bool) → ScanResult → Bool
passes none r = true
passes (some after) r = after r

-- heap.Push, heap.Fix at the root, and sort.SliceStable.
pub record Sorting : Type 0 where
  pub heap_push : (ScanResult → ScanResult → Bool) → ScanResult → List ScanResult → List ScanResult
  pub heap_fix : (ScanResult → ScanResult → Bool) → List ScanResult → List ScanResult
  pub sort_rows : (ScanResult → ScanResult → Bool) → List ScanResult → List ScanResult
  pub sort_ids : List ℕ → List ℕ

module _ (sorting : Sorting) where
  -- The root, which comes first, is the greatest of the rows.
  unfoldable pub replace_root :
      (ScanResult → ScanResult → Bool) → ScanResult → List ScanResult → List ScanResult
  replace_root less r [] = []
  replace_root less r (root ∷ buf) =
      if less r root then sorting.heap_fix less (r ∷ buf) else root ∷ buf

  unfoldable pub top_k_push :
      ℕ → (ScanResult → ScanResult → Bool) → ScanResult → List ScanResult → List ScanResult
  unfolding replace_root
  top_k_push cap less r buf =
      if nat_beq cap 0
      then buf
      else if ltb (length buf) cap
      then sorting.heap_push less r buf
      else replace_root less r buf

  -- What scanOrdered collects.
  pub record Collected : Type 0 where
    pub matched : ℕ
    pub page : List ScanResult

  unfoldable pub collect :
      ℕ
      → ℕ
      → (ScanResult → ScanResult → Bool)
      → Option (ScanResult → Bool)
      → ScanResult
      → Collected
      → Flow Collected
  unfolding top_k_push
  collect offset limit less after r s =
      if passes after r
      then next (record {
        matched = s.matched + 1;
        page = if ltb 0 limit then top_k_push (offset + limit) less r s.page else s.page ++ r ∷ [];
      })
      else next s

  abbrev pub cut_page : ℕ → ℕ → List ScanResult → List ScanResult
  cut_page offset limit rows =
      if ltb 0 limit then take limit (drop offset rows) else drop offset rows

  abbrev pub last_row : List ScanResult → Option ScanResult
  last_row [] = none
  last_row (r ∷ []) = some r
  last_row (r ∷ s ∷ rows) = last_row (s ∷ rows)

  -- The token of the next page, if rows are left.
  abbrev pub next_token : (PageCursor → Str) → List SortField → ℕ → ℕ → ℕ → List ScanResult → Str
  next_token encode fields offset limit matched page = elim (last_row page) [
    | none ↦ []
    | some last ↦
        if ltb 0 limit && ltb (offset + limit) matched
        then encode (record { keys = keys_of fields last; id = last.id })
        else []
  ]

  module _ (codec : Codec) (f : Format) (encode : PageCursor → Str)
      (decode : Str → Option PageCursor) where
    -- The rows of the page and the token of the next one; a yield does not fail.
    unfoldable pub scan_ordered :
        ℕ
        → ℕ
        → List SortField
        → Str
        → List Str
        → Filter
        → ℕ
        → Collection
        → Result (List ScanResult × Str)
    unfolding cursor_after collect sort_less for_each_match
    scan_ordered offset limit fields token projected filter now c = do
      after ← cursor_after f decode token fields
      let less = sort_less f fields
      let done =
          for_each_match codec f sorting.sort_ids (collect offset limit less after) filter now c
            (record { scanned = 0; acc = record { matched = 0; page = [] } })
      elim (error_of done) [
        | some x ↦ err x
        | none ↦
            (let s = (state_of done).acc in
              let page = cut_page offset limit (sorting.sort_rows less s.page) in
              ok (
                map (finalize_record projected) page,
                next_token encode fields offset limit s.matched page,
              ))
      ]

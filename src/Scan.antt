-- ===== src/Scan.antt =====
-- engine/scan.go: scans of a collection that is not encrypted. sort.Slice is the parameter
-- `sort_ids`. The context of a request and the hook OnScan are left out.
pub mod Rows
pub mod Unordered
pub mod Order
pub mod Pages
pub mod Count
pub mod Stream
pub mod Tests
use file_dbv.Prelude.{
  ℕ, suc, ◌+◌, Bool, true, false, not, ◌&&◌, Option, none, some, List, [], ◌∷◌, ◌++◌, Str, lookup,
  insert as put, length, drop, take, ltb, leb, nat_beq, nat_eq, str_eq, Ordering, if◌then◌else◌,
}
use file_dbv.Result.{
  Result, Error, ok, err, ◌>>=◌, segment_not_found, not_found, or_error, invalid_page_token,
}
use file_dbv.Json.{Data, Value, null}
use file_dbv.Store.{Entry, Codec, decode}
use file_dbv.Segment.{Segment, read_at, scan_token, split_lines}
use file_dbv.Index
use file_dbv.Index.{IndexEntry}
use file_dbv.Query.{
  Format, Filter, FieldFilter, FilterOp, match_all, field_filter, op_eq, op_gt, op_gte, op_lt,
  op_lte, matches, compare_values, filter_value_typed, is_lt,
}
use file_dbv.Sidx.{lookup_range}
use file_dbv.Collection.{Collection, key_field, expired, segment_by_path}
use file_dbv.Compaction.{is_delete}
use file_dbv.Keys.{index_lookup}

pub record ScanResult : Type 0 where
  pub id : ℕ
  pub rev : ℕ
  pub fields : Option Data
  pub ts : ℕ

pub record SortField : Type 0 where
  pub field : Str
  pub desc : Bool

-- What a visit hands back: the state, or the state and why the scan ends; no error is the sentinel
-- errStopScan.
pub data Flow (A : Type 0) : Type 0 where
  next : A → Flow A
  halt : Option Error → A → Flow A

abbrev pub state_of : {A : Type 0} → Flow A → A
state_of (next a) = a
state_of (halt e a) = a

abbrev pub error_of : {A : Type 0} → Flow A → Option Error
error_of (next a) = none
error_of (halt e a) = e

-- A nil map has no fields.
abbrev pub data_of : Option Data → Data
data_of none = []
data_of (some d) = d

-- `data[field]` is nil for a field that is not there.
abbrev pub field_of : Option Data → Str → Value
field_of d field = elim (lookup field (data_of d)) [ none ↦ null | some v ↦ v ]

unfoldable pub filter_value_to_index_key : Format → Str → Str
filter_value_to_index_key f s = elim (f.unmarshal s) [ none ↦ s | some v ↦ f.sprint v ]

-- The index still points at exactly this place.
abbrev pub points_at : Option IndexEntry → ℕ → ℕ → Bool
points_at none path offset = false
points_at (some loc) path offset = nat_beq loc.segment_path path && nat_beq loc.offset offset

abbrev pub rev_of : Option IndexEntry → ℕ
rev_of none = 0
rev_of (some loc) = loc.rev

abbrev pub is_expired : Option IndexEntry → ℕ → Bool
is_expired none now = false
is_expired (some loc) now = expired loc.expires_at now

-- `scanned` is RowsScanned.
pub record Walk (A : Type 0) : Type 0 where
  pub scanned : ℕ
  pub acc : A

abbrev pub with_walk : {A : Type 0} → ℕ → Flow A → Flow (Walk A)
with_walk n (next a) = next (record { scanned = n; acc = a })
with_walk n (halt e a) = halt e (record { scanned = n; acc = a })

abbrev pub and_then : {A : Type 0} → Flow A → (A → Flow A) → Flow A
and_then (next w) rest = rest w
and_then (halt e w) rest = halt e w

module _ (codec : Codec) (f : Format) where
  abbrev pub result_of : Entry → ℕ → ScanResult
  result_of e rev = record { id = e.id; rev = rev; fields = e.fields; ts = e.ts }

  unfoldable pub is_live : ℕ → Collection → ℕ → ℕ → Entry → Bool
  is_live now c path offset e =
      let loc = Index.get e.id c.index in
      points_at loc path offset && (not (is_delete e.op) && not (is_expired loc now))

  unfoldable pub get_stored : ℕ → ℕ → Collection → Result (Entry × IndexEntry)
  get_stored id now c = elim (Index.get id c.index) [
    | none ↦ err not_found
    | some loc ↦
        if expired loc.expires_at now
        then err not_found
        else elim (segment_by_path loc.segment_path c) [
          | none ↦ err segment_not_found
          | some s ↦ (read_at codec s loc.offset >>= λ e. ok (e, loc))
        ]
  ]

  abbrev range_candidates : FieldFilter → Collection → Option (List ℕ)
  range_candidates ff c = elim (lookup ff.field c.sidx_map) [
    | none ↦ none
    | some s ↦ lookup_range f ff.op (filter_value_typed f ff.value) s
  ]

  -- The candidate ids that a secondary index has for the filter, if one serves it.
  unfoldable pub index_candidates : Filter → Collection → Option (List ℕ)
  unfolding filter_value_to_index_key
  index_candidates (field_filter ff) c = elim ff.op [
    | op_eq ↦ index_lookup ff.field (filter_value_to_index_key f ff.value) c
    | op_gt ↦ range_candidates ff c
    | op_gte ↦ range_candidates ff c
    | op_lt ↦ range_candidates ff c
    | op_lte ↦ range_candidates ff c
    | _ ↦ none
  ]
  index_candidates _ c = none

  module _ (sort_ids : List ℕ → List ℕ) {A : Type 0} (visit : ScanResult → A → Flow A)
      (filter : Filter) where
    -- A live record is counted, and visited if it matches.
    unfoldable pub visit_row : ScanResult → Walk A → Flow (Walk A)
    visit_row r w =
        if matches f filter (data_of r.fields)
        then with_walk (w.scanned + 1) (visit r w.acc)
        else next (record w { scanned = w.scanned + 1 })

    -- An id that cannot be read is passed over.
    unfoldable pub visit_ids : ℕ → Collection → List ℕ → Walk A → Flow (Walk A)
    unfolding visit_row
    visit_ids now c [] w = next w
    visit_ids now c (id ∷ ids) w = elim (get_stored id now c) [
      | err x ↦ visit_ids now c ids w
      | ok (e, loc) ↦
          and_then (visit_row (record { id = id; rev = loc.rev; fields = e.fields; ts = e.ts }) w)
            (visit_ids now c ids)
    ]

    unfoldable pub visit_entry : ℕ → Collection → ℕ → ℕ → Entry → Walk A → Flow (Walk A)
    unfolding is_live visit_row
    visit_entry now c path offset e w =
        if is_live now c path offset e
        then visit_row (result_of e (rev_of (Index.get e.id c.index))) w
        else next w

    -- ScanFrom over the lines of one segment.
    unfoldable pub walk_lines : ℕ → Collection → ℕ → ℕ → List Str → Walk A → Flow (Walk A)
    unfolding visit_entry
    walk_lines now c path off [] w = next w
    walk_lines now c path off (l ∷ ls) w = elim (scan_token l) [
      | err x ↦ halt (some x) w
      | ok [] ↦ walk_lines now c path (off + 1) ls w
      | ok (x ∷ line) ↦ elim (decode codec (x ∷ line)) [
        | err y ↦ halt (some y) w
        | ok e ↦
            and_then (visit_entry now c path off e w)
              (walk_lines now c path (off + length (x ∷ line) + 1) ls)
      ]
    ]

    unfoldable pub stream_live : ℕ → Collection → List Segment → Walk A → Flow (Walk A)
    unfolding walk_lines
    stream_live now c [] w = next w
    stream_live now c (s ∷ segs) w =
        and_then (walk_lines now c s.path 0 (split_lines s.bytes) w) (stream_live now c segs)

    unfoldable pub for_each_match : ℕ → Collection → Walk A → Flow (Walk A)
    unfolding index_candidates visit_ids stream_live
    for_each_match now c w = elim (index_candidates filter c) [
      | some ids ↦ visit_ids now c (sort_ids ids) w
      | none ↦ stream_live now c (c.sealed ++ c.active ∷ []) w
    ]

-- The key field survives a projection.
abbrev pub keep_field : Str → Data → Data → Data
keep_field field d out = elim (lookup field d) [ none ↦ out | some v ↦ put field v out ]

unfoldable pub project_fields : Data → List Str → Data
project_fields d [] = []
project_fields d (field ∷ fields) = keep_field field d (project_fields d fields)

unfoldable pub project_data : Option Data → List Str → Option Data
unfolding project_fields
project_data d [] = d
project_data d (field ∷ fields) =
    some (keep_field key_field (data_of d) (project_fields (data_of d) (field ∷ fields)))

abbrev pub finalize_record : List Str → ScanResult → ScanResult
finalize_record fields r = record r { fields = project_data r.fields fields }

-- The closure of scanUnordered: `out` is what was yielded; a yield does not fail.
pub record Page : Type 0 where
  pub skipped : ℕ
  pub emitted : ℕ
  pub out : List ScanResult

unfoldable pub visit_unordered : ℕ → ℕ → List Str → ScanResult → Page → Flow Page
unfolding project_data
visit_unordered offset limit fields r p =
    if ltb p.skipped offset
    then next (record p { skipped = p.skipped + 1 })
    else let p' = record p {
      emitted = p.emitted + 1;
      out = p.out ++ finalize_record fields r ∷ [];
    } in
      if ltb 0 limit && leb limit (p.emitted + 1) then halt none p' else next p'

abbrev pub first_page : Walk Page
first_page = record { scanned = 0; acc = record { skipped = 0; emitted = 0; out = [] } }

module _ (codec : Codec) (f : Format) (sort_ids : List ℕ → List ℕ) where
  -- The error, and what was yielded.
  unfoldable pub scan_unordered :
      ℕ → ℕ → List Str → Filter → ℕ → Collection → Option Error × List ScanResult
  unfolding for_each_match visit_unordered
  scan_unordered offset limit fields filter now c =
      let done =
        for_each_match codec f sort_ids (visit_unordered offset limit fields) filter now c
          first_page in
      (error_of done, (state_of done).acc.out)

-- ===== src/Scan/Stream.antt =====
-- ScanStream and Scan of engine/scan.go for a collection that is not encrypted.
use file_dbv.Prelude.{ℕ, Bool, false, Option, none, some, List, [], ◌∷◌, Str}
use file_dbv.Result.{Result, Error, ok, err}
use file_dbv.Store.{Codec}
use file_dbv.Query.{Format, Filter, match_all}
use file_dbv.Collection.{Collection}
use file_dbv.Scan.{ScanResult, SortField, scan_unordered}
use file_dbv.Scan.Order.{Sorting, PageCursor, scan_ordered}

-- No filter is the nil of Go.
pub record ScanOptions : Type 0 where
  pub filter : Option Filter
  pub limit : ℕ
  pub offset : ℕ
  pub order_by : Str
  pub descending : Bool
  pub sort : List SortField
  pub page_token : Str
  pub fields : List Str

-- Sort, or OrderBy as one field.
unfoldable pub sort_fields : ScanOptions → List SortField
sort_fields opts = elim opts.sort [
  | sf ∷ rest ↦ sf ∷ rest
  | [] ↦ elim opts.order_by [
    | [] ↦ []
    | x ∷ field ↦ record { field = x ∷ field; desc = opts.descending } ∷ []
  ]
]

-- What a scan yields, with its error and the token of the next page.
pub record Scanned : Type 0 where
  pub error : Option Error
  pub rows : List ScanResult
  pub next_page_token : Str

module _ (sorting : Sorting) (codec : Codec) (f : Format) (encode : PageCursor → Str)
    (decode : Str → Option PageCursor) where
  abbrev filter_of : ScanOptions → Filter
  filter_of opts = elim opts.filter [ none ↦ match_all | some filter ↦ filter ]

  abbrev unordered : ScanOptions → ℕ → Collection → Scanned
  unordered opts now c =
      let (error, rows) =
        scan_unordered codec f sorting.sort_ids opts.offset opts.limit opts.fields (filter_of opts)
          now c in
      record { error = error; rows = rows; next_page_token = [] }

  abbrev ordered : ScanOptions → List SortField → ℕ → Collection → Scanned
  ordered opts fields now c =
      elim (scan_ordered sorting codec f encode decode opts.offset opts.limit fields opts.page_token
        opts.fields (filter_of opts) now c) [
          | err x ↦ record { error = some x; rows = []; next_page_token = [] }
          | ok (rows, token) ↦ record { error = none; rows = rows; next_page_token = token }
        ]

  unfoldable pub scan_stream : ScanOptions → ℕ → Collection → Scanned
  unfolding sort_fields
  scan_stream opts now c = elim (sort_fields opts) [
    | sf ∷ rest ↦ ordered opts (sf ∷ rest) now c
    | [] ↦ elim opts.page_token [ [] ↦ unordered opts now c | x ∷ token ↦ ordered opts [] now c ]
  ]

  -- The rows, or an error alone.
  unfoldable pub scan : Option Filter → ℕ → Collection → Result (List ScanResult)
  unfolding scan_stream
  scan filter now c =
      let done =
        scan_stream
          (record {
            filter = filter;
            limit = 0;
            offset = 0;
            order_by = [];
            descending = false;
            sort = [];
            page_token = [];
            fields = [];
          })
          now c in
      elim done.error [ none ↦ ok done.rows | some x ↦ err x ]

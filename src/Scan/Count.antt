-- ===== src/Scan/Count.antt =====
-- engine/count.go: Count and Exists.
use file_dbv.Prelude.{ℕ, ◌+◌, Bool, true, false, none, some, List, [], ◌∷◌, Str, length}
use file_dbv.Result.{Result, ok, err}
use file_dbv.Store.{Codec}
use file_dbv.Index
use file_dbv.Query.{Format, Filter, match_all, field_filter, op_eq}
use file_dbv.Collection.{Collection, key_field}
use file_dbv.Keys.{index_lookup}
use file_dbv.Scan.{
  ScanResult, Flow, next, state_of, error_of, filter_value_to_index_key, for_each_match,
}

module _ (codec : Codec) (f : Format) (sort_ids : List ℕ → List ℕ) where
  abbrev pub count_rows : ScanResult → ℕ → Flow ℕ
  count_rows r n = next (n + 1)

  unfoldable pub stream_count : Filter → ℕ → Collection → Result ℕ
  unfolding for_each_match
  stream_count filter now c =
      let done =
        for_each_match codec f sort_ids count_rows filter now c (record { scanned = 0; acc = 0 }) in
      elim (error_of done) [ none ↦ ok (state_of done).acc | some x ↦ err x ]

  -- Two fast paths, and a scan.
  unfoldable pub count : Filter → ℕ → Collection → Result ℕ
  unfolding filter_value_to_index_key stream_count
  count match_all now c = ok (Index.len c.index)
  count (field_filter ff) now c = elim ff.op [
    | op_eq ↦ elim (index_lookup ff.field (filter_value_to_index_key f ff.value) c) [
      | none ↦ stream_count (field_filter ff) now c
      | some ids ↦ ok (length ids)
    ]
    | _ ↦ stream_count (field_filter ff) now c
  ]
  count filter now c = stream_count filter now c

unfoldable pub exists : Str → Collection → Bool
exists key c = elim (index_lookup key_field key c) [
  | none ↦ false
  | some [] ↦ false
  | some (id ∷ ids) ↦ true
]

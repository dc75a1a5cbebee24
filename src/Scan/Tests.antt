-- ===== src/Scan/Tests.antt =====
-- Runs of the model of engine/scan.go.
use file_dbv.Prelude.{◌≡◌, ◌≢◌, refl, Bool, [], ◌∷◌, Str, some, none, map}
use file_dbv.Result.{ok}
use file_dbv.Store.Sample.{sample_codec, sample_data}
use file_dbv.Query.{match_all}
use file_dbv.Query.Sample.{sample_format}
use file_dbv.Collection.{Collection, insert}
use file_dbv.Collection.Tests.{empty_collection}
use file_dbv.Scan.{ScanResult, scan_unordered, finalize_record}
use file_dbv.Scan.Rows.{rows_of}
use file_dbv.Scan.Unordered.{scan_unordered_lem, matching, page_of, page_error}
use file_dbv.Scan.Order.{PageCursor, keys_of, cursor_after, sort_less}
use file_dbv.Scan.Pages.{cursor_after_rest, keep_after}

abbrev one_record : Collection
one_record = (insert sample_codec sample_format sample_data 0 5 empty_collection).1

scan_unordered_lem_example :
    ((scan_unordered sample_codec sample_format (λ ids. ids) 0 1 [] match_all 5 one_record).1
      ≡ map (finalize_record []) (
          page_of 0 1 (
            matching sample_format match_all
              (rows_of sample_codec sample_format (λ ids. ids) 5 one_record match_all).0)))
    × ((scan_unordered sample_codec sample_format (λ ids. ids) 0 1 [] match_all 5 one_record).0
        ≡ page_error 0 1
            (matching sample_format match_all
              (rows_of sample_codec sample_format (λ ids. ids) 5 one_record match_all).0)
            (rows_of sample_codec sample_format (λ ids. ids) 5 one_record match_all).1)
scan_unordered_lem_example =
    scan_unordered_lem sample_codec sample_format (λ ids. ids) match_all [] 0 1 5 one_record

abbrev first_row : ScanResult
first_row = record { id = 1; rev = 1; fields = none; ts = 0 }

abbrev second_row : ScanResult
second_row = record { id = 2; rev = 1; fields = none; ts = 0 }

abbrev only_cursor : PageCursor
only_cursor = record { keys = []; id = 1 }

abbrev one_token : Str
one_token = 1 ∷ []

one_token-not_empty : one_token ≢ []
one_token-not_empty e = absurd cc

cursor_after_rest_example :
    (after : ScanResult → Bool) × (cursor_after sample_format (λ s. some only_cursor) one_token []
      ≡ ok (some after))
    × (keep_after sample_format after (first_row ∷ second_row ∷ []) ≡ second_row ∷ [])
unfolding sort_less keys_of
cursor_after_rest_example =
    cursor_after_rest sample_format (λ cur. one_token) (λ s. some only_cursor) [] [] first_row
      (second_row ∷ []) (refl, one_token-not_empty) (((refl, refl), tt), (tt, tt))

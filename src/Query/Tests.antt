-- ===== src/Query/Tests.antt =====
-- Runs of the model of query/filter.go.
use Prim.Native.Nat.{Ordering}
use file_dbv.Prelude.{◌≡◌, ◌↔◌, refl, [], ◌∷◌, ◌||◌, true, not, codes}
use file_dbv.Json.{Data, number, text}
use file_dbv.Query.{
  Filter, and_filter, or_filter, field_filter, nil, cons, compare_values, str_compare, equal,
  match_op, matches, as_number, op_eq, op_neq, op_gt, op_gte, op_lt, op_lte,
}
use file_dbv.Query.Order.{flip, compare_values-flip, compare_values_trans, compare_values_eq_iff}
use file_dbv.Query.Match.{Accepts, matches_iff, match_op_consistent}
use file_dbv.Query.Sample.{sample_format, nine, ten}

compare_values-flip_example :
    compare_values sample_format (number nine) (text (codes "5"))
    ≡ flip (compare_values sample_format (text (codes "5")) (number nine))
compare_values-flip_example = compare_values-flip sample_format (number nine) (text (codes "5"))

compare_values_trans_example :
    compare_values sample_format (text (codes "1")) (text (codes "3")) ≡ Ordering.lt
unfolding compare_values str_compare as_number
compare_values_trans_example =
    compare_values_trans sample_format (text (codes "1")) (text (codes "2")) (text (codes "3")) refl
      refl refl refl

compare_values_eq_iff_example :
    (compare_values sample_format (number nine) (number ten) ≡ Ordering.eq)
    ↔ (equal sample_format (number nine) (number ten) ≡ true)
unfolding as_number
compare_values_eq_iff_example =
    compare_values_eq_iff sample_format (number nine) (number ten) refl refl

abbrev is_nine : Filter
is_nine = field_filter (record { field = codes "n"; op = op_eq; value = codes "9" })

abbrev nine_or_none : Filter
nine_or_none = and_filter (cons (or_filter (cons is_nine nil)) nil)

abbrev record_of_nine : Data
record_of_nine = (codes "n", number nine) ∷ []

matches_iff_example :
    (matches sample_format nine_or_none record_of_nine ≡ true)
    ↔ Accepts sample_format nine_or_none record_of_nine
matches_iff_example = matches_iff sample_format nine_or_none record_of_nine

match_op_consistent_example :
    (match_op sample_format op_neq (number nine) (number ten)
      ≡ not (match_op sample_format op_eq (number nine) (number ten)))
    × (match_op sample_format op_gte (number nine) (number ten) ≡ (
        match_op sample_format op_gt (number nine) (number ten)
        || match_op sample_format op_eq (number nine) (number ten)))
    × (match_op sample_format op_lte (number nine) (number ten) ≡ (
        match_op sample_format op_lt (number nine) (number ten)
        || match_op sample_format op_eq (number nine) (number ten)))
    × (match_op sample_format op_gt (number nine) (number ten)
        ≡ not (match_op sample_format op_lte (number nine) (number ten)))
unfolding as_number
match_op_consistent_example = match_op_consistent sample_format (number nine) (number ten) refl refl

-- ===== src/Query.antt =====
-- query/filter.go: the filters of a scan and the comparison that they share with sorting.
-- fmt, encoding/json, strconv and regexp are the parameter `Format`.
pub mod Order
pub mod Match
pub mod Sample
pub mod Tests
use Prim.Native.Nat.{Ordering, compare}
use file_dbv.Prelude.{
  ℕ, ◌+◌, ◌-◌, ◌%◌, ◌^◌, Bool, true, false, not, ◌&&◌, ◌||◌, Option, none, some, List, [], ◌∷◌,
  ◌++◌, Str, lookup, ltb, leb, nat_beq, str_beq, str_eq, if◌then◌else◌,
}
use file_dbv.Json.{Value, Data, null, bool, number, text, array, object}

-- `fmt.Sprintf("%v", v)`, json.Unmarshal into `any`, strconv.ParseFloat, and regexp.Compile with
-- MatchString; `none` is an error.
pub record Format : Type 0 where
  pub sprint : Value → Str
  pub unmarshal : Str → Option Value
  pub parse_float : Str → Option ℕ
  pub regexp : Str → Option (Str → Bool)

-- The order and the equality of float64 values, read from their bits.
abbrev pub sign_bit : ℕ
sign_bit = 2 ^ 63

abbrev pub infinity : ℕ
infinity = 0x7ff0000000000000

abbrev pub magnitude : ℕ → ℕ
magnitude x = x % sign_bit

abbrev pub is_negative : ℕ → Bool
is_negative x = leb sign_bit x

abbrev pub is_nan : ℕ → Bool
is_nan x = ltb infinity (magnitude x)

unfoldable pub signed_lt : ℕ → ℕ → Bool
signed_lt a b =
    if is_negative a
    then if is_negative b
      then ltb (magnitude b) (magnitude a)
      else ltb 0 (magnitude a + magnitude b)
    else if is_negative b
    then false
    else ltb (magnitude a) (magnitude b)

unfoldable pub float_lt : ℕ → ℕ → Bool
unfolding signed_lt
float_lt a b = not (is_nan a) && (not (is_nan b) && signed_lt a b)

unfoldable pub float_eq : ℕ → ℕ → Bool
unfolding signed_lt
float_eq a b = not (is_nan a) && (not (is_nan b) && (not (signed_lt a b) && not (signed_lt b a)))

-- A value that was decoded has no other numeric type than float64; those of a caller of the library
-- (int, json.Number) are not modelled.
unfoldable pub as_number : Value → Option ℕ
as_number (number x) = some x
as_number _ = none

-- strings.Compare: byte by byte.
unfoldable pub str_compare : Str → Str → Ordering
str_compare [] [] = Ordering.eq
str_compare [] (y ∷ ys) = Ordering.lt
str_compare (x ∷ xs) [] = Ordering.gt
str_compare (x ∷ xs) (y ∷ ys) =
    let rest = str_compare xs ys in
    elim (compare x y) [
      | Ordering.lt ↦ Ordering.lt
      | Ordering.eq ↦ rest
      | Ordering.gt ↦ Ordering.gt
    ]

unfoldable pub float_compare : ℕ → ℕ → Ordering
unfolding float_lt
float_compare a b =
    if float_lt a b then Ordering.lt else if float_lt b a then Ordering.gt else Ordering.eq

abbrev pub is_gt : Ordering → Bool
is_gt Ordering.gt = true
is_gt _ = false

abbrev pub is_lt : Ordering → Bool
is_lt Ordering.lt = true
is_lt _ = false

-- strings.Contains
unfoldable pub starts_with : Str → Str → Bool
starts_with [] s = true
starts_with (p ∷ ps) [] = false
starts_with (p ∷ ps) (c ∷ s) = nat_beq p c && starts_with ps s

unfoldable pub contains : Str → Str → Bool
unfolding starts_with
contains [] sub = starts_with sub []
contains (c ∷ s) sub = starts_with sub (c ∷ s) || contains s sub

pub data FilterOp : Type 0 where
  op_eq op_neq op_gt op_gte op_lt op_lte op_contains op_regex : FilterOp
  op_unknown : Str → FilterOp

pub record FieldFilter : Type 0 where
  pub field : Str
  pub op : FilterOp
  pub value : Str

mutual
  pub data Filter : Type 0 where
    match_all : Filter
    field_filter : FieldFilter → Filter
    and_filter : Filters → Filter
    or_filter : Filters → Filter

  pub data Filters : Type 0 where
    nil : Filters
    cons : Filter → Filters → Filters

module _ (f : Format) where
  compare_numbers : Option ℕ → Option ℕ → Value → Value → Ordering
  compare_numbers (some x) (some y) a b = float_compare x y
  compare_numbers (some x) none a b = str_compare (f.sprint a) (f.sprint b)
  compare_numbers none y a b = str_compare (f.sprint a) (f.sprint b)

  -- Compare
  unfoldable pub compare_values : Value → Value → Ordering
  unfolding compare_numbers as_number
  compare_values a b = compare_numbers (as_number a) (as_number b) a b

  equal_numbers : Option ℕ → Option ℕ → Value → Value → Bool
  equal_numbers (some x) (some y) a b = float_eq x y
  equal_numbers (some x) none a b = str_beq (f.sprint a) (f.sprint b)
  equal_numbers none y a b = str_beq (f.sprint a) (f.sprint b)

  unfoldable pub equal : Value → Value → Bool
  unfolding equal_numbers as_number
  equal a b = equal_numbers (as_number a) (as_number b) a b

  -- The comparison value: a text that is no JSON stands for itself.
  unfoldable pub filter_value_typed : Str → Value
  filter_value_typed s = elim (f.unmarshal s) [ none ↦ text s | some v ↦ v ]

  unfoldable pub match_op : FilterOp → Value → Value → Bool
  match_op op_eq v cmp = equal v cmp
  match_op op_neq v cmp = not (equal v cmp)
  match_op op_gt v cmp = is_gt (compare_values v cmp)
  match_op op_gte v cmp = not (is_lt (compare_values v cmp))
  match_op op_lt v cmp = is_lt (compare_values v cmp)
  match_op op_lte v cmp = not (is_gt (compare_values v cmp))
  match_op op_contains v cmp = contains (f.sprint v) (f.sprint cmp)
  match_op op_regex v cmp = elim (f.regexp (f.sprint cmp)) [
    | none ↦ false
    | some matches ↦ matches (f.sprint v)
  ]
  match_op (op_unknown s) v cmp = false

  unfoldable pub match_field : FieldFilter → Data → Bool
  match_field ff record_data = elim (lookup ff.field record_data) [
    | none ↦ false
    | some v ↦ match_op ff.op v (filter_value_typed ff.value)
  ]

  unfoldable mutual
    pub matches : Filter → Data → Bool
    matches match_all r = true
    matches (field_filter ff) r = match_field ff r
    matches (and_filter fs) r = matches_every fs r
    matches (or_filter fs) r = matches_some fs r

    pub matches_every : Filters → Data → Bool
    matches_every nil r = true
    matches_every (cons g gs) r = if not (matches g r) then false else matches_every gs r

    pub matches_some : Filters → Data → Bool
    matches_some nil r = false
    matches_some (cons g gs) r = if matches g r then true else matches_some gs r

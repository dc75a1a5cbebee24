-- ===== src/Sidx.antt =====
-- engine/secondary_index.go: the inverted index of one field, from a value's rendering to the ids of
-- the live records that carry it. The lock, Persist and Load are left out.
pub mod Buckets
pub mod Consistent
pub mod Unique
pub mod Tests
use Prim.Native.Nat.{Ordering}
use file_dbv.Prelude.{
  ℕ, zero, suc, ◌+◌, Bool, true, false, not, ◌||◌, Option, none, some, List, [], ◌∷◌, ◌++◌, Str,
  Map, lookup, insert, delete, length, take, drop, get_elem?, ltb, ◌==◌, nat_eq, str_eq,
  if◌then◌else◌,
}
use file_dbv.Json.{Value, number, text}
use file_dbv.Query.{
  Format, FilterOp, op_gt, op_gte, op_lt, op_lte, compare_values, str_compare, is_lt, is_gt,
}

pub data IndexKind : Type 0 where
  index_empty index_numeric index_string index_mixed : IndexKind

abbrev pub kind_beq : IndexKind → IndexKind → Bool
kind_beq index_empty index_empty = true
kind_beq index_numeric index_numeric = true
kind_beq index_string index_string = true
kind_beq index_mixed index_mixed = true
kind_beq _ _ = false

pub record OrderedKey : Type 0 where
  pub key : Str
  pub val : Value

abbrev pub IdSet : Type 0
IdSet = Map ℕ (Unit {0})

pub record SecondaryIndex : Type 0 where
  pub field : Str
  pub unique : Bool
  pub buckets : Map Str IdSet
  pub reverse : Map ℕ Str
  pub kind : IndexKind
  pub sorted : List OrderedKey

unfoldable pub new_secondary_index : Str → Bool → SecondaryIndex
new_secondary_index field unique = record {
  field = field;
  unique = unique;
  buckets = [];
  reverse = [];
  kind = index_empty;
  sorted = [];
}

unfoldable pub merge_kind : IndexKind → IndexKind → IndexKind
merge_kind index_empty next = next
merge_kind cur next = if kind_beq cur next then cur else index_mixed

-- sort.Search over the view: the first position at which the test passes, or the length.
unfoldable pub search : (OrderedKey → Bool) → List OrderedKey → ℕ
search test [] = 0
search test (k ∷ ks) = let rest = search test ks in if test k then 0 else suc rest

-- The bucket of a key; a missing one reads as nil.
abbrev pub or_empty : Option IdSet → IdSet
or_empty none = []
or_empty (some b) = b

unfoldable pub bucket_of : Str → Map Str IdSet → IdSet
bucket_of key buckets = or_empty (lookup key buckets)

abbrev pub is_none {ℓ} : {A : Type ℓ} → Option A → Bool
is_none none = true
is_none (some a) = false

abbrev pub is_empty {ℓ} : {A : Type ℓ} → List A → Bool
is_empty [] = true
is_empty (x ∷ xs) = false

abbrev pub ids_of : IdSet → List ℕ
ids_of [] = []
ids_of ((id, u) ∷ b) = id ∷ ids_of b

-- The bucket without `id`; an emptied bucket is dropped.
unfoldable pub drop_id : ℕ → Str → Map Str IdSet → Map Str IdSet
drop_id id key buckets =
    let left = delete id (bucket_of key buckets) in
    if is_empty left then delete key buckets else insert key left buckets

unfoldable pub put_id : ℕ → Str → Map Str IdSet → Map Str IdSet
put_id id key buckets = insert key (insert id tt (bucket_of key buckets)) buckets

-- Some id of the bucket differs from the given one.
unfoldable pub other_id : ℕ → IdSet → Bool
other_id id [] = false
other_id id ((existing, u) ∷ b) = not (existing == id) || other_id id b

unfoldable pub conflict : Str → ℕ → SecondaryIndex → Bool
conflict value id s = other_id id (bucket_of value s.buckets)

unfoldable pub lookup_ids : Str → SecondaryIndex → List ℕ
lookup_ids value s = ids_of (bucket_of value s.buckets)

module _ (f : Format) where
  unfoldable pub to_index_key : Value → Str
  to_index_key v = f.sprint v

  unfoldable pub val_kind : Value → IndexKind × Value
  val_kind (number x) = (index_numeric, number x)
  val_kind (text s) = (index_string, text s)
  val_kind v = (index_string, text (f.sprint v))

  abbrev or_zero_bits : Option ℕ → ℕ
  or_zero_bits none = 0
  or_zero_bits (some x) = x

  unfoldable pub val_for_kind : IndexKind → Str → Value
  val_for_kind index_numeric key = number (or_zero_bits (f.parse_float key))
  val_for_kind _ key = text key

  unfoldable pub order_less_key : OrderedKey → OrderedKey → Bool
  order_less_key a b = elim (compare_values f a.val b.val) [
    | Ordering.lt ↦ true
    | Ordering.gt ↦ false
    | Ordering.eq ↦ is_lt (str_compare a.key b.key)
  ]

  unfoldable pub search_sorted : OrderedKey → List OrderedKey → ℕ
  search_sorted target sorted = search (λ k. not (order_less_key k target)) sorted

  abbrev pub key_at : List OrderedKey → ℕ → Str → Bool
  key_at sorted i key = elim (get_elem? sorted i) [ none ↦ false | some k ↦ str_eq.beq k.key key ]

  unfoldable pub ordered_insert : Str → Value → SecondaryIndex → SecondaryIndex
  ordered_insert key val s =
      let target : OrderedKey = record { key = key; val = val } in
      let i = search_sorted target s.sorted in
      if kind_beq s.kind index_mixed
      then s
      else if key_at s.sorted i key
      then s
      else record s { sorted = take i s.sorted ++ (target ∷ drop i s.sorted) }

  unfoldable pub ordered_remove : Str → SecondaryIndex → SecondaryIndex
  ordered_remove key s =
      let target : OrderedKey = record { key = key; val = val_for_kind s.kind key } in
      let i = search_sorted target s.sorted in
      if kind_beq s.kind index_mixed
      then s
      else if key_at s.sorted i key
      then record s { sorted = take i s.sorted ++ drop (suc i) s.sorted }
      else s

  unfoldable pub observe : Value → SecondaryIndex → SecondaryIndex
  observe val s =
      let kind = merge_kind s.kind (val_kind val).0 in
      if kind_beq kind index_mixed
      then record s { kind = kind; sorted = [] }
      else record s { kind = kind }

  -- The write of `id` under `value`, which add and update share.
  unfoldable pub place : Value → ℕ → SecondaryIndex → SecondaryIndex
  unfolding observe ordered_insert put_id to_index_key
  place value id s =
      let key = to_index_key value in
      let placed =
        observe value
          (record s { buckets = put_id id key s.buckets; reverse = insert id key s.reverse }) in
      if is_none (lookup key s.buckets)
      then ordered_insert key (val_kind value).1 placed
      else placed

  unfoldable pub add : Value → ℕ → SecondaryIndex → SecondaryIndex
  add value id s = place value id s

  -- The bucket loses `id`, and the view loses a key whose bucket is emptied.
  unfoldable pub leave : ℕ → Str → SecondaryIndex → SecondaryIndex
  unfolding ordered_remove drop_id
  leave id key s =
      let left = record s { buckets = drop_id id key s.buckets } in
      if is_empty (delete id (bucket_of key s.buckets)) then ordered_remove key left else left

  unfoldable pub remove : ℕ → SecondaryIndex → SecondaryIndex
  remove id s = elim (lookup id s.reverse) [
    | none ↦ s
    | some key ↦ (let left = leave id key s in record left { reverse = delete id s.reverse })
  ]

  unfoldable pub update : ℕ → Value → SecondaryIndex → SecondaryIndex
  update id value s = elim (lookup id s.reverse) [
    | none ↦ place value id s
    | some key ↦ place value id (leave id key s)
  ]

  abbrev pub kind_serves : IndexKind → IndexKind → Bool
  kind_serves kind query_kind = kind_beq query_kind kind

  unfoldable pub ids_of_keys : List OrderedKey → Map Str IdSet → List ℕ
  ids_of_keys [] buckets = []
  ids_of_keys (k ∷ ks) buckets = ids_of (bucket_of k.key buckets) ++ ids_of_keys ks buckets

  -- The part of the view that LookupRange walks; `none` for another operator.
  unfoldable pub range_of : FilterOp → Value → List OrderedKey → Option (List OrderedKey)
  range_of op_gt qv sorted =
      some (drop (search (λ k. is_gt (compare_values f k.val qv)) sorted) sorted)
  range_of op_gte qv sorted =
      some (drop (search (λ k. not (is_lt (compare_values f k.val qv))) sorted) sorted)
  range_of op_lt qv sorted =
      some (take (search (λ k. not (is_lt (compare_values f k.val qv))) sorted) sorted)
  range_of op_lte qv sorted =
      some (take (search (λ k. is_gt (compare_values f k.val qv)) sorted) sorted)
  range_of _ qv sorted = none

  unfoldable pub serve_range : FilterOp → Value → SecondaryIndex → Option (List ℕ)
  unfolding range_of ids_of_keys
  serve_range op query_val s =
      let (qk, qv) = val_kind query_val in
      if kind_serves s.kind qk
      then elim (range_of op qv s.sorted) [
        | none ↦ none
        | some ks ↦ some (ids_of_keys ks s.buckets)
      ]
      else none

  -- `none` when the index cannot serve the query.
  unfoldable pub lookup_range : FilterOp → Value → SecondaryIndex → Option (List ℕ)
  unfolding serve_range
  lookup_range op query_val s = elim s.kind [
    | index_empty ↦ some []
    | index_mixed ↦ none
    | _ ↦ serve_range op query_val s
  ]

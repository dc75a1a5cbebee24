-- ===== src/Query/Order.antt =====
-- The order of query/filter.go on values of one kind, and where it fails to be one.
use Prim.Native.Nat.{Ordering}
use file_dbv.Prelude.{
  ℕ, ◌≡◌, refl, Bool, true, false, [], ◌∷◌, Str, str_beq, arith, ◌↔◌, Option, none, some,
}
use file_dbv.Json.{Value}
use file_dbv.Query.{
  Format, float_eq, float_compare, signed_lt, str_compare, compare_values, compare_numbers, equal,
  equal_numbers, as_number, is_nan,
}

abbrev pub flip : Ordering → Ordering
flip Ordering.lt = Ordering.gt
flip Ordering.eq = Ordering.eq
flip Ordering.gt = Ordering.lt

signed_lt_asym : (a b : ℕ) → signed_lt a b ≡ true → signed_lt b a ≡ false
unfolding signed_lt
signed_lt_asym a b h = ground arith

signed_lt_trans : (a b d : ℕ) → signed_lt a b ≡ true → signed_lt b d ≡ true → signed_lt a d ≡ true
unfolding signed_lt
signed_lt_trans a b d h k = ground arith

str_compare-flip : (a b : Str) → str_compare a b ≡ flip (str_compare b a)
unfolding str_compare
str_compare-flip [] [] = refl
str_compare-flip [] (y ∷ ys) = refl
str_compare-flip (x ∷ xs) [] = refl
str_compare-flip (x ∷ xs) (y ∷ ys) = ground (arith, str_compare-flip xs ys)

str_compare_trans :
    (a b d : Str)
    → str_compare a b ≡ Ordering.lt
    → str_compare b d ≡ Ordering.lt
    → str_compare a d ≡ Ordering.lt
unfolding str_compare
str_compare_trans [] [] d h k = cc
str_compare_trans [] (y ∷ b) [] h k = cc
str_compare_trans [] (y ∷ b) (z ∷ d) h k = refl
str_compare_trans (x ∷ a) [] d h k = cc
str_compare_trans (x ∷ a) (y ∷ b) [] h k = cc
str_compare_trans (x ∷ a) (y ∷ b) (z ∷ d) h k = ground (arith, str_compare_trans a b d)

str_compare_eq_iff : (a b : Str) → (str_compare a b ≡ Ordering.eq) ↔ (str_beq a b ≡ true)
unfolding str_compare
str_compare_eq_iff [] [] = ground arith
str_compare_eq_iff [] (y ∷ b) = ground arith
str_compare_eq_iff (x ∷ a) [] = ground arith
str_compare_eq_iff (x ∷ a) (y ∷ b) = ground (arith, str_compare_eq_iff a b)

float_compare-flip : (x y : ℕ) → float_compare x y ≡ flip (float_compare y x)
unfolding float_compare
float_compare-flip x y = ground (arith, signed_lt_asym x y, signed_lt_asym y x)

float_compare_trans :
    (x y z : ℕ)
    → float_compare x y ≡ Ordering.lt
    → float_compare y z ≡ Ordering.lt
    → float_compare x z ≡ Ordering.lt
unfolding float_compare
float_compare_trans x y z h k = ground (arith, signed_lt_trans x y z)

float_compare_eq_iff :
    (x y : ℕ)
    → is_nan x ≡ false
    → is_nan y ≡ false
    → (float_compare x y ≡ Ordering.eq) ↔ (float_eq x y ≡ true)
unfolding float_compare float_eq
float_compare_eq_iff x y h k = ground arith

abbrev is_some : Option ℕ → Bool
is_some none = false
is_some (some x) = true

abbrev nan_of : Option ℕ → Bool
nan_of none = false
nan_of (some x) = is_nan x

abbrev pub is_number : Value → Bool
is_number v = is_some (as_number v)

abbrev pub is_nan_value : Value → Bool
is_nan_value v = nan_of (as_number v)

module _ (f : Format) where
  numbers_flip :
      (x y : Option ℕ) (a b : Value) → compare_numbers f x y a b ≡ flip (compare_numbers f y x b a)
  unfolding compare_numbers
  numbers_flip (some x) (some y) a b = float_compare-flip x y
  numbers_flip (some x) none a b = str_compare-flip (f.sprint a) (f.sprint b)
  numbers_flip none (some y) a b = str_compare-flip (f.sprint a) (f.sprint b)
  numbers_flip none none a b = str_compare-flip (f.sprint a) (f.sprint b)

  numbers_trans :
      (x y z : Option ℕ) (a b d : Value)
      → is_some x ≡ is_some y
      → is_some y ≡ is_some z
      → compare_numbers f x y a b ≡ Ordering.lt
      → compare_numbers f y z b d ≡ Ordering.lt
      → compare_numbers f x z a d ≡ Ordering.lt
  unfolding compare_numbers
  numbers_trans (some x) (some y) (some z) a b d p q = float_compare_trans x y z
  numbers_trans none none none a b d p q = str_compare_trans (f.sprint a) (f.sprint b) (f.sprint d)
  numbers_trans (some x) none z a b d p q = cc
  numbers_trans none (some y) z a b d p q = cc
  numbers_trans (some x) (some y) none a b d p q = cc
  numbers_trans none none (some z) a b d p q = cc

  numbers_eq_iff :
      (x y : Option ℕ) (a b : Value)
      → nan_of x ≡ false
      → nan_of y ≡ false
      → (compare_numbers f x y a b ≡ Ordering.eq) ↔ (equal_numbers f x y a b ≡ true)
  unfolding compare_numbers equal_numbers
  numbers_eq_iff (some x) (some y) a b p q = float_compare_eq_iff x y p q
  numbers_eq_iff (some x) none a b p q = str_compare_eq_iff (f.sprint a) (f.sprint b)
  numbers_eq_iff none (some y) a b p q = str_compare_eq_iff (f.sprint a) (f.sprint b)
  numbers_eq_iff none none a b p q = str_compare_eq_iff (f.sprint a) (f.sprint b)

  -- Comparing two values the other way round flips the answer, whatever their types.
  pub compare_values-flip : (a b : Value) → compare_values f a b ≡ flip (compare_values f b a)
  unfolding compare_values
  compare_values-flip a b = numbers_flip (as_number a) (as_number b) a b

  -- Among numbers, and among values that are no numbers, the order of Compare is transitive.
  pub compare_values_trans :
      (a b d : Value)
      → is_number a ≡ is_number b
      → is_number b ≡ is_number d
      → compare_values f a b ≡ Ordering.lt
      → compare_values f b d ≡ Ordering.lt
      → compare_values f a d ≡ Ordering.lt
  unfolding compare_values
  compare_values_trans a b d = numbers_trans (as_number a) (as_number b) (as_number d) a b d

  -- The filter operator eq and Compare agree on equality for every two values that are not NaN.
  pub compare_values_eq_iff :
      (a b : Value)
      → is_nan_value a ≡ false
      → is_nan_value b ≡ false
      → (compare_values f a b ≡ Ordering.eq) ↔ (equal f a b ≡ true)
  unfolding compare_values equal
  compare_values_eq_iff a b = numbers_eq_iff (as_number a) (as_number b) a b

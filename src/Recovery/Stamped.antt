-- ===== src/Recovery/Stamped.antt =====
-- stampKey of engine/keys.go: fields with a key are written and read back.
use file_dbv.Prelude.{
  false, ap, ◌≡◌, refl, Bool-cases, some, inl, inr, arith, nat_eq, Str, true, [], ◌∷◌, str_eq,
}
use file_dbv.Json.{
  Data, Value, text, is_utf8, utf8_after, is_json, is_json_data, max_depth, str_lt, is_before,
  put_field,
}
use file_dbv.Store.RoundTrip.{HasFields, KeepsFields, IsJson}
use file_dbv.Collection.{key_field}
use file_dbv.Keys.{stamp_key}

str_lt_total : (a b : Str) → str_lt a b ≡ false → str_lt b a ≡ false → a ≡ b
unfolding str_lt
str_lt_total [] [] p q = refl
str_lt_total [] (y ∷ ys) p q = absurd cc
str_lt_total (x ∷ xs) [] p q = absurd cc
str_lt_total (x ∷ xs) (y ∷ ys) p q = ground (arith, str_lt_total xs ys)

put_field-is_before :
    (j k : Str) (v : Value) (d : Data)
    → str_lt j k ≡ true
    → is_before j d ≡ true
    → is_before j (put_field k v d) ≡ true
unfolding is_before put_field
put_field-is_before j k v [] less h = less
put_field-is_before j k v ((i, w) ∷ d) less h = ground (arith, less, h)

put_field-IsJson :
    (k : Str) (v : Value) (d : Data)
    → is_utf8 k ≡ true
    → is_json max_depth v ≡ true
    → IsJson (some d)
    → IsJson (some (put_field k v d))
unfolding is_json_data put_field is_before
put_field-IsJson k v [] name value h = rw (name, value) refl
put_field-IsJson k v ((j, w) ∷ d) name value h = elim (Bool-cases (str_lt k j)) [
  | inl first ↦ ground (arith, first)
  | inr late ↦ elim (Bool-cases (str_lt j k)) [
    | inl later ↦
        ground
          (arith, late, later, put_field-IsJson k v d name value, put_field-is_before j k v d later)
    | inr same ↦
        (let eq = str_lt_total k j late same in
          ground (arith, late, same, ap (λ (n : Str). is_before n d) eq))
  ]
]

put_field-KeepsFields : (k : Str) (v : Value) (d : Data) → KeepsFields (some (put_field k v d))
unfolding put_field
put_field-KeepsFields k v [] = tt
put_field-KeepsFields k v ((j, w) ∷ d) = elim (Bool-cases (str_lt k j)) [
  | inl first ↦ rw first tt
  | inr late ↦ elim (Bool-cases (str_lt j k)) [
    | inl later ↦ rw (late, later) tt
    | inr same ↦ rw (late, same) tt
  ]
]

pub stamp_key-HasFields :
    (d : Data) (key : Str)
    → is_utf8 key ≡ true
    → IsJson (some d)
    → HasFields (some (stamp_key d key))
unfolding stamp_key is_json utf8_after
stamp_key-HasFields d key valid json = (
  put_field-KeepsFields key_field (text key) d,
  put_field-IsJson key_field (text key) d refl valid json,
)

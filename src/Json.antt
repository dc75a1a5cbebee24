-- ===== src/Json.antt =====
-- The values that encoding/json decodes into `any`, and the `map[string]any` of a record.
use file_dbv.Prelude.{
  ℕ, ◌≡◌, refl, suc, zero, Bool, true, false, ◌&&◌, Option, none, some, List, [], ◌∷◌, Str, Map,
  ltb, leb, if◌then◌else◌,
}

-- A number is a float64, given by its 64 bits.
mutual
  pub data Value : Type 0 where
    null : Value
    bool : Bool → Value
    number : ℕ → Value
    text : Str → Value
    array : Items → Value
    object : Fields → Value

  pub data Items : Type 0 where
    nil : Items
    cons : Value → Items → Items

  pub data Fields : Type 0 where
    end : Fields
    field : Str → Value → Fields → Fields

abbrev pub Data : Type 0
Data = Map Str Value

-- The ranges of the bytes that follow the first byte of a character in UTF-8.
abbrev tail : ℕ × ℕ
tail = (0x80, 0xbf)

abbrev tails_of : ℕ → Option (List (ℕ × ℕ))
tails_of b =
    if ltb b 0x80
    then some []
    else if ltb b 0xc2
    then none
    else if ltb b 0xe0
    then some (tail ∷ [])
    else if ltb b 0xe1
    then some ((0xa0, 0xbf) ∷ tail ∷ [])
    else if ltb b 0xed
    then some (tail ∷ tail ∷ [])
    else if ltb b 0xee
    then some ((0x80, 0x9f) ∷ tail ∷ [])
    else if ltb b 0xf0
    then some (tail ∷ tail ∷ [])
    else if ltb b 0xf1
    then some ((0x90, 0xbf) ∷ tail ∷ tail ∷ [])
    else if ltb b 0xf4
    then some (tail ∷ tail ∷ tail ∷ [])
    else if ltb b 0xf5
    then some ((0x80, 0x8f) ∷ tail ∷ tail ∷ [])
    else none

unfoldable pub utf8_after : List (ℕ × ℕ) → Str → Bool
utf8_after [] [] = true
utf8_after (r ∷ rs) [] = false
utf8_after [] (b ∷ bs) = elim (tails_of b) [ none ↦ false | some rs ↦ utf8_after rs bs ]
utf8_after ((low, high) ∷ rs) (b ∷ bs) = leb low b && (leb b high && utf8_after rs bs)

-- utf8.Valid
abbrev pub is_utf8 : Str → Bool
is_utf8 s = utf8_after [] s

pub no_bytes-is_utf8 : is_utf8 [] ≡ true
unfolding utf8_after
no_bytes-is_utf8 = refl

-- The order of names, byte by byte.
unfoldable pub str_lt : Str → Str → Bool
str_lt [] [] = false
str_lt [] (y ∷ ys) = true
str_lt (x ∷ xs) [] = false
str_lt (x ∷ xs) (y ∷ ys) =
    let rest = str_lt xs ys in if ltb x y then true else if ltb y x then false else rest

unfoldable pub is_before : Str → Data → Bool
is_before k [] = true
is_before k ((j, v) ∷ d) = str_lt k j

unfoldable pub is_before_fields : Str → Fields → Bool
is_before_fields k end = true
is_before_fields k (field j v fs) = str_lt k j

-- `data[k] = v`, which keeps the names in order.
unfoldable pub put_field : Str → Value → Data → Data
put_field k v [] = (k, v) ∷ []
put_field k v ((j, w) ∷ d) =
    let rest = put_field k v d in
    if str_lt k j then (k, v) ∷ (j, w) ∷ d else if str_lt j k then (j, w) ∷ rest else (k, v) ∷ d

-- What encoding/json gives back unchanged: texts and names are valid UTF-8, the names of an object
-- stand in their order, in which json.Marshal writes them, and arrays and objects stand in each other
-- at most `n` deep.
unfoldable mutual
  unfolding is_before_fields

  pub is_json : ℕ → Value → Bool
  is_json n null = true
  is_json n (bool b) = true
  is_json n (number x) = true
  is_json n (text s) = is_utf8 s
  is_json zero (array vs) = false
  is_json zero (object fs) = false
  is_json (suc n) (array vs) = is_json_items n vs
  is_json (suc n) (object fs) = is_json_fields n fs

  pub is_json_items : ℕ → Items → Bool
  is_json_items n nil = true
  is_json_items n (cons v vs) = is_json n v && is_json_items n vs

  pub is_json_fields : ℕ → Fields → Bool
  is_json_fields n end = true
  is_json_fields n (field k v fs) =
      is_utf8 k && (is_json n v && (is_before_fields k fs && is_json_fields n fs))

-- json.Unmarshal takes 10000 levels; a line and its fields are two of them.
abbrev pub max_depth : ℕ
max_depth = 9998

unfoldable pub is_json_data : Data → Bool
unfolding is_json is_before
is_json_data [] = true
is_json_data ((k, v) ∷ d) = is_utf8 k && (is_json max_depth v && (is_before k d && is_json_data d))

-- A text that is valid UTF-8.
pub record Text : Type 0 where
  pub bytes : Str
  pub valid : is_utf8 bytes ≡ true

abbrev pub no_text : Text
no_text = record { bytes = []; valid = no_bytes-is_utf8 }

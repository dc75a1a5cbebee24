-- ===== src/Store/Sample.antt =====
-- A small codec for the examples: it renders the entries that have no fields, or one field with a
-- name and a text of one character each.
use file_dbv.Prelude.{
  ℕ, ◌+◌, ◌-◌, ◌≤◌, ◌≡◌, ◌≢◌, refl, sym, ◌∙◌, subst, Bool, true, Bool-cases, inl, inr, Option, none,
  some, [], ◌∷◌, Str, codes, length, All, arith, nat_eq, ◌==◌, if◌then◌else◌,
}
use file_dbv.Json.{Data, is_json_data, is_json, utf8_after, null, bool, number, text, array, object}
use file_dbv.Store.{Entry, new_insert, Op, op_insert, op_update, op_delete, op_other, Line, Codec}
use file_dbv.Store.RoundTrip.{CodecLaws, IsJson, HasFields}

abbrev render_op : Op → Option ℕ
render_op op_insert = some 32
render_op op_update = some 33
render_op op_delete = some 34
render_op (op_other s) = none

abbrev parse_op : ℕ → Op
parse_op x = if x == 32 then op_insert else if x == 33 then op_update else op_delete

abbrev render_option : Option ℕ → ℕ
render_option none = 32
render_option (some n) = 33 + n

abbrev parse_option : ℕ → Option ℕ
parse_option x = if x == 32 then none else some (x - 33)

abbrev render_fields : Option Data → Option Str
render_fields none = some []
render_fields (some ((k ∷ [], text (v ∷ [])) ∷ [])) = some ((32 + k) ∷ (32 + v) ∷ [])
render_fields (some _) = none

abbrev parse_fields : Str → Option Data
parse_fields (k ∷ v ∷ []) = some (((k - 32) ∷ [], text ((v - 32) ∷ [])) ∷ [])
parse_fields _ = none

abbrev render_line : Option ℕ → Line → Option Str → Option Str
render_line none l b = none
render_line (some x) l none = none
render_line (some x) l (some b) = some (
    x
    ∷ (32 + l.id)
    ∷ (32 + l.ts)
    ∷ render_option l.rev
    ∷ render_option l.epoch
    ∷ render_option l.expires_at
    ∷ render_option l.crc
    ∷ b)

abbrev json_fields : Option Data → Bool
json_fields none = true
json_fields (some d) = is_json_data d

abbrev checked_line : Line → Option Line
checked_line l = if json_fields l.fields then some l else none

abbrev parse_line : Str → Option Line
parse_line (op ∷ id ∷ ts ∷ rev ∷ epoch ∷ expires_at ∷ crc ∷ b) = checked_line (record {
  id = id - 32;
  op = parse_op op;
  ts = ts - 32;
  rev = parse_option rev;
  fields = parse_fields b;
  epoch = parse_option epoch;
  expires_at = parse_option expires_at;
  crc = parse_option crc;
})
parse_line _ = none

abbrev pub sample_codec : Codec
sample_codec = record {
  marshal_fields = λ d. some (codes "{}");
  marshal_line = λ l. render_line (render_op l.op) l (render_fields l.fields);
  unmarshal_line = parse_line;
  crc32c = length;
}

option_lem : (o : Option ℕ) → (parse_option (render_option o) ≡ o) × (32 ≤ render_option o)
option_lem none = (refl, omega arith)
option_lem (some n) = ground arith

op_lem : (o : Op) (x : ℕ) → render_op o ≡ some x → (parse_op x ≡ o) × (32 ≤ x)
op_lem op_insert x h = ground arith
op_lem op_update x h = ground arith
op_lem op_delete x h = ground arith
op_lem (op_other s) x h = cc

some_injective : {a b : Str} → some a ≡ some b → a ≡ b
some_injective h = cc

back : (n : ℕ) → 32 + n - 32 ≡ n
back n = omega arith

fields_lem :
    (o : Option Data) (b : Str)
    → render_fields o ≡ some b
    → (parse_fields b ≡ o) × All (λ x. 32 ≤ x) b
fields_lem none b h =
    subst (λ (t : Str). (parse_fields t ≡ none) × All (λ x. 32 ≤ x) t) (some_injective h) (refl, tt)
fields_lem (some []) b h = cc
fields_lem (some (([], v) ∷ m)) b h = cc
fields_lem (some ((k ∷ j ∷ ks, v) ∷ m)) b h = cc
fields_lem (some ((k ∷ [], null) ∷ m)) b h = cc
fields_lem (some ((k ∷ [], bool t) ∷ m)) b h = cc
fields_lem (some ((k ∷ [], number n) ∷ m)) b h = cc
fields_lem (some ((k ∷ [], array vs) ∷ m)) b h = cc
fields_lem (some ((k ∷ [], object vs) ∷ m)) b h = cc
fields_lem (some ((k ∷ [], text []) ∷ m)) b h = cc
fields_lem (some ((k ∷ [], text (v ∷ w ∷ s)) ∷ m)) b h = cc
fields_lem (some ((k ∷ [], text (v ∷ [])) ∷ p ∷ m)) b h = cc
fields_lem (some ((k ∷ [], text (v ∷ [])) ∷ [])) b h =
    subst
      (λ (t : Str). (parse_fields t ≡ some ((k ∷ [], text (v ∷ [])) ∷ [])) × All (λ x. 32 ≤ x) t)
      (some_injective h) (rw (back k, back v) refl, (omega arith, (omega arith, tt)))

abbrev IsRendering : Line → Str → Type 0
IsRendering l b = (parse_line b ≡ checked_line l) × All (λ x. 32 ≤ x) b × (b ≢ [])

rendered :
    (l : Line) (x : ℕ) (fb : Str)
    → parse_op x ≡ l.op
    → parse_fields fb ≡ l.fields
    → parse_line (
        x
        ∷ (32 + l.id)
        ∷ (32 + l.ts)
        ∷ render_option l.rev
        ∷ render_option l.epoch
        ∷ render_option l.expires_at
        ∷ render_option l.crc
        ∷ fb)
      ≡ checked_line l
rendered l x fb op fields =
    rw
      (
        op,
        fields,
        back l.id,
        back l.ts,
        (option_lem l.rev).0,
        (option_lem l.epoch).0,
        (option_lem l.expires_at).0,
        (option_lem l.crc).0,
      )
      refl

line_lem :
    (l : Line) (o : Option ℕ) (fo : Option Str) (b : Str)
    → render_op l.op ≡ o
    → render_fields l.fields ≡ fo
    → render_line o l fo ≡ some b
    → IsRendering l b
line_lem l none fo b p q h = absurd cc
line_lem l (some x) none b p q h = absurd cc
line_lem l (some x) (some fb) b p q h =
    let (op, x_big) = op_lem l.op x p in
    let (fields, f_big) = fields_lem l.fields fb q in
    subst (IsRendering l) (some_injective h) (
      rendered l x fb op fields,
      (
        x_big,
        (
          omega arith,
          (
            omega arith,
            (
              (option_lem l.rev).1,
              (
                (option_lem l.epoch).1,
                ((option_lem l.expires_at).1, ((option_lem l.crc).1, f_big)),
              ),
            ),
          ),
        ),
      ),
      (λ e. cc),
    )

checked-IsJson : (l l' : Line) → checked_line l ≡ some l' → IsJson l'.fields
checked-IsJson l l' h = over l.fields refl
  where
    over : (o : Option Data) → l.fields ≡ o → IsJson l'.fields
    over none is =
        let same : some l ≡ some l' = sym (rw is refl) ∙ h in
        let eq : l ≡ l' = cc in subst (λ (x : Line). IsJson x.fields) eq (subst IsJson (sym is) tt)
    over (some d) is = elim (Bool-cases (is_json_data d)) [
      | inl valid ↦
          (let same : checked_line l ≡ some l = rw (is, valid) refl in
            let eq : l ≡ l' = cc in
            subst (λ (x : Line). IsJson x.fields) eq (subst IsJson (sym is) valid))
      | inr invalid ↦ (let same : checked_line l ≡ none = rw (is, invalid) refl in absurd cc)
    ]

parsed-IsJson : (b : Str) (l : Line) → parse_line b ≡ some l → IsJson l.fields
parsed-IsJson [] l h = absurd cc
parsed-IsJson (a ∷ []) l h = absurd cc
parsed-IsJson (a ∷ b ∷ []) l h = absurd cc
parsed-IsJson (a ∷ b ∷ c ∷ []) l h = absurd cc
parsed-IsJson (a ∷ b ∷ c ∷ d ∷ []) l h = absurd cc
parsed-IsJson (a ∷ b ∷ c ∷ d ∷ e ∷ []) l h = absurd cc
parsed-IsJson (a ∷ b ∷ c ∷ d ∷ e ∷ g ∷ []) l h = absurd cc
parsed-IsJson (a ∷ b ∷ c ∷ d ∷ e ∷ g ∷ k ∷ s) l h = checked-IsJson _ l h

checked-itself : (l : Line) → IsJson l.fields → checked_line l ≡ some l
checked-itself l h = over l.fields refl h
  where
    over : (o : Option Data) → l.fields ≡ o → IsJson o → checked_line l ≡ some l
    over none is valid = rw is refl
    over (some d) is valid = rw (is, valid) refl

pub sample_laws : CodecLaws sample_codec
sample_laws = record {
  unmarshal-marshal = λ l b valid h. (line_lem l _ _ b refl refl h).0 ∙ checked-itself l valid;
  unmarshal-IsJson = λ l b h. parsed-IsJson b l h;
  marshal_printable = λ l b h. ((line_lem l _ _ b refl refl h).1, (line_lem l _ _ b refl refl h).2);
}

abbrev pub sample_data : Data
sample_data = (codes "a", text (codes "b")) ∷ []

pub sample_data-HasFields : HasFields (some sample_data)
unfolding is_json_data is_json utf8_after
sample_data-HasFields = (tt, refl)

abbrev pub sample_entry : Entry
sample_entry = new_insert 5 1 sample_data

-- What Encode writes for it, without the newline.
abbrev pub sample_line : Str
sample_line = 32 ∷ 33 ∷ 37 ∷ 32 ∷ 32 ∷ 32 ∷ 49 ∷ 129 ∷ 130 ∷ []

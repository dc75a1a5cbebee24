-- ===== src/Result.antt =====
-- Go's `(value, error)` results. The constructors of `Error` are the sentinel errors of store and
-- engine, and the errors that they build with `fmt.Errorf`.
use file_dbv.Prelude.{
  ◌⊎◌, inl, inr, ◌≡◌, refl, Bool, true, false, Option, none, some, if◌then◌else◌,
}

pub data Error : Type 0 where
  marshal_failed decode_failed corrupt_entry : Error
  token_too_long record_too_large append_to_sealed empty_at_offset index_out_of_range : Error
  resource_exhausted duplicate_key reserved_field key_not_found : Error
  not_found segment_not_found unknown_op : Error
  not_follower replica_lag_exceeded unknown_scope recover_failed load_index_failed
        invalid_page_token :
      Error

pub data Result {ℓ} (A : Type ℓ) : Type ℓ where
  ok : A → Result A
  err : Error → Result A

-- An error ends a chain of steps.
abbrev pub ◌>>=◌ {ℓ κ} : {B : Type κ} {A : Type ℓ} → Result A → (A → Result B) → Result B
err e >>= next = err e
ok first >>= next = next first

-- A value that may be missing, as a result.
abbrev pub or_error {ℓ} : {A : Type ℓ} → Option A → Error → Result A
or_error none e = err e
or_error (some a) e = ok a

pub or_error-eq-ok {ℓ} :
    {A : Type ℓ} (o : Option A) (e : Error) {a : A} → or_error o e ≡ ok a → o ≡ some a
or_error-eq-ok none e h = cc
or_error-eq-ok (some a) e h = cc

pub if-eq-ok {ℓ} :
    {A : Type ℓ} (b : Bool) (e : Error) (m : Result A) {a : A}
    → (if b then err e else m) ≡ ok a
    → (b ≡ false) × (m ≡ ok a)
if-eq-ok true e m h = cc
if-eq-ok false e m h = (refl, h)

-- A chain that succeeds has a first step that does.
pub >>=-eq-ok {ℓ κ} :
    {B : Type κ} {A : Type ℓ} (r : Result A) (next : A → Result B) {result : B}
    → (r >>= next) ≡ ok result
    → (first : A) × (r ≡ ok first) × (next first ≡ ok result)
>>=-eq-ok (err e) next succeeds = cc
>>=-eq-ok (ok first) next succeeds = (first, refl, succeeds)

abbrev pub ◌>>◌ {κ} : {B : Type κ} → Result (Unit {0}) → Result B → Result B
first >> rest = first >>= λ done. rest

infixl 5 ◌>>=◌ ◌>>◌
pub Result-cases {ℓ} :
    {A : Type ℓ} (r : Result A) → ((a : A) × (r ≡ ok a)) ⊎ ((e : Error) × (r ≡ err e))
Result-cases (ok a) = inl (a, refl)
Result-cases (err e) = inr (e, refl)

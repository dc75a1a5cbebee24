-- ===== src/Store/RoundTrip.antt =====
-- Encode and Decode of store/ndjson.go: the round trip, the rejection of what was changed, and the
-- entries that Decode refuses although Encode wrote them.
use file_dbv.Prelude.{
  ℕ, ◌≡◌, ◌≢◌, refl, nat_beq_iff, Option, none, some, [], ◌∷◌, ◌++◌, Str, arith, ◌∙◌, sym, ◌≤◌, All,
  true, subst,
}
use file_dbv.Result.{ok, err, corrupt_entry, or_error, or_error-eq-ok, >>=-eq-ok}
use file_dbv.Json.{Data, is_json_data}
use file_dbv.Store.{
  Entry, Line, Codec, omit_empty, omit_no_fields, fill_absent, checksum, checksum_fields,
  checksum_header, encode, decode, verify, newline,
}

-- Fields that encoding/json gives back unchanged, or nil.
abbrev pub IsJson : Option Data → Type 0
IsJson none = Unit
IsJson (some d) = is_json_data d ≡ true

-- encoding/json: the bytes of a line whose fields are of this kind parse back to it (other bytes than
-- UTF-8 are replaced by U+FFFD), and what is parsed is of this kind. The bytes are at least `{}`, and a
-- control character never stands among them, since it is escaped.
pub record CodecLaws (c : Codec) : Type 0 where
  pub unmarshal-marshal :
      (l : Line) (b : Str)
      → IsJson l.fields
      → c.marshal_line l ≡ some b
      → c.unmarshal_line b ≡ some l
  pub unmarshal-IsJson : (l : Line) (b : Str) → c.unmarshal_line b ≡ some l → IsJson l.fields
  pub marshal_printable :
      (l : Line) (b : Str) → c.marshal_line l ≡ some b → All (λ x. 32 ≤ x) b × (b ≢ [])

-- A map that `omitempty` keeps, or nil.
abbrev pub KeepsFields : Option Data → Type 0
KeepsFields none = Unit
KeepsFields (some []) = ⊥
KeepsFields (some (p ∷ d)) = Unit

-- Fields that are written and read back.
abbrev pub HasFields : Option Data → Type 0
HasFields o = KeepsFields o × IsJson o

abbrev pub stamp : Entry → ℕ → Entry
stamp e sum = record e { crc = some sum }

fill_absent-omit_empty : (e : Entry) → KeepsFields e.fields → fill_absent (omit_empty e) ≡ e
unfolding fill_absent omit_empty
fill_absent-omit_empty e h = ground arith

omit_empty-IsJson : (o : Option Data) → IsJson o → IsJson (omit_no_fields o)
omit_empty-IsJson none h = h
omit_empty-IsJson (some []) h = tt
omit_empty-IsJson (some (p ∷ d)) h = h

fill_empty :
    (e : Entry) (sum : ℕ)
    → e.fields ≡ some []
    → fill_absent (omit_empty (stamp e sum)) ≡ record e { fields = none; crc = some sum }
unfolding fill_absent omit_empty
fill_empty e sum h = ground arith

module _ (c : Codec) where
  checksum-stamp : (e : Entry) (sum : ℕ) → checksum c (stamp e sum) ≡ checksum c e
  unfolding checksum checksum_header
  checksum-stamp e sum = refl

  verify_same : (e : Entry) (sum : ℕ) → checksum c e ≡ ok sum → verify c e (some sum) ≡ ok e
  unfolding verify
  verify_same e sum h = ground (arith, nat_beq_iff sum sum)

  header_no_fields :
      (e : Entry) (sum : ℕ)
      → checksum_header (record e { fields = none; crc = some sum }) ≡ checksum_header e
  unfolding checksum_header
  header_no_fields e sum = refl

  sum_empty :
      (e : Entry) (m : Str) (sum : ℕ)
      → e.fields ≡ some []
      → c.marshal_fields [] ≡ some m
      → checksum c e ≡ ok sum
      → c.crc32c (checksum_header e ++ m) ≡ sum
  unfolding checksum checksum_fields
  sum_empty e m sum empty rendered h = ground arith

  refused :
      (e : Entry) (sum : ℕ)
      → c.crc32c (checksum_header e ++ []) ≢ sum
      → verify c (record e { fields = none; crc = some sum }) (some sum) ≡ err corrupt_entry
  unfolding verify checksum checksum_fields
  refused e sum differ =
      rw (header_no_fields e sum)
        (ground (arith, nat_beq_iff (c.crc32c (checksum_header e ++ [])) sum))

  -- What Encode writes: the line of the stamped entry, and a newline.
  pub encode_inversion :
      (e : Entry) (b : Str)
      → encode c e ≡ ok b
      → (line : Str) × (sum : ℕ) × (b ≡ line ++ newline ∷ [])
        × (checksum c e ≡ ok sum)
        × (c.marshal_line (omit_empty (stamp e sum)) ≡ some line)
  unfolding encode
  encode_inversion e b h =
      let (sum, summed, h') = >>=-eq-ok (checksum c e) _ h in
      let (line, marshalled, h'') = >>=-eq-ok (or_error _ _) _ h' in
      (line, sum, cc, summed, or_error-eq-ok _ _ marshalled)

  pub decode-line :
      (e : Entry) (line : Str) (sum : ℕ)
      → CodecLaws c
      → HasFields e.fields
      → checksum c e ≡ ok sum
      → c.marshal_line (omit_empty (stamp e sum)) ≡ some line
      → decode c line ≡ ok (stamp e sum)
  unfolding decode omit_empty
  decode-line e line sum laws has summed marshalled =
      rw
        (
          laws.unmarshal-marshal _ _ (omit_empty-IsJson e.fields has.1) marshalled,
          fill_absent-omit_empty (stamp e sum) has.0,
        )
        (verify_same (stamp e sum) sum (checksum-stamp e sum ∙ summed))

  -- Whatever Encode writes for an entry whose fields are nil, or are not empty, have texts of
  -- valid UTF-8, names in order and at most 9998 levels, is a line and a newline, and Decode of
  -- the line returns the entry with its checksum.
  pub decode-encode :
      (e : Entry) (b : Str)
      → CodecLaws c
      → HasFields e.fields
      → encode c e ≡ ok b
      → (line : Str) × (sum : ℕ) × (b ≡ line ++ newline ∷ [])
        × (checksum c e ≡ ok sum)
        × (decode c line ≡ ok (stamp e sum))
  decode-encode e b laws has h =
      let (line, sum, shape, summed, marshalled) = encode_inversion e b h in
      (line, sum, shape, summed, decode-line e line sum laws has summed marshalled)

  -- The line that Encode writes for an entry with an empty map that is not nil is refused by
  -- Decode as corrupt, unless CRC32C agrees on the bytes with and without the rendered map.
  pub decode-encode_empty_fields :
      (e : Entry) (m b : Str)
      → CodecLaws c
      → e.fields ≡ some []
      → c.marshal_fields [] ≡ some m
      → c.crc32c (checksum_header e ++ m) ≢ c.crc32c (checksum_header e ++ [])
      → encode c e ≡ ok b
      → (line : Str) × (b ≡ line ++ newline ∷ []) × (decode c line ≡ err corrupt_entry)
  unfolding decode omit_empty is_json_data
  decode-encode_empty_fields e m b laws empty rendered differ h =
      let (line, sum, shape, summed, marshalled) = encode_inversion e b h in
      (
        line,
        shape,
        rw
            (
              laws.unmarshal-marshal _ _
                  (omit_empty-IsJson e.fields (subst IsJson (sym empty) refl)) marshalled,
              fill_empty e sum empty,
            )
            (refused e sum (λ p. differ (sum_empty e m sum empty rendered summed ∙ sym p))),
      )

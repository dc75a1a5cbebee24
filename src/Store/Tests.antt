-- ===== src/Store/Tests.antt =====
-- Runs of the model of store/ndjson.go.
use file_dbv.Prelude.{◌≡◌, refl, [], ◌∷◌, Str, ℕ, ◌++◌, arith}
use file_dbv.Result.{ok, err, corrupt_entry}
use file_dbv.Store.{
  Entry, put_uint, op_bytes, checksum_header, checksum_fields, checksum, omit_empty, encode, decode,
  newline, new_insert,
}
use file_dbv.Store.RoundTrip.{stamp, decode-encode, decode-encode_empty_fields}
use file_dbv.Store.Sample.{
  sample_data-HasFields, sample_codec, sample_laws, sample_entry, sample_line,
}

put_uint_300 : put_uint 8 300 ≡ 44 ∷ 1 ∷ 0 ∷ 0 ∷ 0 ∷ 0 ∷ 0 ∷ 0 ∷ []
unfolding put_uint
put_uint_300 = refl

decode-encode_example :
    (line : Str) × (sum : ℕ) × (sample_line ++ newline ∷ [] ≡ line ++ newline ∷ [])
    × (checksum sample_codec sample_entry ≡ ok sum)
    × (decode sample_codec line ≡ ok (stamp sample_entry sum))
unfolding encode checksum checksum_fields checksum_header op_bytes put_uint omit_empty
decode-encode_example =
    decode-encode sample_codec sample_entry (sample_line ++ newline ∷ []) sample_laws
      sample_data-HasFields refl

abbrev empty_entry : Entry
empty_entry = new_insert 5 1 []

abbrev empty_line : Str
empty_line = 32 ∷ 33 ∷ 37 ∷ 32 ∷ 32 ∷ 32 ∷ 49 ∷ []

decode-encode_empty_fields_example :
    (line : Str) × (empty_line ++ newline ∷ [] ≡ line ++ newline ∷ [])
    × (decode sample_codec line ≡ err corrupt_entry)
unfolding encode checksum checksum_fields checksum_header op_bytes put_uint omit_empty
decode-encode_empty_fields_example =
    decode-encode_empty_fields sample_codec empty_entry _ (empty_line ++ newline ∷ []) sample_laws
      refl refl (λ e. omega arith) refl

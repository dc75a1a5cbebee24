-- ===== src/Store.antt =====
-- store/ndjson.go: the entries of a segment file, their checksum and their encoding as lines.
-- encoding/json and hash/crc32 are the parameter `Codec`; the fields that `omitempty` drops are
-- dropped by `omit_empty` and come back as zero values by `fill_absent`.
pub mod RoundTrip
pub mod Sample
pub mod Tests
use file_dbv.Prelude.{
  ℕ, zero, suc, ◌+◌, ◌/◌, ◌%◌, Bool, true, Option, none, some, List, [], ◌∷◌, ◌++◌, Str, codes,
  ◌==◌, nat_eq, if◌then◌else◌,
}
use file_dbv.Result.{
  Result, ok, err, marshal_failed, decode_failed, corrupt_entry, or_error, ◌>>=◌, ◌>>◌,
}
use file_dbv.Json.{Data, Text}

-- A Go string; `op_other` is any other spelling, which is valid UTF-8 since it comes from encoding/json
-- or from protobuf.
pub data Op : Type 0 where
  op_insert op_update op_delete : Op
  op_other : Text → Op

unfoldable pub op_bytes : Op → Str
op_bytes op_insert = codes "insert"
op_bytes op_update = codes "update"
op_bytes op_delete = codes "delete"
op_bytes (op_other s) = s.bytes

-- `data` is `none` for a nil map; times are nanoseconds since the Unix epoch.
pub record Entry : Type 0 where
  pub id : ℕ
  pub op : Op
  pub ts : ℕ
  pub rev : ℕ
  pub fields : Option Data
  pub epoch : ℕ
  pub expires_at : ℕ
  pub crc : Option ℕ

-- The JSON object of a line: a member that is absent is `none`.
pub record Line : Type 0 where
  pub id : ℕ
  pub op : Op
  pub ts : ℕ
  pub rev : Option ℕ
  pub fields : Option Data
  pub epoch : Option ℕ
  pub expires_at : Option ℕ
  pub crc : Option ℕ

abbrev pub omit_zero : ℕ → Option ℕ
omit_zero n = if n == 0 then none else some n

-- `omitempty` drops a map that is nil or empty.
abbrev pub omit_no_fields : Option Data → Option Data
omit_no_fields none = none
omit_no_fields (some []) = none
omit_no_fields (some (p ∷ d)) = some (p ∷ d)

abbrev pub or_zero : Option ℕ → ℕ
or_zero none = 0
or_zero (some n) = n

unfoldable pub omit_empty : Entry → Line
omit_empty e = record {
  id = e.id;
  op = e.op;
  ts = e.ts;
  rev = omit_zero e.rev;
  fields = omit_no_fields e.fields;
  epoch = omit_zero e.epoch;
  expires_at = omit_zero e.expires_at;
  crc = e.crc;
}

unfoldable pub fill_absent : Line → Entry
fill_absent l = record {
  id = l.id;
  op = l.op;
  ts = l.ts;
  rev = or_zero l.rev;
  fields = l.fields;
  epoch = or_zero l.epoch;
  expires_at = or_zero l.expires_at;
  crc = l.crc;
}

-- json.Marshal, json.Unmarshal and crc32.Checksum; `none` is an error.
pub record Codec : Type 0 where
  pub marshal_fields : Data → Option Str
  pub marshal_line : Line → Option Str
  pub unmarshal_line : Str → Option Line
  pub crc32c : Str → ℕ

-- binary.LittleEndian.PutUint64, for `n` bytes.
unfoldable pub put_uint : ℕ → ℕ → Str
put_uint zero x = []
put_uint (suc n) x = (x % 256) ∷ put_uint n (x / 256)

-- What `checksum` hashes before the fields: a zero revision, expiry or epoch leaves no bytes.
unfoldable pub checksum_header : Entry → Str
unfolding op_bytes put_uint
checksum_header e =
    put_uint 8 e.id
    ++ (op_bytes e.op
        ++ ((if e.rev == 0 then [] else put_uint 8 e.rev)
            ++ ((if e.expires_at == 0 then [] else put_uint 8 e.expires_at)
                ++ (if e.epoch == 0 then [] else put_uint 8 e.epoch))))

abbrev pub newline : ℕ
newline = 10

module _ (c : Codec) where
  unfoldable pub checksum_fields : Option Data → Result Str
  checksum_fields none = ok []
  checksum_fields (some d) = or_error (c.marshal_fields d) marshal_failed

  unfoldable pub checksum : Entry → Result ℕ
  checksum e = do tail ← checksum_fields e.fields; ok (c.crc32c (checksum_header e ++ tail))

  unfoldable pub encode : Entry → Result Str
  encode e = do
    sum ← checksum e
    b ← or_error (c.marshal_line (omit_empty (record e { crc = some sum }))) marshal_failed
    ok (b ++ newline ∷ [])

  unfoldable pub verify : Entry → Option ℕ → Result Entry
  verify e none = ok e
  verify e (some want) = do got ← checksum e; if got == want then ok e else err corrupt_entry

  unfoldable pub decode : Str → Result Entry
  decode line = do
    l ← or_error (c.unmarshal_line line) decode_failed
    let e = fill_absent l
    verify e e.crc

abbrev pub new_insert : ℕ → ℕ → Data → Entry
new_insert now id fields = record {
  id = id;
  op = op_insert;
  ts = now;
  rev = 0;
  fields = some fields;
  epoch = 0;
  expires_at = 0;
  crc = none;
}

abbrev pub new_update : ℕ → ℕ → Data → Entry
new_update now id fields = record (new_insert now id fields) { op = op_update }

abbrev pub new_delete : ℕ → ℕ → Entry
new_delete now id = record (new_insert now id []) { op = op_delete; fields = none }

-- ===== src/Segment/Append.antt =====
-- Append of engine/segment.go: what a read and a scan see afterwards.
use file_dbv.Prelude.{
  ℕ, ◌+◌, ◌≤◌, ◌<◌, ◌≡◌, ◌≢◌, ap, ◌∙◌, [], ◌∷◌, ◌++◌, Str, nat_eq, length, drop, arith,
  length-append, drop-append_length,
}
use file_dbv.Result.{ok, >>=-eq-ok, if-eq-ok}
use file_dbv.Store.{newline, Codec, Entry, encode, decode, checksum}
use file_dbv.Store.RoundTrip.{CodecLaws, HasFields, stamp, decode-line, encode_inversion}
use file_dbv.Segment.{
  Segment, append, append_bytes, read_at, read_first, scan_token, max_scan_token_size,
}
use file_dbv.Segment.CompleteLines.{IsClean, IsClean-append_line}
use file_dbv.Segment.Lines.{IsPrintable, split_lines-line, drop_cr_printable, read_first-append}

-- What a segment is between operations: complete lines, and the size that Go keeps beside them.
pub record IsWellFormed (s : Segment) : Type 0 where
  pub clean : IsClean s.bytes
  pub sized : s.size ≡ length s.bytes

append_bytes_inversion :
    (s s' : Segment) (b : Str) (off : ℕ)
    → append_bytes s b ≡ ok (off, s')
    → (off ≡ s.size)
      × (s' ≡ record s { bytes = s.bytes ++ b; size = s.size + length b })
      × (length b ≤ max_scan_token_size)
unfolding append_bytes
append_bytes_inversion s s' b off h = ground arith

-- What a successful append of `e` wrote at `off`.
pub record Appended (c : Codec) (s s' : Segment) (e : Entry) (off : ℕ) : Type 0 where
  pub line : Str
  pub sum : ℕ
  pub at_end : off ≡ s.size
  pub bytes : s'.bytes ≡ s.bytes ++ (line ++ newline ∷ [])
  pub size : s'.size ≡ s.size + length (line ++ newline ∷ [])
  pub path : s'.path ≡ s.path
  pub short : length (line ++ newline ∷ []) ≤ max_scan_token_size
  pub summed : checksum c e ≡ ok sum
  pub decoded : decode c line ≡ ok (stamp e sum)
  pub printable : IsPrintable line
  pub some_line : line ≢ []

pub scan_token_lem :
    (l : Str)
    → IsPrintable l
    → length (l ++ newline ∷ []) ≤ max_scan_token_size
    → scan_token l ≡ ok l
unfolding scan_token
scan_token_lem l p short =
    let n : length (l ++ newline ∷ []) ≡ length l + 1 = length-append l (newline ∷ []) in
    rw (drop_cr_printable l p) (ground (arith, n))

module _ (c : Codec) (laws : CodecLaws c) where
  pub append_inversion :
      (s s' : Segment) (e : Entry) (off : ℕ)
      → HasFields e.fields
      → append c s e ≡ ok (off, s')
      → Appended c s s' e off
  unfolding append
  append_inversion s s' e off has h =
      let (unsealed, h') = if-eq-ok s.sealed _ _ h in
      let (b, encoded, h'') = >>=-eq-ok (encode c e) _ h' in
      let (line, sum, shape, summed, marshalled) = encode_inversion c e b encoded in
      let (at, same, short) = append_bytes_inversion s s' b off h'' in
      let (printable, some_line) = laws.marshal_printable _ _ marshalled in
      record {
        line = line;
        sum = sum;
        at_end = at;
        bytes = ap (λ (t : Segment). t.bytes) same ∙ ap (λ (t : Str). s.bytes ++ t) shape;
        size = ap (λ (t : Segment). t.size) same ∙ ap (λ (t : Str). s.size + length t) shape;
        path = ap (λ (t : Segment). t.path) same;
        short = rw shape at short;
        summed = summed;
        decoded = decode-line c e line sum laws has summed marshalled;
        printable = printable;
        some_line = some_line;
      }

  -- A segment stays well formed.
  pub append-IsWellFormed :
      (s s' : Segment) (e : Entry) (off : ℕ)
      → IsWellFormed s
      → Appended c s s' e off
      → IsWellFormed s'
  append-IsWellFormed s s' e off w a = record {
    clean = rw a.bytes (IsClean-append_line s.bytes a.line);
    sized =
        a.size
        ∙ (rw a.bytes (omega (arith, length-append s.bytes (a.line ++ newline ∷ []), w.sized)));
  }

  -- The new entry is read back at the offset that the append returned.
  pub read_at-Appended :
      (s s' : Segment) (e : Entry) (off : ℕ)
      → IsWellFormed s
      → (a : Appended c s s' e off) → read_at c s' off ≡ ok (stamp e a.sum)
  unfolding read_at
  read_at-Appended s s' e off w a =
      let there : drop off s'.bytes ≡ a.line ++ newline ∷ [] =
        (rw (a.bytes, a.at_end, w.sized) (drop-append_length s.bytes (a.line ++ newline ∷ []))) in
      rw (there, split_lines-line a.line [] a.printable)
        (unfold read_first in rw (scan_token_lem a.line a.printable a.short) a.decoded)

  -- After an append that succeeds to a well-formed segment, of an entry whose fields are nil, or
  -- are not empty, have texts of valid UTF-8, names in order and at most 9998 levels, the segment
  -- is well formed and a read at the returned offset gives the entry with its checksum.
  pub read_at-append :
      (s s' : Segment) (e : Entry) (off : ℕ)
      → IsWellFormed s
      → HasFields e.fields
      → append c s e ≡ ok (off, s')
      → IsWellFormed s'
        × ((sum : ℕ) × (checksum c e ≡ ok sum) × (read_at c s' off ≡ ok (stamp e sum)))
  read_at-append s s' e off w has h =
      let a = append_inversion s s' e off has h in
      (append-IsWellFormed s s' e off w a, (a.sum, a.summed, read_at-Appended s s' e off w a))

module _ (c : Codec) where
  -- What an append leaves, without its decoding.
  pub append_line :
      (s s' : Segment) (e : Entry) (off : ℕ)
      → append c s e ≡ ok (off, s')
      → (line : Str) × (s'.bytes ≡ s.bytes ++ (line ++ newline ∷ [])) × (s'.path ≡ s.path)
  unfolding append
  append_line s s' e off h =
      let (unsealed, h') = if-eq-ok s.sealed _ _ h in
      let (b, encoded, h'') = >>=-eq-ok (encode c e) _ h' in
      let (line, sum, shape, summed, marshalled) = encode_inversion c e b encoded in
      let (at, same, short) = append_bytes_inversion s s' b off h'' in
      (
        line,
        ap (λ (t : Segment). t.bytes) same ∙ ap (λ (t : Str). s.bytes ++ t) shape,
        ap (λ (t : Segment). t.path) same,
      )

  -- After an append that succeeds to a well-formed segment, of any entry, a read at any offset
  -- before the old end gives what it gave before, an error included.
  pub read_at-append_before :
      (s s' : Segment) (e : Entry) (off k : ℕ)
      → IsWellFormed s
      → append c s e ≡ ok (off, s')
      → k < s.size
      → read_at c s' k ≡ read_at c s k
  unfolding read_at
  read_at-append_before s s' e off k w h below =
      let (line, bytes, path) = append_line s s' e off h in
      rw bytes
        (read_first-append c k s.bytes (line ++ newline ∷ []) w.clean (omega (arith, w.sized)))

-- ===== src/Index.antt =====
-- engine/index.go: the in-memory map from a record's id to the place of its latest version, and its
-- reconstruction from the segment files.
pub mod Replay
pub mod Tests
use file_dbv.Prelude.{
  ℕ, suc, ◌+◌, Bool, true, false, not, ◌&&◌, Option, none, some, List, [], ◌∷◌, Str, Map, lookup,
  insert, delete, length, leb, ltb, ◌==◌, nat_eq, if◌then◌else◌,
}
use file_dbv.Result.{Result, ok, err, index_out_of_range, ◌>>=◌}
use file_dbv.Store.{Entry, Op, op_insert, op_update, op_delete, op_other, Codec, newline}
use file_dbv.Segment.{Segment, scan_all}

pub record IndexEntry : Type 0 where
  pub segment_path : ℕ
  pub offset : ℕ
  pub rev : ℕ
  pub expires_at : ℕ
  pub epoch : ℕ

abbrev pub Index : Type 0
Index = Map ℕ IndexEntry

unfoldable pub set : ℕ → IndexEntry → Index → Index
set id entry idx = insert id entry idx

unfoldable pub get : ℕ → Index → Option IndexEntry
get id idx = lookup id idx

unfoldable pub remove : ℕ → Index → Index
remove id idx = delete id idx

unfoldable pub len : Index → ℕ
len idx = length idx

-- How many of the entries were written at the epoch.
unfoldable pub at_epoch : ℕ → Index → ℕ
at_epoch epoch [] = 0
at_epoch epoch ((id, e) ∷ idx) =
    let rest = at_epoch epoch idx in if e.epoch == epoch then suc rest else rest

unfoldable pub count_at_epoch : ℕ → Index → ℕ × ℕ
unfolding at_epoch len
count_at_epoch epoch idx = (len idx, at_epoch epoch idx)

abbrev pub inside : Option ℕ → ℕ → Bool
inside none offset = false
inside (some size) offset = ltb offset size

-- `sizes` maps the path of each segment file to its size.
unfoldable pub segments_valid : Map ℕ ℕ → Index → Bool
segments_valid sizes [] = true
segments_valid sizes ((id, e) ∷ idx) =
    inside (lookup e.segment_path sizes) e.offset && segments_valid sizes idx

-- The revision that `fresh[id].Rev` reads: 0 for an id that is not there.
abbrev pub rev_or_zero : Option IndexEntry → ℕ
rev_or_zero none = 0
rev_or_zero (some e) = e.rev

abbrev pub max_rev : ℕ → ℕ → ℕ
max_rev rev recorded = if ltb rev recorded then recorded else rev

-- The entry that the loop of Rebuild sets for an insert or an update.
unfoldable pub rebuilt : ℕ → Index → ℕ → Entry → IndexEntry
rebuilt path fresh offset e = record {
  segment_path = path;
  offset = offset;
  rev = max_rev (rev_or_zero (get e.id fresh) + 1) e.rev;
  expires_at = e.expires_at;
  epoch = e.epoch;
}

unfoldable pub rebuild_op : Op → ℕ → Index → ℕ → Entry → Index
unfolding rebuilt
rebuild_op op_insert path fresh offset e = set e.id (rebuilt path fresh offset e) fresh
rebuild_op op_update path fresh offset e = set e.id (rebuilt path fresh offset e) fresh
rebuild_op op_delete path fresh offset e = remove e.id fresh
rebuild_op (op_other s) path fresh offset e = fresh

-- One entry of a segment in the loop of Rebuild.
unfoldable pub rebuild_entry : ℕ → Index → ℕ → Entry → Index
unfolding rebuild_op
rebuild_entry path fresh offset e = rebuild_op e.op path fresh offset e

-- The byte offset of each line that ends in a newline.
unfoldable pub offsets_from : ℕ → ℕ → Bool → Str → List ℕ
offsets_from pos line_start in_line [] = []
offsets_from pos line_start in_line (x ∷ xs) =
    let start = if in_line then line_start else pos in
    let rest = offsets_from (pos + 1) start (not (x == newline)) xs in
    if x == newline then start ∷ rest else rest

unfoldable pub scan_offsets : Segment → List ℕ
unfolding offsets_from
scan_offsets s = offsets_from 0 0 false s.bytes

-- `offsets[i]` for each `entries[i]`: a missing offset is a panic.
unfoldable pub rebuild_entries : ℕ → List Entry → List ℕ → Index → Result Index
rebuild_entries path [] offsets fresh = ok fresh
rebuild_entries path (e ∷ es) [] fresh = err index_out_of_range
rebuild_entries path (e ∷ es) (off ∷ offsets) fresh =
    rebuild_entries path es offsets (rebuild_entry path fresh off e)

module _ (c : Codec) where
  unfoldable pub rebuild_segment : Segment → Index → Result Index
  rebuild_segment s fresh = do es ← scan_all c s; rebuild_entries s.path es (scan_offsets s) fresh

  unfoldable pub rebuild_from : List Segment → Index → Result Index
  rebuild_from [] fresh = ok fresh
  rebuild_from (s ∷ segs) fresh = rebuild_segment s fresh >>= rebuild_from segs

  unfoldable pub rebuild : List Segment → Result Index
  rebuild segs = rebuild_from segs []

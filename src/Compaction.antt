-- ===== src/Compaction.antt =====
-- engine/compactor.go: the merge of the sealed segments of a collection that is not encrypted. The
-- numbers of the temp files stand for their names, and `stray` is what a file of a name holds before
-- the pass; the gates on a closed collection, the ticker and the callbacks are left out.
pub mod Resolved
pub mod Written
pub mod Rebalanced
pub mod Decoded
pub mod View
pub mod Tests
use file_dbv.Prelude.{
  ℕ, suc, ◌+◌, ◌/◌, Bool, true, false, not, ◌&&◌, ◌||◌, Option, none, some, List, [], ◌∷◌, ◌++◌,
  Str, Map, lookup, insert as put, length, ltb, leb, nat_beq, nat_eq, if◌then◌else◌,
}
use file_dbv.Result.{Result, ok, err, recover_failed, or_error, ◌>>=◌}
use file_dbv.Store.{Entry, Codec, Op, op_delete, op_insert, op_update, op_other}
use file_dbv.Segment.{Segment, open_active_segment, append, scan_all, seal}
use file_dbv.Index
use file_dbv.Index.{Index, IndexEntry}
use file_dbv.Collection.{Collection, expired}

-- `latest[e.ID] = e`: the last write wins.
unfoldable pub latest_of : List Entry → Map ℕ Entry → Map ℕ Entry
latest_of [] latest = latest
latest_of (e ∷ es) latest = latest_of es (put e.id e latest)

abbrev pub is_delete : Op → Bool
is_delete op_delete = true
is_delete _ = false

abbrev pub survives : ℕ → Entry → Bool
survives now e = not (is_delete e.op || expired e.expires_at now)

unfoldable pub surviving : ℕ → Map ℕ Entry → List Entry
unfolding expired
surviving now [] = []
surviving now ((id, e) ∷ latest) =
    let rest = surviving now latest in if survives now e then e ∷ rest else rest

-- Stale entries are tombstones and those whose id the index has in another segment, or not at all.
abbrev pub is_stale : Option IndexEntry → ℕ → Entry → Bool
is_stale none path e = true
is_stale (some loc) path e = is_delete e.op || not (nat_beq loc.segment_path path)

unfoldable pub count_stale : Index → ℕ → List Entry → ℕ
count_stale idx path [] = 0
count_stale idx path (e ∷ es) =
    let rest = count_stale idx path es in
    if is_stale (Index.get e.id idx) path e then suc rest else rest

abbrev pub entries_or_none : Result (List Entry) → List Entry
entries_or_none (ok es) = es
entries_or_none (err e) = []

module _ (codec : Codec) where
  unfoldable pub latest_in : List Segment → Map ℕ Entry → Result (Map ℕ Entry)
  unfolding latest_of
  latest_in [] latest = ok latest
  latest_in (s ∷ segs) latest = scan_all codec s >>= λ es. latest_in segs (latest_of es latest)

  -- In the order of the map; Go's order is not determined.
  unfoldable pub resolve_entries : ℕ → List Segment → Result (List Entry)
  unfolding latest_in surviving
  resolve_entries now segs = latest_in segs [] >>= λ latest. ok (surviving now latest)

  -- How many entries there are, and how many are stale; a segment that cannot be read is left out.
  unfoldable pub count_entries : Index → List Segment → ℕ × ℕ
  unfolding count_stale
  count_entries idx [] = (0, 0)
  count_entries idx (s ∷ segs) =
      let rest = count_entries idx segs in
      let es = entries_or_none (scan_all codec s) in
      (length es + rest.0, count_stale idx s.path es + rest.1)

  -- `over stale total` is the comparison of their quotient with CompactDirtyPct.
  unfoldable pub is_dirty : (ℕ → ℕ → Bool) → List Segment → Collection → Bool
  unfolding count_entries
  is_dirty over segs c =
      let counted = count_entries c.index segs in
      if nat_beq counted.0 0 then false else over counted.1 counted.0

  unfoldable pub append_all : Segment → List Entry → Result Segment
  append_all s [] = ok s
  append_all s (e ∷ es) = append codec s e >>= λ (written : ℕ × Segment). append_all written.1 es

  module _ (stray : ℕ → Str) where
    unfoldable pub new_seg : ℕ → Result Segment
    new_seg i = or_error (open_active_segment i (stray i)) recover_failed

    -- A full segment is sealed, and the next one is opened.
    unfoldable pub turn : ℕ → ℕ → Segment → Result (List Segment × ℕ × Segment)
    unfolding new_seg
    turn max i current =
        if leb max current.size
        then (new_seg i >>= λ next. ok (seal current ∷ [], i + 1, next))
        else ok ([], i, current)

    unfoldable pub write_loop : ℕ → List Entry → ℕ → Segment → Result (List Segment)
    unfolding turn
    write_loop max [] i current = ok (seal current ∷ [])
    write_loop max (e ∷ es) i current = do
      turned ← turn max i current
      written ← append codec turned.2 e
      rest ← write_loop max es turned.1 written.1
      ok (turned.0 ++ rest)

  -- `stray` is what the file `a.path + ".merge"` holds.
  unfoldable pub merge_segments : (ℕ → Str) → Segment → Segment → Result Segment
  unfolding append_all
  merge_segments stray a b = do
    merged ← or_error (open_active_segment a.path (stray a.path)) recover_failed
    first ← scan_all codec a
    merged' ← append_all merged first
    second ← scan_all codec b
    merged'' ← append_all merged' second
    ok (seal merged'')

  module _ (stray : ℕ → Str) where
    -- The loop of rebalance: `min_size` and `max_size` are bytes.
    unfoldable pub rebalance_loop : ℕ → ℕ → List Segment → Result (List Segment)
    unfolding merge_segments
    rebalance_loop min_size max_size [] = ok []
    rebalance_loop min_size max_size (s ∷ []) = ok (s ∷ [])
    rebalance_loop min_size max_size (s ∷ next ∷ segs) =
        let single = rebalance_loop min_size max_size (next ∷ segs) in
        let pair = rebalance_loop min_size max_size segs in
        if leb min_size s.size
        then (single >>= λ rest. ok (s ∷ rest))
        else if leb (s.size + next.size) max_size
        then (merge_segments stray s next >>= λ merged. pair >>= λ rest. ok (merged ∷ rest))
        else (single >>= λ rest. ok (s ∷ rest))

    unfoldable pub rebalance : List Segment → ℕ → Result (List Segment)
    unfolding rebalance_loop
    rebalance segs max_size = rebalance_loop (max_size / 10) max_size segs

  -- The temp segments that the pass renames into place.
  unfoldable pub write_compacted : (ℕ → Str) → (ℕ → Str) → List Entry → ℕ → Result (List Segment)
  unfolding write_loop rebalance
  write_compacted stray merge_stray [] max_size = ok []
  write_compacted stray merge_stray (e ∷ es) max_size = do
    current ← new_seg stray 1
    segs ← write_loop stray max_size (e ∷ es) 2 current
    rebalance merge_stray segs max_size

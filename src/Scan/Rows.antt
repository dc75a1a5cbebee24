-- ===== src/Scan/Rows.antt =====
-- The rows that a scan of engine/scan.go visits, as a list that does not depend on the visitor.
use file_dbv.Prelude.{
  ℕ, ◌+◌, ◌≡◌, refl, sym, ap, ◌∙◌, Bool-cases, Option, Option-cases, none, some, List, [], ◌∷◌,
  ◌++◌, Str, length, inl, inr, if◌then◌else◌,
}
use file_dbv.Result.{Result-cases, Error, ok, err}
use file_dbv.Store.{Codec, decode}
use file_dbv.Segment.{Segment, scan_token, split_lines}
use file_dbv.Index
use file_dbv.Query.{Format, Filter}
use file_dbv.Collection.{Collection}
use file_dbv.Scan.{
  ScanResult, Flow, next, halt, Walk, rev_of, result_of, is_live, get_stored, index_candidates,
  visit_row, and_then, visit_ids, visit_entry, walk_lines, stream_live, for_each_match,
}

-- The rows, and the error that ends them.
abbrev pub Rows : Type 0
Rows = List ScanResult × Option Error

abbrev pub then_rows : Rows → Rows → Rows
then_rows (rs, none) rest = (rs ++ rest.0, rest.1)
then_rows (rs, some x) rest = (rs, some x)

and_then_same :
    {A : Type 0} (a : Flow A) {g h : A → Flow A}
    → ((w : A) → g w ≡ h w)
    → and_then a g ≡ and_then a h
and_then_same (next w) same = same w
and_then_same (halt e w) same = refl

and_then_assoc :
    {A : Type 0} (a : Flow A) (g h : A → Flow A)
    → and_then (and_then a g) h ≡ and_then a (λ w. and_then (g w) h)
and_then_assoc (next w) g h = refl
and_then_assoc (halt e w) g h = refl

module _ (codec : Codec) (f : Format) (sort_ids : List ℕ → List ℕ) where
  unfoldable pub rows_of_ids : ℕ → Collection → List ℕ → List ScanResult
  rows_of_ids now c [] = []
  rows_of_ids now c (id ∷ ids) =
      let rest = rows_of_ids now c ids in
      elim (get_stored codec f id now c) [
        | err x ↦ rest
        | ok (e, loc) ↦ record { id = id; rev = loc.rev; fields = e.fields; ts = e.ts } ∷ rest
      ]

  unfoldable pub rows_of_lines : ℕ → Collection → ℕ → ℕ → List Str → Rows
  rows_of_lines now c path off [] = ([], none)
  rows_of_lines now c path off (l ∷ ls) = elim (scan_token l) [
    | err x ↦ ([], some x)
    | ok [] ↦ rows_of_lines now c path (off + 1) ls
    | ok (x ∷ line) ↦ elim (decode codec (x ∷ line)) [
      | err y ↦ ([], some y)
      | ok e ↦
          (let rest = rows_of_lines now c path (off + length (x ∷ line) + 1) ls in
            if is_live codec f now c path off e
            then (result_of codec f e (rev_of (Index.get e.id c.index)) ∷ rest.0, rest.1)
            else rest)
    ]
  ]

  unfoldable pub rows_of_segments : ℕ → Collection → List Segment → Rows
  unfolding rows_of_lines
  rows_of_segments now c [] = ([], none)
  rows_of_segments now c (s ∷ segs) =
      then_rows (rows_of_lines now c s.path 0 (split_lines s.bytes)) (rows_of_segments now c segs)

  -- The rows of a scan with a filter, before the filter is applied.
  unfoldable pub rows_of : ℕ → Collection → Filter → Rows
  unfolding rows_of_ids rows_of_segments
  rows_of now c filter = elim (index_candidates codec f filter c) [
    | some ids ↦ (rows_of_ids now c (sort_ids ids), none)
    | none ↦ rows_of_segments now c (c.sealed ++ c.active ∷ [])
  ]

  module _ {A : Type 0} (visit : ScanResult → A → Flow A) (filter : Filter) where
    -- A visitor over a list of rows.
    unfoldable pub feed : List ScanResult → Option Error → Walk A → Flow (Walk A)
    feed [] none w = next w
    feed [] (some x) w = halt (some x) w
    feed (r ∷ rs) end w = and_then (visit_row codec f sort_ids visit filter r w) (feed rs end)

    feed-append :
        (rs rest : List ScanResult) (end : Option Error) (w : Walk A)
        → feed (rs ++ rest) end w ≡ and_then (feed rs none w) (feed rest end)
    unfolding feed
    feed-append [] rest end w = refl
    feed-append (r ∷ rs) rest end w =
        and_then_same (visit_row codec f sort_ids visit filter r w) (feed-append rs rest end)
        ∙ sym (
            and_then_assoc (visit_row codec f sort_ids visit filter r w) (feed rs none)
              (feed rest end))

    feed_then :
        (rows rest : Rows) (w : Walk A)
        → and_then (feed rows.0 rows.1 w) (feed rest.0 rest.1)
          ≡ feed (then_rows rows rest).0 (then_rows rows rest).1 w
    unfolding feed
    feed_then (rs, none) rest w = sym (feed-append rs rest.0 rest.1 w)
    feed_then (rs, some x) rest w = ended rs w
      where
        ended :
            (qs : List ScanResult) (v : Walk A)
            → and_then (feed qs (some x) v) (feed rest.0 rest.1) ≡ feed qs (some x) v
        ended [] v = refl
        ended (q ∷ qs) v =
            and_then_assoc (visit_row codec f sort_ids visit filter q v) (feed qs (some x))
              (feed rest.0 rest.1)
            ∙ and_then_same (visit_row codec f sort_ids visit filter q v) (ended qs)

    visit_ids-feed :
        (now : ℕ) (c : Collection) (ids : List ℕ) (w : Walk A)
        → visit_ids codec f sort_ids visit filter now c ids w ≡ feed (rows_of_ids now c ids) none w
    unfolding visit_ids rows_of_ids feed
    visit_ids-feed now c [] w = refl
    visit_ids-feed now c (id ∷ ids) w = elim (Result-cases (get_stored codec f id now c)) [
      | inr (x, at) ↦ rw (visit_ids, rows_of_ids, at) (visit_ids-feed now c ids w)
      | inl ((e, loc), at) ↦
          rw (visit_ids, rows_of_ids, at) (and_then_same _ (visit_ids-feed now c ids))
    ]

    walk_lines-feed :
        (now : ℕ) (c : Collection) (path off : ℕ) (ls : List Str) (w : Walk A)
        → walk_lines codec f sort_ids visit filter now c path off ls w
          ≡ feed (rows_of_lines now c path off ls).0 (rows_of_lines now c path off ls).1 w
    unfolding walk_lines rows_of_lines feed visit_entry
    walk_lines-feed now c path off [] w = refl
    walk_lines-feed now c path off (l ∷ ls) w = elim (Result-cases (scan_token l)) [
      | inr (x, at) ↦ rw (walk_lines, rows_of_lines, at) refl
      | inl ([], at) ↦
          rw (walk_lines, rows_of_lines, at) (walk_lines-feed now c path (off + 1) ls w)
      | inl (x ∷ line, at) ↦ elim (Result-cases (decode codec (x ∷ line))) [
        | inr (y, read) ↦ rw (walk_lines, rows_of_lines, at, read) refl
        | inl (e, read) ↦ elim (Bool-cases (is_live codec f now c path off e)) [
          | inl live ↦
              rw (walk_lines, rows_of_lines, at, read, visit_entry, live)
                (and_then_same _ (walk_lines-feed now c path (off + length (x ∷ line) + 1) ls))
          | inr live ↦
              rw (walk_lines, rows_of_lines, at, read, visit_entry, live)
                (walk_lines-feed now c path (off + length (x ∷ line) + 1) ls w)
        ]
      ]
    ]

    stream_live-feed :
        (now : ℕ) (c : Collection) (segs : List Segment) (w : Walk A)
        → stream_live codec f sort_ids visit filter now c segs w
          ≡ feed (rows_of_segments now c segs).0 (rows_of_segments now c segs).1 w
    unfolding stream_live rows_of_segments feed
    stream_live-feed now c [] w = refl
    stream_live-feed now c (s ∷ segs) w =
        let first = rows_of_lines now c s.path 0 (split_lines s.bytes) in
        ap
          (λ (a : Flow (Walk A)). and_then a (stream_live codec f sort_ids visit filter now c segs))
          (walk_lines-feed now c s.path 0 (split_lines s.bytes) w)
        ∙ (and_then_same (feed first.0 first.1 w) (stream_live-feed now c segs)
            ∙ feed_then first (rows_of_segments now c segs) w)

    -- Every visitor goes over the same rows.
    pub for_each_match-feed :
        (now : ℕ) (c : Collection) (w : Walk A)
        → for_each_match codec f sort_ids visit filter now c w
          ≡ feed (rows_of now c filter).0 (rows_of now c filter).1 w
    unfolding for_each_match rows_of
    for_each_match-feed now c w = elim (Option-cases (index_candidates codec f filter c)) [
      | inl at ↦
          rw (for_each_match, rows_of, at) (stream_live-feed now c (c.sealed ++ c.active ∷ []) w)
      | inr (ids, at) ↦ rw (for_each_match, rows_of, at) (visit_ids-feed now c (sort_ids ids) w)
    ]

-- ===== src/Compaction/Rebalanced.antt =====
-- rebalance and writeCompacted of engine/compactor.go: no entry is lost, and none is made up.
use file_dbv.Prelude.{
  ℕ, ◌+◌, ◌/◌, ◌≡◌, refl, sym, ap, ◌∙◌, subst, Bool, true, false, List, [], ◌∷◌, ◌++◌, map, Str,
  leb, if◌then◌else◌, append_assoc, All,
}
use file_dbv.Result.{Result, ok, ◌>>=◌, >>=-eq-ok}
use file_dbv.Store.{Entry, Codec}
use file_dbv.Store.RoundTrip.{CodecLaws, HasFields, KeepsFields}
use file_dbv.Segment.{Segment, scan_all, seal}
use file_dbv.Segment.Holds.{Item, Holds, entries_of}
use file_dbv.Compaction.{
  append_all, new_seg, write_loop, merge_segments, rebalance_loop, rebalance, write_compacted,
}
use file_dbv.Compaction.Resolved.{all_entries}
use file_dbv.Compaction.Written.{
  bare, Carries, Carries-cons, Carries-bare, append_all_lem, new_seg-Holds, sealed-Holds,
  write_loop-Carries, map-bare-append,
}

abbrev pub AllHaveFields : List Entry → Type 0
AllHaveFields es = All (λ (e : Entry). HasFields e.fields) es

-- Fields that are nil or not empty.
abbrev pub AllKeepFields : List Entry → Type 0
AllKeepFields es = All (λ (e : Entry). KeepsFields e.fields) es

split_fields :
    (es rest : List Entry) → AllHaveFields (es ++ rest) → AllHaveFields es × AllHaveFields rest
split_fields [] rest h = (tt, h)
split_fields (e ∷ es) rest (first, h) =
    let (left, right) = split_fields es rest h in ((first, left), right)

-- The fields do not depend on the checksum.
bare_fields :
    (es es' : List Entry) → map bare es ≡ map bare es' → AllHaveFields es' → AllHaveFields es
bare_fields [] es' same h = tt
bare_fields (e ∷ es) [] same h = absurd cc
bare_fields (e ∷ es) (e' ∷ es') same (first, rest) =
    let heads : bare e ≡ bare e' = cc in
    let tails : map bare es ≡ map bare es' = cc in
    (
      subst HasFields (ap (λ (x : Entry). x.fields) (sym heads)) first,
      bare_fields es es' tails rest,
    )

module _ (codec : Codec) where
  -- What the entries of some segments are made of.
  all_entries-cons :
      (s : Segment) (segs : List Segment) (es : List Entry)
      → all_entries codec (s ∷ segs) ≡ ok es
      → (first : List Entry) × (rest : List Entry) × (scan_all codec s ≡ ok first)
        × (all_entries codec segs ≡ ok rest)
        × (first ++ rest ≡ es)
  unfolding all_entries
  all_entries-cons s segs es h =
      let (first, scanned, h') = >>=-eq-ok (scan_all codec s) _ h in
      let (rest, others, done) = >>=-eq-ok (all_entries codec segs) _ h' in
      (first, rest, scanned, others, cc)

  Carries-keep :
      (s : Segment) (segs : List Segment) (first rest : List Entry)
      → scan_all codec s ≡ ok first
      → Carries codec segs rest
      → Carries codec (s ∷ segs) (first ++ rest)
  unfolding all_entries
  Carries-keep s segs first rest scanned c = record {
    entries = first ++ c.entries;
    read = rw (scanned, c.read) refl;
    same =
        map-bare-append first c.entries
        ∙ (ap (λ (t : List Entry). map bare first ++ t) c.same ∙ sym (map-bare-append first rest));
  }

  module _ (laws : CodecLaws codec) where
    merge_segments_lem :
        (stray : ℕ → Str) (a b merged : Segment) (first second : List Entry)
        → ((n : ℕ) → stray n ≡ [])
        → scan_all codec a ≡ ok first
        → scan_all codec b ≡ ok second
        → AllHaveFields first
        → AllHaveFields second
        → merge_segments codec stray a b ≡ ok merged
        → (items : List Item) × Holds codec merged items
          × (map bare (entries_of items) ≡ map bare (first ++ second))
    unfolding merge_segments new_seg
    merge_segments_lem stray a b merged first second clean scan_a scan_b has_a has_b done =
        let (m0, made, done1) = >>=-eq-ok (new_seg codec stray a.path) _ done in
        let (es1, scanned1, done2) = >>=-eq-ok (scan_all codec a) _ done1 in
        let (m1, wrote1, done3) = >>=-eq-ok (append_all codec m0 es1) _ done2 in
        let (es2, scanned2, done4) = >>=-eq-ok (scan_all codec b) _ done3 in
        let (m2, wrote2, done5) = >>=-eq-ok (append_all codec m1 es2) _ done4 in
        let same1 : es1 ≡ first = cc in
        let same2 : es2 ≡ second = cc in
        let (items1, h1, bare1) =
          append_all_lem codec laws m0 m1 es1 []
            (new_seg-Holds codec laws stray a.path m0 clean made)
            (subst AllHaveFields (sym same1) has_a) wrote1 in
        let (items2, h2, bare2) =
          append_all_lem codec laws m1 m2 es2 items1 h1 (subst AllHaveFields (sym same2) has_b)
            wrote2 in
        let sealed : seal m2 ≡ merged = cc in
        (
          items2,
          subst (λ (t : Segment). Holds codec t items2) sealed
              (sealed-Holds codec laws m2 items2 h2),
          bare2 ∙ (rw (bare1, same1, same2) (sym (map-bare-append first second))),
        )

    keep :
        (s : Segment) (segs' : List Segment) (single : Result (List Segment))
        (first rest : List Entry)
        → scan_all codec s ≡ ok first
        → ((found : List Segment) → single ≡ ok found → Carries codec found rest)
        → (single >>= λ found. ok (s ∷ found)) ≡ ok segs'
        → Carries codec segs' (first ++ rest)
    keep s segs' single first rest scanned after done =
        let (found, at, same) = >>=-eq-ok single _ done in
        let whole : s ∷ found ≡ segs' = cc in
        subst (λ (t : List Segment). Carries codec t (first ++ rest)) whole
          (Carries-keep s found first rest scanned (after found at))

    -- One turn of the loop with two segments ahead.
    two :
        (stray : ℕ → Str) (min_size max_size : ℕ) (s next : Segment) (segs segs' : List Segment)
        (e1 r1 e2 r2 : List Entry)
        → scan_all codec s ≡ ok e1
        → scan_all codec next ≡ ok e2
        → e2 ++ r2 ≡ r1
        → ((n : ℕ) → stray n ≡ [])
        → AllHaveFields e1
        → AllHaveFields e2
        → ((found : List Segment)
            → rebalance_loop codec stray min_size max_size (next ∷ segs) ≡ ok found
            → Carries codec found r1)
        → ((found : List Segment)
            → rebalance_loop codec stray min_size max_size segs ≡ ok found
            → Carries codec found r2)
        → rebalance_loop codec stray min_size max_size (s ∷ next ∷ segs) ≡ ok segs'
        → Carries codec segs' (e1 ++ r1)
    unfolding rebalance_loop
    two stray min_size max_size s next segs segs' e1 r1 e2 r2 scan1 scan2 same2 clean has1 has2
          single pair done =
        over (leb min_size s.size) (leb (s.size + next.size) max_size) done
      where
        over :
            (big fits : Bool)
            → (if big
                then (rebalance_loop codec stray min_size max_size (next ∷ segs) >>= λ rest.
                    ok (s ∷ rest))
                else if fits
                then (merge_segments codec stray s next >>= λ merged.
                    rebalance_loop codec stray min_size max_size segs >>= λ rest.
                    ok (merged ∷ rest))
                else (rebalance_loop codec stray min_size max_size (next ∷ segs) >>= λ rest.
                    ok (s ∷ rest)))
              ≡ ok segs'
            → Carries codec segs' (e1 ++ r1)
        over true fits h = keep s segs' _ e1 r1 scan1 single h
        over false false h = keep s segs' _ e1 r1 scan1 single h
        over false true h =
            let (merged, made, h') = >>=-eq-ok (merge_segments codec stray s next) _ h in
            let (rest, at, same) =
              >>=-eq-ok (rebalance_loop codec stray min_size max_size segs) _ h' in
            let whole : merged ∷ rest ≡ segs' = cc in
            let (items, holds, bares) =
              merge_segments_lem stray s next merged e1 e2 clean scan1 scan2 has1 has2 made in
            subst (λ (t : List Segment). Carries codec t (e1 ++ r1)) whole
              (subst (Carries codec (merged ∷ rest))
                (append_assoc e1 e2 r2 ∙ ap (λ (t : List Entry). e1 ++ t) same2)
                (Carries-cons codec laws merged rest (e1 ++ e2) r2 items holds bares
                  (pair rest at)))

    rebalance_loop-Carries :
        (stray : ℕ → Str) (min_size max_size : ℕ) (segs segs' : List Segment) (es : List Entry)
        → ((n : ℕ) → stray n ≡ [])
        → all_entries codec segs ≡ ok es
        → AllHaveFields es
        → rebalance_loop codec stray min_size max_size segs ≡ ok segs'
        → Carries codec segs' es
    unfolding rebalance_loop
    rebalance_loop-Carries stray min_size max_size [] segs' es clean read has done =
        subst (λ (t : List Segment). Carries codec t es) (cc)
          (record { entries = es; read = read; same = refl })
    rebalance_loop-Carries stray min_size max_size (s ∷ []) segs' es clean read has done =
        subst (λ (t : List Segment). Carries codec t es) (cc)
          (record { entries = es; read = read; same = refl })
    rebalance_loop-Carries stray min_size max_size (s ∷ next ∷ segs) segs' es clean read has done =
        let (e1, r1, scan1, read1, same1) = all_entries-cons s (next ∷ segs) es read in
        let (e2, r2, scan2, read2, same2) = all_entries-cons next segs r1 read1 in
        let (has1, has_r1) = split_fields e1 r1 (subst AllHaveFields (sym same1) has) in
        let (has2, has_r2) = split_fields e2 r2 (subst AllHaveFields (sym same2) has_r1) in
        subst (Carries codec segs') same1 (
          two stray min_size max_size s next segs segs' e1 r1 e2 r2 scan1 scan2 same2 clean has1
            has2
            (λ rest.
              rebalance_loop-Carries stray min_size max_size (next ∷ segs) rest r1 clean read1
                has_r1)
            (λ rest. rebalance_loop-Carries stray min_size max_size segs rest r2 clean read2 has_r2)
            done)

    -- What is written carries the entries, up to their checksums.
    pub write_compacted_lem :
        (stray merge_stray : ℕ → Str) (es : List Entry) (max_size : ℕ) (segs : List Segment)
        → ((n : ℕ) → stray n ≡ [])
        → ((n : ℕ) → merge_stray n ≡ [])
        → AllHaveFields es
        → write_compacted codec stray merge_stray es max_size ≡ ok segs
        → Carries codec segs es
    unfolding write_compacted rebalance all_entries
    write_compacted_lem stray merge_stray [] max_size segs clean merge_clean has done =
        let none_written : ◌≡◌ {A = List Segment} [] segs = cc in
        subst (λ (t : List Segment). Carries codec t []) none_written
          (record { entries = []; read = refl; same = refl })
    write_compacted_lem stray merge_stray (e ∷ es) max_size segs clean merge_clean has done =
        let (s0, made, done1) = >>=-eq-ok (new_seg codec stray 1) _ done in
        let (temps, looped, done2) =
          >>=-eq-ok (write_loop codec stray max_size (e ∷ es) 2 s0) _ done1 in
        let c =
          write_loop-Carries codec laws stray max_size (e ∷ es) 2 s0 temps [] clean has
            (new_seg-Holds codec laws stray 1 s0 clean made) looped in
        let balanced =
          rebalance_loop-Carries merge_stray (max_size / 10) max_size temps segs c.entries
            merge_clean c.read (bare_fields c.entries (e ∷ es) c.same has) done2 in
        Carries-bare codec laws segs c.entries (e ∷ es) c.same balanced

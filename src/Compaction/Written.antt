-- ===== src/Compaction/Written.antt =====
-- writeCompacted, rebalance and mergeSegments of engine/compactor.go carry the entries over.
use file_dbv.Prelude.{
  ℕ, ◌+◌, ◌≡◌, refl, sym, ap, ◌∙◌, subst, Bool, true, false, none, List, [], ◌∷◌, ◌++◌, map, Str,
  leb, if◌then◌else◌, inl, inr, ◌⊎◌, append_assoc, append-nil, All,
}
use file_dbv.Result.{ok, recover_failed, or_error, ◌>>=◌, >>=-eq-ok}
use file_dbv.Store.{Entry, Codec}
use file_dbv.Store.RoundTrip.{CodecLaws, HasFields}
use file_dbv.Segment.{Segment, open_active_segment, recover_partial_line, append, seal}
use file_dbv.Segment.Append.{append_inversion}
use file_dbv.Segment.Holds.{Item, Holds, entries_of, scan_all-Holds, append-Holds, appended_item}
use file_dbv.Compaction.{append_all, new_seg, turn, write_loop}
use file_dbv.Compaction.Resolved.{all_entries}
use file_dbv.Recovery.Replayed.{entries_of-append}

-- An entry without its checksum, which an append computes again.
abbrev pub bare : Entry → Entry
bare e = record e { crc = none }

-- The segments can be read, and hold the entries.
pub record Carries (codec : Codec) (segs : List Segment) (es : List Entry) : Type 0 where
  pub entries : List Entry
  pub read : all_entries codec segs ≡ ok entries
  pub same : map bare entries ≡ map bare es

pub map-bare-append : (xs bs : List Entry) → map bare (xs ++ bs) ≡ map bare xs ++ map bare bs
map-bare-append [] bs = refl
map-bare-append (x ∷ xs) bs = ap (λ (t : List Entry). bare x ∷ t) (map-bare-append xs bs)

with_one :
    (written before : List Entry) (e : Entry) (es : List Entry)
    → map bare written ≡ map bare before ++ bare e ∷ []
    → map bare (written ++ es) ≡ map bare (before ++ e ∷ es)
with_one written before e es same =
    map-bare-append written es
    ∙ (ap (λ (t : List Entry). t ++ map bare es) same
        ∙ (append_assoc (map bare before) (bare e ∷ []) (map bare es)
            ∙ sym (map-bare-append before (e ∷ es))))

module _ (codec : Codec) (laws : CodecLaws codec) where
  -- A segment with one more entry.
  append_one :
      (s s' : Segment) (e : Entry) (off : ℕ) (items : List Item)
      → Holds codec s items
      → HasFields e.fields
      → append codec s e ≡ ok (off, s')
      → (items' : List Item) × Holds codec s' items'
        × (map bare (entries_of items') ≡ map bare (entries_of items) ++ bare e ∷ [])
  append_one s s' e off items h has wrote =
      let a = append_inversion codec laws s s' e off has wrote in
      (
        items ++ appended_item codec a ∷ [],
        append-Holds codec items h a,
        ap (map bare) (entries_of-append items (appended_item codec a))
            ∙ map-bare-append (entries_of items) _,
      )

  pub append_all_lem :
      (s s' : Segment) (es : List Entry) (items : List Item)
      → Holds codec s items
      → All (λ e. HasFields e.fields) es
      → append_all codec s es ≡ ok s'
      → (items' : List Item) × Holds codec s' items'
        × (map bare (entries_of items') ≡ map bare (entries_of items) ++ map bare es)
  unfolding append_all
  append_all_lem s s' [] items h has done = (
    items,
    subst (λ (t : Segment). Holds codec t items) (cc) h,
    sym (append-nil (map bare (entries_of items))),
  )
  append_all_lem s s' (e ∷ es) items h (first, rest) done =
      let ((off, s1), wrote, done') = >>=-eq-ok (append codec s e) _ done in
      let (items1, h1, same1) = append_one s s1 e off items h first wrote in
      let (items2, h2, same2) = append_all_lem s1 s' es items1 h1 rest done' in
      (
        items2,
        h2,
        same2
            ∙ (ap (λ (t : List Entry). t ++ map bare es) same1
                ∙ append_assoc (map bare (entries_of items)) (bare e ∷ []) (map bare es)),
      )

  pub sealed-Holds :
      (s : Segment) (items : List Item) → Holds codec s items → Holds codec (seal s) items
  unfolding seal
  sealed-Holds s items h = record { all = h.all; bytes = h.bytes; sized = h.sized }

  -- A segment in front of others.
  pub Carries-cons :
      (s : Segment) (segs : List Segment) (es rest : List Entry) (items : List Item)
      → Holds codec s items
      → map bare (entries_of items) ≡ map bare es
      → Carries codec segs rest
      → Carries codec (s ∷ segs) (es ++ rest)
  unfolding all_entries
  Carries-cons s segs es rest items h same c = record {
    entries = entries_of items ++ c.entries;
    read = rw (scan_all-Holds codec s items h, c.read) refl;
    same =
        map-bare-append (entries_of items) c.entries
        ∙ (ap (λ (t : List Entry). t ++ map bare c.entries) same
            ∙ (ap (λ (t : List Entry). map bare es ++ t) c.same ∙ sym (map-bare-append es rest)));
  }

  pub new_seg-Holds :
      (stray : ℕ → Str) (i : ℕ) (s : Segment)
      → ((n : ℕ) → stray n ≡ [])
      → new_seg codec stray i ≡ ok s
      → Holds codec s []
  unfolding new_seg open_active_segment recover_partial_line
  new_seg-Holds stray i s clean made =
      let opened : ok (record { path = i; bytes = []; size = 0; sealed = false }) ≡ ok s =
        sym (ap (λ (b : Str). or_error (open_active_segment i b) recover_failed) (clean i))
        ∙ made in
      let same : record { path = i; bytes = []; size = 0; sealed = false } ≡ s = cc in
      subst (λ (t : Segment). Holds codec t []) same
        (record { all = tt; bytes = refl; sized = refl })

  pub Carries-bare :
      (segs : List Segment) (es es' : List Entry)
      → map bare es ≡ map bare es'
      → Carries codec segs es
      → Carries codec segs es'
  Carries-bare segs es es' same c = record {
    entries = c.entries;
    read = c.read;
    same = c.same ∙ same;
  }

  turn_lem :
      (stray : ℕ → Str) (max i : ℕ) (current : Segment) (t : List Segment × ℕ × Segment)
      → turn codec stray max i current ≡ ok t
      → (◌≡◌ {A = List Segment × ℕ × Segment} ([], i, current) t)
        ⊎ ((next : Segment) × (new_seg codec stray i ≡ ok next)
            × (◌≡◌ {A = List Segment × ℕ × Segment} (seal current ∷ [], i + 1, next) t))
  unfolding turn
  turn_lem stray max i current t h = over (leb max current.size) h
    where
      over :
          (b : Bool)
          → (if b
              then (new_seg codec stray i >>= λ next. ok (seal current ∷ [], i + 1, next))
              else ok ([], i, current))
            ≡ ok t
          → (◌≡◌ {A = List Segment × ℕ × Segment} ([], i, current) t)
            ⊎ ((next : Segment) × (new_seg codec stray i ≡ ok next)
                × (◌≡◌ {A = List Segment × ℕ × Segment} (seal current ∷ [], i + 1, next) t))
      over false e = inl cc
      over true e =
          let (next, made, same) = >>=-eq-ok (new_seg codec stray i) _ e in inr (next, made, cc)

  -- One entry of the loop, in the segment that is open or in the next one.
  turned-Carries :
      (stray : ℕ → Str) (i : ℕ) (current : Segment) (t : List Segment × ℕ × Segment) (e : Entry)
      (es : List Entry) (segs : List Segment) (s1 : Segment) (off : ℕ) (items : List Item)
      → ((n : ℕ) → stray n ≡ [])
      → Holds codec current items
      → HasFields e.fields
      → (◌≡◌ {A = List Segment × ℕ × Segment} ([], i, current) t)
        ⊎ ((next : Segment) × (new_seg codec stray i ≡ ok next)
            × (◌≡◌ {A = List Segment × ℕ × Segment} (seal current ∷ [], i + 1, next) t))
      → append codec t.2 e ≡ ok (off, s1)
      → ((items' : List Item)
          → Holds codec s1 items'
          → Carries codec segs (entries_of items' ++ es))
      → Carries codec (t.0 ++ segs) (entries_of items ++ e ∷ es)
  turned-Carries stray i current t e es segs s1 off items clean h has (inl same) wrote after =
      subst
        (λ (x : List Segment × ℕ × Segment).
          append codec x.2 e ≡ ok (off, s1)
          → Carries codec (x.0 ++ segs) (entries_of items ++ e ∷ es))
        same
        (λ wrote'.
          let (items1, h1, same1) = append_one current s1 e off items h has wrote' in
          Carries-bare segs _ _ (with_one (entries_of items1) (entries_of items) e es same1)
            (after items1 h1))
        wrote
  turned-Carries stray i current t e es segs s1 off items clean h has (inr (next, made, same)) wrote
        after =
      subst
        (λ (x : List Segment × ℕ × Segment).
          append codec x.2 e ≡ ok (off, s1)
          → Carries codec (x.0 ++ segs) (entries_of items ++ e ∷ es))
        same
        (λ wrote'.
          let (items1, h1, same1) =
            append_one next s1 e off [] (new_seg-Holds stray i next clean made) has wrote' in
          Carries-cons (seal current) segs (entries_of items) (e ∷ es) items
            (sealed-Holds current items h) refl
            (Carries-bare segs _ (e ∷ es) (with_one (entries_of items1) [] e es same1)
              (after items1 h1)))
        wrote

  pub write_loop-Carries :
      (stray : ℕ → Str) (max : ℕ) (es : List Entry) (i : ℕ) (current : Segment)
      (segs : List Segment) (items : List Item)
      → ((n : ℕ) → stray n ≡ [])
      → All (λ e. HasFields e.fields) es
      → Holds codec current items
      → write_loop codec stray max es i current ≡ ok segs
      → Carries codec segs (entries_of items ++ es)
  unfolding write_loop turn seal all_entries
  write_loop-Carries stray max [] i current segs items clean has h done =
      subst (λ (t : List Segment). Carries codec t (entries_of items ++ [])) (cc)
        (Carries-cons (seal current) [] (entries_of items) [] items (sealed-Holds current items h)
          refl (record { entries = []; read = refl; same = refl }))
  write_loop-Carries stray max (e ∷ es) i current segs items clean (first, rest) h done =
      let (turned, at, done1) = >>=-eq-ok (turn codec stray max i current) _ done in
      let ((off, s1), wrote, done2) = >>=-eq-ok (append codec turned.2 e) _ done1 in
      let (segs', looped, done3) = >>=-eq-ok (write_loop codec stray max es turned.1 s1) _ done2 in
      let whole : turned.0 ++ segs' ≡ segs = cc in
      subst (λ (t : List Segment). Carries codec t (entries_of items ++ e ∷ es)) whole
        (turned-Carries stray i current turned e es segs' s1 off items clean h first
          (turn_lem stray max i current turned at) wrote
          (λ items' h'.
            write_loop-Carries stray max es turned.1 s1 segs' items' clean rest h' looped))

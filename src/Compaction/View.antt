-- ===== src/Compaction/View.antt =====
-- A pass of engine/compactor.go keeps what the log of the collection shows.
use file_dbv.Prelude.{
  ℕ, ◌≡◌, refl, sym, ap, ◌∙◌, Bool, true, false, Option, none, some, List, [], ◌∷◌, ◌++◌, map, Str,
  ◌==◌, nat_eq, if◌then◌else◌,
}
use file_dbv.Result.{ok}
use file_dbv.Store.{Entry, Codec}
use file_dbv.Store.RoundTrip.{CodecLaws}
use file_dbv.Segment.{Segment}
use file_dbv.Compaction.{survives, resolve_entries, write_compacted}
use file_dbv.Compaction.Resolved.{
  all_entries, last_of, or_else, live_entry, live, resolve_entries_lem,
}
use file_dbv.Compaction.Written.{bare, map-bare-append}
use file_dbv.Compaction.Decoded.{resolve_entries-AllHaveFields}
use file_dbv.Compaction.Rebalanced.{AllKeepFields, write_compacted_lem}

abbrev pub bare_option : Option Entry → Option Entry
bare_option none = none
bare_option (some e) = some (bare e)

live_entry-bare :
    (now : ℕ) (o : Option Entry) → live_entry now (bare_option o) ≡ bare_option (live_entry now o)
live_entry-bare now none = refl
live_entry-bare now (some e) = over (survives now e)
  where
    over :
        (b : Bool) → (if b then some (bare e) else none) ≡ bare_option (if b then some e else none)
    over true = refl
    over false = refl

last_of-bare : (k : ℕ) (es : List Entry) → last_of k (map bare es) ≡ bare_option (last_of k es)
unfolding last_of
last_of-bare k [] = refl
last_of-bare k (e ∷ es) = rw (last_of-bare k es) (over (last_of k es) (e.id == k))
  where
    over :
        (o : Option Entry) (b : Bool)
        → or_else (bare_option o) (if b then some (bare e) else none)
          ≡ bare_option (or_else o (if b then some e else none))
    over none true = refl
    over none false = refl
    over (some x) b = refl

live-bare : (now k : ℕ) (es : List Entry) → bare_option (live now k es) ≡ live now k (map bare es)
live-bare now k es =
    sym (ap (live_entry now) (last_of-bare k es) ∙ live_entry-bare now (last_of k es))

same_view :
    (now k : ℕ) (es es' later : List Entry)
    → map bare es ≡ map bare es'
    → bare_option (live now k (es ++ later)) ≡ bare_option (live now k (es' ++ later))
same_view now k es es' later same =
    live-bare now k (es ++ later)
    ∙ (ap (live now k) (
          map-bare-append es later
          ∙ (ap (λ (t : List Entry). t ++ map bare later) same ∙ sym (map-bare-append es' later)))
        ∙ sym (live-bare now k (es' ++ later)))

-- When a compaction pass over some segments resolves its entries, which have fields that are nil
-- or not empty, and writes them to temp files that did not exist before, the temp segments can be
-- read; and whatever entries follow, the last entry of each id that is neither a tombstone nor
-- expired is the same as in the old segments, up to its checksum.
pub compacted_lem :
    (codec : Codec) (laws : CodecLaws codec) (stray merge_stray : ℕ → Str) (now max_size : ℕ)
    (segs temps : List Segment) (out : List Entry)
    → ((n : ℕ) → stray n ≡ [])
    → ((n : ℕ) → merge_stray n ≡ [])
    → resolve_entries codec now segs ≡ ok out
    → AllKeepFields out
    → write_compacted codec stray merge_stray out max_size ≡ ok temps
    → (es : List Entry) × (es' : List Entry) × (all_entries codec segs ≡ ok es)
      × (all_entries codec temps ≡ ok es')
      × ((k : ℕ) (later : List Entry)
          → bare_option (live now k (es' ++ later)) ≡ bare_option (live now k (es ++ later)))
compacted_lem codec laws stray merge_stray now max_size segs temps out clean merge_clean resolved
      has written =
    let (es, read, compact, view) = resolve_entries_lem codec now segs out resolved in
    let c =
      write_compacted_lem codec laws stray merge_stray out max_size temps clean merge_clean
        (resolve_entries-AllHaveFields codec laws now segs out resolved has) written in
    (
      es,
      c.entries,
      read,
      c.read,
      λ k later. same_view now k c.entries out later c.same ∙ ap bare_option (view k later),
    )

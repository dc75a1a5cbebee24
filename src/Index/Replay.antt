-- ===== src/Index/Replay.antt =====
-- Rebuild of engine/index.go as a replay of what the segments hold.
use file_dbv.Prelude.{
  ℕ, ◌+◌, ◌≤◌, ◌≡◌, refl, ap, ◌∙◌, Bool, true, false, List, [], ◌∷◌, ◌++◌, Str, length, arith, All,
  length-append, nat_beq_iff, ◌==◌, nat_eq, if◌then◌else◌, ◌≡⟨◌⟩◌, ◌∎,
}
use file_dbv.Result.{ok, ◌>>=◌}
use file_dbv.Store.{newline, Codec, Entry, checksum}
use file_dbv.Store.RoundTrip.{CodecLaws, HasFields, stamp}
use file_dbv.Segment.{Segment, append}
use file_dbv.Segment.Lines.{IsPrintable, unlines}
use file_dbv.Segment.Append.{append_inversion, Appended}
use file_dbv.Segment.Holds.{
  Item, IsItem, Holds, lines_of, entries_of, scan_all-Holds, append-Holds, appended_item,
}
use file_dbv.Index.{
  Index, rebuild_entry, offsets_from, scan_offsets, rebuild_entries, rebuild_segment,
}

-- Every entry of the segment in order, each at the offset of its line.
unfoldable pub replay : ℕ → ℕ → List Item → Index → Index
replay path off [] fresh = fresh
replay path off (i ∷ is) fresh =
    replay path (off + (length i.line + 1)) is (rebuild_entry path fresh off i.entry)

abbrev start_of : Bool → ℕ → ℕ → ℕ
start_of in_line start pos = if in_line then start else pos

printable_byte : (x : ℕ) → 32 ≤ x → (x == newline) ≡ false
printable_byte x h = ground (arith, nat_beq_iff x newline)

offsets_from-line :
    (pos start : ℕ) (in_line : Bool) (l r : Str)
    → IsPrintable l
    → offsets_from pos start in_line (l ++ (newline ∷ r))
      ≡ start_of in_line start pos
        ∷ offsets_from (pos + (length l + 1)) (start_of in_line start pos) false r
unfolding offsets_from
offsets_from-line pos start in_line [] r p =
    ap (λ (n : ℕ). start_of in_line start pos ∷ offsets_from n (start_of in_line start pos) false r)
      (omega arith)
offsets_from-line pos start in_line (x ∷ l) r p = rw (printable_byte x p.0) (
    offsets_from-line (pos + 1) (start_of in_line start pos) true l r p.1
    ∙ ap
        (λ (n : ℕ).
          start_of in_line start pos ∷ offsets_from n (start_of in_line start pos) false r)
        (omega arith))

rebuild_entries-replay :
    (c : Codec) (path off start : ℕ) (items : List Item) (fresh : Index)
    → All (IsItem c) items
    → rebuild_entries path
        (entries_of items)
        (offsets_from off start false (unlines (lines_of items)))
        fresh
      ≡ ok (replay path off items fresh)
unfolding rebuild_entries replay
rebuild_entries-replay c path off start [] fresh h = refl
rebuild_entries-replay c path off start (i ∷ is) fresh h =
    rw (offsets_from-line off start false i.line (unlines (lines_of is)) h.0.printable) (
      rebuild_entries-replay c path (off + (length i.line + 1)) off is
        (rebuild_entry path fresh off i.entry) h.1)

replay-append :
    (path off : ℕ) (items : List Item) (i : Item) (fresh : Index)
    → replay path off (items ++ i ∷ []) fresh
      ≡ rebuild_entry path
          (replay path off items fresh)
          (off + length (unlines (lines_of items)))
          i.entry
unfolding replay
replay-append path off [] i fresh = ap (λ (n : ℕ). rebuild_entry path fresh n i.entry) (omega arith)
replay-append path off (j ∷ is) i fresh =
    replay-append path (off + (length j.line + 1)) is i (rebuild_entry path fresh off j.entry)
    ∙ ap
        (λ (n : ℕ).
          rebuild_entry path
            (replay path (off + (length j.line + 1)) is (rebuild_entry path fresh off j.entry)) n
            i.entry)
        (omega (arith, length-append j.line (newline ∷ unlines (lines_of is))))

end_of :
    {c : Codec} {s s' : Segment} {e : Entry} {off : ℕ} (items : List Item)
    → Holds c s items
    → Appended c s s' e off
    → 0 + length (unlines (lines_of items)) ≡ off
end_of items h w = omega (arith, w.at_end, h.sized, ap length h.bytes)

module _ (c : Codec) where
  -- Rebuild of a segment that holds `items` returns their replay.
  pub rebuild_segment-replay :
      (s : Segment) (items : List Item) (fresh : Index)
      → Holds c s items
      → rebuild_segment c s fresh ≡ ok (replay s.path 0 items fresh)
  unfolding rebuild_segment scan_offsets
  rebuild_segment-replay s items fresh h =
      rw (scan_all-Holds c s items h, h.bytes)
        (rebuild_entries-replay c s.path 0 0 items fresh h.all)

  pub rebuild_segment-Appended :
      (s s' : Segment) (e : Entry) (off : ℕ) (items : List Item) (fresh : Index)
      → Holds c s items
      → (w : Appended c s s' e off)
      → rebuild_segment c s' fresh
        ≡ (rebuild_segment c s fresh >>= λ idx. ok (rebuild_entry s.path idx off (stamp e w.sum)))
  rebuild_segment-Appended s s' e off items fresh h w =
      rebuild_segment c s' fresh
      ≡⟨ rebuild_segment-replay s' (items ++ appended_item c w ∷ []) fresh
          (append-Holds c items h w) ⟩
        ok (replay s'.path 0 (items ++ appended_item c w ∷ []) fresh)
      ≡⟨ ap (λ (n : ℕ). ok (replay n 0 (items ++ appended_item c w ∷ []) fresh)) w.path ⟩
        ok (replay s.path 0 (items ++ appended_item c w ∷ []) fresh)
      ≡⟨ ap ok (replay-append s.path 0 items (appended_item c w) fresh) ⟩
        ok (
          rebuild_entry s.path (replay s.path 0 items fresh) (0 + length (unlines (lines_of items)))
            (stamp e w.sum))
      ≡⟨ ap (λ (n : ℕ). ok (rebuild_entry s.path (replay s.path 0 items fresh) n (stamp e w.sum)))
          (end_of items h w) ⟩
        ok (rebuild_entry s.path (replay s.path 0 items fresh) off (stamp e w.sum))
      ≡⟨ (rw (rebuild_segment-replay s items fresh h)) ⟩
        (rebuild_segment c s fresh >>= λ idx. ok (rebuild_entry s.path idx off (stamp e w.sum))) ∎

  -- On a segment that holds entries, after an append that succeeds of an entry whose fields are
  -- nil, or are not empty, have texts of valid UTF-8, names in order and at most 9998 levels,
  -- Rebuild of the segment does what it did before and then takes the stamped entry at the offset
  -- that Append returned.
  pub rebuild_segment-append :
      (s s' : Segment) (e : Entry) (off : ℕ) (items : List Item) (fresh : Index)
      → CodecLaws c
      → Holds c s items
      → HasFields e.fields
      → append c s e ≡ ok (off, s')
      → (sum : ℕ) × (checksum c e ≡ ok sum)
        × (rebuild_segment c s' fresh ≡ (
            rebuild_segment c s fresh >>= λ idx. ok (rebuild_entry s.path idx off (stamp e sum))))
  rebuild_segment-append s s' e off items fresh laws h has wrote =
      let w = append_inversion c laws s s' e off has wrote in
      (w.sum, w.summed, rebuild_segment-Appended s s' e off items fresh h w)

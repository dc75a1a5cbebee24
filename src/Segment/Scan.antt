-- ===== src/Segment/Scan.antt =====
-- ScanFrom of engine/segment.go over a segment that appends have written.
use file_dbv.Prelude.{
  ℕ, ◌+◌, ◌≡◌, refl, sym, ap, ◌∙◌, inl, inr, ◌⊎◌, ◌≢◌, ◌≡⟨◌⟩◌, ◌∎, List, [], ◌∷◌, ◌++◌, Str, length,
  arith, ltb, Bool-cases, All, length-append, append-nil, All-append,
}
use file_dbv.Result.{Result-cases, Result, ok, err, token_too_long, ◌>>=◌}
use file_dbv.Store.{newline, Codec, Entry, checksum, decode}
use file_dbv.Store.RoundTrip.{CodecLaws, HasFields, stamp}
use file_dbv.Segment.{
  Segment, append, scan_token, scan_from, scan_from_lines, split_lines, max_scan_token_size,
}
use file_dbv.Segment.Lines.{
  IsPrintable, unlines, unlines-append, split_lines-line, split_lines-unlines, drop_cr_printable,
}
use file_dbv.Segment.Append.{append_inversion, Appended, scan_token_lem}

-- A file that consists of the lines that were appended to it.
pub record IsWritten (s : Segment) : Type 0 where
  pub lines : List Str
  pub printable : All IsPrintable lines
  pub bytes : s.bytes ≡ unlines lines
  pub sized : s.size ≡ length s.bytes

scan_token-cases :
    (l : Str) → IsPrintable l → (scan_token l ≡ ok l) ⊎ (scan_token l ≡ err token_too_long)
unfolding scan_token
scan_token-cases l p = elim (Bool-cases (ltb max_scan_token_size (length l + 1))) [
  | inl e ↦ inr (rw e)
  | inr e ↦ inl (rw (e, drop_cr_printable l p))
]

lines_before : {s : Segment} → (h : IsWritten s) → split_lines s.bytes ≡ h.lines
lines_before {s} h =
    ap split_lines (h.bytes ∙ sym (append-nil (unlines h.lines)))
    ∙ (split_lines-unlines h.lines [] h.printable ∙ (unfold split_lines in append-nil h.lines))

lines_after :
    {c : Codec} {s s' : Segment} {e : Entry} {off : ℕ}
    → (h : IsWritten s) → (w : Appended c s s' e off)
    → split_lines s'.bytes ≡ h.lines ++ w.line ∷ []
lines_after h w =
    ap split_lines (w.bytes ∙ ap (λ (t : Str). t ++ (w.line ++ newline ∷ [])) h.bytes)
    ∙ (split_lines-unlines h.lines (w.line ++ newline ∷ []) h.printable
        ∙ ap (λ (t : List Str). h.lines ++ t)
            (split_lines-line w.line [] w.printable ∙ (unfold split_lines in refl)))

module _ (c : Codec) {A : Type 0} (yield : ℕ → Entry → A → Result A) where
  -- The scan of one line, when it could be read.
  scan_line : ℕ → Str → A → Result A
  scan_line off [] a = ok a
  scan_line off (x ∷ line) a = do e ← decode c (x ∷ line); yield off e a

  scan_step :
      (off : ℕ) (l : Str) (ls : List Str) (a : A)
      → scan_token l ≡ ok l
      → scan_from_lines c yield off (l ∷ ls) a
        ≡ (scan_line off l a >>= scan_from_lines c yield (off + length l + 1) ls)
  unfolding scan_from_lines scan_line
  scan_step off [] ls a h = rw h (ap (λ (n : ℕ). scan_from_lines c yield n ls a) (omega arith))
  scan_step off (x ∷ line) ls a h = rw h (elim (Result-cases (decode c (x ∷ line))) [
    | inr (e, bad) ↦ rw bad
    | inl (e, good) ↦ rw good
  ])

  scan_stop :
      (off : ℕ) (l : Str) (ls : List Str) (a : A)
      → scan_token l ≡ err token_too_long
      → scan_from_lines c yield off (l ∷ ls) a ≡ err token_too_long
  unfolding scan_from_lines
  scan_stop off l ls a h = rw h

  scan_from_lines-append :
      (off : ℕ) (ls r : List Str) (a : A)
      → All IsPrintable ls
      → scan_from_lines c yield off (ls ++ r) a ≡ (
          scan_from_lines c yield off ls a
          >>= scan_from_lines c yield (off + length (unlines ls)) r)
  scan_from_lines-append off [] r a p =
      unfold scan_from_lines in ap (λ (n : ℕ). scan_from_lines c yield n r a) (omega arith)
  scan_from_lines-append off (l ∷ ls) r a p = elim (scan_token-cases l p.0) [
    | inr bad ↦ scan_stop off l (ls ++ r) a bad ∙ rw (scan_stop off l ls a bad)
    | inl good ↦
        scan_step off l (ls ++ r) a good
        ∙ rw (scan_step off l ls a good) (elim (Result-cases (scan_line off l a)) [
          | inr (e, bad) ↦ rw bad
          | inl (a', done) ↦ rw done (
              scan_from_lines-append (off + length l + 1) ls r a' p.1
              ∙ ap
                  (λ (n : ℕ).
                    scan_from_lines c yield (off + length l + 1) ls a'
                    >>= scan_from_lines c yield n r)
                  (omega (arith, length-append l (newline ∷ unlines ls))))
        ])
  ]

  scan_last :
      (off : ℕ) (l : Str) (e : Entry) (a : A)
      → scan_token l ≡ ok l
      → l ≢ []
      → decode c l ≡ ok e
      → scan_from_lines c yield off (l ∷ []) a ≡ yield off e a
  unfolding scan_from_lines
  scan_last off [] e a t n d = absurd (n refl)
  scan_last off (x ∷ l) e a t n d =
      rw (t, d)
        (elim (Result-cases (yield off e a)) [ inr (_, bad) ↦ rw bad | inl (_, good) ↦ rw good ])

  pub scan_from-Appended :
      (s s' : Segment) (e : Entry) (off : ℕ) (a : A)
      → IsWritten s
      → (w : Appended c s s' e off)
      → scan_from c yield s' a ≡ (scan_from c yield s a >>= yield off (stamp e w.sum))
  unfolding scan_from
  scan_from-Appended s s' e off a h w =
      scan_from_lines c yield 0 (split_lines s'.bytes) a
      ≡⟨ ap (λ (t : List Str). scan_from_lines c yield 0 t a) (lines_after h w) ⟩
        scan_from_lines c yield 0 (h.lines ++ w.line ∷ []) a
      ≡⟨ scan_from_lines-append 0 h.lines (w.line ∷ []) a h.printable ⟩
        (scan_from_lines c yield 0 h.lines a
          >>= scan_from_lines c yield (0 + length (unlines h.lines)) (w.line ∷ []))
      ≡⟨ then_last (scan_from_lines c yield 0 h.lines a) ⟩
        (scan_from_lines c yield 0 h.lines a >>= yield off (stamp e w.sum))
      ≡⟨ ap (λ (t : List Str). scan_from_lines c yield 0 t a >>= yield off (stamp e w.sum))
          (sym (lines_before h)) ⟩
        (scan_from_lines c yield 0 (split_lines s.bytes) a >>= yield off (stamp e w.sum)) ∎
    where
      end_of : 0 + length (unlines h.lines) ≡ off
      end_of = omega (arith, w.at_end, h.sized, ap length h.bytes)

      then_last :
          (r : Result A)
          → (r >>= scan_from_lines c yield (0 + length (unlines h.lines)) (w.line ∷ []))
            ≡ (r >>= yield off (stamp e w.sum))
      then_last (err x) = refl
      then_last (ok b) = rw end_of (
          scan_last off w.line (stamp e w.sum) b (scan_token_lem w.line w.printable w.short)
            w.some_line w.decoded)

  pub append-IsWritten :
      {s s' : Segment} {e : Entry} {off : ℕ} → IsWritten s → Appended c s s' e off → IsWritten s'
  append-IsWritten {s} h w = record {
    lines = h.lines ++ w.line ∷ [];
    printable = All-append IsPrintable h.lines (w.line ∷ []) h.printable (w.printable, tt);
    bytes = w.bytes ∙ (rw h.bytes (sym (unlines-append h.lines w.line)));
    sized =
        w.size
        ∙ (rw w.bytes (omega (arith, length-append s.bytes (w.line ++ newline ∷ []), h.sized)));
  }

module _ (c : Codec) (laws : CodecLaws c) {A : Type 0} (yield : ℕ → Entry → A → Result A) where
  -- On a segment that appends have written, after an append that succeeds of an entry whose fields
  -- are nil, or are not empty, have texts of valid UTF-8, names in order and at most 9998 levels,
  -- ScanFrom does what it did before, an error included, and then calls its callback once more
  -- with the new offset and the stamped entry.
  pub scan_from-append :
      (s s' : Segment) (e : Entry) (off : ℕ) (a : A)
      → IsWritten s
      → HasFields e.fields
      → append c s e ≡ ok (off, s')
      → (sum : ℕ) × (checksum c e ≡ ok sum)
        × (scan_from c yield s' a ≡ (scan_from c yield s a >>= yield off (stamp e sum)))
  scan_from-append s s' e off a h has wrote =
      let w = append_inversion c laws s s' e off has wrote in
      (w.sum, w.summed, scan_from-Appended c yield s s' e off a h w)

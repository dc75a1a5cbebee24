-- ===== src/Segment/Holds.antt =====
-- What a segment that appends have written holds: a list of lines with the entries they decode to.
use file_dbv.Prelude.{
  ℕ, ◌≤◌, ◌≡◌, ◌≢◌, refl, sym, ap, ◌∙◌, List, [], ◌∷◌, ◌++◌, Str, length, arith, All, All-append,
  length-append, append-nil, append_assoc,
}
use file_dbv.Result.{ok}
use file_dbv.Store.{newline, Codec, Entry, decode}
use file_dbv.Store.RoundTrip.{stamp}
use file_dbv.Segment.{
  Segment, scan_token, scan_all, scan_all_lines, split_lines, max_scan_token_size,
}
use file_dbv.Segment.CompleteLines.{complete_lines, IsClean, IsClean-append, IsClean-append_line}
use file_dbv.Segment.Lines.{IsPrintable, unlines, unlines-append, split_lines-unlines}
use file_dbv.Segment.Append.{Appended, scan_token_lem}

pub record Item : Type 0 where
  pub line : Str
  pub entry : Entry

pub record IsItem (c : Codec) (i : Item) : Type 0 where
  pub printable : IsPrintable i.line
  pub some_line : i.line ≢ []
  pub short : length (i.line ++ newline ∷ []) ≤ max_scan_token_size
  pub decoded : decode c i.line ≡ ok i.entry

abbrev pub lines_of : List Item → List Str
lines_of [] = []
lines_of (i ∷ is) = i.line ∷ lines_of is

abbrev pub entries_of : List Item → List Entry
entries_of [] = []
entries_of (i ∷ is) = i.entry ∷ entries_of is

pub record Holds (c : Codec) (s : Segment) (items : List Item) : Type 0 where
  pub all : All (IsItem c) items
  pub bytes : s.bytes ≡ unlines (lines_of items)
  pub sized : s.size ≡ length s.bytes

IsPrintable-lines :
    (c : Codec) (items : List Item) → All (IsItem c) items → All IsPrintable (lines_of items)
IsPrintable-lines c [] h = tt
IsPrintable-lines c (i ∷ is) h = (h.0.printable, IsPrintable-lines c is h.1)

lines_of-append : (is : List Item) (i : Item) → lines_of (is ++ i ∷ []) ≡ lines_of is ++ i.line ∷ []
lines_of-append [] i = refl
lines_of-append (j ∷ is) i = ap (λ (t : List Str). j.line ∷ t) (lines_of-append is i)

unlines-IsClean : (items : List Item) → IsClean (unlines (lines_of items))
unlines-IsClean [] = unfold complete_lines in refl
unlines-IsClean (i ∷ is) =
    ap complete_lines (sym (append_assoc i.line (newline ∷ []) (unlines (lines_of is))))
    ∙ (IsClean-append (i.line ++ newline ∷ []) (unlines (lines_of is))
          (IsClean-append_line [] i.line) (unlines-IsClean is)
        ∙ append_assoc i.line (newline ∷ []) (unlines (lines_of is)))

module _ (c : Codec) where
  scan_all_step :
      (i : Item) (ls : List Str) (es : List Entry)
      → IsItem c i
      → scan_all_lines c ls ≡ ok es
      → scan_all_lines c (i.line ∷ ls) ≡ ok (i.entry ∷ es)
  unfolding scan_all_lines
  scan_all_step i ls es h rest = go i.line refl
    where
      go : (l : Str) → i.line ≡ l → scan_all_lines c (l ∷ ls) ≡ ok (i.entry ∷ es)
      go [] e = absurd (h.some_line e)
      go (x ∷ l) e =
          let t : scan_token (x ∷ l) ≡ ok (x ∷ l) =
            rw (← e) (scan_token_lem i.line h.printable h.short) in
          let d : decode c (x ∷ l) ≡ ok i.entry = rw (← e) h.decoded in rw (t, d, rest)

  scan_all_lines_lem :
      (items : List Item)
      → All (IsItem c) items
      → scan_all_lines c (lines_of items) ≡ ok (entries_of items)
  scan_all_lines_lem [] h = unfold scan_all_lines in refl
  scan_all_lines_lem (i ∷ is) h =
      scan_all_step i (lines_of is) (entries_of is) h.0 (scan_all_lines_lem is h.1)

  -- ScanAll returns the entries that the segment holds.
  pub scan_all-Holds :
      (s : Segment) (items : List Item) → Holds c s items → scan_all c s ≡ ok (entries_of items)
  unfolding scan_all
  scan_all-Holds s items h =
      let cut : split_lines s.bytes ≡ lines_of items =
        ap split_lines (h.bytes ∙ sym (append-nil (unlines (lines_of items))))
        ∙ (split_lines-unlines (lines_of items) [] (IsPrintable-lines c items h.all)
            ∙ (unfold split_lines in append-nil (lines_of items))) in
      rw cut (scan_all_lines_lem items h.all)

  abbrev pub appended_item : {s s' : Segment} {e : Entry} {off : ℕ} → Appended c s s' e off → Item
  appended_item {e = e} w = record { line = w.line; entry = stamp e w.sum }

  pub append-Holds :
      {s s' : Segment} {e : Entry} {off : ℕ} (items : List Item)
      → Holds c s items
      → (w : Appended c s s' e off) → Holds c s' (items ++ appended_item w ∷ [])
  append-Holds {s} {e = e} items h w = record {
    all = All-append (IsItem c) items (appended_item w ∷ []) h.all (
      record {
        printable = w.printable;
        some_line = w.some_line;
        short = w.short;
        decoded = w.decoded;
      },
      tt,
    );
    bytes =
        w.bytes
        ∙ (ap (λ (t : Str). t ++ (w.line ++ newline ∷ [])) h.bytes
            ∙ (sym (unlines-append (lines_of items) w.line)
                ∙ sym (ap unlines (lines_of-append items (appended_item w)))));
    sized =
        w.size
        ∙ (rw w.bytes (omega (arith, length-append s.bytes (w.line ++ newline ∷ []), h.sized)));
  }

  -- Between appends the file has complete lines only.
  pub Holds-IsClean : (s : Segment) (items : List Item) → Holds c s items → IsClean s.bytes
  Holds-IsClean s items h = rw h.bytes (unlines-IsClean items)

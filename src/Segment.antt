-- ===== src/Segment.antt =====
-- engine/segment.go: one NDJSON file of a collection. The bytes of the file stand in the record, so
-- that an append and a truncation are functions; failures of the operating system are left out.
pub mod CompleteLines
pub mod Recovery
pub mod Lines
pub mod Append
pub mod Scan
pub mod Holds
pub mod Tests
use file_dbv.Prelude.{
  ℕ, zero, suc, ◌+◌, ◌-◌, Bool, true, false, Option, none, some, List, [], ◌∷◌, ◌++◌, Str, ltb,
  ◌==◌, nat_eq, if◌then◌else◌, length, take, drop, get_elem?,
}
use file_dbv.Result.{
  Result, ok, err, record_too_large, append_to_sealed, empty_at_offset, token_too_long, ◌>>=◌,
}
use file_dbv.Store.{Entry, Codec, encode, decode, newline}

abbrev pub max_scan_token_size : ℕ
max_scan_token_size = 16777216

abbrev pub default_segment_max_size : ℕ
default_segment_max_size = 4194304

-- `path` is the number `n` in the file name `seg_%06d.ndjson`, and `bytes` are the file's contents.
pub record Segment : Type 0 where
  pub path : ℕ
  pub bytes : Str
  pub size : ℕ
  pub sealed : Bool

-- The greatest index below `n` at which the buffer has a newline.
unfoldable pub scan_back : ℕ → Str → Option ℕ
scan_back zero b = none
scan_back (suc i) b =
    let rest = scan_back i b in
    elim (get_elem? b i) [ none ↦ rest | some x ↦ if x == newline then some i else rest ]

abbrev pub chunk : ℕ
chunk = 512

-- The loop over the chunks, on fuel; `none` means that the fuel ran out.
unfoldable pub recover_loop : ℕ → ℕ → Str → Option Str
unfolding scan_back
recover_loop zero offset file = none
recover_loop (suc fuel) offset file =
    let b = drop offset file in
    let rest = recover_loop fuel (offset - chunk) file in
    elim (scan_back (length b) b) [
      | some i ↦ some (take (offset + i + 1) file)
      | none ↦ if offset == 0 then some [] else rest
    ]

unfoldable pub ends_in_newline : Str → Bool
ends_in_newline file = elim (get_elem? file (length file - 1)) [
  | none ↦ false
  | some x ↦ x == newline
]

-- The contents that are left; their length is the size that Go returns.
unfoldable pub recover_partial_line : Str → Option Str
unfolding recover_loop ends_in_newline
recover_partial_line [] = some []
recover_partial_line (x ∷ xs) =
    let file = x ∷ xs in
    if ends_in_newline file
    then some file
    else recover_loop (length file + 1) (length file - chunk) file

unfoldable pub open_active_segment : ℕ → Str → Option Segment
open_active_segment path file = elim (recover_partial_line file) [
  | none ↦ none
  | some left ↦ some (record { path = path; bytes = left; size = length left; sealed = false })
]

-- The lines that a bufio.Scanner with ScanLines cuts a file into, before it drops a final '\r'.
abbrev pub push : ℕ → List Str → List Str
push x [] = (x ∷ []) ∷ []
push x (l ∷ ls) = (x ∷ l) ∷ ls

unfoldable pub split_lines : Str → List Str
split_lines [] = []
split_lines (x ∷ xs) = let rest = split_lines xs in if x == newline then [] ∷ rest else push x rest

unfoldable pub drop_cr : Str → Str
drop_cr [] = []
drop_cr (x ∷ []) = if x == 13 then [] else x ∷ []
drop_cr (x ∷ y ∷ l) = x ∷ drop_cr (y ∷ l)

-- A line whose length with its newline is over the limit stops the scanner.
unfoldable pub scan_token : Str → Result Str
unfolding drop_cr
scan_token l = if ltb max_scan_token_size (length l + 1) then err token_too_long else ok (drop_cr l)

-- The end of Append: the size check, the write, and the new size.
unfoldable pub append_bytes : Segment → Str → Result (ℕ × Segment)
append_bytes s b =
    if ltb max_scan_token_size (length b)
    then err record_too_large
    else ok (s.size, record s { bytes = s.bytes ++ b; size = s.size + length b })

module _ (c : Codec) where
  unfoldable pub append : Segment → Entry → Result (ℕ × Segment)
  append s e = if s.sealed then err append_to_sealed else do b ← encode c e; append_bytes s b

  unfoldable pub read_first : List Str → Result Entry
  read_first [] = err empty_at_offset
  read_first (l ∷ _) = do line ← scan_token l; decode c line

  unfoldable pub read_at : Segment → ℕ → Result Entry
  read_at s offset = read_first (split_lines (drop offset s.bytes))

  unfoldable pub scan_all_lines : List Str → Result (List Entry)
  scan_all_lines [] = ok []
  scan_all_lines (l ∷ ls) =
      let rest = scan_all_lines ls in
      scan_token l
      >>= elim [ [] ↦ rest | x ∷ line ↦ (do e ← decode c (x ∷ line); es ← rest; ok (e ∷ es)) ]

  unfoldable pub scan_all : Segment → Result (List Entry)
  scan_all s = scan_all_lines (split_lines s.bytes)

  -- `yield` takes the state that its closure holds, and returns the new one.
  module _ {A : Type 0} (yield : ℕ → Entry → A → Result A) where
    unfoldable pub scan_from_lines : ℕ → List Str → A → Result A
    scan_from_lines off [] a = ok a
    scan_from_lines off (l ∷ ls) a = scan_token l >>= elim [
      | [] ↦ scan_from_lines (off + 1) ls a
      | x ∷ line ↦ (do
        e ← decode c (x ∷ line)
        a' ← yield off e a
        scan_from_lines (off + length (x ∷ line) + 1) ls a')
    ]

    unfoldable pub scan_from : Segment → A → Result A
    scan_from s = scan_from_lines 0 (split_lines s.bytes)

unfoldable pub seal : Segment → Segment
seal s = record s { sealed = true }

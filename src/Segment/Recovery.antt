-- ===== src/Segment/Recovery.antt =====
-- recoverPartialLine of engine/segment.go against a plain description of what it keeps.
use file_dbv.Prelude.{
  ℕ, zero, suc, ◌+◌, ◌-◌, ◌≤◌, ◌<◌, ◌≡◌, ◌≢◌, refl, sym, ap, ◌∙◌, true, false, Bool-cases, inl, inr,
  ◌⊎◌, none, some, [], ◌∷◌, ◌++◌, Str, ◌==◌, nat_eq, length, take, drop, get_elem?, arith,
  nat_beq_iff, subst, All, ◌≡⟨◌⟩◌, ◌∎,
}
use file_dbv.Store.{newline}
use file_dbv.Segment.CompleteLines.{
  complete_lines, IsClean, or_else_append, complete_lines-append, complete_lines-last, take-suc,
  take_all, take-append-drop, take-add, IsClean-append_prefix, no_newline, take-append_short,
}
use file_dbv.Segment.{scan_back, recover_loop, recover_partial_line, ends_in_newline, chunk}

abbrev Found : ℕ → Str → Type 0
Found n b =
    ((scan_back n b ≡ none) × (complete_lines (take n b) ≡ []))
    ⊎ ((i : ℕ) × (scan_back n b ≡ some i) × (i < n) × (complete_lines (take n b) ≡ take (suc i) b))

scan_back_hit :
    (n : ℕ) (b : Str) {x : ℕ}
    → get_elem? b n ≡ some x
    → (x == newline) ≡ true
    → scan_back (suc n) b ≡ some n
unfolding scan_back
scan_back_hit n b at e = ground arith

scan_back_miss :
    (n : ℕ) (b : Str) {x : ℕ}
    → get_elem? b n ≡ some x
    → (x == newline) ≡ false
    → scan_back (suc n) b ≡ scan_back n b
unfolding scan_back
scan_back_miss n b at e = ground arith

skip :
    (n : ℕ) (b : Str) {x : ℕ}
    → get_elem? b n ≡ some x
    → (x == newline) ≡ false
    → take (suc n) b ≡ take n b ++ x ∷ []
    → Found n b
    → Found (suc n) b
skip n b {x} at e cut (inl (missed, nothing)) =
    inl (scan_back_miss n b at e ∙ missed, rw cut (complete_lines-last (take n b) x ∙ rw e nothing))
skip n b {x} at e cut (inr (i, found, below, keeps)) = inr (
  i,
  scan_back_miss n b at e ∙ found,
  omega arith,
  rw cut (complete_lines-last (take n b) x ∙ rw e keeps),
)

-- What `scan_back` finds in the first `n` bytes.
scan_back_lem : (n : ℕ) (b : Str) → n ≤ length b → Found n b
scan_back_lem zero b h = inl (unfold scan_back complete_lines in (refl, refl))
scan_back_lem (suc n) b h =
    let (x, at, cut) = take-suc n b h in
    elim (Bool-cases (x == newline)) [
      | inl e ↦
          inr (
            n,
            scan_back_hit n b at e,
            omega arith,
            rw cut (complete_lines-last (take n b) x ∙ rw e),
          )
      | inr e ↦ skip n b at e cut (scan_back_lem n b (omega arith))
    ]

length-take_pos :
    (i : ℕ) (b : Str) → i < length b → (y : ℕ) × (ys : Str) × (take (suc i) b ≡ y ∷ ys)
length-take_pos i [] h = absurd (omega arith)
length-take_pos i (x ∷ b) h = (x, take i b, refl)

-- The file's complete lines from those of a suffix that has some.
complete_lines_suffix :
    (off i : ℕ) (file : Str)
    → off ≤ length file
    → i < length (drop off file)
    → complete_lines (drop off file) ≡ take (suc i) (drop off file)
    → complete_lines file ≡ take (off + i + 1) file
complete_lines_suffix off i file h below keeps =
    let (y, ys, shape) = length-take_pos i (drop off file) below in
    complete_lines file
    ≡⟨ ap complete_lines (sym (take-append-drop off file)) ⟩
      complete_lines (take off file ++ drop off file)
    ≡⟨ complete_lines-append (take off file) (drop off file) ⟩
      or_else_append (take off file) (complete_lines (take off file))
        (complete_lines (drop off file))
    ≡⟨ ap (or_else_append (take off file) (complete_lines (take off file))) (keeps ∙ shape) ⟩
      take off file ++ y ∷ ys
    ≡⟨ ap (λ (t : Str). take off file ++ t) (sym shape) ⟩
      take off file ++ take (suc i) (drop off file)
    ≡⟨ take-add off (suc i) file h ⟩ take (off + suc i) file
    ≡⟨ ap (λ (n : ℕ). take n file) (omega arith) ⟩ take (off + i + 1) file ∎

module _ (fuel off : ℕ) (file : Str) where
  loop_hit :
      {i : ℕ}
      → scan_back (length (drop off file)) (drop off file) ≡ some i
      → recover_loop (suc fuel) off file ≡ some (take (off + i + 1) file)
  unfolding recover_loop
  loop_hit found = ground arith

  loop_end :
      scan_back (length (drop off file)) (drop off file) ≡ none
      → (off == 0) ≡ true
      → recover_loop (suc fuel) off file ≡ some []
  unfolding recover_loop
  loop_end missed e = ground arith

  loop_more :
      scan_back (length (drop off file)) (drop off file) ≡ none
      → (off == 0) ≡ false
      → recover_loop (suc fuel) off file ≡ recover_loop fuel (off - chunk) file
  unfolding recover_loop
  loop_more missed e = ground arith

recover_loop_lem :
    (fuel off : ℕ) (file : Str)
    → off < fuel
    → off ≤ length file
    → recover_loop fuel off file ≡ some (complete_lines file)
recover_loop_lem zero off file f h = absurd (omega arith)
recover_loop_lem (suc fuel) off file f h =
    elim (scan_back_lem (length (drop off file)) (drop off file) (omega arith)) [
      | inr (i, found, below, keeps) ↦
          loop_hit fuel off file found
          ∙ ap some (
              sym (
                complete_lines_suffix off i file h below
                  (ap complete_lines (sym (take_all (drop off file))) ∙ keeps)))
      | inl (missed, nothing) ↦ elim (Bool-cases (off == 0)) [
        | inl e ↦
            loop_end fuel off file missed e
            ∙ ap some (
                sym (
                  subst (λ (k : ℕ). complete_lines (drop k file) ≡ []) ((nat_beq_iff off 0).0 e)
                    (ap complete_lines (sym (take_all (drop off file))) ∙ nothing)))
        | inr e ↦
            loop_more fuel off file missed e
            ∙ recover_loop_lem fuel (off - chunk) file
                (let pos : off ≢ 0 = λ z. cc ((nat_beq_iff off 0).1 z) in omega arith) (omega arith)
      ]
    ]

last_byte :
    (x : ℕ) (xs : Str) {y : ℕ}
    → ends_in_newline (x ∷ xs) ≡ true
    → get_elem? (x ∷ xs) (length xs) ≡ some y
    → (y == newline) ≡ true
unfolding ends_in_newline
last_byte x xs {y} h at =
    let e : length xs ≡ suc (length xs) - 1 = omega arith in
    let at' : get_elem? (x ∷ xs) (suc (length xs) - 1) ≡ some y =
      subst (λ (k : ℕ). get_elem? (x ∷ xs) k ≡ some y) e at in
    ground arith

clean_end : (file : Str) → ends_in_newline file ≡ true → complete_lines file ≡ file
clean_end [] h = unfold complete_lines in refl
clean_end (x ∷ xs) h =
    let (y, at, cut) = take-suc (length xs) (x ∷ xs) (omega arith) in
    let whole : x ∷ xs ≡ take (length xs) (x ∷ xs) ++ y ∷ [] = sym (take_all (x ∷ xs)) ∙ cut in
    ap complete_lines whole
    ∙ (complete_lines-last (take (length xs) (x ∷ xs)) y ∙ (rw (last_byte x xs h at) (sym whole)))

-- The chunked backward scan of the recovery leaves exactly the prefix of the file up to its last
-- newline, for every file, and its fuel is enough.
pub recover_partial_line_lem : (file : Str) → recover_partial_line file ≡ some (complete_lines file)
unfolding recover_partial_line
recover_partial_line_lem [] = unfold complete_lines in refl
recover_partial_line_lem (x ∷ xs) = elim (Bool-cases (ends_in_newline (x ∷ xs))) [
  | inl e ↦ rw e (ap some (sym (clean_end (x ∷ xs) e)))
  | inr e ↦ rw e (recover_loop_lem _ _ (x ∷ xs) (omega arith) (omega arith))
]

-- When a crash has written only some of the bytes of an encoded line behind complete lines, the
-- recovery at the next open leaves exactly the complete lines that stood there before.
pub recover_torn_append :
    (file line : Str) (k : ℕ)
    → IsClean file
    → All (λ x. 32 ≤ x) line
    → k ≤ length line
    → recover_partial_line (file ++ take k (line ++ newline ∷ [])) ≡ some file
recover_torn_append file line k clean printable short =
    recover_partial_line_lem (file ++ take k (line ++ newline ∷ []))
    ∙ ap some (
        rw (take-append_short k line short)
          (IsClean-append_prefix file (take k line) clean (no_newline line printable k)))

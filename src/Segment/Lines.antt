-- ===== src/Segment/Lines.antt =====
-- How the scanner cuts a segment file into lines, and how appended bytes change that.
use file_dbv.Prelude.{
  ℕ, zero, suc, ◌≤◌, ◌<◌, ◌≡◌, refl, sym, ap, ◌∙◌, Bool-cases, inl, inr, List, [], ◌∷◌, ◌++◌, Str,
  ◌==◌, nat_eq, if◌then◌else◌, length, drop, arith, nat_beq_iff, append_assoc, All, true, Bool,
  false, ◌≡⟨◌⟩◌, ◌∎, drop-append_le,
}
use file_dbv.Store.{newline, Codec}
use file_dbv.Segment.{split_lines, push, drop_cr, read_first}
use file_dbv.Segment.CompleteLines.{complete_lines, IsClean}

abbrev pub IsPrintable : Str → Type 0
IsPrintable = All (λ x. 32 ≤ x)

abbrev pub unlines : List Str → Str
unlines [] = []
unlines (l ∷ ls) = l ++ (newline ∷ unlines ls)

pub unlines-append :
    (ls : List Str) (l : Str) → unlines (ls ++ l ∷ []) ≡ unlines ls ++ (l ++ newline ∷ [])
unlines-append [] l = refl
unlines-append (k ∷ ls) l =
    ap (λ (t : Str). k ++ (newline ∷ t)) (unlines-append ls l)
    ∙ sym (append_assoc k (newline ∷ unlines ls) (l ++ newline ∷ []))

pub split_lines-line :
    (l r : Str) → IsPrintable l → split_lines (l ++ (newline ∷ r)) ≡ l ∷ split_lines r
unfolding split_lines
split_lines-line [] r p = refl
split_lines-line (x ∷ l) r p =
    rw (split_lines-line l r p.1) (ground (arith, nat_beq_iff x newline, p.0))

pub split_lines-unlines :
    (ls : List Str) (r : Str)
    → All IsPrintable ls
    → split_lines (unlines ls ++ r) ≡ ls ++ split_lines r
split_lines-unlines [] r p = refl
split_lines-unlines (l ∷ ls) r p =
    ap split_lines (append_assoc l (newline ∷ unlines ls) r)
    ∙ (split_lines-line l (unlines ls ++ r) p.0
        ∙ ap (λ (t : List Str). l ∷ t) (split_lines-unlines ls r p.1))

pub drop_cr_printable : (l : Str) → IsPrintable l → drop_cr l ≡ l
unfolding drop_cr
drop_cr_printable [] p = refl
drop_cr_printable (x ∷ []) p = ground (arith, nat_beq_iff x 13, p.0)
drop_cr_printable (x ∷ y ∷ l) p = ap (λ (t : Str). x ∷ t) (drop_cr_printable (y ∷ l) p.1)

-- Each part of a clean file behind a position is clean.
IsClean-tail : (x : ℕ) (xs : Str) → IsClean (x ∷ xs) → IsClean xs
unfolding complete_lines
IsClean-tail x [] h = refl
IsClean-tail x (y ∷ ys) h = ground (arith, h)

clean_one : (x : ℕ) → IsClean (x ∷ []) → (x == newline) ≡ true
unfolding complete_lines
clean_one x h = ground (arith, h)

IsClean-drop : (n : ℕ) (file : Str) → IsClean file → IsClean (drop n file)
IsClean-drop zero file h = h
IsClean-drop (suc n) [] h = h
IsClean-drop (suc n) (x ∷ file) h = IsClean-drop n file (IsClean-tail x file h)

abbrev cut_at : ℕ → List Str → List Str
cut_at x ls = if x == newline then [] ∷ ls else push x ls

split_lines-cons : (x : ℕ) (xs : Str) → split_lines (x ∷ xs) ≡ cut_at x (split_lines xs)
unfolding split_lines
split_lines-cons x xs = refl

cut_at_some : (x : ℕ) (ls : List Str) → (k : Str) × (ks : List Str) × (cut_at x ls ≡ k ∷ ks)
cut_at_some x ls = pick (x == newline) ls
  where
    pushed : (ls : List Str) → (k : Str) × (ks : List Str) × (push x ls ≡ k ∷ ks)
    pushed [] = (x ∷ [], [], refl)
    pushed (l ∷ ls) = (x ∷ l, ls, refl)

    pick :
        (b : Bool) (ls : List Str)
        → (k : Str) × (ks : List Str) × ((if b then [] ∷ ls else push x ls) ≡ k ∷ ks)
    pick true ls = ([], ls, refl)
    pick false ls = pushed ls

cut_at-append :
    (x : ℕ) (l : Str) (ls r : List Str) → cut_at x ((l ∷ ls) ++ r) ≡ cut_at x (l ∷ ls) ++ r
cut_at-append x l ls r = elim (Bool-cases (x == newline)) [ inl e ↦ rw e | inr e ↦ rw e ]

split_some : (x : ℕ) (xs : Str) → (l : Str) × (ls : List Str) × (split_lines (x ∷ xs) ≡ l ∷ ls)
split_some x xs = rw (split_lines-cons x xs) (cut_at_some x (split_lines xs))

split_at : (x : ℕ) (xs : Str) → (x == newline) ≡ true → split_lines (x ∷ xs) ≡ [] ∷ split_lines xs
split_at x xs e = split_lines-cons x xs ∙ rw e

-- Bytes behind a clean file add their lines to its lines.
pub split_lines-append :
    (xs ys : Str) → IsClean xs → split_lines (xs ++ ys) ≡ split_lines xs ++ split_lines ys
split_lines-append [] ys h = unfold split_lines in refl
split_lines-append (x ∷ []) ys h =
    let one : split_lines (x ∷ []) ≡ [] ∷ [] =
      split_at x [] (clean_one x h) ∙ (unfold split_lines in refl) in
    split_at x ys (clean_one x h) ∙ ap (λ (t : List Str). t ++ split_lines ys) (sym one)
split_lines-append (x ∷ z ∷ xs) ys h =
    let (l, ls, shape) = split_some z xs in
    split_lines (x ∷ z ∷ (xs ++ ys))
    ≡⟨ split_lines-cons x (z ∷ (xs ++ ys)) ⟩ cut_at x (split_lines ((z ∷ xs) ++ ys))
    ≡⟨ ap (cut_at x) (split_lines-append (z ∷ xs) ys (IsClean-tail x (z ∷ xs) h)) ⟩
      cut_at x (split_lines (z ∷ xs) ++ split_lines ys)
    ≡⟨ ap (λ (t : List Str). cut_at x (t ++ split_lines ys)) shape ⟩
      cut_at x ((l ∷ ls) ++ split_lines ys)
    ≡⟨ cut_at-append x l ls (split_lines ys) ⟩ cut_at x (l ∷ ls) ++ split_lines ys
    ≡⟨ ap (λ (t : List Str). cut_at x t ++ split_lines ys) (sym shape) ⟩
      cut_at x (split_lines (z ∷ xs)) ++ split_lines ys
    ≡⟨ ap (λ (t : List Str). t ++ split_lines ys) (sym (split_lines-cons x (z ∷ xs))) ⟩
      split_lines (x ∷ z ∷ xs) ++ split_lines ys ∎

drop_some :
    (off : ℕ) (file : Str) → off < length file → (x : ℕ) × (xs : Str) × (drop off file ≡ x ∷ xs)
drop_some off [] h = absurd (omega arith)
drop_some zero (x ∷ file) h = (x, file, refl)
drop_some (suc off) (x ∷ file) h = drop_some off file (omega arith)

read_first_head :
    (c : Codec) (l : Str) (ls r : List Str) → read_first c ((l ∷ ls) ++ r) ≡ read_first c (l ∷ ls)
unfolding read_first
read_first_head c l ls r = refl

-- A read inside a clean file does not see what is appended.
pub read_first-append :
    (c : Codec) (off : ℕ) (file b : Str)
    → IsClean file
    → off < length file
    → read_first c (split_lines (drop off (file ++ b))) ≡ read_first c (split_lines (drop off file))
read_first-append c off file b clean below =
    let (x, xs, there) = drop_some off file below in
    let (l, ls, shape) = split_some x xs in
    let lines : split_lines (drop off file) ≡ l ∷ ls = ap split_lines there ∙ shape in
    ap (λ (t : Str). read_first c (split_lines t)) (drop-append_le off file b (omega arith))
    ∙ (ap (read_first c) (split_lines-append (drop off file) b (IsClean-drop off file clean))
        ∙ (ap (λ (t : List Str). read_first c (t ++ split_lines b)) lines
            ∙ (read_first_head c l ls (split_lines b) ∙ ap (read_first c) (sym lines))))

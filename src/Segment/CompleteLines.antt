-- ===== src/Segment/CompleteLines.antt =====
-- The complete lines of a file: what stands up to its last newline.
use file_dbv.Prelude.{
  append-nil, ℕ, zero, suc, ◌+◌, ◌≤◌, ◌<◌, ◌≡◌, refl, sym, ap, ◌∙◌, Bool-cases, inl, inr, some, [],
  ◌∷◌, ◌++◌, Str, ◌==◌, nat_eq, if◌then◌else◌, length, take, drop, get_elem?, arith, nat_beq_iff,
  append_assoc, All,
}
use native.Mathlib.Nat.{zero-add, suc-add}
use file_dbv.Store.{newline}

-- The file without what follows its last newline.
abbrev pub keep_after : ℕ → Str → Str
keep_after x [] = if x == newline then x ∷ [] else []
keep_after x (y ∷ ys) = x ∷ y ∷ ys

unfoldable pub complete_lines : Str → Str
complete_lines [] = []
complete_lines (x ∷ xs) = keep_after x (complete_lines xs)

-- A file whose lines are all complete.
abbrev pub IsClean : Str → Type 0
IsClean file = complete_lines file ≡ file

abbrev pub or_else_append : Str → Str → Str → Str
or_else_append xs before [] = before
or_else_append xs before (y ∷ ys) = xs ++ y ∷ ys

keep_else :
    (x : ℕ) (xs before ys : Str)
    → keep_after x (or_else_append xs before ys) ≡ or_else_append (x ∷ xs) (keep_after x before) ys
keep_else x xs before [] = refl
keep_else x [] before (y ∷ ys) = refl
keep_else x (z ∷ xs) before (y ∷ ys) = refl

pub complete_lines-append :
    (xs ys : Str)
    → complete_lines (xs ++ ys) ≡ or_else_append xs (complete_lines xs) (complete_lines ys)
unfolding complete_lines
complete_lines-append [] [] = refl
complete_lines-append [] (y ∷ ys) = nothing_before (complete_lines (y ∷ ys))
  where
    nothing_before : (zs : Str) → zs ≡ or_else_append [] [] zs
    nothing_before [] = refl
    nothing_before (z ∷ zs) = refl
complete_lines-append (x ∷ xs) ys =
    rw (complete_lines-append xs ys) (keep_else x xs (complete_lines xs) (complete_lines ys))

pub complete_lines-last :
    (xs : Str) (x : ℕ)
    → complete_lines (xs ++ x ∷ []) ≡ (if x == newline then xs ++ x ∷ [] else complete_lines xs)
complete_lines-last xs x = complete_lines-append xs (x ∷ []) ∙ elim (Bool-cases (x == newline)) [
  | inl e ↦ (unfold complete_lines in rw e)
  | inr e ↦ (unfold complete_lines in rw e)
]

pub take-suc :
    (n : ℕ) (b : Str)
    → n < length b
    → (x : ℕ) × (get_elem? b n ≡ some x) × (take (suc n) b ≡ take n b ++ x ∷ [])
take-suc n [] h = absurd (omega arith)
take-suc zero (x ∷ b) h = (x, refl, refl)
take-suc (suc n) (y ∷ b) h =
    let (x, at, cut) = take-suc n b (omega arith) in (x, at, ap (λ (t : Str). y ∷ t) cut)

pub take_all : (b : Str) → take (length b) b ≡ b
take_all [] = refl
take_all (x ∷ b) = ap (λ (t : Str). x ∷ t) (take_all b)

pub take-append-drop : (n : ℕ) (b : Str) → take n b ++ drop n b ≡ b
take-append-drop zero b = refl
take-append-drop (suc n) [] = refl
take-append-drop (suc n) (x ∷ b) = ap (λ (t : Str). x ∷ t) (take-append-drop n b)

pub take-add : (n m : ℕ) (b : Str) → n ≤ length b → take n b ++ take m (drop n b) ≡ take (n + m) b
take-add zero m b h = rw zero-add
take-add (suc n) m [] h = absurd (omega arith)
take-add (suc n) m (x ∷ b) h = rw suc-add (ap (λ (t : Str). x ∷ t) (take-add n m b (omega arith)))

pub IsClean-append_prefix :
    (file b : Str) → IsClean file → complete_lines b ≡ [] → complete_lines (file ++ b) ≡ file
IsClean-append_prefix file b clean torn = complete_lines-append file b ∙ rw torn clean

pub no_newline : (line : Str) → All (λ x. 32 ≤ x) line → (k : ℕ) → complete_lines (take k line) ≡ []
unfolding complete_lines
no_newline line p zero = refl
no_newline [] p (suc k) = refl
no_newline (x ∷ line) p (suc k) =
    rw (no_newline line p.1 k) (ground (arith, nat_beq_iff x newline, p.0))

pub take-append_short :
    (k : ℕ) (line : Str) → k ≤ length line → take k (line ++ newline ∷ []) ≡ take k line
take-append_short zero line h = refl
take-append_short (suc k) [] h = absurd (omega arith)
take-append_short (suc k) (x ∷ line) h =
    ap (λ (t : Str). x ∷ t) (take-append_short k line (omega arith))

-- A complete line behind complete lines is kept.
pub IsClean-append_line : (file line : Str) → IsClean (file ++ (line ++ newline ∷ []))
IsClean-append_line file line =
    ap complete_lines (sym (append_assoc file line (newline ∷ [])))
    ∙ (complete_lines-last (file ++ line) newline ∙ append_assoc file line (newline ∷ []))

or_else_append_same : (xs ys : Str) → or_else_append xs xs ys ≡ xs ++ ys
or_else_append_same xs [] = sym (append-nil xs)
or_else_append_same xs (y ∷ ys) = refl

pub IsClean-append : (xs ys : Str) → IsClean xs → IsClean ys → IsClean (xs ++ ys)
IsClean-append xs ys hx hy = complete_lines-append xs ys ∙ (rw (hx, hy) (or_else_append_same xs ys))

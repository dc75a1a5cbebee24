-- ===== src/Manifest/Swap.antt =====
-- A crash at any point of the swap of engine/compactor.go, or of its recovery, and recoverCompaction
-- of engine/compact_manifest.go.
use file_dbv.Prelude.{
  ◌≡◌, ◌≢◌, refl, sym, ap, ◌∙◌, subst, Bool, true, false, Bool-cases, Option, Option-cases, none,
  some, List, [], ◌∷◌, Str, lookup, delete, lookup-delete, lookup-insert, ◌==◌, if◌then◌else◌,
  arith, inl, inr, ◌⊎◌, All,
}
use file_dbv.Manifest.{
  FileName, Files, CompactManifest, name_eq, name_beq_iff, rename, roll_forward, remove_all,
  is_temp, discard_compact_temps, recover_compaction, swap_files,
}
use file_dbv.Manifest.Settled.{
  source_of, listed, IsSwap, IsManifest, beq_other, renamed_to, settled, source_of-All, All-temps,
  different, renamed_to-elsewhere, source_of-other, roll_forward_lem, lookup-renamed,
}

lookup-remove_all :
    (xs : List FileName) (fs : Files) (x : FileName)
    → lookup x (remove_all xs fs) ≡ (if listed x xs then none else lookup x fs)
unfolding remove_all listed
lookup-remove_all [] fs x = refl
lookup-remove_all (y ∷ ys) fs x =
    ground (arith, lookup-remove_all ys (delete y fs) x, lookup-delete y x fs)

lookup-discard :
    (fs : Files) (x : FileName)
    → lookup x (discard_compact_temps fs) ≡ (if is_temp x then none else lookup x fs)
unfolding discard_compact_temps lookup
lookup-discard [] x = ground arith
lookup-discard ((y, b) ∷ fs) x = ground (arith, lookup-discard fs x, name_beq_iff y x)

-- A pass of the recovery settles the directory.
recover_compaction-settled :
    (m : CompactManifest) (fs : Files) (x : FileName)
    → IsManifest m
    → lookup x (recover_compaction (some m) fs).1 ≡ settled m fs x
unfolding recover_compaction
recover_compaction-settled m fs x h =
    lookup-discard (remove_all m.removals (roll_forward m.renames fs)) x ∙ over (is_temp x) refl
  where
    over :
        (b : Bool)
        → is_temp x ≡ b
        → (if b then none else lookup x (remove_all m.removals (roll_forward m.renames fs))) ≡ (
            if b
            then none
            else if listed x m.removals
            then none
            else renamed_to (source_of x m.renames) x fs)
    over true e = refl
    over false e =
        rw
          (
            lookup-remove_all m.removals (roll_forward m.renames fs) x,
            roll_forward_lem m.renames fs x h.swap e,
          )
          refl

-- One file operation of the swap or of a recovery, in any order.
pub data SwapStep (m : CompactManifest) (fs : Files) : Files → Type 0 where
  renames :
      (src dst : FileName) → source_of dst m.renames ≡ some src → SwapStep m fs (rename src dst fs)
  removes : (x : FileName) → listed x m.removals ≡ true → SwapStep m fs (delete x fs)
  discards :
      (x : FileName)
      → is_temp x ≡ true
      → ((dst : FileName) → source_of dst m.renames ≢ some x)
      → SwapStep m fs (delete x fs)

-- The states that a crash can leave.
pub data SwapReaches (m : CompactManifest) (fs : Files) : Files → Type 0 where
  here : SwapReaches m fs fs
  then_step :
      (fs' fs'' : Files) → SwapReaches m fs fs' → SwapStep m fs' fs'' → SwapReaches m fs fs''

deleted_elsewhere :
    (o : Option FileName) (x y : FileName) (fs : Files)
    → x ≢ y
    → ((src : FileName) → o ≡ some src → src ≢ y)
    → renamed_to o x (delete y fs) ≡ renamed_to o x fs
deleted_elsewhere none x y fs other sources = ground (arith, lookup-delete y x fs, name_beq_iff y x)
deleted_elsewhere (some src) x y fs other sources =
    rw (kept x other, kept src (sources src refl)) refl
  where
    kept : (z : FileName) → z ≢ y → lookup z (delete y fs) ≡ lookup z fs
    kept z ne = ground (arith, lookup-delete y z fs, name_beq_iff y z)

-- Under the same two tests, the files are settled in the same way.
settled-same :
    (m : CompactManifest) (fs fs' : Files) (x : FileName)
    → (is_temp x ≡ false
        → listed x m.removals ≡ false
        → renamed_to (source_of x m.renames) x fs' ≡ renamed_to (source_of x m.renames) x fs)
    → settled m fs' x ≡ settled m fs x
settled-same m fs fs' x same = over (is_temp x) (listed x m.removals) same
  where
    over :
        (t l : Bool)
        → (t ≡ false
            → l ≡ false
            → renamed_to (source_of x m.renames) x fs' ≡ renamed_to (source_of x m.renames) x fs)
        → (if t then none else if l then none else renamed_to (source_of x m.renames) x fs')
          ≡ (if t then none else if l then none else renamed_to (source_of x m.renames) x fs)
    over true l h = refl
    over false true h = refl
    over false false h = h refl refl

listed_once :
    (x y : FileName) (xs : List FileName) → listed x xs ≡ false → listed y xs ≡ true → x ≢ y
listed_once x y xs p q same = cc

All-segments :
    (rs : List (FileName × FileName))
    → IsSwap rs
    → All (λ (r : FileName × FileName). is_temp r.1 ≡ false) rs
All-segments [] h = tt
All-segments ((s, d) ∷ rs) (from_temp, to_segment, others, rest) =
    (to_segment, All-segments rs rest)

renamed_to-here :
    (src dst : FileName) (fs : Files)
    → src ≢ dst
    → renamed_to (some src) dst (rename src dst fs) ≡ renamed_to (some src) dst fs
unfolding rename
renamed_to-here src dst fs other = elim (Option-cases (lookup src fs)) [
  | inl at ↦ rw (rename, at) (rw at refl)
  | inr (b, at) ↦ rw (lookup-renamed src dst fs other, gone b at, at) refl
]
  where
    gone : (b : Str) → lookup src fs ≡ some b → lookup src (rename src dst fs) ≡ none
    gone b at =
        rw (rename, at)
          (ground (
            arith,
            lookup-insert dst src b (delete src fs),
            lookup-delete src src fs,
            name_beq_iff dst src,
            name_beq_iff src src,
          ))

renames-renamed_to :
    (m : CompactManifest) (src dst x : FileName) (fs : Files)
    → IsManifest m
    → source_of dst m.renames ≡ some src
    → is_temp x ≡ false
    → ((dst == x) ≡ true) ⊎ ((dst == x) ≡ false)
    → renamed_to (source_of x m.renames) x (rename src dst fs)
      ≡ renamed_to (source_of x m.renames) x fs
renames-renamed_to m src dst x fs h found is_segment (inl e) =
    let same = (name_beq_iff dst x).0 e in
    subst
      (λ (y : FileName).
        renamed_to (source_of y m.renames) y (rename src dst fs)
        ≡ renamed_to (source_of y m.renames) y fs)
      same
      (rw found (
        renamed_to-here src dst fs (
          different
            (source_of-All (λ r. is_temp r.0 ≡ true) dst m.renames src (All-temps m.renames h.swap)
              found)
            (rw same is_segment))))
renames-renamed_to m src dst x fs h found is_segment (inr e) =
    let other = beq_other dst x e in
    renamed_to-elsewhere (source_of x m.renames) x src dst fs
      (source_of-All (λ r. is_temp r.0 ≡ true) dst m.renames src (All-temps m.renames h.swap) found)
      (source_of-All (λ r. is_temp r.1 ≡ false) dst m.renames src (All-segments m.renames h.swap)
        found)
      is_segment other (λ s at. source_of-other m.renames src dst x s h.swap found other at)

SwapStep-settled :
    (m : CompactManifest) (fs fs' : Files) (x : FileName)
    → IsManifest m
    → SwapStep m fs fs'
    → settled m fs' x ≡ settled m fs x
SwapStep-settled m fs _ x h (renames src dst found) =
    settled-same m fs (rename src dst fs) x (λ is_segment unlisted.
      renames-renamed_to m src dst x fs h found is_segment (Bool-cases (dst == x)))
SwapStep-settled m fs _ x h (removes y gone) =
    settled-same m fs (delete y fs) x (λ is_segment unlisted.
      deleted_elsewhere (source_of x m.renames) x y fs
        (λ same. absurd (listed_once x y m.removals unlisted gone same))
        (λ src at.
          different
            (source_of-All (λ r. is_temp r.0 ≡ true) x m.renames src (All-temps m.renames h.swap)
              at)
            (h.removes_segments y gone)))
SwapStep-settled m fs _ x h (discards y temp unused) =
    settled-same m fs (delete y fs) x (λ is_segment unlisted.
      deleted_elsewhere (source_of x m.renames) x y fs (λ e. different temp is_segment (sym e))
        (λ src at same. unused x (at ∙ ap some same)))

SwapReaches-settled :
    (m : CompactManifest) (fs fs' : Files) (x : FileName)
    → IsManifest m
    → SwapReaches m fs fs'
    → settled m fs' x ≡ settled m fs x
SwapReaches-settled m fs _ x h here = refl
SwapReaches-settled m fs _ x h (then_step fs' fs'' before step) =
    SwapStep-settled m fs' fs'' x h step ∙ SwapReaches-settled m fs fs' x h before

-- The swap that is not interrupted leaves the same segments.
swap_files-settled :
    (m : CompactManifest) (fs : Files) (x : FileName)
    → IsManifest m
    → is_temp x ≡ false
    → lookup x (swap_files m fs) ≡ settled m fs x
unfolding swap_files
swap_files-settled m fs x h is_segment =
    lookup-remove_all m.removals (roll_forward m.renames fs) x
    ∙ (rw (is_segment, roll_forward_lem m.renames fs x h.swap is_segment) refl)

-- For a manifest that renames temp files to segments, uses no name twice, and removes only
-- segments that are no destination: from whatever state its renames, its removals and the
-- discarding of other temp files leave, in any order and with any interruption, the recovery
-- leaves the segment files that the uninterrupted swap leaves, and no temp file.
pub recover_compaction_lem :
    (m : CompactManifest) (fs fs' : Files) (x : FileName)
    → IsManifest m
    → SwapReaches m fs fs'
    → lookup x (recover_compaction (some m) fs').1
      ≡ (if is_temp x then none else lookup x (swap_files m fs))
recover_compaction_lem m fs fs' x h run =
    recover_compaction-settled m fs' x h
    ∙ (SwapReaches-settled m fs fs' x h run ∙ over (is_temp x) refl)
  where
    over :
        (b : Bool)
        → is_temp x ≡ b
        → (if b
            then none
            else if listed x m.removals
            then none
            else renamed_to (source_of x m.renames) x fs)
          ≡ (if b then none else lookup x (swap_files m fs))
    over true e = refl
    over false e = sym (swap_files-settled m fs x h e ∙ (rw e refl))

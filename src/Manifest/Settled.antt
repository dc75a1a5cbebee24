-- ===== src/Manifest/Settled.antt =====
-- What a directory holds once the swap of engine/compactor.go has been carried through.
use file_dbv.Prelude.{
  ◌≡◌, ◌≢◌, refl, sym, ◌∙◌, subst, Bool, true, false, Bool-cases, Option, Option-cases, none, some,
  List, [], ◌∷◌, Str, lookup, delete, lookup-delete, lookup-insert, ◌==◌, if◌then◌else◌, arith, inl,
  inr, ◌⊎◌, All,
}
use file_dbv.Manifest.{
  FileName, Files, CompactManifest, name_eq, name_beq_iff, rename, roll_forward, is_temp,
}

-- The source of the rename to a name.
unfoldable pub source_of : FileName → List (FileName × FileName) → Option FileName
source_of x [] = none
source_of x ((src, dst) ∷ rs) = let rest = source_of x rs in if dst == x then some src else rest

unfoldable pub listed : FileName → List FileName → Bool
listed x [] = false
listed x (y ∷ ys) = let rest = listed x ys in if y == x then true else rest

-- Temp files are renamed to segments, with no name used twice.
abbrev pub IsSwap : List (FileName × FileName) → Type 0
IsSwap [] = Unit
IsSwap ((src, dst) ∷ rs) =
    (is_temp src ≡ true)
    × (is_temp dst ≡ false)
    × All (λ (r : FileName × FileName). (r.0 ≢ src) × (r.1 ≢ dst)) rs
    × IsSwap rs

-- Besides, only segments are removed, and none of them is the destination of a rename.
pub record IsManifest (m : CompactManifest) : Type 0 where
  pub swap : IsSwap m.renames
  pub removes_segments : (x : FileName) → listed x m.removals ≡ true → is_temp x ≡ false
  pub disjoint : (x src : FileName) → source_of x m.renames ≡ some src → listed x m.removals ≡ false

abbrev pub first_of : Option Str → Option Str → Option Str
first_of none b = b
first_of (some a) b = some a

abbrev pub renamed_to : Option FileName → FileName → Files → Option Str
renamed_to none x fs = lookup x fs
renamed_to (some src) x fs = first_of (lookup src fs) (lookup x fs)

abbrev pub settled : CompactManifest → Files → FileName → Option Str
settled m fs x =
    if is_temp x
    then none
    else if listed x m.removals
    then none
    else renamed_to (source_of x m.renames) x fs

some_inj : {a b : FileName} → some a ≡ some b → a ≡ b
some_inj h = cc

pub source_of-here :
    (s d x : FileName) (rs : List (FileName × FileName))
    → (d == x) ≡ true
    → source_of x ((s, d) ∷ rs) ≡ some s
unfolding source_of
source_of-here s d x rs e = rw e refl

pub source_of-there :
    (s d x : FileName) (rs : List (FileName × FileName))
    → (d == x) ≡ false
    → source_of x ((s, d) ∷ rs) ≡ source_of x rs
unfolding source_of
source_of-there s d x rs e = rw e refl

pub source_of-All :
    (P : FileName × FileName → Type 0) (x : FileName) (rs : List (FileName × FileName))
    (src : FileName)
    → All P rs
    → source_of x rs ≡ some src
    → P (src, x)
unfolding source_of
source_of-All P x [] src h at = cc
source_of-All P x ((s, d) ∷ rs) src (first, rest) at = elim (Bool-cases (d == x)) [
  | inl e ↦
      let same_dst : d ≡ x = (name_beq_iff d x).0 e in
      let same_src : s ≡ src = some_inj (sym (rw e refl) ∙ at) in
      subst (λ (y : FileName). P (src, y)) same_dst
        (subst (λ (y : FileName). P (y, d)) same_src first)
  | inr e ↦ source_of-All P x rs src rest (sym (rw e refl) ∙ at)
]

pub lookup-rename :
    (x src dst : FileName) (fs : Files)
    → x ≢ src
    → x ≢ dst
    → lookup x (rename src dst fs) ≡ lookup x fs
unfolding rename
lookup-rename x src dst fs other_src other_dst = elim (Option-cases (lookup src fs)) [
  | inl at ↦ rw (rename, at) refl
  | inr (b, at) ↦
      rw (rename, at)
        (ground (
          arith,
          lookup-insert dst x b (delete src fs),
          lookup-delete src x fs,
          name_beq_iff dst x,
          name_beq_iff src x,
        ))
]

pub lookup-renamed :
    (src dst : FileName) (fs : Files)
    → src ≢ dst
    → lookup dst (rename src dst fs) ≡ first_of (lookup src fs) (lookup dst fs)
unfolding rename
lookup-renamed src dst fs other = elim (Option-cases (lookup src fs)) [
  | inl at ↦ rw (rename, at) refl
  | inr (b, at) ↦
      rw (rename, at)
        (ground (arith, lookup-insert dst dst b (delete src fs), name_beq_iff dst dst))
]

pub beq_other : (d x : FileName) → (d == x) ≡ false → x ≢ d
beq_other d x e same = absurd (ground (arith, name_beq_iff d x, sym same))

pub different : {a b : FileName} → is_temp a ≡ true → is_temp b ≡ false → a ≢ b
different p q e = cc

-- A rename leaves alone what the others will bring.
pub renamed_to-elsewhere :
    (o : Option FileName) (x s d : FileName) (fs : Files)
    → is_temp s ≡ true
    → is_temp d ≡ false
    → is_temp x ≡ false
    → x ≢ d
    → ((src : FileName) → o ≡ some src → (is_temp src ≡ true) × (src ≢ s))
    → renamed_to o x (rename s d fs) ≡ renamed_to o x fs
renamed_to-elsewhere none x s d fs from_temp to_segment is_segment other sources =
    lookup-rename x s d fs (λ e. different from_temp is_segment (sym e)) other
renamed_to-elsewhere (some src) x s d fs from_temp to_segment is_segment other sources =
    let (src_temp, src_other) = sources src refl in
    rw
      (
        lookup-rename x s d fs (λ e. different from_temp is_segment (sym e)) other,
        lookup-rename src s d fs src_other (different src_temp to_segment),
      )
      refl

no_source : (d s : FileName) → source_of d [] ≢ some s
unfolding source_of
no_source d s e = cc

pub All-temps :
    (rs : List (FileName × FileName))
    → IsSwap rs
    → All (λ (r : FileName × FileName). is_temp r.0 ≡ true) rs
All-temps [] h = tt
All-temps ((s, d) ∷ rs) (from_temp, to_segment, others, rest) = (from_temp, All-temps rs rest)

unlisted :
    (rs : List (FileName × FileName)) (s d : FileName)
    → All (λ (r : FileName × FileName). (r.0 ≢ s) × (r.1 ≢ d)) rs
    → source_of d rs ≡ none
unlisted rs s d others = elim (Option-cases (source_of d rs)) [
  | inl none_found ↦ none_found
  | inr (src, found) ↦
      absurd ((source_of-All (λ r. (r.0 ≢ s) × (r.1 ≢ d)) d rs src others found).1 refl)
]

-- The source of a rename to another name is a temp file of its own.
pub source_of-other :
    (rs : List (FileName × FileName)) (s d x src : FileName)
    → IsSwap rs
    → source_of d rs ≡ some s
    → x ≢ d
    → source_of x rs ≡ some src
    → (is_temp src ≡ true) × (src ≢ s)
source_of-other [] s d x src h from other at = absurd (no_source d s from)
source_of-other ((a, b) ∷ rs) s d x src (temp_a, segment_b, others, rest) from other at =
    cases (Bool-cases (b == d)) (Bool-cases (b == x)) (source_of-other rs s d x src rest)
  where
    later : (y t : FileName) → source_of y rs ≡ some t → (is_temp t ≡ true) × (t ≢ a)
    later y t found = (
      source_of-All (λ r. is_temp r.0 ≡ true) y rs t (All-temps rs rest) found,
      (source_of-All (λ r. (r.0 ≢ a) × (r.1 ≢ b)) y rs t others found).0,
    )

    cases :
        ((b == d) ≡ true) ⊎ ((b == d) ≡ false)
        → ((b == x) ≡ true) ⊎ ((b == x) ≡ false)
        → (source_of d rs ≡ some s
            → x ≢ d
            → source_of x rs ≡ some src
            → (is_temp src ≡ true) × (src ≢ s))
        → (is_temp src ≡ true) × (src ≢ s)
    cases (inl e) (inl e') again =
        absurd (other (sym ((name_beq_iff b x).0 e') ∙ (name_beq_iff b d).0 e))
    cases (inl e) (inr e') again =
        let same : a ≡ s = some_inj (sym (source_of-here a b d rs e) ∙ from) in
        let (is, not_a) = later x src (sym (source_of-there a b x rs e') ∙ at) in
        (is, λ eq. not_a (eq ∙ sym same))
    cases (inr e) (inl e') again =
        let same : a ≡ src = some_inj (sym (source_of-here a b x rs e') ∙ at) in
        let (is, not_a) = later d s (sym (source_of-there a b d rs e) ∙ from) in
        (subst (λ (y : FileName). is_temp y ≡ true) same temp_a, λ eq. not_a (sym eq ∙ sym same))
    cases (inr e) (inr e') again =
        again (sym (source_of-there a b d rs e) ∙ from) other
          (sym (source_of-there a b x rs e') ∙ at)

pub roll_forward_lem :
    (rs : List (FileName × FileName)) (fs : Files) (x : FileName)
    → IsSwap rs
    → is_temp x ≡ false
    → lookup x (roll_forward rs fs) ≡ renamed_to (source_of x rs) x fs
unfolding roll_forward
roll_forward_lem [] fs x h is_segment = unfold source_of in refl
roll_forward_lem ((s, d) ∷ rs) fs x (from_temp, to_segment, others, rest) is_segment =
    roll_forward_lem rs (rename s d fs) x rest is_segment ∙ after (Bool-cases (d == x))
  where
    after :
        ((d == x) ≡ true) ⊎ ((d == x) ≡ false)
        → renamed_to (source_of x rs) x (rename s d fs)
          ≡ renamed_to (source_of x ((s, d) ∷ rs)) x fs
    after (inl e) =
        subst
          (λ (y : FileName).
            renamed_to (source_of y rs) y (rename s d fs)
            ≡ renamed_to (source_of y ((s, d) ∷ rs)) y fs)
          ((name_beq_iff d x).0 e)
          (rw (unlisted rs s d others, source_of-here s d d rs ((name_beq_iff d d).1 refl))
            (lookup-renamed s d fs (different from_temp to_segment)))
    after (inr e) = rw (source_of-there s d x rs e) (
        renamed_to-elsewhere (source_of x rs) x s d fs from_temp to_segment is_segment
          (beq_other d x e)
          (λ src at. (
            source_of-All (λ r. is_temp r.0 ≡ true) x rs src (All-temps rs rest) at,
            (source_of-All (λ r. (r.0 ≢ s) × (r.1 ≢ d)) x rs src others at).0,
          )))

-- ===== src/Manifest.antt =====
-- engine/compact_manifest.go and the swap of engine/compactor.go: the segment files that a
-- compaction renames and removes. `Files` are the regular files of the collection's directory.
pub mod Settled
pub mod Swap
pub mod Tests
use file_dbv.Prelude.{
  ℕ, ◌≡◌, ◌≢◌, ◌↔◌, refl, Bool, true, false, not, Option, none, some, List, [], ◌∷◌, ◌++◌, Str, Map,
  lookup, delete, insert as put, nat_beq, nat_beq_iff, Eq, ◌==◌, if◌then◌else◌, arith,
}

-- `seg_%06d.ndjson`, `.compact_%06d.ndjson` and `.compact_%06d.ndjson.merge`.
pub data FileName : Type 0 where
  segment temp merged : ℕ → FileName

abbrev pub name_beq : FileName → FileName → Bool
name_beq (segment a) (segment b) = nat_beq a b
name_beq (temp a) (temp b) = nat_beq a b
name_beq (merged a) (merged b) = nat_beq a b
name_beq _ _ = false

pub name_beq_iff : (a b : FileName) → (name_beq a b ≡ true) ↔ (a ≡ b)
name_beq_iff (segment a) (segment b) = ground (arith, nat_beq_iff a b)
name_beq_iff (segment a) (temp b) = ground arith
name_beq_iff (segment a) (merged b) = ground arith
name_beq_iff (temp a) (segment b) = ground arith
name_beq_iff (temp a) (temp b) = ground (arith, nat_beq_iff a b)
name_beq_iff (temp a) (merged b) = ground arith
name_beq_iff (merged a) (segment b) = ground arith
name_beq_iff (merged a) (temp b) = ground arith
name_beq_iff (merged a) (merged b) = ground (arith, nat_beq_iff a b)

instance abbrev pub name_eq : Eq FileName
name_eq = record { beq = name_beq; beq_iff = name_beq_iff }

abbrev pub Files : Type 0
Files = Map FileName Str

-- The source and the destination of each rename, in the order in which the map is walked.
pub record CompactManifest : Type 0 where
  pub renames : List (FileName × FileName)
  pub removals : List FileName

-- The file replaces one that has the new name. A source that is missing was renamed before.
unfoldable pub rename : FileName → FileName → Files → Files
rename src dst fs = elim (lookup src fs) [ none ↦ fs | some b ↦ put dst b (delete src fs) ]

unfoldable pub roll_forward : List (FileName × FileName) → Files → Files
unfolding rename
roll_forward [] fs = fs
roll_forward ((src, dst) ∷ rs) fs = roll_forward rs (rename src dst fs)

unfoldable pub remove_all : List FileName → Files → Files
remove_all [] fs = fs
remove_all (x ∷ xs) fs = remove_all xs (delete x fs)

abbrev pub is_temp : FileName → Bool
is_temp (segment n) = false
is_temp (temp n) = true
is_temp (merged n) = true

unfoldable pub discard_compact_temps : Files → Files
discard_compact_temps [] = []
discard_compact_temps ((x, b) ∷ fs) =
    let rest = discard_compact_temps fs in if is_temp x then rest else (x, b) ∷ rest

-- What the pass itself does under the write lock.
unfoldable pub swap_files : CompactManifest → Files → Files
unfolding roll_forward remove_all
swap_files m fs = remove_all m.removals (roll_forward m.renames fs)

-- Whether a manifest was found, and the files; it is cleared at the end.
unfoldable pub recover_compaction : Option CompactManifest → Files → Bool × Files
unfolding roll_forward remove_all discard_compact_temps
recover_compaction none fs = (false, discard_compact_temps fs)
recover_compaction (some m) fs =
    (true, discard_compact_temps (remove_all m.removals (roll_forward m.renames fs)))

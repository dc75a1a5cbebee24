-- ===== src/Manifest/Tests.antt =====
-- Runs of the model of engine/compact_manifest.go: two segments are merged into one, and the process
-- is killed after the rename.
use file_dbv.Prelude.{
  ◌≡◌, refl, true, false, none, some, [], ◌∷◌, lookup, if◌then◌else◌, codes, arith,
}
use file_dbv.Manifest.{
  FileName, segment, temp, merged, Files, CompactManifest, name_eq, rename, is_temp,
  recover_compaction, swap_files,
}
use file_dbv.Manifest.Settled.{source_of, listed, IsManifest}
use file_dbv.Manifest.Swap.{here, then_step, renames, recover_compaction_lem}

abbrev one_merge : CompactManifest
one_merge = record { renames = (temp 1, segment 1) ∷ []; removals = segment 2 ∷ [] }

removes_a_segment : (x : FileName) → listed x one_merge.removals ≡ true → is_temp x ≡ false
unfolding listed
removes_a_segment (segment n) h = refl
removes_a_segment (temp n) h = absurd cc
removes_a_segment (merged n) h = absurd cc

keeps_the_destination :
    (x src : FileName)
    → source_of x one_merge.renames ≡ some src
    → listed x one_merge.removals ≡ false
unfolding source_of listed
keeps_the_destination (segment n) src h = ground arith
keeps_the_destination (temp n) src h = absurd cc
keeps_the_destination (merged n) src h = absurd cc

one_merge-IsManifest : IsManifest one_merge
unfolding source_of listed
one_merge-IsManifest = record {
  swap = (refl, refl, tt, tt);
  removes_segments = removes_a_segment;
  disjoint = keeps_the_destination;
}

abbrev three_files : Files
three_files =
    (segment 1, codes "a")
    ∷ (segment 2, codes "b")
    ∷ (temp 1, codes "c")
    ∷ (segment 3, codes "d")
    ∷ []

recover_compaction_lem_example :
    lookup
      (segment 1)
      (recover_compaction (some one_merge) (rename (temp 1) (segment 1) three_files)).1
    ≡ (if is_temp (segment 1) then none else lookup (segment 1) (swap_files one_merge three_files))
unfolding source_of
recover_compaction_lem_example =
    recover_compaction_lem one_merge three_files (rename (temp 1) (segment 1) three_files)
      (segment 1) one_merge-IsManifest
      (then_step three_files (rename (temp 1) (segment 1) three_files) here
        (renames (temp 1) (segment 1) refl))

-- ===== src/Sidx/Tests.antt =====
-- Runs of the model of engine/secondary_index.go.
use file_dbv.Prelude.{refl, true, codes, lookup}
use file_dbv.Json.{text}
use file_dbv.Query.Sample.{sample_format}
use file_dbv.Sidx.{
  SecondaryIndex, new_secondary_index, add, update, remove, conflict, bucket_of, other_id,
}
use file_dbv.Sidx.Consistent.{
  IsConsistent, add-IsConsistent, update-IsConsistent, remove-IsConsistent,
}
use file_dbv.Sidx.Unique.{IsUnique, update-IsUnique}

abbrev empty_index : SecondaryIndex
empty_index = new_secondary_index (codes "email") true

empty_index-IsConsistent : IsConsistent empty_index
unfolding new_secondary_index bucket_of lookup
empty_index-IsConsistent = record { at = λ i k. refl }

empty_index-IsUnique : IsUnique empty_index
unfolding new_secondary_index lookup
empty_index-IsUnique = record { one = λ i j k h hj. cc }

one_id-IsConsistent : IsConsistent (add sample_format (text (codes "a")) 1 empty_index)
unfolding new_secondary_index lookup
one_id-IsConsistent =
    add-IsConsistent sample_format (text (codes "a")) 1 empty_index empty_index-IsConsistent refl

abbrev one_id : SecondaryIndex
one_id = add sample_format (text (codes "a")) 1 empty_index

update-IsConsistent_example : IsConsistent (update sample_format 1 (text (codes "b")) one_id)
update-IsConsistent_example =
    update-IsConsistent sample_format 1 (text (codes "b")) one_id one_id-IsConsistent

remove-IsConsistent_example : IsConsistent (remove sample_format 1 one_id)
remove-IsConsistent_example = remove-IsConsistent sample_format 1 one_id one_id-IsConsistent

update-IsUnique_example : IsUnique (update sample_format 1 (text (codes "b")) empty_index)
unfolding new_secondary_index conflict bucket_of lookup other_id
update-IsUnique_example =
    update-IsUnique sample_format 1 (text (codes "b")) empty_index empty_index-IsConsistent
      empty_index-IsUnique refl

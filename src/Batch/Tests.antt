-- ===== src/Batch/Tests.antt =====
-- Runs of the model of CommitTx in engine/collection.go.
use file_dbv.Prelude.{List, [], ◌∷◌}
use file_dbv.Store.Sample.{sample_codec, sample_data}
use file_dbv.Query.Sample.{sample_format}
use file_dbv.Tx.{TxOp, tx_insert, staged_op}
use file_dbv.Collection.Tests.{empty_collection}
use file_dbv.Batch.{commit_tx}
use file_dbv.Batch.Published.{IsHandedOn, commit_tx-IsHandedOn}

abbrev one_op : List TxOp
one_op = staged_op tx_insert 1 sample_data 5 ∷ []

commit_tx-IsHandedOn_example :
    IsHandedOn one_op empty_collection
      (commit_tx sample_codec sample_format one_op 7 empty_collection).0
      (commit_tx sample_codec sample_format one_op 7 empty_collection).1
commit_tx-IsHandedOn_example =
    commit_tx-IsHandedOn sample_codec sample_format one_op 7 empty_collection

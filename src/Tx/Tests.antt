-- ===== src/Tx/Tests.antt =====
-- Runs of the model of engine/txmanager.go.
use file_dbv.Prelude.{◌≡◌, refl, true, codes, [], ◌∷◌, lookup, ◌-◌}
use file_dbv.Tx.{Tx, TxManager, get_tx, reap_idle}
use file_dbv.Tx.Sweep.{kept, reap_idle_lem}

abbrev old_tx : Tx
old_tx = record { id = codes "a"; collection = codes "c"; ops = []; created_at = 1; last_used = 2 }

abbrev new_tx : Tx
new_tx = record { id = codes "b"; collection = codes "c"; ops = []; created_at = 1; last_used = 9 }

abbrev two_txs : TxManager
two_txs = record { txs = (codes "a", old_tx) ∷ (codes "b", new_tx) ∷ []; ttl = 5; sweeping = true }

reap_idle_lem_example :
    get_tx (codes "b") (reap_idle 10 two_txs).1
    ≡ kept (10 - two_txs.ttl) (get_tx (codes "b") two_txs)
unfolding lookup
reap_idle_lem_example = reap_idle_lem 10 (codes "b") two_txs (refl, (refl, tt))

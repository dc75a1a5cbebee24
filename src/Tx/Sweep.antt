-- ===== src/Tx/Sweep.antt =====
-- The sweep of idle transactions, reapExpired of engine/txmanager.go.
use file_dbv.Prelude.{
  ℕ, ◌-◌, ◌≡◌, refl, Option, none, some, [], ◌∷◌, Str, Map, lookup, str_eq, ltb, if◌then◌else◌,
  arith, HasDistinctKeys, str_beq_iff,
}
use file_dbv.Tx.{Tx, TxManager, sweep, reap_idle, get_tx}

-- The transaction if it was used at or after the cutoff.
abbrev pub kept : ℕ → Option Tx → Option Tx
kept cutoff none = none
kept cutoff (some t) = if ltb t.last_used cutoff then none else some t

lookup-sweep :
    (cutoff : ℕ) (id : Str) (m : Map Str Tx)
    → HasDistinctKeys m
    → lookup id (sweep cutoff m).1 ≡ kept cutoff (lookup id m)
unfolding lookup sweep
lookup-sweep cutoff id [] h = refl
lookup-sweep cutoff id ((j, t) ∷ m) h =
    ground (arith, lookup-sweep cutoff id m, h.0, str_beq_iff j id)

-- When no transaction id stands twice, a sweep keeps exactly the transactions that were last used
-- at or after the cutoff, as they were.
pub reap_idle_lem :
    (now : ℕ) (id : Str) (m : TxManager)
    → HasDistinctKeys m.txs
    → get_tx id (reap_idle now m).1 ≡ kept (now - m.ttl) (get_tx id m)
unfolding reap_idle get_tx
reap_idle_lem now id m h = lookup-sweep (now - m.ttl) id m.txs h

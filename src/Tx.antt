-- ===== src/Tx.antt =====
-- engine/txmanager.go: the staging buffers of the open transactions. Locks, the ticker and the
-- random bytes of an id are left out: the clock and a new transaction's id are arguments.
pub mod Sweep
pub mod Tests
use file_dbv.Prelude.{
  ℕ, ◌-◌, Bool, leb, Option, none, some, List, [], ◌∷◌, ◌++◌, Str, Map, lookup, insert, delete, ltb,
  str_eq, if◌then◌else◌,
}
use file_dbv.Json.{Data}

pub data TxOpKind : Type 0 where
  tx_insert tx_update tx_delete : TxOpKind

-- A delete has no data, and nothing reads them.
pub record TxOp : Type 0 where
  pub kind : TxOpKind
  pub id : ℕ
  pub fields : Data
  pub ts : ℕ

pub record Tx : Type 0 where
  pub id : Str
  pub collection : Str
  pub ops : List TxOp
  pub created_at : ℕ
  pub last_used : ℕ

unfoldable pub touch : ℕ → Tx → Tx
touch now t = record t { last_used = now }

abbrev pub staged_op : TxOpKind → ℕ → Data → ℕ → TxOp
staged_op kind id d now = record { kind = kind; id = id; fields = d; ts = now }

unfoldable pub stage_insert : ℕ → Data → ℕ → Tx → Tx
unfolding touch
stage_insert id d now t = touch now (record t { ops = t.ops ++ staged_op tx_insert id d now ∷ [] })

unfoldable pub stage_update : ℕ → Data → ℕ → Tx → Tx
unfolding touch
stage_update id d now t = touch now (record t { ops = t.ops ++ staged_op tx_update id d now ∷ [] })

unfoldable pub stage_delete : ℕ → ℕ → Tx → Tx
unfolding touch
stage_delete id now t = touch now (record t { ops = t.ops ++ staged_op tx_delete id [] now ∷ [] })

unfoldable pub snapshot : Tx → List TxOp
snapshot t = t.ops

pub record TxManager : Type 0 where
  pub txs : Map Str Tx
  pub ttl : ℕ
  pub sweeping : Bool

unfoldable pub new_tx_manager : ℕ → TxManager
new_tx_manager ttl = record { txs = []; ttl = ttl; sweeping = ltb 0 ttl }

unfoldable pub begin : Str → Str → ℕ → TxManager → Str × TxManager
begin id collection now m =
    let t : Tx = record {
      id = id;
      collection = collection;
      ops = [];
      created_at = now;
      last_used = now;
    } in
    (id, record m { txs = insert id t m.txs })

unfoldable pub get_tx : Str → TxManager → Option Tx
get_tx id m = lookup id m.txs

unfoldable pub remove_tx : Str → TxManager → TxManager
remove_tx id m = record m { txs = delete id m.txs }

-- The ids that the sweep removes, and the transactions that it keeps.
unfoldable pub sweep : ℕ → Map Str Tx → List Str × Map Str Tx
sweep cutoff [] = ([], [])
sweep cutoff ((id, t) ∷ m) =
    let rest = sweep cutoff m in
    if ltb t.last_used cutoff then (id ∷ rest.0, rest.1) else (rest.0, (id, t) ∷ rest.1)

-- The clock is past the first `ttl` nanoseconds of the epoch.
unfoldable pub reap_idle : ℕ → TxManager → List Str × TxManager
unfolding sweep
reap_idle now m = let swept = sweep (now - m.ttl) m.txs in (swept.0, record m { txs = swept.1 })

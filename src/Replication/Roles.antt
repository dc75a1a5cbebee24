-- ===== src/Replication/Roles.antt =====
-- Promote of engine/replication.go.
use file_dbv.Prelude.{ℕ, ◌≤◌, ◌≡◌, ◌⊎◌, Bool, true, some, arith}
use file_dbv.Result.{ok, err, not_follower}
use file_dbv.Replication.{
  Broker, Node, PromoteResult, role_leader, role_follower, promote, replication_lag, current_lsn,
}

-- A promotion that succeeds on a node with a broker was of a follower, forced or within the lag;
-- the node is then a leader that keeps its watermark, its LSN counter is at least at the
-- watermark, and a second promotion is refused.
pub promote_ok :
    (max_lag m : ℕ) (force g : Bool) (n n' : Node) (b : Broker) (r : PromoteResult)
    → n.broker ≡ some b
    → promote max_lag force n ≡ ok (r, n')
    → (n.role ≡ role_follower)
      × ((force ≡ true) ⊎ (replication_lag n ≤ max_lag))
      × (n'.role ≡ role_leader)
      × (n'.applied_lsn ≡ n.applied_lsn)
      × (n.applied_lsn ≤ current_lsn n')
      × (r.lsn ≡ current_lsn n')
      × (promote m g n' ≡ err not_follower)
unfolding promote current_lsn
promote_ok max_lag m force g n n' b r has h = ground arith

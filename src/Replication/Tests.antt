-- ===== src/Replication/Tests.antt =====
-- Runs of the model of engine/replication.go.
use file_dbv.Prelude.{◌≡◌, ◌≤◌, ◌⊎◌, refl, [], ◌∷◌, true, false, some, codes, arith, ◌+◌, ◌-◌}
use file_dbv.Result.{err, not_follower}
use file_dbv.Store.Sample.{sample_entry}
use file_dbv.Replication.{
  Broker, Node, PromoteResult, ReplSub, new_broker, publish, subscribe, promote, replication_lag,
  current_lsn, become_leader, set_lsn, role_leader, role_follower, record_entry, slot, oldest,
  backlog_from,
}
use file_dbv.Replication.Ring.{IsRing, publish-IsRing, subscribe_no_gap, lsns, range}
use file_dbv.Replication.Roles.{promote_ok}

abbrev small_broker : Broker
small_broker = new_broker 2 2

small_broker-IsRing : IsRing small_broker
unfolding new_broker
small_broker-IsRing = record {
  bounds = record {
    some_room = omega arith;
    full_length = refl;
    head_inside = omega arith;
    size_inside = omega arith;
  };
  size_assigned = omega arith;
  numbered = λ i h. absurd (omega arith);
}

publish-IsRing_example : IsRing (publish (codes "c") sample_entry small_broker).1
publish-IsRing_example = publish-IsRing (codes "c") sample_entry small_broker small_broker-IsRing

abbrev used_broker : Broker
used_broker =
    (publish (codes "c") sample_entry
      (publish (codes "c") sample_entry (publish (codes "c") sample_entry small_broker).1).1).1

used_broker-IsRing : IsRing used_broker
used_broker-IsRing = publish-IsRing (codes "c") sample_entry _ (
    publish-IsRing (codes "c") sample_entry _
      (publish-IsRing (codes "c") sample_entry small_broker small_broker-IsRing))

abbrev first_sub : ReplSub
first_sub = record { id = 1; follower_id = codes "f"; ch = []; dead = false; sent = 1 }

-- The ring holds the entries 2 and 3 of three.
subscribe_no_gap_example :
    lsns (backlog_from used_broker 1 0 used_broker.size) ≡ range (1 + 1) (used_broker.lsn - 1)
unfolding subscribe oldest slot publish record_entry new_broker
subscribe_no_gap_example =
    subscribe_no_gap used_broker (record used_broker { sub_seq = 1; subs = first_sub ∷ [] }) 1
      (codes "f") first_sub (backlog_from used_broker 1 0 used_broker.size) used_broker-IsRing refl

abbrev follower : Node
follower = record {
  role = role_follower;
  broker = some small_broker;
  applied_lsn = 3;
  last_leader_lsn = 7;
  hook_calls = 0;
}

abbrev promoted_broker : Broker
promoted_broker = record small_broker { lsn = 3 }

abbrev promoted : Node
promoted = record follower { role = role_leader; broker = some promoted_broker; hook_calls = 1 }

abbrev promote_result : PromoteResult
promote_result = record { role = role_leader; lsn = 3; lag = 4 }

promote_ok_example :
    (follower.role ≡ role_follower)
    × ((true ≡ true) ⊎ (replication_lag follower ≤ 0))
    × (promoted.role ≡ role_leader)
    × (promoted.applied_lsn ≡ follower.applied_lsn)
    × (follower.applied_lsn ≤ current_lsn promoted)
    × (promote_result.lsn ≡ current_lsn promoted)
    × (promote 0 false promoted ≡ err not_follower)
unfolding promote become_leader set_lsn new_broker replication_lag
promote_ok_example =
    promote_ok 0 0 true false follower promoted small_broker promote_result refl refl

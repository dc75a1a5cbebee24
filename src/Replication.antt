-- ===== src/Replication.antt =====
-- engine/replication.go: the leader's feed of committed entries, and the roles of a node.
-- A subscriber's channel is the list of the entries that it buffers.
pub mod Ring
pub mod Roles
pub mod Tests
use file_dbv.Prelude.{
  ℕ, zero, suc, ◌+◌, ◌-◌, ◌%◌, Bool, true, false, not, ◌&&◌, Option, none, some, List, [], ◌∷◌,
  ◌++◌, Str, map, Map, insert, delete, length, get_elem?, set, ltb, leb, nat_beq, nat_eq,
  if◌then◌else◌,
}
use file_dbv.Result.{Result, ok, err, not_follower, replica_lag_exceeded}
use file_dbv.Json.{no_text}
use file_dbv.Store.{Entry, op_other}

abbrev pub default_replication_ring_size : ℕ
default_replication_ring_size = 8192

pub record ReplicationEntry : Type 0 where
  pub lsn : ℕ
  pub collection : Str
  pub entry : Entry

pub record ReplSub : Type 0 where
  pub id : ℕ
  pub follower_id : Str
  pub ch : List ReplicationEntry
  pub dead : Bool
  pub sent : ℕ

pub record Broker : Type 0 where
  pub lsn : ℕ
  pub ring : List ReplicationEntry
  pub cap : ℕ
  pub head : ℕ
  pub size : ℕ
  pub sub_buf : ℕ
  pub subs : List ReplSub
  pub sub_seq : ℕ

-- What `make` fills the ring with.
abbrev pub zero_entry : ReplicationEntry
zero_entry = record {
  lsn = 0;
  collection = [];
  entry = record {
    id = 0;
    op = op_other no_text;
    ts = 0;
    rev = 0;
    fields = none;
    epoch = 0;
    expires_at = 0;
    crc = none;
  };
}

abbrev pub zero_entries : ℕ → List ReplicationEntry
zero_entries zero = []
zero_entries (suc n) = zero_entry ∷ zero_entries n

abbrev pub default_if_zero : ℕ → ℕ → ℕ
default_if_zero n d = if nat_beq n 0 then d else n

unfoldable pub new_broker : ℕ → ℕ → Broker
new_broker ring_size sub_buf =
    let size = default_if_zero ring_size default_replication_ring_size in
    record {
      lsn = 0;
      ring = zero_entries size;
      cap = size;
      head = 0;
      size = 0;
      sub_buf = default_if_zero sub_buf size;
      subs = [];
      sub_seq = 0;
    }

abbrev pub or_zero_entry : Option ReplicationEntry → ReplicationEntry
or_zero_entry none = zero_entry
or_zero_entry (some e) = e

-- The `i`-th retained entry, `b.ring[(b.head+i)%b.cap]`.
unfoldable pub slot : Broker → ℕ → ReplicationEntry
slot b i = or_zero_entry (get_elem? b.ring ((b.head + i) % b.cap))

unfoldable pub oldest : Broker → ℕ
oldest b = if nat_beq b.size 0 then b.lsn + 1 else (slot b 0).lsn

-- A full buffer kills the subscriber; a dead one is passed over.
unfoldable pub deliver : ℕ → ReplicationEntry → ReplSub → ReplSub
deliver sub_buf re s =
    if s.dead
    then s
    else if ltb (length s.ch) sub_buf
    then record s { ch = s.ch ++ re ∷ [] }
    else record s { dead = true }

unfoldable pub record_entry : ReplicationEntry → Broker → Broker
record_entry re b =
    if ltb b.size b.cap
    then record b { ring = set b.ring ((b.head + b.size) % b.cap) re; size = b.size + 1 }
    else record b { ring = set b.ring b.head re; head = (b.head + 1) % b.cap }

unfoldable pub publish : Str → Entry → Broker → ℕ × Broker
unfolding record_entry deliver
publish collection e b =
    let lsn = b.lsn + 1 in
    let re : ReplicationEntry = record { lsn = lsn; collection = collection; entry = e } in
    let kept = record_entry re (record b { lsn = lsn }) in
    (lsn, record kept { subs = map (deliver b.sub_buf re) b.subs })

-- The loop over the ring, `n` rounds from the `i`-th entry.
unfoldable pub backlog_from : Broker → ℕ → ℕ → ℕ → List ReplicationEntry
backlog_from b from i zero = []
backlog_from b from i (suc n) =
    let rest = backlog_from b from (i + 1) n in
    if ltb from (slot b i).lsn then slot b i ∷ rest else rest

-- `none` when the follower is too far behind.
unfoldable pub subscribe : ℕ → Str → Broker → Option (ReplSub × List ReplicationEntry × Broker)
subscribe from follower_id b =
    let seq = b.sub_seq + 1 in
    let sub : ReplSub = record {
      id = seq;
      follower_id = follower_id;
      ch = [];
      dead = false;
      sent = from;
    } in
    if ltb (from + 1) (oldest b)
    then none
    else some
        (sub, backlog_from b from 0 b.size, record b { sub_seq = seq; subs = b.subs ++ sub ∷ [] })

unfoldable pub without_sub : ℕ → List ReplSub → List ReplSub
without_sub id [] = []
without_sub id (s ∷ ss) = let rest = without_sub id ss in if nat_beq s.id id then rest else s ∷ rest

unfoldable pub unsubscribe : ℕ → Broker → Broker
unfolding without_sub
unsubscribe id b = record b { subs = without_sub id b.subs }

unfoldable pub set_lsn : ℕ → Broker → Broker
set_lsn lsn b = if ltb b.lsn lsn then record b { lsn = lsn } else b

pub data Role : Type 0 where
  role_leader role_follower : Role

-- The replication state of a DB: the broker is `none` when replication is off.
pub record Node : Type 0 where
  pub role : Role
  pub broker : Option Broker
  pub applied_lsn : ℕ
  pub last_leader_lsn : ℕ
  pub hook_calls : ℕ

unfoldable pub set_applied_lsn : ℕ → Node → Node
set_applied_lsn lsn n = if leb lsn n.applied_lsn then n else record n { applied_lsn = lsn }

unfoldable pub note_leader_lsn : ℕ → Node → Node
note_leader_lsn lsn n = if leb lsn n.last_leader_lsn then n else record n { last_leader_lsn = lsn }

unfoldable pub replication_lag : Node → ℕ
replication_lag n =
    if ltb n.applied_lsn n.last_leader_lsn then n.last_leader_lsn - n.applied_lsn else 0

unfoldable pub current_lsn : Node → ℕ
current_lsn n = elim n.broker [ none ↦ 0 | some b ↦ b.lsn ]

pub record PromoteResult : Type 0 where
  pub role : Role
  pub lsn : ℕ
  pub lag : ℕ

abbrev pub is_follower : Role → Bool
is_follower role_leader = false
is_follower role_follower = true

abbrev pub max_lsn : ℕ → ℕ → ℕ
max_lsn a b = if ltb a b then b else a

unfoldable pub become_leader : ℕ → Node → PromoteResult × Node
unfolding set_lsn
become_leader lag n = elim n.broker [
  | none ↦ (
    record { role = role_leader; lsn = n.applied_lsn; lag = lag },
    record n { role = role_leader; hook_calls = n.hook_calls + 1 },
  )
  | some b ↦ (
    record {
      role = role_leader;
      lsn = max_lsn n.applied_lsn (set_lsn n.applied_lsn b).lsn;
      lag = lag;
    },
    record n {
      role = role_leader;
      broker = some (set_lsn n.applied_lsn b);
      hook_calls = n.hook_calls + 1;
    },
  )
]

unfoldable pub promote : ℕ → Bool → Node → Result (PromoteResult × Node)
unfolding replication_lag become_leader
promote max_lag force n =
    let lag = replication_lag n in
    if not (is_follower n.role)
    then err not_follower
    else if not force && ltb max_lag lag
    then err replica_lag_exceeded
    else ok (become_leader lag n)

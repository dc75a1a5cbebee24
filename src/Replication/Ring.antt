-- ===== src/Replication/Ring.antt =====
-- The ring of engine/replication.go keeps the last entries in order, and a resuming follower gets
-- every entry that it misses.
use native.Mathlib.Nat.{mod-eq_of_lt, mod-eq-sub-mod, mod-add-mod, mod-lt}
use file_dbv.Prelude.{
  ℕ, zero, suc, ◌+◌, ◌-◌, ◌%◌, ◌≤◌, ◌<◌, ◌≡◌, ◌≢◌, refl, ap, ◌∙◌, true, false, Bool-cases, inl, inr,
  some, List, [], ◌∷◌, Str, length, get_elem?, set, ltb, nat_beq, if◌then◌else◌, arith,
}
use file_dbv.Store.{Entry}
use file_dbv.Replication.{
  Broker, ReplicationEntry, ReplSub, slot, oldest, publish, record_entry, backlog_from, subscribe,
  or_zero_entry,
}

-- The indices of the ring are in bounds.
pub record InBounds (b : Broker) : Type 0 where
  pub some_room : 0 < b.cap
  pub full_length : length b.ring ≡ b.cap
  pub head_inside : b.head < b.cap
  pub size_inside : b.size ≤ b.cap

-- Besides, the `i`-th retained entry has the LSN that is `i` above the oldest, and the last one has
-- the LSN that was assigned last.
pub record IsRing (b : Broker) : Type 0 where
  pub bounds : InBounds b
  pub size_assigned : b.size ≤ b.lsn
  pub numbered : (i : ℕ) → i < b.size → (slot b i).lsn + b.size ≡ b.lsn + 1 + i

module _ {ℓ} {A : Type ℓ} where
  get_set_self : (xs : List A) (i : ℕ) (v : A) → i < length xs → get_elem? (set xs i v) i ≡ some v
  get_set_self [] i v h = absurd (omega arith)
  get_set_self (x ∷ xs) zero v h = refl
  get_set_self (x ∷ xs) (suc i) v h = get_set_self xs i v (omega arith)

  get_set_ne : (xs : List A) (i j : ℕ) (v : A) → i ≢ j → get_elem? (set xs i v) j ≡ get_elem? xs j
  get_set_ne [] i j v h = refl
  get_set_ne (x ∷ xs) zero zero v h = absurd (h refl)
  get_set_ne (x ∷ xs) zero (suc j) v h = refl
  get_set_ne (x ∷ xs) (suc i) zero v h = refl
  get_set_ne (x ∷ xs) (suc i) (suc j) v h = get_set_ne xs i j v (λ e. h (ap suc e))

  length-set : (xs : List A) (i : ℕ) (v : A) → length (set xs i v) ≡ length xs
  length-set [] i v = refl
  length-set (x ∷ xs) zero v = refl
  length-set (x ∷ xs) (suc i) v = ap suc (length-set xs i v)

-- A sum of two indices wraps at most once.
wrap : (x n : ℕ) → x < n + n → x % n ≡ (if ltb x n then x else x - n)
wrap x n h = elim (Bool-cases (ltb x n)) [
  | inl e ↦ rw e (mod-eq_of_lt (ground arith))
  | inr e ↦ rw e (let le : n ≤ x = ground arith in mod-eq-sub-mod le ∙ mod-eq_of_lt (omega arith))
]

wrap_ne : (head i k n : ℕ) → head < n → i < n → k < n → i ≢ k → (head + i) % n ≢ (head + k) % n
wrap_ne head i k n h hi hk ne = ground (arith, wrap (head + i) n, wrap (head + k) n)

wrap_suc : (head i n : ℕ) → head < n → i < n → ((head + 1) % n + i) % n ≡ (head + (i + 1)) % n
wrap_suc head i n h hi = mod-add-mod (head + 1) n i ∙ ap (λ (t : ℕ). t % n) (omega arith)

slot_lem :
    (b : Broker) (i : ℕ) (e : ReplicationEntry)
    → get_elem? b.ring ((b.head + i) % b.cap) ≡ some e
    → slot b i ≡ e
unfolding slot
slot_lem b i e h = rw h

-- With room, the entry goes behind those that are there.
module _ (b : Broker) (re : ReplicationEntry) (h : InBounds b)
    (room : ltb b.size b.cap ≡ true) where
  room_eq :
      record_entry re b
      ≡ record b { ring = set b.ring ((b.head + b.size) % b.cap) re; size = b.size + 1 }
  unfolding record_entry
  room_eq = ground arith

  room_old : (i : ℕ) → i < b.size → slot (record_entry re b) i ≡ slot b i
  unfolding slot
  room_old i below = rw room_eq (
      ap or_zero_entry (
        get_set_ne b.ring ((b.head + b.size) % b.cap) ((b.head + i) % b.cap) re (
          wrap_ne b.head b.size i b.cap h.head_inside (ground arith) (ground (arith, h.size_inside))
            (ground arith))))

  room_new : slot (record_entry re b) b.size ≡ re
  unfolding slot
  room_new = rw room_eq (
      ap or_zero_entry (
        get_set_self b.ring ((b.head + b.size) % b.cap) re (
          let inside : (b.head + b.size) % b.cap < b.cap = mod-lt (b.head + b.size) h.some_room in
          omega (arith, h.full_length, inside))))

-- Without, it replaces the oldest, and the others move up.
module _ (b : Broker) (re : ReplicationEntry) (h : InBounds b)
    (full : ltb b.size b.cap ≡ false) where
  full_eq :
      record_entry re b ≡ record b { ring = set b.ring b.head re; head = (b.head + 1) % b.cap }
  unfolding record_entry
  full_eq = ground arith

  full_old : (i : ℕ) → i + 1 < b.size → slot (record_entry re b) i ≡ slot b (i + 1)
  unfolding slot
  full_old i below = rw full_eq (
      rw (wrap_suc b.head i b.cap h.head_inside (omega (arith, h.size_inside))) (
        ap or_zero_entry
          (get_set_ne b.ring b.head ((b.head + (i + 1)) % b.cap) re (λ e. absurd (wrap_head e)))))
    where
      wrap_head : b.head ≡ (b.head + (i + 1)) % b.cap → ⊥
      wrap_head e = ground (arith, wrap (b.head + (i + 1)) b.cap, h.head_inside, h.size_inside)

  full_new : (i : ℕ) → i + 1 ≡ b.size → slot (record_entry re b) i ≡ re
  unfolding slot
  full_new i last = rw full_eq (
      rw (wrap_suc b.head i b.cap h.head_inside (omega (arith, h.size_inside)), comes_round)
        (ap or_zero_entry
          (get_set_self b.ring b.head re (omega (arith, h.full_length, h.head_inside)))))
    where
      comes_round : (b.head + (i + 1)) % b.cap ≡ b.head
      comes_round =
          ground (arith, wrap (b.head + (i + 1)) b.cap, h.head_inside, h.size_inside, last)

module _ (b : Broker) (re : ReplicationEntry) where
  record_entry-InBounds : InBounds b → InBounds (record_entry re b)
  record_entry-InBounds h = elim (Bool-cases (ltb b.size b.cap)) [
    | inl room ↦ rw (room_eq b re h room) (record {
      some_room = h.some_room;
      full_length = length-set b.ring ((b.head + b.size) % b.cap) re ∙ h.full_length;
      head_inside = h.head_inside;
      size_inside = ground arith;
    })
    | inr full ↦ rw (full_eq b re h full) (record {
      some_room = h.some_room;
      full_length = length-set b.ring b.head re ∙ h.full_length;
      head_inside = mod-lt (b.head + 1) h.some_room;
      size_inside = h.size_inside;
    })
  ]

  -- `before` is the last LSN before the entry was numbered.
  record_numbered :
      (before : ℕ)
      → InBounds b
      → b.lsn ≡ before + 1
      → re.lsn ≡ before + 1
      → ((i : ℕ) → i < b.size → (slot b i).lsn + b.size ≡ before + 1 + i)
      → (i : ℕ) → i < (record_entry re b).size
      → (slot (record_entry re b) i).lsn + (record_entry re b).size
        ≡ (record_entry re b).lsn + 1 + i
  record_numbered before h assigned named numbered i below = elim (Bool-cases (ltb b.size b.cap)) [
    | inl room ↦ with_room room
    | inr full ↦ without full
  ]
    where
      with_room :
          ltb b.size b.cap ≡ true
          → (slot (record_entry re b) i).lsn + (record_entry re b).size
            ≡ (record_entry re b).lsn + 1 + i
      with_room room =
          let eq = room_eq b re h room in
          let sized : (record_entry re b).size ≡ b.size + 1 = ap (λ (t : Broker). t.size) eq in
          let same : (record_entry re b).lsn ≡ b.lsn = ap (λ (t : Broker). t.lsn) eq in
          elim (Bool-cases (ltb i b.size)) [
            | inl e ↦
                (let lt : i < b.size = ground arith in
                  omega (
                    arith,
                    ap (λ (t : ReplicationEntry). t.lsn) (room_old b re h room i lt),
                    numbered i lt,
                    sized,
                    same,
                    assigned,
                  ))
            | inr e ↦
                (let last : i ≡ b.size = ground (arith, sized, below) in
                  omega (
                    arith,
                    ap (λ (t : ReplicationEntry). t.lsn)
                        (ap (slot (record_entry re b)) last ∙ room_new b re h room),
                    sized,
                    same,
                    assigned,
                    named,
                    last,
                  ))
          ]

      without :
          ltb b.size b.cap ≡ false
          → (slot (record_entry re b) i).lsn + (record_entry re b).size
            ≡ (record_entry re b).lsn + 1 + i
      without full =
          let eq = full_eq b re h full in
          let sized : (record_entry re b).size ≡ b.size = ap (λ (t : Broker). t.size) eq in
          let same : (record_entry re b).lsn ≡ b.lsn = ap (λ (t : Broker). t.lsn) eq in
          elim (Bool-cases (ltb (i + 1) b.size)) [
            | inl e ↦
                (let lt : i + 1 < b.size = ground arith in
                  omega (
                    arith,
                    ap (λ (t : ReplicationEntry). t.lsn) (full_old b re h full i lt),
                    numbered (i + 1) lt,
                    sized,
                    same,
                    assigned,
                  ))
            | inr e ↦
                (let last : i + 1 ≡ b.size = ground (arith, sized, below) in
                  omega (
                    arith,
                    ap (λ (t : ReplicationEntry). t.lsn) (full_new b re h full i last),
                    sized,
                    same,
                    assigned,
                    named,
                    last,
                  ))
          ]

module _ (collection : Str) (e : Entry) (b : Broker) where
  abbrev numbered_entry : ReplicationEntry
  numbered_entry = record { lsn = b.lsn + 1; collection = collection; entry = e }

  abbrev numbered_broker : Broker
  numbered_broker = record b { lsn = b.lsn + 1 }

  record_grows : (re : ReplicationEntry) (c : Broker) → (record_entry re c).size ≤ c.size + 1
  unfolding record_entry
  record_grows re c = ground arith

  record-lsn : (re : ReplicationEntry) (c : Broker) → (record_entry re c).lsn ≡ c.lsn
  unfolding record_entry
  record-lsn re c = ground arith

  -- Publishing an entry keeps the ring ordered: its indices stay in bounds, and the entries it
  -- retains have consecutive LSNs, the last of them the one just assigned.
  pub publish-IsRing : IsRing b → IsRing (publish collection e b).1
  unfolding slot
  publish-IsRing h =
      let inside : InBounds numbered_broker = record {
        some_room = h.bounds.some_room;
        full_length = h.bounds.full_length;
        head_inside = h.bounds.head_inside;
        size_inside = h.bounds.size_inside;
      } in
      let kept = record_entry-InBounds numbered_broker numbered_entry inside in
      unfold publish in
      record {
        bounds = record {
          some_room = kept.some_room;
          full_length = kept.full_length;
          head_inside = kept.head_inside;
          size_inside = kept.size_inside;
        };
        size_assigned = omega (
          arith,
          record_grows numbered_entry numbered_broker,
          record-lsn numbered_entry numbered_broker,
          h.size_assigned,
        );
        numbered = λ i below.
            record_numbered numbered_broker numbered_entry b.lsn inside refl refl
              (λ j lt. h.numbered j lt) i below;
      }

-- n, n + 1, …, k numbers in all
abbrev pub range : ℕ → ℕ → List ℕ
range n zero = []
range n (suc k) = n ∷ range (n + 1) k

abbrev pub lsns : List ReplicationEntry → List ℕ
lsns [] = []
lsns (r ∷ rs) = r.lsn ∷ lsns rs

abbrev reached : ℕ → ℕ → ℕ
reached from at = if ltb from at then at else from

backlog_hit :
    (b : Broker) (from i n : ℕ)
    → ltb from (slot b i).lsn ≡ true
    → backlog_from b from i (suc n) ≡ slot b i ∷ backlog_from b from (i + 1) n
unfolding backlog_from
backlog_hit b from i n e = rw e

backlog_miss :
    (b : Broker) (from i n : ℕ)
    → ltb from (slot b i).lsn ≡ false
    → backlog_from b from i (suc n) ≡ backlog_from b from (i + 1) n
unfolding backlog_from
backlog_miss b from i n e = rw e

subscribe_inversion :
    (b b' : Broker) (from : ℕ) (follower_id : Str) (sub : ReplSub) (backlog : List ReplicationEntry)
    → subscribe from follower_id b ≡ some (sub, backlog, b')
    → (oldest b ≤ from + 1) × (backlog ≡ backlog_from b from 0 b.size)
unfolding subscribe
subscribe_inversion b b' from follower_id sub backlog got = ground arith

near_enough :
    (b : Broker) (from : ℕ)
    → IsRing b
    → oldest b ≤ from + 1
    → from ≡ reached from (b.lsn + 0 - b.size)
unfolding oldest
near_enough b from h near = elim (Bool-cases (nat_beq b.size 0)) [
  | inl e ↦ ground arith
  | inr e ↦ (let num = h.numbered 0 (ground arith) in ground (arith, num, h.size_assigned))
]

backlog_range :
    (b : Broker) (from i n p : ℕ)
    → IsRing b
    → i + n ≡ b.size
    → p ≡ reached from (b.lsn + i - b.size)
    → lsns (backlog_from b from i n) ≡ range (p + 1) (b.lsn - p)
backlog_range b from i zero p h all at =
    let done : b.lsn - p ≡ 0 = ground (arith, h.size_assigned) in
    rw done (unfold backlog_from in refl)
backlog_range b from i (suc n) p h all at = elim (Bool-cases (ltb from (slot b i).lsn)) [
  | inl e ↦
      (let num = h.numbered i (omega arith) in
        let more : b.lsn - p ≡ suc (b.lsn - (p + 1)) = ground (arith, num, h.size_assigned) in
        let first : (slot b i).lsn ≡ p + 1 = ground (arith, num, h.size_assigned) in
        ap lsns (backlog_hit b from i n e)
        ∙ (rw (more, first)
            (ap (λ (l : List ℕ). (p + 1) ∷ l)
              (backlog_range b from (i + 1) n (p + 1) h (omega arith)
                (ground (arith, num, h.size_assigned))))))
  | inr e ↦
      (let num = h.numbered i (omega arith) in
        ap lsns (backlog_miss b from i n e)
        ∙ backlog_range b from (i + 1) n p h (omega arith) (ground (arith, num, h.size_assigned)))
]

-- A subscription that is granted on an ordered ring carries a backlog with exactly the LSNs above
-- the one the follower resumes from, up to the last one assigned, in order and without a gap.
pub subscribe_no_gap :
    (b b' : Broker) (from : ℕ) (follower_id : Str) (sub : ReplSub) (backlog : List ReplicationEntry)
    → IsRing b
    → subscribe from follower_id b ≡ some (sub, backlog, b')
    → lsns backlog ≡ range (from + 1) (b.lsn - from)
subscribe_no_gap b b' from follower_id sub backlog h got =
    let (near, same) = subscribe_inversion b b' from follower_id sub backlog got in
    ap lsns same ∙ backlog_range b from 0 b.size from h (omega arith) (near_enough b from h near)

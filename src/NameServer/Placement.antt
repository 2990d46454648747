-- ===== src/NameServer/Placement.antt =====
-- handleCreateTopic of cluster/go/nameserver/nameserver.go: where the partitions of a new topic are.
use mathlib.Core.Path.{subst}
use native.Mathlib.Nat.{mod-lt, mod-add-mod, add-mod_right, mod-eq_of_lt}
use distributed_mq.Prelude.{
  ltb, if◌then◌else◌, nat_beq_iff, Bool-cases, ◌==◌, length, get_elem?, ℕ, zero, suc, ◌+◌, ◌-◌, ◌%◌,
  ◌≤◌, ◌<◌, ◌≡◌, refl, ◌∙◌, ◌≢◌, inl, inr, none, some, List, arith,
}
use distributed_mq.Prelude.{nat_eq, string_eq}
use distributed_mq.Prelude.Map.{Map, lookup, insert, lookup-insert, length-insert-new}
use distributed_mq.NameServer.{PartitionInfo, BrokerInfo, client_addr_at, place, place_from}

-- The partitions below `i` stay as they were.
place_from-below :
    (available : List (ℕ × BrokerInfo)) (i count k : ℕ) (m : Map ℕ PartitionInfo)
    → k < i
    → lookup k (place_from available i count m) ≡ lookup k m
unfolding place_from
place_from-below available i zero k m h = refl
place_from-below available i (suc count) k m h =
    place_from-below available (i + 1) count k (insert i (place available i) m) (omega arith)
    ∙ ground (arith, lookup-insert i k (place available i) m)

pub place_from-placed :
    (available : List (ℕ × BrokerInfo)) (i count k : ℕ) (m : Map ℕ PartitionInfo)
    → i ≤ k
    → k < i + count
    → lookup k (place_from available i count m) ≡ some (place available k)
unfolding place_from
place_from-placed available i zero k m h below = absurd (omega arith)
place_from-placed available i (suc count) k m h below =
    let more = insert i (place available i) m in
    elim (Bool-cases (i == k)) [
      | inl same ↦
          let is_k : i ≡ k = (nat_beq_iff i k).0 same in
          place_from-below available (i + 1) count k more (omega arith)
          ∙ ground (arith, lookup-insert i k (place available i) m)
      | inr other ↦ place_from-placed available (i + 1) count k more (ground arith) (omega arith)
    ]

pub length-place_from :
    (available : List (ℕ × BrokerInfo)) (i count : ℕ) (m : Map ℕ PartitionInfo)
    → ((k : ℕ) → i ≤ k → lookup k m ≡ none)
    → length (place_from available i count m) ≡ length m + count
unfolding place_from
length-place_from available i zero m h = omega arith
length-place_from available i (suc count) m h =
    let more = insert i (place available i) m in
    let rest = length-place_from available (i + 1) count more (λ k le.
      let gone = h k (omega arith) in ground (arith, lookup-insert i k (place available i) m)) in
    omega (arith, length-insert-new i (place available i) m (h i (omega arith)))

-- Two rounds of the inner loop, less than a full turn apart, are at different brokers.
turn-differs : (n x d : ℕ) → 0 < d → d < n → (x + d) % n ≢ x % n
turn-differs n x d pos small same =
    let r = x % n in
    let bound = mod-lt x {m = n} (omega arith) in
    let shift = mod-add-mod x n d in
    elim (Bool-cases (ltb (r + d) n)) [
      | inl under ↦ let whole = mod-eq_of_lt {n = r + d} {m = n} (ground arith) in omega arith
      | inr over ↦
          let wrap = add-mod_right (r + d - n) n in
          let whole = mod-eq_of_lt {n = r + d - n} {m = n} (omega arith) in
          let back : r + d - n + n ≡ r + d = ground arith in
          let wrapped = subst (λ z. z % n ≡ (r + d - n) % n) back wrap in omega arith
    ]

-- The replica at `j` of the partition at `i` is the broker `i + j` places on, cyclically.
replica_at :
    (available : List (ℕ × BrokerInfo)) (i j : ℕ)
    → j < length (place available i).replicas
    → get_elem? (place available i).replicas j
      ≡ some (client_addr_at available ((i + j) % length available))
unfolding place
replica_at available i zero h = ground arith
replica_at available i (suc zero) h = ground arith
replica_at available i (suc (suc zero)) h = ground arith
replica_at available i (suc (suc (suc j))) h = absurd (ground arith)

-- Where there is a broker, a partition that handleCreateTopic places has as many replicas as there are
-- brokers, and three at most, the first of them is its leader, and all of them are in sync.
pub place_lem :
    (available : List (ℕ × BrokerInfo)) (i : ℕ)
    → 0 < length available
    → (length (place available i).replicas
        ≡ (if ltb (length available) 3 then length available else 3))
      × (get_elem? (place available i).replicas 0 ≡ some (place available i).leader)
      × ((place available i).isr ≡ (place available i).replicas)
unfolding place
place_lem available i filled = (ground arith, ground arith, refl)

-- Two different replicas of a partition that handleCreateTopic places are the brokers at two different
-- places of the list of the available brokers.
pub replicas_differ :
    (available : List (ℕ × BrokerInfo)) (i a b : ℕ)
    → a < b
    → b < length (place available i).replicas
    → (get_elem? (place available i).replicas a
        ≡ some (client_addr_at available ((i + a) % length available)))
      × (get_elem? (place available i).replicas b
          ≡ some (client_addr_at available ((i + b) % length available)))
      × ((i + b) % length available ≢ (i + a) % length available)
unfolding place
replicas_differ available i a b less inside =
    let turn = turn-differs (length available) (i + a) (b - a) (omega arith) (ground arith) in
    (
      replica_at available i a (omega arith),
      replica_at available i b inside,
      subst (λ k. k % length available ≢ (i + a) % length available) (ground arith) turn,
    )

-- ===== src/Examples/Groups.antt =====
-- Two consumers of three partitions (cluster/go/nameserver/nameserver.go).
use distributed_mq.Prelude.{
  length, All, ℕ, ◌+◌, ◌/◌, ◌≤◌, String, ◌≡◌, refl, true, some, List, [], ◌∷◌, arith,
}
use distributed_mq.Prelude.{nat_eq, string_eq}
use distributed_mq.Prelude.Map.{keys, values, lookup, insert, get_or, has_key}
use distributed_mq.Groups.{MemberMeta, ConsumerGroup, clear_assignments, do_rebalance}
use distributed_mq.Groups.Shares.{concat, contains}
use distributed_mq.Groups.Rebalance.{shares_of, reassigned, do_rebalance_lem}

abbrev member : String → MemberMeta
member id = record { client_id = id; heartbeat = 5; assignments = (7, true) ∷ [] }

abbrev two_members : ConsumerGroup
two_members = record {
  group_id = "g";
  members = ("b", member "b") ∷ ("a", member "a") ∷ [];
  topic = "orders";
  partitions = 0 ∷ 1 ∷ 2 ∷ [];
  generation = 4;
}

two_shares : shares_of two_members ≡ ("a", 0 ∷ 1 ∷ []) ∷ ("b", 2 ∷ []) ∷ []
two_shares = refl

b_gets_two :
    lookup "b" (do_rebalance two_members).members
    ≡ some (record (member "b") { assignments = (2, true) ∷ [] })
unfolding do_rebalance clear_assignments lookup insert
b_gets_two = refl

do_rebalance_lem_example :
    (concat (values (shares_of two_members)) ≡ 0 ∷ 1 ∷ 2 ∷ [])
    × All
        (λ (e : String × List ℕ). (3 / 2 ≤ length e.1) × (length e.1 ≤ 3 / 2 + 1))
        (shares_of two_members)
    × ((id : String) → contains id (keys (shares_of two_members)) ≡ has_key id two_members.members)
    × ((id : String)
        → lookup id (do_rebalance two_members).members
          ≡ reassigned (get_or id [] (shares_of two_members)) (lookup id two_members.members))
    × ((do_rebalance two_members).generation ≡ 5)
unfolding lookup
do_rebalance_lem_example = do_rebalance_lem two_members (refl, (refl, tt)) (omega arith)

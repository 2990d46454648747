-- ===== src/Raft/Isr.antt =====
-- What checkISR of cluster/go/raft/raft.go decides for each replica.
use distributed_mq.Prelude.{
  ltb, if◌then◌else◌, lt→ltb, Bool-cases, ◌==◌, str_iff, ◌+◌, ◌-◌, ◌^◌, ◌<◌, String, ◌≡◌, refl, ap,
  ◌∙◌, inl, inr, Bool, true, false, ◌||◌, not, Option, some, List, [], ◌∷◌, arith,
}
use distributed_mq.Prelude.{nat_eq, string_eq}
use distributed_mq.Prelude.Map.{Map, keys, lookup, insert, get_or, lookup-insert}
use distributed_mq.Raft.{leader, RaftNode}
use distributed_mq.Raft.Roles.{replica_lag, check_peers, check_isr}
use distributed_mq.Go.{sub_u64_wraps}

-- Some element is equal to the key.
abbrev pub contains : String → List String → Bool
contains k [] = false
contains k (x ∷ xs) = x == k || contains k xs

-- the verdict of the loop on a replica
abbrev pub in_sync : RaftNode → String → Bool
in_sync r addr = not (ltb r.max_lag (replica_lag r addr))

lookup-insert_fun :
    (f : String → Bool) (addr k : String) (m : Map String Bool)
    → lookup k (insert addr (f addr) m) ≡ (if addr == k then some (f k) else lookup k m)
lookup-insert_fun f addr k m = lookup-insert addr k (f addr) m ∙ elim (Bool-cases (addr == k)) [
  | inl e ↦ rw e (ap (λ a. some (f a)) ((str_iff addr k).0 e))
  | inr e ↦ rw e
]

either-if :
    (a b : Bool) (x y : Option Bool)
    → (if b then x else if a then x else y) ≡ (if a || b then x else y)
either-if a b x y = ground arith

check_peers_lem :
    (r : RaftNode) (k : String) (addrs : List String) (isr : Map String Bool)
    → lookup k (check_peers r addrs isr)
      ≡ (if contains k addrs then some (in_sync r k) else lookup k isr)
unfolding check_peers
check_peers_lem r k [] isr = refl
check_peers_lem r k (addr ∷ addrs) isr =
    check_peers_lem r k addrs (insert addr (in_sync r addr) isr)
    ∙ ap (λ (x : Option Bool). if contains k addrs then some (in_sync r k) else x)
        (lookup-insert_fun (in_sync r) addr k isr)
    ∙ either-if (addr == k) (contains k addrs) (some (in_sync r k)) (lookup k isr)

-- For a leader whose mutex is free, checkISR puts every peer into or out of the ISR according to its
-- lag, and changes no other entry.
pub check_isr_lem :
    (r : RaftNode) (k : String)
    → r.locked ≡ false
    → r.state ≡ leader
    → lookup k (check_isr r).1.isr
      ≡ (if contains k (keys r.peers) then some (in_sync r k) else lookup k r.isr)
unfolding check_isr
check_isr_lem r k free lead = ground (arith, free, lead, check_peers_lem r k (keys r.peers) r.isr)

-- A peer that is ahead of the commit index, as one that has stored entries which are not committed
-- yet, is put out of the ISR by a leader whose mutex is free: the lag wraps to a value near 2 ^ 64.
pub ahead_peer_removed :
    (r : RaftNode) (k : String)
    → r.locked ≡ false
    → r.state ≡ leader
    → contains k (keys r.peers) ≡ true
    → let matched = get_or k 0 r.match_index in
      r.commit_index < matched
      → matched < 2 ^ 64
      → r.max_lag + (matched - r.commit_index) < 2 ^ 64
      → lookup k (check_isr r).1.isr ≡ some false
ahead_peer_removed r k free lead peer ahead small room =
    let wraps : replica_lag r k ≡ 2 ^ 64 - (get_or k 0 r.match_index - r.commit_index) =
      sub_u64_wraps r.commit_index (get_or k 0 r.match_index) ahead small in
    let lagging : ltb r.max_lag (replica_lag r k) ≡ true = lt→ltb _ _ (omega (arith, wraps)) in
    check_isr_lem r k free lead ∙ rw (peer, lagging)

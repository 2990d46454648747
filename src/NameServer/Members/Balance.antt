-- ===== src/NameServer/Members/Balance.antt =====
-- In every consumer group of cluster/go/nameserver/nameserver.go each member has its share of the
-- partitions.
use distributed_mq.Prelude.{
  if-elim, match-elim, ◌==◌, str_iff, length, take, drop, All, ℕ, ◌+◌, ◌/◌, ◌%◌, ◌<◌, String, ◌≡◌,
  refl, ◌∙◌, Bool, ◌||◌, not, Option, none, some, List, [], ◌∷◌, arith,
}
use mathlib.Core.Path.{subst, sym, ap, ap₂}
use distributed_mq.Prelude.{nat_eq, string_eq}
use distributed_mq.Prelude.Map.{
  Map, keys, lookup, insert, delete, get_or, has_key, length-insert-pos, NoDup, insert-NoDup,
  delete-NoDup, All-lookup, All-insert, All-delete,
}
use distributed_mq.Groups.{
  MemberMeta, ConsumerGroup, sort_strings, clear_assignments, assigned, give, count_at, assign,
  member_ids, do_rebalance,
}
use distributed_mq.Groups.Rebalance.{shares_of, reassigned, lookup-rebalanced}
use distributed_mq.NameServer.{NameServer, Response, bad_request, not_found}
use distributed_mq.Groups.Shares.{shares, Distinct, contains-keys, keys-Distinct}
use distributed_mq.NameServer.Members.{
  new_group, admit, Joined, join, handle_join_group, after_loss, replace_group, handle_leave_group,
}

abbrev pub assignments_of : Option MemberMeta → Option (Map ℕ Bool)
assignments_of none = none
assignments_of (some m) = some m.assignments

-- A group has members, no two with one identifier, and each is assigned its share and nothing else.
abbrev pub IsBalanced : ConsumerGroup → Type 0
IsBalanced g =
    NoDup g.members
    × (0 < length g.members)
    × ((id : String)
        → assignments_of (lookup id g.members)
          ≡ assignments_of (reassigned (get_or id [] (shares_of g)) (lookup id g.members)))

abbrev pub AllBalanced : NameServer → Type 0
AllBalanced ns = All (λ (e : String × ConsumerGroup). IsBalanced e.1) ns.consumer_groups

pub keys-insert_old :
    (k : String) (v w : MemberMeta) (m : Map String MemberMeta)
    → lookup k m ≡ some w
    → keys (insert k v m) ≡ keys m
unfolding lookup insert
keys-insert_old k v w [] h = cc
keys-insert_old k v w ((j, x) ∷ m) h =
    let rest = keys-insert_old k v w m in ground (arith, str_iff j k)

keys-clear : (ms : Map String MemberMeta) → keys (clear_assignments ms) ≡ keys ms
unfolding clear_assignments
keys-clear [] = refl
keys-clear ((k, m) ∷ ms) = rw (keys-clear ms)

keys-give :
    (id : String) (ps : List ℕ) (ms : Map String MemberMeta) → keys (give id ps ms) ≡ keys ms
unfolding give
keys-give id ps ms =
    match-elim (λ (x : Map String MemberMeta). keys x ≡ keys ms) (lookup id ms) ms
      (λ m. insert id (assigned ps m) ms) (λ _. refl)
      (λ m found. keys-insert_old id (assigned ps m) m ms found)

keys-assign :
    (per remainder i : ℕ) (ids : List String) (ps : List ℕ) (ms : Map String MemberMeta)
    → keys (assign per remainder i ids ps ms) ≡ keys ms
unfolding assign
keys-assign per remainder i [] ps ms = refl
keys-assign per remainder i (id ∷ ids) ps ms =
    let n = count_at per remainder i in
    keys-assign per remainder (i + 1) ids (drop n ps) (give id (take n ps) ms)
    ∙ keys-give id (take n ps) ms

keys-rebalance : (g : ConsumerGroup) → keys (do_rebalance g).members ≡ keys g.members
unfolding do_rebalance
keys-rebalance g =
    if-elim (λ (x : ConsumerGroup). keys x.members ≡ keys g.members) (length (member_ids g) == 0) g
      _ (λ _. refl)
      (λ _.
        keys-assign (length g.partitions / length (member_ids g))
          (length g.partitions % length (member_ids g)) 0 (member_ids g) g.partitions
          (clear_assignments g.members)
        ∙ keys-clear g.members)

partitions-rebalance : (g : ConsumerGroup) → (do_rebalance g).partitions ≡ g.partitions
unfolding do_rebalance
partitions-rebalance g =
    if-elim (λ (x : ConsumerGroup). x.partitions ≡ g.partitions) (length (member_ids g) == 0) g _
      (λ _. refl) (λ _. refl)

-- The shares of the members with the given identifiers.
abbrev pub shares_by : List String → List ℕ → Map String (List ℕ)
shares_by ids ps =
    let k = length (sort_strings ids) in
    shares (length ps / k) (length ps % k) 0 (sort_strings ids) ps

shares_of-rebalance : (g : ConsumerGroup) → shares_of (do_rebalance g) ≡ shares_of g
shares_of-rebalance g = ap₂ shares_by (keys-rebalance g) (partitions-rebalance g)

Distinct-NoDup : (ms : Map String MemberMeta) → Distinct (keys ms) → NoDup ms
unfolding has_key
Distinct-NoDup [] h = tt
Distinct-NoDup ((k, m) ∷ ms) (new, h) = (ground (arith, contains-keys k ms), Distinct-NoDup ms h)

length-keys : (ms : Map String MemberMeta) → length (keys ms) ≡ length ms
length-keys [] = refl
length-keys ((k, m) ∷ ms) = omega (arith, length-keys ms)

reassigned-twice :
    (ps : List ℕ) (o : Option MemberMeta)
    → assignments_of (reassigned ps o) ≡ assignments_of (reassigned ps (reassigned ps o))
reassigned-twice ps none = refl
reassigned-twice ps (some m) = refl

pub do_rebalance-IsBalanced :
    (g : ConsumerGroup) → NoDup g.members → 0 < length g.members → IsBalanced (do_rebalance g)
do_rebalance-IsBalanced g distinct filled = (
  Distinct-NoDup (do_rebalance g).members
      (subst Distinct (sym (keys-rebalance g)) (keys-Distinct g.members distinct)),
  subst (λ n. 0 < n)
      (sym (length-keys g.members)
        ∙ ap length (sym (keys-rebalance g))
        ∙ length-keys (do_rebalance g).members)
      filled,
  λ id.
      rw (lookup-rebalanced id g distinct filled, shares_of-rebalance g)
        (reassigned-twice (get_or id [] (shares_of g)) (lookup id g.members)),
)

admit-Filled :
    (client_id : String) (now : ℕ) (g : ConsumerGroup)
    → NoDup g.members
    → NoDup (admit client_id now g).members × (0 < length (admit client_id now g).members)
admit-Filled client_id now g distinct =
    (insert-NoDup client_id _ g.members distinct, length-insert-pos client_id _ g.members)

join-AllBalanced :
    (group_id client_id topic : String) (now : ℕ) (g : ConsumerGroup) (ns : NameServer)
    → NoDup g.members
    → AllBalanced ns
    → AllBalanced (join group_id client_id topic now g ns).1
unfolding join
join-AllBalanced group_id client_id topic now g ns distinct all =
    if-elim (λ (x : Response Joined × NameServer). AllBalanced x.1) (not (g.topic == topic))
      (bad_request, ns) _ (λ _. all)
      (λ _.
        let (distinct', filled) = admit-Filled client_id now g distinct in
        All-insert (λ (e : String × ConsumerGroup). IsBalanced e.1) group_id
          (do_rebalance (admit client_id now g)) ns.consumer_groups
          (do_rebalance-IsBalanced (admit client_id now g) distinct' filled) all)

pub found-IsBalanced :
    (group_id : String) (g : ConsumerGroup) (ns : NameServer)
    → AllBalanced ns
    → lookup group_id ns.consumer_groups ≡ some g
    → IsBalanced g
found-IsBalanced group_id g ns all found =
    All-lookup IsBalanced ns.consumer_groups group_id g all found

pub handle_join_group-AllBalanced :
    (group_id client_id topic : String) (now : ℕ) (ns : NameServer)
    → AllBalanced ns
    → AllBalanced (handle_join_group group_id client_id topic now ns).1
unfolding handle_join_group
handle_join_group-AllBalanced group_id client_id topic now ns all =
    if-elim (λ (x : Response Joined × NameServer). AllBalanced x.1)
      (group_id == "" || client_id == "" || topic == "") (bad_request, ns) _ (λ _. all)
      (λ _.
        match-elim (λ (x : Response Joined × NameServer). AllBalanced x.1)
          (lookup group_id ns.consumer_groups) _ (λ g. join group_id client_id topic now g ns)
          (λ _.
            match-elim (λ (x : Response Joined × NameServer). AllBalanced x.1)
              (lookup topic ns.topics) (not_found, ns)
              (λ info. join group_id client_id topic now (new_group group_id topic info) ns)
              (λ _. all)
              (λ info _.
                join-AllBalanced group_id client_id topic now (new_group group_id topic info) ns tt
                  all))
          (λ g found.
            join-AllBalanced group_id client_id topic now g ns
              (found-IsBalanced group_id g ns all found).0 all))

replace_group-AllBalanced :
    (group_id : String) (g : ConsumerGroup) (ns : NameServer)
    → NoDup g.members
    → AllBalanced ns
    → AllBalanced (replace_group group_id (after_loss g) ns)
unfolding after_loss
replace_group-AllBalanced group_id g ns distinct all =
    if-elim (λ o. AllBalanced (replace_group group_id o ns)) (length g.members == 0) none
      (some (do_rebalance g))
      (λ _.
        All-delete (λ (e : String × ConsumerGroup). IsBalanced e.1) group_id ns.consumer_groups all)
      (λ some_left.
        All-insert (λ (e : String × ConsumerGroup). IsBalanced e.1) group_id (do_rebalance g)
          ns.consumer_groups (do_rebalance-IsBalanced g distinct (ground arith)) all)

pub handle_leave_group-AllBalanced :
    (group_id client_id : String) (ns : NameServer)
    → AllBalanced ns
    → AllBalanced (handle_leave_group group_id client_id ns).1
unfolding handle_leave_group
handle_leave_group-AllBalanced group_id client_id ns all =
    if-elim (λ (x : Response (Unit {0}) × NameServer). AllBalanced x.1)
      (group_id == "" || client_id == "") (bad_request, ns) _ (λ _. all)
      (λ _.
        match-elim (λ (x : Response (Unit {0}) × NameServer). AllBalanced x.1)
          (lookup group_id ns.consumer_groups) (not_found, ns) _ (λ _. all)
          (λ g found.
            replace_group-AllBalanced group_id (record g { members = delete client_id g.members })
              ns (delete-NoDup client_id g.members (found-IsBalanced group_id g ns all found).0)
              all))

-- ===== src/NameServer/Members.antt =====
-- The members of consumer groups, of cluster/go/nameserver/nameserver.go: handleJoinGroup,
-- handleHeartbeat, handleLeaveGroup and a tick of startHeartbeatChecker.
pub mod Balance
pub mod Beats
use distributed_mq.Prelude.{
  ltb, leb, if◌then◌else◌, ◌==◌, length, ℕ, ◌-◌, String, ◌||◌, not, Option, none, some, List, [],
  ◌∷◌,
}
use distributed_mq.Prelude.{nat_eq, string_eq}
use distributed_mq.Prelude.Map.{Map, keys, lookup, insert, delete}
use distributed_mq.Groups.{MemberMeta, ConsumerGroup, do_rebalance}
use distributed_mq.NameServer.{TopicInfo, NameServer, success, bad_request, not_found, Handle}

abbrev pub insert_int : ℕ → List ℕ → List ℕ
insert_int n [] = n ∷ []
insert_int n (k ∷ ks) = let rest = insert_int n ks in if leb n k then n ∷ k ∷ ks else k ∷ rest

-- sort.Ints
abbrev pub sort_ints : List ℕ → List ℕ
sort_ints [] = []
sort_ints (n ∷ ns) = insert_int n (sort_ints ns)

abbrev pub new_group : String → String → TopicInfo → ConsumerGroup
new_group group_id topic info = record {
  group_id = group_id;
  members = [];
  topic = topic;
  partitions = sort_ints (keys info.partitions);
  generation = 1;
}

abbrev pub new_member : String → ℕ → MemberMeta
new_member client_id now = record { client_id = client_id; heartbeat = now; assignments = [] }

abbrev pub beat : ℕ → MemberMeta → MemberMeta
beat now member = record member { heartbeat = now }

-- the member of handleJoinGroup: a new one, or one whose heartbeat is now
abbrev pub admit : String → ℕ → ConsumerGroup → ConsumerGroup
admit client_id now g = record g {
  members =
      insert client_id
        (elim (lookup client_id g.members) [
          | none ↦ new_member client_id now
          | some member ↦ beat now member
        ])
        g.members;
}

abbrev pub put_group : String → ConsumerGroup → NameServer → NameServer
put_group group_id g ns = record ns { consumer_groups = insert group_id g ns.consumer_groups }

-- what handleJoinGroup replies: the generation and the sorted assignments of the member
pub record Joined : Type 0 where
  pub generation : ℕ
  pub assignments : List ℕ

abbrev pub joined : String → ConsumerGroup → Joined
joined client_id g = record {
  generation = g.generation;
  assignments = elim (lookup client_id g.members) [
    | none ↦ []
    | some member ↦ sort_ints (keys member.assignments)
  ];
}

-- from the test of the topic on
unfoldable pub join : (group_id client_id topic : String) → ℕ → ConsumerGroup → Handle Joined
unfolding do_rebalance
join group_id client_id topic now g ns = if not (g.topic == topic) then (bad_request, ns) else (
  success (joined client_id (do_rebalance (admit client_id now g))),
  put_group group_id (do_rebalance (admit client_id now g)) ns,
)

-- handleJoinGroup
unfoldable pub handle_join_group : (group_id client_id topic : String) → ℕ → Handle Joined
unfolding join
handle_join_group group_id client_id topic now ns =
    if group_id == "" || client_id == "" || topic == ""
    then (bad_request, ns)
    else elim (lookup group_id ns.consumer_groups) [
      | some g ↦ join group_id client_id topic now g ns
      | none ↦ elim (lookup topic ns.topics) [
        | none ↦ (not_found, ns)
        | some info ↦ join group_id client_id topic now (new_group group_id topic info) ns
      ]
    ]

-- handleHeartbeat
unfoldable pub handle_heartbeat : (group_id client_id : String) → ℕ → Handle (Unit {0})
handle_heartbeat group_id client_id now ns =
    if group_id == "" || client_id == ""
    then (bad_request, ns)
    else elim (lookup group_id ns.consumer_groups) [
      | none ↦ (not_found, ns)
      | some g ↦ elim (lookup client_id g.members) [
        | none ↦ (not_found, ns)
        | some member ↦ (
          success tt,
          put_group group_id (record g { members = insert client_id (beat now member) g.members })
              ns,
        )
      ]
    ]

-- a group after it lost members: none if it has no member left
unfoldable pub after_loss : ConsumerGroup → Option ConsumerGroup
unfolding do_rebalance
after_loss g = if length g.members == 0 then none else some (do_rebalance g)

abbrev pub replace_group : String → Option ConsumerGroup → NameServer → NameServer
replace_group group_id none ns = record ns { consumer_groups = delete group_id ns.consumer_groups }
replace_group group_id (some g) ns = put_group group_id g ns

-- handleLeaveGroup
unfoldable pub handle_leave_group : (group_id client_id : String) → Handle (Unit {0})
unfolding after_loss
handle_leave_group group_id client_id ns =
    if group_id == "" || client_id == ""
    then (bad_request, ns)
    else elim (lookup group_id ns.consumer_groups) [
      | none ↦ (not_found, ns)
      | some g ↦ (
        success tt,
        replace_group group_id (after_loss (record g { members = delete client_id g.members })) ns,
      )
    ]

-- deadMembers of a group: those whose last heartbeat is more than 30 seconds ago
abbrev pub dead_members : ℕ → Map String MemberMeta → List String
dead_members now [] = []
dead_members now ((id, member) ∷ ms) =
    let rest = dead_members now ms in
    if ltb 30000000000 (now - member.heartbeat) then id ∷ rest else rest

abbrev pub delete_all : List String → Map String MemberMeta → Map String MemberMeta
delete_all [] ms = ms
delete_all (id ∷ ids) ms = delete_all ids (delete id ms)

-- what the checker does to a group with the given dead members
abbrev pub drop_dead : List String → ConsumerGroup → Option ConsumerGroup
drop_dead [] g = some g
drop_dead (id ∷ ids) g = after_loss (record g { members = delete_all (id ∷ ids) g.members })

abbrev pub check_group : ℕ → ConsumerGroup → Option ConsumerGroup
check_group now g = drop_dead (dead_members now g.members) g

abbrev pub keep_group :
    String → Option ConsumerGroup → Map String ConsumerGroup → Map String ConsumerGroup
keep_group id none gs = gs
keep_group id (some g) gs = (id, g) ∷ gs

-- a tick of startHeartbeatChecker; what it does to one group does not depend on the others
unfoldable pub check_groups : ℕ → Map String ConsumerGroup → Map String ConsumerGroup
unfolding after_loss
check_groups now [] = []
check_groups now ((id, g) ∷ gs) = keep_group id (check_group now g) (check_groups now gs)

unfoldable pub check_heartbeats : ℕ → NameServer → NameServer
unfolding check_groups
check_heartbeats now ns = record ns { consumer_groups = check_groups now ns.consumer_groups }

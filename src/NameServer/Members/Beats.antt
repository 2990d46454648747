-- ===== src/NameServer/Members/Beats.antt =====
-- Heartbeats of cluster/go/nameserver/nameserver.go keep every consumer group balanced, and so do
-- all handlers in any order.
use mathlib.Core.Path.{ap₂, subst}
use distributed_mq.Prelude.{
  Bool-cases, if-elim, match-elim, ◌==◌, str_iff, length, All, ℕ, String, ◌≡◌, refl, inl, inr, ◌||◌,
  none, some, List, [], ◌∷◌, arith,
}
use distributed_mq.Prelude.{nat_eq, string_eq}
use distributed_mq.Prelude.Map.{
  Map, lookup, insert, delete, get_or, has_key, lookup-insert, length-insert-pos, NoDup,
  insert-NoDup, delete-NoDup, All-insert,
}
use distributed_mq.Groups.{MemberMeta, ConsumerGroup, do_rebalance}
use distributed_mq.Groups.Rebalance.{shares_of, reassigned}
use distributed_mq.NameServer.{
  NameServer, Response, success, bad_request, not_found, conflict, unavailable, Field, find_broker,
  refreshed, handle_register, get_available_brokers, partitions_of, create_topic,
  handle_create_topic,
}
use distributed_mq.NameServer.Members.{
  beat, handle_join_group, handle_heartbeat, after_loss, handle_leave_group, dead_members,
  delete_all, drop_dead, keep_group, check_groups, check_heartbeats,
}
use distributed_mq.NameServer.Members.Balance.{
  assignments_of, IsBalanced, AllBalanced, keys-insert_old, shares_by, do_rebalance-IsBalanced,
  found-IsBalanced, handle_join_group-AllBalanced, handle_leave_group-AllBalanced,
}

abbrev with_beat : String → ℕ → MemberMeta → ConsumerGroup → ConsumerGroup
with_beat client_id now member g = record g {
  members = insert client_id (beat now member) g.members;
}

shares_of-beat :
    (client_id : String) (now : ℕ) (member : MemberMeta) (g : ConsumerGroup)
    → lookup client_id g.members ≡ some member
    → shares_of (with_beat client_id now member g) ≡ shares_of g
shares_of-beat client_id now member g found =
    ap₂ shares_by (keys-insert_old client_id (beat now member) member g.members found) refl

with_beat-IsBalanced :
    (client_id : String) (now : ℕ) (member : MemberMeta) (g : ConsumerGroup)
    → lookup client_id g.members ≡ some member
    → IsBalanced g
    → IsBalanced (with_beat client_id now member g)
with_beat-IsBalanced client_id now member g found (distinct, filled, shared) = (
  insert-NoDup client_id (beat now member) g.members distinct,
  length-insert-pos client_id (beat now member) g.members,
  λ id.
      let own = shared id in
      let at = lookup-insert client_id id (beat now member) g.members in
      elim (Bool-cases (client_id == id)) [
        | inl same ↦
            let old : lookup id g.members ≡ some member = ground (arith, str_iff client_id id) in
            rw (shares_of-beat client_id now member g found, at, same)
              (subst
                (λ o. assignments_of o ≡ assignments_of (reassigned (get_or id [] (shares_of g)) o))
                old own)
        | inr other ↦ rw (shares_of-beat client_id now member g found, at, other) own
      ],
)

handle_heartbeat-AllBalanced :
    (group_id client_id : String) (now : ℕ) (ns : NameServer)
    → AllBalanced ns
    → AllBalanced (handle_heartbeat group_id client_id now ns).1
unfolding handle_heartbeat
handle_heartbeat-AllBalanced group_id client_id now ns all =
    if-elim (λ (x : Response (Unit {0}) × NameServer). AllBalanced x.1)
      (group_id == "" || client_id == "") (bad_request, ns) _ (λ _. all)
      (λ _.
        match-elim (λ (x : Response (Unit {0}) × NameServer). AllBalanced x.1)
          (lookup group_id ns.consumer_groups) (not_found, ns) _ (λ _. all)
          (λ g found.
            match-elim (λ (x : Response (Unit {0}) × NameServer). AllBalanced x.1)
              (lookup client_id g.members) (not_found, ns) _ (λ _. all)
              (λ member there.
                All-insert (λ (e : String × ConsumerGroup). IsBalanced e.1) group_id
                  (with_beat client_id now member g) ns.consumer_groups
                  (with_beat-IsBalanced client_id now member g there
                    (found-IsBalanced group_id g ns all found))
                  all)))

delete_all-NoDup :
    (ids : List String) (ms : Map String MemberMeta) → NoDup ms → NoDup (delete_all ids ms)
delete_all-NoDup [] ms h = h
delete_all-NoDup (id ∷ ids) ms h = delete_all-NoDup ids (delete id ms) (delete-NoDup id ms h)

abbrev Groups : Type 0
Groups = Map String ConsumerGroup

abbrev AllOf : Groups → Type 0
AllOf gs = All (λ (e : String × ConsumerGroup). IsBalanced e.1) gs

after_loss-AllOf :
    (id : String) (g : ConsumerGroup) (gs : Groups)
    → NoDup g.members
    → AllOf gs
    → AllOf (keep_group id (after_loss g) gs)
unfolding after_loss
after_loss-AllOf id g gs distinct all =
    if-elim (λ o. AllOf (keep_group id o gs)) (length g.members == 0) none (some (do_rebalance g))
      (λ _. all) (λ some_left. (do_rebalance-IsBalanced g distinct (ground arith), all))

drop_dead-AllOf :
    (dead : List String) (id : String) (g : ConsumerGroup) (gs : Groups)
    → IsBalanced g
    → AllOf gs
    → AllOf (keep_group id (drop_dead dead g) gs)
drop_dead-AllOf [] id g gs balanced all = (balanced, all)
drop_dead-AllOf (d ∷ ds) id g gs balanced all =
    after_loss-AllOf id (record g { members = delete_all (d ∷ ds) g.members }) gs
      (delete_all-NoDup (d ∷ ds) g.members balanced.0) all

check_groups-AllOf : (now : ℕ) (gs : Groups) → AllOf gs → AllOf (check_groups now gs)
unfolding check_groups
check_groups-AllOf now [] all = tt
check_groups-AllOf now ((id, g) ∷ gs) (balanced, all) =
    drop_dead-AllOf (dead_members now g.members) id g (check_groups now gs) balanced
      (check_groups-AllOf now gs all)

-- One handler that changes consumer groups.
pub data Step (ns : NameServer) : NameServer → Type 0 where
  joined_by :
      (group_id client_id topic : String) (now : ℕ)
      → Step ns (handle_join_group group_id client_id topic now ns).1
  beaten :
      (group_id client_id : String) (now : ℕ)
      → Step ns (handle_heartbeat group_id client_id now ns).1
  left_by : (group_id client_id : String) → Step ns (handle_leave_group group_id client_id ns).1
  checked : (now : ℕ) → Step ns (check_heartbeats now ns)
  topic_created :
      (topic : String) (field : Field) (now : ℕ)
      → Step ns (handle_create_topic topic field now ns).1
  registered :
      (addr client_addr hostname : String) (now : ℕ)
      → Step ns (handle_register addr client_addr hostname now ns).1

pub data Reach (ns : NameServer) : NameServer → Type 0 where
  here : Reach ns ns
  next : {a b : NameServer} → Reach ns a → Step a b → Reach ns b

create_topic-groups :
    (topic : String) (field : Field) (now : ℕ) (ns : NameServer)
    → AllBalanced ns
    → AllBalanced (handle_create_topic topic field now ns).1
unfolding handle_create_topic create_topic
create_topic-groups topic field now ns all =
    if-elim (λ (x : Response ℕ × NameServer). AllBalanced x.1) (topic == "") (bad_request, ns) _
      (λ _. all)
      (λ _.
        match-elim (λ (x : Response ℕ × NameServer). AllBalanced x.1) (partitions_of field)
          (bad_request, ns) (λ n. create_topic topic n now ns) (λ _. all)
          (λ n _.
            if-elim (λ (x : Response ℕ × NameServer). AllBalanced x.1) (has_key topic ns.topics)
              (conflict, ns) _ (λ _. all)
              (λ _.
                if-elim (λ (x : Response ℕ × NameServer). AllBalanced x.1)
                  (length (get_available_brokers now ns.brokers) == 0) (unavailable, ns) _
                  (λ _. all) (λ _. all))))

register-groups :
    (addr client_addr hostname : String) (now : ℕ) (ns : NameServer)
    → AllBalanced ns
    → AllBalanced (handle_register addr client_addr hostname now ns).1
unfolding handle_register
register-groups addr client_addr hostname now ns all =
    if-elim (λ (x : Response ℕ × NameServer). AllBalanced x.1) (addr == "" || client_addr == "")
      (bad_request, ns) _ (λ _. all)
      (λ _.
        match-elim (λ (x : Response ℕ × NameServer). AllBalanced x.1) (find_broker addr ns.brokers)
          _
          (λ e. (
            success e.1.broker_id,
            record ns { brokers = insert e.0 (refreshed client_addr hostname now e.1) ns.brokers },
          ))
          (λ _. all) (λ e _. all))

Step-AllBalanced :
    (ns : NameServer) {after : NameServer} → Step ns after → AllBalanced ns → AllBalanced after
unfolding check_heartbeats
Step-AllBalanced ns (joined_by group_id client_id topic now) all =
    handle_join_group-AllBalanced group_id client_id topic now ns all
Step-AllBalanced ns (beaten group_id client_id now) all =
    handle_heartbeat-AllBalanced group_id client_id now ns all
Step-AllBalanced ns (left_by group_id client_id) all =
    handle_leave_group-AllBalanced group_id client_id ns all
Step-AllBalanced ns (checked now) all = check_groups-AllOf now ns.consumer_groups all
Step-AllBalanced ns (topic_created topic field now) all = create_topic-groups topic field now ns all
Step-AllBalanced ns (registered addr client_addr hostname now) all =
    register-groups addr client_addr hostname now ns all

-- In every run of the name server that starts with balanced consumer groups, through any handlers in
-- any order, the groups stay balanced: each has members, no two with one identifier, and each member
-- is assigned its share of the partitions of the group and nothing else.
pub Reach-AllBalanced :
    (ns after : NameServer) → Reach ns after → AllBalanced ns → AllBalanced after
Reach-AllBalanced ns after here all = all
Reach-AllBalanced ns after (next {a} run step) all =
    Step-AllBalanced a step (Reach-AllBalanced ns a run all)

-- ===== src/Groups.antt =====
-- The consumer groups of cluster/go/nameserver/nameserver.go: doRebalance, and what handleJoinGroup,
-- handleHeartbeat, handleLeaveGroup and startHeartbeatChecker do to the groups. Each holds the
-- mutex of the name server, so that it is one step. The members are objects that only their group
-- points to, so that the map holds them.
pub mod Shares
pub mod Rebalance
use Prim.Native.String.{compare as compare_text}
use text.Mathlib.Text.{is_le}
use distributed_mq.Prelude.{
  ltb, if◌then◌else◌, ◌==◌, length, take, drop, ℕ, ◌+◌, ◌/◌, ◌%◌, String, Bool, true, none, some,
  List, [], ◌∷◌,
}
use distributed_mq.Prelude.{nat_eq, string_eq}
use distributed_mq.Prelude.Map.{Map, keys, lookup, insert}

pub record MemberMeta : Type 0 where
  pub client_id : String
  pub heartbeat : ℕ
  pub assignments : Map ℕ Bool

pub record ConsumerGroup : Type 0 where
  pub group_id : String
  pub members : Map String MemberMeta
  pub topic : String
  pub partitions : List ℕ
  pub generation : ℕ

abbrev pub insert_sorted : String → List String → List String
insert_sorted s [] = s ∷ []
insert_sorted s (t ∷ ts) =
    let rest = insert_sorted s ts in if is_le (compare_text s t) then s ∷ t ∷ ts else t ∷ rest

-- sort.Strings
abbrev pub sort_strings : List String → List String
sort_strings [] = []
sort_strings (s ∷ ss) = insert_sorted s (sort_strings ss)

-- `member.Assignments = make(map[int]bool)` for every member
unfoldable pub clear_assignments : Map String MemberMeta → Map String MemberMeta
clear_assignments [] = []
clear_assignments ((id, member) ∷ ms) =
    (id, record member { assignments = [] }) ∷ clear_assignments ms

-- the inner loop: `Assignments[p] = true` for the given partitions
abbrev pub set_all : List ℕ → Map ℕ Bool → Map ℕ Bool
set_all [] a = a
set_all (p ∷ ps) a = set_all ps (insert p true a)

abbrev pub assigned : List ℕ → MemberMeta → MemberMeta
assigned ps member = record member { assignments = set_all ps member.assignments }

-- the same through `group.Members[memberID]`, where `memberID` is always a key
unfoldable pub give : String → List ℕ → Map String MemberMeta → Map String MemberMeta
give id ps ms = elim (lookup id ms) [ none ↦ ms | some member ↦ insert id (assigned ps member) ms ]

-- `count` for the member at index `i`
abbrev pub count_at : (per_member remainder i : ℕ) → ℕ
count_at per_member remainder i = if ltb i remainder then per_member + 1 else per_member

-- the outer loop from index `i` on, with the partitions from partitionIndex on
unfoldable pub assign :
    (per_member remainder i : ℕ) (ids : List String) (partitions : List ℕ)
    → Map String MemberMeta
    → Map String MemberMeta
unfolding give
assign per_member remainder i [] partitions ms = ms
assign per_member remainder i (id ∷ ids) partitions ms =
    assign per_member remainder (i + 1) ids (drop (count_at per_member remainder i) partitions)
      (give id (take (count_at per_member remainder i) partitions) ms)

abbrev pub member_ids : ConsumerGroup → List String
member_ids g = sort_strings (keys g.members)

-- doRebalance, on the group that it looks up
unfoldable pub do_rebalance : ConsumerGroup → ConsumerGroup
unfolding assign clear_assignments
do_rebalance g = if length (member_ids g) == 0 then g else record g {
  members =
      assign (length g.partitions / length (member_ids g))
        (length g.partitions % length (member_ids g)) 0 (member_ids g) g.partitions
        (clear_assignments g.members);
  generation = g.generation + 1;
}

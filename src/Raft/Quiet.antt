-- ===== src/Raft/Quiet.antt =====
-- Operations of cluster/go/raft/raft.go that leave the term and the vote alone.
use distributed_mq.Prelude.{
  ltb, if◌then◌else◌, if-elim, match-elim, ◌==◌, get_elem?, ℕ, zero, suc, ◌+◌, ◌-◌, String, Bool,
  true, false, ◌||◌, not, Option, none, some, List, [], ◌∷◌, ◌++◌,
}
use distributed_mq.Prelude.{nat_eq, string_eq}
use distributed_mq.Prelude.Map.{keys, get_or, has_key}
use distributed_mq.Go.{Outcome, ret, panic}
use distributed_mq.Raft.{
  config_stable, config_joint, EntryType, conf_change, joint_consensus, ConfigEntry, LogEntry, Task,
  append_stable, RaftNode,
}
use distributed_mq.Raft.Roles.{Handler, is_leader}
use distributed_mq.Raft.Membership.{
  config_of, add_learner, add_learners, drop_peer, drop_peers, apply_config, apply_config_change,
}
use distributed_mq.Raft.Commit.{
  is_config_entry, Select, apply_entry, apply_next, apply_round, apply_loop,
  apply_committed_entries,
}
use distributed_mq.Raft.Votes.{SameVote, SameVote-trans, SameVote-frame}
use distributed_mq.Raft.Frame.{Frames, frame-if, frame-with_lock, frame-bind}

SameVote-refl : (r : RaftNode) → SameVote r r
SameVote-refl = SameVote-frame.same

add_learner-quiet : (addr : String) (r : RaftNode) → SameVote r (add_learner addr r)
unfolding add_learner
add_learner-quiet addr r =
    if-elim (SameVote r) (has_key addr r.peers || addr == r.self_addr) r _ (λ _. SameVote-refl r)
      (λ _. SameVote-refl r)

add_learners-quiet : (addrs : List String) (r : RaftNode) → SameVote r (add_learners addrs r)
unfolding add_learners
add_learners-quiet [] r = SameVote-refl r
add_learners-quiet (addr ∷ addrs) r =
    SameVote-trans r (add_learner addr r) (add_learners addrs (add_learner addr r))
      (add_learner-quiet addr r) (add_learners-quiet addrs (add_learner addr r))

drop_peer-quiet : (addr : String) (r : RaftNode) → SameVote r (drop_peer addr r)
unfolding drop_peer
drop_peer-quiet addr r =
    if-elim (SameVote r) (get_or addr false r.current_config) r _ (λ _. SameVote-refl r)
      (λ _. SameVote-refl r)

drop_peers-quiet : (addrs : List String) (r : RaftNode) → SameVote r (drop_peers addrs r)
unfolding drop_peers
drop_peers-quiet [] r = SameVote-refl r
drop_peers-quiet (addr ∷ addrs) r =
    SameVote-trans r (drop_peer addr r) (drop_peers addrs (drop_peer addr r))
      (drop_peer-quiet addr r) (drop_peers-quiet addrs (drop_peer addr r))

spawn_if_leader-quiet :
    (r s : RaftNode) (task : Task)
    → SameVote r s
    → SameVote r (if is_leader s.state then record s { spawned = s.spawned ++ task ∷ [] } else s)
spawn_if_leader-quiet r s task h =
    if-elim (SameVote r) (is_leader s.state) (record s { spawned = s.spawned ++ task ∷ [] }) s
      (λ _. h) (λ _. h)

apply_config-quiet :
    (type : EntryType) (c : Option ConfigEntry) (r : RaftNode) → SameVote r (apply_config type c r)
apply_config-quiet joint_consensus (some c) r =
    let joined : RaftNode = record r {
      current_config = config_of c.old_peers [];
      new_config = some (config_of c.new_peers []);
      config_state = config_joint;
    } in
    spawn_if_leader-quiet r (add_learners c.new_peers joined) append_stable
      (add_learners-quiet c.new_peers joined)
apply_config-quiet conf_change (some c) r = drop_peers-quiet (keys r.peers) (record r {
  current_config = config_of c.new_peers [];
  new_config = none;
  config_state = config_stable;
})
apply_config-quiet _ _ r = SameVote-refl r

module _ (select : Select) where
  apply_entry-quiet : (entry : LogEntry) → Frames SameVote (apply_entry select entry)
  unfolding apply_entry apply_config_change
  apply_entry-quiet entry r =
      frame-if SameVote r (is_config_entry entry.type) (ret true, apply_config_change entry r) _
        (λ _. apply_config-quiet entry.type entry.config r)
        (λ _.
          frame-if SameVote r (not r.has_apply_ch) (ret true, r) _ (λ _. SameVote-refl r)
            (λ _.
              frame-if SameVote r (select entry)
                (ret true, record r { delivered = r.delivered ++ entry ∷ [] })
                (panic, record r { locked = false }) (λ _. SameVote-refl r) (λ _. SameVote-refl r)))

  apply_next-quiet : Frames SameVote (apply_next select)
  unfolding apply_next
  apply_next-quiet r =
      match-elim (λ (p : Outcome Bool × RaftNode). SameVote r p.1) (get_elem? r.log r.last_applied)
        (panic, r) (λ entry. apply_entry select entry r) (λ _. SameVote-refl r)
        (λ entry _. apply_entry-quiet entry r)

  apply_round-quiet : Frames SameVote (apply_round select)
  unfolding apply_round
  apply_round-quiet r =
      frame-if SameVote r (ltb r.last_applied r.commit_index) _ (ret false, r)
        (λ _. apply_next-quiet (record r { last_applied = r.last_applied + 1 }))
        (λ _. SameVote-refl r)

  more-quiet :
      (m : Handler (Unit {0})) (more : Bool)
      → Frames SameVote m
      → Frames SameVote (elim more [ true ↦ m | false ↦ λ r. (ret tt, r) ])
  more-quiet m true h = h
  more-quiet m false h = SameVote-refl

  pub apply_loop-quiet : (rounds : ℕ) → Frames SameVote (apply_loop select rounds)
  unfolding apply_loop
  apply_loop-quiet zero = SameVote-refl
  apply_loop-quiet (suc rounds) =
      frame-bind SameVote-frame (apply_round select) _ apply_round-quiet
        (λ more. more-quiet (apply_loop select rounds) more (apply_loop-quiet rounds))

  pub apply_committed_entries-quiet : Frames SameVote (apply_committed_entries select)
  unfolding apply_committed_entries
  apply_committed_entries-quiet =
      frame-with_lock SameVote-frame (λ r. apply_loop select (r.commit_index - r.last_applied) r)
        (λ r. apply_loop-quiet (r.commit_index - r.last_applied) r)

-- ===== src/Raft/Clients.antt =====
-- `SameVote` of the operations of cluster/go/raft/raft.go that clients call or that a leader starts.
use distributed_mq.Prelude.{
  ltb, leb, if-elim, match-elim, ◌==◌, length, last?, ℕ, ◌+◌, String, refl, Bool, true, false, ◌&&◌,
  not, Option, none, some, List,
}
use distributed_mq.Prelude.{nat_eq, string_eq}
use distributed_mq.Raft.Frame.{Frames, frame-if, frame-with_lock, frame-bind, frame-then}
use distributed_mq.Raft.Votes.{SameVote, SameVote-frame}
use distributed_mq.Raft.Quiet.{apply_committed_entries-quiet}
use distributed_mq.Prelude.Map.{insert, get_or}
use distributed_mq.Go.{sub_u64, Outcome, ret, panic, blocked, ◌>>◌}
use distributed_mq.Raft.{RaftNode}
use distributed_mq.Raft.Roles.{
  Handler, unlock, update, send_heartbeats, is_leader, check_isr_locked, check_isr, is_joint,
}
use distributed_mq.Raft.Membership.{
  change_config_locked, change_config, add_node, remove_node, append_stable_config,
}
use distributed_mq.Raft.Commit.{
  Select, apply_committed_entries, command_entry, Submitted, refused, submitted, append_command,
  closed_channel, submit_alone, submit_replicated, submit_command,
}
use distributed_mq.Raft.Replication.{snapshot_threshold, next_for, fix_next, begin_append}
use distributed_mq.Raft.Snapshot.{
  InstallSnapshotArgs, create_snapshot, snapshot_args, snapshot_request, begin_snapshot,
}

fix_next-quiet : (addr : String) (r : RaftNode) → SameVote r (fix_next addr r)
fix_next-quiet addr r =
    if-elim (SameVote r) (get_or addr 0 r.next_index == 0) _ r (λ _. (refl, refl))
      (λ _. (refl, refl))

pub begin_append-quiet : (addr : String) → Frames SameVote (begin_append addr)
unfolding begin_append
begin_append-quiet addr r =
    frame-if SameVote r r.locked (blocked, r) _ (λ _. (refl, refl))
      (λ _.
        frame-if SameVote r (not (is_leader r.state)) (ret none, r) _ (λ _. (refl, refl))
          (λ _.
            frame-if SameVote r (ltb (next_for addr r) (sub_u64 (length r.log) snapshot_threshold))
              _ _ (λ _. fix_next-quiet addr r)
              (λ _.
                frame-if SameVote r (ltb (length r.log) (next_for addr r)) _ _
                  (λ _. fix_next-quiet addr r) (λ _. fix_next-quiet addr r))))

create_snapshot-quiet : Frames SameVote create_snapshot
unfolding create_snapshot
create_snapshot-quiet r =
    frame-if SameVote r r.locked (blocked, r) (ret r.log, r) (λ _. (refl, refl)) (λ _. (refl, refl))

snapshot_request-quiet : Frames SameVote snapshot_request
snapshot_request-quiet r =
    match-elim (λ (p : Outcome (Option InstallSnapshotArgs) × RaftNode). SameVote r p.1)
      (last? r.log) (panic, r) _ (λ _. (refl, refl))
      (λ last _.
        frame-bind SameVote-frame create_snapshot
          (λ content s. (ret (some (snapshot_args r last content)), record s { locked = false }))
          create_snapshot-quiet (λ _ s. (refl, refl)) r)

pub begin_snapshot-quiet : Frames SameVote begin_snapshot
unfolding begin_snapshot
begin_snapshot-quiet r =
    frame-if SameVote r r.locked (blocked, r) _ (λ _. (refl, refl))
      (λ _.
        frame-if SameVote r (not (is_leader r.state)) (ret none, r) _ (λ _. (refl, refl))
          (λ _. snapshot_request-quiet (record r { locked = true })))

unlock-quiet : Frames SameVote unlock
unlock-quiet r =
    frame-if SameVote r r.locked (ret tt, record r { locked = false }) (panic, r)
      (λ _. (refl, refl)) (λ _. (refl, refl))

pub send_heartbeats-quiet : (r : RaftNode) → SameVote r (send_heartbeats r)
unfolding send_heartbeats
send_heartbeats-quiet r = (refl, refl)

submit_alone-quiet : (select : Select) (index : ℕ) → Frames SameVote (submit_alone select index)
submit_alone-quiet select index =
    let leave : Handler Submitted = unlock >> closed_channel index in
    let apply : Handler Submitted = apply_committed_entries select >> leave in
    frame-then SameVote-frame (update (λ r. record r { commit_index = index })) apply
      (λ s. (refl, refl))
      (frame-then SameVote-frame (apply_committed_entries select) leave
        (apply_committed_entries-quiet select)
        (frame-then SameVote-frame unlock (closed_channel index) unlock-quiet (λ s. (refl, refl))))

submit_replicated-quiet : (index chan : ℕ) → Frames SameVote (submit_replicated index chan)
submit_replicated-quiet index chan =
    let answer : Handler Submitted = λ s. (ret (submitted index chan), s) in
    let announce : Handler Submitted = update send_heartbeats >> answer in
    let leave : Handler Submitted = unlock >> announce in
    frame-then SameVote-frame
      (update (λ r. record r {
        pending_commit = insert index chan r.pending_commit;
        next_chan = chan + 1;
      }))
      leave (λ s. (refl, refl))
      (frame-then SameVote-frame unlock announce unlock-quiet (
        frame-then SameVote-frame (update send_heartbeats) answer send_heartbeats-quiet
          (λ s. (refl, refl))))

pub submit_command-quiet :
    (select : Select) (topic : String) (partition : ℕ) (payload : List ℕ)
    → Frames SameVote (submit_command select topic partition payload)
unfolding submit_command
submit_command-quiet select topic partition payload r =
    let r' =
      append_command (command_entry topic partition payload r) (record r { locked = true }) in
    frame-if SameVote r r.locked (blocked, r) _ (λ _. (refl, refl))
      (λ _.
        frame-if SameVote r (not (is_leader r.state)) (ret refused, r) _ (λ _. (refl, refl))
          (λ _.
            frame-if SameVote r (leb (length r.peers) 0) (submit_alone select (length r.log) r')
              (submit_replicated (length r.log) r.next_chan r')
              (λ _. submit_alone-quiet select (length r.log) r')
              (λ _. submit_replicated-quiet (length r.log) r.next_chan r')))

change_config-quiet : (addr : String) (add : Bool) → Frames SameVote (change_config addr add)
unfolding change_config
change_config-quiet addr add =
    frame-with_lock SameVote-frame (change_config_locked addr add) (λ s. (refl, refl))

pub add_node-quiet : (addr : String) → Frames SameVote (add_node addr)
unfolding add_node
add_node-quiet addr r =
    frame-if SameVote r r.locked _ _ (λ _. (refl, refl))
      (λ _.
        frame-if SameVote r (not (is_leader r.state)) _ _ (λ _. (refl, refl))
          (λ _.
            frame-if SameVote r (get_or addr false r.current_config) _ _ (λ _. (refl, refl))
              (λ _.
                frame-if SameVote r (is_joint r.config_state) _ (change_config addr true r)
                  (λ _. (refl, refl)) (λ _. change_config-quiet addr true r))))

pub remove_node-quiet : (addr : String) → Frames SameVote (remove_node addr)
unfolding remove_node
remove_node-quiet addr r =
    frame-if SameVote r r.locked _ _ (λ _. (refl, refl))
      (λ _.
        frame-if SameVote r (not (is_leader r.state)) _ _ (λ _. (refl, refl))
          (λ _.
            frame-if SameVote r (not (get_or addr false r.current_config)) _ _ (λ _. (refl, refl))
              (λ _.
                frame-if SameVote r (addr == r.self_addr && length r.current_config == 1) _ _
                  (λ _. (refl, refl))
                  (λ _.
                    frame-if SameVote r (is_joint r.config_state) _ (change_config addr false r)
                      (λ _. (refl, refl)) (λ _. change_config-quiet addr false r)))))

pub append_stable_config-quiet : Frames SameVote append_stable_config
unfolding append_stable_config send_heartbeats
append_stable_config-quiet r =
    frame-if SameVote r r.locked _ _ (λ _. (refl, refl))
      (λ _.
        frame-if SameVote r (is_leader r.state && is_joint r.config_state) _ (ret tt, r)
          (λ _. (refl, refl)) (λ _. (refl, refl)))

pub check_isr-quiet : Frames SameVote check_isr
unfolding check_isr
check_isr-quiet = frame-with_lock SameVote-frame check_isr_locked λ r.
    frame-if SameVote r (is_leader r.state) _ (ret tt, r) (λ _. (refl, refl)) (λ _. (refl, refl))

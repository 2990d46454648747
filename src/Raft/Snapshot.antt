-- ===== src/Raft/Snapshot.antt =====
-- Snapshots, of cluster/go/raft/raft.go: createSnapshot, sendSnapshot in two parts, and
-- InstallSnapshot. The bytes of a snapshot stand as the entries that gob decodes from them: one
-- encoder writes them, so one decoder reads them all.
pub mod Faults
use distributed_mq.Prelude.{
  ltb, leb, if◌then◌else◌, length, take, last?, ℕ, ◌+◌, String, Bool, true, false, not, Option,
  none, some, List, ◌++◌,
}
use distributed_mq.Prelude.{string_eq}
use distributed_mq.Prelude.Map.{insert}
use distributed_mq.Go.{u64, sub_u64, Outcome, ret, panic, blocked, continue}
use distributed_mq.Raft.{LogEntry, RaftNode}
use distributed_mq.Raft.Storage.{save_state}
use distributed_mq.Raft.Roles.{
  Handler, with_rlock, with_lock, reset_election_timer, become_follower, is_leader,
}
use distributed_mq.Raft.Election.{adopt_term}

pub record InstallSnapshotArgs : Type 0 where
  pub term : ℕ
  pub leader_id : String
  pub last_included_index : ℕ
  pub last_included_term : ℕ
  pub content : List LogEntry

pub record InstallSnapshotReply : Type 0 where
  pub term : ℕ
  pub success : Bool

abbrev pub snapshot_reply : RaftNode → Bool → Outcome InstallSnapshotReply × RaftNode
snapshot_reply r success = (ret (record { term = r.current_term; success = success }), r)

-- the log and the indices after the loop that decodes the entries
abbrev pub replace_log : InstallSnapshotArgs → RaftNode → RaftNode
replace_log args r = record r {
  log = take 1 r.log ++ args.content;
  last_applied = args.last_included_index;
  commit_index = args.last_included_index;
  persisted_index = args.last_included_index;
}

unfoldable pub handle_snapshot : InstallSnapshotArgs → Handler InstallSnapshotReply
unfolding become_follower
handle_snapshot args r =
    if ltb args.term r.current_term
    then snapshot_reply r false
    else (let r' = reset_election_timer (adopt_term args.term r) in
        if leb args.last_included_index r'.commit_index
        then snapshot_reply r' true
        else snapshot_reply (save_state (replace_log args r')) true)

-- InstallSnapshot
unfoldable pub install_snapshot_rpc : InstallSnapshotArgs → Handler InstallSnapshotReply
unfolding handle_snapshot
install_snapshot_rpc args = with_lock (handle_snapshot args)

-- createSnapshot: every entry of the log, the first one included
unfoldable pub create_snapshot : Handler (List LogEntry)
create_snapshot = with_rlock λ r. r.log

abbrev pub snapshot_args : RaftNode → LogEntry → List LogEntry → InstallSnapshotArgs
snapshot_args r last content = record {
  term = r.current_term;
  leader_id = r.self_addr;
  last_included_index = sub_u64 (length r.log) 1;
  last_included_term = last.term;
  content = content;
}

-- the part of sendSnapshot between Lock and Unlock, for a leader
abbrev pub snapshot_request : Handler (Option InstallSnapshotArgs)
snapshot_request r = elim (last? r.log) [
  | none ↦ (panic, r)
  | some last ↦
      continue (create_snapshot r).0
        (λ content s. (ret (some (snapshot_args r last content)), record s { locked = false }))
        (create_snapshot r).1
]

-- sendSnapshot up to the call
unfoldable pub begin_snapshot : Handler (Option InstallSnapshotArgs)
unfolding create_snapshot
begin_snapshot r =
    if r.locked
    then (blocked, r)
    else if not (is_leader r.state)
    then (ret none, r)
    else snapshot_request (record r { locked = true })

-- sendSnapshot from the reply on
abbrev pub handle_snapshot_reply_locked : String → ℕ → InstallSnapshotReply → Handler (Unit {0})
handle_snapshot_reply_locked addr last_index reply r =
    if ltb r.current_term reply.term
    then (ret tt, become_follower reply.term r)
    else if reply.success
    then (
      ret tt,
      record r {
        next_index = insert addr (u64 (last_index + 1)) r.next_index;
        match_index = insert addr last_index r.match_index;
      },
    )
    else (ret tt, r)

unfoldable pub handle_snapshot_reply : String → ℕ → InstallSnapshotReply → Handler (Unit {0})
unfolding become_follower
handle_snapshot_reply addr last_index reply =
    with_lock (handle_snapshot_reply_locked addr last_index reply)

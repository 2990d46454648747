-- ===== src/Examples/Raft.antt =====
-- Runs of a node (cluster/go/raft/raft.go) in a cluster of three, and of a node alone.
use distributed_mq.Prelude.{
  if◌then◌else◌, get_elem?, ℕ, suc, ◌+◌, ◌≡◌, refl, ◌≢◌, ◌↔◌, inr, true, false, none, [], ◌∷◌,
  arith,
}
use distributed_mq.Prelude.{nat_eq, string_eq}
use distributed_mq.Prelude.Map.{get_or}
use distributed_mq.Go.{ret, blocked}
use distributed_mq.Raft.{
  follower, leader, config_stable, data_entry, LogEntry, RequestVoteArgs, AppendEntriesArgs,
  RaftNode,
}
use distributed_mq.Raft.Election.{request_vote_rpc}
use distributed_mq.Raft.Election.Restriction.{granted, MayGrant, vote_granted_iff}
use distributed_mq.Raft.Commit.{update_commit_index, Select}
use distributed_mq.Raft.Commit.Submit.{}
use distributed_mq.Raft.Commit.Quorum.{CanCommit, Advanced, update_commit_index_lem}
use distributed_mq.Raft.Replication.{merge_entries, append_entries_rpc, next_for}
use distributed_mq.Raft.Replication.Merge.{merged, merge_entries_lem}
use distributed_mq.Raft.Replication.Follower.{accepted, leader_ahead, append_entries_lem}
use distributed_mq.Raft.Snapshot.{install_snapshot_rpc, create_snapshot, snapshot_args}
use distributed_mq.Raft.Snapshot.Faults.{install_snapshot_shifts}
use distributed_mq.Raft.Votes.{Kept}
use distributed_mq.Raft.Steps.{vote_request, here, next, Reach-Kept}
use distributed_mq.Raft.Steps.Once.{vote_once}

abbrev at_term : ℕ → ℕ → LogEntry
at_term t i = record {
  term = t;
  index = i;
  type = data_entry;
  topic = "orders";
  partition = 0;
  payload = t ∷ i ∷ [];
  config = none;
}

-- the follower "a" in term 2, with two entries behind the first
abbrev pub node : RaftNode
node = record {
  locked = false;
  state = follower;
  current_term = 2;
  voted_for = "";
  log = at_term 0 0 ∷ at_term 1 1 ∷ at_term 2 2 ∷ [];
  commit_index = 1;
  last_applied = 1;
  next_index = [];
  match_index = [];
  peers =
      ("b", record { addr = "b"; learner = false })
      ∷ ("c", record { addr = "c"; learner = false })
      ∷ [];
  self_addr = "a";
  election_timer = 0;
  heartbeat_timer = 0;
  has_apply_ch = true;
  delivered = [];
  data_dir = "data";
  pending_commit = [];
  closed = [];
  next_chan = 7;
  isr = ("b", true) ∷ ("c", true) ∷ [];
  max_lag = 10000;
  current_config = ("a", true) ∷ ("b", true) ∷ ("c", true) ∷ [];
  new_config = none;
  config_state = config_stable;
  persisted_index = 2;
  spawned = [];
  disk = record { state_file = none; log_file = [] };
  file_system = record { write_file = true; rename = true; open_file = true };
}

abbrev behind : RequestVoteArgs
behind = record { term = 3; candidate_id = "b"; last_log_index = 1; last_log_term = 1 }

vote_is_given : granted (request_vote_rpc behind node).0 ≡ true
unfolding request_vote_rpc
vote_is_given = refl

vote_granted_iff_example :
    (granted (request_vote_rpc behind node).0 ≡ true) ↔ MayGrant behind (at_term 2 2) node
vote_granted_iff_example = vote_granted_iff behind node (at_term 2 2) refl refl (omega arith)

again_granted : granted (request_vote_rpc behind (request_vote_rpc behind node).1).0 ≡ true
unfolding request_vote_rpc
again_granted = refl

again_term :
    (request_vote_rpc behind (request_vote_rpc behind node).1).1.current_term
    ≡ (request_vote_rpc behind node).1.current_term
unfolding request_vote_rpc
again_term = refl

b_named : behind.candidate_id ≢ ""
b_named e = cc

vote_once_example : behind.candidate_id ≡ behind.candidate_id
vote_once_example =
    vote_once behind behind node (request_vote_rpc behind node).1 b_named vote_is_given here
      again_granted again_term

Reach-Kept_example : Kept node (request_vote_rpc behind node).1
Reach-Kept_example =
    Reach-Kept node (request_vote_rpc behind node).1 (next here (vote_request behind))

abbrev pub all_sent : Select
all_sent entry = true

-- entry 2 conflicts, entry 3 is new
abbrev update_args : AppendEntriesArgs
update_args = record {
  term = 3;
  leader_id = "b";
  prev_log_index = 1;
  prev_log_term = 1;
  entries = at_term 3 2 ∷ at_term 3 3 ∷ [];
  leader_commit = 1;
}

append_entries_lem_example :
    let p = append_entries_rpc all_sent update_args node in
    (p.0 ≡ (if leader_ahead update_args node then blocked else ret (accepted update_args node)))
    × (p.1.log ≡ merged 2 update_args.entries node.log)
    × (p.1.locked ≡ leader_ahead update_args node)
append_entries_lem_example =
    append_entries_lem all_sent update_args node refl (omega arith)
      (record { prev = at_term 1 1; there = refl; matches = inr refl }) (omega arith)

merge_entries_lem_example :
    merge_entries 2 update_args.entries node.log ≡ merged 2 update_args.entries node.log
merge_entries_lem_example =
    merge_entries_lem 2 update_args.entries node.log (omega arith) (omega arith)

conflict_replaced :
    merge_entries 2 update_args.entries node.log ≡ at_term 0 0 ∷ at_term 1 1 ∷ update_args.entries
unfolding merge_entries
conflict_replaced = refl

abbrev pub leading : RaftNode
leading = record node {
  state = leader;
  next_index = ("b", 3) ∷ ("c", 3) ∷ [];
  match_index = ("b", 2) ∷ ("c", 0) ∷ [];
}

update_commit_index_lem_example :
    Advanced leading (update_commit_index leading)
    × (¬ CanCommit ((update_commit_index leading).commit_index + 1) leading)
update_commit_index_lem_example = update_commit_index_lem leading

commit_moves : (update_commit_index leading).commit_index ≡ 2
unfolding update_commit_index get_or
commit_moves = refl

abbrev pub alone : RaftNode
alone = record node { state = leader; peers = []; isr = []; current_config = ("a", true) ∷ [] }

b_ahead : get_or "b" 0 leading.match_index ≡ 2
unfolding get_or
b_ahead = refl

b_next : next_for "b" leading ≡ 3
unfolding get_or
b_next = refl

-- a leader of a later term, with one entry more
abbrev sender : RaftNode
sender = record node {
  state = leader;
  current_term = 3;
  log = at_term 0 0 ∷ at_term 1 1 ∷ at_term 3 2 ∷ at_term 3 3 ∷ [];
}

sender_snapshot : (create_snapshot sender).0 ≡ ret sender.log
unfolding create_snapshot
sender_snapshot = refl

install_snapshot_shifts_example :
    let s = (install_snapshot_rpc (snapshot_args sender (at_term 3 3) sender.log) node).1 in
    (s.log ≡ at_term 0 0 ∷ sender.log)
    × ((i : ℕ) → get_elem? s.log (suc i) ≡ get_elem? sender.log i)
    × (s.commit_index + 1 ≡ 4)
    × (s.last_applied ≡ s.commit_index)
    × (get_elem? s.log s.commit_index ≡ get_elem? sender.log 2)
    × (s.locked ≡ false)
install_snapshot_shifts_example =
    install_snapshot_shifts sender node (at_term 0 0) (at_term 3 3) (at_term 1 1 ∷ at_term 2 2 ∷ [])
      sender.log sender_snapshot refl (omega arith) refl refl (omega arith) (omega arith)

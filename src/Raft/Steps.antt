-- ===== src/Raft/Steps.antt =====
-- Whatever a node of cluster/go/raft/raft.go does, in whatever order the messages, timers, clients
-- and goroutines come: the runs of a node, and its votes along a run.
pub mod Once
use distributed_mq.Prelude.{ℕ, String, List}
use distributed_mq.Prelude.{nat_eq, string_eq}
use distributed_mq.Raft.Handlers.{
  quiet-Kept, append_entries_rpc-Kept, apply_committed_entries-Kept, install_snapshot_rpc-Kept,
  handle_vote_reply-Kept, CanStand, on_election_timeout-Kept, after_votes-Kept,
  handle_append_reply-Kept, handle_snapshot_reply-Kept,
}
use distributed_mq.Raft.{
  RequestVoteArgs, RequestVoteReply, AppendEntriesArgs, AppendEntriesReply, RaftNode,
}
use distributed_mq.Raft.Roles.{send_heartbeats, check_isr}
use distributed_mq.Raft.Election.{
  request_vote_rpc, Ballot, handle_vote_reply, after_votes, on_election_timeout,
}
use distributed_mq.Raft.Membership.{add_node, remove_node, append_stable_config}
use distributed_mq.Raft.Commit.{Select, apply_committed_entries, submit_command}
use distributed_mq.Raft.Replication.{append_entries_rpc, begin_append, handle_append_reply}
use distributed_mq.Raft.Snapshot.{
  InstallSnapshotArgs, InstallSnapshotReply, install_snapshot_rpc, begin_snapshot,
  handle_snapshot_reply,
}
use distributed_mq.Raft.Votes.{Kept, SameVote-Kept, Kept-trans, Kept-refl, request_vote_rpc-Kept}
use distributed_mq.Raft.Clients.{
  begin_append-quiet, begin_snapshot-quiet, send_heartbeats-quiet, submit_command-quiet,
  add_node-quiet, remove_node-quiet, append_stable_config-quiet, check_isr-quiet,
}

-- One call of a handler. An election is started only where the term does not wrap.
pub data Step (r : RaftNode) : RaftNode → Type 0 where
  vote_request : (args : RequestVoteArgs) → Step r (request_vote_rpc args r).1
  append_entries :
      (select : Select) (args : AppendEntriesArgs) → Step r (append_entries_rpc select args r).1
  install_snapshot : (args : InstallSnapshotArgs) → Step r (install_snapshot_rpc args r).1
  election_timeout : CanStand r → Step r (on_election_timeout r).1
  votes_in : CanStand r → (term : ℕ) → Step r (after_votes term r).1
  vote_in :
      (addr : String) (reply : RequestVoteReply) (b : Ballot)
      → Step r (handle_vote_reply addr reply b r).1
  append_out : (addr : String) → Step r (begin_append addr r).1
  append_in :
      (addr : String) (args : AppendEntriesArgs) (reply : AppendEntriesReply)
      → Step r (handle_append_reply addr args reply r).1
  snapshot_out : Step r (begin_snapshot r).1
  snapshot_in :
      (addr : String) (last : ℕ) (reply : InstallSnapshotReply)
      → Step r (handle_snapshot_reply addr last reply r).1
  apply_tick : (select : Select) → Step r (apply_committed_entries select r).1
  submit :
      (select : Select) (topic : String) (partition : ℕ) (payload : List ℕ)
      → Step r (submit_command select topic partition payload r).1
  node_added : (addr : String) → Step r (add_node addr r).1
  node_removed : (addr : String) → Step r (remove_node addr r).1
  stable_tick : Step r (append_stable_config r).1
  isr_tick : Step r (check_isr r).1
  heartbeat_tick : Step r (send_heartbeats r)

pub data Reach (r : RaftNode) : RaftNode → Type 0 where
  here : Reach r r
  next : {s t : RaftNode} → Reach r s → Step s t → Reach r t

Step-Kept : (r : RaftNode) {s : RaftNode} → Step r s → Kept r s
Step-Kept r (vote_request args) = request_vote_rpc-Kept args r
Step-Kept r (append_entries select args) = append_entries_rpc-Kept select args r
Step-Kept r (install_snapshot args) = install_snapshot_rpc-Kept args r
Step-Kept r (election_timeout can) = on_election_timeout-Kept r can
Step-Kept r (votes_in can term) = after_votes-Kept r can term
Step-Kept r (vote_in addr reply b) = handle_vote_reply-Kept addr reply b r
Step-Kept r (append_out addr) = quiet-Kept (begin_append addr) (begin_append-quiet addr) r
Step-Kept r (append_in addr args reply) = handle_append_reply-Kept addr args reply r
Step-Kept r snapshot_out = quiet-Kept begin_snapshot begin_snapshot-quiet r
Step-Kept r (snapshot_in addr last reply) = handle_snapshot_reply-Kept addr last reply r
Step-Kept r (apply_tick select) = apply_committed_entries-Kept select r
Step-Kept r (submit select topic partition payload) =
    quiet-Kept (submit_command select topic partition payload)
      (submit_command-quiet select topic partition payload) r
Step-Kept r (node_added addr) = quiet-Kept (add_node addr) (add_node-quiet addr) r
Step-Kept r (node_removed addr) = quiet-Kept (remove_node addr) (remove_node-quiet addr) r
Step-Kept r stable_tick = quiet-Kept append_stable_config append_stable_config-quiet r
Step-Kept r isr_tick = quiet-Kept check_isr check_isr-quiet r
Step-Kept r heartbeat_tick = SameVote-Kept r (send_heartbeats r) (send_heartbeats-quiet r)

-- Along every run, through any handlers in any order, the term of a node never falls, and a vote
-- that the node has given in a term is never changed while it is in that term.
pub Reach-Kept : (r s : RaftNode) → Reach r s → Kept r s
Reach-Kept r s here = Kept-refl r
Reach-Kept r s (next {s = t} reach step) =
    Kept-trans r t s (Reach-Kept r t reach) (Step-Kept t step)

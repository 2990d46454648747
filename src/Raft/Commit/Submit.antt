-- ===== src/Raft/Commit/Submit.antt =====
-- What SubmitCommand of cluster/go/raft/raft.go does for a leader.
use distributed_mq.Prelude.{length, ℕ, ◌<◌, String, ◌≡◌, true, false, List, [], ◌∷◌, ◌++◌, arith}
use distributed_mq.Prelude.{nat_eq, string_eq}
use distributed_mq.Go.{ret, blocked}
use distributed_mq.Raft.{leader, RaftNode}
use distributed_mq.Raft.Commit.{Select, command_entry, submitted, submit_command}
use distributed_mq.Prelude.Map.{insert}
use distributed_mq.Raft.Roles.{heartbeats}

module _ (select : Select) (topic : String) (partition : ℕ) (payload : List ℕ) (r : RaftNode)
    (free : r.locked ≡ false) where
  -- A leader with no peers appends the command and sets its commit index to it, and then blocks for
  -- ever, with the mutex held, before any entry is applied.
  pub submit_alone_blocks :
      r.state ≡ leader
      → r.peers ≡ []
      → let p = submit_command select topic partition payload r in
        (p.0 ≡ blocked)
        × (p.1.locked ≡ true)
        × (p.1.log ≡ r.log ++ command_entry topic partition payload r ∷ [])
        × (p.1.commit_index ≡ length r.log)
        × (p.1.delivered ≡ r.delivered)
  unfolding submit_command
  submit_alone_blocks lead alone = ground (arith, free, lead, alone)

  -- A leader with peers appends the command behind its log, registers a new channel under its index,
  -- starts a task for each peer, releases the mutex, and returns the index and the channel.
  pub submit_replicated_lem :
      r.state ≡ leader
      → 0 < length r.peers
      → let p = submit_command select topic partition payload r in
        (p.0 ≡ ret (submitted (length r.log) r.next_chan))
        × (p.1.log ≡ r.log ++ command_entry topic partition payload r ∷ [])
        × (p.1.pending_commit ≡ insert (length r.log) r.next_chan r.pending_commit)
        × (p.1.spawned ≡ r.spawned ++ heartbeats r.peers)
        × (p.1.commit_index ≡ r.commit_index)
        × (p.1.locked ≡ false)
  unfolding submit_command
  submit_replicated_lem lead peers = ground (arith, free, lead, peers)

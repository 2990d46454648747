-- ===== src/Raft/Commit.antt =====
-- The commit index and the entries behind it, of cluster/go/raft/raft.go: updateCommitIndex,
-- applyCommittedEntries, SubmitCommand.
pub mod Majority
pub mod Quorum
pub mod Submit
use distributed_mq.Prelude.{
  ltb, leb, if◌then◌else◌, ◌==◌, length, get_elem?, ℕ, zero, suc, ◌+◌, ◌-◌, ◌/◌, String, Bool, true,
  false, ◌&&◌, not, none, some, List, [], ◌∷◌, ◌++◌,
}
use distributed_mq.Prelude.{nat_eq, string_eq}
use distributed_mq.Prelude.Map.{Map, lookup, insert, delete, get_or}
use distributed_mq.Go.{ret, panic, blocked, ◌>>=◌, ◌>>◌}
use distributed_mq.Raft.{
  EntryType, data_entry, conf_change, joint_consensus, LogEntry, apply_committed, RaftNode,
}
use distributed_mq.Raft.Storage.{save_state}
use distributed_mq.Raft.Roles.{
  Handler, unlock, update, with_lock, send_heartbeats, is_leader, len_config, config_has, is_joint,
}
use distributed_mq.Raft.Membership.{apply_config_change}

-- the loop over matchIndex: the replicas of a configuration that have the entry at `n`
unfoldable pub count_replicas : ℕ → Map String ℕ → (String → Bool) → ℕ
count_replicas n [] has = 0
count_replicas n ((addr, idx) ∷ m) has =
    let count = count_replicas n m has in if leb n idx && has addr then suc count else count

abbrev pub in_current : RaftNode → String → Bool
in_current r addr = get_or addr false r.current_config

abbrev pub in_new : RaftNode → String → Bool
in_new r addr = config_has addr r.new_config

-- oldCount and newCount start at 1, whether or not the leader is in the configuration
unfoldable pub has_quorum : ℕ → RaftNode → Bool
unfolding count_replicas
has_quorum n r =
    let old =
      leb (length r.current_config / 2 + 1) (suc (count_replicas n r.match_index (in_current r))) in
    let new =
      leb (len_config r.new_config / 2 + 1) (suc (count_replicas n r.match_index (in_new r))) in
    if is_joint r.config_state then old && new else old

-- `close(ch)` and `delete`, if a channel waits for `n`
abbrev pub close_pending : ℕ → RaftNode → RaftNode
close_pending n r = record r {
  closed = elim (lookup n r.pending_commit) [ none ↦ r.closed | some ch ↦ r.closed ++ ch ∷ [] ];
  pending_commit = delete n r.pending_commit;
}

abbrev pub commit_entry : ℕ → RaftNode → RaftNode
commit_entry n r = close_pending n (record r { commit_index = n })

-- the loop of updateCommitIndex at `n`, for at most the given number of rounds
unfoldable pub advance_commit : ℕ → ℕ → RaftNode → RaftNode
unfolding has_quorum
advance_commit zero n r = r
advance_commit (suc rounds) n r =
    let rest = advance_commit rounds (n + 1) (commit_entry n r) in
    elim (get_elem? r.log n) [
      | none ↦ r
      | some entry ↦ if entry.term == r.current_term && has_quorum n r then rest else r
    ]

-- updateCommitIndex
unfoldable pub update_commit_index : RaftNode → RaftNode
unfolding advance_commit
update_commit_index r =
    let r' = advance_commit (length r.log) (r.commit_index + 1) r in
    record r' { spawned = r'.spawned ++ apply_committed ∷ [] }

abbrev pub is_config_entry : EntryType → Bool
is_config_entry joint_consensus = true
is_config_entry conf_change = true
is_config_entry data_entry = false

-- The `select` of the source, for an entry: true if the entry is sent, false if `stopCh` is read.
abbrev pub Select : Type 0
Select = LogEntry → Bool

-- One round of the loop of applyCommittedEntries after `r.lastApplied++`: true to go on. Reading
-- `stopCh` returns with `mu` released, and the deferred Unlock is then fatal.
unfoldable pub apply_entry : Select → LogEntry → Handler Bool
unfolding apply_config_change
apply_entry select entry r =
    if is_config_entry entry.type
    then (ret true, apply_config_change entry r)
    else if not r.has_apply_ch
    then (ret true, r)
    else if select entry
    then (ret true, record r { delivered = r.delivered ++ entry ∷ [] })
    else (panic, record r { locked = false })

-- `entry := r.log[r.lastApplied]` and the rest of the round
unfoldable pub apply_next : Select → Handler Bool
unfolding apply_entry
apply_next select r = elim (get_elem? r.log r.last_applied) [
  | none ↦ (panic, r)
  | some entry ↦ apply_entry select entry r
]

-- one round of the loop: false if its condition fails
unfoldable pub apply_round : Select → Handler Bool
unfolding apply_next
apply_round select r =
    if ltb r.last_applied r.commit_index
    then apply_next select (record r { last_applied = r.last_applied + 1 })
    else (ret false, r)

-- the loop, for at most the given number of rounds, where no other goroutine runs in between
unfoldable pub apply_loop : Select → ℕ → Handler (Unit {0})
unfolding apply_round
apply_loop select zero = λ r. (ret tt, r)
apply_loop select (suc rounds) = do
  more ← apply_round select
  elim more [ true ↦ apply_loop select rounds | false ↦ λ r. (ret tt, r) ]

-- applyCommittedEntries
unfoldable pub apply_committed_entries : Select → Handler (Unit {0})
unfolding apply_loop
apply_committed_entries select =
    with_lock λ r. apply_loop select (r.commit_index - r.last_applied) r

-- the entry of SubmitCommand
abbrev pub command_entry : String → ℕ → List ℕ → RaftNode → LogEntry
command_entry topic partition payload r = record {
  term = r.current_term;
  index = length r.log;
  type = data_entry;
  topic = topic;
  partition = partition;
  payload = payload;
  config = none;
}

pub data Submitted : Type 0 where
  refused : Submitted
  -- the index of the entry and the channel that is closed when it is committed
  submitted : ℕ → ℕ → Submitted

abbrev pub append_command : LogEntry → RaftNode → RaftNode
append_command entry r = save_state (record r { log = r.log ++ entry ∷ [] })

-- a new channel, closed at once
abbrev pub closed_channel : ℕ → Handler Submitted
closed_channel index r = (
  ret (submitted index r.next_chan),
  record r { closed = r.closed ++ r.next_chan ∷ []; next_chan = r.next_chan + 1 },
)

-- the branch of SubmitCommand with no peers: applyCommittedEntries is called with `mu` held
abbrev pub submit_alone : Select → ℕ → Handler Submitted
submit_alone select index = do
  update (λ r. record r { commit_index = index })
  apply_committed_entries select
  unlock
  closed_channel index

-- the branch with peers; the heartbeats are sent after `mu` is released
abbrev pub submit_replicated : ℕ → ℕ → Handler Submitted
submit_replicated index chan = do
  update
      (λ r. record r { pending_commit = insert index chan r.pending_commit; next_chan = chan + 1 })
  unlock
  update send_heartbeats
  λ r. (ret (submitted index chan), r)

-- SubmitCommand
unfoldable pub submit_command : Select → String → ℕ → List ℕ → Handler Submitted
unfolding apply_committed_entries send_heartbeats
submit_command select topic partition payload r =
    if r.locked
    then (blocked, r)
    else if not (is_leader r.state)
    then (ret refused, r)
    else (let r' =
          append_command (command_entry topic partition payload r) (record r { locked = true }) in
        if leb (length r.peers) 0
        then submit_alone select (length r.log) r'
        else submit_replicated (length r.log) r.next_chan r')

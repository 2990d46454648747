-- ===== src/Raft/Snapshot/Faults.antt =====
-- How snapshots of cluster/go/raft/raft.go end: sendSnapshot waits for a mutex that it holds, a
-- short log is always sent as a snapshot, and InstallSnapshot shifts the log.
use mathlib.Core.Path.{ap, sym}
use distributed_mq.Prelude.{
  length, get_elem?, last?, ℕ, suc, ◌+◌, ◌-◌, ◌^◌, ◌≤◌, ◌<◌, String, ◌≡◌, ◌∙◌, true, false, none,
  some, List, [], ◌∷◌, ◌++◌, arith,
}
use distributed_mq.Prelude.{nat_eq, string_eq}
use distributed_mq.Raft.Replication.{snapshot_threshold, next_for, begin_append}
use distributed_mq.Go.{ret, blocked}
use distributed_mq.Raft.{leader, LogEntry, send_snapshot, RaftNode}
use distributed_mq.Raft.Snapshot.{
  InstallSnapshotArgs, install_snapshot_rpc, create_snapshot, snapshot_args, begin_snapshot,
}

-- A leader with a log, whose mutex is free, blocks for ever in sendSnapshot, and holds the mutex.
pub begin_snapshot_blocks :
    (r : RaftNode) (last : LogEntry)
    → r.locked ≡ false
    → r.state ≡ leader
    → last? r.log ≡ some last
    → ((begin_snapshot r).0 ≡ blocked) × ((begin_snapshot r).1.locked ≡ true)
unfolding begin_snapshot
begin_snapshot_blocks r last free lead has = ground (arith, free, lead, has)

-- While the log has fewer than 1000 entries, sendAppendEntries of a leader whose mutex is free
-- sends no entries to a peer whose next index is below 2 ^ 64 - 1000: it starts sendSnapshot.
pub short_log_sends_snapshot :
    (addr : String) (r : RaftNode)
    → r.locked ≡ false
    → r.state ≡ leader
    → length r.log < snapshot_threshold
    → next_for addr r < 2 ^ 64 - snapshot_threshold
    → ((begin_append addr r).0 ≡ ret none)
      × ((begin_append addr r).1.spawned ≡ r.spawned ++ send_snapshot addr ∷ [])
      × ((begin_append addr r).1.log ≡ r.log)
unfolding begin_append
short_log_sends_snapshot addr r free lead short next = ground (arith, free, lead, short, next)

last?-length : {A : Type 0} (xs : List A) (x : A) → last? xs ≡ some x → 0 < length xs
last?-length [] x h = cc
last?-length (y ∷ xs) x h = omega arith

-- What createSnapshot returns is the log.
create_snapshot_lem :
    (r : RaftNode) (content : List LogEntry) → (create_snapshot r).0 ≡ ret content → content ≡ r.log
unfolding create_snapshot
create_snapshot_lem r content h = ground (arith, h)

-- InstallSnapshot of a snapshot that is newer than the commit index.
install_snapshot_newer :
    (args : InstallSnapshotArgs) (r : RaftNode) (first : LogEntry) (rest : List LogEntry)
    → r.locked ≡ false
    → r.log ≡ first ∷ rest
    → r.current_term ≤ args.term
    → r.commit_index < args.last_included_index
    → let s = (install_snapshot_rpc args r).1 in
      (s.log ≡ first ∷ args.content)
      × (s.commit_index ≡ args.last_included_index)
      × (s.last_applied ≡ args.last_included_index)
      × (s.locked ≡ false)
unfolding install_snapshot_rpc
install_snapshot_newer args r first rest free log fresh newer = ground (arith, free, log)

-- Where createSnapshot on the leader returns, and a node whose mutex is free and whose commit index is
-- before the last index of the leader's log installs, with InstallSnapshot, what sendSnapshot makes of
-- it: the node has each entry of the leader's log one index later than the leader has it, behind its own
-- first entry, while its commit index and lastApplied are the leader's last index, so that they name
-- the entry that the leader has before its last one.
pub install_snapshot_shifts :
    (sender r : RaftNode) (first last : LogEntry) (rest content : List LogEntry)
    → (create_snapshot sender).0 ≡ ret content
    → last? sender.log ≡ some last
    → length sender.log < 2 ^ 64
    → r.locked ≡ false
    → r.log ≡ first ∷ rest
    → r.current_term ≤ sender.current_term
    → r.commit_index + 1 < length sender.log
    → let s = (install_snapshot_rpc (snapshot_args sender last content) r).1 in
      (s.log ≡ first ∷ sender.log)
      × ((i : ℕ) → get_elem? s.log (suc i) ≡ get_elem? sender.log i)
      × (s.commit_index + 1 ≡ length sender.log)
      × (s.last_applied ≡ s.commit_index)
      × (get_elem? s.log s.commit_index ≡ get_elem? sender.log (length sender.log - 2))
      × (s.locked ≡ false)
install_snapshot_shifts sender r first last rest content made has small free log fresh newer =
    let args = snapshot_args sender last content in
    let filled = last?-length sender.log last has in
    let index : args.last_included_index + 1 ≡ length sender.log = omega (arith, filled, small) in
    let (whole, commit, applied, unlocked) =
      install_snapshot_newer args r first rest free log fresh (omega (arith, index, newer)) in
    let before_last : (install_snapshot_rpc args r).1.commit_index ≡ suc (length sender.log - 2) =
      omega (arith, commit, index, newer) in
    let copied = whole ∙ ap (λ xs. first ∷ xs) (create_snapshot_lem sender content made) in
    (
      copied,
      (λ i. ap (λ xs. get_elem? xs (suc i)) copied),
      omega (arith, commit, index),
      applied ∙ sym commit,
      ap (get_elem? (install_snapshot_rpc args r).1.log) before_last
          ∙ ap (λ xs. get_elem? xs (suc (length sender.log - 2))) copied,
      unlocked,
    )

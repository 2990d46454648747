-- ===== src/Raft/Replication.antt =====
-- Log replication, of cluster/go/raft/raft.go: AppendEntries, and sendAppendEntries in two parts,
-- before and after the call that it waits for with `mu` released.
pub mod Merge
pub mod Follower
use distributed_mq.Prelude.{
  ltb, leb, if◌then◌else◌, ◌==◌, length, get_elem?, take, drop, ℕ, ◌+◌, ◌-◌, String, Bool, true,
  false, ◌&&◌, not, Option, none, some, List, [], ◌∷◌, ◌++◌,
}
use distributed_mq.Prelude.{nat_eq, string_eq}
use distributed_mq.Prelude.Map.{insert, get_or}
use distributed_mq.Go.{u64, sub_u64, ret, panic, blocked, ◌>>◌}
use distributed_mq.Raft.{
  LogEntry, AppendEntriesArgs, AppendEntriesReply, send_append_entries, send_snapshot, RaftNode,
}
use distributed_mq.Raft.Storage.{save_state}
use distributed_mq.Raft.Roles.{
  Handler, update, with_lock, reset_election_timer, become_follower, is_leader,
}
use distributed_mq.Raft.Election.{adopt_term}
use distributed_mq.Raft.Commit.{update_commit_index, Select, apply_committed_entries}

-- one entry of a request, at its index: append it, keep the entry that is there, or cut and append
unfoldable pub place_entry : ℕ → LogEntry → List LogEntry → List LogEntry
place_entry index entry log = elim (get_elem? log index) [
  | none ↦ log ++ entry ∷ []
  | some old ↦ if old.term == entry.term then log else take index log ++ entry ∷ []
]

-- the loop over args.Entries, from the index of its first entry
unfoldable pub merge_entries : ℕ → List LogEntry → List LogEntry → List LogEntry
unfolding place_entry
merge_entries index [] log = log
merge_entries index (entry ∷ entries) log =
    merge_entries (index + 1) entries (place_entry (u64 index) entry log)

abbrev pub append_reply : RaftNode → Bool → ℕ → AppendEntriesReply
append_reply r success conflict = record {
  term = r.current_term;
  success = success;
  conflict_index = conflict;
  last_log_index = sub_u64 (length r.log) 1;
}

-- `min` of raft.go
abbrev pub min_u64 : ℕ → ℕ → ℕ
min_u64 a b = if ltb a b then a else b

abbrev pub finish_append : Handler AppendEntriesReply
finish_append r = (ret (append_reply r true 0), save_state r)

-- from the loop over the entries on; applyCommittedEntries is called with `mu` held
unfoldable pub accept_entries : Select → AppendEntriesArgs → Handler AppendEntriesReply
unfolding merge_entries apply_committed_entries
accept_entries select args r =
    let log = merge_entries (args.prev_log_index + 1) args.entries r.log in
    if ltb r.commit_index args.leader_commit
    then (do
      update (λ s. record s {
        log = log;
        commit_index = min_u64 args.leader_commit (sub_u64 (length log) 1);
      })
      apply_committed_entries select
      finish_append)
        r
    else finish_append (record r { log = log })

-- the term of the entry before the new ones differs
abbrev pub prev_conflict : AppendEntriesArgs → List LogEntry → Bool
prev_conflict args log = elim (get_elem? log args.prev_log_index) [
  | none ↦ false
  | some prev ↦ ltb 0 args.prev_log_index && not (prev.term == args.prev_log_term)
]

unfoldable pub check_prev : Select → AppendEntriesArgs → Handler AppendEntriesReply
unfolding accept_entries
check_prev select args r =
    if leb (length r.log) args.prev_log_index
    then (ret (append_reply r false (length r.log)), r)
    else if prev_conflict args r.log
    then (ret (append_reply r false args.prev_log_index), r)
    else accept_entries select args r

unfoldable pub handle_append : Select → AppendEntriesArgs → Handler AppendEntriesReply
unfolding check_prev become_follower
handle_append select args r =
    if ltb args.term r.current_term
    then (ret (append_reply r false 0), r)
    else check_prev select args (reset_election_timer (adopt_term args.term r))

-- AppendEntries
unfoldable pub append_entries_rpc : Select → AppendEntriesArgs → Handler AppendEntriesReply
unfolding handle_append
append_entries_rpc select args = with_lock (handle_append select args)

abbrev pub snapshot_threshold : ℕ
snapshot_threshold = 1000

-- prevLogTerm
abbrev pub term_before : ℕ → List LogEntry → ℕ
term_before prev log = elim (get_elem? log prev) [
  | none ↦ 0
  | some entry ↦ if ltb 0 prev then entry.term else 0
]

abbrev pub append_args : ℕ → RaftNode → AppendEntriesArgs
append_args next r = record {
  term = r.current_term;
  leader_id = r.self_addr;
  prev_log_index = sub_u64 next 1;
  prev_log_term = term_before (sub_u64 next 1) r.log;
  entries = drop next r.log;
  leader_commit = r.commit_index;
}

-- nextIndex of a peer, where 0 stands for 1
abbrev pub next_for : String → RaftNode → ℕ
next_for addr r = let next = get_or addr 0 r.next_index in if next == 0 then 1 else next

abbrev pub fix_next : String → RaftNode → RaftNode
fix_next addr r =
    if get_or addr 0 r.next_index == 0
    then record r { next_index = insert addr 1 r.next_index }
    else r

-- sendAppendEntries up to the call: the request, or none. `r.log[prevLogIndex+1:]` panics where
-- the index is past the end.
unfoldable pub begin_append : String → Handler (Option AppendEntriesArgs)
begin_append addr r =
    if r.locked
    then (blocked, r)
    else if not (is_leader r.state)
    then (ret none, r)
    else if ltb (next_for addr r) (sub_u64 (length r.log) snapshot_threshold)
    then (
      ret none,
      (let r' = fix_next addr r in record r' { spawned = r'.spawned ++ send_snapshot addr ∷ [] }),
    )
    else if ltb (length r.log) (next_for addr r)
    then (panic, record (fix_next addr r) { locked = true })
    else (ret (some (append_args (next_for addr r) r)), fix_next addr r)

-- the reply says that the follower has the entries
abbrev pub advance_peer : String → AppendEntriesArgs → RaftNode → RaftNode
advance_peer addr args r =
    let next = u64 (args.prev_log_index + length args.entries + 1) in
    record r {
      next_index = insert addr next r.next_index;
      match_index = insert addr (sub_u64 next 1) r.match_index;
    }

-- the follower refused: step back by one and send again
abbrev pub retreat_peer : String → RaftNode → RaftNode
retreat_peer addr r =
    if ltb 1 (get_or addr 0 r.next_index)
    then record r {
      next_index = insert addr (get_or addr 0 r.next_index - 1) r.next_index;
      spawned = r.spawned ++ send_append_entries addr ∷ [];
    }
    else r

-- sendAppendEntries from the reply on
abbrev pub handle_append_reply_locked :
    String → AppendEntriesArgs → AppendEntriesReply → Handler (Unit {0})
handle_append_reply_locked addr args reply r =
    if ltb r.current_term reply.term
    then (ret tt, become_follower reply.term r)
    else if not (is_leader r.state)
    then (ret tt, r)
    else if reply.success
    then (ret tt, update_commit_index (advance_peer addr args r))
    else (ret tt, retreat_peer addr r)

unfoldable pub handle_append_reply :
    String → AppendEntriesArgs → AppendEntriesReply → Handler (Unit {0})
unfolding become_follower update_commit_index
handle_append_reply addr args reply = with_lock (handle_append_reply_locked addr args reply)

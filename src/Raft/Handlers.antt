-- ===== src/Raft/Handlers.antt =====
-- `Kept` of the handlers of cluster/go/raft/raft.go, one lemma for each.
use distributed_mq.Prelude.{
  ltb, leb, ltb→lt, if-elim, match-elim, ◌==◌, length, get_elem?, last?, ℕ, zero, suc, ◌+◌, ◌^◌,
  ◌<◌, String, refl, true, ◌&&◌, not, arith,
}
use distributed_mq.Prelude.{nat_eq, string_eq}
use distributed_mq.Raft.Frame.{Frames, frame-if, frame-with_lock_at, frame-with_lock, frame-bind}
use distributed_mq.Raft.Votes.{
  Kept, SameVote, SameVote-frame, SameVote-Kept, Kept-trans, Kept-frame, Kept-refl,
  become_follower-Kept, adopt_term-Kept,
}
use distributed_mq.Raft.Quiet.{apply_committed_entries-quiet}
use distributed_mq.Go.{sub_u64, Outcome, ret, panic}
use distributed_mq.Raft.{RequestVoteReply, AppendEntriesArgs, AppendEntriesReply, RaftNode}
use distributed_mq.Raft.Storage.{save_state}
use distributed_mq.Raft.Roles.{
  Handler, reset_election_timer, become_follower, become_leader, is_leader,
}
use distributed_mq.Raft.Election.{
  adopt_term, Ballot, stand, new_ballot, contest, start_election, count_vote, ballot_won,
  is_candidate, win, handle_vote_reply_locked, handle_vote_reply, after_votes_locked, after_votes,
  on_election_timeout_locked, on_election_timeout,
}
use distributed_mq.Raft.Commit.{
  has_quorum, commit_entry, advance_commit, update_commit_index, Select, apply_committed_entries,
}
use distributed_mq.Raft.Replication.{
  merge_entries, min_u64, finish_append, accept_entries, prev_conflict, check_prev, handle_append,
  append_entries_rpc, advance_peer, retreat_peer, handle_append_reply_locked, handle_append_reply,
}
use distributed_mq.Raft.Snapshot.{
  InstallSnapshotArgs, InstallSnapshotReply, handle_snapshot, install_snapshot_rpc,
  handle_snapshot_reply_locked, handle_snapshot_reply,
}
use distributed_mq.Prelude.Map.{get_or}

pub quiet-Kept : {A : Type 0} (m : Handler A) → Frames SameVote m → Frames Kept m
quiet-Kept m h r = SameVote-Kept r (m r).1 (h r)

module _ (select : Select) where
  accept_entries-quiet : (args : AppendEntriesArgs) → Frames SameVote (accept_entries select args)
  unfolding accept_entries
  accept_entries-quiet args r =
      let log = merge_entries (args.prev_log_index + 1) args.entries r.log in
      let advanced : RaftNode = record r {
        log = log;
        commit_index = min_u64 args.leader_commit (sub_u64 (length log) 1);
      } in
      frame-if SameVote r (ltb r.commit_index args.leader_commit) _ _
        (λ _.
          frame-bind SameVote-frame (apply_committed_entries select) (λ _. finish_append)
            (apply_committed_entries-quiet select) (λ _ s. (refl, refl)) advanced)
        (λ _. (refl, refl))

  check_prev-quiet : (args : AppendEntriesArgs) → Frames SameVote (check_prev select args)
  unfolding check_prev
  check_prev-quiet args r =
      frame-if SameVote r (leb (length r.log) args.prev_log_index) _ _ (λ _. (refl, refl))
        (λ _.
          frame-if SameVote r (prev_conflict args r.log) _ (accept_entries select args r)
            (λ _. (refl, refl)) (λ _. accept_entries-quiet args r))

  handle_append-Kept : (args : AppendEntriesArgs) → Frames Kept (handle_append select args)
  unfolding handle_append
  handle_append-Kept args r =
      let s = reset_election_timer (adopt_term args.term r) in
      frame-if Kept r (ltb args.term r.current_term) _ (check_prev select args s) (λ _. Kept-refl r)
        (λ _.
          Kept-trans r s (check_prev select args s).1 (adopt_term-Kept args.term r)
            (quiet-Kept (check_prev select args) (check_prev-quiet args) s))

  pub append_entries_rpc-Kept :
      (args : AppendEntriesArgs) → Frames Kept (append_entries_rpc select args)
  unfolding append_entries_rpc
  append_entries_rpc-Kept args =
      frame-with_lock Kept-frame (handle_append select args) (handle_append-Kept args)

  pub apply_committed_entries-Kept : Frames Kept (apply_committed_entries select)
  apply_committed_entries-Kept =
      quiet-Kept (apply_committed_entries select) (apply_committed_entries-quiet select)

handle_snapshot-Kept : (args : InstallSnapshotArgs) → Frames Kept (handle_snapshot args)
unfolding handle_snapshot
handle_snapshot-Kept args r =
    frame-if Kept r (ltb args.term r.current_term) _ _ (λ _. Kept-refl r)
      (λ _.
        frame-if Kept r
          (leb args.last_included_index
            (reset_election_timer (adopt_term args.term r)).commit_index)
          _ _ (λ _. adopt_term-Kept args.term r) (λ _. adopt_term-Kept args.term r))

pub install_snapshot_rpc-Kept :
    (args : InstallSnapshotArgs) → Frames Kept (install_snapshot_rpc args)
unfolding install_snapshot_rpc
install_snapshot_rpc-Kept args =
    frame-with_lock Kept-frame (handle_snapshot args) (handle_snapshot-Kept args)

become_leader-quiet : (r : RaftNode) → SameVote r (become_leader r)
unfolding become_leader
become_leader-quiet r = (refl, refl)

win-Kept : (b : Ballot) (r : RaftNode) → Kept r (win b r).1
win-Kept b r =
    if-elim (Kept r) (ballot_won b) (become_leader r) r
      (λ _. SameVote-Kept r (become_leader r) (become_leader-quiet r)) (λ _. Kept-refl r)

module _ (addr : String) (reply : RequestVoteReply) (b : Ballot) where
  vote_reply_locked-Kept : Frames Kept (handle_vote_reply_locked addr reply b)
  vote_reply_locked-Kept r =
      frame-if Kept r (ltb r.current_term reply.term) (ret b, become_follower reply.term r) _
        (λ e. become_follower-Kept reply.term r (ltb→lt _ _ e))
        (λ _.
          frame-if Kept r (is_candidate r.state && r.current_term == b.term && reply.vote_granted)
            (win (count_vote r addr b) r) (ret b, r) (λ _. win-Kept (count_vote r addr b) r)
            (λ _. Kept-refl r))

  pub handle_vote_reply-Kept : Frames Kept (handle_vote_reply addr reply b)
  unfolding handle_vote_reply
  handle_vote_reply-Kept =
      frame-with_lock Kept-frame (handle_vote_reply_locked addr reply b) vote_reply_locked-Kept

-- A node that stands for election is not in the last term of a uint64.
abbrev pub CanStand : RaftNode → Type 0
CanStand r = r.current_term + 1 < 2 ^ 64

stand-Kept : (r : RaftNode) → CanStand r → Kept r (stand r)
stand-Kept r h = (omega arith, λ e v. absurd (omega arith))

contest-quiet : (r s : RaftNode) → SameVote s (contest s r).1
contest-quiet r s =
    match-elim (λ (p : Outcome Ballot × RaftNode). SameVote s p.1) (last? s.log) (panic, s) _
      (λ _. (refl, refl))
      (λ last _.
        frame-if SameVote s (leb (length s.peers) 0)
          (ret (new_ballot s), save_state (become_leader s)) _ (λ _. become_leader-quiet s)
          (λ _. (refl, refl)))

pub start_election-Kept : (r : RaftNode) → CanStand r → Kept r (start_election r).1
unfolding start_election
start_election-Kept r h =
    Kept-trans r (stand r) (contest (stand r) r).1 (stand-Kept r h)
      (SameVote-Kept (stand r) (contest (stand r) r).1 (contest-quiet r (stand r)))

module _ (r : RaftNode) (can : CanStand r) where
  pub on_election_timeout-Kept : Kept r (on_election_timeout r).1
  unfolding on_election_timeout
  on_election_timeout-Kept = frame-with_lock_at Kept-frame on_election_timeout_locked r (
      frame-if Kept r (is_leader r.state) _ _ (λ _. Kept-refl r)
        (λ _. start_election-Kept (record r { locked = true }) can))

  pub after_votes-Kept : (term : ℕ) → Kept r (after_votes term r).1
  unfolding after_votes
  after_votes-Kept term = frame-with_lock_at Kept-frame (after_votes_locked term) r (
      frame-if Kept r (is_candidate r.state && r.current_term == term) _ _
        (λ _. start_election-Kept (record r { locked = true }) can) (λ _. Kept-refl r))

advance_commit-quiet : (rounds n : ℕ) (r : RaftNode) → SameVote r (advance_commit rounds n r)
unfolding advance_commit
advance_commit-quiet zero n r = (refl, refl)
advance_commit-quiet (suc rounds) n r =
    match-elim (SameVote r) (get_elem? r.log n) r _ (λ _. (refl, refl))
      (λ entry _.
        if-elim (SameVote r) (entry.term == r.current_term && has_quorum n r) _ r
          (λ _. advance_commit-quiet rounds (n + 1) (commit_entry n r)) (λ _. (refl, refl)))

update_commit_index-quiet : (r : RaftNode) → SameVote r (update_commit_index r)
unfolding update_commit_index
update_commit_index-quiet r = advance_commit-quiet (length r.log) (r.commit_index + 1) r

retreat_peer-quiet : (addr : String) (r : RaftNode) → SameVote r (retreat_peer addr r)
retreat_peer-quiet addr r =
    if-elim (SameVote r) (ltb 1 (get_or addr 0 r.next_index)) _ r (λ _. (refl, refl))
      (λ _. (refl, refl))

pub handle_append_reply-Kept :
    (addr : String) (args : AppendEntriesArgs) (reply : AppendEntriesReply)
    → Frames Kept (handle_append_reply addr args reply)
unfolding handle_append_reply
handle_append_reply-Kept addr args reply =
    frame-with_lock Kept-frame (handle_append_reply_locked addr args reply) λ r.
      frame-if Kept r (ltb r.current_term reply.term) (ret tt, become_follower reply.term r) _
        (λ e. become_follower-Kept reply.term r (ltb→lt _ _ e))
        (λ _.
          frame-if Kept r (not (is_leader r.state)) (ret tt, r) _ (λ _. Kept-refl r)
            (λ _.
              frame-if Kept r reply.success (ret tt, update_commit_index (advance_peer addr args r))
                (ret tt, retreat_peer addr r)
                (λ _.
                  SameVote-Kept r (update_commit_index (advance_peer addr args r))
                    (update_commit_index-quiet (advance_peer addr args r)))
                (λ _. SameVote-Kept r (retreat_peer addr r) (retreat_peer-quiet addr r))))

pub handle_snapshot_reply-Kept :
    (addr : String) (last : ℕ) (reply : InstallSnapshotReply)
    → Frames Kept (handle_snapshot_reply addr last reply)
unfolding handle_snapshot_reply
handle_snapshot_reply-Kept addr last reply =
    frame-with_lock Kept-frame (handle_snapshot_reply_locked addr last reply) λ r.
      frame-if Kept r (ltb r.current_term reply.term) (ret tt, become_follower reply.term r) _
        (λ e. become_follower-Kept reply.term r (ltb→lt _ _ e))
        (λ _. frame-if Kept r reply.success _ _ (λ _. Kept-refl r) (λ _. Kept-refl r))

-- ===== src/Raft/Steps/Once.antt =====
-- A node of cluster/go/raft/raft.go votes once in a term.
use distributed_mq.Prelude.{
  ltb, if-elim, match-elim, ◌==◌, length, last?, String, ◌≡◌, refl, sym, ◌∙◌, ◌≢◌, true, false,
  ◌||◌,
}
use distributed_mq.Prelude.{nat_eq, string_eq}
use distributed_mq.Raft.Votes.{Kept}
use distributed_mq.Raft.Election.Restriction.{granted}
use distributed_mq.Raft.Steps.{vote_request, Reach, next, Reach-Kept}
use distributed_mq.Go.{sub_u64, Outcome, ret, panic, blocked}
use distributed_mq.Raft.{RequestVoteArgs, RequestVoteReply, RaftNode}
use distributed_mq.Raft.Storage.{save_state}
use distributed_mq.Raft.Roles.{unlock_after, reset_election_timer}
use distributed_mq.Raft.Election.{
  is_log_up_to_date, vote_reply, decide_vote, adopt_term, handle_vote, request_vote_rpc,
}

-- A granted vote is recorded.
abbrev Recorded : String → Outcome RequestVoteReply × RaftNode → Type 0
Recorded cand p = granted p.0 ≡ true → p.1.voted_for ≡ cand

decide_vote-Recorded :
    (args : RequestVoteArgs) (r : RaftNode) → Recorded args.candidate_id (decide_vote args r)
unfolding decide_vote
decide_vote-Recorded args r =
    if-elim (Recorded args.candidate_id) (r.voted_for == "" || r.voted_for == args.candidate_id) _
      (vote_reply r false)
      (λ _.
        match-elim (Recorded args.candidate_id) (last? r.log) (panic, r) _ (λ _ h. cc)
          (λ last _.
            if-elim (Recorded args.candidate_id)
              (is_log_up_to_date (sub_u64 (length r.log) 1) last.term args.last_log_index
                args.last_log_term)
              (vote_reply
                (save_state (reset_election_timer (record r { voted_for = args.candidate_id })))
                true)
              (vote_reply r false) (λ _ _. refl) (λ _ h. cc)))
      (λ _ h. cc)

handle_vote-Recorded :
    (args : RequestVoteArgs) (r : RaftNode) → Recorded args.candidate_id (handle_vote args r)
unfolding handle_vote
handle_vote-Recorded args r =
    if-elim (Recorded args.candidate_id) (ltb args.term r.current_term) (vote_reply r false) _
      (λ _ h. cc) (λ _. decide_vote-Recorded args (adopt_term args.term r))

unlock_after-Recorded :
    (cand : String) (p : Outcome RequestVoteReply × RaftNode)
    → Recorded cand p
    → Recorded cand (unlock_after p)
unlock_after-Recorded cand (ret reply, s) h =
    if-elim (Recorded cand) s.locked (ret reply, record s { locked = false }) (panic, s) (λ _. h)
      (λ _ g. cc)
unlock_after-Recorded cand (panic, s) h = λ g. cc
unlock_after-Recorded cand (blocked, s) h = h

pub request_vote_rpc-Recorded :
    (args : RequestVoteArgs) (r : RaftNode)
    → granted (request_vote_rpc args r).0 ≡ true
    → (request_vote_rpc args r).1.voted_for ≡ args.candidate_id
unfolding request_vote_rpc
request_vote_rpc-Recorded args r =
    let held : RaftNode = record r { locked = true } in
    if-elim (Recorded args.candidate_id) r.locked (blocked, r)
      (unlock_after (handle_vote args held)) (λ _ h. cc)
      (λ _.
        unlock_after-Recorded args.candidate_id (handle_vote args held)
          (handle_vote-Recorded args held))

-- If a node grants its vote to a candidate with a name, and after any run of its handlers grants
-- its vote again in the same term, then it is to the same candidate.
pub vote_once :
    (a b : RequestVoteArgs) (r s : RaftNode)
    → a.candidate_id ≢ ""
    → granted (request_vote_rpc a r).0 ≡ true
    → Reach (request_vote_rpc a r).1 s
    → granted (request_vote_rpc b s).0 ≡ true
    → (request_vote_rpc b s).1.current_term ≡ (request_vote_rpc a r).1.current_term
    → b.candidate_id ≡ a.candidate_id
vote_once a b r s named first run second term =
    let voted : (request_vote_rpc a r).1.voted_for ≡ a.candidate_id =
      request_vote_rpc-Recorded a r first in
    let kept : Kept (request_vote_rpc a r).1 (request_vote_rpc b s).1 =
      Reach-Kept (request_vote_rpc a r).1 (request_vote_rpc b s).1 (next run (vote_request b)) in
    sym (request_vote_rpc-Recorded b s second)
    ∙ kept.1 term (λ blank. named (sym voted ∙ blank))
    ∙ voted

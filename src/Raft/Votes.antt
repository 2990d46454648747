-- ===== src/Raft/Votes.antt =====
-- What each operation of a node does to its term and its vote (cluster/go/raft/raft.go).
-- In these lemmas the term never falls, and a vote that was given stays while the term does.
use distributed_mq.Prelude.{
  ltb, ltb→lt, Bool-cases, Option-cases, ◌==◌, str_iff, length, last?, ℕ, ◌≤◌, ◌<◌, String, ◌≡◌,
  refl, sym, ◌∙◌, ◌≢◌, inl, inr, true, ◌||◌, arith,
}
use distributed_mq.Prelude.{nat_eq, string_eq}
use distributed_mq.Go.{sub_u64}
use distributed_mq.Raft.{RequestVoteArgs, RaftNode}
use distributed_mq.Raft.Storage.{save_state}
use distributed_mq.Raft.Roles.{reset_election_timer, become_follower}
use distributed_mq.Raft.Election.{
  is_log_up_to_date, decide_vote, adopt_term, handle_vote, request_vote_rpc,
}
use distributed_mq.Raft.Frame.{IsFrame, frame-with_lock}

abbrev pub Kept : RaftNode → RaftNode → Type 0
Kept r s =
    (r.current_term ≤ s.current_term)
    × (s.current_term ≡ r.current_term → r.voted_for ≢ "" → s.voted_for ≡ r.voted_for)

-- Term and vote are the same.
abbrev pub SameVote : RaftNode → RaftNode → Type 0
SameVote r s = (s.current_term ≡ r.current_term) × (s.voted_for ≡ r.voted_for)

pub SameVote-trans : (r s t : RaftNode) → SameVote r s → SameVote s t → SameVote r t
SameVote-trans r s t h k = (k.0 ∙ h.0, k.1 ∙ h.1)

pub SameVote-frame : IsFrame SameVote
SameVote-frame = record {
  same = λ r. (refl, refl);
  follow = SameVote-trans;
  relock = λ r b. (refl, refl);
}

pub SameVote-Kept : (r s : RaftNode) → SameVote r s → Kept r s
SameVote-Kept r s h = (omega arith, λ _ _. h.1)

pub Kept-trans : (r s t : RaftNode) → Kept r s → Kept s t → Kept r t
Kept-trans r s t h k = (
  omega arith,
  λ e v.
      let same : s.current_term ≡ r.current_term = omega arith in
      let given : s.voted_for ≡ r.voted_for = h.1 same v in
      k.1 (omega arith) (λ blank. v (sym given ∙ blank)) ∙ given,
)

pub Kept-frame : IsFrame Kept
Kept-frame = record {
  same = λ r. SameVote-Kept r r (refl, refl);
  follow = Kept-trans;
  relock = λ r b. SameVote-Kept r r (refl, refl);
}

pub Kept-refl : (r : RaftNode) → Kept r r
Kept-refl r = SameVote-Kept r r (refl, refl)

pub become_follower-Kept :
    (term : ℕ) (r : RaftNode) → r.current_term < term → Kept r (become_follower term r)
unfolding become_follower
become_follower-Kept term r h = (omega arith, λ e v. absurd (omega arith))

pub adopt_term-Kept : (term : ℕ) (r : RaftNode) → Kept r (adopt_term term r)
adopt_term-Kept term r = elim (Bool-cases (ltb r.current_term term)) [
  | inl e ↦ rw e (become_follower-Kept term r (ltb→lt _ _ e))
  | inr e ↦ rw e (Kept-refl r)
]

cast_vote-Kept :
    (cand : String) (r : RaftNode)
    → (r.voted_for == "" || r.voted_for == cand) ≡ true
    → Kept r (save_state (reset_election_timer (record r { voted_for = cand })))
cast_vote-Kept cand r h =
    (omega arith, λ e v. ground (arith, str_iff r.voted_for "", str_iff r.voted_for cand, v))

decide_vote-Kept : (args : RequestVoteArgs) (r : RaftNode) → Kept r (decide_vote args r).1
unfolding decide_vote
decide_vote-Kept args r =
    elim (Bool-cases (r.voted_for == "" || r.voted_for == args.candidate_id)) [
      | inr e ↦ rw e (Kept-refl r)
      | inl e ↦ rw e (elim (Option-cases (last? r.log)) [
        | inl n ↦ rw n (Kept-refl r)
        | inr (last, l) ↦
            rw l
              (elim (Bool-cases (
                is_log_up_to_date (sub_u64 (length r.log) 1) last.term args.last_log_index
                  args.last_log_term)) [
                    | inl u ↦ rw u (cast_vote-Kept args.candidate_id r e)
                    | inr u ↦ rw u (Kept-refl r)
                  ])
      ])
    ]

handle_vote-Kept : (args : RequestVoteArgs) (r : RaftNode) → Kept r (handle_vote args r).1
unfolding handle_vote
handle_vote-Kept args r = elim (Bool-cases (ltb args.term r.current_term)) [
  | inl e ↦ rw e (Kept-refl r)
  | inr e ↦ rw e (
      Kept-trans r (adopt_term args.term r) (decide_vote args (adopt_term args.term r)).1
        (adopt_term-Kept args.term r) (decide_vote-Kept args (adopt_term args.term r)))
]

pub request_vote_rpc-Kept :
    (args : RequestVoteArgs) (r : RaftNode) → Kept r (request_vote_rpc args r).1
unfolding request_vote_rpc
request_vote_rpc-Kept args r =
    frame-with_lock Kept-frame (handle_vote args) (handle_vote-Kept args) r

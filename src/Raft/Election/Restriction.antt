-- ===== src/Raft/Election/Restriction.antt =====
-- When RequestVote of cluster/go/raft/raft.go grants a vote.
use distributed_mq.Prelude.{
  ltb, Bool-cases, if-elim, ◌==◌, str_iff, length, last?, length-pos_of_last?, ℕ, ◌-◌, ◌^◌, ◌≤◌,
  ◌<◌, ◌≡◌, refl, ap, ◌∙◌, ◌↔◌, ◌⊎◌, inl, inr, Bool, true, false, ◌&&◌, ◌||◌, not, some, List,
  arith,
}
use distributed_mq.Prelude.{nat_eq, string_eq}
use distributed_mq.Go.{sub_u64, Outcome, ret, panic, blocked}
use distributed_mq.Raft.{LogEntry, RequestVoteArgs, RequestVoteReply, RaftNode}
use distributed_mq.Raft.Election.{
  is_log_up_to_date, decide_vote, adopt_term, handle_vote, request_vote_rpc,
}
use distributed_mq.Raft.Roles.{unlock_after, become_follower}

abbrev pub granted : Outcome RequestVoteReply → Bool
granted (ret reply) = reply.vote_granted
granted panic = false
granted blocked = false

-- The candidate's last entry is strictly older than `last`, the node's own at index `top`.
abbrev pub IsBehind : RequestVoteArgs → LogEntry → ℕ → Type 0
IsBehind args last top =
    (args.last_log_term < last.term)
    ⊎ ((args.last_log_term ≡ last.term) × (args.last_log_index < top))

-- The node has no vote left to give to another candidate in the term of the request.
abbrev pub HasVoteFor : RequestVoteArgs → RaftNode → Type 0
HasVoteFor args r =
    (r.current_term < args.term) ⊎ ((r.voted_for ≡ "") ⊎ (r.voted_for ≡ args.candidate_id))

abbrev pub MayGrant : RequestVoteArgs → LogEntry → RaftNode → Type 0
MayGrant args last r =
    (r.current_term ≤ args.term) × HasVoteFor args r × IsBehind args last (length r.log - 1)

abbrev vote_free : RequestVoteArgs → RaftNode → Bool
vote_free args r = r.voted_for == "" || r.voted_for == args.candidate_id

abbrev newer : RequestVoteArgs → LogEntry → RaftNode → Bool
newer args last r =
    is_log_up_to_date (sub_u64 (length r.log) 1) last.term args.last_log_index args.last_log_term

-- The answer, with `mu` still held.
abbrev Answers : Bool → Outcome RequestVoteReply × RaftNode → Type 0
Answers b p = (granted p.0 ≡ b) × (p.1.locked ≡ true)

decide_vote-Answers :
    (args : RequestVoteArgs) (r : RaftNode) (last : LogEntry)
    → r.locked ≡ true
    → last? r.log ≡ some last
    → Answers (vote_free args r && newer args last r) (decide_vote args r)
unfolding decide_vote
decide_vote-Answers args r last held has = elim (Bool-cases (vote_free args r)) [
  | inr n ↦ rw n (refl, held)
  | inl y ↦
      rw (y, has)
        (elim (Bool-cases (newer args last r)) [
          | inl e ↦ rw e (refl, held)
          | inr e ↦ rw e (refl, held)
        ])
]

adopt_term-held : (term : ℕ) (r : RaftNode) → (adopt_term term r).locked ≡ r.locked
unfolding become_follower
adopt_term-held term r =
    if-elim (λ (s : RaftNode). s.locked ≡ r.locked) (ltb r.current_term term) _ r (λ _. refl)
      (λ _. refl)

adopt_term-log : (term : ℕ) (r : RaftNode) → (adopt_term term r).log ≡ r.log
unfolding become_follower
adopt_term-log term r =
    if-elim (λ (s : RaftNode). s.log ≡ r.log) (ltb r.current_term term) _ r (λ _. refl) (λ _. refl)

unlock_after-granted :
    (b : Bool) (p : Outcome RequestVoteReply × RaftNode)
    → Answers b p
    → granted (unlock_after p).0 ≡ b
unlock_after-granted b (ret reply, s) h = rw h.1 h.0
unlock_after-granted b (panic, s) h = h.0
unlock_after-granted b (blocked, s) h = h.0

vote_free-adopt_term :
    (args : RequestVoteArgs) (r : RaftNode)
    → vote_free args (adopt_term args.term r) ≡ (ltb r.current_term args.term || vote_free args r)
unfolding become_follower
vote_free-adopt_term args r = elim (Bool-cases (ltb r.current_term args.term)) [
  | inl e ↦ rw e
  | inr e ↦ rw e
]

handle_vote-Answers :
    (args : RequestVoteArgs) (r : RaftNode) (last : LogEntry)
    → r.locked ≡ true
    → last? r.log ≡ some last
    → Answers
        (not (ltb args.term r.current_term)
          && ((ltb r.current_term args.term || vote_free args r) && newer args last r))
        (handle_vote args r)
unfolding handle_vote
handle_vote-Answers args r last held has =
    let s = adopt_term args.term r in
    let answer : Answers (vote_free args s && newer args last s) (decide_vote args s) =
      decide_vote-Answers args s last (adopt_term-held args.term r ∙ held)
        (ap last? (adopt_term-log args.term r) ∙ has) in
    let same : newer args last s ≡ newer args last r =
      ap
        (λ (log : List LogEntry).
          is_log_up_to_date (sub_u64 (length log) 1) last.term args.last_log_index
            args.last_log_term)
        (adopt_term-log args.term r) in
    elim (Bool-cases (ltb args.term r.current_term)) [
      | inl e ↦ rw e (refl, held)
      | inr e ↦ rw (e, ← vote_free-adopt_term args r, ← same) answer
    ]

request_vote_rpc-granted :
    (args : RequestVoteArgs) (r : RaftNode) (last : LogEntry)
    → r.locked ≡ false
    → last? r.log ≡ some last
    → granted (request_vote_rpc args r).0 ≡ (
        not (ltb args.term r.current_term)
        && ((ltb r.current_term args.term || vote_free args r) && newer args last r))
unfolding request_vote_rpc
request_vote_rpc-granted args r last free has =
    let held : RaftNode = record r { locked = true } in
    if-elim
      (λ (p : Outcome RequestVoteReply × RaftNode). granted p.0 ≡ (
        not (ltb args.term r.current_term)
        && ((ltb r.current_term args.term || vote_free args r) && newer args last r)))
      r.locked (blocked, r) (unlock_after (handle_vote args held)) (λ e. cc)
      (λ _.
        unlock_after-granted _ (handle_vote args held)
          (handle_vote-Answers args held last refl has))

-- A node whose mutex is free grants a vote exactly when the term of the request is not behind its
-- own, it has a vote left for the candidate in that term, and the candidate's last entry is
-- strictly older than the node's own last entry.
pub vote_granted_iff :
    (args : RequestVoteArgs) (r : RaftNode) (last : LogEntry)
    → r.locked ≡ false
    → last? r.log ≡ some last
    → length r.log < 2 ^ 64
    → (granted (request_vote_rpc args r).0 ≡ true) ↔ MayGrant args last r
unfolding is_log_up_to_date
vote_granted_iff args r last free has bound = (
  λ h. ground (
    arith,
    request_vote_rpc-granted args r last free has,
    length-pos_of_last? r.log last has,
    str_iff r.voted_for "",
    str_iff r.voted_for args.candidate_id,
  ),
  λ h. ground (
    arith,
    request_vote_rpc-granted args r last free has,
    length-pos_of_last? r.log last has,
    str_iff r.voted_for "",
    str_iff r.voted_for args.candidate_id,
  ),
)

-- ===== src/Raft/Election.antt =====
-- Elections, of cluster/go/raft/raft.go: isLogUpToDate, RequestVote, startElection with the
-- goroutines that it starts, and the election case of run.
pub mod Restriction
use distributed_mq.Prelude.{
  ltb, leb, if◌then◌else◌, ◌==◌, length, last?, ℕ, ◌+◌, ◌/◌, String, Bool, true, false, ◌&&◌, ◌||◌,
  Option, none, some, List, [], ◌∷◌, ◌++◌,
}
use distributed_mq.Prelude.{nat_eq, string_eq}
use distributed_mq.Prelude.Map.{Map, get_or}
use distributed_mq.Go.{u64, sub_u64, Outcome, ret, panic, map_outcome}
use distributed_mq.Raft.{
  NodeState, candidate, ConfigState, LogEntry, Peer, RequestVoteArgs, RequestVoteReply, Task,
  request_vote, await_votes, RaftNode,
}
use distributed_mq.Raft.Storage.{save_state}
use distributed_mq.Raft.Roles.{
  Handler, with_lock, reset_election_timer, become_follower, become_leader, is_leader, len_config,
  config_has, is_joint,
}

-- isLogUpToDate, at the node's own last index and term
unfoldable pub is_log_up_to_date : ℕ → ℕ → ℕ → ℕ → Bool
is_log_up_to_date last_index last_term last_log_index last_log_term =
    ltb last_log_term last_term || (last_term == last_log_term && ltb last_log_index last_index)

abbrev pub vote_reply : RaftNode → Bool → Outcome RequestVoteReply × RaftNode
vote_reply r granted = (ret (record { term = r.current_term; vote_granted = granted }), r)

-- the last part of RequestVote; `r.log[lastIndex]` panics on an empty log
unfoldable pub decide_vote : RequestVoteArgs → Handler RequestVoteReply
unfolding is_log_up_to_date
decide_vote args r =
    if r.voted_for == "" || r.voted_for == args.candidate_id
    then elim (last? r.log) [
      | none ↦ (panic, r)
      | some last ↦
          if is_log_up_to_date (sub_u64 (length r.log) 1) last.term args.last_log_index
            args.last_log_term
          then vote_reply
              (save_state (reset_election_timer (record r { voted_for = args.candidate_id }))) true
          else vote_reply r false
    ]
    else vote_reply r false

-- `if args.Term > r.currentTerm { r.becomeFollower(args.Term) }`
abbrev pub adopt_term : ℕ → RaftNode → RaftNode
adopt_term term r = if ltb r.current_term term then become_follower term r else r

unfoldable pub handle_vote : RequestVoteArgs → Handler RequestVoteReply
unfolding decide_vote become_follower
handle_vote args r =
    if ltb args.term r.current_term
    then vote_reply r false
    else decide_vote args (adopt_term args.term r)

-- RequestVote
unfoldable pub request_vote_rpc : RequestVoteArgs → Handler RequestVoteReply
unfolding handle_vote
request_vote_rpc args = with_lock (handle_vote args)

-- The variables of startElection that its goroutines share.
pub record Ballot : Type 0 where
  pub term : ℕ
  pub votes : ℕ
  pub old_votes : ℕ
  pub new_votes : ℕ
  pub config_state : ConfigState
  pub old_count : ℕ
  pub new_count : ℕ
  pub voters : ℕ  -- len(nonLearnerPeers)

-- nonLearnerPeers
abbrev pub non_learners : Map String Peer → List String
non_learners [] = []
non_learners ((addr, peer) ∷ peers) =
    let rest = non_learners peers in if peer.learner then rest else peer.addr ∷ rest

abbrev pub vote_requests : RequestVoteArgs → List String → List Task
vote_requests args [] = []
vote_requests args (addr ∷ addrs) = request_vote addr args ∷ vote_requests args addrs

-- `r.currentTerm++` and the two writes after it
abbrev pub stand : RaftNode → RaftNode
stand r = reset_election_timer (record r {
  state = candidate;
  current_term = u64 (r.current_term + 1);
  voted_for = r.self_addr;
})

abbrev pub new_ballot : RaftNode → Ballot
new_ballot r = record {
  term = r.current_term;
  votes = 1;
  old_votes = 1;
  new_votes = 0;
  config_state = r.config_state;
  old_count = length r.current_config;
  new_count = len_config r.new_config;
  voters = length (non_learners r.peers);
}

-- what is sent to each voter
abbrev pub vote_args : RaftNode → LogEntry → RequestVoteArgs
vote_args r last = record {
  term = r.current_term;
  candidate_id = r.self_addr;
  last_log_index = sub_u64 (length r.log) 1;
  last_log_term = last.term;
}

-- the goroutines of startElection: one for each voter, and the one that waits for them all
abbrev pub canvass : RaftNode → LogEntry → RaftNode
canvass r last = record r {
  spawned =
      r.spawned
      ++ vote_requests (vote_args r last) (non_learners r.peers)
      ++ await_votes r.current_term ∷ [];
}

abbrev pub contest : RaftNode → Handler Ballot
contest r _ = elim (last? r.log) [
  | none ↦ (panic, r)
  | some last ↦
      if leb (length r.peers) 0
      then (ret (new_ballot r), save_state (become_leader r))
      else (ret (new_ballot r), save_state (canvass r last))
]

-- startElection, called with `mu` held
unfoldable pub start_election : Handler Ballot
unfolding become_leader
start_election r = contest (stand r) r

-- the vote counting of the goroutine of one voter
abbrev pub count_vote : RaftNode → String → Ballot → Ballot
count_vote r addr b =
    if is_joint b.config_state
    then record b {
      votes = b.votes + 1;
      old_votes = if get_or addr false r.current_config then b.old_votes + 1 else b.old_votes;
      new_votes = if config_has addr r.new_config then b.new_votes + 1 else b.new_votes;
    }
    else record b { votes = b.votes + 1 }

abbrev pub ballot_won : Ballot → Bool
ballot_won b =
    if is_joint b.config_state
    then leb (b.old_count / 2 + 1) b.old_votes && leb (b.new_count / 2 + 1) b.new_votes
    else ltb ((b.voters + 1) / 2) b.votes

abbrev pub is_candidate : NodeState → Bool
is_candidate candidate = true
is_candidate _ = false

abbrev pub win : Ballot → RaftNode → Outcome Ballot × RaftNode
win b r = (ret b, if ballot_won b then become_leader r else r)

-- the goroutine of one voter, from its `r.mu.Lock()` on
abbrev pub handle_vote_reply_locked : String → RequestVoteReply → Ballot → Handler Ballot
handle_vote_reply_locked addr reply b r =
    if ltb r.current_term reply.term
    then (ret b, become_follower reply.term r)
    else if is_candidate r.state && r.current_term == b.term && reply.vote_granted
    then win (count_vote r addr b) r
    else (ret b, r)

unfoldable pub handle_vote_reply : String → RequestVoteReply → Ballot → Handler Ballot
unfolding become_follower become_leader
handle_vote_reply addr reply b = with_lock (handle_vote_reply_locked addr reply b)

-- the goroutine that waits for all voters: a candidate of the same term stands again
abbrev pub after_votes_locked : ℕ → Handler (Option Ballot)
after_votes_locked term r =
    if is_candidate r.state && r.current_term == term
    then (let (b, r') = start_election r in (map_outcome some b, r'))
    else (ret none, r)

unfoldable pub after_votes : ℕ → Handler (Option Ballot)
unfolding start_election
after_votes term = with_lock (after_votes_locked term)

-- the case of run in which the election timer fires
abbrev pub on_election_timeout_locked : Handler (Option Ballot)
on_election_timeout_locked r =
    if is_leader r.state
    then (ret none, reset_election_timer r)
    else (let (b, r') = start_election r in (map_outcome some b, r'))

unfoldable pub on_election_timeout : Handler (Option Ballot)
unfolding start_election
on_election_timeout = with_lock on_election_timeout_locked

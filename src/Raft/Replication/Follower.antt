-- ===== src/Raft/Replication/Follower.antt =====
-- What AppendEntries of cluster/go/raft/raft.go answers and leaves behind, on each path.
use distributed_mq.Prelude.{
  ltb, leb, if◌then◌else◌, Bool-cases, if-elim, length, get_elem?, lt_of_get_elem?, ℕ, ◌+◌, ◌^◌,
  ◌≤◌, ◌<◌, ◌≡◌, refl, ◌⊎◌, inl, inr, Bool, true, false, some, List, arith,
}
use distributed_mq.Prelude.{nat_eq, string_eq}
use distributed_mq.Raft.Replication.Merge.{merged, merge_entries_lem}
use distributed_mq.Go.{sub_u64, Outcome, ret, panic, blocked, continue}
use distributed_mq.Raft.{LogEntry, AppendEntriesArgs, AppendEntriesReply, RaftNode}
use distributed_mq.Raft.Commit.{Select}
use distributed_mq.Raft.Replication.{
  merge_entries, min_u64, finish_append, accept_entries, prev_conflict, check_prev, handle_append,
  append_entries_rpc,
}
use distributed_mq.Raft.Roles.{unlock_after, reset_election_timer, become_follower}
use distributed_mq.Raft.Election.{adopt_term}

abbrev Answer : Type 0
Answer = Outcome AppendEntriesReply × RaftNode

-- the term of the reply: a newer term of the request is adopted
abbrev pub reply_term : AppendEntriesArgs → RaftNode → ℕ
reply_term args r = if ltb r.current_term args.term then args.term else r.current_term

abbrev pub accepted : AppendEntriesArgs → RaftNode → AppendEntriesReply
accepted args r = record {
  term = reply_term args r;
  success = true;
  conflict_index = 0;
  last_log_index = sub_u64 (length (merged (args.prev_log_index + 1) args.entries r.log)) 1;
}

abbrev pub leader_ahead : AppendEntriesArgs → RaftNode → Bool
leader_ahead args r = ltb r.commit_index args.leader_commit

-- `t` and `log` are the term of the reply and the log that is left.
abbrev Accepts : AppendEntriesArgs → RaftNode → ℕ → List LogEntry → Answer → Type 0
Accepts args r t log p =
    (p.0 ≡ (
      if leader_ahead args r
      then blocked
      else ret (record {
        term = t;
        success = true;
        conflict_index = 0;
        last_log_index = sub_u64 (length log) 1;
      })))
    × (p.1.log ≡ log)
    × (p.1.locked ≡ true)

module _ (select : Select) (args : AppendEntriesArgs) where
  accept_entries-Accepts :
      (r : RaftNode)
      → r.locked ≡ true
      → Accepts args r r.current_term
          (merge_entries (args.prev_log_index + 1) args.entries r.log)
          (accept_entries select args r)
  unfolding accept_entries
  accept_entries-Accepts r held =
      let log = merge_entries (args.prev_log_index + 1) args.entries r.log in
      let advanced : RaftNode = record r {
        log = log;
        commit_index = min_u64 args.leader_commit (sub_u64 (length log) 1);
      } in
      let P : Answer → Type 0 = Accepts args r r.current_term log in
      if-elim P (leader_ahead args r) _ _
        (λ e.
          if-elim (λ (q : Outcome (Unit {0}) × RaftNode). P (continue q.0 (λ _. finish_append) q.1))
            r.locked (blocked, advanced) _ (λ _. (rw e refl, refl, held)) (λ f. cc (held, f)))
        (λ e. (rw e refl, refl, held))

-- The entry before the new ones is in the log, with the term that the request gives.
pub record FitsPrev (args : AppendEntriesArgs) (log : List LogEntry) : Type 0 where
  pub prev : LogEntry
  pub there : get_elem? log args.prev_log_index ≡ some prev
  pub matches : (args.prev_log_index ≡ 0) ⊎ (prev.term ≡ args.prev_log_term)

prev_conflict-FitsPrev :
    (args : AppendEntriesArgs) (log : List LogEntry)
    → FitsPrev args log
    → prev_conflict args log ≡ false
prev_conflict-FitsPrev args log fits = ground (arith, fits.there, fits.matches)

-- The lists and indices that the answer depends on, in the state after the term was adopted.
abbrev Outcomes : AppendEntriesArgs → RaftNode → Answer → Type 0
Outcomes args r =
    Accepts args r (reply_term args r) (merge_entries (args.prev_log_index + 1) args.entries r.log)

module _ (select : Select) (args : AppendEntriesArgs) where
  check_prev-Accepts :
      (r : RaftNode)
      → r.locked ≡ true
      → FitsPrev args r.log
      → Accepts args r r.current_term
          (merge_entries (args.prev_log_index + 1) args.entries r.log)
          (check_prev select args r)
  unfolding check_prev
  check_prev-Accepts r held fits =
      let inside : args.prev_log_index < length r.log =
        lt_of_get_elem? r.log args.prev_log_index fits.prev fits.there in
      let P : Answer → Type 0 =
        Accepts args r r.current_term
          (merge_entries (args.prev_log_index + 1) args.entries r.log) in
      if-elim P (leb (length r.log) args.prev_log_index) _ _
        (λ e. absurd (ground (arith, e, inside)))
        (λ _.
          if-elim P (prev_conflict args r.log) _ (accept_entries select args r)
            (λ e. cc (prev_conflict-FitsPrev args r.log fits, e))
            (λ _. accept_entries-Accepts select args r held))

  handle_append-Outcomes :
      (r : RaftNode)
      → r.locked ≡ true
      → r.current_term ≤ args.term
      → FitsPrev args r.log
      → Outcomes args r (handle_append select args r)
  unfolding handle_append
  handle_append-Outcomes r held fresh fits =
      if-elim (Outcomes args r) (ltb args.term r.current_term) _
        (check_prev select args (reset_election_timer (adopt_term args.term r)))
        (λ e. absurd (ground (arith, e)))
        (λ _. elim (Bool-cases (ltb r.current_term args.term)) [
          | inl e ↦
              rw e
                (check_prev-Accepts (reset_election_timer (become_follower args.term r)) held fits)
          | inr e ↦ rw e (check_prev-Accepts (reset_election_timer r) held fits)
        ])

-- `mu` stays held where the handler blocks, and is released where it returns.
unlock_after-Follows :
    (b : Bool) (reply : AppendEntriesReply) (log : List LogEntry) (p : Answer)
    → (p.0 ≡ (if b then blocked else ret reply)) × (p.1.log ≡ log)
    → p.1.locked ≡ true
    → ((unlock_after p).0 ≡ (if b then blocked else ret reply))
      × ((unlock_after p).1.log ≡ log)
      × ((unlock_after p).1.locked ≡ b)
unlock_after-Follows true reply log (ret x, s) h held = cc (h.0)
unlock_after-Follows true reply log (panic, s) h held = cc (h.0)
unlock_after-Follows true reply log (blocked, s) h held = (refl, h.1, held)
unlock_after-Follows false reply log (ret x, s) h held =
    if-elim (λ (p : Answer). (p.0 ≡ ret reply) × (p.1.log ≡ log) × (p.1.locked ≡ false)) s.locked
      (ret x, record s { locked = false }) (panic, s) (λ _. (h.0, h.1, refl)) (λ f. cc (held, f))
unlock_after-Follows false reply log (panic, s) h held = cc (h.0)
unlock_after-Follows false reply log (blocked, s) h held = cc (h.0)

-- For a node whose mutex is free, a request that is not behind in its term, and whose previous
-- entry is in the log with the given term: the new log keeps what agrees with the request and takes
-- the rest from it; if LeaderCommit is not above the node's commit index, the node replies with success,
-- the newer of the two terms and the last index of the new log, and the mutex is free again; if it is
-- above, the handler blocks for ever with the mutex held.
pub append_entries_lem :
    (select : Select) (args : AppendEntriesArgs) (r : RaftNode)
    → r.locked ≡ false
    → r.current_term ≤ args.term
    → FitsPrev args r.log
    → args.prev_log_index + 1 + length args.entries < 2 ^ 64
    → let p = append_entries_rpc select args r in
      (p.0 ≡ (if leader_ahead args r then blocked else ret (accepted args r)))
      × (p.1.log ≡ merged (args.prev_log_index + 1) args.entries r.log)
      × (p.1.locked ≡ leader_ahead args r)
unfolding append_entries_rpc
append_entries_lem select args r free fresh fits bound =
    let held : RaftNode = record r { locked = true } in
    let inside : args.prev_log_index < length r.log =
      lt_of_get_elem? r.log args.prev_log_index fits.prev fits.there in
    let same : merge_entries (args.prev_log_index + 1) args.entries r.log
        ≡ merged (args.prev_log_index + 1) args.entries r.log =
      merge_entries_lem (args.prev_log_index + 1) args.entries r.log (omega arith) bound in
    let body : Outcomes args held (handle_append select args held) =
      handle_append-Outcomes select args held refl fresh fits in
    if-elim
      (λ (p : Answer).
        (p.0 ≡ (if leader_ahead args r then blocked else ret (accepted args r)))
        × (p.1.log ≡ merged (args.prev_log_index + 1) args.entries r.log)
        × (p.1.locked ≡ leader_ahead args r))
      r.locked (blocked, r) (unlock_after (handle_append select args held)) (λ e. cc (free, e))
      (λ _.
        unlock_after-Follows (leader_ahead args r) (accepted args r)
          (merged (args.prev_log_index + 1) args.entries r.log) (handle_append select args held)
          (rw (← same) (body.0, body.1)) body.2)

-- ===== src/Raft/Commit/Quorum.antt =====
-- How far updateCommitIndex of cluster/go/raft/raft.go moves the commit index.
use mathlib.Core.Path.{subst}
use distributed_mq.Prelude.{
  if-elim, match-elim, ◌==◌, length, get_elem?, lt_of_get_elem?, ℕ, zero, suc, ◌+◌, ◌≤◌, ◌<◌, ◌≡◌,
  refl, sym, true, ◌&&◌, some, arith, ℕ_discrete,
}
use distributed_mq.Prelude.{nat_eq, string_eq}
use distributed_mq.Raft.{LogEntry, RaftNode}
use distributed_mq.Raft.Commit.Majority.{HasQuorum, has_quorum-HasQuorum, HasQuorum-has_quorum}
use distributed_mq.Raft.Commit.{has_quorum, commit_entry, advance_commit, update_commit_index}

-- The leader may commit the entry at `n`: it is of the current term, and a quorum has it.
pub record CanCommit (n : ℕ) (r : RaftNode) : Type 0 where
  pub entry : LogEntry
  pub there : get_elem? r.log n ≡ some entry
  pub current : entry.term ≡ r.current_term
  pub quorum : HasQuorum n r

-- `s` is `r` with the commit index moved as far as it goes.
pub record Advanced (r s : RaftNode) : Type 0 where
  pub grows : r.commit_index ≤ s.commit_index
  pub justified : (n : ℕ) → r.commit_index < n → n ≤ s.commit_index → CanCommit n r
  pub log : s.log ≡ r.log
  pub term : s.current_term ≡ r.current_term

CanCommit-commit_entry : (m n : ℕ) (r : RaftNode) → CanCommit m (commit_entry n r) → CanCommit m r
unfolding has_quorum
CanCommit-commit_entry m n r c = record {
  entry = c.entry;
  there = c.there;
  current = c.current;
  quorum = c.quorum;
}

CanCommit-commit_entry_back :
    (m n : ℕ) (r : RaftNode) → CanCommit m r → CanCommit m (commit_entry n r)
unfolding has_quorum
CanCommit-commit_entry_back m n r c = record {
  entry = c.entry;
  there = c.there;
  current = c.current;
  quorum = c.quorum;
}

Advanced-refl : (r : RaftNode) → Advanced r r
Advanced-refl r = record {
  grows = omega arith;
  justified = λ n lo hi. absurd (omega arith);
  log = refl;
  term = refl;
}

Advanced-next :
    (n : ℕ) (r s : RaftNode)
    → n ≡ r.commit_index + 1
    → CanCommit n r
    → Advanced (commit_entry n r) s
    → Advanced r s
Advanced-next n r s e can adv = record {
  grows = omega (arith, adv.grows);
  justified = λ m lo hi. elim (ℕ_discrete m n) [
    | yes same ↦ rw same can
    | no other ↦ CanCommit-commit_entry m n r (adv.justified m (omega arith) hi)
  ];
  log = adv.log;
  term = adv.term;
}

advance_commit-Advanced :
    (rounds n : ℕ) (r : RaftNode) → n ≡ r.commit_index + 1 → Advanced r (advance_commit rounds n r)
unfolding advance_commit
advance_commit-Advanced zero n r e = Advanced-refl r
advance_commit-Advanced (suc rounds) n r e =
    match-elim (Advanced r) (get_elem? r.log n) r _ (λ _. Advanced-refl r)
      (λ entry there.
        if-elim (Advanced r) (entry.term == r.current_term && has_quorum n r) _ r
          (λ t.
            Advanced-next n r (advance_commit rounds (n + 1) (commit_entry n r)) e
              (record {
                entry = entry;
                there = there;
                current = ground (arith, t);
                quorum = has_quorum-HasQuorum n r (ground (arith, t));
              })
              (advance_commit-Advanced rounds (n + 1) (commit_entry n r) refl))
          (λ _. Advanced-refl r))

CanCommit-test :
    (n : ℕ) (r : RaftNode) (entry : LogEntry)
    → get_elem? r.log n ≡ some entry
    → CanCommit n r
    → (entry.term == r.current_term && has_quorum n r) ≡ true
CanCommit-test n r entry there c =
    ground (arith, there, c.there, c.current, HasQuorum-has_quorum n r c.quorum)

-- The loop stops for want of an entry, of its term or of a quorum, never for want of rounds.
advance_commit-maximal :
    (rounds n : ℕ) (r : RaftNode)
    → n ≡ r.commit_index + 1
    → length r.log ≤ n + rounds
    → ¬ CanCommit ((advance_commit rounds n r).commit_index + 1) r
unfolding advance_commit
advance_commit-maximal zero n r e enough = λ c.
    let inside : r.commit_index + 1 < length r.log =
      lt_of_get_elem? r.log (r.commit_index + 1) c.entry c.there in
    absurd (omega arith)
advance_commit-maximal (suc rounds) n r e enough =
    match-elim (λ (s : RaftNode). ¬ CanCommit (s.commit_index + 1) r) (get_elem? r.log n) r _
      (λ absent c. cc (absent, c.there, e))
      (λ entry there.
        if-elim (λ (s : RaftNode). ¬ CanCommit (s.commit_index + 1) r)
          (entry.term == r.current_term && has_quorum n r) _ r
          (λ t c.
            advance_commit-maximal rounds (n + 1) (commit_entry n r) refl (omega arith)
              (CanCommit-commit_entry_back _ n r c))
          (λ t c.
            let at_n : CanCommit n r = subst (λ m. CanCommit m r) (sym e) c in
            cc (t, CanCommit-test n r entry there at_n)))

-- updateCommitIndex never moves the commit index back; every index that it passes holds an entry
-- of the current term that a quorum has: the leader, counted in any case, and the peers of the
-- configuration whose match index reaches it are more than half as many as its nodes, in a joint
-- configuration for both; and it stops only before an index where that fails. It changes neither
-- the log nor the term.
pub update_commit_index_lem :
    (r : RaftNode)
    → Advanced r (update_commit_index r)
      × (¬ CanCommit ((update_commit_index r).commit_index + 1) r)
unfolding update_commit_index
update_commit_index_lem r =
    let s = advance_commit (length r.log) (r.commit_index + 1) r in
    let adv : Advanced r s = advance_commit-Advanced (length r.log) (r.commit_index + 1) r refl in
    (
      record { grows = adv.grows; justified = adv.justified; log = adv.log; term = adv.term },
      advance_commit-maximal (length r.log) (r.commit_index + 1) r refl (omega arith),
    )

-- ===== src/Transaction/Steps.antt =====
-- The runs of the transaction manager of cluster/go/broker/transaction/transaction.go: any calls of
-- its methods in any order, at any times.
use distributed_mq.Prelude.{
  Option-cases, length, ℕ, ◌<◌, String, ◌≡◌, refl, ◌∙◌, ◌≢◌, inl, inr, none, some, List, arith,
}
use mathlib.Core.Path.{subst}
use distributed_mq.Prelude.{nat_eq, string_eq}
use distributed_mq.Prelude.Map.{lookup, All-lookup}
use distributed_mq.Transaction.{
  prepared, committed, TransactionMessage, TransactionManager, ok, bad_state, set, cleanup_expired,
  begin_transaction, add_message, prepare, commit, rollback,
}
use distributed_mq.Transaction.Valid.{
  IsValid, cleanup_expired-IsValid, begin_transaction-IsValid, add_message-IsValid, prepare-IsValid,
  commit-IsValid, rollback-IsValid,
}
use distributed_mq.Transaction.Objects.{
  Onward, Onward-refl, Onward-trans, cleanup_expired-Onward, begin_transaction-Onward,
  add_message-Onward, prepare-Onward, commit-Onward, rollback-Onward,
}

pub data Step (tm : TransactionManager) : TransactionManager → Type 0 where
  begun :
      (producer : String) (id_time start : ℕ)
      → Step tm (begin_transaction producer id_time start tm).1
  added :
      (id topic : String) (partition : ℕ) (payload : List ℕ)
      → Step tm (add_message id topic partition payload tm).1
  prepared_by : (id : String) (now : ℕ) → Step tm (prepare id now tm).1
  committed_by : (id : String) (now : ℕ) → Step tm (commit id now tm).1
  rolled_back_by : (id : String) (now : ℕ) → Step tm (rollback id now tm).1
  cleaned : (now : ℕ) → Step tm (cleanup_expired now tm)

pub data Reach (tm : TransactionManager) : TransactionManager → Type 0 where
  here : Reach tm tm
  next : {a b : TransactionManager} → Reach tm a → Step a b → Reach tm b

Step-Onward :
    (tm : TransactionManager) {after : TransactionManager} → Step tm after → Onward tm after
Step-Onward tm (begun producer id_time start) = begin_transaction-Onward producer id_time start tm
Step-Onward tm (added id topic partition payload) = add_message-Onward id topic partition payload tm
Step-Onward tm (prepared_by id now) = prepare-Onward id now tm
Step-Onward tm (committed_by id now) = commit-Onward id now tm
Step-Onward tm (rolled_back_by id now) = rollback-Onward id now tm
Step-Onward tm (cleaned now) = cleanup_expired-Onward now tm

-- Along every run, no transaction object is lost, the state of one that is committed or rolled back
-- is final, and the messages of one that is no longer pending stay as they are.
pub Reach-Onward : (tm after : TransactionManager) → Reach tm after → Onward tm after
Reach-Onward tm after here = Onward-refl tm
Reach-Onward tm after (next {a} run step) =
    Onward-trans tm a after (Reach-Onward tm a run) (Step-Onward a step)

Step-IsValid :
    (tm : TransactionManager) {after : TransactionManager}
    → Step tm after
    → IsValid tm
    → IsValid after
Step-IsValid tm (begun producer id_time start) = begin_transaction-IsValid producer id_time start tm
Step-IsValid tm (added id topic partition payload) =
    add_message-IsValid id topic partition payload tm
Step-IsValid tm (prepared_by id now) = prepare-IsValid id now tm
Step-IsValid tm (committed_by id now) = commit-IsValid id now tm
Step-IsValid tm (rolled_back_by id now) = rollback-IsValid id now tm
Step-IsValid tm (cleaned now) = cleanup_expired-IsValid now tm

-- In every run of a manager that starts in a valid state: identifiers are distinct, references lead
-- to objects of the manager, there are at most as many transactions as the limit says (or one), and
-- no transaction is prepared or committed without messages.
pub Reach-IsValid : (tm after : TransactionManager) → Reach tm after → IsValid tm → IsValid after
Reach-IsValid tm after here valid = valid
Reach-IsValid tm after (next {a} run step) valid =
    Step-IsValid a step (Reach-IsValid tm a run valid)

-- A commit that succeeds leaves the object in its final state.
commit-Committed :
    (id : String) (ref now : ℕ) (msgs : List TransactionMessage) (tm : TransactionManager)
    → lookup id tm.transactions ≡ some ref
    → (commit id now tm).0 ≡ ok msgs
    → (((commit id now tm).1.store ref).state ≡ committed)
      × (tm.next_ref ≡ (commit id now tm).1.next_ref)
unfolding commit set
commit-Committed id ref now msgs tm found done = ground arith

commit-Ready :
    (id : String) (ref now : ℕ) (msgs : List TransactionMessage) (tm : TransactionManager)
    → lookup id tm.transactions ≡ some ref
    → (commit id now tm).0 ≡ ok msgs
    → ((tm.store ref).state ≡ prepared) × ((tm.store ref).messages ≡ msgs)
unfolding commit
commit-Ready id ref now msgs tm found done = ground arith

commit-found :
    (id : String) (now : ℕ) (msgs : List TransactionMessage) (tm : TransactionManager)
    → lookup id tm.transactions ≡ none
    → (commit id now tm).0 ≢ ok msgs
unfolding commit
commit-found id now msgs tm missing done = ground arith

refused_when_committed :
    (id : String) (ref now : ℕ) (tm : TransactionManager)
    → lookup id tm.transactions ≡ some ref
    → (tm.store ref).state ≡ committed
    → commit id now tm ≡ (bad_state committed, tm)
unfolding commit
refused_when_committed id ref now tm found final = ground arith

reference-lt :
    (id : String) (ref : ℕ) (tm : TransactionManager)
    → IsValid tm
    → lookup id tm.transactions ≡ some ref
    → ref < tm.next_ref
reference-lt id ref tm (_, refs, _, _) found =
    All-lookup (λ r. r < tm.next_ref) tm.transactions id ref refs found

-- After Commit on a valid manager has handed out the messages of a transaction, and after any run from there, a Commit
-- under any identifier that leads to the same object is refused, with nothing changed.
pub commit_once :
    (id again : String) (ref t u : ℕ) (msgs : List TransactionMessage)
    (tm after : TransactionManager)
    → IsValid tm
    → lookup id tm.transactions ≡ some ref
    → (commit id t tm).0 ≡ ok msgs
    → Reach (commit id t tm).1 after
    → lookup again after.transactions ≡ some ref
    → commit again u after ≡ (bad_state committed, after)
commit_once id again ref t u msgs tm after valid found done run found' =
    let (final, same) = commit-Committed id ref t msgs tm found done in
    let (_, grows) = Reach-Onward (commit id t tm).1 after run in
    let (_, stays, _) =
      grows ref (subst (λ n. ref < n) same (reference-lt id ref tm valid found)) in
    refused_when_committed again ref u after found' (stays (rw final refl) ∙ final)

-- Where Commit on a valid manager succeeds, the identifier led to a prepared transaction, the
-- messages that it hands out are those of the transaction, of which there is at least one, and the
-- transaction is committed.
pub commit_lem :
    (id : String) (now : ℕ) (msgs : List TransactionMessage) (tm : TransactionManager)
    → IsValid tm
    → (commit id now tm).0 ≡ ok msgs
    → (ref : ℕ) × (lookup id tm.transactions ≡ some ref)
      × ((tm.store ref).state ≡ prepared)
      × ((tm.store ref).messages ≡ msgs)
      × (0 < length msgs)
      × (((commit id now tm).1.store ref).state ≡ committed)
commit_lem id now msgs tm valid done = elim (Option-cases (lookup id tm.transactions)) [
  | inl missing ↦ absurd (commit-found id now msgs tm missing done)
  | inr (ref, found) ↦
      let (ready, same) = commit-Ready id ref now msgs tm found done in
      let (_, _, _, filled) = valid in
      (
        ref,
        found,
        ready,
        same,
        subst (λ ms. 0 < length ms) same
            (filled ref (reference-lt id ref tm valid found) (rw ready refl)),
        (commit-Committed id ref now msgs tm found done).0,
      )
]

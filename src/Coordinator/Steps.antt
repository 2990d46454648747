-- ===== src/Coordinator/Steps.antt =====
-- The runs of the transaction coordinator of cluster/go/nameserver/tc.go: its critical sections in
-- any order, those of several CommitTx calls mixed with one another and with the other methods.
use distributed_mq.Prelude.{ltb, if-elim, ℕ, ◌-◌, String, ◌≡◌, refl, Bool, ◌&&◌, List, [], ◌∷◌}
use distributed_mq.Prelude.{nat_eq, string_eq}
use distributed_mq.Prelude.Map.{values}
use distributed_mq.Coordinator.{
  tx_aborted, TxMessage, Store, Write, complete, TransactionCoordinator, is_pending,
  new_transaction_coordinator, new_tx, BeginClock, tx_id_of, begin_tx, add_message, with_status,
  begin_commit, finish_commit, rollback_tx, time_out, time_out_all, check_timeouts,
}
use distributed_mq.Coordinator.Valid.{
  IsDurable, write-IsDurable, put-IsValid, found-elim, guarded-elim,
}
use distributed_mq.Coordinator.Load.{view, restart-view}

-- One critical section, whose writes of the file all come to `w`.
pub data Step (w : Write) (tc : TransactionCoordinator) : TransactionCoordinator → Type 0 where
  begun : (producer : String) (clock : BeginClock) → Step w tc (begin_tx w producer clock tc).1
  added : (id : String) (msg : TxMessage) (now : ℕ) → Step w tc (add_message w id msg now tc).1
  commit_begun : (id : String) (now : ℕ) → Step w tc (begin_commit w id now tc).1
  commit_finished :
      (ref : ℕ) (success : Bool) (now : ℕ) → Step w tc (finish_commit w ref success now tc)
  rolled_back : (id : String) (now : ℕ) → Step w tc (rollback_tx w id now tc).1
  timed_out : (now : ℕ) → Step w tc (check_timeouts (λ _. w) now tc)

pub data Reach (w : Write) (tc : TransactionCoordinator) : TransactionCoordinator → Type 0 where
  here : Reach w tc tc
  next : {a b : TransactionCoordinator} → Reach w tc a → Step w a b → Reach w tc b

time_out_all-IsDurable :
    (now : ℕ) (refs : List ℕ) (tc : TransactionCoordinator)
    → IsDurable tc
    → IsDurable (time_out_all (λ _. complete) now refs tc)
unfolding time_out_all
time_out_all-IsDurable now [] tc h = h
time_out_all-IsDurable now (ref ∷ refs) tc h =
    time_out_all-IsDurable now refs (time_out complete now ref tc) (
      if-elim IsDurable
        (is_pending (tc.store ref).status && ltb tc.timeout (now - (tc.store ref).created_at)) _ tc
        (λ _. write-IsDurable ref (with_status tx_aborted now (tc.store ref)) tc refl h.0) (λ _. h))

Step-IsDurable :
    (tc : TransactionCoordinator) {after : TransactionCoordinator}
    → Step complete tc after
    → IsDurable tc
    → IsDurable after
unfolding begin_tx add_message begin_commit finish_commit rollback_tx check_timeouts
Step-IsDurable tc (begun producer clock) h = (
  put-IsValid (new_tx (tx_id_of producer clock) producer clock.created clock.updated) tc h.0,
  refl,
)
Step-IsDurable tc (added id msg now) h = found-elim IsDurable id tc _ h (λ ref.
    guarded-elim IsDurable (is_pending (tc.store ref).status) _ _ _ tc
      (write-IsDurable ref _ tc refl h.0) h)
Step-IsDurable tc (commit_begun id now) h = found-elim IsDurable id tc _ h (λ ref.
    guarded-elim IsDurable (is_pending (tc.store ref).status) _ _ _ tc
      (write-IsDurable ref _ tc refl h.0) h)
Step-IsDurable tc (commit_finished ref success now) h = write-IsDurable ref _ tc refl h.0
Step-IsDurable tc (rolled_back id now) h =
    found-elim IsDurable id tc _ h (λ ref. write-IsDurable ref _ tc refl h.0)
Step-IsDurable tc (timed_out now) h = time_out_all-IsDurable now (values tc.transactions) tc h

pub Reach-IsDurable :
    (tc after : TransactionCoordinator) → Reach complete tc after → IsDurable tc → IsDurable after
Reach-IsDurable tc after here h = h
Reach-IsDurable tc after (next {a} run step) h = Step-IsDurable a step (Reach-IsDurable tc a run h)

-- If every write of the file is complete, then after any run of a coordinator whose file is up to
-- date, one that starts on the file knows the same transactions, in the same states.
pub Reach-restart :
    (tc after : TransactionCoordinator) (store : Store) (id : String)
    → Reach complete tc after
    → IsDurable tc
    → view id (new_transaction_coordinator store after.log_file) ≡ view id after
Reach-restart tc after store id run h = restart-view store after id (Reach-IsDurable tc after run h)

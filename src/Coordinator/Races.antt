-- ===== src/Coordinator/Races.antt =====
-- CommitTx of cluster/go/nameserver/tc.go against the other methods.
use mathlib.Core.Path.{subst}
use distributed_mq.Prelude.{
  ltb, nat_beq_iff, if-elim, ◌==◌, ℕ, ◌-◌, ◌≤◌, ◌<◌, String, ◌≡◌, refl, sym, ◌≢◌, true, false, ◌&&◌,
  some, List, [], ◌∷◌, arith,
}
use distributed_mq.Prelude.{nat_eq, string_eq}
use distributed_mq.Prelude.Map.{values, lookup, has_key, All-lookup_key}
use distributed_mq.Coordinator.{
  TxStatus, tx_pending, tx_committing, tx_committed, tx_aborted, TxState, Write,
  TransactionCoordinator, tx_ok, is_pending, persist_tx, set, write, new_tx, BeginClock, tx_id_of,
  begin_tx, add_message, with_status, begin_commit, finish_commit, commit_tx, rollback_tx,
  get_tx_status, time_out, time_out_all, check_timeouts,
}
use distributed_mq.Coordinator.Steps.{
  Step, begun, added, commit_begun, commit_finished, rolled_back, timed_out, Reach, here, next,
}
use distributed_mq.Coordinator.Valid.{Keyed, IsValid, found-elim, guarded-elim}

-- An object never becomes pending again.
abbrev Later : TxState → TxState → Type 0
Later t u = is_pending t.status ≡ false → is_pending u.status ≡ false

abbrev Onward : TransactionCoordinator → TransactionCoordinator → Type 0
Onward a b = (a.next_ref ≤ b.next_ref) × ((r : ℕ) → r < a.next_ref → Later (a.store r) (b.store r))

Onward-refl : (a : TransactionCoordinator) → Onward a a
Onward-refl a = (omega arith, λ r _ h. h)

Onward-trans : (a b c : TransactionCoordinator) → Onward a b → Onward b c → Onward a c
Onward-trans a b c (p, f) (q, g) = (omega arith, λ r h old. g r (omega arith) (f r h old))

write-Onward :
    (w : Write) (ref : ℕ) (tx : TxState) (tc : TransactionCoordinator)
    → Later (tc.store ref) tx
    → Onward tc (write w ref tx tc)
unfolding write set persist_tx
write-Onward w ref tx tc h = (
  omega arith,
  λ r _.
      if-elim (Later (tc.store r)) (r == ref) tx (tc.store r)
        (λ same. subst (λ x. Later (tc.store x) tx) (sym ((nat_beq_iff r ref).0 same)) h)
        (λ _ old. old),
)

begin_tx-Onward :
    (w : Write) (producer : String) (clock : BeginClock) (tc : TransactionCoordinator)
    → Onward tc (begin_tx w producer clock tc).1
unfolding begin_tx set persist_tx
begin_tx-Onward w producer clock tc = (
  omega arith,
  λ r below.
      if-elim (Later (tc.store r)) (r == tc.next_ref)
        (new_tx (tx_id_of producer clock) producer clock.created clock.updated) (tc.store r)
        (λ same. absurd (omega (arith, (nat_beq_iff r tc.next_ref).0 same))) (λ _ old. old),
)

time_out_all-Onward :
    (w : Write) (now : ℕ) (refs : List ℕ) (tc : TransactionCoordinator)
    → Onward tc (time_out_all (λ _. w) now refs tc)
unfolding time_out_all
time_out_all-Onward w now [] tc = Onward-refl tc
time_out_all-Onward w now (ref ∷ refs) tc =
    Onward-trans tc (time_out w now ref tc) (time_out_all (λ _. w) now refs (time_out w now ref tc))
      (if-elim (Onward tc)
        (is_pending (tc.store ref).status && ltb tc.timeout (now - (tc.store ref).created_at)) _ tc
        (λ _. write-Onward w ref (with_status tx_aborted now (tc.store ref)) tc (λ _. refl))
        (λ _. Onward-refl tc))
      (time_out_all-Onward w now refs (time_out w now ref tc))

Step-Onward :
    (w : Write) (tc : TransactionCoordinator) {after : TransactionCoordinator}
    → Step w tc after
    → Onward tc after
unfolding add_message begin_commit finish_commit rollback_tx check_timeouts
Step-Onward w tc (begun producer clock) = begin_tx-Onward w producer clock tc
Step-Onward w tc (added id msg now) = found-elim (Onward tc) id tc _ (Onward-refl tc) (λ ref.
    guarded-elim (Onward tc) (is_pending (tc.store ref).status) _ _ _ tc
      (write-Onward w ref _ tc (λ old. old)) (Onward-refl tc))
Step-Onward w tc (commit_begun id now) = found-elim (Onward tc) id tc _ (Onward-refl tc) (λ ref.
    guarded-elim (Onward tc) (is_pending (tc.store ref).status) _ _ _ tc
      (write-Onward w ref _ tc (λ _. refl)) (Onward-refl tc))
Step-Onward w tc (commit_finished ref success now) = write-Onward w ref _ tc (λ _.
    if-elim (λ s. is_pending s ≡ false) success tx_committed tx_aborted (λ _. refl) (λ _. refl))
Step-Onward w tc (rolled_back id now) =
    found-elim (Onward tc) id tc _ (Onward-refl tc) (λ ref. write-Onward w ref _ tc (λ _. refl))
Step-Onward w tc (timed_out now) = time_out_all-Onward w now (values tc.transactions) tc

Reach-Onward : (w : Write) (tc after : TransactionCoordinator) → Reach w tc after → Onward tc after
Reach-Onward w tc after here = Onward-refl tc
Reach-Onward w tc after (next {a} run step) =
    Onward-trans tc a after (Reach-Onward w tc a run) (Step-Onward w a step)

-- What the begin of a commit found and leaves.
begin_commit-Begun :
    (w : Write) (id : String) (ref now : ℕ) (tc : TransactionCoordinator)
    → (begin_commit w id now tc).0 ≡ tx_ok ref
    → (lookup id tc.transactions ≡ some ref)
      × ((tc.store ref).status ≡ tx_pending)
      × (((begin_commit w id now tc).1.store ref).status ≡ tx_committing)
      × ((begin_commit w id now tc).1.transactions ≡ tc.transactions)
      × ((begin_commit w id now tc).1.next_ref ≡ tc.next_ref)
unfolding begin_commit write set persist_tx
begin_commit-Begun w id ref now tc started = ground arith

not_begun :
    (w : Write) (id : String) (ref now : ℕ) (tc : TransactionCoordinator)
    → is_pending (tc.store ref).status ≡ false
    → (begin_commit w id now tc).0 ≢ tx_ok ref
not_begun w id ref now tc old started =
    let (_, was, _, _, _) = begin_commit-Begun w id ref now tc started in ground arith

-- Of all the CommitTx calls on a transaction, at most one passes the test of its status: after one
-- has, on a valid coordinator, and after any run, no other does.
pub begin_commit_once :
    (w : Write) (id again : String) (ref t u : ℕ) (tc after : TransactionCoordinator)
    → IsValid tc
    → (begin_commit w id t tc).0 ≡ tx_ok ref
    → Reach w (begin_commit w id t tc).1 after
    → (begin_commit w again u after).0 ≢ tx_ok ref
begin_commit_once w id again ref t u tc after valid started run =
    let (found, _, status, _, same) = begin_commit-Begun w id ref t tc started in
    let (below, _) =
      All-lookup_key (Keyed tc.next_ref tc.store) tc.transactions id ref valid.1 found in
    let (_, onward) = Reach-Onward w (begin_commit w id t tc).1 after run in
    not_begun w again ref u after (onward ref (omega arith) (rw status refl))

-- A CommitTx that no other call interrupts, of a transaction whose status is PENDING, returns no
-- error, and the status is COMMITTED, whatever becomes of the writes of the file.
pub commit_tx_lem :
    (first last : Write) (id : String) (t u : ℕ) (tc : TransactionCoordinator)
    → get_tx_status id tc ≡ tx_ok tx_pending
    → ((commit_tx first last id t u tc).0 ≡ tx_ok tt)
      × (get_tx_status id (commit_tx first last id t u tc).1 ≡ tx_ok tx_committed)
unfolding commit_tx get_tx_status write set persist_tx has_key
commit_tx_lem first last id t u tc pending = ground arith

-- RollbackTx looks at no status: where GetTxStatus answers at all, RollbackTx reports success and
-- the transaction is aborted, also if it was committed.
pub rollback_tx_lem :
    (w : Write) (id : String) (now : ℕ) (status : TxStatus) (tc : TransactionCoordinator)
    → get_tx_status id tc ≡ tx_ok status
    → ((rollback_tx w id now tc).0 ≡ tx_ok tt)
      × (get_tx_status id (rollback_tx w id now tc).1 ≡ tx_ok tx_aborted)
unfolding rollback_tx get_tx_status write set persist_tx
rollback_tx_lem w id now status tc answer = ground arith

-- A RollbackTx that comes between the parts of a CommitTx reports success, and the transaction is
-- committed all the same.
pub rollback_lost :
    (w : Write) (id : String) (ref t u v : ℕ) (tc : TransactionCoordinator)
    → (begin_commit w id t tc).0 ≡ tx_ok ref
    → ((rollback_tx w id u (begin_commit w id t tc).1).0 ≡ tx_ok tt)
      × (get_tx_status id
            (finish_commit w ref true v (rollback_tx w id u (begin_commit w id t tc).1).1)
          ≡ tx_ok tx_committed)
unfolding begin_commit rollback_tx finish_commit get_tx_status write set persist_tx
rollback_lost w id ref t u v tc started = ground arith

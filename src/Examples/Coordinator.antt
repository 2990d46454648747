-- ===== src/Examples/Coordinator.antt =====
-- A transaction of the coordinator (cluster/go/nameserver/tc.go).
use distributed_mq.Prelude.{◌≡◌, refl, ◌≢◌, true, some, []}
use distributed_mq.Prelude.{nat_eq, string_eq}
use distributed_mq.Prelude.Map.{lookup, insert}
use distributed_mq.Coordinator.{
  tx_pending, tx_committed, Store, complete, TransactionCoordinator, tx_ok,
  new_transaction_coordinator, new_tx, BeginClock, begin_tx, begin_commit, finish_commit, commit_tx,
  rollback_tx, get_tx_status,
}
use distributed_mq.Coordinator.Valid.{IsDurable}
use distributed_mq.Coordinator.Load.{view}
use distributed_mq.Coordinator.Steps.{
  begun, rolled_back, Reach, here, next, Reach-IsDurable, Reach-restart,
}
use distributed_mq.NameServer.{success}
use distributed_mq.NameServer.Transactions.{
  handle_commit_tx, handle_tx_status, handle_commit_tx_lem,
}
use distributed_mq.Coordinator.Races.{begin_commit_once, rollback_lost}

abbrev empty_store : Store
empty_store ref = new_tx "" "" 0 0

abbrev clock : BeginClock
clock = record { nanos = 12; rand = 3; created = 12; updated = 13 }

abbrev no_txs : TransactionCoordinator
no_txs = new_transaction_coordinator empty_store []

abbrev one_tx : TransactionCoordinator
one_tx = (begin_tx complete "p" clock no_txs).1

no_txs-IsDurable : IsDurable no_txs
unfolding new_transaction_coordinator
no_txs-IsDurable = ((tt, tt), refl)

one_tx_run : Reach complete no_txs one_tx
one_tx_run = next here (begun "p" clock)

one_tx-IsDurable : IsDurable one_tx
one_tx-IsDurable = Reach-IsDurable no_txs one_tx one_tx_run no_txs-IsDurable

Reach-restart_example :
    view "p-12-3" (new_transaction_coordinator empty_store one_tx.log_file) ≡ view "p-12-3" one_tx
Reach-restart_example = Reach-restart no_txs one_tx empty_store "p-12-3" one_tx_run no_txs-IsDurable

is_seen : view "p-12-3" one_tx ≡ some (new_tx "p-12-3" "p" 12 13)
unfolding view begin_tx new_transaction_coordinator lookup insert
is_seen = refl

one_tx_pending : get_tx_status "p-12-3" one_tx ≡ tx_ok tx_pending
unfolding get_tx_status begin_tx new_transaction_coordinator lookup insert
one_tx_pending = refl

one_tx_begins : (begin_commit complete "p-12-3" 20 one_tx).0 ≡ tx_ok 0
unfolding begin_commit begin_tx new_transaction_coordinator lookup insert
one_tx_begins = refl

abbrev after_commit : TransactionCoordinator
after_commit = (commit_tx complete complete "p-12-3" 20 21 one_tx).1

rollback_lost_example :
    ((rollback_tx complete "p-12-3" 21 (begin_commit complete "p-12-3" 20 one_tx).1).0 ≡ tx_ok tt)
    × (get_tx_status "p-12-3" (
          finish_commit complete 0 true 22
            (rollback_tx complete "p-12-3" 21 (begin_commit complete "p-12-3" 20 one_tx).1).1)
        ≡ tx_ok tx_committed)
rollback_lost_example = rollback_lost complete "p-12-3" 0 20 21 22 one_tx one_tx_begins

abbrev after_rollback : TransactionCoordinator
after_rollback = (rollback_tx complete "p-12-3" 21 (begin_commit complete "p-12-3" 20 one_tx).1).1

begin_commit_once_example : (begin_commit complete "p-12-3" 22 after_rollback).0 ≢ tx_ok 0
begin_commit_once_example =
    begin_commit_once complete "p-12-3" "p-12-3" 0 20 22 one_tx after_rollback one_tx-IsDurable.0
      one_tx_begins (next here (rolled_back "p-12-3" 21))

one_tx_known : handle_tx_status "p-12-3" one_tx ≡ success tx_pending
unfolding handle_tx_status get_tx_status begin_tx new_transaction_coordinator lookup insert
one_tx_known = refl

handle_commit_tx_lem_example :
    ((handle_commit_tx complete complete "p-12-3" 20 21 one_tx).0 ≡ success tx_committed)
    × (handle_tx_status "p-12-3" (handle_commit_tx complete complete "p-12-3" 20 21 one_tx).1
        ≡ success tx_committed)
handle_commit_tx_lem_example =
    handle_commit_tx_lem complete complete "p-12-3" 20 21 tx_pending one_tx one_tx_known

-- ===== src/Examples/Transaction.antt =====
-- A run of the transaction manager (cluster/go/broker/transaction/transaction.go) with room for one
-- transaction.
use distributed_mq.Prelude.{length, ◌≤◌, ◌<◌, ◌≡◌, refl, some, List, [], ◌∷◌, arith}
use distributed_mq.Prelude.{nat_eq, string_eq}
use distributed_mq.Prelude.Map.{lookup, insert, get_or}
use distributed_mq.Oldest.{Started}
use distributed_mq.Transaction.{
  committed, TransactionMessage, Store, TransactionManager, ok, bad_state, new_transaction_manager,
  start_of, make_room, new_transaction, begin_transaction, new_message, add_message, prepare,
  commit, get_producer_transactions,
}
use distributed_mq.Transaction.Objects.{Onward}
use distributed_mq.Transaction.Evict.{}
use distributed_mq.Transaction.Valid.{IsValid, new_transaction_manager-IsValid}
use distributed_mq.Transaction.Steps.{
  begun, added, prepared_by, Reach, here, next, Reach-Onward, Reach-IsValid, commit_once,
}

abbrev empty_store : Store
empty_store ref = new_transaction "" "" 0

abbrev no_txns : TransactionManager
no_txns = new_transaction_manager empty_store 1 1000

abbrev begun_txn : TransactionManager
begun_txn = (begin_transaction "p" 5 6 no_txns).1

abbrev prepared_txn : TransactionManager
prepared_txn = (prepare "p-5" 7 (add_message "p-5" "orders" 0 (1 ∷ 2 ∷ []) begun_txn).1).1

abbrev one_message : List TransactionMessage
one_message = new_message "orders" 0 (1 ∷ 2 ∷ []) ∷ []

prepared_run : Reach no_txns prepared_txn
prepared_run =
    next (next (next here (begun "p" 5 6)) (added "p-5" "orders" 0 (1 ∷ 2 ∷ [])))
      (prepared_by "p-5" 7)

commit_works : (commit "p-5" 8 prepared_txn).0 ≡ ok one_message
unfolding commit prepare add_message begin_transaction lookup insert
commit_works = refl

prepared_found : lookup "p-5" prepared_txn.transactions ≡ some 0
unfolding commit prepare add_message begin_transaction lookup insert
prepared_found = refl

still_found : lookup "p-5" (commit "p-5" 8 prepared_txn).1.transactions ≡ some 0
unfolding commit prepare add_message begin_transaction lookup insert
still_found = refl

no_txns-IsValid : IsValid no_txns
no_txns-IsValid = new_transaction_manager-IsValid empty_store 1 1000

Reach-IsValid_example : IsValid prepared_txn
Reach-IsValid_example = Reach-IsValid no_txns prepared_txn prepared_run no_txns-IsValid

prepared-IsValid : IsValid prepared_txn
prepared-IsValid = Reach-IsValid no_txns prepared_txn prepared_run no_txns-IsValid

commit_once_example :
    commit "p-5" 9 (commit "p-5" 8 prepared_txn).1
    ≡ (bad_state committed, (commit "p-5" 8 prepared_txn).1)
commit_once_example =
    commit_once "p-5" "p-5" 0 8 9 one_message prepared_txn (commit "p-5" 8 prepared_txn).1
      prepared-IsValid prepared_found commit_works here still_found

Reach-Onward_example : Onward no_txns prepared_txn
Reach-Onward_example = Reach-Onward no_txns prepared_txn prepared_run

started : Started (start_of prepared_txn) prepared_txn.transactions
unfolding prepare add_message begin_transaction lookup insert
started = (omega arith, tt)

full : prepared_txn.max_transactions ≤ length prepared_txn.transactions
unfolding prepare add_message begin_transaction lookup insert
full = omega arith

occupied : 0 < length prepared_txn.transactions
unfolding prepare add_message begin_transaction lookup insert
occupied = omega arith

-- The producer still sees it as active, though Commit says that it is not found.
evicted_still_listed : get_producer_transactions "p" (make_room prepared_txn) ≡ some (0 ∷ [])
unfolding get_producer_transactions make_room prepare add_message begin_transaction lookup insert
    get_or
evicted_still_listed = refl

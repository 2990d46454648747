-- ===== src/Transaction/Evict.antt =====
-- Which transaction BeginTransaction of cluster/go/broker/transaction/transaction.go evicts from a
-- full manager.
use distributed_mq.Prelude.{
  leb, if-elim, str_iff, length, ℕ, suc, ◌≤◌, ◌<◌, String, ◌≡◌, refl, none, some, arith,
}
use distributed_mq.Prelude.{nat_eq, string_eq}
use distributed_mq.Prelude.Map.{lookup, lookup-delete, NoDup}
use distributed_mq.Oldest.{scan_oldest, Started, NoneOlder, scan_oldest-Oldest, delete-oldest}
use distributed_mq.Transaction.{
  TransactionManager, not_found, start_of, make_room, commit, get_producer_transactions,
}

-- The identifier that BeginTransaction evicts from a full manager.
abbrev pub evicted : TransactionManager → String
evicted tm = (scan_oldest (start_of tm) tm.transactions ("", 0)).0

make_room-length :
    (tm : TransactionManager)
    → tm.max_transactions ≤ length tm.transactions
    → 0 < length tm.transactions
    → suc (length (make_room tm).transactions) ≤ length tm.transactions
unfolding make_room
make_room-length tm full filled =
    if-elim (λ (x : TransactionManager). suc (length x.transactions) ≤ length tm.transactions)
      (leb tm.max_transactions (length tm.transactions)) _ tm
      (λ _. delete-oldest (start_of tm) tm.transactions filled) (λ room. absurd (ground arith))

make_room-evicted :
    (tm : TransactionManager)
    → tm.max_transactions ≤ length tm.transactions
    → lookup (evicted tm) (make_room tm).transactions ≡ none
unfolding make_room
make_room-evicted tm full =
    if-elim (λ (x : TransactionManager). lookup (evicted tm) x.transactions ≡ none)
      (leb tm.max_transactions (length tm.transactions)) _ tm
      (λ _. ground (
        arith,
        lookup-delete (evicted tm) (evicted tm) tm.transactions,
        str_iff (evicted tm) (evicted tm),
      ))
      (λ room. absurd (ground arith))

commit_missing :
    (id : String) (now : ℕ) (tm : TransactionManager)
    → lookup id tm.transactions ≡ none
    → commit id now tm ≡ (not_found, tm)
unfolding commit
commit_missing id now tm missing = cc

make_room-listed :
    (producer : String) (tm : TransactionManager)
    → get_producer_transactions producer (make_room tm) ≡ get_producer_transactions producer tm
unfolding make_room get_producer_transactions
make_room-listed producer tm =
    if-elim
      (λ (x : TransactionManager).
        get_producer_transactions producer x ≡ get_producer_transactions producer tm)
      (leb tm.max_transactions (length tm.transactions)) _ tm (λ _. refl) (λ _. refl)

-- A manager that is full and not empty, whose transactions have distinct identifiers and started
-- after the zero time, evicts a transaction that started first, whatever its state; afterwards it
-- has one transaction less, a Commit of the evicted identifier is refused as not found, and
-- GetProducerTransactions answers as before.
pub evict_oldest :
    (tm : TransactionManager)
    → NoDup tm.transactions
    → Started (start_of tm) tm.transactions
    → tm.max_transactions ≤ length tm.transactions
    → 0 < length tm.transactions
    → ((ref : ℕ) × (lookup (evicted tm) tm.transactions ≡ some ref)
        × NoneOlder (start_of tm) (start_of tm ref) tm.transactions)
      × (suc (length (make_room tm).transactions) ≤ length tm.transactions)
      × ((now : ℕ) → commit (evicted tm) now (make_room tm) ≡ (not_found, make_room tm))
      × ((producer : String)
          → get_producer_transactions producer (make_room tm)
            ≡ get_producer_transactions producer tm)
evict_oldest tm distinct started full filled = (
  scan_oldest-Oldest (start_of tm) tm.transactions distinct started filled,
  make_room-length tm full filled,
  λ now. commit_missing (evicted tm) now (make_room tm) (make_room-evicted tm full),
  λ producer. make_room-listed producer tm,
)

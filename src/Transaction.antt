-- ===== src/Transaction.antt =====
-- The transaction manager of a broker, cluster/go/broker/transaction/transaction.go. Each method
-- holds the mutex from its start to its end, so that it is one step. The transactions are objects
-- that both maps of the manager point to: they stand in a store, and the maps hold references.
-- A time is a number of nanoseconds, and 0 is the zero time.
pub mod Objects
pub mod Evict
pub mod Valid
pub mod Steps
use distributed_mq.Prelude.{
  ltb, leb, if◌then◌else◌, ◌==◌, length, ℕ, ◌+◌, ◌-◌, String, Bool, true, false, ◌&&◌, ◌||◌, not,
  Option, none, some, List, [], ◌∷◌, ◌++◌,
}
use distributed_mq.Prelude.{nat_eq, string_eq}
use distributed_mq.Prelude.Map.{Map, values, lookup, insert, delete, get_or}
use distributed_mq.Oldest.{scan_oldest}
use distributed_mq.Prelude.Text.{dashed}

pub data TransactionState : Type 0 where
  pending prepared committed rolled_back unknown : TransactionState

pub record TransactionMessage : Type 0 where
  pub topic : String
  pub partition : ℕ
  pub payload : List ℕ
  pub offset : ℕ

pub record Transaction : Type 0 where
  pub id : String
  pub state : TransactionState
  pub messages : List TransactionMessage
  pub producer_id : String
  pub start_time : ℕ
  pub prepare_time : ℕ
  pub commit_time : ℕ
  pub rollback_time : ℕ

abbrev pub Store : Type 0
Store = ℕ → Transaction

pub record TransactionManager : Type 0 where
  pub store : Store
  pub next_ref : ℕ
  pub transactions : Map String ℕ
  pub pending_txns : Map String (List ℕ)
  pub max_transactions : ℕ
  pub expire_after : ℕ

pub data Result {ℓ} (A : Type ℓ) : Type ℓ where
  ok : A → Result A
  not_found : Result A
  bad_state : TransactionState → Result A
  no_messages : Result A

abbrev pub Method {ℓ} : Type ℓ → Type ℓ
Method A = TransactionManager → Result A × TransactionManager

-- writing through a pointer
unfoldable pub set : ℕ → Transaction → Store → Store
set ref txn store r = if r == ref then txn else store r

abbrev pub is_pending : TransactionState → Bool
is_pending pending = true
is_pending _ = false

abbrev pub is_prepared : TransactionState → Bool
is_prepared prepared = true
is_prepared _ = false

-- `state == TransactionPending || state == TransactionPrepared`
abbrev pub is_active : TransactionState → Bool
is_active s = is_pending s || is_prepared s

-- NewTransactionManager, over any contents of the memory not yet allocated
abbrev pub new_transaction_manager : Store → ℕ → ℕ → TransactionManager
new_transaction_manager store max expire = record {
  store = store;
  next_ref = 0;
  transactions = [];
  pending_txns = [];
  max_transactions = max;
  expire_after = expire;
}

abbrev pub roll_back_at : ℕ → Transaction → Transaction
roll_back_at now txn = record txn { state = rolled_back; rollback_time = now }

-- the loop of cleanupExpired
unfoldable pub expire_all : ℕ → ℕ → Map String ℕ → Store → Store
unfolding set
expire_all now expire_after [] store = store
expire_all now expire_after ((id, ref) ∷ m) store = expire_all now expire_after m (
    if ltb expire_after (now - (store ref).start_time) && is_active (store ref).state
    then set ref (roll_back_at now (store ref)) store
    else store)

-- one tick of cleanupExpired
unfoldable pub cleanup_expired : ℕ → TransactionManager → TransactionManager
unfolding expire_all
cleanup_expired now tm = record tm {
  store = expire_all now tm.expire_after tm.transactions tm.store;
}

abbrev pub start_of : TransactionManager → ℕ → ℕ
start_of tm ref = (tm.store ref).start_time

unfoldable pub make_room : TransactionManager → TransactionManager
make_room tm =
    if leb tm.max_transactions (length tm.transactions)
    then record tm {
      transactions = delete (scan_oldest (start_of tm) tm.transactions ("", 0)).0 tm.transactions;
    }
    else tm

abbrev pub new_transaction : String → String → ℕ → Transaction
new_transaction id producer start = record {
  id = id;
  state = pending;
  messages = [];
  producer_id = producer;
  start_time = start;
  prepare_time = 0;
  commit_time = 0;
  rollback_time = 0;
}

-- both maps get the new object
unfoldable pub add_transaction : String → String → ℕ → TransactionManager → TransactionManager
unfolding set
add_transaction id producer start tm = record tm {
  store = set tm.next_ref (new_transaction id producer start) tm.store;
  next_ref = tm.next_ref + 1;
  transactions = insert id tm.next_ref tm.transactions;
  pending_txns =
      insert producer (get_or producer [] tm.pending_txns ++ tm.next_ref ∷ []) tm.pending_txns;
}

-- BeginTransaction, which reads the clock twice: for the identifier and for the start time
unfoldable pub begin_transaction :
    String → (id_time start_time : ℕ) → TransactionManager → String × TransactionManager
unfolding make_room add_transaction dashed
begin_transaction producer id_time start_time tm = (
  dashed producer id_time,
  add_transaction (dashed producer id_time) producer start_time (make_room tm),
)

abbrev pub write : ℕ → Transaction → TransactionManager → TransactionManager
write ref txn tm = record tm { store = set ref txn tm.store }

abbrev pub with_message : TransactionMessage → Transaction → Transaction
with_message msg txn = record txn { messages = txn.messages ++ msg ∷ [] }

abbrev pub new_message : String → ℕ → List ℕ → TransactionMessage
new_message topic partition payload = record {
  topic = topic;
  partition = partition;
  payload = payload;
  offset = 0;
}

-- AddMessage
unfoldable pub add_message : String → String → ℕ → List ℕ → Method (Unit {0})
unfolding set
add_message id topic partition payload tm = elim (lookup id tm.transactions) [
  | none ↦ (not_found, tm)
  | some ref ↦
      if is_pending (tm.store ref).state
      then (ok tt, write ref (with_message (new_message topic partition payload) (tm.store ref)) tm)
      else (bad_state (tm.store ref).state, tm)
]

abbrev pub prepare_at : ℕ → Transaction → Transaction
prepare_at now txn = record txn { state = prepared; prepare_time = now }

-- Prepare
unfoldable pub prepare : String → ℕ → Method (Unit {0})
unfolding set
prepare id now tm = elim (lookup id tm.transactions) [
  | none ↦ (not_found, tm)
  | some ref ↦
      if not (is_pending (tm.store ref).state)
      then (bad_state (tm.store ref).state, tm)
      else if leb (length (tm.store ref).messages) 0
      then (no_messages, tm)
      else (ok tt, write ref (prepare_at now (tm.store ref)) tm)
]

abbrev pub commit_at : ℕ → Transaction → Transaction
commit_at now txn = record txn { state = committed; commit_time = now }

-- Commit
unfoldable pub commit : String → ℕ → Method (List TransactionMessage)
unfolding set
commit id now tm = elim (lookup id tm.transactions) [
  | none ↦ (not_found, tm)
  | some ref ↦
      if is_prepared (tm.store ref).state
      then (ok (tm.store ref).messages, write ref (commit_at now (tm.store ref)) tm)
      else (bad_state (tm.store ref).state, tm)
]

-- Rollback
unfoldable pub rollback : String → ℕ → Method (Unit {0})
unfolding set
rollback id now tm = elim (lookup id tm.transactions) [
  | none ↦ (not_found, tm)
  | some ref ↦
      if is_active (tm.store ref).state
      then (ok tt, write ref (roll_back_at now (tm.store ref)) tm)
      else (bad_state (tm.store ref).state, tm)
]

-- GetTransaction, the reference and what it points to
unfoldable pub get_transaction : String → TransactionManager → Option Transaction
get_transaction id tm = elim (lookup id tm.transactions) [
  | none ↦ none
  | some ref ↦ some (tm.store ref)
]

unfoldable pub active_of : Store → List ℕ → List ℕ
active_of store [] = []
active_of store (ref ∷ refs) =
    let rest = active_of store refs in if is_active (store ref).state then ref ∷ rest else rest

-- GetProducerTransactions
unfoldable pub get_producer_transactions : String → TransactionManager → Option (List ℕ)
unfolding active_of
get_producer_transactions producer tm = elim (lookup producer tm.pending_txns) [
  | none ↦ none
  | some refs ↦ some (active_of tm.store refs)
]

-- GetActiveTransactions
unfoldable pub get_active_transactions : TransactionManager → ℕ
unfolding active_of
get_active_transactions tm = length (active_of tm.store (values tm.transactions))

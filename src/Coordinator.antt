-- ===== src/Coordinator.antt =====
-- The transaction coordinator of the name server, cluster/go/nameserver/tc.go. Its transactions are
-- objects that the map points to and that CommitTx goes on to write after it has released the
-- mutex: they stand in a store. CommitTx is three critical sections. The file is the list of the
-- transactions that its one encoder has written whole; a decoder gives them back in this order.
pub mod Valid
pub mod Load
pub mod Steps
pub mod Races
use distributed_mq.Prelude.{
  ltb, if◌then◌else◌, ◌==◌, take, ℕ, ◌+◌, ◌-◌, ◌*◌, String, Bool, true, false, ◌&&◌, none, some,
  List, [], ◌∷◌, ◌++◌,
}
use distributed_mq.Prelude.{nat_eq, string_eq}
use distributed_mq.Prelude.Map.{Map, values, lookup, insert, has_key}
use distributed_mq.Prelude.Text.{dashed}

pub data TxStatus : Type 0 where
  tx_pending tx_committing tx_committed tx_aborted : TxStatus

pub record TxMessage : Type 0 where
  pub topic : String
  pub partition : ℕ
  pub key : String
  pub value : List ℕ

pub record TxState : Type 0 where
  pub tx_id : String
  pub status : TxStatus
  pub producer_id : String
  pub partition_info : List TxMessage
  pub created_at : ℕ
  pub updated_at : ℕ

abbrev pub Store : Type 0
Store = ℕ → TxState

-- What a write of the log file comes to: OpenFile fails, or the given number of transactions are
-- written whole before Write fails, or all of them.
pub data Write : Type 0 where
  not_opened : Write
  cut_after : ℕ → Write
  complete : Write

pub record TransactionCoordinator : Type 0 where
  pub store : Store
  pub next_ref : ℕ
  pub transactions : Map String ℕ
  pub timeout : ℕ
  pub log_file : List TxState

pub data TxResult {ℓ} (A : Type ℓ) : Type ℓ where
  tx_ok : A → TxResult A
  tx_not_found : TxResult A
  tx_bad_status : TxStatus → TxResult A

abbrev pub Method {ℓ} : Type ℓ → Type ℓ
Method A = TransactionCoordinator → TxResult A × TransactionCoordinator

abbrev pub is_pending : TxStatus → Bool
is_pending tx_pending = true
is_pending _ = false

-- what the pointers of a map lead to
abbrev pub objects : Store → Map String ℕ → List TxState
objects store [] = []
objects store ((id, ref) ∷ m) = store ref ∷ objects store m

abbrev pub written : Write → List TxState → List TxState → List TxState
written not_opened old txs = old
written (cut_after n) old txs = take n txs
written complete old txs = txs

-- persistTx: the whole map is written anew, and no caller reads the error
unfoldable pub persist_tx : Write → TransactionCoordinator → TransactionCoordinator
persist_tx w tc = record tc { log_file = written w tc.log_file (objects tc.store tc.transactions) }

-- writing through a pointer
unfoldable pub set : ℕ → TxState → Store → Store
set ref tx store r = if r == ref then tx else store r

-- a write through a pointer, and `tc.persistTx(tx)`
unfoldable pub write : Write → ℕ → TxState → TransactionCoordinator → TransactionCoordinator
unfolding set persist_tx
write w ref tx tc = persist_tx w (record tc { store = set ref tx tc.store })

abbrev pub put : String → TxState → TransactionCoordinator → TransactionCoordinator
put id tx tc = record tc {
  store = set tc.next_ref tx tc.store;
  next_ref = tc.next_ref + 1;
  transactions = insert id tc.next_ref tc.transactions;
}

-- the loop of loadTxLog
unfoldable pub load_all : List TxState → TransactionCoordinator → TransactionCoordinator
unfolding set
load_all [] tc = tc
load_all (tx ∷ txs) tc = load_all txs (put tx.tx_id tx tc)

abbrev pub blank : Store → List TxState → TransactionCoordinator
blank store file = record {
  store = store;
  next_ref = 0;
  transactions = [];
  timeout = 30 * 1000000000;
  log_file = file;
}

-- NewTransactionCoordinator on the given file, with loadTxLog
unfoldable pub new_transaction_coordinator : Store → List TxState → TransactionCoordinator
unfolding load_all
new_transaction_coordinator store file = load_all file (blank store file)

abbrev pub new_tx : String → String → (created updated : ℕ) → TxState
new_tx id producer created updated = record {
  tx_id = id;
  status = tx_pending;
  producer_id = producer;
  partition_info = [];
  created_at = created;
  updated_at = updated;
}

-- the times that BeginTx reads, and randInt
pub record BeginClock : Type 0 where
  pub nanos : ℕ
  pub rand : ℕ
  pub created : ℕ
  pub updated : ℕ

abbrev pub tx_id_of : String → BeginClock → String
tx_id_of producer clock = dashed (dashed producer clock.nanos) clock.rand

-- BeginTx
unfoldable pub begin_tx :
    Write → String → BeginClock → TransactionCoordinator → String × TransactionCoordinator
unfolding set persist_tx dashed
begin_tx w producer clock tc =
    let id = tx_id_of producer clock in
    (id, persist_tx w (put id (new_tx id producer clock.created clock.updated) tc))

abbrev pub with_message : ℕ → TxMessage → TxState → TxState
with_message now msg tx = record tx {
  partition_info = tx.partition_info ++ msg ∷ [];
  updated_at = now;
}

-- AddMessage
unfoldable pub add_message : Write → String → TxMessage → ℕ → Method (Unit {0})
unfolding write
add_message w id msg now tc = elim (lookup id tc.transactions) [
  | none ↦ (tx_not_found, tc)
  | some ref ↦
      if is_pending (tc.store ref).status
      then (tx_ok tt, write w ref (with_message now msg (tc.store ref)) tc)
      else (tx_bad_status (tc.store ref).status, tc)
]

abbrev pub with_status : TxStatus → ℕ → TxState → TxState
with_status status now tx = record tx { status = status; updated_at = now }

-- CommitTx up to the first Unlock: the pointer that it keeps
unfoldable pub begin_commit : Write → String → ℕ → Method ℕ
unfolding write
begin_commit w id now tc = elim (lookup id tc.transactions) [
  | none ↦ (tx_not_found, tc)
  | some ref ↦
      if is_pending (tc.store ref).status
      then (tx_ok ref, write w ref (with_status tx_committing now (tc.store ref)) tc)
      else (tx_bad_status (tc.store ref).status, tc)
]

-- doCommit: true if it returns no error
unfoldable pub do_commit : String → TransactionCoordinator → Bool
do_commit id tc = has_key id tc.transactions

-- CommitTx from the second Lock on, with the pointer and what doCommit returned
unfoldable pub finish_commit :
    Write → ℕ → Bool → ℕ → TransactionCoordinator → TransactionCoordinator
unfolding write
finish_commit w ref success now tc =
    write w ref (with_status (if success then tx_committed else tx_aborted) now (tc.store ref)) tc

-- CommitTx where no other call comes between its three critical sections
unfoldable pub commit_tx : (first last : Write) → String → (t u : ℕ) → Method (Unit {0})
unfolding begin_commit do_commit finish_commit
commit_tx first last id t u tc =
    let (r, begun) = begin_commit first id t tc in
    elim r [
      | tx_ok ref ↦ (
        (if do_commit id begun then tx_ok tt else tx_not_found),
        finish_commit last ref (do_commit id begun) u begun,
      )
      | tx_not_found ↦ (tx_not_found, begun)
      | tx_bad_status status ↦ (tx_bad_status status, begun)
    ]

-- RollbackTx
unfoldable pub rollback_tx : Write → String → ℕ → Method (Unit {0})
unfolding write
rollback_tx w id now tc = elim (lookup id tc.transactions) [
  | none ↦ (tx_not_found, tc)
  | some ref ↦ (tx_ok tt, write w ref (with_status tx_aborted now (tc.store ref)) tc)
]

-- GetTxStatus
unfoldable pub get_tx_status : String → TransactionCoordinator → TxResult TxStatus
get_tx_status id tc = elim (lookup id tc.transactions) [
  | none ↦ tx_not_found
  | some ref ↦ tx_ok (tc.store ref).status
]

-- GetPendingTransactions, the references
abbrev pub pending_of : String → Store → List ℕ → List ℕ
pending_of producer store [] = []
pending_of producer store (ref ∷ refs) =
    let rest = pending_of producer store refs in
    if (store ref).producer_id == producer && is_pending (store ref).status
    then ref ∷ rest
    else rest

abbrev pub get_pending_transactions : String → TransactionCoordinator → List ℕ
get_pending_transactions producer tc = pending_of producer tc.store (values tc.transactions)

-- one round of the loop of startTimeoutChecker
unfoldable pub time_out : Write → ℕ → ℕ → TransactionCoordinator → TransactionCoordinator
unfolding write
time_out w now ref tc =
    if is_pending (tc.store ref).status && ltb tc.timeout (now - (tc.store ref).created_at)
    then write w ref (with_status tx_aborted now (tc.store ref)) tc
    else tc

-- one tick of startTimeoutChecker, with what each write of the file comes to
unfoldable pub time_out_all :
    (ℕ → Write) → ℕ → List ℕ → TransactionCoordinator → TransactionCoordinator
unfolding time_out
time_out_all w now [] tc = tc
time_out_all w now (ref ∷ refs) tc = time_out_all w now refs (time_out (w ref) now ref tc)

unfoldable pub check_timeouts : (ℕ → Write) → ℕ → TransactionCoordinator → TransactionCoordinator
unfolding time_out_all
check_timeouts w now tc = time_out_all w now (values tc.transactions) tc

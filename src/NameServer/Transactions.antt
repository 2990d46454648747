-- ===== src/NameServer/Transactions.antt =====
-- The requests on transactions to cluster/go/nameserver/nameserver.go, which hands them to its
-- coordinator (tc.go): handleBeginTx, handleAddMessage, handleCommitTx, handleRollbackTx and
-- handleTxStatus. The arguments are the values of the form.
use distributed_mq.Prelude.{
  if◌then◌else◌, ◌==◌, length, ℕ, ◌-◌, ◌%◌, ◌^◌, String, ◌≡◌, Bool, true, false, ◌||◌, Option, none,
  some, List, arith,
}
use distributed_mq.Prelude.{nat_eq, string_eq}
use distributed_mq.Prelude.Map.{has_key}
use distributed_mq.Coordinator.{
  TxMessage, TxStatus, tx_committed, tx_aborted, Write, TransactionCoordinator, TxResult, tx_ok,
  tx_not_found, tx_bad_status, is_pending, persist_tx, set, write, BeginClock, begin_tx,
  add_message, begin_commit, do_commit, finish_commit, commit_tx, rollback_tx, get_tx_status,
}
use distributed_mq.NameServer.{
  Response, success, bad_request, internal_error, Field, absent, malformed, negative, number,
}

-- a reply: what the method returns, or 500 for its error
abbrev pub tx_reply : {A : Type 0} → TxResult A → Response A
tx_reply (tx_ok a) = success a
tx_reply tx_not_found = internal_error
tx_reply (tx_bad_status status) = internal_error

-- the same where the reply of a successful call does not depend on what the method returns
abbrev pub replied : {A : Type 0} → A → TxResult (Unit {0}) → Response A
replied a (tx_ok done) = success a
replied a tx_not_found = internal_error
replied a (tx_bad_status status) = internal_error

abbrev pub Call {ℓ} : Type ℓ → Type ℓ
Call A = TransactionCoordinator → Response A × TransactionCoordinator

-- handleBeginTx
unfoldable pub handle_begin_tx : Write → (producer_id : String) → BeginClock → Call String
unfolding begin_tx
handle_begin_tx w producer_id clock tc =
    if producer_id == ""
    then (bad_request, tc)
    else (success (begin_tx w producer_id clock tc).0, (begin_tx w producer_id clock tc).1)

-- the result of Atoi, by the pattern of an int64
abbrev pub place_of : Field → Option ℕ
place_of absent = none
place_of malformed = none
place_of (negative n) = some ((2 ^ 64 - n) % 2 ^ 64)
place_of (number n) = some n

abbrev pub not_given : Field → Bool
not_given absent = true
not_given _ = false

-- handleAddMessage; what it replies is the identifier
unfoldable pub handle_add_message :
    Write
    → (tx_id topic : String) → (partition : Field) → (key : String) → (value : List ℕ) → ℕ
    → Call String
unfolding add_message
handle_add_message w tx_id topic partition key value now tc =
    if tx_id == "" || topic == "" || not_given partition || length value == 0
    then (bad_request, tc)
    else elim (place_of partition) [
      | none ↦ (bad_request, tc)
      | some p ↦
          let msg : TxMessage = record { topic = topic; partition = p; key = key; value = value } in
          let (result, tc') = add_message w tx_id msg now tc in (replied tx_id result, tc')
    ]

-- handleCommitTx
unfoldable pub handle_commit_tx :
    (first last : Write) → (tx_id : String) → (t u : ℕ) → Call TxStatus
unfolding commit_tx
handle_commit_tx first last tx_id t u tc = if tx_id == "" then (bad_request, tc) else (
  replied tx_committed (commit_tx first last tx_id t u tc).0,
  (commit_tx first last tx_id t u tc).1,
)

-- handleRollbackTx
unfoldable pub handle_rollback_tx : Write → (tx_id : String) → ℕ → Call TxStatus
unfolding rollback_tx
handle_rollback_tx w tx_id now tc =
    if tx_id == ""
    then (bad_request, tc)
    else (replied tx_aborted (rollback_tx w tx_id now tc).0, (rollback_tx w tx_id now tc).1)

-- handleTxStatus, which changes nothing
unfoldable pub handle_tx_status : (tx_id : String) → TransactionCoordinator → Response TxStatus
unfolding get_tx_status
handle_tx_status tx_id tc = if tx_id == "" then bad_request else tx_reply (get_tx_status tx_id tc)

-- For a transaction that handleTxStatus knows and that no other call interrupts: handleCommitTx replies
-- with COMMITTED where the status is PENDING, and with an error otherwise; handleTxStatus
-- then replies with COMMITTED, or with the status as it was.
pub handle_commit_tx_lem :
    (first last : Write) (tx_id : String) (t u : ℕ) (status : TxStatus)
    (tc : TransactionCoordinator)
    → handle_tx_status tx_id tc ≡ success status
    → ((handle_commit_tx first last tx_id t u tc).0
        ≡ (if is_pending status then success tx_committed else internal_error))
      × (handle_tx_status tx_id (handle_commit_tx first last tx_id t u tc).1
          ≡ success (if is_pending status then tx_committed else status))
unfolding handle_commit_tx handle_tx_status commit_tx get_tx_status write set persist_tx has_key
    begin_commit finish_commit do_commit
handle_commit_tx_lem first last tx_id t u status tc known = ground arith

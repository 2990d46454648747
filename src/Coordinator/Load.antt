-- ===== src/Coordinator/Load.antt =====
-- loadTxLog of cluster/go/nameserver/tc.go gives back what persistTx wrote.
use distributed_mq.Prelude.{
  if◌then◌else◌, Option-cases, ◌==◌, str_iff, All, ℕ, String, ◌≡◌, refl, inl, inr, Option, none,
  some, List, [], ◌∷◌, arith,
}
use distributed_mq.Prelude.{nat_eq, string_eq}
use distributed_mq.Prelude.Map.{Map, lookup, lookup-insert, NoDup, All-lookup_key}
use distributed_mq.Coordinator.{
  TxState, Store, TransactionCoordinator, objects, set, put, load_all, blank,
  new_transaction_coordinator,
}
use distributed_mq.Coordinator.Valid.{Keyed, IsValid, IsDurable, put-IsValid}

-- What the coordinator knows of an identifier.
unfoldable pub view : String → TransactionCoordinator → Option TxState
view id tc = elim (lookup id tc.transactions) [ none ↦ none | some ref ↦ some (tc.store ref) ]

-- The same of a map and a store, where a missing identifier is looked up in another coordinator.
abbrev view_or : String → Store → Map String ℕ → TransactionCoordinator → Option TxState
view_or id store m other = elim (lookup id m) [ none ↦ view id other | some ref ↦ some (store ref) ]

view-put :
    (id : String) (tx : TxState) (tc : TransactionCoordinator)
    → IsValid tc
    → view id (put tx.tx_id tx tc) ≡ (if tx.tx_id == id then some tx else view id tc)
unfolding view set
view-put id tx tc (distinct, keyed) = elim (Option-cases (lookup id tc.transactions)) [
  | inl missing ↦ ground (arith, lookup-insert tx.tx_id id tc.next_ref tc.transactions)
  | inr (ref, found) ↦
      let (below, _) =
        All-lookup_key (Keyed tc.next_ref tc.store) tc.transactions id ref keyed found in
      ground (arith, lookup-insert tx.tx_id id tc.next_ref tc.transactions)
]

load_all-view :
    (id : String) (store : Store) (n : ℕ) (m : Map String ℕ) (tc : TransactionCoordinator)
    → NoDup m
    → All (Keyed n store) m
    → IsValid tc
    → view id (load_all (objects store m) tc) ≡ view_or id store m tc
unfolding load_all lookup
load_all-view id store n [] tc distinct keyed valid = refl
load_all-view id store n ((key, ref) ∷ m) tc (new, distinct) ((_, same), keyed) valid =
    let tx : TxState = store ref in
    let rest =
      load_all-view id store n m (put tx.tx_id tx tc) distinct keyed (put-IsValid tx tc valid) in
    ground (arith, view-put id tx tc valid, str_iff key id)

pub load_all-IsValid :
    (txs : List TxState) (tc : TransactionCoordinator) → IsValid tc → IsValid (load_all txs tc)
unfolding load_all
load_all-IsValid [] tc valid = valid
load_all-IsValid (tx ∷ txs) tc valid =
    load_all-IsValid txs (put tx.tx_id tx tc) (put-IsValid tx tc valid)

-- A coordinator that starts on the log file of one whose file is up to date knows the same
-- transactions, in the same states.
pub restart-view :
    (store : Store) (tc : TransactionCoordinator) (id : String)
    → IsDurable tc
    → view id (new_transaction_coordinator store tc.log_file) ≡ view id tc
unfolding new_transaction_coordinator view lookup
restart-view store tc id ((distinct, keyed), saved) = rw saved (
    load_all-view id tc.store tc.next_ref tc.transactions
      (blank store (objects tc.store tc.transactions)) distinct keyed (tt, tt))

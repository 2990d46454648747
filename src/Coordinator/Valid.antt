-- ===== src/Coordinator/Valid.antt =====
-- The well-formed states of the transaction coordinator of cluster/go/nameserver/tc.go, and the
-- states whose log file is up to date.
use mathlib.Core.Path.{subst}
use distributed_mq.Prelude.{
  if◌then◌else◌, nat_beq_iff, if-elim, match-elim, ◌==◌, All, All-imp, ℕ, ◌+◌, ◌<◌, String, ◌≡◌,
  refl, ◌∙◌, Bool, none, some, arith,
}
use distributed_mq.Prelude.{nat_eq, string_eq}
use distributed_mq.Prelude.Map.{lookup, NoDup, insert-NoDup, All-insert}
use distributed_mq.Coordinator.{
  TxState, Store, complete, TransactionCoordinator, TxResult, tx_not_found, objects, persist_tx,
  set, write, put,
}

-- An entry of the map leads to an allocated object with the identifier of its key.
abbrev pub Keyed : ℕ → Store → String × ℕ → Type 0
Keyed n store e = (e.1 < n) × ((store e.1).tx_id ≡ e.0)

abbrev pub IsValid : TransactionCoordinator → Type 0
IsValid tc = NoDup tc.transactions × All (Keyed tc.next_ref tc.store) tc.transactions

-- The log file has all transactions, as they are.
abbrev pub Saved : TransactionCoordinator → Type 0
Saved tc = tc.log_file ≡ objects tc.store tc.transactions

abbrev pub IsDurable : TransactionCoordinator → Type 0
IsDurable tc = IsValid tc × Saved tc

-- A write through any pointer that keeps the identifier.
pub write-IsDurable :
    (ref : ℕ) (tx : TxState) (tc : TransactionCoordinator)
    → tx.tx_id ≡ (tc.store ref).tx_id
    → IsValid tc
    → IsDurable (write complete ref tx tc)
unfolding write set persist_tx
write-IsDurable ref tx tc same (distinct, keyed) = (
  (
    distinct,
    All-imp (Keyed tc.next_ref tc.store) (Keyed tc.next_ref (set ref tx tc.store)) tc.transactions
        (λ e (below, key). (
          below,
          if-elim (λ (x : TxState). x.tx_id ≡ e.0) (e.1 == ref) tx (tc.store e.1)
              (λ here.
                same ∙ subst (λ r. (tc.store r).tx_id ≡ e.0) ((nat_beq_iff e.1 ref).0 here) key)
              (λ _. key),
        ))
        keyed,
  ),
  refl,
)

pub put-IsValid :
    (tx : TxState) (tc : TransactionCoordinator) → IsValid tc → IsValid (put tx.tx_id tx tc)
unfolding set
put-IsValid tx tc (distinct, keyed) = (
  insert-NoDup tx.tx_id tc.next_ref tc.transactions distinct,
  All-insert (Keyed (tc.next_ref + 1) (set tc.next_ref tx tc.store)) tx.tx_id tc.next_ref
      tc.transactions (omega arith, ground arith)
      (All-imp (Keyed tc.next_ref tc.store) (Keyed (tc.next_ref + 1) (set tc.next_ref tx tc.store))
        tc.transactions (λ e (below, key). (omega arith, ground arith)) keyed),
)

-- A method that looks an identifier up and returns, where it is there, what `f` makes of it.
pub found-elim {ℓ κ} :
    {A : Type ℓ} (P : TransactionCoordinator → Type κ) (id : String) (tc : TransactionCoordinator)
    (f : ℕ → TxResult A × TransactionCoordinator)
    → P tc
    → ((ref : ℕ) → P (f ref).1)
    → P
        (elim (lookup id tc.transactions) as (λ _. TxResult A × TransactionCoordinator) [
          | none ↦ (tx_not_found, tc)
          | some ref ↦ f ref
        ]).1
found-elim {A} P id tc f h k =
    match-elim (λ (x : TxResult A × TransactionCoordinator). P x.1) (lookup id tc.transactions)
      (tx_not_found, tc) f (λ _. h) (λ ref _. k ref)

-- A method whose change of state has a guard.
pub guarded-elim {ℓ κ} :
    {A : Type ℓ} (P : TransactionCoordinator → Type κ) (guard : Bool) (a b : TxResult A)
    (s t : TransactionCoordinator)
    → P s
    → P t
    → P (if◌then◌else◌ {A = TxResult A × TransactionCoordinator} guard (a, s) (b, t)).1
guarded-elim {A} P guard a b s t h k =
    if-elim (λ (x : TxResult A × TransactionCoordinator). P x.1) guard (a, s) (b, t) (λ _. h)
      (λ _. k)

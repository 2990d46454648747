-- ===== src/Transaction/Valid.antt =====
-- What stays true of the transaction manager of cluster/go/broker/transaction/transaction.go in
-- each call.
use mathlib.Core.Path.{subst}
use distributed_mq.Prelude.{
  ltb, leb, if◌then◌else◌, nat_beq_iff, Bool-cases, if-elim, match-elim, ◌==◌, length, All, All-imp,
  ℕ, suc, ◌+◌, ◌-◌, ◌≤◌, ◌<◌, String, ◌≡◌, inl, inr, Bool, true, false, ◌&&◌, not, List, [], ◌∷◌,
  arith,
}
use distributed_mq.Prelude.{nat_eq, string_eq}
use distributed_mq.Prelude.Map.{
  Map, lookup, length-delete-le, length-insert-le, NoDup, insert-NoDup, delete-NoDup, All-insert,
  All-delete,
}
use distributed_mq.Prelude.Text.{dashed}
use distributed_mq.Oldest.{delete-oldest}
use distributed_mq.Transaction.{
  TransactionState, prepared, committed, TransactionMessage, Transaction, Store, TransactionManager,
  Result, not_found, bad_state, no_messages, set, is_pending, is_prepared, is_active,
  new_transaction_manager, roll_back_at, expire_all, cleanup_expired, start_of, make_room,
  new_transaction, add_transaction, begin_transaction, write, add_message, prepare_at, prepare,
  commit_at, commit, rollback,
}
use distributed_mq.Transaction.Evict.{evicted}

-- The states in which a transaction has messages.
abbrev pub is_filled : TransactionState → Bool
is_filled prepared = true
is_filled committed = true
is_filled _ = false

abbrev pub Filled : Transaction → Type 0
Filled t = is_filled t.state ≡ true → 0 < length t.messages

-- The identifiers are distinct, all references lead to objects of the manager, there are no more
-- transactions than its limit (but always room for one), and no transaction is prepared or
-- committed without messages.
abbrev pub IsValid : TransactionManager → Type 0
IsValid tm =
    NoDup tm.transactions
    × All (λ (e : String × ℕ). e.1 < tm.next_ref) tm.transactions
    × (length tm.transactions ≤ tm.max_transactions + (1 - tm.max_transactions))
    × ((r : ℕ) → r < tm.next_ref → Filled (tm.store r))

pub new_transaction_manager-IsValid :
    (store : Store) (max expire : ℕ) → IsValid (new_transaction_manager store max expire)
new_transaction_manager-IsValid store max expire =
    (tt, tt, omega arith, λ r h. absurd (omega arith))

set-Filled :
    (ref : ℕ) (txn : Transaction) (s : Store) (r : ℕ)
    → Filled txn
    → Filled (s r)
    → Filled (set ref txn s r)
unfolding set
set-Filled ref txn s r h k = if-elim Filled (r == ref) txn (s r) (λ _. h) (λ _. k)

write-IsValid :
    (ref : ℕ) (txn : Transaction) (tm : TransactionManager)
    → IsValid tm
    → (ref < tm.next_ref → Filled txn)
    → IsValid (write ref txn tm)
unfolding set
write-IsValid ref txn tm (distinct, refs, sized, filled) h = (
  distinct,
  refs,
  sized,
  λ r below.
      if-elim Filled (r == ref) txn (tm.store r)
        (λ same. h (subst (λ x. x < tm.next_ref) ((nat_beq_iff r ref).0 same) below))
        (λ _. filled r below),
)

expire_all-Filled :
    (now after : ℕ) (m : Map String ℕ) (s : Store) (r : ℕ)
    → Filled (s r)
    → Filled (expire_all now after m s r)
unfolding expire_all
expire_all-Filled now after [] s r h = h
expire_all-Filled now after ((id, ref) ∷ m) s r h =
    let due = ltb after (now - (s ref).start_time) && is_active (s ref).state in
    expire_all-Filled now after m (if due then set ref (roll_back_at now (s ref)) s else s) r (
      if-elim (λ (x : Store). Filled (x r)) due (set ref (roll_back_at now (s ref)) s) s
        (λ _. set-Filled ref (roll_back_at now (s ref)) s r (λ bad. cc) h) (λ _. h))

pub cleanup_expired-IsValid :
    (now : ℕ) (tm : TransactionManager) → IsValid tm → IsValid (cleanup_expired now tm)
unfolding cleanup_expired
cleanup_expired-IsValid now tm (distinct, refs, sized, filled) = (
  distinct,
  refs,
  sized,
  λ r below. expire_all-Filled now tm.expire_after tm.transactions tm.store r (filled r below),
)

-- A manager with room for a transaction.
abbrev HasRoom : TransactionManager → Type 0
HasRoom tm = suc (length tm.transactions) ≤ tm.max_transactions + (1 - tm.max_transactions)

make_room-HasRoom :
    (tm : TransactionManager) → IsValid tm → IsValid (make_room tm) × HasRoom (make_room tm)
unfolding make_room
make_room-HasRoom tm (distinct, refs, sized, filled) =
    if-elim (λ (x : TransactionManager). IsValid x × HasRoom x)
      (leb tm.max_transactions (length tm.transactions)) _ tm
      (λ full.
        let id = evicted tm in
        let shorter = length-delete-le id tm.transactions in
        (
          (
            delete-NoDup id tm.transactions distinct,
            All-delete (λ (e : String × ℕ). e.1 < tm.next_ref) id tm.transactions refs,
            omega arith,
            filled,
          ),
          elim (Bool-cases (ltb 0 (length tm.transactions))) [
            | inl some_there ↦
                let less = delete-oldest (start_of tm) tm.transactions (ground arith) in omega arith
            | inr empty ↦ ground arith
          ],
        ))
      (λ room. ((distinct, refs, sized, filled), ground arith))

add_transaction-IsValid :
    (id producer : String) (start : ℕ) (tm : TransactionManager)
    → IsValid tm
    → HasRoom tm
    → IsValid (add_transaction id producer start tm)
unfolding add_transaction set
add_transaction-IsValid id producer start tm (distinct, refs, sized, filled) room = (
  insert-NoDup id tm.next_ref tm.transactions distinct,
  All-insert (λ (e : String × ℕ). e.1 < tm.next_ref + 1) id tm.next_ref tm.transactions
      (omega arith)
      (All-imp (λ (e : String × ℕ). e.1 < tm.next_ref) (λ (e : String × ℕ). e.1 < tm.next_ref + 1)
        tm.transactions (λ e h. omega arith) refs),
  omega (arith, length-insert-le id tm.next_ref tm.transactions),
  λ r below.
      if-elim Filled (r == tm.next_ref) (new_transaction id producer start) (tm.store r)
        (λ _ bad. cc) (λ other. filled r (ground arith)),
)

pub begin_transaction-IsValid :
    (producer : String) (id_time start : ℕ) (tm : TransactionManager)
    → IsValid tm
    → IsValid (begin_transaction producer id_time start tm).1
unfolding begin_transaction
begin_transaction-IsValid producer id_time start tm valid =
    let (valid', room) = make_room-HasRoom tm valid in
    add_transaction-IsValid (dashed producer id_time) producer start (make_room tm) valid' room

pub add_message-IsValid :
    (id topic : String) (partition : ℕ) (payload : List ℕ) (tm : TransactionManager)
    → IsValid tm
    → IsValid (add_message id topic partition payload tm).1
unfolding add_message
add_message-IsValid id topic partition payload tm valid =
    match-elim (λ (x : Result (Unit {0}) × TransactionManager). IsValid x.1)
      (lookup id tm.transactions) (not_found, tm) _ (λ _. valid)
      (λ ref _.
        if-elim (λ (x : Result (Unit {0}) × TransactionManager). IsValid x.1)
          (is_pending (tm.store ref).state) _ (bad_state (tm.store ref).state, tm)
          (λ still. write-IsValid ref _ tm valid (λ _ bad. ground arith)) (λ _. valid))

pub prepare-IsValid :
    (id : String) (now : ℕ) (tm : TransactionManager) → IsValid tm → IsValid (prepare id now tm).1
unfolding prepare
prepare-IsValid id now tm valid =
    match-elim (λ (x : Result (Unit {0}) × TransactionManager). IsValid x.1)
      (lookup id tm.transactions) (not_found, tm) _ (λ _. valid)
      (λ ref _.
        if-elim (λ (x : Result (Unit {0}) × TransactionManager). IsValid x.1)
          (not (is_pending (tm.store ref).state)) (bad_state (tm.store ref).state, tm) _
          (λ _. valid)
          (λ _.
            if-elim (λ (x : Result (Unit {0}) × TransactionManager). IsValid x.1)
              (leb (length (tm.store ref).messages) 0) (no_messages, tm) _ (λ _. valid)
              (λ some_there.
                write-IsValid ref (prepare_at now (tm.store ref)) tm valid (λ _ _. ground arith))))

pub commit-IsValid :
    (id : String) (now : ℕ) (tm : TransactionManager) → IsValid tm → IsValid (commit id now tm).1
unfolding commit
commit-IsValid id now tm valid =
    match-elim (λ (x : Result (List TransactionMessage) × TransactionManager). IsValid x.1)
      (lookup id tm.transactions) (not_found, tm) _ (λ _. valid)
      (λ ref _.
        if-elim (λ (x : Result (List TransactionMessage) × TransactionManager). IsValid x.1)
          (is_prepared (tm.store ref).state) _ (bad_state (tm.store ref).state, tm)
          (λ ready.
            let (_, _, _, filled) = valid in
            write-IsValid ref (commit_at now (tm.store ref)) tm valid
              (λ below _. filled ref below (ground arith)))
          (λ _. valid))

pub rollback-IsValid :
    (id : String) (now : ℕ) (tm : TransactionManager) → IsValid tm → IsValid (rollback id now tm).1
unfolding rollback
rollback-IsValid id now tm valid =
    match-elim (λ (x : Result (Unit {0}) × TransactionManager). IsValid x.1)
      (lookup id tm.transactions) (not_found, tm) _ (λ _. valid)
      (λ ref _.
        if-elim (λ (x : Result (Unit {0}) × TransactionManager). IsValid x.1)
          (is_active (tm.store ref).state) _ (bad_state (tm.store ref).state, tm)
          (λ _. write-IsValid ref (roll_back_at now (tm.store ref)) tm valid (λ _ bad. cc))
          (λ _. valid))

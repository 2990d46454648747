-- ===== src/Transaction/Objects.antt =====
-- What happens to the transaction objects of cluster/go/broker/transaction/transaction.go in one
-- call of the manager.
use distributed_mq.Prelude.{
  ltb, leb, if◌then◌else◌, nat_beq_iff, if-elim, match-elim, ◌==◌, length, ℕ, ◌-◌, ◌≤◌, ◌<◌, String,
  ◌≡◌, refl, sym, ◌∙◌, true, false, ◌&&◌, not, List, [], ◌∷◌, arith,
}
use mathlib.Core.Path.{subst}
use distributed_mq.Prelude.{nat_eq, string_eq}
use distributed_mq.Prelude.Text.{dashed}
use distributed_mq.Transaction.{
  TransactionMessage, Transaction, Store, TransactionManager, Result, not_found, bad_state,
  no_messages, set, is_pending, is_prepared, is_active, roll_back_at, expire_all, cleanup_expired,
  make_room, new_transaction, add_transaction, begin_transaction, write, add_message, prepare_at,
  prepare, commit_at, commit, rollback,
}
use distributed_mq.Prelude.Map.{Map, lookup}

-- An object after it was `t`: a state that is not active is final, and the messages of a
-- transaction that is no longer pending stay.
abbrev pub Later : Transaction → Transaction → Type 0
Later t u =
    (t.id ≡ u.id)
    × (is_active t.state ≡ false → u.state ≡ t.state)
    × (is_pending t.state ≡ false → (is_pending u.state ≡ false) × (u.messages ≡ t.messages))

pub Later-refl : (t : Transaction) → Later t t
Later-refl t = (refl, λ _. refl, λ h. (h, refl))

pub Later-trans : (t u v : Transaction) → Later t u → Later u v → Later t v
Later-trans t u v (a, b, c) (a', b', c') = (
  a ∙ a',
  λ h. b' (rw (b h) h) ∙ b h,
  λ h. let (p, q) = c h in let (p', q') = c' p in (p', q' ∙ q),
)

-- No object below `n` in the store is lost or goes back.
abbrev pub Grows : ℕ → Store → Store → Type 0
Grows n s t = (r : ℕ) → r < n → Later (s r) (t r)

-- The same for the whole manager, which may have more objects afterwards.
abbrev pub Onward : TransactionManager → TransactionManager → Type 0
Onward a b = (a.next_ref ≤ b.next_ref) × Grows a.next_ref a.store b.store

pub Onward-refl : (a : TransactionManager) → Onward a a
Onward-refl a = (omega arith, λ r h. Later-refl (a.store r))

pub Onward-trans : (a b c : TransactionManager) → Onward a b → Onward b c → Onward a c
Onward-trans a b c (p, f) (q, g) = (
  omega arith,
  λ r h. Later-trans (a.store r) (b.store r) (c.store r) (f r h) (g r (omega arith)),
)

set-Later :
    (ref : ℕ) (txn : Transaction) (s : Store)
    → Later (s ref) txn
    → (r : ℕ) → Later (s r) (set ref txn s r)
unfolding set
set-Later ref txn s h r =
    if-elim (Later (s r)) (r == ref) txn (s r)
      (λ same. subst (λ x. Later (s x) txn) (sym ((nat_beq_iff r ref).0 same)) h)
      (λ _. Later-refl (s r))

pub write-Onward :
    (ref : ℕ) (txn : Transaction) (tm : TransactionManager)
    → Later (tm.store ref) txn
    → Onward tm (write ref txn tm)
unfolding set
write-Onward ref txn tm h = (omega arith, λ r _. set-Later ref txn tm.store h r)

roll_back_at-Later :
    (now : ℕ) (t : Transaction) → is_active t.state ≡ true → Later t (roll_back_at now t)
roll_back_at-Later now t h = (refl, λ g. cc, λ _. (refl, refl))

expire_all-Later :
    (now after : ℕ) (m : Map String ℕ) (s : Store) (r : ℕ)
    → Later (s r) (expire_all now after m s r)
unfolding expire_all
expire_all-Later now after [] s r = Later-refl (s r)
expire_all-Later now after ((id, ref) ∷ m) s r =
    let s' : Store =
      if ltb after (now - (s ref).start_time) && is_active (s ref).state
      then set ref (roll_back_at now (s ref)) s
      else s in
    Later-trans (s r) (s' r) (expire_all now after m s' r)
      (if-elim (λ (x : Store). Later (s r) (x r))
        (ltb after (now - (s ref).start_time) && is_active (s ref).state)
        (set ref (roll_back_at now (s ref)) s) s
        (λ due.
          set-Later ref (roll_back_at now (s ref)) s (roll_back_at-Later now (s ref) (ground arith))
            r)
        (λ _. Later-refl (s r)))
      (expire_all-Later now after m s' r)

pub cleanup_expired-Onward :
    (now : ℕ) (tm : TransactionManager) → Onward tm (cleanup_expired now tm)
unfolding cleanup_expired
cleanup_expired-Onward now tm =
    (omega arith, λ r _. expire_all-Later now tm.expire_after tm.transactions tm.store r)

make_room-Onward : (tm : TransactionManager) → Onward tm (make_room tm)
unfolding make_room
make_room-Onward tm =
    if-elim (Onward tm) (leb tm.max_transactions (length tm.transactions)) _ tm
      (λ _. Onward-refl tm) (λ _. Onward-refl tm)

add_transaction-Onward :
    (id producer : String) (start : ℕ) (tm : TransactionManager)
    → Onward tm (add_transaction id producer start tm)
unfolding add_transaction set
add_transaction-Onward id producer start tm = (
  omega arith,
  λ r below.
      if-elim (Later (tm.store r)) (r == tm.next_ref) (new_transaction id producer start)
        (tm.store r) (λ same. absurd (omega (arith, (nat_beq_iff r tm.next_ref).0 same)))
        (λ _. Later-refl (tm.store r)),
)

pub begin_transaction-Onward :
    (producer : String) (id_time start : ℕ) (tm : TransactionManager)
    → Onward tm (begin_transaction producer id_time start tm).1
unfolding begin_transaction
begin_transaction-Onward producer id_time start tm =
    Onward-trans tm (make_room tm) (begin_transaction producer id_time start tm).1
      (make_room-Onward tm)
      (add_transaction-Onward (dashed producer id_time) producer start (make_room tm))

pub add_message-Onward :
    (id topic : String) (partition : ℕ) (payload : List ℕ) (tm : TransactionManager)
    → Onward tm (add_message id topic partition payload tm).1
unfolding add_message
add_message-Onward id topic partition payload tm =
    match-elim (λ (x : Result (Unit {0}) × TransactionManager). Onward tm x.1)
      (lookup id tm.transactions) (not_found, tm) _ (λ _. Onward-refl tm)
      (λ ref _.
        if-elim (λ (x : Result (Unit {0}) × TransactionManager). Onward tm x.1)
          (is_pending (tm.store ref).state) _ (bad_state (tm.store ref).state, tm)
          (λ still. write-Onward ref _ tm (refl, λ _. refl, λ closed. cc)) (λ _. Onward-refl tm))

pub prepare-Onward :
    (id : String) (now : ℕ) (tm : TransactionManager) → Onward tm (prepare id now tm).1
unfolding prepare
prepare-Onward id now tm =
    match-elim (λ (x : Result (Unit {0}) × TransactionManager). Onward tm x.1)
      (lookup id tm.transactions) (not_found, tm) _ (λ _. Onward-refl tm)
      (λ ref _.
        if-elim (λ (x : Result (Unit {0}) × TransactionManager). Onward tm x.1)
          (not (is_pending (tm.store ref).state)) (bad_state (tm.store ref).state, tm) _
          (λ _. Onward-refl tm)
          (λ still.
            if-elim (λ (x : Result (Unit {0}) × TransactionManager). Onward tm x.1)
              (leb (length (tm.store ref).messages) 0) (no_messages, tm) _ (λ _. Onward-refl tm)
              (λ _.
                write-Onward ref (prepare_at now (tm.store ref)) tm
                  (refl, λ done. ground arith, λ done. ground arith))))

pub commit-Onward :
    (id : String) (now : ℕ) (tm : TransactionManager) → Onward tm (commit id now tm).1
unfolding commit
commit-Onward id now tm =
    match-elim (λ (x : Result (List TransactionMessage) × TransactionManager). Onward tm x.1)
      (lookup id tm.transactions) (not_found, tm) _ (λ _. Onward-refl tm)
      (λ ref _.
        if-elim (λ (x : Result (List TransactionMessage) × TransactionManager). Onward tm x.1)
          (is_prepared (tm.store ref).state) _ (bad_state (tm.store ref).state, tm)
          (λ ready.
            write-Onward ref (commit_at now (tm.store ref)) tm
              (refl, λ done. ground arith, λ done. (refl, refl)))
          (λ _. Onward-refl tm))

pub rollback-Onward :
    (id : String) (now : ℕ) (tm : TransactionManager) → Onward tm (rollback id now tm).1
unfolding rollback
rollback-Onward id now tm =
    match-elim (λ (x : Result (Unit {0}) × TransactionManager). Onward tm x.1)
      (lookup id tm.transactions) (not_found, tm) _ (λ _. Onward-refl tm)
      (λ ref _.
        if-elim (λ (x : Result (Unit {0}) × TransactionManager). Onward tm x.1)
          (is_active (tm.store ref).state) _ (bad_state (tm.store ref).state, tm)
          (λ active.
            write-Onward ref (roll_back_at now (tm.store ref)) tm
              (roll_back_at-Later now (tm.store ref) active))
          (λ _. Onward-refl tm))

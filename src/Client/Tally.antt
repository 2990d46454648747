-- ===== src/Client/Tally.antt =====
-- What the producer of samples/go-producer/main.go counts.
use mathlib.Core.Path.{ap}
use distributed_mq.Prelude.{
  if◌then◌else◌, Option-cases, length, All, ℕ, ◌+◌, String, ◌≡◌, refl, ◌∙◌, inl, inr, Bool, true,
  false, some, List, [], ◌∷◌, arith,
}
use distributed_mq.Prelude.{nat_eq, string_eq}
use distributed_mq.Go.{ret, panic, continue}
use distributed_mq.Client.Producer.{
  SendResult, sent, Counts, Sending, new_leader, is_sent, count_result, count_all, count_again,
  count_failed, one_redirect, send_batch, send_all,
}

abbrev pub total : Counts → ℕ
total c = c.success + c.failed

abbrev pub messages_in : List (Bool × List Sending) → ℕ
messages_in [] = 0
messages_in ((reconnects, batch) ∷ batches) = length batch + messages_in batches

count_result-total : (r : SendResult) (c : Counts) → total (count_result r c) ≡ total c + 1
count_result-total sent c = omega arith
count_result-total _ c = omega arith

count_all-total :
    (batch : List Sending) (c : Counts) → total (count_all batch c) ≡ total c + length batch
unfolding count_all
count_all-total [] c = omega arith
count_all-total ((first, again) ∷ batch) c =
    omega (arith, count_all-total batch (count_result first c), count_result-total first c)

count_again-total :
    (batch : List Sending) (c : Counts) → total (count_again batch c) ≡ total c + length batch
unfolding count_again
count_again-total [] c = omega arith
count_again-total ((first, again) ∷ batch) c =
    let last_result : SendResult = if is_sent first then sent else again in
    omega (
      arith,
      count_again-total batch (count_result last_result c),
      count_result-total last_result c,
    )

-- Every new connection is made.
abbrev pub Reconnects : List (Bool × List Sending) → Type 0
Reconnects batches = All (λ (b : Bool × List Sending). b.0 ≡ true) batches

send_batch-total :
    (batch : List Sending) (c : Counts)
    → (c' : Counts) × ((send_batch true batch (c, true) ≡ (ret tt, (c', true)))
        × (total c' ≡ total c + length batch))
unfolding send_batch
send_batch-total batch c = elim (Option-cases (new_leader batch)) [
  | inl none_needed ↦
      (count_all batch c, (rw (none_needed, send_batch) refl, count_all-total batch c))
  | inr (addr, needed) ↦ (
    count_again batch (one_redirect c),
    (rw (needed, send_batch) refl, omega (arith, count_again-total batch (one_redirect c))),
  )
]

-- Where every new connection is made, main returns, its connection is there, and the messages that it
-- counts as sent or failed are all messages of all batches, each once.
pub send_all-total :
    (batches : List (Bool × List Sending)) (c : Counts)
    → Reconnects batches
    → ((send_all batches (c, true)).0 ≡ ret tt)
      × ((send_all batches (c, true)).1.1 ≡ true)
      × (total (send_all batches (c, true)).1.0 ≡ total c + messages_in batches)
unfolding send_all
send_all-total [] c h = (refl, refl, omega arith)
send_all-total ((reconnects, batch) ∷ batches) c (made, h) =
    let (c', (step, counted)) = send_batch-total batch c in
    let (returns, connected, rest) = send_all-total batches c' h in
    rw (made, ap (λ r. continue r.0 (λ _. send_all batches) r.1) step)
      (returns, connected, omega (arith, rest, counted))

count_failed-success :
    (batch : List Sending) (c : Counts) → (count_failed batch c).success ≡ c.success
unfolding count_failed
count_failed-success [] c = refl
count_failed-success ((first, again) ∷ batch) c =
    count_failed-success batch (if is_sent first then c else record c { failed = c.failed + 1 })
    ∙ ground arith

-- Where a batch needs a new connection that is not made, and another batch follows, main panics, and the
-- messages of the first one that were sent are not counted.
pub send_all_panics :
    (batch next : List Sending) (batches : List (Bool × List Sending)) (reconnects : Bool)
    (addr : String) (c : Counts)
    → new_leader batch ≡ some addr
    → ((send_all ((false, batch) ∷ (reconnects, next) ∷ batches) (c, true)).0 ≡ panic)
      × ((send_all ((false, batch) ∷ (reconnects, next) ∷ batches) (c, true)).1.0.success
          ≡ c.success)
unfolding send_all send_batch
send_all_panics batch next batches reconnects addr c needed =
    let left = count_failed batch (one_redirect c) in
    let step : send_batch false batch (c, true) ≡ (ret tt, (left, false)) =
      rw (needed, send_batch) refl in
    rw (ap (λ r. continue r.0 (λ _. send_all ((reconnects, next) ∷ batches)) r.1) step)
      (refl, count_failed-success batch (one_redirect c))

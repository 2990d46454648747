-- ===== src/Client/Skips.antt =====
-- What the consumer of samples/go-consumer/main.go never sees of a partition of
-- cluster/go/broker/broker.go.
use mathlib.Core.Path.{sym, subst, ap}
use distributed_mq.Prelude.{
  last?, All, length-pos_of_last?, ℕ, ◌+◌, ◌%◌, ◌^◌, ◌<◌, String, ◌≡◌, ◌∙◌, false, none, some, List,
  [], ◌∷◌, arith,
}
use distributed_mq.Prelude.{nat_eq, string_eq}
use distributed_mq.Prelude.Int.{ℤ, pos, signed}
use distributed_mq.Prelude.Map.{beq_refl, insert, get_or, lookup-insert}
use distributed_mq.Storage.{CommitLog, SparseIndex}
use distributed_mq.Wire.{FetchedMessage}
use distributed_mq.Broker.{Message}
use distributed_mq.Broker.Log.{entries_after, fetch_loop}
use distributed_mq.Client.Consumer.{FetchResult, Consumer, join_group, advance, consume_round}
use distributed_mq.Broker.Log.Fetching.{fetch_loop-after}

signed-small : (n : ℕ) → n < 2 ^ 63 → signed 64 n ≡ pos n
signed-small n h = ground arith

-- Fetch from a small bit pattern.
fetch-after :
    (topic : String) (place : ℤ) (cl : CommitLog) (most : ℤ) (n : ℕ) (idx : SparseIndex)
    → n < 2 ^ 63
    → All
        (λ (msg : Message). n < msg.offset)
        (fetch_loop topic place cl most 0 false (entries_after (signed 64 n) idx))
fetch-after topic place cl most n idx small =
    subst
      (λ i.
        All (λ (msg : Message). n < msg.offset)
          (fetch_loop topic place cl most 0 false (entries_after i idx)))
      (sym (signed-small n small)) (fetch_loop-after topic place cl most n idx)

advance-last :
    (msgs : List FetchedMessage) (last : FetchedMessage) (offset : ℕ)
    → last? msgs ≡ some last
    → advance msgs offset ≡ (last.offset + 1) % 2 ^ 64
unfolding advance
advance-last [] last offset h = cc
advance-last (msg ∷ []) last offset h = ground arith
advance-last (msg ∷ next ∷ msgs) last offset h =
    advance-last (next ∷ msgs) last ((msg.offset + 1) % 2 ^ 64) h

-- After a round whose last message has the offset `o`, which `range` may have put behind
-- others in any order, the consumer commits `o` + 1, and a Fetch from there has no message with
-- an offset up to `o` + 1, whatever the partition then holds: a message below `o` that was not
-- in the round is never seen.
pub behind_lost :
    (partition : ℕ) (r : FetchResult) (last : FetchedMessage) (c : Consumer) (topic : String)
    (place : ℤ) (cl : CommitLog) (most : ℤ) (idx : SparseIndex)
    → r.error ≡ none
    → last? r.messages ≡ some last
    → last.offset + 1 < 2 ^ 63
    → ((consume_round partition r c).0 ≡ some (last.offset + 1))
      × (get_or partition 0 (consume_round partition r c).1.offsets ≡ last.offset + 1)
      × All
          (λ (msg : Message). last.offset + 1 < msg.offset)
          (fetch_loop topic place cl most 0 false (entries_after (signed 64 (last.offset + 1)) idx))
unfolding consume_round get_or
behind_lost partition r last c topic place cl most idx fine is_last small =
    let latest = last.offset + 1 in
    let filled = length-pos_of_last? r.messages last is_last in
    let next : advance r.messages (get_or partition 0 c.offsets) ≡ latest =
      advance-last r.messages last (get_or partition 0 c.offsets) is_last ∙ omega arith in
    let step : consume_round partition r c
        ≡ (some latest, record c { offsets = insert partition latest c.offsets }) =
      ground (arith, next) in
    (
      ap (λ x. x.0) step,
      ap (λ x. get_or partition 0 x.1.offsets) step
          ∙ ground (arith, lookup-insert partition partition latest c.offsets, beq_refl partition),
      fetch-after topic place cl most latest idx small,
    )

-- A consumer whose group has no offset yet starts at 0, and no Fetch from there has the message
-- that was appended first, at the offset 0.
pub first_lost :
    (partition : ℕ) (c : Consumer) (topic : String) (place : ℤ) (cl : CommitLog) (most : ℤ)
    (idx : SparseIndex)
    → let c' = (join_group (some (partition ∷ [])) (λ _. none) c).1 in
      (get_or partition 1 c'.offsets ≡ 0)
      × All
          (λ (msg : Message). 0 < msg.offset)
          (fetch_loop topic place cl most 0 false
            (entries_after (signed 64 (get_or partition 1 c'.offsets)) idx))
unfolding join_group get_or
first_lost partition c topic place cl most idx =
    let start : get_or partition 1 (insert partition 0 c.offsets) ≡ 0 =
      ground (arith, lookup-insert partition partition 0 c.offsets, beq_refl partition) in
    (start, rw start (fetch-after topic place cl most 0 idx (omega arith)))

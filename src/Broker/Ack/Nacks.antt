-- ===== src/Broker/Ack/Nacks.antt =====
-- What becomes of a negative acknowledgement (handleTCPAck of cluster/go/broker/broker.go).
use mathlib.Core.Path.{ap}
use Prim.Native.String
use text.Mathlib.TextLemmas.{length-append}
use distributed_mq.Prelude.{
  ◌==◌, str_iff, length, take, drop, All, ℕ, ◌+◌, ◌≤◌, ◌<◌, String, ◌≡◌, refl, ◌∙◌, ◌≢◌, true,
  false, some, List, [], ◌∷◌, ◌++◌, arith,
}
use distributed_mq.Prelude.{nat_eq, string_eq}
use distributed_mq.Prelude.Int.{ℤ, pos, negsuc, decimal_int}
use distributed_mq.Prelude.Text.{decimal, dashed}
use distributed_mq.Prelude.Bytes.{decode}
use distributed_mq.Prelude.Map.{Map, lookup, has_key}
use distributed_mq.Go.{ret, blocked, Exec, ◌>>=◌}
use distributed_mq.Raft.{leader, LogEntry}
use distributed_mq.Raft.Commit.{Select, Submitted, submit_command}
use distributed_mq.Wire.{resp_retried, resp_error}
use distributed_mq.Broker.{
  TopicPartition, Broker, with_mu, on_raft, with_mu-free, with_mu-locked, with_mu-blocked,
  on_raft-blocks, topic_key,
}
use distributed_mq.Broker.Log.{ApplyEnv, apply_entries, apply_batch, fetch_locked, fetch}
use distributed_mq.Broker.Ack.{
  max_retry_count, respond, dead_status, next_count, nack_locked, handle_tcp_ack, retry_locked,
  process_retry_queue,
}
use distributed_mq.Raft.Commit.Submit.{submit_alone_blocks}

-- A payload with a status that is not 0.
abbrev pub IsNack : List ℕ → Type 0
IsNack payload = (9 ≤ length payload) × ((decode (take 1 (drop 8 payload)) == 0) ≡ false)

handle_tcp_ack-nack :
    (select : Select) (topic : String) (partition : ℕ) (payload : List ℕ) (now : ℕ) (b : Broker)
    → IsNack payload
    → handle_tcp_ack select topic partition payload now b
      ≡ with_mu (nack_locked select topic partition payload now) b
unfolding handle_tcp_ack
handle_tcp_ack-nack select topic partition payload now b (long, negative) = ground (arith, negative)

-- Each partition of the broker is of the topic, and stands under its key.
abbrev pub OnlyTopic : String → Map String TopicPartition → Type 0
OnlyTopic topic m = All (λ (e : String × TopicPartition). (n : ℤ) × (e.0 ≡ topic_key topic n)) m

ne-append_dash : (s t : String) → s ≢ String.◌++◌ s (String.◌++◌ "-" t)
ne-append_dash s t e =
    let one : String.count "-" ≡ 1 = refl in
    omega (arith, ap String.count e, length-append s (String.◌++◌ "-" t), length-append "-" t, one)

topic_key-ne : (topic : String) (n : ℤ) → topic ≢ topic_key topic n
unfolding topic_key dashed
topic_key-ne topic (pos n) e = ne-append_dash topic (decimal n) e
topic_key-ne topic (negsuc n) e = ne-append_dash topic (decimal_int (negsuc n)) e

OnlyTopic-missing :
    (topic : String) (m : Map String TopicPartition) → OnlyTopic topic m → has_key topic m ≡ false
unfolding has_key lookup
OnlyTopic-missing topic [] h = refl
OnlyTopic-missing topic ((k, tp) ∷ m) ((n, is_key), h) =
    ground (arith, topic_key-ne topic n, str_iff k topic, OnlyTopic-missing topic m h)

-- The partitions of a topic stand under other keys than its name, so that a broker that keeps
-- partitions of one topic only answers each negative acknowledgement of that topic with an error: its
-- mutex is free again, and neither its retry queue nor its Raft node changes.
pub nack_refused :
    (select : Select) (topic : String) (partition : ℕ) (payload : List ℕ) (now : ℕ) (b : Broker)
    → IsNack payload
    → b.locked ≡ false
    → OnlyTopic topic b.topics
    → (handle_tcp_ack select topic partition payload now b).0 ≡ ret (respond resp_error)
      × ((handle_tcp_ack select topic partition payload now b).1.retry_queue ≡ b.retry_queue)
      × ((handle_tcp_ack select topic partition payload now b).1.raft_node ≡ b.raft_node)
      × ((handle_tcp_ack select topic partition payload now b).1.locked ≡ false)
unfolding nack_locked
nack_refused select topic partition payload now b nack free only =
    let held = record b { locked = true } in
    let missing = OnlyTopic-missing topic b.topics only in
    let refuses : nack_locked select topic partition payload now held
        ≡ (ret (respond resp_error), held) =
      ground (arith, missing) in
    let whole =
      handle_tcp_ack-nack select topic partition payload now b nack
      ∙ with_mu-free (nack_locked select topic partition payload now) (respond resp_error) b free
          (ap (λ r. r.0) refuses) in
    (
      ap (λ r. r.0) whole,
      ap (λ r. r.1.retry_queue) whole ∙ ap (λ r. r.1.retry_queue) refuses,
      ap (λ r. r.1.raft_node) whole ∙ ap (λ r. r.1.raft_node) refuses,
      ap (λ r. r.1.locked) whole,
    )

module _ (select : Select) (topic : String) (partition : ℕ) (payload : List ℕ) (now : ℕ)
    (b : Broker) (tp : TopicPartition) (nack : IsNack payload) (free : b.locked ≡ false)
    (there : lookup topic b.topics ≡ some tp) (long : 11 ≤ length payload) where
  -- Where a key is spelled like the topic, a message with fewer than two earlier retries is queued, due 5
  -- seconds later, with one retry more.
  pub nack_retried :
      next_count payload < max_retry_count
      → let r = handle_tcp_ack select topic partition payload now b in
        (r.0 ≡ ret (respond resp_retried))
        × (r.1.retry_queue
            ≡ b.retry_queue
              ++ (record {
                topic = topic;
                partition = partition;
                offset = decode (take 8 payload);
                payload = drop 10 payload;
                retry_count = next_count payload;
                next_retry_at = now + 5000000000;
              })
                ∷ [])
        × (r.1.raft_node ≡ b.raft_node)
  unfolding nack_locked has_key
  nack_retried few =
      let held = record b { locked = true } in
      let queue =
        b.retry_queue
        ++ (record {
          topic = topic;
          partition = partition;
          offset = decode (take 8 payload);
          payload = drop 10 payload;
          retry_count = next_count payload;
          next_retry_at = now + 5000000000;
        })
          ∷ [] in
      let queued : nack_locked select topic partition payload now held
          ≡ (ret (respond resp_retried), record held { retry_queue = queue }) =
        ground (arith, there) in
      let whole =
        handle_tcp_ack-nack select topic partition payload now b nack
        ∙ with_mu-free (nack_locked select topic partition payload now) (respond resp_retried) b
            free (ap (λ r. r.0) queued) in
      (
        ap (λ r. r.0) whole,
        ap (λ r. r.1.retry_queue) whole ∙ ap (λ r. r.1.retry_queue) queued,
        ap (λ r. r.1.raft_node) whole ∙ ap (λ r. r.1.raft_node) queued,
      )

  -- On a leader with no peers, a message with two earlier retries blocks the handler for ever, with the
  -- mutex of the broker held.
  pub nack_blocks :
      max_retry_count ≤ next_count payload
      → b.raft_node.locked ≡ false
      → b.raft_node.state ≡ leader
      → b.raft_node.peers ≡ []
      → let r = handle_tcp_ack select topic partition payload now b in
        (r.0 ≡ blocked) × (r.1.locked ≡ true)
  unfolding nack_locked has_key
  nack_blocks many unlocked lead alone =
      let held = record b { locked = true } in
      let submit = submit_command select (String.◌++◌ topic "_DLQ") partition (drop 10 payload) in
      let end : Submitted → Exec Broker (List ℕ) =
        λ reply b'. (ret (respond (dead_status reply)), b') in
      let stops =
        submit_alone_blocks select (String.◌++◌ topic "_DLQ") partition (drop 10 payload)
          b.raft_node unlocked lead alone in
      let dead : nack_locked select topic partition payload now held
          ≡ (on_raft submit >>= end) held =
        ground (arith, there) in
      let blocks = dead ∙ on_raft-blocks submit end held stops.0 in
      let whole =
        handle_tcp_ack-nack select topic partition payload now b nack
        ∙ with_mu-blocked (nack_locked select topic partition payload now) b free
            (ap (λ r. r.0) blocks) in
      (ap (λ r. r.0) whole, ap (λ r. r.1.locked) whole ∙ ap (λ r. r.1.locked) blocks)

-- What waits for the mutex of the broker for ever.
abbrev pub AllBlock :
    Select → String → ℤ → (offset most : ℤ) → ℕ → List (ApplyEnv × LogEntry) → Broker → Type 0
AllBlock select topic partition offset most now batch b =
    ((fetch topic partition offset most b).0 ≡ blocked)
    × ((apply_batch batch b).0 ≡ blocked)
    × ((process_retry_queue select now b).0 ≡ blocked)

locked-AllBlock :
    (select : Select) (topic : String) (partition offset most : ℤ) (now : ℕ)
    (batch : List (ApplyEnv × LogEntry)) (b : Broker)
    → b.locked ≡ true
    → AllBlock select topic partition offset most now batch b
unfolding fetch apply_batch process_retry_queue
locked-AllBlock select topic partition offset most now batch b held = (
  ap (λ r. r.0) (with_mu-locked (fetch_locked topic partition offset most) b held),
  ap (λ r. r.0) (with_mu-locked (apply_entries batch) b held),
  ap (λ r. r.0) (with_mu-locked (retry_locked select now) b held),
)

-- On a broker whose Raft node leads with no peers, a negative acknowledgement of a message with two
-- earlier retries, under a topic that is spelled like a key, never returns, and from then on each Fetch, each
-- applyBatch and each round of the retry queue blocks for ever.
pub nack_stops :
    (select : Select) (topic : String) (partition : ℕ) (payload : List ℕ) (now : ℕ) (b : Broker)
    (tp : TopicPartition) (other : String) (place offset most : ℤ)
    (batch : List (ApplyEnv × LogEntry))
    → IsNack payload
    → b.locked ≡ false
    → lookup topic b.topics ≡ some tp
    → 11 ≤ length payload
    → max_retry_count ≤ next_count payload
    → b.raft_node.locked ≡ false
    → b.raft_node.state ≡ leader
    → b.raft_node.peers ≡ []
    → ((handle_tcp_ack select topic partition payload now b).0 ≡ blocked)
      × AllBlock select other place offset most now batch
          (handle_tcp_ack select topic partition payload now b).1
nack_stops select topic partition payload now b tp other place offset most batch nack free there
      long many unlocked lead alone =
    let (stuck, held) =
      nack_blocks select topic partition payload now b tp nack free there long many unlocked lead
        alone in
    (stuck, locked-AllBlock select other place offset most now batch _ held)

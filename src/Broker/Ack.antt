-- ===== src/Broker/Ack.antt =====
-- Acknowledgements and the retry queue of cluster/go/broker/broker.go: handleTCPAck,
-- processRetryQueue and the rounds of startDelayedMessageProcessor.
pub mod Nacks
pub mod Rounds
use Prim.Native.String
use distributed_mq.Prelude.{
  ltb, leb, if◌then◌else◌, ◌==◌, length, get_elem?, take, drop, ℕ, ◌+◌, String, Bool, true, false,
  not, none, some, List, [], ◌∷◌, ◌++◌,
}
use distributed_mq.Prelude.{nat_eq, string_eq}
use distributed_mq.Prelude.Bytes.{decode}
use distributed_mq.Prelude.Map.{has_key}
use distributed_mq.Go.{ret, Exec, ◌>>=◌, ◌>>◌}
use distributed_mq.Raft.Commit.{Select, Submitted, refused, submitted, submit_command}
use distributed_mq.Wire.{resp_success, resp_dlq, resp_retried, resp_error, send_response}
use distributed_mq.Broker.{RetryMessage, Broker, with_mu, on_raft}

abbrev pub max_retry_count : ℕ
max_retry_count = 3

-- the response of 2 bytes, or of a success
abbrev pub respond : ℕ → List ℕ
respond status = send_response status "" 0

-- the status after the call of SubmitCommand
abbrev pub dead_status : Submitted → ℕ
dead_status refused = resp_error
dead_status (submitted index chan) = resp_dlq

-- the branch of handleTCPAck that moves a message to the dead letters, from the test of its length on
unfoldable pub dead_letter : Select → String → ℕ → List ℕ → Exec Broker (List ℕ)
dead_letter select topic partition payload b =
    if ltb (length payload) 11
    then (ret (respond resp_error), b)
    else (do
      reply ← on_raft (submit_command select (String.◌++◌ topic "_DLQ") partition (drop 10 payload))
      λ b'. (ret (respond (dead_status reply)), b'))
        b

-- the branch that queues a message; 5 seconds in nanoseconds
unfoldable pub queue_retry : String → ℕ → List ℕ → (retry_count now : ℕ) → Exec Broker (List ℕ)
queue_retry topic partition payload retry_count now b =
    if ltb (length payload) 11 then (ret (respond resp_error), b) else (
      ret (respond resp_retried),
      record b {
        retry_queue =
            b.retry_queue
            ++ (record {
              topic = topic;
              partition = partition;
              offset = decode (take 8 payload);
              payload = drop 10 payload;
              retry_count = retry_count;
              next_retry_at = now + 5000000000;
            })
              ∷ [];
      },
    )

-- `retryCount`
abbrev pub next_count : List ℕ → ℕ
next_count payload = elim (get_elem? payload 9) [ none ↦ 1 | some count ↦ count + 1 ]

-- the part of handleTCPAck under the mutex
unfoldable pub nack_locked : Select → String → ℕ → List ℕ → ℕ → Exec Broker (List ℕ)
unfolding dead_letter queue_retry
nack_locked select topic partition payload now b =
    if not (has_key topic b.topics)
    then (ret (respond resp_error), b)
    else if leb max_retry_count (next_count payload)
    then dead_letter select topic partition payload b
    else queue_retry topic partition payload (next_count payload) now b

-- handleTCPAck, with its response; the status is `data[8]`
unfoldable pub handle_tcp_ack : Select → String → ℕ → List ℕ → ℕ → Exec Broker (List ℕ)
unfolding nack_locked
handle_tcp_ack select topic partition payload now b =
    if ltb (length payload) 9
    then (ret (respond resp_error), b)
    else if decode (take 1 (drop 8 payload)) == 0
    then (ret (respond resp_success), b)
    else with_mu (nack_locked select topic partition payload now) b

-- a message stays in the queue if SubmitCommand refuses it
abbrev pub requeue : RetryMessage → List RetryMessage → Submitted → List RetryMessage
requeue msg new_queue refused = new_queue ++ msg ∷ []
requeue msg new_queue (submitted index chan) = new_queue

-- the loop of processRetryQueue, with `newQueue`
unfoldable pub retry_loop :
    Select → ℕ → List RetryMessage → List RetryMessage → Exec Broker (List RetryMessage)
retry_loop select now [] new_queue b = (ret new_queue, b)
retry_loop select now (msg ∷ msgs) new_queue b = elim (ltb now msg.next_retry_at) [
  | true ↦ retry_loop select now msgs (new_queue ++ msg ∷ []) b
  | false ↦
      (on_raft (submit_command select (String.◌++◌ msg.topic "_RETRY") msg.partition msg.payload)
          >>= λ reply. retry_loop select now msgs (requeue msg new_queue reply))
        b
]

-- processRetryQueue under the mutex
unfoldable pub retry_locked : Select → ℕ → Exec Broker (Unit {0})
unfolding retry_loop
retry_locked select now b =
    (retry_loop select now b.retry_queue [] >>= λ new_queue b'.
    (ret tt, record b' { retry_queue = new_queue }))
      b

-- processRetryQueue
unfoldable pub process_retry_queue : Select → ℕ → Exec Broker (Unit {0})
unfolding retry_locked
process_retry_queue select now = with_mu (retry_locked select now)

-- a message that the time wheel dispatches; its partition is given by the pattern of an int32
pub record Delayed : Type 0 where
  pub topic : String
  pub partition : ℕ
  pub payload : List ℕ

-- the test of startDelayedMessageProcessor under the mutex
abbrev pub topic_exists : String → Exec Broker Bool
topic_exists topic = with_mu (λ b. (ret (has_key topic b.topics), b))

-- the call of SubmitCommand after it, an error of which is only printed
abbrev pub submit_delayed : Select → Delayed → Bool → Exec Broker (Unit {0})
submit_delayed select msg false = λ b. (ret tt, b)
submit_delayed select msg true = do
  reply ← on_raft (submit_command select msg.topic msg.partition msg.payload)
  λ b. (ret tt, b)

-- a round that takes a message; other goroutines may run between its two parts
unfoldable pub deliver_delayed : Select → Delayed → Exec Broker (Unit {0})
deliver_delayed select msg = topic_exists msg.topic >>= submit_delayed select msg

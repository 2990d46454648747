-- ===== src/Examples/Client.antt =====
-- The sample clients (samples/go-consumer/main.go and samples/go-producer/main.go) at small inputs.
use distributed_mq.Prelude.{
  All, ℕ, ◌+◌, ◌<◌, ◌≡◌, refl, Bool, true, false, none, some, List, [], ◌∷◌, ◌++◌, arith,
}
use distributed_mq.Prelude.{nat_eq, string_eq}
use distributed_mq.Prelude.Int.{pos, signed}
use distributed_mq.Prelude.Map.{get_or}
use distributed_mq.Go.{ret}
use distributed_mq.Storage.{SparseIndex}
use distributed_mq.Wire.{resp_error, send_response, FetchedMessage, fetch_response}
use distributed_mq.Broker.{Message}
use distributed_mq.Broker.Log.{entries_after, fetch_loop}
use distributed_mq.Client.Consumer.{
  FetchError, FetchResult, fetch_failed, read_reply, Consumer, consume_round,
}
use distributed_mq.Client.Replies.{all_read, fetch_response-read_reply, error_misread}
use distributed_mq.Client.Skips.{behind_lost}
use distributed_mq.Client.Producer.{SendResult, sent, Sending, send_all, no_counts}
use distributed_mq.Client.Tally.{total, send_all-total}
use distributed_mq.Examples.Broker.{empty_log}

abbrev two_messages : List FetchedMessage
two_messages =
    (record { offset = 22; timestamp = 5; value = 1 ∷ 2 ∷ [] })
    ∷ (record { offset = 44; timestamp = 6; value = [] })
    ∷ []

fetch_response-read_reply_example :
    read_reply (fetch_response two_messages 45 ++ 9 ∷ []) ≡ all_read two_messages 45 (9 ∷ [])
fetch_response-read_reply_example =
    fetch_response-read_reply two_messages 45 (9 ∷ []) (omega arith) (omega arith) (omega arith)

abbrev twelve_bytes : List ℕ
twelve_bytes = 0 ∷ 1 ∷ 2 ∷ 3 ∷ 4 ∷ 5 ∷ 6 ∷ 7 ∷ 8 ∷ 9 ∷ 10 ∷ 11 ∷ []

error_misread_example :
    (read_reply (send_response resp_error "" 0 ++ (twelve_bytes ++ 7 ∷ []))
      ≡ fetch_failed FetchError.server_error (some (7 ∷ [])))
    × (read_reply (send_response resp_error "" 0) ≡ fetch_failed FetchError.network_error none)
error_misread_example = error_misread twelve_bytes (7 ∷ []) refl

abbrev joined : Consumer
joined = record { topic = "orders"; assignments = 0 ∷ []; offsets = (0, 0) ∷ []; conn_cache = [] }

-- the message at 44 came, and the one at 22 did not
abbrev one_message : FetchResult
one_message = record {
  messages = (record { offset = 44; timestamp = 6; value = [] }) ∷ [];
  high_watermark = 23;
  error = none;
  conn = some [];
}

abbrev index_44_22 : SparseIndex
index_44_22 =
    (44, record { offset = 44; size = 0; timestamp = 6 })
    ∷ (22, record { offset = 22; size = 2; timestamp = 5 })
    ∷ []

behind_lost_example :
    ((consume_round 0 one_message joined).0 ≡ some 45)
    × (get_or 0 0 (consume_round 0 one_message joined).1.offsets ≡ 45)
    × All
        (λ (msg : Message). 45 < msg.offset)
        (fetch_loop "orders"
          (pos 0)
          empty_log
          (pos 100)
          0
          false
          (entries_after (signed 64 45) index_44_22))
behind_lost_example =
    behind_lost 0 one_message (record { offset = 44; timestamp = 6; value = [] }) joined "orders"
      (pos 0) empty_log (pos 100) index_44_22 refl refl (omega arith)

abbrev batches : List (Bool × List Sending)
batches =
    (true, (sent, sent) ∷ (SendResult.redirect "b:9092", sent) ∷ [])
    ∷ (true, (SendResult.server_error, sent) ∷ [])
    ∷ []

send_all-total_example :
    ((send_all batches (no_counts, true)).0 ≡ ret tt)
    × ((send_all batches (no_counts, true)).1.1 ≡ true)
    × (total (send_all batches (no_counts, true)).1.0 ≡ 0 + 3)
send_all-total_example = send_all-total batches no_counts (refl, (refl, tt))

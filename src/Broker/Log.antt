-- ===== src/Broker/Log.antt =====
-- What a broker keeps of the entries that its Raft node delivers, and how consumers read it:
-- getOrCreateTopicPartition, applyBatch, Consume and Fetch of cluster/go/broker/broker.go. Sizes of
-- messages are below 2 ^ 31.
pub mod Refine
pub mod Deliver
pub mod Reading
pub mod Fetching
use distributed_mq.Prelude.{
  if◌then◌else◌, length, last?, ℕ, ◌+◌, String, Bool, true, false, ◌&&◌, Option, none, some, List,
  [], ◌∷◌,
}
use distributed_mq.Prelude.{nat_eq, string_eq}
use distributed_mq.Prelude.Int.{ℤ, pos, negsuc, signed, above}
use distributed_mq.Prelude.Map.{values, lookup, insert}
use distributed_mq.Go.{ret, panic, Exec, ◌>>=◌, ◌>>◌}
use distributed_mq.Raft.{LogEntry}
use distributed_mq.Storage.{
  CommitLog, FileWrites, append, read, IndexEntry, SparseIndex, put, get_entries_after,
}
use distributed_mq.Namespace.{Action, check_permission}
use distributed_mq.NameServer.{Response, success}
use distributed_mq.Broker.{Message, TopicPartition, Broker, with_mu, topic_key}

-- What the outside does to one entry of a batch: the commit log that OpenCommitLog opens, where it is
-- needed, none for an error; the calls of the file system in Append; the two reads of the clock.
pub record ApplyEnv : Type 0 where
  pub opened : Option CommitLog
  pub disk : FileWrites
  pub append_time : ℕ
  pub put_time : ℕ

-- getOrCreateTopicPartition; an error of OpenCommitLog is a panic, and OpenSparseIndex gives an
-- empty index
unfoldable pub get_or_create_topic_partition :
    Option CommitLog → String → ℤ → Exec Broker TopicPartition
get_or_create_topic_partition opened topic partition b =
    elim (lookup (topic_key topic partition) b.topics) [
      | some tp ↦ (ret tp, b)
      | none ↦ elim opened [
        | none ↦ (panic, b)
        | some cl ↦
            let tp : TopicPartition = record {
              topic = topic;
              partition = partition;
              commit_log = cl;
              index = [];
            } in
            (ret tp, record b { topics = insert (topic_key topic partition) tp b.topics })
      ]
    ]

-- after an error of Append nothing is put
abbrev pub appended : ApplyEnv → List ℕ → TopicPartition → Option ℕ × CommitLog → TopicPartition
appended env payload tp (none, cl) = record tp { commit_log = cl }
appended env payload tp (some offset, cl) = record tp {
  commit_log = cl;
  index = put offset (length payload) env.put_time tp.index;
}

-- Append and Put on a topic partition
unfoldable pub append_to : ApplyEnv → List ℕ → TopicPartition → TopicPartition
append_to env payload tp =
    appended env payload tp (append env.disk env.append_time payload tp.commit_log)

-- what a round writes back through the pointer that it got
abbrev pub append_entry : ApplyEnv → LogEntry → TopicPartition → Exec Broker (Unit {0})
append_entry env entry tp b = (
  ret tt,
  record b {
    topics =
        insert (topic_key entry.topic (signed 32 entry.partition)) (append_to env entry.payload tp)
          b.topics;
  },
)

-- a round of the loop of applyBatch
unfoldable pub apply_entry : ApplyEnv → LogEntry → Exec Broker (Unit {0})
unfolding get_or_create_topic_partition append_to
apply_entry env entry =
    get_or_create_topic_partition env.opened entry.topic (signed 32 entry.partition)
    >>= append_entry env entry

-- the loop
unfoldable pub apply_entries : List (ApplyEnv × LogEntry) → Exec Broker (Unit {0})
unfolding apply_entry
apply_entries [] b = (ret tt, b)
apply_entries ((env, entry) ∷ batch) b = (apply_entry env entry >> apply_entries batch) b

-- applyBatch; the calls of Sync after the loop leave the contents of the files as they are
unfoldable pub apply_batch : List (ApplyEnv × LogEntry) → Exec Broker (Unit {0})
unfolding apply_entries
apply_batch batch = with_mu (apply_entries batch)

-- GetEntriesAfter for an int64; each offset is above a negative one
abbrev pub entries_after : ℤ → SparseIndex → List IndexEntry
entries_after (pos n) idx = get_entries_after n idx
entries_after (negsuc n) idx = values idx

-- the message of an entry that was read
abbrev pub read_message : String → ℤ → IndexEntry → List ℕ → Message
read_message topic partition e bytes = record {
  topic = topic;
  partition = partition;
  key = "";
  value = bytes;
  offset = e.offset;
  timestamp = e.timestamp;
}

-- the loop of Consume
unfoldable pub consume_loop : String → ℤ → CommitLog → List IndexEntry → List Message
consume_loop topic partition cl [] = []
consume_loop topic partition cl (e ∷ es) =
    let rest = consume_loop topic partition cl es in
    elim (read e.offset e.size cl) [
      | none ↦ rest
      | some bytes ↦ read_message topic partition e bytes ∷ rest
    ]

-- what Consume returns: messages, or one of its errors
pub data Consumed : Type 0 where
  consumed : List Message → Consumed
  no_permission_check permission_denied partition_missing : Consumed

-- the part of Consume under the mutex
unfoldable pub consume_locked : String → ℤ → ℤ → Exec Broker Consumed
unfolding consume_loop
consume_locked topic partition offset b = (
  ret (elim (lookup (topic_key topic partition) b.topics) [
    | none ↦ partition_missing
    | some tp ↦
        consumed (consume_loop topic partition tp.commit_log (entries_after offset tp.index))
  ]),
  b,
)

-- Consume
unfoldable pub consume : String → ℤ → ℤ → String → Exec Broker Consumed
unfolding consume_locked
consume topic partition offset user_id b =
    elim (check_permission user_id topic Action.consume b.namespace_manager) [
      | none ↦ (ret no_permission_check, b)
      | some allowed ↦
          if allowed
          then with_mu (consume_locked topic partition offset) b
          else (ret permission_denied, b)
    ]

-- the loop of Fetch, with `totalBytes`, and whether there are messages already
unfoldable pub fetch_loop :
    String → ℤ → CommitLog → ℤ → (total : ℕ) → (any : Bool) → List IndexEntry → List Message
fetch_loop topic partition cl max_bytes total any [] = []
fetch_loop topic partition cl max_bytes total any (e ∷ es) =
    elim (above (total + e.size) max_bytes && any) [
      | true ↦ []
      | false ↦ elim (read e.offset e.size cl) [
        | none ↦ fetch_loop topic partition cl max_bytes total any es
        | some bytes ↦
            read_message topic partition e bytes
            ∷ fetch_loop topic partition cl max_bytes (total + e.size) true es
      ]
    ]

-- `highWatermark`
abbrev pub high_watermark : List IndexEntry → ℕ
high_watermark es = elim (last? es) [ none ↦ 0 | some e ↦ e.offset + 1 ]

-- Fetch under the mutex, none where the partition is missing
unfoldable pub fetch_locked : String → ℤ → ℤ → ℤ → Exec Broker (Option (List Message × ℕ))
unfolding fetch_loop
fetch_locked topic partition offset max_bytes b = (
  ret (elim (lookup (topic_key topic partition) b.topics) [
    | none ↦ none
    | some tp ↦
        let es = entries_after offset tp.index in
        some (fetch_loop topic partition tp.commit_log max_bytes 0 false es, high_watermark es)
  ]),
  b,
)

-- Fetch
unfoldable pub fetch : String → ℤ → ℤ → ℤ → Exec Broker (Option (List Message × ℕ))
unfolding fetch_locked
fetch topic partition offset max_bytes = with_mu (fetch_locked topic partition offset max_bytes)

-- the body of a request to /consume: not JSON, or read
pub data ConsumeForm : Type 0 where
  bad_form : ConsumeForm
  consume_form : (topic : String) → (partition offset : ℤ) → ConsumeForm

abbrev pub consumed_response : Consumed → Response (List Message)
consumed_response (consumed msgs) = success msgs
consumed_response _ = Response.internal_error

-- handleConsume, which names no user
unfoldable pub handle_consume : ConsumeForm → Exec Broker (Response (List Message))
unfolding consume
handle_consume bad_form b = (ret Response.bad_request, b)
handle_consume (consume_form topic partition offset) b =
    (consume topic partition offset "" >>= λ result b'. (ret (consumed_response result), b')) b

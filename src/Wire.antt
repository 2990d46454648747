-- ===== src/Wire.antt =====
-- The protocol between clients and brokers over TCP: the requests that sendMessage of
-- samples/go-producer/main.go and fetch of samples/go-consumer/main.go write and handleClient of
-- cluster/go/broker/broker.go reads, and the responses of the broker. A connection is the list of
-- the bytes that the other side sends on it until it closes it. Each number in a frame is
-- given by its bit pattern.
pub mod Requests
use distributed_mq.Prelude.{
  if◌then◌else◌, ◌==◌, length, take, drop, ℕ, ◌%◌, String, ◌&&◌, not, Option, none, some, List, [],
  ◌∷◌, ◌++◌,
}
use distributed_mq.Prelude.{nat_eq, string_eq}
use distributed_mq.Prelude.Bytes.{bytes_of, text_of, read_full, decode}
use distributed_mq.Storage.{big_endian}

abbrev pub magic : ℕ
magic = 0xD0

-- the commands
abbrev pub cmd_produce : ℕ
cmd_produce = 1

abbrev pub cmd_fetch : ℕ
cmd_fetch = 2

abbrev pub cmd_join_group : ℕ
cmd_join_group = 3

abbrev pub cmd_heartbeat : ℕ
cmd_heartbeat = 4

abbrev pub cmd_commit_offset : ℕ
cmd_commit_offset = 5

abbrev pub cmd_leave_group : ℕ
cmd_leave_group = 6

abbrev pub cmd_ack : ℕ
cmd_ack = 7

-- the statuses of a response
abbrev pub resp_success : ℕ
resp_success = 0

abbrev pub resp_redirect : ℕ
resp_redirect = 1

abbrev pub resp_dlq : ℕ
resp_dlq = 2

abbrev pub resp_retried : ℕ
resp_retried = 3

abbrev pub resp_error : ℕ
resp_error = 0xFF

pub record Request : Type 0 where
  pub cmd_id : ℕ
  pub topic : String
  pub partition : ℕ  -- the bit pattern of an int32
  pub payload : List ℕ

-- the header of 12 bytes; the conversions to uint16 and uint32 wrap
abbrev pub request_header : (cmd_id topic_len partition data_len : ℕ) → List ℕ
request_header cmd_id topic_len partition data_len =
    magic ∷ cmd_id ∷ (big_endian 2 topic_len ++ (big_endian 4 partition ++ big_endian 4 data_len))

-- the three writes of a client
unfoldable pub request_bytes : Request → List ℕ
request_bytes q =
    request_header q.cmd_id (length (bytes_of q.topic)) q.partition (length q.payload)
    ++ (bytes_of q.topic ++ q.payload)

-- a big-endian number of `n` bytes in a header
abbrev pub field : (i n : ℕ) → List ℕ → ℕ
field i n header = decode (take n (drop i header))

-- the part of a round of handleClient after the header was read
unfoldable pub read_body : (header after : List ℕ) → Option (Request × List ℕ)
read_body header after = elim (read_full (field 2 2 header) after) [
  | none ↦ none
  | some (topic, after_topic) ↦ elim (read_full (field 8 4 header) after_topic) [
    | none ↦ none
    | some (payload, rest) ↦ some (
      record {
        cmd_id = field 1 1 header;
        topic = text_of topic;
        partition = field 4 4 header;
        payload = payload;
      },
      rest,
    )
  ]
]

-- what a round of handleClient reads: the request and the rest of the connection, or none where it
-- returns
unfoldable pub next_request : List ℕ → Option (Request × List ℕ)
unfolding read_body
next_request s = elim (read_full 12 s) [
  | none ↦ none
  | some (header, after) ↦ if field 0 1 header == magic then read_body header after else none
]

-- sendResponse
unfoldable pub send_response : (status : ℕ) → (leader : String) → (offset : ℕ) → List ℕ
send_response status leader offset =
    magic
    ∷ status
    ∷ ((if status == resp_redirect && not (leader == "")
          then length (bytes_of leader) % 256 ∷ bytes_of leader
          else [])
        ++ (if status == resp_success then big_endian 8 offset else []))

-- a message of a response to a fetch; its offset and timestamp are those of an int64
pub record FetchedMessage : Type 0 where
  pub offset : ℕ
  pub timestamp : ℕ
  pub value : List ℕ

-- `entryBuf`
unfoldable pub entry_bytes : FetchedMessage → List ℕ
entry_bytes e =
    (big_endian 8 e.offset ++ (big_endian 8 e.timestamp ++ big_endian 4 (length e.value)))
    ++ e.value

-- `responseData`
unfoldable pub entries_bytes : List FetchedMessage → List ℕ
unfolding entry_bytes
entries_bytes [] = []
entries_bytes (e ∷ es) = entry_bytes e ++ entries_bytes es

-- `respBuf` of handleTCPFetch
unfoldable pub fetch_response : List FetchedMessage → (high_watermark : ℕ) → List ℕ
unfolding entries_bytes
fetch_response es high_watermark =
    (magic ∷ resp_success ∷ (big_endian 8 high_watermark ++ big_endian 4 (length es)))
    ++ entries_bytes es

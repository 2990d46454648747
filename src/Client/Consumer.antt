-- ===== src/Client/Consumer.antt =====
-- The consumer, samples/go-consumer/main.go, and the fetch of samples/go-dlq-consumer/main.go, which
-- differs in that it keeps its connection after each error. Offsets are the bit patterns of int64. A
-- connection is the list of the bytes that wait to be read on it.
use distributed_mq.Prelude.{
  leb, if◌then◌else◌, ◌==◌, length, ℕ, zero, suc, ◌+◌, ◌%◌, ◌^◌, String, Bool, true, false, not,
  Option, none, some, List, [], ◌∷◌, ◌++◌,
}
use distributed_mq.Prelude.{nat_eq, string_eq}
use distributed_mq.Prelude.Bytes.{text_of, read_full, decode}
use distributed_mq.Prelude.Map.{Map, lookup, insert, delete, get_or}
use distributed_mq.Storage.{big_endian}
use distributed_mq.Wire.{
  magic, cmd_fetch, resp_success, resp_redirect, resp_error, Request, field, FetchedMessage,
}

-- what fetch writes
unfoldable pub fetch_request : String → ℕ → (offset max_bytes : ℕ) → Request
fetch_request topic partition offset max_bytes = record {
  cmd_id = cmd_fetch;
  topic = topic;
  partition = partition;
  payload = big_endian 8 offset ++ big_endian 4 max_bytes;
}

-- the errors of fetch
pub data FetchError : Type 0 where
  network_error invalid_magic no_leader_length no_leader_address : FetchError
  redirect : String → FetchError
  server_error unknown_status : FetchError

-- what fetch returns, and the connection where it keeps it
pub record FetchResult : Type 0 where
  pub messages : List FetchedMessage
  pub high_watermark : ℕ
  pub error : Option FetchError
  pub conn : Option (List ℕ)

abbrev pub fetch_failed : FetchError → Option (List ℕ) → FetchResult
fetch_failed error conn = record {
  messages = [];
  high_watermark = 0;
  error = some error;
  conn = conn;
}

abbrev pub with_message : FetchedMessage → FetchResult → FetchResult
with_message msg r = record r { messages = msg ∷ r.messages }

-- the loop over the messages; a short read ends it with the messages before it
unfoldable pub read_messages : (count high_watermark : ℕ) → List ℕ → FetchResult
read_messages zero mark s = record {
  messages = [];
  high_watermark = mark;
  error = none;
  conn = some s;
}
read_messages (suc count) mark s = elim (read_full 20 s) [
  | none ↦ record { messages = []; high_watermark = mark; error = some network_error; conn = none }
  | some (header, after) ↦ elim (read_full (field 16 4 header) after) [
    | none ↦ record {
      messages = [];
      high_watermark = mark;
      error = some network_error;
      conn = none;
    }
    | some (value, rest) ↦
        with_message
          (record { offset = field 0 8 header; timestamp = field 8 8 header; value = value })
          (read_messages count mark rest)
  ]
]

-- the case of RespRedirect; the bytes of the header behind the status are read already
abbrev pub read_redirect : List ℕ → FetchResult
read_redirect after = elim (read_full 1 after) [
  | none ↦ fetch_failed no_leader_length none
  | some (leader_len, after_len) ↦ elim (read_full (decode leader_len) after_len) [
    | none ↦ fetch_failed no_leader_address none
    | some (addr, rest) ↦ fetch_failed (redirect (text_of addr)) none
  ]
]

-- fetch from the response on
unfoldable pub read_reply : List ℕ → FetchResult
unfolding read_messages
read_reply s = elim (read_full 14 s) [
  | none ↦ fetch_failed network_error none
  | some (header, after) ↦
      if not (field 0 1 header == magic)
      then fetch_failed invalid_magic (some after)
      else if field 1 1 header == resp_success
      then read_messages (field 10 4 header) (field 2 8 header) after
      else if field 1 1 header == resp_redirect
      then read_redirect after
      else if field 1 1 header == resp_error
      then fetch_failed server_error (some after)
      else fetch_failed unknown_status (some after)
]

pub record Consumer : Type 0 where
  pub topic : String
  pub assignments : List ℕ
  pub offsets : Map ℕ ℕ
  pub conn_cache : Map ℕ (List ℕ)

-- NewConsumer
abbrev pub new_consumer : String → Consumer
new_consumer topic = record { topic = topic; assignments = []; offsets = []; conn_cache = [] }

-- `sort.Ints`
abbrev pub insert_int : ℕ → List ℕ → List ℕ
insert_int n [] = n ∷ []
insert_int n (m ∷ ms) = let later = m ∷ insert_int n ms in if leb n m then n ∷ m ∷ ms else later

abbrev pub sort_ints : List ℕ → List ℕ
sort_ints [] = []
sort_ints (n ∷ ns) = insert_int n (sort_ints ns)

-- the loop of JoinGroup; getOffset gives an offset, or an error, which counts as 0
unfoldable pub load_offsets : List ℕ → (ℕ → Option ℕ) → Map ℕ ℕ → Map ℕ ℕ
load_offsets [] answer offsets = offsets
load_offsets (p ∷ ps) answer offsets =
    load_offsets ps answer (insert p (elim (answer p) [ none ↦ 0 | some n ↦ n ]) offsets)

-- JoinGroup with the assignments of the answer, none for an error; true where it returns no error
unfoldable pub join_group : Option (List ℕ) → (ℕ → Option ℕ) → Consumer → Bool × Consumer
unfolding load_offsets
join_group none answer c = (false, c)
join_group (some given) answer c = (
  true,
  record c {
    assignments = sort_ints given;
    offsets = load_offsets (sort_ints given) answer c.offsets;
  },
)

-- What the outside does to one fetch: the answer for the leader with net.Dial, whether the three writes
-- succeed, and the bytes that come.
pub record FetchEnv : Type 0 where
  pub dialed : Bool
  pub written : Bool
  pub arrives : List ℕ

-- getConn, none for an error
abbrev pub get_conn : FetchEnv → ℕ → Consumer → Option (List ℕ)
get_conn env partition c = elim (lookup partition c.conn_cache) [
  | some conn ↦ some conn
  | none ↦ if env.dialed then some [] else none
]

-- the connection of a partition after a fetch
abbrev pub keep_conn : ℕ → Option (List ℕ) → Consumer → Consumer
keep_conn partition none c = record c { conn_cache = delete partition c.conn_cache }
keep_conn partition (some conn) c = record c { conn_cache = insert partition conn c.conn_cache }

-- fetch
unfoldable pub fetch_from : FetchEnv → ℕ → Consumer → FetchResult × Consumer
unfolding read_reply
fetch_from env partition c = elim (get_conn env partition c) [
  | none ↦ (fetch_failed network_error none, c)
  | some conn ↦
      if env.written
      then (let r = read_reply (conn ++ env.arrives) in (r, keep_conn partition r.conn c))
      else (fetch_failed network_error none, keep_conn partition none c)
]

-- the loop over the messages of a round: `c.offsets[partition] = msg.Offset + 1`
unfoldable pub advance : List FetchedMessage → ℕ → ℕ
advance [] offset = offset
advance (msg ∷ msgs) offset = advance msgs ((msg.offset + 1) % 2 ^ 64)

-- what a round of consumePartition does with the result: the new state, and the offset that it commits
unfoldable pub consume_round : ℕ → FetchResult → Consumer → Option ℕ × Consumer
unfolding advance
consume_round partition r c = elim r.error [
  | some error ↦ (none, c)
  | none ↦
      if length r.messages == 0
      then (none, c)
      else (let latest = advance r.messages (get_or partition 0 c.offsets) in
          (some latest, record c { offsets = insert partition latest c.offsets }))
]

-- Stop, as far as the state goes
abbrev pub stop_consumer : Consumer → Consumer
stop_consumer c = record c { conn_cache = [] }

-- the fetch of the DLQ consumer, which goes on with the same connection, where a short read has taken
-- what was there
unfoldable pub dlq_fetch : List ℕ → FetchResult × List ℕ
unfolding read_reply
dlq_fetch s = let r = read_reply s in (r, elim r.conn [ none ↦ [] | some rest ↦ rest ])

-- a round of the loop of its main: the next offset
abbrev pub dlq_round : FetchResult → ℕ → ℕ
dlq_round r offset = elim r.error [ some error ↦ offset | none ↦ advance r.messages offset ]

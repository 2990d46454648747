-- ===== src/Broker/Tcp.antt =====
-- The handlers of produce and fetch requests over TCP: handleTCPProduce, handleTCPFetch,
-- GetPartitionLeader and IsPartitionLeader of cluster/go/broker/broker.go.
use distributed_mq.Prelude.{
  ltb, leb, if◌then◌else◌, ◌==◌, length, take, drop, ℕ, ◌*◌, String, Bool, true, false, Option,
  none, some, List, [], ◌∷◌, map,
}
use distributed_mq.Prelude.{nat_eq, string_eq}
use distributed_mq.Prelude.Int.{ℤ, pos, signed}
use distributed_mq.Prelude.Bytes.{decode}
use distributed_mq.Go.{Outcome, ret, Exec, ◌>>=◌}
use distributed_mq.Raft.Commit.{Select, Submitted, refused, submitted, submit_command}
use distributed_mq.Raft.Roles.{is_leader, get_state}
use distributed_mq.Raft.{}
use distributed_mq.Audit.{AuditLogger, log_produce, log_consume}
use distributed_mq.Wire.{
  resp_success, resp_redirect, resp_error, send_response, FetchedMessage, fetch_response,
}
use distributed_mq.Broker.{Message, Broker, on_raft}
use distributed_mq.Broker.Log.{fetch}
use distributed_mq.Broker.Produce.{RouteReply, get_route}

-- GetPartitionLeader, which asks for the route of the topic with an empty key and drops the partition
unfoldable pub get_partition_leader : String → ℤ → RouteReply → Option String
unfolding get_route
get_partition_leader topic partition reply = elim (get_route reply) [
  | none ↦ none
  | some route ↦ some route.leader
]

-- IsPartitionLeader
unfoldable pub is_partition_leader : String → ℤ → Exec Broker Bool
is_partition_leader topic partition = do
  state ← on_raft get_state
  λ b. (ret (is_leader state.0), b)

-- What the outside says to one call: the two answers of the name server, the scheduler's choices in
-- SubmitCommand, and the address of the client.
pub record TcpEnv : Type 0 where
  pub first_route : RouteReply
  pub second_route : RouteReply
  pub select : Select
  pub client_ip : String

-- where handleTCPProduce stands: it has replied, or it waits for the channel of an entry
pub data ProduceStep : Type 0 where
  replied : List ℕ → ProduceStep
  waiting : (index chan size : ℕ) → ProduceStep

-- the end of handleTCPProduce: the audit log and the response
unfoldable pub finish_produce : String → String → ℤ → (index size : ℕ) → Broker → List ℕ × Broker
finish_produce client_ip topic partition index size b = (
  send_response resp_success "" index,
  record b { audit_logger = log_produce client_ip topic partition 0 size b.audit_logger },
)

-- `acks` as a byte, where -1 is 255, and `msgData`
abbrev pub split_acks : List ℕ → ℕ × List ℕ
split_acks [] = (1, [])
split_acks (acks ∷ msg) = (acks, msg)

abbrev pub reply_with : List ℕ × Broker → Outcome ProduceStep × Broker
reply_with (bytes, b) = (ret (replied bytes), b)

-- what follows SubmitCommand
abbrev pub after_submit :
    TcpEnv → String → ℕ → (acks size : ℕ) → Submitted → Exec Broker ProduceStep
after_submit env topic partition acks size refused b =
    (ret (replied (send_response resp_error "" 0)), b)
after_submit env topic partition acks size (submitted index chan) b =
    if acks == 255
    then (ret (waiting index chan size), b)
    else reply_with (finish_produce env.client_ip topic (signed 32 partition) index size b)

-- the part of handleTCPProduce from SubmitCommand to the wait
unfoldable pub submit_tcp : TcpEnv → String → ℕ → List ℕ → Exec Broker ProduceStep
unfolding finish_produce
submit_tcp env topic partition payload =
    let (acks, msg) = split_acks payload in
    on_raft (submit_command env.select topic partition msg)
    >>= after_submit env topic partition acks (length msg)

-- the redirect of a broker whose Raft node does not lead
abbrev pub second_redirect : String → Option String → List ℕ
second_redirect first none = send_response resp_redirect first 0
second_redirect first (some newer) = send_response resp_redirect newer 0

-- what follows IsPartitionLeader; where the node does not lead, the name server is asked again
abbrev pub after_check :
    TcpEnv → String → ℕ → List ℕ → (first : String) → Bool → Exec Broker ProduceStep
after_check env topic partition payload first true = submit_tcp env topic partition payload
after_check env topic partition payload first false = λ b. (
  ret (
      replied (
        second_redirect first (get_partition_leader topic (signed 32 partition) env.second_route))),
  b,
)

-- handleTCPProduce up to the wait
unfoldable pub handle_tcp_produce : TcpEnv → String → ℕ → List ℕ → Exec Broker ProduceStep
unfolding get_partition_leader is_partition_leader submit_tcp
handle_tcp_produce env topic partition payload b =
    elim (get_partition_leader topic (signed 32 partition) env.first_route) [
      | none ↦ (ret (replied (send_response resp_error "" 0)), b)
      | some first ↦
          if first == b.client_addr
          then (is_partition_leader topic (signed 32 partition)
                >>= after_check env topic partition payload first)
              b
          else (ret (replied (send_response resp_redirect first 0)), b)
    ]

-- handleTCPProduce after the wait, which ends by the channel or after 5 seconds
unfoldable pub after_wait :
    (committed : Bool) → String → String → ℤ → (index size : ℕ) → Broker → List ℕ × Broker
unfolding finish_produce
after_wait true client_ip topic partition index size b =
    finish_produce client_ip topic partition index size b
after_wait false client_ip topic partition index size b = (send_response resp_error "" 0, b)

abbrev pub fetched_message : Message → FetchedMessage
fetched_message msg = record { offset = msg.offset; timestamp = msg.timestamp; value = msg.value }

-- the loop over the messages for the audit log
unfoldable pub audit_consumed : String → String → ℤ → List Message → AuditLogger → AuditLogger
audit_consumed client_ip topic partition [] a = a
audit_consumed client_ip topic partition (msg ∷ msgs) a =
    audit_consumed client_ip topic partition msgs
      (log_consume client_ip topic partition msg.offset "" (length msg.value) a)

-- `maxBytes`
abbrev pub max_bytes_of : List ℕ → ℤ
max_bytes_of payload =
    if leb 12 (length payload)
    then signed 32 (decode (take 4 (drop 8 payload)))
    else pos (1024 * 1024)

-- the end of handleTCPFetch
unfoldable pub fetch_reply : String → String → ℤ → Option (List Message × ℕ) → Exec Broker (List ℕ)
unfolding audit_consumed
fetch_reply client_ip topic partition none b = (ret (send_response resp_error "" 0), b)
fetch_reply client_ip topic partition (some (msgs, mark)) b = (
  ret (fetch_response (map fetched_message msgs) mark),
  record b { audit_logger = audit_consumed client_ip topic partition msgs b.audit_logger },
)

-- handleTCPFetch
unfoldable pub handle_tcp_fetch : String → String → ℕ → List ℕ → Exec Broker (List ℕ)
unfolding fetch_reply
handle_tcp_fetch client_ip topic partition payload b =
    if ltb (length payload) 8
    then (ret (send_response resp_error "" 0), b)
    else (fetch topic (signed 32 partition) (signed 64 (decode (take 8 payload)))
            (max_bytes_of payload)
          >>= fetch_reply client_ip topic (signed 32 partition))
        b

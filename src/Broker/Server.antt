-- ===== src/Broker/Server.antt =====
-- The connections of a broker: handleClient of cluster/go/broker/broker.go, and the handlers that
-- pass a request of a consumer group on to the name server.
pub mod Handled
pub mod Serve
use distributed_mq.Prelude.{
  leb, if◌then◌else◌, ◌==◌, ℕ, zero, suc, ◌+◌, String, Bool, ◌&&◌, Option, none, some, List, [],
  ◌∷◌, ◌++◌,
}
use distributed_mq.Prelude.{nat_eq, string_eq}
use distributed_mq.Prelude.Int.{ℤ, signed}
use distributed_mq.Go.{Outcome, ret, panic, blocked, Exec, ◌>>=◌}
use distributed_mq.Wire.{
  magic, cmd_produce, cmd_fetch, cmd_join_group, cmd_heartbeat, cmd_commit_offset, cmd_leave_group,
  cmd_ack, resp_success, resp_error, Request, next_request, send_response,
}
use distributed_mq.Broker.{Broker}
use distributed_mq.Broker.Ack.{handle_tcp_ack}
use distributed_mq.Broker.Tcp.{
  TcpEnv, ProduceStep, replied, waiting, handle_tcp_produce, after_wait, handle_tcp_fetch,
}

-- The call of the name server that a request of a group makes, by the fields of its JSON.
pub data GroupCall : Type 0 where
  join : (group_id client_id topic : String) → GroupCall
  heartbeat leave : (group_id client_id : String) → GroupCall
  commit_offset : (group_id topic : String) → (partition offset : ℤ) → GroupCall

-- the fields that json.Unmarshal reads
pub record GroupFields : Type 0 where
  pub group_id : String
  pub client_id : String
  pub offset : ℤ

abbrev pub group_call : (cmd_id : ℕ) → String → ℕ → GroupFields → GroupCall
group_call cmd_id topic partition f =
    if cmd_id == cmd_join_group
    then join f.group_id f.client_id topic
    else if cmd_id == cmd_heartbeat
    then heartbeat f.group_id f.client_id
    else if cmd_id == cmd_commit_offset
    then commit_offset f.group_id topic (signed 32 partition) f.offset
    else leave f.group_id f.client_id

-- what http.Get comes to: an error, or an answer with its body
pub data HttpReply : Type 0 where
  http_error : HttpReply
  http_answer : (status_ok : Bool) → (body : List ℕ) → HttpReply

-- only the answer of a join passes the body on
abbrev pub body_of : (cmd_id : ℕ) → List ℕ → List ℕ
body_of cmd_id body = if cmd_id == cmd_join_group then body else []

-- handleTCPJoinGroup, handleTCPHeartbeat, handleTCPCommitOffset and handleTCPLeaveGroup, which are
-- the same but for the call and the body; the name server answers the call
unfoldable pub handle_tcp_group :
    (cmd_id : ℕ) → String → ℕ → Option GroupFields → (GroupCall → HttpReply) → List ℕ
handle_tcp_group cmd_id topic partition none name_server = send_response resp_error "" 0
handle_tcp_group cmd_id topic partition (some f) name_server =
    elim (name_server (group_call cmd_id topic partition f)) [
      | http_error ↦ send_response resp_error "" 0
      | http_answer status_ok body ↦
          magic ∷ (if status_ok then resp_success else resp_error) ∷ body_of cmd_id body
    ]

-- What the outside says to the handling of one request. `parsed` is what json.Unmarshal reads.
pub record RequestEnv : Type 0 where
  pub tcp : TcpEnv
  pub committed : Bool
  pub parsed : Option GroupFields
  pub name_server : GroupCall → HttpReply
  pub now : ℕ

-- the end of a produce request; while it waits, other goroutines run, which is `between`
abbrev pub end_produce :
    RequestEnv → (between : Broker → Broker) → Request → ProduceStep → Exec Broker (List ℕ)
end_produce env between q (replied bytes) b = (ret bytes, b)
end_produce env between q (waiting index chan size) b =
    let (bytes, b') =
      after_wait env.committed env.tcp.client_ip q.topic (signed 32 q.partition) index size
        (between b) in
    (ret bytes, b')

-- the switch of handleClient: what is written to the connection
unfoldable pub dispatch : RequestEnv → (Broker → Broker) → Request → Exec Broker (List ℕ)
unfolding handle_tcp_group
dispatch env between q b =
    if q.cmd_id == cmd_produce
    then (handle_tcp_produce env.tcp q.topic q.partition q.payload >>= end_produce env between q) b
    else if q.cmd_id == cmd_fetch
    then handle_tcp_fetch env.tcp.client_ip q.topic q.partition q.payload b
    else if q.cmd_id == cmd_ack
    then handle_tcp_ack env.tcp.select q.topic q.partition q.payload env.now b
    else if leb cmd_join_group q.cmd_id && leb q.cmd_id cmd_leave_group
    then (ret (handle_tcp_group q.cmd_id q.topic q.partition env.parsed env.name_server), b)
    else (ret [], b)

-- The world around a connection: for each request by its number what the outside says to it, and what
-- other goroutines do to the broker while it waits.
pub record World : Type 0 where
  pub env_at : ℕ → RequestEnv
  pub between_at : ℕ → Broker → Broker

-- Where a connection ends: closed with all that was written, or in a handler that panics or blocks for
-- ever, or out of fuel.
pub data Ending : Type 0 where
  closed : List ℕ → Ending
  crashed stuck out_of_fuel : Ending

-- what follows the handling of a request: the next round with what was written, or the end
abbrev pub next_round :
    (List ℕ → Broker → Ending × Broker) → Outcome (List ℕ) × Broker → Ending × Broker
next_round next (ret bytes, b) = next bytes b
next_round next (panic, b) = (crashed, b)
next_round next (blocked, b) = (stuck, b)

-- handleClient, from the request of the given number on; `sent` is what was written so far
unfoldable pub handle_client :
    (fuel : ℕ) → World → (number : ℕ) → (stream sent : List ℕ) → Broker → Ending × Broker
handle_client zero w number stream sent b = (out_of_fuel, b)
handle_client (suc fuel) w number stream sent b = elim (next_request stream) [
  | none ↦ (closed sent, b)
  | some (q, rest) ↦
      next_round (λ bytes. handle_client fuel w (number + 1) rest (sent ++ bytes))
        (dispatch (w.env_at number) (w.between_at number) q b)
]

-- ===== src/Broker/Produce.antt =====
-- How a broker takes messages: getRoute, Produce and handleTCPProduce of
-- cluster/go/broker/broker.go. What the name server answers is an argument. A sequence number is
-- counted from the least int64.
pub mod Gates
pub mod Retries
use distributed_mq.Prelude.{
  ltb, if◌then◌else◌, ◌==◌, length, ℕ, ◌-◌, ◌%◌, ◌^◌, String, not, Option, none, some, List, [],
  ◌∷◌,
}
use distributed_mq.Prelude.{nat_eq, string_eq}
use distributed_mq.Prelude.Int.{ℤ, pos, negsuc}
use distributed_mq.Prelude.Text.{dashed}
use distributed_mq.Go.{ret, Exec, ◌>>=◌}
use distributed_mq.NameServer.{
  PartitionInfo, Response, success, bad_request, internal_error, number,
}
use distributed_mq.Raft.Commit.{Select, Submitted, refused, submitted, submit_command}
use distributed_mq.Namespace.{Action, check_permission}
use distributed_mq.Idempotent.{
  Verdict, fresh, duplicate, other_partition, too_old, check_and_record,
}
use distributed_mq.Tracing.{
  TraceEventType, replicate, dlq, Detail, text, TraceEvent, Clock, start_trace, add_event,
}
use distributed_mq.Broker.{Message, Broker, on_raft}

pub record RouteInfo : Type 0 where
  pub topic : String
  pub partition : ℕ
  pub leader : String
  pub replicas : List String
  pub isr : List String

-- What a request to the name server comes to: http.Get fails, the status is not OK, or a body comes
-- that is read or is not.
pub data RouteReply : Type 0 where
  unreachable not_ok garbled : RouteReply
  answered : RouteInfo → RouteReply

-- the answer of handleRoute of cluster/go/nameserver/nameserver.go, sent as JSON
unfoldable pub route_reply : String → Response PartitionInfo → RouteReply
route_reply topic (success p) = answered (record {
  topic = topic;
  partition = p.partition_id;
  leader = p.leader;
  replicas = p.replicas;
  isr = p.isr;
})
route_reply topic _ = not_ok

-- getRoute; an error of json.Unmarshal is ignored, and leaves the zero values
unfoldable pub get_route : RouteReply → Option RouteInfo
get_route unreachable = none
get_route not_ok = none
get_route garbled =
    some (record { topic = ""; partition = 0; leader = ""; replicas = []; isr = [] })
get_route (answered route) = some route

-- what Produce returns: a message, or one of its errors
pub data Produced : Type 0 where
  produced : Message → Produced
  permission_unchecked permission_denied no_route : Produced
  not_leader : String → Produced
  sequence_refused not_submitted : Produced

-- the arguments of Produce
pub record Production : Type 0 where
  pub topic : String
  pub key : String
  pub value : List ℕ
  pub user_id : String
  pub producer_id : String
  pub seq_num : ℕ

-- what the outside says to one call: the answer of the name server, the scheduler's choices in
-- SubmitCommand, the number of traces that StartTrace reads, and the clock
pub record ProduceEnv : Type 0 where
  pub route : RouteReply
  pub select : Select
  pub seen : ℕ
  pub clock : Clock
  pub record_time : ℕ
  pub event_time : ℕ
  pub message_time : ℕ
  pub end_time : ℕ

abbrev pub message_of : Production → ℕ → ℕ → Message
message_of q partition now = record {
  topic = q.topic;
  partition = pos partition;
  key = q.key;
  value = q.value;
  offset = 0;
  timestamp = now;
}

abbrev pub seq_int : ℕ → ℤ
seq_int seq = if ltb seq (2 ^ 63) then negsuc (2 ^ 63 - 1 - seq) else pos (seq - 2 ^ 63)

abbrev pub produce_event : Production → ℕ → String → ℕ → TraceEvent
produce_event q partition addr now = record {
  timestamp = now;
  event_type = TraceEventType.produce;
  service = "broker";
  node_id = addr;
  details =
      ("topic", Detail.text q.topic)
      ∷ ("partition", Detail.number (pos partition))
      ∷ ("key", Detail.text q.key)
      ∷ ("size", Detail.number (pos (length q.value)))
      ∷ ("userID", Detail.text q.user_id)
      ∷ ("producerID", Detail.text q.producer_id)
      ∷ ("seqNum", Detail.number (seq_int q.seq_num))
      ∷ [];
}

-- the event after SubmitCommand; its only error is that the node is not the leader
abbrev pub submit_event : Submitted → String → ℕ → TraceEvent
submit_event refused addr now = record {
  timestamp = now;
  event_type = TraceEventType.dlq;
  service = "broker";
  node_id = addr;
  details = ("error", Detail.text "not leader") ∷ [];
}
submit_event (submitted index chan) addr now = record {
  timestamp = now;
  event_type = TraceEventType.replicate;
  service = "broker";
  node_id = addr;
  details = ("status", Detail.text "submitted") ∷ [];
}

abbrev pub trace : String → TraceEvent → Broker → Broker
trace id event b = record b { tracer = add_event id event b.tracer }

abbrev pub submit_outcome : Submitted → Message → Produced
submit_outcome refused msg = not_submitted
submit_outcome (submitted index chan) msg = produced msg

-- the end of Produce, after SubmitCommand
abbrev pub produce_end : ProduceEnv → Production → ℕ → String → Submitted → Exec Broker Produced
produce_end env q partition trace_id answer b = (
  ret (submit_outcome answer (message_of q partition env.message_time)),
  trace trace_id (submit_event answer b.addr env.end_time) b,
)

-- the part of Produce from StartTrace on
unfoldable pub produce_traced : ProduceEnv → Production → ℕ → Exec Broker Produced
produce_traced env q partition b =
    let (ctx, tracer) = start_trace q.topic partition env.seen env.clock b.tracer in
    (on_raft (submit_command env.select q.topic (partition % 2 ^ 32) q.value)
        >>= produce_end env q partition ctx.trace_id)
      (trace ctx.trace_id (produce_event q partition b.addr env.event_time)
        (record b { tracer = tracer }))

-- what follows the answer of CheckAndRecord
unfoldable pub produce_checked : Verdict → ProduceEnv → Production → ℕ → Exec Broker Produced
unfolding produce_traced
produce_checked fresh env q partition b = produce_traced env q partition b
produce_checked duplicate env q partition b =
    (ret (produced (message_of q partition env.message_time)), b)
produce_checked other_partition env q partition b = (ret sequence_refused, b)
produce_checked too_old env q partition b = (ret sequence_refused, b)

-- the part of Produce after the broker has found that it leads
unfoldable pub produce_led : ProduceEnv → Production → ℕ → Exec Broker Produced
unfolding produce_checked
produce_led env q partition b =
    if q.producer_id == ""
    then produce_traced env q partition b
    else (let (verdict, im) =
          check_and_record q.producer_id q.seq_num (dashed q.topic partition) env.record_time
            b.idempotent_mgr in
        produce_checked verdict env q partition (record b { idempotent_mgr = im }))

-- the part of Produce after the permission was given
unfoldable pub produce_allowed : ProduceEnv → Production → Exec Broker Produced
unfolding produce_led get_route
produce_allowed env q b = elim (get_route env.route) [
  | none ↦ (ret no_route, b)
  | some route ↦
      if route.leader == b.client_addr
      then produce_led env q route.partition b
      else (ret (not_leader route.leader), b)
]

-- Produce
unfoldable pub produce : ProduceEnv → Production → Exec Broker Produced
unfolding produce_allowed
produce env q b = elim (check_permission q.user_id q.topic Action.produce b.namespace_manager) [
  | none ↦ (ret permission_unchecked, b)
  | some allowed ↦ if allowed then produce_allowed env q b else (ret permission_denied, b)
]

-- the body of a request to /produce: not JSON, with a value that is not base64, or read; each field
-- that Produce is not given by it is empty
pub data ProduceForm : Type 0 where
  not_json not_base64 : ProduceForm
  produce_form : (topic key : String) → (value : List ℕ) → ProduceForm

abbrev pub produced_response : Produced → Response Message
produced_response (produced msg) = success msg
produced_response _ = Response.internal_error

-- handleProduce
unfoldable pub handle_produce : ProduceEnv → ProduceForm → Exec Broker (Response Message)
unfolding produce
handle_produce env not_json b = (ret Response.bad_request, b)
handle_produce env not_base64 b = (ret Response.bad_request, b)
handle_produce env (produce_form topic key value) b =
    (produce env (record {
      topic = topic;
      key = key;
      value = value;
      user_id = "";
      producer_id = "";
      seq_num = 2 ^ 63;
    })
        >>= λ result b'. (ret (produced_response result), b'))
      b

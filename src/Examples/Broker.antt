-- ===== src/Examples/Broker.antt =====
-- A broker (cluster/go/broker/broker.go) with a partition of the topic "orders".
use distributed_mq.Prelude.{
  str_iff, length, All, ℕ, ◌*◌, ◌<◌, ◌≡◌, refl, ◌≢◌, true, false, none, some, List, [], ◌∷◌, ◌++◌,
  map, arith,
}
use distributed_mq.Prelude.{nat_eq, string_eq}
use distributed_mq.Prelude.Int.{pos, negsuc}
use distributed_mq.Prelude.Text.{decimal, dashed}
use distributed_mq.Prelude.Bytes.{bytes_of}
use distributed_mq.Prelude.Map.{lookup, insert, get_or}
use distributed_mq.Go.{ret, blocked}
use distributed_mq.Raft.{data_entry, RaftNode}
use distributed_mq.Raft.Commit.{}
use distributed_mq.Storage.{CommitLog, complete}
use distributed_mq.Namespace.{Action, new_namespace_manager, check_permission}
use distributed_mq.Idempotent.{new_idempotent_manager, fresh, check_and_record}
use distributed_mq.Tracing.{new_tracer}
use distributed_mq.Wire.{resp_error, Request}
use distributed_mq.Wire.Requests.{Fits}
use distributed_mq.Broker.{RetryMessage, TopicPartition, Broker, topic_key}
use distributed_mq.Broker.Log.{consume, append_to, apply_batch, fetch_loop}
use distributed_mq.Broker.Log.Refine.{entry_of, later_than, message_at}
use distributed_mq.Broker.Log.Deliver.{Delivery, View, deliver_all, Keeps}
use distributed_mq.Broker.Log.Reading.{Reordered-same, Reads, apply_batch-consume}
use distributed_mq.Broker.Log.Fetching.{Limited, fetch_loop-sizes}
use distributed_mq.Broker.Produce.{
  produce, RouteInfo, RouteReply, unreachable, not_ok, answered, get_route, produced, not_submitted,
  Production, ProduceEnv, message_of,
}
use distributed_mq.Broker.Produce.Gates.{verdict_of, Passes, Untouched, produce-Untouched}
use distributed_mq.Broker.Produce.Retries.{Answered, verdict_for, produce_lem, retry_lost}
use distributed_mq.Broker.Ack.{process_retry_queue, respond, handle_tcp_ack}
use distributed_mq.Broker.Ack.Rounds.{waiting, retry_entry, resent, process_retry_queue_lem}
use distributed_mq.Broker.Ack.Nacks.{OnlyTopic, nack_refused, AllBlock, nack_stops}
use distributed_mq.Broker.Server.{http_error, World, out_of_fuel, handle_client}
use distributed_mq.Broker.Server.Serve.{
  handle_client_ends, Served, all_requests, handle_client_serves,
}
use distributed_mq.Examples.Raft.{node, all_sent, leading, alone}

abbrev pub empty_log : CommitLog
empty_log = record {
  files = [];
  segments = [];
  last_offset = 0;
  batch_buffer = [];
  batch_size = 100;
}

abbrev orders : TopicPartition
orders = record { topic = "orders"; partition = pos 0; commit_log = empty_log; index = [] }

abbrev broker_on : RaftNode → Broker
broker_on raft = record {
  locked = false;
  addr = "a";
  client_addr = "a:9092";
  topics = ("orders-0", orders) ∷ [];
  raft_node = raft;
  retry_queue = [];
  audit_logger = record { ch = []; log_file = [] };
  tracer = new_tracer 1000 300000000000;
  namespace_manager = new_namespace_manager;
  idempotent_mgr = new_idempotent_manager 10000 600000000000;
}

abbrev delivery : Delivery
delivery = (
  record { opened = some empty_log; disk = complete; append_time = 5; put_time = 6 },
  record {
    term = 1;
    index = 1;
    type = data_entry;
    topic = "orders";
    partition = 0;
    payload = 7 ∷ 8 ∷ [];
    config = none;
  },
)

abbrev no_messages : View
no_messages = record { next = 0; messages = [] }

orders_key : topic_key "orders" (pos 0) ≡ "orders-0"
unfolding topic_key dashed decimal
orders_key = refl

orders_found : lookup (topic_key "orders" (pos 0)) (broker_on leading).topics ≡ some orders
unfolding lookup topic_key dashed decimal
orders_found = refl

orders_kept : Keeps (topic_key "orders" (pos 0)) no_messages (broker_on leading)
unfolding lookup get_or
orders_kept = (orders, (orders_found, ((refl, tt), (omega arith, refl), refl)))

anyone_consumes :
    check_permission "u" "orders" Action.consume (broker_on leading).namespace_manager ≡ some true
unfolding check_permission lookup
anyone_consumes = refl

orders_next :
    (deliver_all (topic_key "orders" (pos 0)) (delivery ∷ []) no_messages).next < 1024 * 1024
unfolding deliver_all topic_key dashed decimal
orders_next = omega arith

orders_after :
    lookup (topic_key "orders" (pos 0)) (apply_batch (delivery ∷ []) (broker_on leading)).1.topics
    ≡ some (append_to delivery.0 (7 ∷ 8 ∷ []) orders)
unfolding apply_batch lookup insert topic_key dashed decimal
orders_after = refl

apply_batch-consume_example :
    ((apply_batch (delivery ∷ []) (broker_on leading)).0 ≡ ret tt)
    × Reads
        (map (message_at "orders" (pos 0)) (
          later_than
            (negsuc 0)
            (deliver_all (topic_key "orders" (pos 0)) (delivery ∷ []) no_messages).messages))
        (consume "orders"
          (pos 0)
          (negsuc 0)
          "u"
          (apply_batch (delivery ∷ []) (broker_on leading)).1).0
apply_batch-consume_example =
    apply_batch-consume "orders" "u" (pos 0) (negsuc 0) (delivery ∷ []) no_messages
      (broker_on leading) (apply_batch (delivery ∷ []) (broker_on leading)).1 refl anyone_consumes
      (((empty_log, refl), refl), tt) orders_kept orders_next
      (Reordered-same (topic_key "orders" (pos 0))
        (apply_batch (delivery ∷ []) (broker_on leading)).1
        (append_to delivery.0 (7 ∷ 8 ∷ []) orders) orders_after)

-- one message is read
message_read :
    map (message_at "orders" (pos 0)) (
      later_than
        (negsuc 0)
        (deliver_all (topic_key "orders" (pos 0)) (delivery ∷ []) no_messages).messages)
    ≡ (record {
      topic = "orders";
      partition = pos 0;
      key = "";
      value = 7 ∷ 8 ∷ [];
      offset = 0;
      timestamp = 6;
    })
      ∷ []
unfolding deliver_all topic_key dashed decimal
message_read = refl

fetch_loop-sizes_example : Limited 1 (
    fetch_loop "orders"
      (pos 0)
      empty_log
      (pos 1)
      0
      false
      (entry_of (record { offset = 0; timestamp = 1; bytes = 7 ∷ [] }) ∷ []))
fetch_loop-sizes_example = fetch_loop-sizes "orders" (pos 0) empty_log 1 _

abbrev route_here : RouteInfo
route_here = record {
  topic = "orders";
  partition = 0;
  leader = "a:9092";
  replicas = "a:9092" ∷ [];
  isr = "a:9092" ∷ [];
}

abbrev produce_env : RouteReply → ProduceEnv
produce_env route = record {
  route = route;
  select = all_sent;
  seen = 0;
  clock = record { for_id = 1; for_created = 2; for_expires = 3 };
  record_time = 4;
  event_time = 5;
  message_time = 6;
  end_time = 7;
}

abbrev production : Production
production = record {
  topic = "orders";
  key = "k";
  value = 9 ∷ [];
  user_id = "u";
  producer_id = "p";
  seq_num = 1;
}

anyone_produces :
    (raft : RaftNode)
    → check_permission "u" "orders" Action.produce (broker_on raft).namespace_manager ≡ some true
unfolding check_permission lookup
anyone_produces raft = refl

routed_here : get_route (answered route_here) ≡ some route_here
unfolding get_route
routed_here = refl

producer_named : production.producer_id ≢ ""
producer_named h = absurd (ground (arith, str_iff "p" ""))

first_number :
    (raft : RaftNode)
    → verdict_of (produce_env (answered route_here)) production 0 (broker_on raft) ≡ fresh
unfolding check_and_record lookup
first_number raft = refl

produce_lem_example :
    let env = produce_env (answered route_here) in
    Answered
      (verdict_for env production 0 (broker_on leading))
      env
      production
      0
      leading
      (produce env production (broker_on leading))
produce_lem_example =
    produce_lem (produce_env (answered route_here)) production route_here (broker_on leading)
      (anyone_produces leading) routed_here refl (refl, refl, omega arith)

no_route_here : ¬ Passes (produce_env not_ok) production (broker_on leading)
unfolding get_route
no_route_here (allowed, (route, (there, leads, gate))) = cc

produce-Untouched_example :
    Untouched (broker_on leading) (produce (produce_env not_ok) production (broker_on leading)).1
produce-Untouched_example =
    produce-Untouched (produce_env not_ok) production (broker_on leading) no_route_here

retry_lost_example :
    let env = produce_env (answered route_here) in
    let left = (produce env production (broker_on node)).1 in
    ((produce env production (broker_on node)).0 ≡ ret not_submitted)
    × ((produce env production left).0 ≡ ret (produced (message_of production 0 6)))
    × ((produce env production left).1.raft_node ≡ node)
retry_lost_example =
    retry_lost (produce_env (answered route_here)) (produce_env (answered route_here)) production
      route_here (broker_on node) (anyone_produces node) routed_here routed_here refl producer_named
      (first_number node) refl refl

-- a negative acknowledgement after two retries
abbrev nack : List ℕ
nack = 0 ∷ 0 ∷ 0 ∷ 0 ∷ 0 ∷ 0 ∷ 0 ∷ 0 ∷ 1 ∷ 2 ∷ 7 ∷ []

only_orders : OnlyTopic "orders" (broker_on leading).topics
unfolding topic_key dashed decimal
only_orders = ((pos 0, refl), tt)

nack_refused_example :
    let r = handle_tcp_ack all_sent "orders" 0 nack 5 (broker_on leading) in
    (r.0 ≡ ret (respond resp_error))
    × (r.1.retry_queue ≡ [])
    × (r.1.raft_node ≡ leading)
    × (r.1.locked ≡ false)
nack_refused_example =
    nack_refused all_sent "orders" 0 nack 5 (broker_on leading) (omega arith, refl) refl only_orders

orders_key_found : lookup "orders-0" (broker_on alone).topics ≡ some orders
unfolding lookup
orders_key_found = refl

nack_stops_example :
    let r = handle_tcp_ack all_sent "orders-0" 0 nack 5 (broker_on alone) in
    (r.0 ≡ blocked) × AllBlock all_sent "orders" (pos 0) (pos 0) (pos 10) 5 [] r.1
nack_stops_example =
    nack_stops all_sent "orders-0" 0 nack 5 (broker_on alone) orders "orders" (pos 0) (pos 0)
      (pos 10) [] (omega arith, refl) refl orders_key_found (omega arith) (omega arith) refl refl
      refl

abbrev world : World
world = record {
  env_at = λ n. record {
    tcp = record {
      first_route = answered route_here;
      second_route = unreachable;
      select = all_sent;
      client_ip = "c:1";
    };
    committed = true;
    parsed = none;
    name_server = λ call. http_error;
    now = n;
  };
  between_at = λ n b. b;
}

-- an acknowledgement, and a fetch that is too short
abbrev two_requests : List Request
two_requests =
    (record { cmd_id = 7; topic = "orders"; partition = 0; payload = nack })
    ∷ (record { cmd_id = 2; topic = "orders"; partition = 0; payload = 1 ∷ [] })
    ∷ []

requests_fit : All Fits two_requests
unfolding bytes_of
requests_fit = omega arith

handle_client_serves_example :
    Served world 0 two_requests []
      (broker_on leading)
      (handle_client 3 world 0 (all_requests two_requests) [] (broker_on leading))
handle_client_serves_example =
    handle_client_serves 3 0 world two_requests [] (broker_on leading) requests_fit (omega arith)

handle_client_ends_example :
    (handle_client 1 world 0 (0xD0 ∷ 7 ∷ []) [] (broker_on leading)).0 ≢ out_of_fuel
handle_client_ends_example =
    handle_client_ends 1 0 world (0xD0 ∷ 7 ∷ []) [] (broker_on leading) (omega arith)

-- one message is due, and one is not
abbrev queued : ℕ → RetryMessage
queued at = record {
  topic = "orders";
  partition = 0;
  offset = 0;
  payload = 7 ∷ [];
  retry_count = 1;
  next_retry_at = at;
}

abbrev with_queue : Broker
with_queue = record (broker_on leading) { retry_queue = queued 5 ∷ queued 50 ∷ [] }

process_retry_queue_lem_example :
    let r = process_retry_queue all_sent 9 with_queue in
    (r.0 ≡ ret tt)
    × (r.1.retry_queue ≡ waiting 9 with_queue.retry_queue)
    × (r.1.raft_node.log
        ≡ leading.log ++ resent 9 leading.current_term (length leading.log) with_queue.retry_queue)
    × (r.1.locked ≡ false)
process_retry_queue_lem_example =
    process_retry_queue_lem all_sent 9 with_queue refl (refl, refl, omega arith)

-- one message is sent and one stays
one_sent :
    (waiting 9 with_queue.retry_queue ≡ queued 50 ∷ [])
    × (resent 9 1 1 with_queue.retry_queue ≡ retry_entry 1 1 (queued 5) ∷ [])
unfolding waiting resent
one_sent = (refl, refl)

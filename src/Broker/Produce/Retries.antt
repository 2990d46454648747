-- ===== src/Broker/Produce/Retries.antt =====
-- What a Produce of cluster/go/broker/broker.go does on a leader, and what a producer gets that tries
-- again after an error.
use mathlib.Core.Path.{sym, ap, subst}
use distributed_mq.Prelude.{
  if◌then◌else◌, Bool-cases, ◌==◌, str_iff, ℕ, ◌%◌, ◌^◌, String, ◌≡◌, refl, ◌∙◌, ◌≢◌, inl, inr,
  true, false, some, List, [], ◌∷◌, ◌++◌, arith,
}
use distributed_mq.Prelude.{nat_eq, string_eq}
use distributed_mq.Go.{Outcome, ret}
use distributed_mq.Raft.{data_entry, LogEntry, RaftNode}
use distributed_mq.Raft.Commit.{Select, command_entry, Submitted, refused, submit_command}
use distributed_mq.Raft.Roles.{Handler, is_leader}
use distributed_mq.Namespace.{Action, check_permission}
use distributed_mq.Idempotent.{
  Verdict, fresh, duplicate, other_partition, too_old, check_and_record,
}
use distributed_mq.Idempotent.Window.{check_and_record-again}
use distributed_mq.Tracing.{start_trace}
use distributed_mq.Broker.{Message, Broker, on_raft-returns}
use distributed_mq.Broker.Produce.{
  produce, RouteInfo, get_route, Produced, produced, sequence_refused, not_submitted, Production,
  ProduceEnv, message_of, produce_event, trace, produce_end, produce_traced, produce_checked,
}
use distributed_mq.Broker.Produce.Gates.{
  verdict_of, produce-Passes, produce_led_nameless, recorded, produce_led-named,
}
use distributed_mq.Raft.Commit.Submit.{submit_replicated_lem}
use distributed_mq.Prelude.Text.{dashed}
use distributed_mq.Prelude.Int.{pos}
use distributed_mq.Broker.Ack.Rounds.{Leads}

-- The broker in which the trace of a message was started.
started : ProduceEnv → Production → ℕ → Broker → Broker
started env q partition b =
    let (ctx, tracer) = start_trace q.topic partition env.seen env.clock b.tracer in
    trace ctx.trace_id (produce_event q partition b.addr env.event_time)
      (record b { tracer = tracer })

submit_in : ProduceEnv → Production → ℕ → Handler Submitted
submit_in env q partition = submit_command env.select q.topic (partition % 2 ^ 32) q.value

produce_traced-returns :
    (env : ProduceEnv) (q : Production) (partition : ℕ) (b : Broker) (answer : Submitted)
    → (submit_in env q partition b.raft_node).0 ≡ ret answer
    → produce_traced env q partition b
      ≡ produce_end env q partition
          (start_trace q.topic partition env.seen env.clock b.tracer).0.trace_id
          answer
          (record (started env q partition b) {
            raft_node = (submit_in env q partition b.raft_node).1;
          })
unfolding produce_traced started submit_in
produce_traced-returns env q partition b answer e =
    on_raft-returns (submit_in env q partition)
      (produce_end env q partition
        (start_trace q.topic partition env.seen env.clock b.tracer).0.trace_id)
      answer (started env q partition b) e

produce-fresh :
    (env : ProduceEnv) (q : Production) (route : RouteInfo) (b : Broker)
    → check_permission q.user_id q.topic Action.produce b.namespace_manager ≡ some true
    → get_route env.route ≡ some route
    → route.leader ≡ b.client_addr
    → q.producer_id ≢ ""
    → verdict_of env q route.partition b ≡ fresh
    → produce env q b ≡ produce_traced env q route.partition (recorded env q route.partition b)
unfolding produce_checked
produce-fresh env q route b allowed there leads named new =
    produce-Passes env q route b allowed there leads
    ∙ produce_led-named env q route.partition b named
    ∙ ap (λ v. produce_checked v env q route.partition (recorded env q route.partition b)) new

-- Produce returns a message with what the producer gave it, at a partition.
abbrev pub Returned : ProduceEnv → Production → ℕ → Outcome Produced → Type 0
Returned env q partition o =
    (msg : Message) × ((o ≡ ret (produced msg))
      × (msg.topic ≡ q.topic)
      × (msg.partition ≡ pos partition)
      × (msg.key ≡ q.key)
      × (msg.value ≡ q.value)
      × (msg.timestamp ≡ env.message_time))

-- An entry for the message stands behind the log of the Raft node `r`.
abbrev pub Appended : Production → ℕ → RaftNode → RaftNode → Type 0
Appended q partition r r' =
    (entry : LogEntry) × ((r'.log ≡ r.log ++ entry ∷ [])
      × (entry.type ≡ data_entry)
      × (entry.term ≡ r.current_term)
      × (entry.topic ≡ q.topic)
      × (entry.partition ≡ partition % 2 ^ 32)
      × (entry.payload ≡ q.value))

-- What Produce does by the answer of CheckAndRecord.
abbrev pub Answered :
    Verdict → ProduceEnv → Production → ℕ → RaftNode → Outcome Produced × Broker → Type 0
Answered fresh env q partition r p =
    Returned env q partition p.0 × Appended q partition r p.1.raft_node
Answered duplicate env q partition r p = Returned env q partition p.0 × (p.1.raft_node ≡ r)
Answered other_partition env q partition r p = (p.0 ≡ ret sequence_refused) × (p.1.raft_node ≡ r)
Answered too_old env q partition r p = (p.0 ≡ ret sequence_refused) × (p.1.raft_node ≡ r)

-- A producer without a name is not asked for its number.
abbrev pub verdict_for : ProduceEnv → Production → ℕ → Broker → Verdict
verdict_for env q partition b = if q.producer_id == "" then fresh else verdict_of env q partition b

produce_traced-Answered :
    (env : ProduceEnv) (q : Production) (partition : ℕ) (b : Broker)
    → Leads b.raft_node
    → Answered fresh env q partition b.raft_node (produce_traced env q partition b)
unfolding submit_in started
produce_traced-Answered env q partition b (free, lead, peers) =
    let (answer, log, _, _, _, _) =
      submit_replicated_lem env.select q.topic (partition % 2 ^ 32) q.value b.raft_node free lead
        peers in
    let whole = produce_traced-returns env q partition b _ answer in
    (
      (
        message_of q partition env.message_time,
        (ap (λ r. r.0) whole, refl, refl, refl, refl, refl),
      ),
      (
        command_entry q.topic (partition % 2 ^ 32) q.value b.raft_node,
        (ap (λ r. r.1.raft_node.log) whole ∙ log, refl, refl, refl, refl, refl),
      ),
    )

produce_checked-Answered :
    (verdict : Verdict) (env : ProduceEnv) (q : Production) (partition : ℕ) (b : Broker)
    → Leads b.raft_node
    → Answered verdict env q partition b.raft_node (produce_checked verdict env q partition b)
unfolding produce_checked
produce_checked-Answered fresh env q partition b leads =
    produce_traced-Answered env q partition b leads
produce_checked-Answered duplicate env q partition b leads =
    ((message_of q partition env.message_time, (refl, refl, refl, refl, refl, refl)), refl)
produce_checked-Answered other_partition env q partition b leads = (refl, refl)
produce_checked-Answered too_old env q partition b leads = (refl, refl)

-- On a broker that the route leads to and whose Raft node leads with peers, its mutex free, for a user
-- who may produce: a message with a new number, or of a producer without a name, is appended behind the
-- log of the node, an entry of the current term with its topic and bytes and the partition of the
-- route, and Produce returns it with that partition and its key and bytes; a repeated number is
-- answered in the same way, and a number that is too old or for another partition with an error, and
-- these leave the node as it is.
pub produce_lem :
    (env : ProduceEnv) (q : Production) (route : RouteInfo) (b : Broker)
    → check_permission q.user_id q.topic Action.produce b.namespace_manager ≡ some true
    → get_route env.route ≡ some route
    → route.leader ≡ b.client_addr
    → Leads b.raft_node
    → Answered
        (verdict_for env q route.partition b)
        env
        q
        route.partition
        b.raft_node
        (produce env q b)
produce_lem env q route b allowed there here leads =
    let p = route.partition in
    let P : Verdict → Outcome Produced × Broker → Type 0 =
      λ v r. Answered v env q p b.raft_node r in
    let led = produce-Passes env q route b allowed there here in
    elim (Bool-cases (q.producer_id == "")) [
      | inl nameless ↦ rw nameless (
          subst (P fresh) (sym (led ∙ produce_led_nameless env q p b nameless))
            (produce_traced-Answered env q p b leads))
      | inr named ↦ rw named (
          subst (P (verdict_of env q p b))
            (sym (
              led
              ∙ produce_led-named env q p b
                  (λ e. absurd (ground (arith, named, str_iff q.producer_id "", e)))))
            (produce_checked-Answered (verdict_of env q p b) env q p (recorded env q p b) leads))
    ]

submit_command-refused :
    (select : Select) (topic : String) (partition : ℕ) (payload : List ℕ) (r : RaftNode)
    → r.locked ≡ false
    → is_leader r.state ≡ false
    → submit_command select topic partition payload r ≡ (ret refused, r)
unfolding submit_command
submit_command-refused select topic partition payload r free follows = ground (arith, free, follows)

-- Where the route leads to the broker but its Raft node does not lead, a Produce of a named producer with
-- a new sequence number is an error; yet when the producer tries again and the route is the same,
-- the call reports success, and the Raft node and its log are as they were before the
-- first one: the message is lost.
pub retry_lost :
    (env env' : ProduceEnv) (q : Production) (route : RouteInfo) (b : Broker)
    → check_permission q.user_id q.topic Action.produce b.namespace_manager ≡ some true
    → get_route env.route ≡ some route
    → get_route env'.route ≡ some route
    → route.leader ≡ b.client_addr
    → q.producer_id ≢ ""
    → verdict_of env q route.partition b ≡ fresh
    → b.raft_node.locked ≡ false
    → is_leader b.raft_node.state ≡ false
    → ((produce env q b).0 ≡ ret not_submitted)
      × ((produce env' q (produce env q b).1).0
          ≡ ret (produced (message_of q route.partition env'.message_time)))
      × ((produce env' q (produce env q b).1).1.raft_node ≡ b.raft_node)
unfolding submit_in started produce_checked
retry_lost env env' q route b allowed there there' leads named new free follows =
    let p = route.partition in
    let b' = recorded env q p b in
    let silent =
      submit_command-refused env.select q.topic (p % 2 ^ 32) q.value b.raft_node free follows in
    let first =
      produce-fresh env q route b allowed there leads named new
      ∙ produce_traced-returns env q p b' refused (ap (λ r. r.0) silent) in
    let left = (produce env q b).1 in
    let numbers = ap (λ r. r.1.idempotent_mgr) first in
    let managers = ap (λ r. r.1.namespace_manager) first in
    let same_addr = ap (λ r. r.1.client_addr) first in
    let node = ap (λ r. r.1.raft_node) first ∙ ap (λ r. r.1) silent in
    let topic_partition = dashed q.topic p in
    let repeated : verdict_of env' q p left ≡ duplicate =
      ap (λ im. (check_and_record q.producer_id q.seq_num topic_partition env'.record_time im).0)
        numbers
      ∙ check_and_record-again q.producer_id q.seq_num topic_partition env.record_time
          env'.record_time b.idempotent_mgr new in
    let second =
      produce-Passes env' q route left
        (ap (check_permission q.user_id q.topic Action.produce) managers ∙ allowed) there'
        (leads ∙ sym same_addr)
      ∙ produce_led-named env' q p left named
      ∙ ap (λ v. produce_checked v env' q p (recorded env' q p left)) repeated in
    (ap (λ r. r.0) first, ap (λ r. r.0) second, ap (λ r. r.1.raft_node) second ∙ node)

-- ===== src/Broker/Produce/Gates.antt =====
-- When Produce of cluster/go/broker/broker.go hands a message to the Raft node.
use mathlib.Core.Path.{ap}
use distributed_mq.Prelude.{
  if-elim, match-elim, ◌==◌, str_iff, ℕ, ◌≡◌, refl, ◌∙◌, ◌≢◌, ◌⊎◌, inl, inr, true, some, arith,
}
use distributed_mq.Prelude.{nat_eq, string_eq}
use distributed_mq.Prelude.Text.{dashed}
use distributed_mq.Go.{Outcome, ret}
use distributed_mq.Raft.{}
use distributed_mq.Namespace.{Action, check_permission}
use distributed_mq.Idempotent.{
  Verdict, fresh, duplicate, other_partition, too_old, check_and_record,
}
use distributed_mq.Broker.{Broker}
use distributed_mq.Broker.Produce.{
  produce, RouteInfo, get_route, Produced, permission_unchecked, permission_denied, no_route,
  Production, ProduceEnv, produce_traced, produce_checked, produce_led, produce_allowed,
}

-- The answer of CheckAndRecord in a Produce for the partition.
abbrev pub verdict_of : ProduceEnv → Production → ℕ → Broker → Verdict
verdict_of env q partition b =
    (check_and_record q.producer_id q.seq_num (dashed q.topic partition) env.record_time
      b.idempotent_mgr).0

-- The user may produce, the broker leads the route, and the message is no repetition.
abbrev pub Passes : ProduceEnv → Production → Broker → Type 0
Passes env q b =
    (check_permission q.user_id q.topic Action.produce b.namespace_manager ≡ some true)
    × ((route : RouteInfo) × ((get_route env.route ≡ some route)
          × (route.leader ≡ b.client_addr)
          × ((q.producer_id ≡ "") ⊎ (verdict_of env q route.partition b ≡ fresh))))

-- The Raft node, the traces, the topics and the retry queue are those of `b`.
abbrev pub Untouched : Broker → Broker → Type 0
Untouched b b' =
    (b'.raft_node ≡ b.raft_node)
    × (b'.tracer ≡ b.tracer)
    × (b'.topics ≡ b.topics)
    × (b'.retry_queue ≡ b.retry_queue)

produce_checked-Untouched :
    (verdict : Verdict) (env : ProduceEnv) (q : Production) (partition : ℕ) (b : Broker)
    → ¬ (verdict ≡ fresh)
    → Untouched b (produce_checked verdict env q partition b).1
unfolding produce_checked
produce_checked-Untouched fresh env q partition b h = absurd (h refl)
produce_checked-Untouched duplicate env q partition b h = (refl, refl, refl, refl)
produce_checked-Untouched other_partition env q partition b h = (refl, refl, refl, refl)
produce_checked-Untouched too_old env q partition b h = (refl, refl, refl, refl)

produce_led-Untouched :
    (env : ProduceEnv) (q : Production) (partition : ℕ) (b : Broker)
    → ¬ ((q.producer_id ≡ "") ⊎ (verdict_of env q partition b ≡ fresh))
    → Untouched b (produce_led env q partition b).1
unfolding produce_led
produce_led-Untouched env q partition b h =
    if-elim (λ (r : Outcome Produced × Broker). Untouched b r.1) (q.producer_id == "")
      (produce_traced env q partition b) _
      (λ anonymous. absurd (h (inl ((str_iff q.producer_id "").0 anonymous))))
      (λ _.
        produce_checked-Untouched (verdict_of env q partition b) env q partition _ (λ e. h (inr e)))

produce_allowed-Untouched :
    (env : ProduceEnv) (q : Production) (b : Broker)
    → check_permission q.user_id q.topic Action.produce b.namespace_manager ≡ some true
    → ¬ Passes env q b
    → Untouched b (produce_allowed env q b).1
unfolding produce_allowed
produce_allowed-Untouched env q b allowed h =
    match-elim (λ (r : Outcome Produced × Broker). Untouched b r.1) (get_route env.route)
      (ret no_route, b) _ (λ _. (refl, refl, refl, refl))
      (λ route there.
        if-elim (λ (r : Outcome Produced × Broker). Untouched b r.1) (route.leader == b.client_addr)
          (produce_led env q route.partition b) _
          (λ leads. produce_led-Untouched env q route.partition b (λ gate.
            h (allowed, (route, (there, (str_iff route.leader b.client_addr).0 leads, gate)))))
          (λ _. (refl, refl, refl, refl)))

-- Unless the user may produce, the route is there and leads to the broker, and CheckAndRecord finds
-- the sequence number of a named producer to be new, Produce hands nothing to the Raft node, and
-- leaves the traces, the topics and the retry queue as they are.
pub produce-Untouched :
    (env : ProduceEnv) (q : Production) (b : Broker)
    → ¬ Passes env q b
    → Untouched b (produce env q b).1
unfolding produce
produce-Untouched env q b h =
    match-elim (λ (r : Outcome Produced × Broker). Untouched b r.1)
      (check_permission q.user_id q.topic Action.produce b.namespace_manager)
      (ret permission_unchecked, b) _ (λ _. (refl, refl, refl, refl))
      (λ allowed answer.
        if-elim (λ (r : Outcome Produced × Broker). Untouched b r.1) allowed
          (produce_allowed env q b) (ret permission_denied, b)
          (λ yes_it_is. produce_allowed-Untouched env q b (answer ∙ ap (λ x. some x) yes_it_is) h)
          (λ _. (refl, refl, refl, refl)))

pub produce-Passes :
    (env : ProduceEnv) (q : Production) (route : RouteInfo) (b : Broker)
    → check_permission q.user_id q.topic Action.produce b.namespace_manager ≡ some true
    → get_route env.route ≡ some route
    → route.leader ≡ b.client_addr
    → produce env q b ≡ produce_led env q route.partition b
unfolding produce produce_allowed
produce-Passes env q route b allowed there leads =
    ground (arith, allowed, there, str_iff route.leader b.client_addr)

pub produce_led_nameless :
    (env : ProduceEnv) (q : Production) (partition : ℕ) (b : Broker)
    → (q.producer_id == "") ≡ true
    → produce_led env q partition b ≡ produce_traced env q partition b
unfolding produce_led
produce_led_nameless env q partition b nameless = rw nameless refl

-- The broker with the sequence number of the producer recorded.
abbrev pub recorded : ProduceEnv → Production → ℕ → Broker → Broker
recorded env q partition b = record b {
  idempotent_mgr =
      (check_and_record q.producer_id q.seq_num (dashed q.topic partition) env.record_time
        b.idempotent_mgr).1;
}

pub produce_led-named :
    (env : ProduceEnv) (q : Production) (partition : ℕ) (b : Broker)
    → q.producer_id ≢ ""
    → produce_led env q partition b
      ≡ produce_checked (verdict_of env q partition b) env q partition (recorded env q partition b)
unfolding produce_led
produce_led-named env q partition b named =
    if-elim
      (λ r.
        r
        ≡ produce_checked (verdict_of env q partition b) env q partition
            (recorded env q partition b))
      (q.producer_id == "") (produce_traced env q partition b) _
      (λ anonymous. absurd (named ((str_iff q.producer_id "").0 anonymous))) (λ _. refl)

-- ===== src/Broker/Ack/Rounds.antt =====
-- What a round of the retry queue does (processRetryQueue of cluster/go/broker/broker.go).
use mathlib.Core.Path.{ap}
use mathlib.Core.List.{append_assoc, append-nil}
use Prim.Native.String
use distributed_mq.Prelude.{
  ltb, if◌then◌else◌, Bool-cases, length, length-append, ℕ, ◌+◌, ◌<◌, String, ◌≡◌, refl, sym, ◌∙◌,
  inl, inr, true, false, none, List, [], ◌∷◌, ◌++◌, arith,
}
use distributed_mq.Prelude.{nat_eq, string_eq}
use distributed_mq.Go.{Outcome, ret}
use distributed_mq.Raft.{leader, data_entry, LogEntry, RaftNode}
use distributed_mq.Raft.Commit.{Select, submitted, submit_command}
use distributed_mq.Broker.{RetryMessage, Broker, on_raft-returns}
use distributed_mq.Broker.Ack.{requeue, retry_loop, retry_locked, process_retry_queue}
use distributed_mq.Raft.Commit.Submit.{submit_replicated_lem}

-- A Raft node that leads, with peers, and whose mutex is free.
abbrev pub Leads : RaftNode → Type 0
Leads r = (r.locked ≡ false) × (r.state ≡ leader) × (0 < length r.peers)

-- SubmitCommand leaves it so.
submit_command-Leads :
    (select : Select) (topic : String) (partition : ℕ) (payload : List ℕ) (r : RaftNode)
    → Leads r
    → let left = (submit_command select topic partition payload r).1 in
      Leads left × (left.current_term ≡ r.current_term)
unfolding submit_command
submit_command-Leads select topic partition payload r (free, lead, peers) =
    ground (arith, free, lead, peers)

-- the messages that are not due
unfoldable pub waiting : ℕ → List RetryMessage → List RetryMessage
waiting now [] = []
waiting now (msg ∷ msgs) =
    let rest = waiting now msgs in if ltb now msg.next_retry_at then msg ∷ rest else rest

abbrev pub retry_entry : (term index : ℕ) → RetryMessage → LogEntry
retry_entry term index msg = record {
  term = term;
  index = index;
  type = data_entry;
  topic = String.◌++◌ msg.topic "_RETRY";
  partition = msg.partition;
  payload = msg.payload;
  config = none;
}

-- the entries of the others, from an index on
unfoldable pub resent : (now term index : ℕ) → List RetryMessage → List LogEntry
resent now term index [] = []
resent now term index (msg ∷ msgs) = elim (ltb now msg.next_retry_at) [
  | true ↦ resent now term index msgs
  | false ↦ retry_entry term index msg ∷ resent now term (index + 1) msgs
]

-- What a loop over `msgs` has done.
abbrev Resent :
    ℕ
    → List RetryMessage
    → List RetryMessage
    → Broker
    → Outcome (List RetryMessage) × Broker
    → Type 0
Resent now msgs new_queue b r =
    (r.0 ≡ ret (new_queue ++ waiting now msgs))
    × (r.1.raft_node.log
        ≡ b.raft_node.log ++ resent now b.raft_node.current_term (length b.raft_node.log) msgs)

retry_loop-waits :
    (select : Select) (now : ℕ) (msg : RetryMessage) (msgs new_queue : List RetryMessage)
    (b : Broker)
    → ltb now msg.next_retry_at ≡ true
    → Resent now msgs
        (new_queue ++ msg ∷ [])
        b
        (retry_loop select now msgs (new_queue ++ msg ∷ []) b)
    → Resent now (msg ∷ msgs) new_queue b (retry_loop select now (msg ∷ msgs) new_queue b)
unfolding retry_loop waiting resent
retry_loop-waits select now msg msgs new_queue b early (queue, log) =
    rw (early, retry_loop, waiting, resent)
      (queue ∙ ap ret (append_assoc new_queue (msg ∷ []) (waiting now msgs)), log)

-- An entry behind the log counts as the first of those that are sent.
resent-behind :
    (now t u : ℕ) (l m : List LogEntry) (e : LogEntry) (msgs : List RetryMessage)
    → m ≡ l ++ e ∷ []
    → u ≡ t
    → m ++ resent now u (length m) msgs ≡ l ++ e ∷ resent now t (length l + 1) msgs
resent-behind now t u l m e msgs grown same =
    rw (grown, same, length-append l (e ∷ []))
      (append_assoc l (e ∷ []) (resent now t (length l + 1) msgs))

retry_loop-sends :
    (select : Select) (now : ℕ) (msg : RetryMessage) (msgs new_queue : List RetryMessage)
    (b : Broker)
    → ltb now msg.next_retry_at ≡ false
    → Leads b.raft_node
    → let call = submit_command select (String.◌++◌ msg.topic "_RETRY") msg.partition msg.payload in
      let b' = record b { raft_node = (call b.raft_node).1 } in
      Resent now msgs new_queue b' (retry_loop select now msgs new_queue b')
      → Resent now (msg ∷ msgs) new_queue b (retry_loop select now (msg ∷ msgs) new_queue b)
unfolding retry_loop waiting resent
retry_loop-sends select now msg msgs new_queue b due (free, lead, peers) (queue, log) =
    let topic = String.◌++◌ msg.topic "_RETRY" in
    let call = submit_command select topic msg.partition msg.payload in
    let (answer, grown, _, _, _, _) =
      submit_replicated_lem select topic msg.partition msg.payload b.raft_node free lead peers in
    let (_, term) =
      submit_command-Leads select topic msg.partition msg.payload b.raft_node (free, lead, peers) in
    let next =
      on_raft-returns call (λ reply. retry_loop select now msgs (requeue msg new_queue reply))
        (submitted (length b.raft_node.log) b.raft_node.next_chan) b answer in
    rw (due, next, retry_loop, waiting, resent)
      (
        queue,
        log
            ∙ resent-behind now b.raft_node.current_term (call b.raft_node).1.current_term
                b.raft_node.log (call b.raft_node).1.log
                (retry_entry b.raft_node.current_term (length b.raft_node.log) msg) msgs grown term,
      )

retry_loop-Resent :
    (select : Select) (now : ℕ) (msgs new_queue : List RetryMessage) (b : Broker)
    → Leads b.raft_node
    → Resent now msgs new_queue b (retry_loop select now msgs new_queue b)
retry_loop-Resent select now [] new_queue b leads =
    unfold retry_loop waiting resent in
    (ap ret (sym (append-nil new_queue)), sym (append-nil b.raft_node.log))
retry_loop-Resent select now (msg ∷ msgs) new_queue b leads =
    elim (Bool-cases (ltb now msg.next_retry_at)) [
      | inl early ↦
          retry_loop-waits select now msg msgs new_queue b early
            (retry_loop-Resent select now msgs (new_queue ++ msg ∷ []) b leads)
      | inr due ↦ retry_loop-sends select now msg msgs new_queue b due leads (
          retry_loop-Resent select now msgs new_queue _
            (submit_command-Leads select (String.◌++◌ msg.topic "_RETRY") msg.partition msg.payload
              b.raft_node leads).0)
    ]

-- On a broker whose mutex is free, and whose Raft node leads with peers and a free mutex,
-- processRetryQueue returns: the messages that are due are appended behind the log of the node, in their
-- order and under their topic with "_RETRY", those that are not stay in the queue, in their order, and
-- the mutex is free again.
pub process_retry_queue_lem :
    (select : Select) (now : ℕ) (b : Broker)
    → b.locked ≡ false
    → Leads b.raft_node
    → let r = process_retry_queue select now b in
      (r.0 ≡ ret tt)
      × (r.1.retry_queue ≡ waiting now b.retry_queue)
      × (r.1.raft_node.log
          ≡ b.raft_node.log
            ++ resent now b.raft_node.current_term (length b.raft_node.log) b.retry_queue)
      × (r.1.locked ≡ false)
unfolding process_retry_queue retry_locked
process_retry_queue_lem select now b free leads =
    let held = record b { locked = true } in
    let (queue, log) = retry_loop-Resent select now b.retry_queue [] held leads in
    rw (free, queue) (refl, refl, log, refl)

-- ===== src/Broker/Server/Handled.antt =====
-- Which handler the switch of handleClient in cluster/go/broker/broker.go calls, by the byte of the command,
-- and what the handlers of consumer groups ask the name server.
use mathlib.Core.Path.{sym, ap, subst}
use distributed_mq.Prelude.{
  ◌==◌, ℕ, ◌≤◌, String, ◌≡◌, refl, ◌⊎◌, inl, inr, Bool, true, false, Option, none, some, List, [],
  ◌∷◌, arith,
}
use distributed_mq.Prelude.{nat_eq, string_eq}
use distributed_mq.Prelude.Int.{signed}
use distributed_mq.Go.{Outcome, ret, panic, blocked, continue}
use distributed_mq.Wire.{Request, send_response}
use distributed_mq.Broker.{Broker}
use distributed_mq.Broker.Ack.{handle_tcp_ack}
use distributed_mq.Broker.Tcp.{
  ProduceStep, replied, waiting, handle_tcp_produce, after_wait, handle_tcp_fetch,
}
use distributed_mq.Broker.Server.{
  GroupCall, join, heartbeat, leave, commit_offset, GroupFields, group_call, HttpReply, http_error,
  http_answer, handle_tcp_group, RequestEnv, end_produce, dispatch,
}

-- What becomes of a produce request after the part of handleTCPProduce up to its wait: a reply is written,
-- and a wait goes on to its end in the broker that other goroutines leave.
abbrev pub Finished :
    RequestEnv
    → (Broker → Broker)
    → Request
    → Outcome ProduceStep × Broker
    → Outcome (List ℕ) × Broker
    → Type 0
Finished env between q (ret (replied bytes), b) r = r ≡ (ret bytes, b)
Finished env between q (ret (waiting index chan size), b) r = r ≡ (
  ret
      (after_wait env.committed env.tcp.client_ip q.topic (signed 32 q.partition) index size
        (between b)).0,
  (after_wait env.committed env.tcp.client_ip q.topic (signed 32 q.partition) index size
      (between b)).1,
)
Finished env between q (panic, b) r = r ≡ (panic, b)
Finished env between q (blocked, b) r = r ≡ (blocked, b)

-- The response that passes an answer of the name server on, with its body or without.
abbrev pub answer_to : (with_body : Bool) → HttpReply → List ℕ
answer_to with_body http_error = 0xD0 ∷ 0xFF ∷ []
answer_to true (http_answer true body) = 0xD0 ∷ 0 ∷ body
answer_to false (http_answer true body) = 0xD0 ∷ 0 ∷ []
answer_to true (http_answer false body) = 0xD0 ∷ 0xFF ∷ body
answer_to false (http_answer false body) = 0xD0 ∷ 0xFF ∷ []

-- How a request is handled, by the byte of its command.
pub data Handled (env : RequestEnv) (between : Broker → Broker) (q : Request) (b : Broker)
    : Outcome (List ℕ) × Broker → Type 0 where
  produces :
      {r : Outcome (List ℕ) × Broker}
      → q.cmd_id ≡ 1
      → Finished env between q (handle_tcp_produce env.tcp q.topic q.partition q.payload b) r
      → Handled env between q b r
  fetches :
      q.cmd_id ≡ 2
      → Handled env between q b (handle_tcp_fetch env.tcp.client_ip q.topic q.partition q.payload b)
  unread :
      3 ≤ q.cmd_id
      → q.cmd_id ≤ 6
      → env.parsed ≡ none
      → Handled env between q b (ret (0xD0 ∷ 0xFF ∷ []), b)
  joins :
      (f : GroupFields)
      → q.cmd_id ≡ 3
      → env.parsed ≡ some f
      → Handled env between q b
          (ret (answer_to true (env.name_server (join f.group_id f.client_id q.topic))), b)
  beats :
      (f : GroupFields)
      → q.cmd_id ≡ 4
      → env.parsed ≡ some f
      → Handled env between q b
          (ret (answer_to false (env.name_server (heartbeat f.group_id f.client_id))), b)
  commits :
      (f : GroupFields)
      → q.cmd_id ≡ 5
      → env.parsed ≡ some f
      → Handled env between q b (
        ret (
            answer_to false (
              env.name_server (commit_offset f.group_id q.topic (signed 32 q.partition) f.offset))),
        b,
      )
  leaves :
      (f : GroupFields)
      → q.cmd_id ≡ 6
      → env.parsed ≡ some f
      → Handled env between q b
          (ret (answer_to false (env.name_server (leave f.group_id f.client_id))), b)
  acknowledges :
      q.cmd_id ≡ 7
      → Handled env between q b
          (handle_tcp_ack env.tcp.select q.topic q.partition q.payload env.now b)
  unknown : (q.cmd_id ≡ 0) ⊎ (8 ≤ q.cmd_id) → Handled env between q b (ret [], b)

end_produce-Finished :
    (env : RequestEnv) (between : Broker → Broker) (q : Request) (p : Outcome ProduceStep × Broker)
    → Finished env between q p (continue p.0 (end_produce env between q) p.1)
end_produce-Finished env between q (ret (replied bytes), b) = refl
end_produce-Finished env between q (ret (waiting index chan size), b) = refl
end_produce-Finished env between q (panic, b) = refl
end_produce-Finished env between q (blocked, b) = refl

handle_tcp_group-answer_to :
    (cmd_id : ℕ) (topic : String) (partition : ℕ) (f : GroupFields) (with_body : Bool)
    (name_server : GroupCall → HttpReply) (reply : HttpReply)
    → (cmd_id == 3) ≡ with_body
    → name_server (group_call cmd_id topic partition f) ≡ reply
    → handle_tcp_group cmd_id topic partition (some f) name_server ≡ answer_to with_body reply
unfolding handle_tcp_group send_response
handle_tcp_group-answer_to cmd_id topic partition f with_body name_server http_error body says =
    rw (says, handle_tcp_group) refl
handle_tcp_group-answer_to cmd_id topic partition f true name_server (http_answer true bytes) body
      says =
    rw (says, body, handle_tcp_group) refl
handle_tcp_group-answer_to cmd_id topic partition f false name_server (http_answer true bytes) body
      says =
    rw (says, body, handle_tcp_group) refl
handle_tcp_group-answer_to cmd_id topic partition f true name_server (http_answer false bytes) body
      says =
    rw (says, body, handle_tcp_group) refl
handle_tcp_group-answer_to cmd_id topic partition f false name_server (http_answer false bytes) body
      says =
    rw (says, body, handle_tcp_group) refl

group_commands : (n : ℕ) → 3 ≤ n → n ≤ 6 → (n ≡ 3) ⊎ ((n ≡ 4) ⊎ ((n ≡ 5) ⊎ (n ≡ 6)))
group_commands n low high = omega arith

commands : (n : ℕ) → (n ≡ 1) ⊎ ((n ≡ 2) ⊎ (((3 ≤ n) × (n ≤ 6)) ⊎ ((n ≡ 7) ⊎ ((n ≡ 0) ⊎ (8 ≤ n)))))
commands n = omega arith

module _ (env : RequestEnv) (between : Broker → Broker) (q : Request) (b : Broker) where
  dispatch_group :
      3 ≤ q.cmd_id
      → q.cmd_id ≤ 6
      → dispatch env between q b
        ≡ (ret (handle_tcp_group q.cmd_id q.topic q.partition env.parsed env.name_server), b)
  unfolding dispatch
  dispatch_group low high = ground (arith, low, high)

  asks :
      (f : GroupFields) (call : GroupCall) (with_body : Bool)
      → group_call q.cmd_id q.topic q.partition f ≡ call
      → (q.cmd_id == 3) ≡ with_body
      → Handled env between q b (ret (answer_to with_body (env.name_server call)), b)
      → Handled env between q b
          (ret (handle_tcp_group q.cmd_id q.topic q.partition (some f) env.name_server), b)
  asks f call with_body asked body handled =
      subst (λ bytes. Handled env between q b (ret bytes, b))
        (sym (
          handle_tcp_group-answer_to q.cmd_id q.topic q.partition f with_body env.name_server
            (env.name_server call) body (ap env.name_server asked)))
        handled

  group-Handled :
      (parsed : Option GroupFields)
      → env.parsed ≡ parsed
      → 3 ≤ q.cmd_id
      → q.cmd_id ≤ 6
      → Handled env between q b
          (ret (handle_tcp_group q.cmd_id q.topic q.partition parsed env.name_server), b)
  group-Handled none is low high = unfold handle_tcp_group send_response in unread low high is
  group-Handled (some f) is low high = elim (group_commands q.cmd_id low high) [
    | inl three ↦
        asks f (join f.group_id f.client_id q.topic) true (rw three refl) (rw three refl)
          (joins f three is)
    | inr (inl four) ↦
        asks f (heartbeat f.group_id f.client_id) false (rw four refl) (rw four refl)
          (beats f four is)
    | inr (inr (inl five)) ↦
        asks f (commit_offset f.group_id q.topic (signed 32 q.partition) f.offset) false
          (rw five refl) (rw five refl) (commits f five is)
    | inr (inr (inr six)) ↦
        asks f (leave f.group_id f.client_id) false (rw six refl) (rw six refl) (leaves f six is)
  ]

  -- Each request is handled by its command.
  pub dispatch-Handled : Handled env between q b (dispatch env between q b)
  unfolding dispatch
  dispatch-Handled =
      let P : Outcome (List ℕ) × Broker → Type 0 = Handled env between q b in
      let start = handle_tcp_produce env.tcp q.topic q.partition q.payload b in
      let produced : Outcome (List ℕ) × Broker =
        continue start.0 (end_produce env between q) start.1 in
      let fetched : Outcome (List ℕ) × Broker =
        handle_tcp_fetch env.tcp.client_ip q.topic q.partition q.payload b in
      let acknowledged : Outcome (List ℕ) × Broker =
        handle_tcp_ack env.tcp.select q.topic q.partition q.payload env.now b in
      let nothing : Outcome (List ℕ) × Broker = (ret [], b) in
      elim (commands q.cmd_id) [
        | inl one ↦
            let e : dispatch env between q b ≡ produced = ground (arith, one) in
            subst P (sym e) (produces one (end_produce-Finished env between q start))
        | inr (inl two) ↦
            let e : dispatch env between q b ≡ fetched = ground (arith, two) in
            subst P (sym e) (fetches two)
        | inr (inr (inl (low, high))) ↦
            subst P (sym (dispatch_group low high)) (group-Handled env.parsed refl low high)
        | inr (inr (inr (inl seven))) ↦
            let e : dispatch env between q b ≡ acknowledged = ground (arith, seven) in
            subst P (sym e) (acknowledges seven)
        | inr (inr (inr (inr other))) ↦
            let e : dispatch env between q b ≡ nothing = ground (arith, other) in
            subst P (sym e) (unknown other)
      ]

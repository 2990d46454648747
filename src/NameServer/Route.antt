-- ===== src/NameServer/Route.antt =====
-- handleRoute of cluster/go/nameserver/nameserver.go after handleCreateTopic.
use mathlib.Core.Path.{subst}
use native.Mathlib.Nat.{mod-lt}
use distributed_mq.Prelude.{
  ltb, if-elim, match-elim, ◌==◌, str_iff, length, ℕ, ◌-◌, ◌^◌, ◌<◌, String, ◌≡◌, refl, ◌≢◌, some,
  List, [], ◌∷◌, arith,
}
use distributed_mq.Prelude.{nat_eq, string_eq}
use distributed_mq.Prelude.Map.{lookup, lookup-insert}
use distributed_mq.NameServer.{
  TopicInfo, BrokerInfo, NameServer, Response, success, bad_request, Field, absent, malformed,
  negative, number, get_available_brokers, place, place_from, partitions_of, create_topic,
  handle_create_topic, hash_string, key_partition, wanted, handle_route,
}
use distributed_mq.NameServer.Placement.{place_from-placed, length-place_from}

-- The topic that handleCreateTopic adds.
abbrev created : String → ℕ → ℕ → NameServer → TopicInfo
created topic n now ns = record {
  topic = topic;
  partitions = place_from (get_available_brokers now ns.brokers) 0 n [];
}

create_topic-created :
    (topic : String) (partitions n now : ℕ) (ns : NameServer)
    → (create_topic topic partitions now ns).0 ≡ success n
    → (partitions ≡ n)
      × (lookup topic (create_topic topic partitions now ns).1.topics
          ≡ some (created topic n now ns))
unfolding create_topic
create_topic-created topic partitions n now ns done =
    ground
      (arith, lookup-insert topic topic (created topic n now ns) ns.topics, str_iff topic topic)

-- What a success with `n` partitions shows of what a call returns.
abbrev IsCreated : String → ℕ → ℕ → NameServer → Response ℕ × NameServer → Type 0
IsCreated topic n now ns x =
    x.0 ≡ success n
    → (0 < n) × (topic ≢ "") × (lookup topic x.1.topics ≡ some (created topic n now ns))

partitions_of-pos : (field : Field) (p : ℕ) → partitions_of field ≡ some p → 0 < p
partitions_of-pos absent p h = ground arith
partitions_of-pos malformed p h = cc
partitions_of-pos (negative n) p h = cc
partitions_of-pos (number n) p h = ground arith

handle_create_topic-IsCreated :
    (topic : String) (field : Field) (n now : ℕ) (ns : NameServer)
    → IsCreated topic n now ns (handle_create_topic topic field now ns)
unfolding handle_create_topic
handle_create_topic-IsCreated topic field n now ns =
    if-elim (IsCreated topic n now ns) (topic == "") (bad_request, ns) _ (λ _ bad. cc)
      (λ named.
        match-elim (IsCreated topic n now ns) (partitions_of field) (bad_request, ns)
          (λ partitions. create_topic topic partitions now ns) (λ _ bad. cc)
          (λ partitions asked done.
            let (same, found) = create_topic-created topic partitions n now ns done in
            (
              subst (λ k. 0 < k) same (partitions_of-pos field partitions asked),
              λ blank. ground (arith, str_iff topic ""),
              found,
            )))

key_partition-lt : (key : List ℕ) (n : ℕ) → 0 < n → key_partition key n < n
key_partition-lt key n h =
    if-elim (λ x. x < n) (ltb (hash_string key) (2 ^ 63)) _ _ (λ _. mod-lt (hash_string key) h)
      (λ _. mod-lt (2 ^ 64 - hash_string key) h)

created-length :
    (available : List (ℕ × BrokerInfo)) (n : ℕ) → length (place_from available 0 n []) ≡ n
unfolding lookup
created-length available n = omega (arith, length-place_from available 0 n [] (λ j _. refl))

-- A route of a topic that has partitions 0 to n - 1, to the partition `k`.
route-created :
    (topic : String) (field : Field) (key : List ℕ) (n k now : ℕ) (ns old : NameServer)
    → 0 < n
    → topic ≢ ""
    → lookup topic ns.topics ≡ some (created topic n now old)
    → wanted field key (created topic n now old).partitions ≡ some (some k)
    → k < n
    → handle_route topic field key ns ≡ success (place (get_available_brokers now old.brokers) k)
unfolding handle_route
route-created topic field key n k now ns old pos named found asked below =
    let available = get_available_brokers now old.brokers in
    let size = created-length available n in
    let placed = place_from-placed available 0 n k [] (omega arith) (omega arith) in
    ground (arith, str_iff topic "")

-- After handleCreateTopic has made a topic with `n` partitions, handleRoute leads each nonempty key
-- of that topic to one of them, the one that the hash of the key names, though the hash may wrap to
-- a negative number.
pub key_routed :
    (topic : String) (field : Field) (n now c : ℕ) (key : List ℕ) (ns : NameServer)
    → (handle_create_topic topic field now ns).0 ≡ success n
    → (handle_route topic absent (c ∷ key) (handle_create_topic topic field now ns).1
        ≡ success (place (get_available_brokers now ns.brokers) (key_partition (c ∷ key) n)))
      × (key_partition (c ∷ key) n < n)
key_routed topic field n now c key ns done =
    let (pos, named, found) = handle_create_topic-IsCreated topic field n now ns done in
    let below = key_partition-lt (c ∷ key) n pos in
    let available = get_available_brokers now ns.brokers in
    let size = created-length available n in
    (
      route-created topic absent (c ∷ key) n (key_partition (c ∷ key) n) now
          (handle_create_topic topic field now ns).1 ns pos named found (rw size refl) below,
      below,
    )

-- After handleCreateTopic has made a topic with `n` partitions, handleRoute leads each number below `n` to the
-- partition of that number.
pub number_routed :
    (topic : String) (field : Field) (n k now : ℕ) (key : List ℕ) (ns : NameServer)
    → (handle_create_topic topic field now ns).0 ≡ success n
    → k < n
    → handle_route topic (number k) key (handle_create_topic topic field now ns).1
      ≡ success (place (get_available_brokers now ns.brokers) k)
number_routed topic field n k now key ns done below =
    let (pos, named, found) = handle_create_topic-IsCreated topic field n now ns done in
    route-created topic (number k) key n k now (handle_create_topic topic field now ns).1 ns pos
      named found refl below

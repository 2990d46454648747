-- ===== src/NameServer.antt =====
-- Topics, brokers and routes of cluster/go/nameserver/nameserver.go. Each handler holds the mutex of
-- the name server around all that it does to the state, so that it is one step. Its arguments are
-- the values of the form; the outcome of strconv.Atoi is one of them. The topics, partitions and
-- brokers are objects that only their map points to, so that the map holds them.
pub mod Members
pub mod Offsets
pub mod Placement
pub mod Route
pub mod Transactions
use distributed_mq.Prelude.{
  ltb, if◌then◌else◌, ◌==◌, length, get_elem?, ℕ, zero, suc, ◌+◌, ◌-◌, ◌*◌, ◌%◌, ◌^◌, String, ◌&&◌,
  ◌||◌, Option, none, some, List, [], ◌∷◌, map,
}
use distributed_mq.Prelude.{nat_eq, string_eq}
use distributed_mq.Prelude.Map.{Map, values, lookup, insert, has_key}
use distributed_mq.Groups.{ConsumerGroup}

pub record PartitionInfo : Type 0 where
  pub partition_id : ℕ
  pub leader : String
  pub replicas : List String
  pub isr : List String

pub record TopicInfo : Type 0 where
  pub topic : String
  pub partitions : Map ℕ PartitionInfo

pub record BrokerInfo : Type 0 where
  pub broker_id : ℕ
  pub address : String
  pub client_addr : String
  pub hostname : String
  pub port : ℕ
  pub last_update : ℕ

pub record NameServer : Type 0 where
  pub topics : Map String TopicInfo
  pub brokers : Map ℕ BrokerInfo
  pub consumer_groups : Map String ConsumerGroup
  pub next_id : ℕ

-- the status codes, and what a reply with code 200 says
pub data Response {ℓ} (A : Type ℓ) : Type ℓ where
  success : A → Response A
  bad_request not_found conflict unavailable internal_error : Response A

-- an optional number of a form: absent, refused by strconv.Atoi, below zero (by its distance from
-- zero), or a number
pub data Field : Type 0 where
  absent malformed : Field
  negative : ℕ → Field
  number : ℕ → Field

abbrev pub Handle {ℓ} : Type ℓ → Type ℓ
Handle A = NameServer → Response A × NameServer

-- the loop of handleRegister: the first broker at the address
unfoldable pub find_broker : String → Map ℕ BrokerInfo → Option (ℕ × BrokerInfo)
find_broker addr [] = none
find_broker addr ((k, b) ∷ m) = if b.address == addr then some (k, b) else find_broker addr m

abbrev pub refreshed : String → String → ℕ → BrokerInfo → BrokerInfo
refreshed client_addr hostname now b = record b {
  client_addr = client_addr;
  hostname = hostname;
  last_update = now;
}

abbrev pub new_broker : ℕ → (addr client_addr hostname : String) → ℕ → BrokerInfo
new_broker id addr client_addr hostname now = record {
  broker_id = id;
  address = addr;
  client_addr = client_addr;
  hostname = hostname;
  port = 0;
  last_update = now;
}

-- handleRegister, whose reply is the identifier of the broker
unfoldable pub handle_register : (addr client_addr hostname : String) → ℕ → Handle ℕ
unfolding find_broker
handle_register addr client_addr hostname now ns =
    if addr == "" || client_addr == ""
    then (bad_request, ns)
    else elim (find_broker addr ns.brokers) [
      | some (k, b) ↦ (
        success b.broker_id,
        record ns { brokers = insert k (refreshed client_addr hostname now b) ns.brokers },
      )
      | none ↦ (
        success ns.next_id,
        record ns {
          brokers =
              insert ns.next_id (new_broker ns.next_id addr client_addr hostname now) ns.brokers;
          next_id = ns.next_id + 1;
        },
      )
    ]

-- getAvailableBrokers, with the brokers beside their identifiers; 30 seconds in nanoseconds
unfoldable pub get_available_brokers : ℕ → Map ℕ BrokerInfo → List (ℕ × BrokerInfo)
get_available_brokers now [] = []
get_available_brokers now ((id, b) ∷ m) =
    let rest = get_available_brokers now m in
    if ltb (now - b.last_update) 30000000000 then (id, b) ∷ rest else rest

-- `brokerIDs[idx]` and its ClientAddr; the index is always in range
abbrev pub client_addr_at : List (ℕ × BrokerInfo) → ℕ → String
client_addr_at available idx = elim (get_elem? available idx) [
  | none ↦ ""
  | some e ↦ e.1.client_addr
]

-- the inner loop, for `j` from the given number on and at most the given number of rounds
abbrev pub replicas_from : List (ℕ × BrokerInfo) → (i j rounds : ℕ) → List String
replicas_from available i j zero = []
replicas_from available i j (suc rounds) =
    let rest = replicas_from available i (j + 1) rounds in
    if ltb j 3 && ltb j (length available)
    then client_addr_at available ((i + j) % length available) ∷ rest
    else []

-- the partition at `i`; `replicas[0]` is there, as there is a broker
unfoldable pub place : List (ℕ × BrokerInfo) → ℕ → PartitionInfo
place available i =
    let replicas = replicas_from available i 0 3 in
    record {
      partition_id = i;
      leader = elim replicas [ [] ↦ "" | r ∷ rs ↦ r ];
      replicas = replicas;
      isr = replicas;
    }

-- the outer loop, from `i` on and for the given number of partitions
unfoldable pub place_from :
    List (ℕ × BrokerInfo) → (i count : ℕ) → Map ℕ PartitionInfo → Map ℕ PartitionInfo
unfolding place
place_from available i zero m = m
place_from available i (suc count) m =
    place_from available (i + 1) count (insert i (place available i) m)

-- `partitions`, or none where the request is refused
abbrev pub partitions_of : Field → Option ℕ
partitions_of absent = some 1
partitions_of malformed = none
partitions_of (negative n) = none
partitions_of (number n) = if ltb n 1 then none else some n

unfoldable pub create_topic : String → ℕ → ℕ → Handle ℕ
unfolding place_from get_available_brokers
create_topic topic partitions now ns =
    if has_key topic ns.topics
    then (conflict, ns)
    else if length (get_available_brokers now ns.brokers) == 0
    then (unavailable, ns)
    else (
      success partitions,
      record ns {
        topics =
            insert topic
              (record {
                topic = topic;
                partitions = place_from (get_available_brokers now ns.brokers) 0 partitions [];
              })
              ns.topics;
      },
    )

-- handleCreateTopic, whose reply is the number of partitions
unfoldable pub handle_create_topic : String → Field → ℕ → Handle ℕ
unfolding create_topic
handle_create_topic topic field now ns =
    if topic == "" then (bad_request, ns) else elim (partitions_of field) [
      | none ↦ (bad_request, ns)
      | some partitions ↦ create_topic topic partitions now ns
    ]

-- hashString: `h = 31*h + int64(s[i])` wraps; the int64 is given by its 64 bits
abbrev pub hash_from : ℕ → List ℕ → ℕ
hash_from h [] = h
hash_from h (c ∷ cs) = hash_from ((31 * h + c) % 2 ^ 64) cs

abbrev pub hash_string : List ℕ → ℕ
hash_string s = hash_from 0 s

-- `%` of a signed number rounds towards zero; the sign of a negative remainder is then dropped
abbrev pub key_partition : List ℕ → ℕ → ℕ
key_partition key partitions =
    let h = hash_string key in if ltb h (2 ^ 63) then h % partitions else (2 ^ 64 - h) % partitions

-- the partition that a route asks for, or none where the request is refused; a partition below zero
-- is some that no topic has
abbrev pub wanted : Field → List ℕ → Map ℕ PartitionInfo → Option (Option ℕ)
wanted absent [] ps = some (some 0)
wanted absent (c ∷ cs) ps = some (some (key_partition (c ∷ cs) (length ps)))
wanted malformed key ps = none
wanted (negative n) key ps = some none
wanted (number n) key ps = some (some n)

abbrev pub route_to : Option ℕ → Map ℕ PartitionInfo → Response PartitionInfo
route_to none ps = internal_error
route_to (some id) ps = elim (lookup id ps) [ none ↦ internal_error | some info ↦ success info ]

-- handleRoute, which changes nothing
unfoldable pub handle_route : String → Field → List ℕ → NameServer → Response PartitionInfo
handle_route topic partition key ns =
    if topic == "" then bad_request else elim (lookup topic ns.topics) [
      | none ↦ not_found
      | some info ↦
          if length info.partitions == 0
          then internal_error
          else elim (wanted partition key info.partitions) [
            | none ↦ bad_request
            | some id ↦ route_to id info.partitions
          ]
    ]

-- handleTopicInfo
abbrev pub handle_topic_info : String → NameServer → Response TopicInfo
handle_topic_info topic ns =
    if topic == ""
    then bad_request
    else elim (lookup topic ns.topics) [ none ↦ not_found | some info ↦ success info ]

-- handleBrokerList and handleBrokerPeers
abbrev pub broker_list : NameServer → List BrokerInfo
broker_list ns = values ns.brokers

abbrev pub broker_peers : NameServer → List String
broker_peers ns = map (λ b. b.address) (values ns.brokers)

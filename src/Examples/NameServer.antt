-- ===== src/Examples/NameServer.antt =====
-- A name server with two brokers, a topic of three partitions and a consumer
-- (cluster/go/nameserver/nameserver.go).
use distributed_mq.Prelude.{ℕ, ◌<◌, ◌≡◌, refl, List, [], ◌∷◌}
use distributed_mq.Prelude.{nat_eq, string_eq}
use distributed_mq.Prelude.Map.{lookup, insert, has_key}
use distributed_mq.Groups.{clear_assignments, do_rebalance}
use distributed_mq.NameServer.{
  BrokerInfo, NameServer, success, absent, number, new_broker, handle_register,
  get_available_brokers, place, create_topic, handle_create_topic, key_partition, handle_route,
}
use distributed_mq.NameServer.Placement.{}
use distributed_mq.NameServer.Route.{key_routed}
use distributed_mq.NameServer.Members.{join, handle_join_group}
use distributed_mq.NameServer.Members.Balance.{AllBalanced}
use distributed_mq.NameServer.Members.Beats.{
  joined_by, topic_created, registered, here, next, Reach-AllBalanced,
}

abbrev no_server : NameServer
no_server = record { topics = []; brokers = []; consumer_groups = []; next_id = 1 }

abbrev with_brokers : NameServer
with_brokers =
    (handle_register "b:1" "b:2" "b" 10 (handle_register "a:1" "a:2" "a" 10 no_server).1).1

topic_made : (handle_create_topic "orders" (number 3) 20 with_brokers).0 ≡ success 3
unfolding handle_create_topic create_topic handle_register get_available_brokers lookup insert
    has_key
topic_made = refl

key_routed_example :
    (handle_route "orders" absent
        (97 ∷ 98 ∷ [])
        (handle_create_topic "orders" (number 3) 20 with_brokers).1
      ≡ success
          (place (get_available_brokers 20 with_brokers.brokers) (key_partition (97 ∷ 98 ∷ []) 3)))
    × (key_partition (97 ∷ 98 ∷ []) 3 < 3)
key_routed_example = key_routed "orders" (number 3) 3 20 97 (98 ∷ []) with_brokers topic_made

abbrev two_brokers : List (ℕ × BrokerInfo)
two_brokers = (1, new_broker 1 "a:1" "a:2" "a" 10) ∷ (2, new_broker 2 "b:1" "b:2" "b" 10) ∷ []

second_placed : (place two_brokers 1).replicas ≡ "b:2" ∷ "a:2" ∷ []
unfolding place
second_placed = refl

abbrev with_topic : NameServer
with_topic = (handle_create_topic "orders" (number 3) 20 with_brokers).1

abbrev with_consumer : NameServer
with_consumer = (handle_join_group "g" "c" "orders" 30 with_topic).1

consumer_gets_all :
    (handle_join_group "g" "c" "orders" 30 with_topic).0
    ≡ success (record { generation = 2; assignments = 0 ∷ 1 ∷ 2 ∷ [] })
unfolding handle_join_group join handle_create_topic create_topic handle_register
    get_available_brokers do_rebalance clear_assignments lookup insert has_key
consumer_gets_all = refl

Reach-AllBalanced_example : AllBalanced with_consumer
Reach-AllBalanced_example =
    Reach-AllBalanced no_server with_consumer
      (next
        (next (next (next here (registered "a:1" "a:2" "a" 10)) (registered "b:1" "b:2" "b" 10))
          (topic_created "orders" (number 3) 20))
        (joined_by "g" "c" "orders" 30))
      tt

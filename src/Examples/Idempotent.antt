-- ===== src/Examples/Idempotent.antt =====
-- A producer that sends a message twice (cluster/go/broker/idempotent/idempotent.go).
use distributed_mq.Prelude.{◌≡◌, refl, ◌≢◌, true, some, arith}
use distributed_mq.Prelude.{nat_eq, string_eq}
use distributed_mq.Prelude.Map.{lookup, insert, has_key}
use distributed_mq.Idempotent.{
  ProducerState, IdempotentManager, new_idempotent_manager, fresh, make_room, check_and_record,
}
use distributed_mq.Idempotent.Steps.{checked, IsValid}
use distributed_mq.Idempotent.Window.{here, next, accepted_once}

abbrev no_producers : IdempotentManager
no_producers = new_idempotent_manager 2 1000

no_producers-IsValid : IsValid no_producers
no_producers-IsValid = (tt, omega arith)

abbrev after_first : IdempotentManager
after_first = (check_and_record "p" 7 "orders-0" 5 no_producers).1

abbrev after_second : IdempotentManager
after_second = (check_and_record "q" 1 "orders-0" 6 after_first).1

first_accepted : (check_and_record "p" 7 "orders-0" 5 no_producers).0 ≡ fresh
unfolding check_and_record lookup
first_accepted = refl

still_there : has_key "p" after_second.producer_state ≡ true
unfolding check_and_record make_room lookup insert has_key
still_there = refl

accepted_once_example : (check_and_record "p" 6 "orders-1" 8 after_second).0 ≢ fresh
accepted_once_example =
    accepted_once "p" 7 6 "orders-0" "orders-1" 5 8 no_producers after_second no_producers-IsValid
      first_accepted (next here (checked "q" 1 "orders-0" 6) still_there) (omega arith)

abbrev seven : ProducerState
seven = record { last_sequence_number = 7; last_active_time = 5; topic_partition = "orders-0" }

p_known : lookup "p" after_first.producer_state ≡ some seven
unfolding check_and_record make_room lookup insert
p_known = refl

-- ===== src/Idempotent.antt =====
-- The idempotent producers of a broker, cluster/go/broker/idempotent/idempotent.go. Each method
-- holds the mutex from its start to its end, so that it is one step. The objects that the map
-- points to are written by these methods alone, so that the map holds them. A time is a number of
-- nanoseconds, and 0 is the zero time. Of a sequence number, an int64, only
-- the order matters: it is counted from the least one.
use distributed_mq.Prelude.{
  ltb, leb, if◌then◌else◌, ◌==◌, length, ℕ, ◌-◌, String, not, Option, none, some, [], ◌∷◌,
}
use distributed_mq.Prelude.{nat_eq, string_eq}
pub mod Steps
pub mod Window
use distributed_mq.Oldest.{scan_oldest}
use distributed_mq.Prelude.Map.{Map, lookup, insert, delete}

pub record ProducerState : Type 0 where
  pub last_sequence_number : ℕ
  pub last_active_time : ℕ
  pub topic_partition : String

pub record IdempotentManager : Type 0 where
  pub producer_state : Map String ProducerState
  pub max_producers : ℕ
  pub expire_after : ℕ

-- NewIdempotentManager
abbrev pub new_idempotent_manager : ℕ → ℕ → IdempotentManager
new_idempotent_manager max expire = record {
  producer_state = [];
  max_producers = max;
  expire_after = expire;
}

-- what CheckAndRecord returns: (true, nil), (false, nil), or an error
pub data Verdict : Type 0 where
  fresh duplicate other_partition too_old : Verdict

abbrev pub last_active : ProducerState → ℕ
last_active s = s.last_active_time

unfoldable pub make_room : IdempotentManager → IdempotentManager
make_room im =
    if leb im.max_producers (length im.producer_state)
    then record im {
      producer_state =
          delete (scan_oldest last_active im.producer_state ("", 0)).0 im.producer_state;
    }
    else im

abbrev pub record_at : String → ProducerState → IdempotentManager → IdempotentManager
record_at pid s im = record im { producer_state = insert pid s im.producer_state }

-- CheckAndRecord for a producer with the given state
unfoldable pub check_known :
    String → ℕ → String → ℕ → ProducerState → IdempotentManager → Verdict × IdempotentManager
check_known pid seq topic_partition now s im =
    if not (s.topic_partition == topic_partition)
    then (other_partition, im)
    else if ltb seq s.last_sequence_number
    then (too_old, im)
    else if seq == s.last_sequence_number
    then (duplicate, im)
    else (fresh, record_at pid (record s { last_sequence_number = seq; last_active_time = now }) im)

-- CheckAndRecord
unfoldable pub check_and_record :
    String → ℕ → String → ℕ → IdempotentManager → Verdict × IdempotentManager
unfolding make_room check_known
check_and_record pid seq topic_partition now im = elim (lookup pid im.producer_state) [
  | none ↦ (
    fresh,
    record_at pid
        (record {
          last_sequence_number = seq;
          last_active_time = now;
          topic_partition = topic_partition;
        })
        (make_room im),
  )
  | some s ↦ check_known pid seq topic_partition now s im
]

-- the loop of cleanupExpired; Go allows the deletion of the entry that `range` is at
unfoldable pub expire_all : ℕ → ℕ → Map String ProducerState → Map String ProducerState
expire_all now expire_after [] = []
expire_all now expire_after ((pid, s) ∷ m) =
    let rest = expire_all now expire_after m in
    if ltb expire_after (now - s.last_active_time) then rest else (pid, s) ∷ rest

-- one tick of cleanupExpired
unfoldable pub cleanup_expired : ℕ → IdempotentManager → IdempotentManager
unfolding expire_all
cleanup_expired now im = record im {
  producer_state = expire_all now im.expire_after im.producer_state;
}

-- GetProducerState
abbrev pub get_producer_state : String → IdempotentManager → Option ProducerState
get_producer_state pid im = lookup pid im.producer_state

-- RemoveProducer
unfoldable pub remove_producer : String → IdempotentManager → IdempotentManager
remove_producer pid im = record im { producer_state = delete pid im.producer_state }

-- GetActiveProducers
abbrev pub get_active_producers : IdempotentManager → ℕ
get_active_producers im = length im.producer_state

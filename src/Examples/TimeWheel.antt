-- ===== src/Examples/TimeWheel.antt =====
-- A wheel (cluster/go/broker/storage/timewheel.go) of four buckets with two messages in the next one.
use distributed_mq.Prelude.{get_elem?, ℕ, zero, suc, ◌≡◌, refl, some, List, [], ◌∷◌, arith}
use distributed_mq.Prelude.{nat_eq}
use distributed_mq.Prelude.Int.{pos}
use distributed_mq.Go.{ret}
use distributed_mq.TimeWheel.{
  DelayedMessage, Bucket, TimeWheel, set_at, dispatch_message, append_message, add_message,
  begin_tick, TickEnv, tick_message, tick_loop, quiet, tick,
}
use distributed_mq.TimeWheel.Sharing.{handle_all, IsApart, tick-handle_all}
use distributed_mq.TimeWheel.Ticks.{held, IsReady, tick-held}

abbrev delayed : ℕ → DelayedMessage
delayed at = record { topic = "orders"; partition = pos 0; payload = 7 ∷ []; delivery_at = at }

-- one is due at once, and one after 350 milliseconds
abbrev two_delayed : List DelayedMessage
two_delayed = delayed 5 ∷ delayed 350000000 ∷ []

abbrev wheel_slots : ℕ → List DelayedMessage
wheel_slots zero = two_delayed
wheel_slots (suc i) = []

abbrev wheel_buckets : ℕ → Bucket
wheel_buckets zero = record { array = 0; size = 2 }
wheel_buckets (suc i) = record { array = suc i; size = 0 }

abbrev four_buckets : TimeWheel
four_buckets = record {
  tick_ms = 100;
  wheel_size = 4;
  current_index = 0;
  arrays = wheel_slots;
  next_array = 4;
  buckets = wheel_buckets;
  dispatch_ch = [];
}

abbrev at_six : ℕ → TickEnv
at_six i = record { after_at = 6; equal_at = 6; added_at = 6; spare = [] }

own_array : (j : ℕ) → (wheel_buckets j).array ≡ 0 → j ≡ 0
own_array zero h = refl
own_array (suc j) h = absurd (omega arith)

four_buckets-IsApart : IsApart four_buckets
four_buckets-IsApart = record {
  wheel = omega arith;
  there = omega arith;
  inside = omega arith;
  apart = own_array;
}

tick-handle_all_example :
    tick at_six quiet four_buckets ≡ handle_all at_six 0 two_delayed (begin_tick four_buckets).1
tick-handle_all_example = tick-handle_all at_six four_buckets four_buckets-IsApart

four_buckets-IsReady : IsReady four_buckets
four_buckets-IsReady = record { ticks = omega arith; inside = omega arith; within = omega arith }

four_buckets-held :
    ((tick at_six quiet four_buckets).0 ≡ ret tt)
    × (held (tick at_six quiet four_buckets).1 ≡ held four_buckets)
four_buckets-held = tick-held at_six four_buckets four_buckets-IsReady (omega arith)

-- the message that is not due goes back to the same bucket, over the slot of the first one
second_waits : get_elem? ((tick at_six quiet four_buckets).1.arrays 0) 0 ≡ some (delayed 350000000)
unfolding tick begin_tick tick_loop tick_message add_message append_message dispatch_message set_at
second_waits = refl

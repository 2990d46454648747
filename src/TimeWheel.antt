-- ===== src/TimeWheel.antt =====
-- The wheel of delayed messages, cluster/go/broker/storage/timewheel.go. A slice of a bucket is a
-- reference to an array and a size, so that two slices may share an array; the length of the
-- array is the capacity. tick is taken apart: other calls come between the messages that it handles.
-- A time is a number of nanoseconds.
pub mod Sharing
pub mod Ticks
use distributed_mq.Prelude.{
  ltb, if◌then◌else◌, ◌==◌, length, get_elem?, take, drop, ℕ, zero, suc, ◌+◌, ◌-◌, ◌/◌, ◌%◌, String,
  ◌||◌, none, some, List, [], ◌∷◌, ◌++◌,
}
use distributed_mq.Prelude.{nat_eq}
use distributed_mq.Prelude.Int.{ℤ}
use distributed_mq.Go.{ret, panic, Exec, ◌>>=◌, ◌>>◌}

pub record DelayedMessage : Type 0 where
  pub topic : String
  pub partition : ℤ
  pub payload : List ℕ
  pub delivery_at : ℕ

pub record Bucket : Type 0 where
  pub array : ℕ
  pub size : ℕ

pub record TimeWheel : Type 0 where
  pub tick_ms : ℕ
  pub wheel_size : ℕ
  pub current_index : ℕ
  pub arrays : ℕ → List DelayedMessage
  pub next_array : ℕ
  pub buckets : ℕ → Bucket
  pub dispatch_ch : List DelayedMessage

-- `f[i] = x`
unfoldable pub set_at {ℓ} : {A : Type ℓ} → ℕ → A → (ℕ → A) → ℕ → A
set_at i x f j = if i == j then x else f j

-- NewTimeWheel; the buckets have empty arrays, one each
abbrev pub new_time_wheel : (tick_ms wheel_size : ℕ) → TimeWheel
new_time_wheel tick_ms wheel_size = record {
  tick_ms = tick_ms;
  wheel_size = wheel_size;
  current_index = 0;
  arrays = λ i. [];
  next_array = wheel_size;
  buckets = λ i. record { array = i; size = 0 };
  dispatch_ch = [];
}

-- dispatchMessage: the channel has room for 1000 messages, and what finds no room is dropped
unfoldable pub dispatch_message : DelayedMessage → TimeWheel → TimeWheel
dispatch_message msg tw =
    if ltb (length tw.dispatch_ch) 1000
    then record tw { dispatch_ch = tw.dispatch_ch ++ msg ∷ [] }
    else tw

-- an array with one slot written
abbrev pub with_slot : ℕ → DelayedMessage → List DelayedMessage → List DelayedMessage
with_slot i msg slots = take i slots ++ msg ∷ drop (suc i) slots

-- `append` to the slice of a bucket: in place where the array has room, and otherwise in a new array,
-- whose free slots are `spare`
unfoldable pub append_message :
    (spare : List DelayedMessage) → (index : ℕ) → DelayedMessage → TimeWheel → TimeWheel
unfolding set_at
append_message spare index msg tw =
    let b = tw.buckets index in
    let slots = tw.arrays b.array in
    if ltb b.size (length slots)
    then record tw {
      arrays = set_at b.array (with_slot b.size msg slots) tw.arrays;
      buckets = set_at index (record { array = b.array; size = b.size + 1 }) tw.buckets;
    }
    else record tw {
      arrays = set_at tw.next_array (take b.size slots ++ msg ∷ spare) tw.arrays;
      next_array = tw.next_array + 1;
      buckets = set_at index (record { array = tw.next_array; size = b.size + 1 }) tw.buckets;
    }

-- the milliseconds from now to a time, 0 where it is over
abbrev pub delay_ms : (now at : ℕ) → ℕ
delay_ms now at = (at - now) / 1000000

-- AddMessage; it divides by the two numbers of the wheel
unfoldable pub add_message :
    (spare : List DelayedMessage) → (now : ℕ) → DelayedMessage → Exec TimeWheel (Unit {0})
unfolding append_message dispatch_message
add_message spare now msg tw =
    if delay_ms now msg.delivery_at == 0
    then (ret tt, dispatch_message msg tw)
    else if tw.tick_ms == 0 || tw.wheel_size == 0
    then (panic, tw)
    else (
      ret tt,
      append_message spare
          ((tw.current_index + delay_ms now msg.delivery_at / tw.tick_ms) % tw.wheel_size) msg tw,
    )

-- tick up to the loop: the slice that it goes through; the bucket keeps the array
unfoldable pub begin_tick : Exec TimeWheel Bucket
unfolding set_at
begin_tick tw =
    let b = tw.buckets tw.current_index in
    if tw.wheel_size == 0 then (panic, tw) else (
      ret b,
      record tw {
        current_index = (tw.current_index + 1) % tw.wheel_size;
        buckets = set_at tw.current_index (record { array = b.array; size = 0 }) tw.buckets;
      },
    )

-- the readings of the clock for one message, and the free slots of a new array
pub record TickEnv : Type 0 where
  pub after_at : ℕ
  pub equal_at : ℕ
  pub added_at : ℕ
  pub spare : List DelayedMessage

-- a round of the loop of tick
unfoldable pub tick_message : TickEnv → DelayedMessage → Exec TimeWheel (Unit {0})
unfolding add_message dispatch_message
tick_message env msg tw =
    if ltb msg.delivery_at env.after_at || msg.delivery_at == env.equal_at
    then (ret tt, dispatch_message msg tw)
    else add_message env.spare env.added_at msg tw

-- the loop of tick over a slice, from slot `i` on; `between` is what other calls do before a round.
-- Each slot below the size of a slice is one of its array.
unfoldable pub tick_loop :
    (ℕ → TickEnv)
    → (between : ℕ → TimeWheel → TimeWheel) → (array rounds i : ℕ) → Exec TimeWheel (Unit {0})
unfolding tick_message
tick_loop env between array zero i tw = (ret tt, tw)
tick_loop env between array (suc rounds) i tw = elim (get_elem? ((between i tw).arrays array) i) [
  | none ↦ (panic, between i tw)
  | some msg ↦
      (tick_message (env i) msg >> tick_loop env between array rounds (i + 1)) (between i tw)
]

-- Nothing happens between the rounds.
abbrev pub quiet : ℕ → TimeWheel → TimeWheel
quiet i tw = tw

-- tick
unfoldable pub tick :
    (ℕ → TickEnv) → (between : ℕ → TimeWheel → TimeWheel) → Exec TimeWheel (Unit {0})
unfolding begin_tick tick_loop
tick env between = begin_tick >>= λ messages. tick_loop env between messages.array messages.size 0

-- the sizes of the first `n` buckets
unfoldable pub sizes_below : ℕ → (ℕ → Bucket) → ℕ
sizes_below zero buckets = 0
sizes_below (suc n) buckets = sizes_below n buckets + (buckets n).size

-- GetPendingCount
abbrev pub get_pending_count : TimeWheel → ℕ
get_pending_count tw = sizes_below tw.wheel_size tw.buckets

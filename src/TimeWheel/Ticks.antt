-- ===== src/TimeWheel/Ticks.antt =====
-- The number of messages over a tick (cluster/go/broker/storage/timewheel.go).
use native.Mathlib.Decide.{}
use distributed_mq.Prelude.{
  ltb, nat_beq_iff, Bool-cases, if-elim, ◌==◌, length, get_elem?, length-append,
  get_elem?-some_of_lt, ℕ, zero, suc, ◌+◌, ◌/◌, ◌%◌, ◌≤◌, ◌<◌, ◌≡◌, refl, ap, ◌∙◌, inl, inr, false,
  ◌||◌, some, List, [], ◌∷◌, arith,
}
use distributed_mq.Prelude.{nat_eq}
use distributed_mq.Go.{Outcome, ret, continue}
use distributed_mq.TimeWheel.{
  DelayedMessage, Bucket, TimeWheel, set_at, dispatch_message, with_slot, append_message, delay_ms,
  add_message, begin_tick, TickEnv, tick_message, tick_loop, quiet, tick, sizes_below,
  get_pending_count,
}

sizes_below-outside :
    (n index : ℕ) (b : Bucket) (buckets : ℕ → Bucket)
    → n ≤ index
    → sizes_below n (set_at index b buckets) ≡ sizes_below n buckets
unfolding sizes_below set_at
sizes_below-outside zero index b buckets h = refl
sizes_below-outside (suc n) index b buckets h =
    ground (arith, sizes_below-outside n index b buckets (omega arith))

-- A write to one bucket changes the sum of the sizes by what it changes the size of that bucket.
sizes_below-set_at :
    (n index : ℕ) (b : Bucket) (buckets : ℕ → Bucket)
    → index < n
    → sizes_below n (set_at index b buckets) + (buckets index).size ≡ sizes_below n buckets + b.size
unfolding sizes_below set_at
sizes_below-set_at zero index b buckets h = absurd (omega arith)
sizes_below-set_at (suc n) index b buckets h = elim (Bool-cases (index == n)) [
  | inl same ↦
      ground (arith, same, (nat_beq_iff index n).0 same, sizes_below-outside n index b buckets)
  | inr differ ↦ ground (arith, differ, nat_beq_iff index n, sizes_below-set_at n index b buckets)
]

-- Messages that wait, and messages that were dispatched.
abbrev pub held : TimeWheel → ℕ
held tw = get_pending_count tw + length tw.dispatch_ch

length-with_slot :
    (i : ℕ) (msg : DelayedMessage) (slots : List DelayedMessage)
    → i < length slots
    → length (with_slot i msg slots) ≡ length slots
length-with_slot zero msg [] h = absurd (omega arith)
length-with_slot zero msg (x ∷ slots) h = refl
length-with_slot (suc i) msg [] h = absurd (omega arith)
length-with_slot (suc i) msg (x ∷ slots) h = ap suc (length-with_slot i msg slots (omega arith))

-- The slots of a slice are those of an array that is there.
abbrev pub Within : (array n : ℕ) → TimeWheel → Type 0
Within array n tw = (array < tw.next_array) × (n ≤ length (tw.arrays array))

-- What a round does: one message more is held, and the slice stays within its array.
abbrev Round : (array n : ℕ) → TimeWheel → Outcome (Unit {0}) × TimeWheel → Type 0
Round array n tw r =
    (r.0 ≡ ret tt)
    × (held r.1 ≡ held tw + 1)
    × (length r.1.dispatch_ch ≤ length tw.dispatch_ch + 1)
    × Within array n r.1
    × (r.1.tick_ms ≡ tw.tick_ms)
    × (r.1.wheel_size ≡ tw.wheel_size)

dispatch_message-Round :
    (msg : DelayedMessage) (array n : ℕ) (tw : TimeWheel)
    → length tw.dispatch_ch < 1000
    → Within array n tw
    → Round array n tw (ret tt, dispatch_message msg tw)
unfolding dispatch_message
dispatch_message-Round msg array n tw room (there, within) =
    ground (arith, room, there, within, length-append tw.dispatch_ch (msg ∷ []))

append_message-Round :
    (spare : List DelayedMessage) (index : ℕ) (msg : DelayedMessage) (array n : ℕ) (tw : TimeWheel)
    → index < tw.wheel_size
    → Within array n tw
    → Round array n tw (ret tt, append_message spare index msg tw)
unfolding append_message
append_message-Round spare index msg array n tw inside (there, within) =
    let b = tw.buckets index in
    ground (
      arith,
      there,
      within,
      sizes_below-set_at tw.wheel_size index (record { array = b.array; size = b.size + 1 })
          tw.buckets inside,
      sizes_below-set_at tw.wheel_size index (record { array = tw.next_array; size = b.size + 1 })
          tw.buckets inside,
      length-with_slot b.size msg (tw.arrays b.array),
    )

tick_message-Round :
    (env : TickEnv) (msg : DelayedMessage) (array n : ℕ) (tw : TimeWheel)
    → 0 < tw.tick_ms
    → 0 < tw.wheel_size
    → length tw.dispatch_ch < 1000
    → Within array n tw
    → Round array n tw (tick_message env msg tw)
unfolding tick_message add_message
tick_message-Round env msg array n tw ticks wheel room within =
    let place =
      (tw.current_index + delay_ms env.added_at msg.delivery_at / tw.tick_ms) % tw.wheel_size in
    let inside : place < tw.wheel_size = omega arith in
    if-elim (Round array n tw) (ltb msg.delivery_at env.after_at || msg.delivery_at == env.equal_at)
      _ _ (λ _. dispatch_message-Round msg array n tw room within)
      (λ _.
        if-elim (Round array n tw) (delay_ms env.added_at msg.delivery_at == 0) _ _
          (λ _. dispatch_message-Round msg array n tw room within)
          (λ _.
            if-elim (Round array n tw) (tw.tick_ms == 0 || tw.wheel_size == 0) _ _
              (λ broken. absurd (ground (arith, broken, ticks, wheel)))
              (λ _. append_message-Round env.spare place msg array n tw inside within)))

tick_loop-quiet :
    (env : ℕ → TickEnv) (array rounds i : ℕ) (msg : DelayedMessage) (tw : TimeWheel)
    → get_elem? (tw.arrays array) i ≡ some msg
    → (tick_message (env i) msg tw).0 ≡ ret tt
    → tick_loop env quiet array (suc rounds) i tw
      ≡ tick_loop env quiet array rounds (i + 1) (tick_message (env i) msg tw).1
unfolding tick_loop
tick_loop-quiet env array rounds i msg tw found returns =
    let loop = tick_loop env quiet array rounds (i + 1) in
    rw (found, tick_loop) (ap (λ o. continue o (λ _. loop) (tick_message (env i) msg tw).1) returns)

tick_loop-held :
    (env : ℕ → TickEnv) (array rounds i : ℕ) (tw : TimeWheel)
    → 0 < tw.tick_ms
    → 0 < tw.wheel_size
    → length tw.dispatch_ch + rounds ≤ 1000
    → Within array (i + rounds) tw
    → ((tick_loop env quiet array rounds i tw).0 ≡ ret tt)
      × (held (tick_loop env quiet array rounds i tw).1 ≡ held tw + rounds)
unfolding tick_loop
tick_loop-held env array zero i tw ticks wheel room within = (refl, omega arith)
tick_loop-held env array (suc rounds) i tw ticks wheel room (there, within) =
    let (msg, found) = get_elem?-some_of_lt (tw.arrays array) i (omega (arith, within)) in
    let (returns, counted, more, still, same_ticks, same_wheel) =
      tick_message-Round (env i) msg array (i + suc rounds) tw ticks wheel (omega (arith, room))
        (there, within) in
    let (ends, total) =
      tick_loop-held env array rounds (i + 1) (tick_message (env i) msg tw).1
        (omega (arith, same_ticks, ticks)) (omega (arith, same_wheel, wheel))
        (omega (arith, more, room)) (still.0, omega (arith, still.1)) in
    let step = tick_loop-quiet env array rounds i msg tw found returns in
    (
      ap (λ r. r.0) step ∙ ends,
      ap (λ (r : Outcome (Unit {0}) × TimeWheel). held r.1) step ∙ omega (arith, total, counted),
    )

-- A wheel as AddMessage and tick leave it: its numbers are above zero, and the next bucket is one of the
-- wheel and lies within its array.
pub record IsReady (tw : TimeWheel) : Type 0 where
  pub ticks : 0 < tw.tick_ms
  pub inside : tw.current_index < tw.wheel_size
  pub within : Within (tw.buckets tw.current_index).array (tw.buckets tw.current_index).size tw

-- A tick that no other call interrupts, on a wheel whose next bucket lies within its array, and whose
-- channel has room for the messages of that bucket, returns, and the number of the messages that wait or
-- are in the channel is what it was: none is lost and none is counted twice.
pub tick-held :
    (env : ℕ → TickEnv) (tw : TimeWheel)
    → IsReady tw
    → length tw.dispatch_ch + (tw.buckets tw.current_index).size ≤ 1000
    → ((tick env quiet tw).0 ≡ ret tt) × (held (tick env quiet tw).1 ≡ held tw)
unfolding tick begin_tick set_at
tick-held env tw ready room =
    let b = tw.buckets tw.current_index in
    let emptied : Bucket = record { array = b.array; size = 0 } in
    let begun = record tw {
      current_index = (tw.current_index + 1) % tw.wheel_size;
      buckets = set_at tw.current_index emptied tw.buckets;
    } in
    let nonzero : (tw.wheel_size == 0) ≡ false = ground (arith, ready.inside) in
    let taken = sizes_below-set_at tw.wheel_size tw.current_index emptied tw.buckets ready.inside in
    let (returns, total) =
      tick_loop-held env b.array b.size 0 begun ready.ticks (omega (arith, ready.inside)) room
        (ready.within.0, omega (arith, ready.within.1)) in
    rw nonzero (returns, omega (arith, total, taken))

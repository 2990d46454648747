-- ===== src/TimeWheel/Sharing.antt =====
-- The slice that tick goes through shares its array with the bucket, which tick may refill while it goes on
-- (cluster/go/broker/storage/timewheel.go).
use distributed_mq.Prelude.{
  ltb, nat_beq_iff, if-elim, ◌==◌, length, get_elem?, take, length-take-le, get_elem?-take, ℕ, zero,
  suc, ◌+◌, ◌/◌, ◌%◌, ◌≤◌, ◌<◌, ◌≡◌, refl, sym, ap, ◌∙◌, false, ◌||◌, some, List, [], ◌∷◌, ◌++◌,
  arith,
}
use distributed_mq.Prelude.{nat_eq}
use distributed_mq.Go.{Outcome, ret, panic, blocked, Exec, continue, ◌>>◌}
use distributed_mq.TimeWheel.{
  DelayedMessage, Bucket, TimeWheel, set_at, dispatch_message, with_slot, append_message, delay_ms,
  add_message, begin_tick, TickEnv, tick_message, tick_loop, quiet, tick,
}

-- The rounds of tick over a list of messages.
unfoldable pub handle_all : (ℕ → TickEnv) → ℕ → List DelayedMessage → Exec TimeWheel (Unit {0})
handle_all env i [] tw = (ret tt, tw)
handle_all env i (msg ∷ msgs) tw = (tick_message (env i) msg >> handle_all env (i + 1) msgs) tw

-- No bucket has more than `i` messages in the array.
abbrev pub Small : (array i : ℕ) → TimeWheel → Type 0
Small array i tw = (j : ℕ) → (tw.buckets j).array ≡ array → (tw.buckets j).size ≤ i

-- What a round leaves of the array: the slots behind `i`.
abbrev Kept : (array i : ℕ) → (before after : TimeWheel) → Type 0
Kept array i before after =
    (array < after.next_array)
    × Small array (i + 1) after
    × ((j : ℕ) → i < j → get_elem? (after.arrays array) j ≡ get_elem? (before.arrays array) j)

get_elem?-with_slot :
    (k : ℕ) (msg : DelayedMessage) (slots : List DelayedMessage) (j : ℕ)
    → k < j
    → k < length slots
    → get_elem? (with_slot k msg slots) j ≡ get_elem? slots j
get_elem?-with_slot k msg [] j h inside = absurd (omega arith)
get_elem?-with_slot k msg (x ∷ slots) zero h inside = absurd (omega arith)
get_elem?-with_slot zero msg (x ∷ slots) (suc j) h inside = refl
get_elem?-with_slot (suc k) msg (x ∷ slots) (suc j) h inside =
    get_elem?-with_slot k msg slots j (omega arith) (omega arith)

set_at-Small :
    (array i index : ℕ) (b : Bucket) (tw : TimeWheel)
    → Small array i tw
    → (b.array ≡ array → b.size ≤ i + 1)
    → (j : ℕ) → (set_at index b tw.buckets j).array ≡ array
    → (set_at index b tw.buckets j).size ≤ i + 1
unfolding set_at
set_at-Small array i index b tw small one j =
    if-elim (λ (x : Bucket). x.array ≡ array → x.size ≤ i + 1) (index == j) b (tw.buckets j)
      (λ _. one) (λ _ same. omega (arith, small j same))

append_message-Kept :
    (spare : List DelayedMessage) (index : ℕ) (msg : DelayedMessage) (array i : ℕ) (tw : TimeWheel)
    → array < tw.next_array
    → Small array i tw
    → Kept array i tw (append_message spare index msg tw)
unfolding append_message
append_message-Kept spare index msg array i tw there small =
    let b = tw.buckets index in
    let slots = tw.arrays b.array in
    if-elim (Kept array i tw) (ltb b.size (length slots)) _ _
      (λ roomy. (
        there,
        set_at-Small array i index (record { array = b.array; size = b.size + 1 }) tw small
            (λ same. omega (arith, small index same)),
        (λ j h.
            unfold set_at in
            if-elim (λ xs. get_elem? xs j ≡ get_elem? (tw.arrays array) j) (b.array == array)
              (with_slot b.size msg slots) (tw.arrays array)
              (λ is_it.
                let same = (nat_beq_iff b.array array).0 is_it in
                get_elem?-with_slot b.size msg slots j (omega (arith, small index same))
                  (ground (arith, roomy))
                ∙ ap (λ a. get_elem? (tw.arrays a) j) same)
              (λ _. refl)),
      ))
      (λ full. (
        omega (arith, there),
        set_at-Small array i index (record { array = tw.next_array; size = b.size + 1 }) tw small
            (λ same. absurd (omega (arith, same, there))),
        (λ j h.
            unfold set_at in
            if-elim (λ xs. get_elem? xs j ≡ get_elem? (tw.arrays array) j) (tw.next_array == array)
              (take b.size slots ++ msg ∷ spare) (tw.arrays array)
              (λ is_it. absurd (omega (arith, (nat_beq_iff tw.next_array array).0 is_it, there)))
              (λ _. refl)),
      ))

dispatch_message-Kept :
    (msg : DelayedMessage) (array i : ℕ) (tw : TimeWheel)
    → array < tw.next_array
    → Small array i tw
    → Kept array i tw (dispatch_message msg tw)
unfolding dispatch_message
dispatch_message-Kept msg array i tw there small =
    if-elim (Kept array i tw) (ltb (length tw.dispatch_ch) 1000) _ _
      (λ _. (there, (λ j same. omega (arith, small j same)), (λ j h. refl)))
      (λ _. (there, (λ j same. omega (arith, small j same)), (λ j h. refl)))

tick_message-Kept :
    (env : TickEnv) (msg : DelayedMessage) (array i : ℕ) (tw : TimeWheel)
    → array < tw.next_array
    → Small array i tw
    → Kept array i tw (tick_message env msg tw).1
unfolding tick_message add_message
tick_message-Kept env msg array i tw there small =
    let P : Outcome (Unit {0}) × TimeWheel → Type 0 = λ r. Kept array i tw r.1 in
    let sent = dispatch_message-Kept msg array i tw there small in
    if-elim P (ltb msg.delivery_at env.after_at || msg.delivery_at == env.equal_at) _ _ (λ _. sent)
      (λ _.
        if-elim P (delay_ms env.added_at msg.delivery_at == 0) _ _ (λ _. sent)
          (λ _.
            if-elim P (tw.tick_ms == 0 || tw.wheel_size == 0) _ _
              (λ _. (there, (λ j same. omega (arith, small j same)), (λ j h. refl)))
              (λ _.
                append_message-Kept env.spare
                  ((tw.current_index + delay_ms env.added_at msg.delivery_at / tw.tick_ms)
                    % tw.wheel_size)
                  msg array i tw there small)))

continue-same :
    (o : Outcome (Unit {0})) (f g : Exec TimeWheel (Unit {0})) (tw : TimeWheel)
    → f tw ≡ g tw
    → continue o (λ _. f) tw ≡ continue o (λ _. g) tw
continue-same (ret done) f g tw h = h
continue-same panic f g tw h = refl
continue-same blocked f g tw h = refl

tick_loop-handle_all :
    (env : ℕ → TickEnv) (array i : ℕ) (msgs : List DelayedMessage) (tw : TimeWheel)
    → array < tw.next_array
    → Small array i tw
    → ((j : ℕ) → j < length msgs → get_elem? (tw.arrays array) (i + j) ≡ get_elem? msgs j)
    → tick_loop env quiet array (length msgs) i tw ≡ handle_all env i msgs tw
unfolding tick_loop handle_all
tick_loop-handle_all env array i [] tw there small slots = refl
tick_loop-handle_all env array i (msg ∷ msgs) tw there small slots =
    let (there', small', kept) = tick_message-Kept (env i) msg array i tw there small in
    let left = (tick_message (env i) msg tw).1 in
    let found : get_elem? (tw.arrays array) i ≡ some msg =
      ap (get_elem? (tw.arrays array)) (omega arith) ∙ slots 0 (omega arith) in
    let rest = tick_loop-handle_all env array (i + 1) msgs left there' small' (λ j h.
      kept (i + 1 + j) (omega arith)
      ∙ ap (get_elem? (tw.arrays array)) (omega arith)
      ∙ slots (suc j) (omega (arith, h))) in
    rw (found, tick_loop)
      (continue-same (tick_message (env i) msg tw).0
        (tick_loop env quiet array (length msgs) (i + 1)) (handle_all env (i + 1) msgs) left rest)

-- A wheel whose next bucket has an array of its own that is there.
pub record IsApart (tw : TimeWheel) : Type 0 where
  pub wheel : 0 < tw.wheel_size
  pub there : (tw.buckets tw.current_index).array < tw.next_array
  pub inside :
      (tw.buckets tw.current_index).size ≤ length (tw.arrays (tw.buckets tw.current_index).array)
  pub apart :
      (j : ℕ) → (tw.buckets j).array ≡ (tw.buckets tw.current_index).array → j ≡ tw.current_index

emptied-Small :
    (tw : TimeWheel) (j : ℕ)
    → IsApart tw
    → let b = tw.buckets tw.current_index in
      let after = set_at tw.current_index (record { array = b.array; size = 0 }) tw.buckets in
      (after j).array ≡ b.array → (after j).size ≤ 0
unfolding set_at
emptied-Small tw j own =
    let b = tw.buckets tw.current_index in
    if-elim (λ (x : Bucket). x.array ≡ b.array → x.size ≤ 0) (tw.current_index == j)
      (record { array = b.array; size = 0 }) (tw.buckets j) (λ _ _. omega arith)
      (λ other same.
        absurd (ground (arith, other, own.apart j same, nat_beq_iff tw.current_index j)))

-- tick goes over a slice that shares its array with the bucket, to which tick itself may add messages
-- again. Where the bucket has an array of its own that is there, and no other call comes between, tick
-- nevertheless is the rounds over the messages that the bucket had at its start, in their order.
pub tick-handle_all :
    (env : ℕ → TickEnv) (tw : TimeWheel)
    → IsApart tw
    → tick env quiet tw
      ≡ handle_all env 0
          (take (tw.buckets tw.current_index).size (tw.arrays (tw.buckets tw.current_index).array))
          (begin_tick tw).1
unfolding tick begin_tick
tick-handle_all env tw own =
    let b = tw.buckets tw.current_index in
    let slots = tw.arrays b.array in
    let msgs = take b.size slots in
    let begun = record tw {
      current_index = (tw.current_index + 1) % tw.wheel_size;
      buckets = set_at tw.current_index (record { array = b.array; size = 0 }) tw.buckets;
    } in
    let nonzero : (tw.wheel_size == 0) ≡ false = ground (arith, own.wheel) in
    let size = length-take-le b.size slots own.inside in
    let whole =
      tick_loop-handle_all env b.array 0 msgs begun own.there (λ j. emptied-Small tw j own)
        (λ j h.
          ap (get_elem? slots) (omega arith)
          ∙ sym (get_elem?-take b.size slots j (omega (arith, h, size)))) in
    rw nonzero (ap (λ n. tick_loop env quiet b.array n 0 begun) (sym size) ∙ whole)

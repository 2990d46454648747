-- ===== src/Idempotent/Window.antt =====
-- Sequence numbers of cluster/go/broker/idempotent/idempotent.go are accepted once.
use mathlib.Core.Path.{sym, subst}
use distributed_mq.Prelude.{
  ltb, leb, Bool-cases, if-elim, match-elim, ◌==◌, str_iff, length, ℕ, ◌-◌, ◌≤◌, ◌<◌, String, ◌≡◌,
  refl, ◌∙◌, ◌≢◌, ◌↔◌, ◌⊎◌, inl, inr, true, not, none, some, [], ◌∷◌, arith,
}
use distributed_mq.Prelude.{nat_eq, string_eq}
use distributed_mq.Prelude.Map.{Map, lookup, delete, has_key, lookup-insert, lookup-delete, NoDup}
use distributed_mq.Oldest.{scan_oldest}
use distributed_mq.Idempotent.{
  ProducerState, IdempotentManager, Verdict, fresh, duplicate, other_partition, too_old,
  last_active, make_room, record_at, check_known, check_and_record, expire_all, cleanup_expired,
  remove_producer,
}
use distributed_mq.Idempotent.Steps.{
  Step, checked, cleaned, removed, IsValid, expire_all-absent, check_known-elim, Step-IsValid,
}

-- A run in which the producer `pid` is in the manager after every call.
pub data Keeping (pid : String) (im : IdempotentManager) : IdempotentManager → Type 0 where
  here : Keeping pid im im
  next :
      {a b : IdempotentManager}
      → Keeping pid im a
      → Step a b
      → has_key pid b.producer_state ≡ true
      → Keeping pid im b

-- The manager has seen `seq` from the producer `pid`.
abbrev Seen : String → ℕ → IdempotentManager → Type 0
Seen pid seq im =
    (s : ProducerState) × (lookup pid im.producer_state ≡ some s) × (seq ≤ s.last_sequence_number)

-- The entry of `pid` is dropped or stays.
abbrev Drops : String → Map String ProducerState → Map String ProducerState → Type 0
Drops pid m m' = (lookup pid m' ≡ none) ⊎ (lookup pid m' ≡ lookup pid m)

Drops-Seen :
    (pid : String) (seq : ℕ) (a b : IdempotentManager)
    → Drops pid a.producer_state b.producer_state
    → has_key pid b.producer_state ≡ true
    → Seen pid seq a
    → Seen pid seq b
unfolding has_key
Drops-Seen pid seq a b (inl gone) there seen = absurd (ground arith)
Drops-Seen pid seq a b (inr same) there (s, found, le) = (s, same ∙ found, le)

delete-Drops : (k pid : String) (m : Map String ProducerState) → Drops pid m (delete k m)
delete-Drops k pid m = elim (Bool-cases (k == pid)) [
  | inl same ↦ inl (ground (arith, lookup-delete k pid m))
  | inr other ↦ inr (ground (arith, lookup-delete k pid m))
]

make_room-Drops :
    (pid : String) (im : IdempotentManager)
    → Drops pid im.producer_state (make_room im).producer_state
unfolding make_room
make_room-Drops pid im =
    if-elim (λ (x : IdempotentManager). Drops pid im.producer_state x.producer_state)
      (leb im.max_producers (length im.producer_state)) _ im
      (λ _.
        delete-Drops (scan_oldest last_active im.producer_state ("", 0)).0 pid im.producer_state)
      (λ _. inr refl)

expire_all-Drops :
    (pid : String) (now after : ℕ) (m : Map String ProducerState)
    → NoDup m
    → Drops pid m (expire_all now after m)
unfolding expire_all lookup
expire_all-Drops pid now after [] h = inr refl
expire_all-Drops pid now after ((id, s) ∷ m) (new, h) = elim (Bool-cases (id == pid)) [
  | inl same ↦ elim (Bool-cases (ltb after (now - s.last_active_time))) [
    | inl due ↦ inl (ground (arith, expire_all-absent pid now after m, str_iff id pid))
    | inr alive ↦ inr (ground arith)
  ]
  | inr other ↦ elim (expire_all-Drops pid now after m h) [
    | inl gone ↦ inl (ground arith)
    | inr stays ↦ inr (ground arith)
  ]
]

-- Recording a state that has seen `seq` for `pid`, or any for another producer.
record_at-Seen :
    (k pid : String) (seq : ℕ) (s : ProducerState) (im : IdempotentManager)
    → (k ≡ pid → seq ≤ s.last_sequence_number)
    → Seen pid seq im
    → Seen pid seq (record_at k s im)
record_at-Seen k pid seq s im new (old, found, le) = elim (Bool-cases (k == pid)) [
  | inl same ↦
      let is_pid : k ≡ pid = (str_iff k pid).0 same in
      (s, ground (arith, lookup-insert k pid s im.producer_state), new is_pid)
  | inr other ↦ (old, ground (arith, lookup-insert k pid s im.producer_state), le)
]

-- A new producer is recorded, perhaps in the place of another.
new_producer-Seen :
    (k pid : String) (seq : ℕ) (s : ProducerState) (im : IdempotentManager)
    → lookup k im.producer_state ≡ none
    → has_key pid (record_at k s (make_room im)).producer_state ≡ true
    → Seen pid seq im
    → Seen pid seq (record_at k s (make_room im))
unfolding has_key
new_producer-Seen k pid seq s im unknown there (old, found, le) =
    let stays : Seen pid seq (make_room im) =
      Drops-Seen pid seq im (make_room im) (make_room-Drops pid im)
        (ground (arith, lookup-insert k pid s (make_room im).producer_state, str_iff k pid))
        (old, found, le) in
    record_at-Seen k pid seq s (make_room im) (λ same. absurd (ground arith)) stays

Step-Seen :
    (pid : String) (seq : ℕ) (im : IdempotentManager) {after : IdempotentManager}
    → Step im after
    → IsValid im
    → has_key pid after.producer_state ≡ true
    → Seen pid seq im
    → Seen pid seq after
unfolding check_and_record cleanup_expired remove_producer
Step-Seen pid seq im (checked k n topic_partition now) valid there seen =
    match-elim
      (λ (x : Verdict × IdempotentManager).
        has_key pid x.1.producer_state ≡ true → Seen pid seq x.1)
      (lookup k im.producer_state) _ (λ s. check_known k n topic_partition now s im)
      (λ unknown here. new_producer-Seen k pid seq _ im unknown here seen)
      (λ s found _. check_known-elim (Seen pid seq) k n topic_partition now s im seen (λ higher.
        record_at-Seen k pid seq _ im (λ same. let (old, was, le) = seen in ground arith) seen))
      there
Step-Seen pid seq im (cleaned now) (distinct, _) there seen =
    Drops-Seen pid seq im (cleanup_expired now im)
      (expire_all-Drops pid now im.expire_after im.producer_state distinct) there seen
Step-Seen pid seq im (removed k) valid there seen =
    Drops-Seen pid seq im (remove_producer k im) (delete-Drops k pid im.producer_state) there seen

Keeping-Seen :
    (pid : String) (seq : ℕ) (im after : IdempotentManager)
    → Keeping pid im after
    → IsValid im
    → Seen pid seq im
    → IsValid after × Seen pid seq after
Keeping-Seen pid seq im after here valid seen = (valid, seen)
Keeping-Seen pid seq im after (next {a} run step there) valid seen =
    let (valid', seen') = Keeping-Seen pid seq im a run valid seen in
    (Step-IsValid a step valid', Step-Seen pid seq a step valid' there seen')

recorded-Seen :
    (pid : String) (s : ProducerState) (im : IdempotentManager)
    → Seen pid s.last_sequence_number (record_at pid s im)
recorded-Seen pid s im =
    (s, ground (arith, lookup-insert pid pid s im.producer_state, str_iff pid pid), omega arith)

-- What a verdict of acceptance shows of the pair that a call returns.
abbrev Accepts : String → ℕ → Verdict × IdempotentManager → Type 0
Accepts pid seq x = x.0 ≡ fresh → Seen pid seq x.1

check_known-Accepts :
    (pid : String) (seq : ℕ) (topic_partition : String) (now : ℕ) (s : ProducerState)
    (im : IdempotentManager)
    → Accepts pid seq (check_known pid seq topic_partition now s im)
unfolding check_known
check_known-Accepts pid seq topic_partition now s im =
    if-elim (Accepts pid seq) (not (s.topic_partition == topic_partition)) (other_partition, im) _
      (λ _ bad. cc)
      (λ _.
        if-elim (Accepts pid seq) (ltb seq s.last_sequence_number) (too_old, im) _ (λ _ bad. cc)
          (λ _.
            if-elim (Accepts pid seq) (seq == s.last_sequence_number) (duplicate, im) _
              (λ _ bad. cc)
              (λ _ _.
                recorded-Seen pid (record s { last_sequence_number = seq; last_active_time = now })
                  im)))

accepted-Seen :
    (pid : String) (seq : ℕ) (topic_partition : String) (now : ℕ) (im : IdempotentManager)
    → Accepts pid seq (check_and_record pid seq topic_partition now im)
unfolding check_and_record
accepted-Seen pid seq topic_partition now im =
    match-elim (Accepts pid seq) (lookup pid im.producer_state) _
      (λ s. check_known pid seq topic_partition now s im)
      (λ _ _. recorded-Seen pid _ (make_room im))
      (λ s _. check_known-Accepts pid seq topic_partition now s im)

refused-Seen :
    (pid : String) (seq again : ℕ) (topic_partition : String) (now : ℕ) (im : IdempotentManager)
    → Seen pid seq im
    → again ≤ seq
    → (check_and_record pid again topic_partition now im).0 ≢ fresh
unfolding check_and_record check_known
refused-Seen pid seq again topic_partition now im (s, found, le) below accepted = ground arith

-- After CheckAndRecord on a valid manager has accepted a sequence number of a producer, and after
-- any run in which the producer stays in the manager, it accepts neither that number nor a lower one
-- of that producer, for whatever topic and partition.
pub accepted_once :
    (pid : String) (seq again : ℕ) (topic_partition other : String) (t u : ℕ)
    (im after : IdempotentManager)
    → IsValid im
    → (check_and_record pid seq topic_partition t im).0 ≡ fresh
    → Keeping pid (check_and_record pid seq topic_partition t im).1 after
    → again ≤ seq
    → (check_and_record pid again other u after).0 ≢ fresh
accepted_once pid seq again topic_partition other t u im after valid accepted run below =
    let begun = (check_and_record pid seq topic_partition t im).1 in
    let (_, seen) =
      Keeping-Seen pid seq begun after run
        (Step-IsValid im (checked pid seq topic_partition t) valid)
        (accepted-Seen pid seq topic_partition t im accepted) in
    refused-Seen pid seq again other u after seen below

-- From a producer that is known, on the topic and partition that it is bound to, a sequence number
-- is accepted exactly when it is greater than the last one.
pub check_and_record_lem :
    (pid : String) (seq now : ℕ) (s : ProducerState) (im : IdempotentManager)
    → lookup pid im.producer_state ≡ some s
    → ((check_and_record pid seq s.topic_partition now im).0 ≡ fresh)
      ↔ (s.last_sequence_number < seq)
unfolding check_and_record check_known
check_and_record_lem pid seq now s im found =
    let own = (str_iff s.topic_partition s.topic_partition).1 refl in
    (λ accepted. ground arith, λ higher. ground arith)

-- The last number of `pid` is `seq`, on the given topic and partition.
abbrev Last : String → ℕ → String → IdempotentManager → Type 0
Last pid seq topic_partition im =
    (s : ProducerState) × ((lookup pid im.producer_state ≡ some s)
      × (s.last_sequence_number ≡ seq)
      × (s.topic_partition ≡ topic_partition))

record_at-Last :
    (pid : String) (s : ProducerState) (im : IdempotentManager)
    → Last pid s.last_sequence_number s.topic_partition (record_at pid s im)
record_at-Last pid s im =
    (s, (ground (arith, lookup-insert pid pid s im.producer_state, str_iff pid pid), refl, refl))

check_known-Last :
    (pid : String) (seq : ℕ) (topic_partition : String) (now : ℕ) (s : ProducerState)
    (im : IdempotentManager)
    → (check_known pid seq topic_partition now s im).0 ≡ fresh
    → Last pid seq topic_partition (check_known pid seq topic_partition now s im).1
unfolding check_known
check_known-Last pid seq topic_partition now s im accepted =
    let s' : ProducerState = record s { last_sequence_number = seq; last_active_time = now } in
    let bound : s.topic_partition ≡ topic_partition =
      ground (arith, str_iff s.topic_partition topic_partition) in
    let whole : (check_known pid seq topic_partition now s im).1 ≡ record_at pid s' im =
      ground arith in
    subst (λ t. Last pid seq t (check_known pid seq topic_partition now s im).1) bound
      (subst (Last pid seq s.topic_partition) (sym whole) (record_at-Last pid s' im))

check_and_record-Last :
    (pid : String) (seq : ℕ) (topic_partition : String) (now : ℕ) (im : IdempotentManager)
    → (check_and_record pid seq topic_partition now im).0 ≡ fresh
    → Last pid seq topic_partition (check_and_record pid seq topic_partition now im).1
unfolding check_and_record
check_and_record-Last pid seq topic_partition now im accepted =
    match-elim (λ (x : Verdict × IdempotentManager). x.0 ≡ fresh → Last pid seq topic_partition x.1)
      (lookup pid im.producer_state) _ (λ s. check_known pid seq topic_partition now s im)
      (λ _ _. record_at-Last pid _ (make_room im))
      (λ s _. check_known-Last pid seq topic_partition now s im) accepted

Last-duplicate :
    (pid : String) (seq : ℕ) (topic_partition : String) (now : ℕ) (im : IdempotentManager)
    → Last pid seq topic_partition im
    → (check_and_record pid seq topic_partition now im).0 ≡ duplicate
unfolding check_and_record check_known
Last-duplicate pid seq topic_partition now im (s, (found, number, bound)) =
    ground (arith, found, number, bound, str_iff s.topic_partition topic_partition)

-- A number that was accepted is a duplicate in the next call for the same topic and partition.
pub check_and_record-again :
    (pid : String) (seq : ℕ) (topic_partition : String) (now later : ℕ) (im : IdempotentManager)
    → (check_and_record pid seq topic_partition now im).0 ≡ fresh
    → (check_and_record pid seq topic_partition later
        (check_and_record pid seq topic_partition now im).1).0
      ≡ duplicate
check_and_record-again pid seq topic_partition now later im accepted =
    Last-duplicate pid seq topic_partition later _
      (check_and_record-Last pid seq topic_partition now im accepted)

-- ===== src/Idempotent/Steps.antt =====
-- The runs of the manager of idempotent producers, cluster/go/broker/idempotent/idempotent.go.
use distributed_mq.Prelude.{
  ltb, leb, Bool-cases, if-elim, match-elim, ◌==◌, str_iff, length, ℕ, suc, ◌+◌, ◌-◌, ◌≤◌, ◌<◌,
  String, ◌≡◌, refl, inl, inr, not, none, some, [], ◌∷◌, arith,
}
use distributed_mq.Prelude.{nat_eq, string_eq}
use distributed_mq.Prelude.Map.{
  Map, lookup, length-delete-le, length-insert-le, length-insert-old, NoDup, insert-NoDup,
  delete-NoDup,
}
use distributed_mq.Oldest.{scan_oldest, delete-oldest}
use distributed_mq.Idempotent.{
  ProducerState, IdempotentManager, Verdict, duplicate, other_partition, too_old, last_active,
  make_room, record_at, check_known, check_and_record, expire_all, cleanup_expired, remove_producer,
}

pub data Step (im : IdempotentManager) : IdempotentManager → Type 0 where
  checked :
      (pid : String) (seq : ℕ) (topic_partition : String) (now : ℕ)
      → Step im (check_and_record pid seq topic_partition now im).1
  cleaned : (now : ℕ) → Step im (cleanup_expired now im)
  removed : (pid : String) → Step im (remove_producer pid im)

-- There are no more producers than the limit, but always room for one, and no producer twice.
abbrev pub IsValid : IdempotentManager → Type 0
IsValid im =
    NoDup im.producer_state × (length im.producer_state ≤ im.max_producers + (1 - im.max_producers))

pub expire_all-absent :
    (pid : String) (now after : ℕ) (m : Map String ProducerState)
    → lookup pid m ≡ none
    → lookup pid (expire_all now after m) ≡ none
unfolding expire_all lookup
expire_all-absent pid now after [] h = refl
expire_all-absent pid now after ((id, s) ∷ m) h =
    let rest = expire_all-absent pid now after m in ground (arith, str_iff id pid)

expire_all-NoDup :
    (now after : ℕ) (m : Map String ProducerState) → NoDup m → NoDup (expire_all now after m)
unfolding expire_all
expire_all-NoDup now after [] h = tt
expire_all-NoDup now after ((id, s) ∷ m) (new, h) =
    if-elim NoDup (ltb after (now - s.last_active_time)) (expire_all now after m)
      ((id, s) ∷ expire_all now after m) (λ _. expire_all-NoDup now after m h)
      (λ _. (expire_all-absent id now after m new, expire_all-NoDup now after m h))

expire_all-length-le :
    (now after : ℕ) (m : Map String ProducerState) → length (expire_all now after m) ≤ length m
unfolding expire_all
expire_all-length-le now after [] = omega arith
expire_all-length-le now after ((id, s) ∷ m) =
    let rest = expire_all-length-le now after m in ground arith

-- A manager with room for a producer.
abbrev HasRoom : IdempotentManager → Type 0
HasRoom im = suc (length im.producer_state) ≤ im.max_producers + (1 - im.max_producers)

make_room-HasRoom :
    (im : IdempotentManager) → IsValid im → IsValid (make_room im) × HasRoom (make_room im)
unfolding make_room
make_room-HasRoom im (distinct, sized) =
    if-elim (λ (x : IdempotentManager). IsValid x × HasRoom x)
      (leb im.max_producers (length im.producer_state)) _ im
      (λ full.
        let pid = (scan_oldest last_active im.producer_state ("", 0)).0 in
        let shorter = length-delete-le pid im.producer_state in
        (
          (delete-NoDup pid im.producer_state distinct, omega arith),
          elim (Bool-cases (ltb 0 (length im.producer_state))) [
            | inl some_there ↦
                let less = delete-oldest last_active im.producer_state (ground arith) in omega arith
            | inr empty ↦ ground arith
          ],
        ))
      (λ room. ((distinct, sized), ground arith))

-- CheckAndRecord for a known producer leaves the manager as it is, or records a higher number.
pub check_known-elim {κ} :
    (P : IdempotentManager → Type κ) (pid : String) (seq : ℕ) (topic_partition : String) (now : ℕ)
    (s : ProducerState) (im : IdempotentManager)
    → P im
    → (s.last_sequence_number < seq
        → P (record_at pid (record s { last_sequence_number = seq; last_active_time = now }) im))
    → P (check_known pid seq topic_partition now s im).1
unfolding check_known
check_known-elim P pid seq topic_partition now s im same higher =
    if-elim (λ (x : Verdict × IdempotentManager). P x.1)
      (not (s.topic_partition == topic_partition)) (other_partition, im) _ (λ _. same)
      (λ _.
        if-elim (λ (x : Verdict × IdempotentManager). P x.1) (ltb seq s.last_sequence_number)
          (too_old, im) _ (λ _. same)
          (λ not_old.
            if-elim (λ (x : Verdict × IdempotentManager). P x.1) (seq == s.last_sequence_number)
              (duplicate, im) _ (λ _. same) (λ other. higher (ground arith))))

check_known-IsValid :
    (pid : String) (seq : ℕ) (topic_partition : String) (now : ℕ) (s : ProducerState)
    (im : IdempotentManager)
    → lookup pid im.producer_state ≡ some s
    → IsValid im
    → IsValid (check_known pid seq topic_partition now s im).1
check_known-IsValid pid seq topic_partition now s im found (distinct, sized) =
    check_known-elim IsValid pid seq topic_partition now s im (distinct, sized)
      (λ _. (
        insert-NoDup pid _ im.producer_state distinct,
        omega (arith, length-insert-old pid _ s im.producer_state found),
      ))

check_and_record-IsValid :
    (pid : String) (seq : ℕ) (topic_partition : String) (now : ℕ) (im : IdempotentManager)
    → IsValid im
    → IsValid (check_and_record pid seq topic_partition now im).1
unfolding check_and_record
check_and_record-IsValid pid seq topic_partition now im valid =
    match-elim (λ (x : Verdict × IdempotentManager). IsValid x.1) (lookup pid im.producer_state) _
      (λ s. check_known pid seq topic_partition now s im)
      (λ _.
        let ((distinct, _), room) = make_room-HasRoom im valid in
        (
          insert-NoDup pid _ (make_room im).producer_state distinct,
          omega (arith, length-insert-le pid _ (make_room im).producer_state),
        ))
      (λ s found. check_known-IsValid pid seq topic_partition now s im found valid)

-- Every method keeps the producers distinct, and as many as the limit says at most (or one).
pub Step-IsValid :
    (im : IdempotentManager) {after : IdempotentManager}
    → Step im after
    → IsValid im
    → IsValid after
unfolding cleanup_expired remove_producer
Step-IsValid im (checked pid seq topic_partition now) valid =
    check_and_record-IsValid pid seq topic_partition now im valid
Step-IsValid im (cleaned now) (distinct, sized) = (
  expire_all-NoDup now im.expire_after im.producer_state distinct,
  omega (arith, expire_all-length-le now im.expire_after im.producer_state),
)
Step-IsValid im (removed pid) (distinct, sized) = (
  delete-NoDup pid im.producer_state distinct,
  omega (arith, length-delete-le pid im.producer_state),
)

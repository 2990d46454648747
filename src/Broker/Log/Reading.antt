-- ===== src/Broker/Log/Reading.antt =====
-- A consumer reads what the Raft node delivered (applyBatch and Consume of
-- cluster/go/broker/broker.go).
use mathlib.Core.Path.{sym, ap, subst}
use distributed_mq.Prelude.{
  Bool-cases, ◌==◌, str_iff, All, ℕ, ◌*◌, ◌≤◌, ◌<◌, String, ◌≡◌, refl, ◌∙◌, inl, inr, true, false,
  some, List, [], ◌∷◌, ◌++◌, map, arith,
}
use distributed_mq.Prelude.{nat_eq, string_eq}
use distributed_mq.Prelude.Int.{ℤ, pos, negsuc}
use distributed_mq.Prelude.Map.{lookup}
use distributed_mq.Prelude.Shuffle.{Shuffle, Shuffle-refl, Shuffle-pieces}
use distributed_mq.Storage.{CommitLog, IndexEntry, SparseIndex, get_entries_after}
use distributed_mq.Go.{Outcome, ret, Exec, continue}
use distributed_mq.Raft.{LogEntry}
use distributed_mq.Namespace.{Action, check_permission}
use distributed_mq.Broker.{Message, TopicPartition, Broker, with_mu-free, topic_key}
use distributed_mq.Broker.Log.{
  consume, ApplyEnv, apply_entry, apply_entries, apply_batch, entries_after, consume_loop, Consumed,
  consumed,
}
use distributed_mq.Broker.Log.Refine.{
  Logged, index_of, Stored, later_than, message_at, entries_after-index_of, consume_loop-entries,
  later_than-All,
}
use distributed_mq.Broker.Log.Deliver.{
  Delivery, key_of, View, add_message, deliver, deliver_all, Smooth, Keeps, Delivered, apply_own,
  apply_other,
}

deliver-le : (key : String) (d : Delivery) (v : View) → v.next ≤ (deliver key d v).next
deliver-le key (env, entry) v = ground arith

deliver_all-le :
    (key : String) (ds : List Delivery) (v : View) → v.next ≤ (deliver_all key ds v).next
unfolding deliver_all
deliver_all-le key [] v = omega arith
deliver_all-le key (d ∷ ds) v =
    omega (arith, deliver-le key d v, deliver_all-le key ds (deliver key d v))

apply_entry-Delivered :
    (key : String) (env : ApplyEnv) (entry : LogEntry) (v : View) (b : Broker)
    → Smooth (env, entry)
    → Keeps key v b
    → (deliver key (env, entry) v).next < 1024 * 1024
    → Delivered key (deliver key (env, entry) v) b (apply_entry env entry b)
apply_entry-Delivered key env entry v b smooth keeps fits =
    elim (Bool-cases (key_of entry == key)) [
      | inl own ↦
          let chosen : deliver key (env, entry) v ≡ add_message env entry.payload v =
            ground arith in
          subst (λ x. Delivered key x b (apply_entry env entry b)) (sym chosen)
            (apply_own key env entry v b ((str_iff (key_of entry) key).0 own) smooth
              (subst (λ (x : View). x.next < 1024 * 1024) chosen fits) keeps)
      | inr other ↦
          let chosen : deliver key (env, entry) v ≡ v = ground arith in
          subst (λ x. Delivered key x b (apply_entry env entry b)) (sym chosen)
            (apply_other key env entry v b other smooth keeps)
    ]

then_ret :
    (a : Unit {0}) (next : Exec Broker (Unit {0})) (r : Outcome (Unit {0}) × Broker)
    → r.0 ≡ ret a
    → continue r.0 (λ _. next) r.1 ≡ next r.1
then_ret a next r e = ap (λ o. continue o (λ _. next) r.1) e

apply_entries-Delivered :
    (key : String) (ds : List Delivery) (v : View) (b : Broker)
    → All Smooth ds
    → Keeps key v b
    → (deliver_all key ds v).next < 1024 * 1024
    → Delivered key (deliver_all key ds v) b (apply_entries ds b)
unfolding apply_entries deliver_all
apply_entries-Delivered key [] v b h keeps fits = (refl, keeps, refl, refl)
apply_entries-Delivered key ((env, entry) ∷ ds) v b (smooth, h) keeps fits =
    let v' = deliver key (env, entry) v in
    let r = apply_entry env entry b in
    let (returns, keeps', locked, manager) =
      apply_entry-Delivered key env entry v b smooth keeps
        (omega (arith, deliver_all-le key ds v')) in
    let (done', keeps'', locked', manager') = apply_entries-Delivered key ds v' r.1 h keeps' fits in
    subst (Delivered key (deliver_all key ds v') b) (sym (then_ret tt (apply_entries ds) r returns))
      (done', keeps'', locked' ∙ locked, manager' ∙ manager)

-- What Consume makes of the index in the order in which `range` goes through it.
module _ (topic : String) (partition : ℤ) (cl : CommitLog) (offset : ℤ) where
  read_all : SparseIndex → List Message
  read_all idx = consume_loop topic partition cl (entries_after offset idx)

  -- an entry alone
  read_one : ℕ × IndexEntry → List Message
  read_one e = read_all (e ∷ [])

  read_all-cons :
      (e : ℕ × IndexEntry) (idx : SparseIndex) → read_all (e ∷ idx) ≡ read_one e ++ read_all idx
  unfolding read_all read_one get_entries_after consume_loop
  read_all-cons (k, e) idx = elim offset [ pos n ↦ ground arith | negsuc n ↦ ground arith ]

  read_all-Shuffle : (xs ys : SparseIndex) → Shuffle xs ys → Shuffle (read_all xs) (read_all ys)
  read_all-Shuffle xs ys order = Shuffle-pieces read_all read_one read_all-cons order

  read_all-Stored :
      (ls : List Logged)
      → All (Stored cl) ls
      → read_all (index_of ls) ≡ map (message_at topic partition) (later_than offset ls)
  unfolding read_all
  read_all-Stored ls stored =
      ap (consume_loop topic partition cl) (entries_after-index_of offset ls)
      ∙ consume_loop-entries topic partition cl (later_than offset ls)
          (later_than-All (Stored cl) offset ls stored)

-- The broker `b'` is `b`, but that `range` goes through the index of `key` in another order.
pub record Reordered (key : String) (b b' : Broker) : Type 0 where
  pub tp : TopicPartition
  pub index : SparseIndex
  pub found : lookup key b.topics ≡ some tp
  pub found' : lookup key b'.topics ≡ some (record tp { index = index })
  pub order : Shuffle index tp.index
  pub free : b'.locked ≡ b.locked
  pub manager : b'.namespace_manager ≡ b.namespace_manager

pub Reordered-same :
    (key : String) (b : Broker) (tp : TopicPartition)
    → lookup key b.topics ≡ some tp
    → Reordered key b b
Reordered-same key b tp there = record {
  tp = tp;
  index = tp.index;
  found = there;
  found' = there;
  order = Shuffle-refl tp.index;
  free = refl;
  manager = refl;
}

consume-found :
    (topic user_id : String) (partition offset : ℤ) (tp : TopicPartition) (b : Broker)
    → b.locked ≡ false
    → check_permission user_id topic Action.consume b.namespace_manager ≡ some true
    → lookup (topic_key topic partition) b.topics ≡ some tp
    → (consume topic partition offset user_id b).0
      ≡ ret (consumed (read_all topic partition tp.commit_log offset tp.index))
unfolding consume read_all
consume-found topic user_id partition offset tp b free allowed found =
    ground (arith, free, allowed, found)

-- The messages of a Consume, which are those of `ms` in some order.
abbrev pub Reads : List Message → Outcome Consumed → Type 0
Reads ms r = (found : List Message) × ((r ≡ ret (consumed found)) × Shuffle found ms)

some_same : {A : Type 0} {x y : A} → some x ≡ some y → x ≡ y
some_same e = cc

consume-Keeps :
    (topic user_id : String) (partition offset : ℤ) (v : View) (b b' : Broker)
    → b.locked ≡ false
    → check_permission user_id topic Action.consume b.namespace_manager ≡ some true
    → Keeps (topic_key topic partition) v b
    → Reordered (topic_key topic partition) b b'
    → Reads
        (map (message_at topic partition) (later_than offset v.messages))
        (consume topic partition offset user_id b').0
consume-Keeps topic user_id partition offset v b b' free allowed
      (tp, (found, ((is_index, stored), aligned, place))) r =
    let same : r.tp ≡ tp = some_same (sym r.found ∙ found) in
    let cl = tp.commit_log in
    (
      read_all topic partition r.tp.commit_log offset r.index,
      (
        consume-found topic user_id partition offset (record r.tp { index = r.index }) b'
            (r.free ∙ free) (ap (check_permission user_id topic Action.consume) r.manager ∙ allowed)
            r.found',
        subst (λ ms. Shuffle (read_all topic partition r.tp.commit_log offset r.index) ms)
            (ap (λ (x : TopicPartition). read_all topic partition x.commit_log offset x.index) same
              ∙ ap (read_all topic partition cl offset) is_index
              ∙ read_all-Stored topic partition cl offset v.messages stored)
            (read_all-Shuffle topic partition r.tp.commit_log offset r.index r.tp.index r.order),
      ),
    )

-- Where the topic partition holds the view `v` in its first segment, applyBatch returns, and a user who
-- may consume then reads, from any offset and in whatever order `range` goes through the index,
-- exactly the messages of the view and those of the batch that are of the partition and have a
-- higher offset, each once and with its bytes, whatever else the batch holds. The
-- conditions: the mutex is free, the calls of the file system succeed, and the next offset
-- stays within the first segment.
pub apply_batch-consume :
    (topic user_id : String) (partition offset : ℤ) (ds : List Delivery) (v : View) (b b' : Broker)
    → b.locked ≡ false
    → check_permission user_id topic Action.consume b.namespace_manager ≡ some true
    → All Smooth ds
    → Keeps (topic_key topic partition) v b
    → (deliver_all (topic_key topic partition) ds v).next < 1024 * 1024
    → Reordered (topic_key topic partition) (apply_batch ds b).1 b'
    → ((apply_batch ds b).0 ≡ ret tt)
      × Reads
          (map
            (message_at topic partition)
            (later_than offset (deliver_all (topic_key topic partition) ds v).messages))
          (consume topic partition offset user_id b').0
unfolding apply_batch
apply_batch-consume topic user_id partition offset ds v b b' free allowed smooth keeps fits order =
    let key = topic_key topic partition in
    let held = record b { locked = true } in
    let (returns, keeps', locked', manager) =
      apply_entries-Delivered key ds v held smooth keeps fits in
    let whole = with_mu-free (apply_entries ds) tt b free returns in
    let left = record (apply_entries ds held).1 { locked = false } in
    (
      ap (λ r. r.0) whole,
      consume-Keeps topic user_id partition offset (deliver_all key ds v) left b' refl
          (ap (check_permission user_id topic Action.consume) manager ∙ allowed) keeps'
          (subst (λ r. Reordered key r.1 b') whole order),
    )

-- ===== src/Broker/Log/Deliver.antt =====
-- From the entries that the Raft node delivers to what a consumer reads
-- (applyBatch and Consume of cluster/go/broker/broker.go).
use mathlib.Core.Path.{sym, ap, subst}
use distributed_mq.Prelude.{
  if◌then◌else◌, Option-cases, ◌==◌, ℕ, ◌*◌, ◌<◌, String, ◌≡◌, refl, ◌∙◌, inl, inr, false, none,
  some, List, [], ◌∷◌, ◌++◌, arith,
}
use distributed_mq.Prelude.{nat_eq, string_eq}
use distributed_mq.Prelude.Int.{signed}
use distributed_mq.Prelude.Map.{Map, beq_refl, lookup, insert, lookup-insert}
use distributed_mq.Go.{Outcome, ret}
use distributed_mq.Raft.{LogEntry}
use distributed_mq.Storage.{CommitLog, complete}
use distributed_mq.Storage.ReadBack.{IsAligned}
use distributed_mq.Broker.{TopicPartition, Broker, topic_key}
use distributed_mq.Broker.Log.{ApplyEnv, get_or_create_topic_partition, append_to, apply_entry}
use distributed_mq.Broker.Log.Refine.{
  Logged, Refines, grown, append_whole-length, append_whole-IsAligned, append_to-complete,
  append_to-Refines,
}

abbrev pub Delivery : Type 0
Delivery = ApplyEnv × LogEntry

abbrev pub key_of : LogEntry → String
key_of entry = topic_key entry.topic (signed 32 entry.partition)

-- The abstract state of a topic partition: its messages, and the offset of the next one.
pub record View : Type 0 where
  pub next : ℕ
  pub messages : List Logged

-- A message more.
abbrev pub add_message : ApplyEnv → List ℕ → View → View
add_message env payload v = record {
  next = grown payload v.next;
  messages =
      v.messages ++ (record { offset = v.next; timestamp = env.put_time; bytes = payload }) ∷ [];
}

-- A delivered entry adds its payload to the view of its own partition.
abbrev pub deliver : String → Delivery → View → View
deliver key (env, entry) v = if key_of entry == key then add_message env entry.payload v else v

unfoldable pub deliver_all : String → List Delivery → View → View
deliver_all key [] v = v
deliver_all key (d ∷ ds) v = deliver_all key ds (deliver key d v)

-- The outside lets an entry through: a log that has to be opened can be, and all bytes are written.
abbrev pub Smooth : Delivery → Type 0
Smooth (env, entry) = ((cl : CommitLog) × (env.opened ≡ some cl)) × (env.disk ≡ complete)

-- A topic partition holds the view `v`, in its first segment.
abbrev pub Kept : View → TopicPartition → Type 0
Kept v tp = Refines v.messages tp × IsAligned tp.commit_log × (tp.commit_log.last_offset ≡ v.next)

-- The broker keeps the view `v` under `key`.
abbrev pub Keeps : String → View → Broker → Type 0
Keeps key v b = (tp : TopicPartition) × ((lookup key b.topics ≡ some tp) × Kept v tp)

append_to-Kept :
    (env : ApplyEnv) (payload : List ℕ) (v : View) (tp : TopicPartition)
    → env.disk ≡ complete
    → grown payload v.next < 1024 * 1024
    → Kept v tp
    → Kept (add_message env payload v) (append_to env payload tp)
append_to-Kept env payload v tp written fits (refines, aligned, place) =
    let cl = tp.commit_log in
    let after = append_to-complete env payload tp written in
    let grows = append_whole-length env.append_time payload cl in
    (
      subst
          (λ n.
            Refines
              (v.messages
                ++ (record { offset = n; timestamp = env.put_time; bytes = payload }) ∷ [])
              (append_to env payload tp))
          place (append_to-Refines env payload tp v.messages written aligned refines),
      subst (λ (x : TopicPartition). IsAligned x.commit_log) (sym after)
          (append_whole-IsAligned env.append_time payload cl aligned (omega (arith, place))),
      ap (λ (x : TopicPartition). x.commit_log.last_offset) after
          ∙ grows.1
          ∙ ap (grown payload) place,
    )

with_topics : Map String TopicPartition → Broker → Broker
with_topics topics b = record b { topics = topics }

opened_partition : LogEntry → CommitLog → TopicPartition
opened_partition entry cl = record {
  topic = entry.topic;
  partition = signed 32 entry.partition;
  commit_log = cl;
  index = [];
}

apply_entry-found :
    (env : ApplyEnv) (entry : LogEntry) (tp : TopicPartition) (b : Broker)
    → lookup (key_of entry) b.topics ≡ some tp
    → apply_entry env entry b
      ≡ (ret tt, with_topics (insert (key_of entry) (append_to env entry.payload tp) b.topics) b)
unfolding apply_entry get_or_create_topic_partition with_topics
apply_entry-found env entry tp b found = rw (found, get_or_create_topic_partition, apply_entry) refl

apply_entry-new :
    (env : ApplyEnv) (entry : LogEntry) (cl : CommitLog) (b : Broker)
    → lookup (key_of entry) b.topics ≡ none
    → env.opened ≡ some cl
    → let tp = opened_partition entry cl in
      apply_entry env entry b ≡ (
        ret tt,
        with_topics
            (insert
              (key_of entry)
              (append_to env entry.payload tp)
              (insert (key_of entry) tp b.topics))
            b,
      )
unfolding apply_entry get_or_create_topic_partition with_topics opened_partition
apply_entry-new env entry cl b missing opens =
    rw (missing, opens, get_or_create_topic_partition, apply_entry) refl

-- What an entry of another key leaves alone.
Keeps-with_topics :
    (key : String) (v : View) (topics : Map String TopicPartition) (b : Broker)
    → lookup key topics ≡ lookup key b.topics
    → Keeps key v b
    → Keeps key v (with_topics topics b)
unfolding with_topics
Keeps-with_topics key v topics b same (tp, (found, kept)) = (tp, (same ∙ found, kept))

-- What a smooth entry leaves, beside the topics.
abbrev pub Delivered : String → View → Broker → Outcome (Unit {0}) × Broker → Type 0
Delivered key v b r =
    (r.0 ≡ ret tt)
    × Keeps key v r.1
    × (r.1.locked ≡ b.locked)
    × (r.1.namespace_manager ≡ b.namespace_manager)

pub apply_own :
    (key : String) (env : ApplyEnv) (entry : LogEntry) (v : View) (b : Broker)
    → key_of entry ≡ key
    → Smooth (env, entry)
    → grown entry.payload v.next < 1024 * 1024
    → Keeps key v b
    → Delivered key (add_message env entry.payload v) b (apply_entry env entry b)
unfolding with_topics
apply_own key env entry v b own (opens, written) fits (tp, (found, kept)) =
    let tp' = append_to env entry.payload tp in
    subst
      (λ k.
        lookup k b.topics ≡ some tp
        → Delivered k (add_message env entry.payload v) b (apply_entry env entry b))
      own
      (λ there. rw (apply_entry-found env entry tp b there) (
        refl,
        (
          tp',
          (
            lookup-insert (key_of entry) (key_of entry) tp' b.topics
                ∙ rw (beq_refl (key_of entry)) refl,
            append_to-Kept env entry.payload v tp written fits kept,
          ),
        ),
        refl,
        refl,
      ))
      found

pub apply_other :
    (key : String) (env : ApplyEnv) (entry : LogEntry) (v : View) (b : Broker)
    → (key_of entry == key) ≡ false
    → Smooth (env, entry)
    → Keeps key v b
    → Delivered key v b (apply_entry env entry b)
unfolding with_topics
apply_other key env entry v b other ((cl, opens), written) keeps =
    elim (Option-cases (lookup (key_of entry) b.topics)) [
      | inl missing ↦
          let tp = opened_partition entry cl in
          let tp' = append_to env entry.payload tp in
          let ts = insert (key_of entry) tp b.topics in
          rw (apply_entry-new env entry cl b missing opens) (
            refl,
            Keeps-with_topics key v (insert (key_of entry) tp' ts) b
                (lookup-insert (key_of entry) key tp' ts
                  ∙ rw other (lookup-insert (key_of entry) key tp b.topics ∙ rw other refl))
                keeps,
            refl,
            refl,
          )
      | inr (tp, there) ↦
          let tp' = append_to env entry.payload tp in
          rw (apply_entry-found env entry tp b there) (
            refl,
            Keeps-with_topics key v (insert (key_of entry) tp' b.topics) b
                (lookup-insert (key_of entry) key tp' b.topics ∙ rw other refl) keeps,
            refl,
            refl,
          )
    ]

-- ===== src/Broker.antt =====
-- The state of a broker and its mutex, cluster/go/broker/broker.go. `locked` is `mu`. The objects that
-- `topics` points to are written under `mu` alone, so that the map holds them.
pub mod Log
pub mod Ack
pub mod Produce
pub mod Tcp
pub mod Server
use distributed_mq.Prelude.{if◌then◌else◌, ℕ, ◌-◌, String, ◌≡◌, refl, Bool, true, false, List, ◌++◌}
use distributed_mq.Prelude.Text.{dashed}
use distributed_mq.Prelude.{nat_eq, string_eq}
use Prim.Native.String
use mathlib.Core.Path.{ap}
use distributed_mq.Prelude.Int.{ℤ, pos, negsuc, decimal_int}
use distributed_mq.Prelude.Map.{Map}
use distributed_mq.Go.{Outcome, ret, panic, blocked, Exec, continue, ◌>>=◌}
use distributed_mq.Raft.{RaftNode}
use distributed_mq.Raft.Roles.{Handler}
use distributed_mq.Storage.{CommitLog, SparseIndex}
use distributed_mq.Namespace.{NamespaceManager}
use distributed_mq.Idempotent.{IdempotentManager}
use distributed_mq.Tracing.{Tracer}
use distributed_mq.Audit.{AuditLogger}

pub record Message : Type 0 where
  pub topic : String
  pub partition : ℤ
  pub key : String
  pub value : List ℕ
  pub offset : ℕ
  pub timestamp : ℕ

pub record RetryMessage : Type 0 where
  pub topic : String
  pub partition : ℕ  -- the bit pattern of an int32
  pub offset : ℕ  -- the bit pattern of an int64
  pub payload : List ℕ
  pub retry_count : ℕ
  pub next_retry_at : ℕ

pub record TopicPartition : Type 0 where
  pub topic : String
  pub partition : ℤ
  pub commit_log : CommitLog
  pub index : SparseIndex

pub record Broker : Type 0 where
  pub locked : Bool
  pub addr : String
  pub client_addr : String
  pub topics : Map String TopicPartition
  pub raft_node : RaftNode
  pub retry_queue : List RetryMessage
  pub audit_logger : AuditLogger
  pub tracer : Tracer
  pub namespace_manager : NamespaceManager
  pub idempotent_mgr : IdempotentManager

-- a body between `b.mu.Lock()` and the Unlock
abbrev pub release {ℓ} : {A : Type ℓ} → Outcome A × Broker → Outcome A × Broker
release (ret a, b) = (ret a, record b { locked = false })
release (panic, b) = (panic, record b { locked = false })
release (blocked, b) = (blocked, b)

abbrev pub with_mu : {A : Type 0} → Exec Broker A → Exec Broker A
with_mu body b = if b.locked then (blocked, b) else release (body (record b { locked = true }))

-- a call of the Raft node
abbrev pub on_raft : {A : Type 0} → Handler A → Exec Broker A
on_raft call b = let (result, node) = call b.raft_node in (result, record b { raft_node = node })

-- With the mutex free the body runs, and where it returns the mutex is free again.
pub with_mu-free :
    {A : Type 0} (body : Exec Broker A) (a : A) (b : Broker)
    → b.locked ≡ false
    → (body (record b { locked = true })).0 ≡ ret a
    → with_mu body b ≡ (ret a, record (body (record b { locked = true })).1 { locked = false })
with_mu-free body a b free returns =
    rw free (ap (λ o. release (o, (body (record b { locked = true })).1)) returns)

pub with_mu-locked :
    {A : Type 0} (body : Exec Broker A) (b : Broker)
    → b.locked ≡ true
    → with_mu body b ≡ (blocked, b)
with_mu-locked body b held = rw held refl

-- A body that blocks keeps the mutex.
pub with_mu-blocked :
    {A : Type 0} (body : Exec Broker A) (b : Broker)
    → b.locked ≡ false
    → (body (record b { locked = true })).0 ≡ blocked
    → with_mu body b ≡ (blocked, (body (record b { locked = true })).1)
with_mu-blocked body b free blocks =
    rw free (ap (λ o. release (o, (body (record b { locked = true })).1)) blocks)

-- A call of the Raft node that returns, and what follows it.
pub on_raft-returns :
    {A B : Type 0} (call : Handler A) (next : A → Exec Broker B) (a : A) (b : Broker)
    → (call b.raft_node).0 ≡ ret a
    → (on_raft call >>= next) b ≡ next a (record b { raft_node = (call b.raft_node).1 })
on_raft-returns call next a b e =
    ap (λ o. continue o next (record b { raft_node = (call b.raft_node).1 })) e

-- A call of the Raft node that blocks.
pub on_raft-blocks :
    {A B : Type 0} (call : Handler A) (next : A → Exec Broker B) (b : Broker)
    → (call b.raft_node).0 ≡ blocked
    → (on_raft call >>= next) b ≡ (blocked, record b { raft_node = (call b.raft_node).1 })
on_raft-blocks call next b e =
    ap (λ o. continue o next (record b { raft_node = (call b.raft_node).1 })) e

-- the key of `topics`
unfoldable pub topic_key : String → ℤ → String
topic_key topic (pos n) = dashed topic n
topic_key topic (negsuc n) = String.◌++◌ topic (String.◌++◌ "-" (decimal_int (negsuc n)))

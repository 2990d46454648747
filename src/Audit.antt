-- ===== src/Audit.antt =====
-- The audit log of a broker, cluster/go/audit/logger.go. Its channel holds 1000 records; the
-- goroutine of `run` takes them off one by one and writes them to the file, which is a list of
-- records here.
use distributed_mq.Prelude.{ltb, if◌then◌else◌, length, ℕ, String, Bool, List, [], ◌∷◌, ◌++◌}
use distributed_mq.Prelude.{nat_eq, string_eq}
use distributed_mq.Prelude.Int.{ℤ}

pub record AuditRecord : Type 0 where
  pub timestamp : ℕ
  pub client_ip : String
  pub operation : String
  pub topic : String
  pub partition : ℤ
  pub offset : ℕ
  pub group_id : String
  pub msg_size : ℕ

pub record AuditLogger : Type 0 where
  pub ch : List AuditRecord
  pub log_file : List AuditRecord

-- Log, which drops the record when the channel is full
unfoldable pub log_audit : AuditRecord → AuditLogger → AuditLogger
log_audit entry a = if ltb (length a.ch) 1000 then record a { ch = a.ch ++ entry ∷ [] } else a

-- LogProduce
unfoldable pub log_produce : String → String → ℤ → (offset size : ℕ) → AuditLogger → AuditLogger
unfolding log_audit
log_produce client_ip topic partition offset size = log_audit (record {
  timestamp = 0;
  client_ip = client_ip;
  operation = "PRODUCE";
  topic = topic;
  partition = partition;
  offset = offset;
  group_id = "";
  msg_size = size;
})

-- LogConsume
unfoldable pub log_consume : String → String → ℤ → ℕ → String → ℕ → AuditLogger → AuditLogger
unfolding log_audit
log_consume client_ip topic partition offset group_id size = log_audit (record {
  timestamp = 0;
  client_ip = client_ip;
  operation = "CONSUME";
  topic = topic;
  partition = partition;
  offset = offset;
  group_id = group_id;
  msg_size = size;
})

-- a round of `run` that takes a record: write, whose calls succeed if `written` holds
unfoldable pub write_audit : (now : ℕ) → (written : Bool) → AuditLogger → AuditLogger
write_audit now written a = elim a.ch [
  | [] ↦ a
  | entry ∷ rest ↦ record a {
    ch = rest;
    log_file =
        if written then a.log_file ++ (record entry { timestamp = now }) ∷ [] else a.log_file;
  }
]

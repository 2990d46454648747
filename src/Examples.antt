-- ===== src/Examples.antt =====
-- The theorems at concrete inputs.
mod Raft
mod TimeWheel
mod Transaction
mod Coordinator
mod Idempotent
mod Groups
mod NameServer
mod Offsets
mod Storage
mod Broker
mod Client
mod Namespace

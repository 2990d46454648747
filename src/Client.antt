-- ===== src/Client.antt =====
-- The sample clients: samples/go-producer/main.go, samples/go-consumer/main.go and
-- samples/go-dlq-consumer/main.go.
pub mod Producer
pub mod Tally
pub mod Consumer
pub mod Replies
pub mod Skips

-- ===== src/Lib.antt =====
-- DistributedMQ: a message queue whose brokers replicate their log with Raft, beside a name server
-- that keeps topics, consumer groups and transactions. The library models the Go code under
-- cluster/go and the sample clients under samples, and proves theorems about the model.
--
-- The parts and how they interact. A broker (cluster/go/broker/broker.go) reads requests from TCP
-- connections, hands each message to its Raft node (cluster/go/raft/raft.go) by SubmitCommand, with
-- acks=-1 waits for the channel that comes back, takes the committed entries from the node's apply
-- channel, appends them to the commit log and the index of their partition, and answers fetches out of
-- these. Produce asks the namespaces, the name server for the route, and the manager of idempotent
-- producers (cluster/go/broker/idempotent/idempotent.go) whether the sequence number of the message is
-- new, and records a trace (cluster/go/broker/tracing/tracing.go); the handlers of TCP requests write an
-- audit log (cluster/go/audit/logger.go). The sample clients (samples/go-producer/main.go,
-- samples/go-consumer/main.go, samples/go-dlq-consumer/main.go) speak the same protocol from the other
-- side. The broker's transaction manager (cluster/go/broker/transaction/transaction.go) collects
-- the messages of a transaction, its commit log (cluster/go/broker/storage/bridge_go.go) keeps messages
-- in segment files, and its namespaces (cluster/go/broker/namespace/namespace.go) say who may use a
-- topic. The name server (cluster/go/nameserver) places the partitions of a topic on brokers, leads
-- clients to them, shares them among the members of a consumer group (nameserver.go), and runs a
-- transaction coordinator of its own (tc.go).
--
-- Which file models which part:
-- - Raft.antt has the state of a node and its messages; below Raft, Storage has saveState and
--   loadState with the log file; Roles the mutex, the timers, becomeFollower, becomeLeader, the ISR;
--   Election RequestVote, startElection and its goroutines; Membership the changes of configuration;
--   Commit updateCommitIndex, applyCommittedEntries and SubmitCommand; Replication AppendEntries and
--   sendAppendEntries; Snapshot the snapshots. The other modules below Raft hold theorems: Frame,
--   Votes, Quiet, Handlers and Clients say what each handler keeps, Steps makes a run of a node out of
--   its handlers.
-- - Transaction.antt models transaction.go; below it, Objects says what a call does to a transaction,
--   Valid what every call keeps, Evict which transaction a full manager drops, Steps the runs.
-- - Coordinator.antt models tc.go; below it, Valid has the well-formed states, Load the round trip
--   through the log file, Steps the runs, Races what other calls do to a CommitTx.
-- - Idempotent.antt models idempotent.go; below it, Steps has the runs and Window the theorem that a
--   sequence number is accepted once.
-- - Groups.antt models doRebalance of nameserver.go; below it, Shares has the shares into which it cuts
--   the partitions, Rebalance that each member gets its own.
-- - NameServer.antt models the topics, brokers and routes of nameserver.go and NameServer/Members.antt
--   the handlers of consumer groups; below them, Placement says where the partitions of a topic are,
--   Route where keys lead, Balance and Beats what every handler keeps of the groups. Offsets.antt there
--   models offset_store.go and the handlers that use it, with the database as a parameter, and
--   Offsets/Commits what a consumer reads back; Transactions.antt models the handlers that call tc.go.
-- - Storage.antt models the commit log and the sparse index of
--   cluster/go/broker/storage/bridge_go.go; below it, ReadBack says that Read gives back what Append
--   wrote, Boundary what happens at the end of a segment.
-- - Namespace.antt models cluster/go/broker/namespace/namespace.go; below it, Permission says which ACL
--   decides, Topics that namespaces stay within their limit of topics.
-- - Wire.antt is the protocol of both sides: the frames of handleClient, the responses of the broker and
--   the requests of the clients; Wire/Requests.antt reads back what a client writes.
-- - Broker.antt has the state of broker.go; below it, Log models getOrCreateTopicPartition, applyBatch,
--   Consume with handleConsume, and Fetch; Ack handleTCPAck, the retry queue and the delivery of
--   delayed messages; Produce getRoute, Produce and handleProduce; Tcp handleTCPProduce and
--   handleTCPFetch; Server the requests of consumer groups and handleClient. Log/Refine, Log/Deliver and Log/Reading compare a partition with
--   the list of its messages, Log/Fetching is about Fetch, Ack/Nacks about negative
--   acknowledgements, Ack/Rounds about the retry queue, Produce/Gates and Produce/Retries about Produce,
--   Server/Handled and Server/Serve about handleClient.
-- - TimeWheel.antt models cluster/go/broker/storage/timewheel.go, with the arrays that its slices share;
--   TimeWheel/Sharing is about the slice that a tick goes through, TimeWheel/Ticks about the number of
--   messages.
-- - Tracing.antt models tracing.go and Audit.antt models logger.go; Tracing/Bounds keeps the number of
--   traces within its limit.
-- - Client/Producer.antt models samples/go-producer/main.go, Client/Consumer.antt the two sample
--   consumers; Client/Replies is about the responses that they read, Client/Skips about the offset that
--   a consumer commits, Client/Tally about what the producer counts.
-- - Oldest.antt is the search for the oldest entry, which three managers have in common. Prelude and the
--   modules below it are shared helpers, and Go.antt is what a Go handler does: it returns, panics, or
--   blocks on a mutex for ever. Examples holds runs at concrete inputs.
--
-- How Go is modelled. A struct is a record and a handler is a function on it. A Go map is an
-- association list in the order in which `range` goes through it; Go leaves this order open, and the
-- theorems hold for every list. A slice is a list, an index past its end a panic. uint64 arithmetic
-- wraps; lengths of slices are natural numbers, and a theorem that needs them below 2 ^ 64 says so.
-- A mutex of the Raft node is a field, and a handler that locks it twice ends as blocked. In the
-- managers a method that holds its mutex from start to end is one step; CommitTx, which releases it in
-- between, is three. An object that two places point to stands in a store, and the places hold
-- references. Timers are counters of their resets, a channel is a number, a started goroutine is a
-- task of a list, and each goroutine is a handler of its own. The clock is an argument. The file
-- system is a flag for each call, or says how much of a file is written. A gob file is the list of the
-- values that its encoders wrote; a decoder refuses the type definitions that a second encoder sends
-- again, so that it ends there.
--
-- The broker takes the entries of its index in the order of a map, and a theorem about reading says
-- that it holds for every order of the same index. A connection is the list of the bytes that the other
-- side has written, after which it is closed; what other goroutines do to the broker between two
-- requests is a function on its state, and so is what the name server and the clock answer to each
-- request.
--
-- Loops. A loop over a map or a slice is a recursion on the list. The loop of updateCommitIndex runs
-- for at most as many rounds as the log is long, and its theorem says why it stops; the loop of
-- applyCommittedEntries runs for the difference of the two indices that it compares. The loop of
-- handleClient has fuel for its rounds, each of which takes 12 bytes from the connection or ends it, and
-- a theorem says that one unit for each 12 bytes is enough.
--
-- Not modelled: HTTP, gRPC and TCP below the bytes of a connection, JSON, logging, configuration, the
-- start and the end of the servers and their tickers, and the goroutines that would run while
-- applyCommittedEntries waits for its channel. Also not modelled: crash and restart of a Raft node as
-- steps, the opening and the cleaning of segment files, CreateTopic and the registration of the
-- broker, and GetTraceSummary.
pub mod Prelude
pub mod Go
pub mod Oldest
pub mod Raft
pub mod Transaction
pub mod Coordinator
pub mod Idempotent
pub mod Groups
pub mod NameServer
pub mod Storage
pub mod Namespace
pub mod Wire
pub mod Tracing
pub mod TimeWheel
pub mod Audit
pub mod Broker
pub mod Client
mod Examples

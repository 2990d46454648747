-- ===== src/Raft.antt =====
-- The state of a node (cluster/go/raft/raft.go) and its messages (cluster/go/raft/raft.proto).
pub mod Storage
pub mod Roles
pub mod Election
pub mod Membership
pub mod Replication
pub mod Isr
pub mod Commit
pub mod Snapshot
pub mod Frame
pub mod Votes
pub mod Steps
pub mod Quiet
pub mod Handlers
pub mod Clients
use distributed_mq.Prelude.{ℕ, String, Bool, Option, List}
use distributed_mq.Prelude.Map.{Map}

pub data NodeState : Type 0 where
  follower candidate leader : NodeState

pub data ConfigState : Type 0 where
  config_stable config_joint : ConfigState

pub data EntryType : Type 0 where
  data_entry conf_change joint_consensus : EntryType

pub record ConfigEntry : Type 0 where
  pub old_peers : List String
  pub new_peers : List String

pub record LogEntry : Type 0 where
  pub term : ℕ  -- uint64
  pub index : ℕ  -- uint64
  pub type : EntryType
  pub topic : String
  pub partition : ℕ  -- the bit pattern of an int32
  pub payload : List ℕ  -- bytes
  pub config : Option ConfigEntry

pub record Peer : Type 0 where
  pub addr : String
  pub learner : Bool

pub record RequestVoteArgs : Type 0 where
  pub term : ℕ
  pub candidate_id : String
  pub last_log_index : ℕ
  pub last_log_term : ℕ

pub record RequestVoteReply : Type 0 where
  pub term : ℕ
  pub vote_granted : Bool

pub record AppendEntriesArgs : Type 0 where
  pub term : ℕ
  pub leader_id : String
  pub prev_log_index : ℕ
  pub prev_log_term : ℕ
  pub entries : List LogEntry
  pub leader_commit : ℕ

-- `conflict_index` is 0 where the source does not set it.
pub record AppendEntriesReply : Type 0 where
  pub term : ℕ
  pub success : Bool
  pub conflict_index : ℕ
  pub last_log_index : ℕ

-- What a `go` statement starts. A task runs later, in an order that the scheduler chooses.
pub data Task : Type 0 where
  send_append_entries : String → Task
  send_snapshot : String → Task
  request_vote : String → RequestVoteArgs → Task
  await_votes : ℕ → Task
  isr_ticker : Task
  apply_committed : Task
  append_stable : Task

-- raft_state.dat: the struct that saveState encodes
pub record SavedState : Type 0 where
  pub current_term : ℕ
  pub voted_for : String
  pub commit_index : ℕ
  pub last_applied : ℕ
  pub log_length : ℕ
  pub config_state : ConfigState
  pub current_config : Map String Bool
  pub new_config : Option (Map String Bool)
  pub persisted_index : ℕ

-- The two files of `dataDir`. Each batch of raft_log.dat is what one gob encoder wrote.
pub record Disk : Type 0 where
  pub state_file : Option SavedState
  pub log_file : List (List LogEntry)

-- Whether the file system calls succeed: WriteFile and Rename of the state, OpenFile of the log.
pub record FileSystem : Type 0 where
  pub write_file : Bool
  pub rename : Bool
  pub open_file : Bool

-- `locked` is `mu`. A timer is the number of times that it was reset. A channel of `pendingCommit`
-- is a number, `closed` are those that were closed. `delivered` is what went into `applyCh`, which
-- is nil if `has_apply_ch` is false. `spawned` are the tasks that were started, oldest first.
pub record RaftNode : Type 0 where
  pub locked : Bool
  pub state : NodeState
  pub current_term : ℕ
  pub voted_for : String
  pub log : List LogEntry
  pub commit_index : ℕ
  pub last_applied : ℕ
  pub next_index : Map String ℕ
  pub match_index : Map String ℕ
  pub peers : Map String Peer
  pub self_addr : String
  pub election_timer : ℕ
  pub heartbeat_timer : ℕ
  pub has_apply_ch : Bool
  pub delivered : List LogEntry
  pub data_dir : String
  pub pending_commit : Map ℕ ℕ
  pub closed : List ℕ
  pub next_chan : ℕ
  pub isr : Map String Bool
  pub max_lag : ℕ
  pub current_config : Map String Bool
  pub new_config : Option (Map String Bool)
  pub config_state : ConfigState
  pub persisted_index : ℕ
  pub spawned : List Task
  pub disk : Disk
  pub file_system : FileSystem

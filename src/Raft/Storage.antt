-- ===== src/Raft/Storage.antt =====
-- saveState, appendLogEntries, loadState and loadLogEntries of cluster/go/raft/raft.go.
-- `save_state` touches `disk` and `persisted_index` alone, and is written so that each other field
-- of its result is a field of its argument.
use distributed_mq.Prelude.{
  if◌then◌else◌, ◌==◌, length, take, drop, ℕ, ◌+◌, Bool, ◌||◌, not, none, some, List, [], ◌∷◌, ◌++◌,
}
use distributed_mq.Go.{u64, sub_u64}
use distributed_mq.Raft.{LogEntry, SavedState, Disk, RaftNode}
use distributed_mq.Prelude.{string_eq}

-- the struct literal of saveState
unfoldable pub saved_state : RaftNode → SavedState
saved_state r = record {
  current_term = r.current_term;
  voted_for = r.voted_for;
  commit_index = r.commit_index;
  last_applied = r.last_applied;
  log_length = length r.log;
  config_state = r.config_state;
  current_config = r.current_config;
  new_config = r.new_config;
  persisted_index = r.persisted_index;
}

-- an early return before appendLogEntries
abbrev pub state_unsaved : RaftNode → Bool
state_unsaved r = r.data_dir == "" || not r.file_system.write_file || not r.file_system.rename

-- An encoder with nothing to encode writes no byte.
abbrev add_batch : List LogEntry → List (List LogEntry) → List (List LogEntry)
add_batch [] file = file
add_batch (e ∷ es) file = file ++ (e ∷ es) ∷ []

-- appendLogEntries, what it leaves in raft_log.dat
unfoldable pub append_log_entries : RaftNode → List (List LogEntry)
append_log_entries r =
    if r.file_system.open_file
    then add_batch (drop (u64 (r.persisted_index + 1)) r.log) r.disk.log_file
    else r.disk.log_file

unfoldable pub disk_after_save : RaftNode → Disk
unfolding saved_state append_log_entries
disk_after_save r =
    if state_unsaved r
    then r.disk
    else record { state_file = some (saved_state r); log_file = append_log_entries r }

unfoldable pub persisted_after_save : RaftNode → ℕ
persisted_after_save r =
    if state_unsaved r || not r.file_system.open_file
    then r.persisted_index
    else sub_u64 (length r.log) 1

abbrev pub save_state : RaftNode → RaftNode
save_state r = record r { disk = disk_after_save r; persisted_index = persisted_after_save r }

-- A gob decoder refuses the type definitions that a second encoder sends again, so the loop of
-- loadLogEntries ends after the entries of the first encoder.
abbrev pub decode_log : List (List LogEntry) → List LogEntry
decode_log [] = []
decode_log (batch ∷ file) = batch

-- loadLogEntries
unfoldable pub load_log_entries : List (List LogEntry) → List LogEntry → List LogEntry
load_log_entries [] log = log
load_log_entries (batch ∷ file) log = take 1 log ++ decode_log (batch ∷ file)

-- loadState
unfoldable pub load_state : RaftNode → RaftNode
unfolding load_log_entries
load_state r = if r.data_dir == "" then r else elim r.disk.state_file [
  | none ↦ r
  | some s ↦ record r {
    current_term = s.current_term;
    voted_for = s.voted_for;
    commit_index = s.commit_index;
    last_applied = s.last_applied;
    config_state = s.config_state;
    current_config = s.current_config;
    new_config = s.new_config;
    persisted_index = s.persisted_index;
    log = load_log_entries r.disk.log_file r.log;
  }
]

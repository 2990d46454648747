-- ===== src/Raft/Roles.antt =====
-- Timers and changes of role, of cluster/go/raft/raft.go: resetElectionTimer, resetHeartbeatTimer,
-- becomeLeader, startISRTicker, checkISR, getISRSize, becomeFollower, sendHeartbeats,
-- getQuorumSize, GetState, and the mutex.
use distributed_mq.Prelude.{
  ltb, if◌then◌else◌, length, ℕ, suc, ◌+◌, ◌/◌, String, ◌≡◌, refl, Bool, true, false, not, Option,
  none, some, List, [], ◌∷◌, ◌++◌,
}
use distributed_mq.Prelude.{nat_eq, string_eq}
use distributed_mq.Prelude.Map.{Map, keys, values, insert, get_or}
use distributed_mq.Go.{sub_u64, Outcome, ret, panic, blocked, Exec}
use distributed_mq.Raft.{
  NodeState, follower, leader, ConfigState, config_stable, config_joint, Peer, Task,
  send_append_entries, isr_ticker, RaftNode,
}
use distributed_mq.Raft.Storage.{save_state}

abbrev pub Handler : Type 0 → Type 0
Handler A = Exec RaftNode A

-- `r.mu.Lock()`: the goroutine that holds `mu` blocks for ever if it locks it again.
abbrev pub lock : Handler (Unit {0})
lock r = if r.locked then (blocked, r) else (ret tt, record r { locked = true })

-- `r.mu.Unlock()`; unlocking an unlocked mutex is a fatal error.
abbrev pub unlock : Handler (Unit {0})
unlock r = if r.locked then (ret tt, record r { locked = false }) else (panic, r)

-- `r.mu.RLock(); defer r.mu.RUnlock()` around a method that only reads. RLock waits for a writer,
-- and in these uses the writer is the goroutine itself.
abbrev pub with_rlock : {A : Type 0} → (RaftNode → A) → Handler A
with_rlock f r = if r.locked then (blocked, r) else (ret (f r), r)

-- a piece of code that only writes fields
abbrev pub update : (RaftNode → RaftNode) → Handler (Unit {0})
update f r = (ret tt, f r)

-- the deferred `r.mu.Unlock()`, which runs at a return and at a panic
abbrev pub unlock_after : {A : Type 0} → Outcome A × RaftNode → Outcome A × RaftNode
unlock_after (ret a, r) = if r.locked then (ret a, record r { locked = false }) else (panic, r)
unlock_after (panic, r) = (panic, record r { locked = false })
unlock_after (blocked, r) = (blocked, r)

-- `r.mu.Lock(); defer r.mu.Unlock()` at the head of a method
abbrev pub with_lock : {A : Type 0} → Handler A → Handler A
with_lock m r = if r.locked then (blocked, r) else unlock_after (m (record r { locked = true }))

abbrev pub reset_election_timer : RaftNode → RaftNode
reset_election_timer r = record r { election_timer = r.election_timer + 1 }

abbrev pub reset_heartbeat_timer : RaftNode → RaftNode
reset_heartbeat_timer r = record r { heartbeat_timer = r.heartbeat_timer + 1 }

-- the loop that closes every channel of pendingCommit and deletes it
abbrev pub clear_pending : RaftNode → RaftNode
clear_pending r = record r { closed = r.closed ++ values r.pending_commit; pending_commit = [] }

unfoldable pub become_follower : ℕ → RaftNode → RaftNode
become_follower term r = save_state (
    reset_election_timer
      (clear_pending (record r { state = follower; current_term = term; voted_for = "" })))

abbrev pub heartbeats : Map String Peer → List Task
heartbeats [] = []
heartbeats ((addr, peer) ∷ peers) = send_append_entries peer.addr ∷ heartbeats peers

unfoldable pub send_heartbeats : RaftNode → RaftNode
send_heartbeats r = reset_heartbeat_timer (record r { spawned = r.spawned ++ heartbeats r.peers })

-- a write of the same value at the key of every peer
abbrev pub set_for_peers : {V : Type 0} → V → List String → Map String V → Map String V
set_for_peers v [] m = m
set_for_peers v (addr ∷ addrs) m = set_for_peers v addrs (insert addr v m)

-- startISRTicker
abbrev start_isr_ticker : RaftNode → RaftNode
start_isr_ticker r = record r { spawned = r.spawned ++ isr_ticker ∷ [] }

unfoldable pub become_leader : RaftNode → RaftNode
unfolding send_heartbeats
become_leader r =
    let addrs = keys r.peers in
    start_isr_ticker (
      reset_heartbeat_timer (
        send_heartbeats (
          clear_pending (record r {
            state = leader;
            next_index = set_for_peers (length r.log) addrs r.next_index;
            match_index = set_for_peers 0 addrs r.match_index;
            isr = set_for_peers true addrs r.isr;
          }))))

-- `r.commitIndex - r.matchIndex[peerAddr]`, on uint64
abbrev pub replica_lag : RaftNode → String → ℕ
replica_lag r addr = sub_u64 r.commit_index (get_or addr 0 r.match_index)

-- the loop of checkISR
unfoldable pub check_peers : RaftNode → List String → Map String Bool → Map String Bool
check_peers r [] isr = isr
check_peers r (addr ∷ addrs) isr =
    check_peers r addrs (insert addr (not (ltb r.max_lag (replica_lag r addr))) isr)

abbrev pub is_leader : NodeState → Bool
is_leader leader = true
is_leader _ = false

abbrev pub check_isr_locked : Handler (Unit {0})
check_isr_locked r =
    if is_leader r.state
    then (ret tt, record r { isr = check_peers r (keys r.peers) r.isr })
    else (ret tt, r)

unfoldable pub check_isr : Handler (Unit {0})
unfolding check_peers
check_isr = with_lock check_isr_locked

abbrev count_true : List Bool → ℕ
count_true [] = 0
count_true (b ∷ bs) = let n = count_true bs in if b then suc n else n

-- getISRSize
unfoldable pub get_isr_size : Handler ℕ
get_isr_size = with_rlock λ r. suc (count_true (values r.isr))

-- `len` of a map that may be nil
abbrev pub len_config : Option (Map String Bool) → ℕ
len_config none = 0
len_config (some m) = length m

-- a read of a map that may be nil
abbrev pub config_has : String → Option (Map String Bool) → Bool
config_has addr none = false
config_has addr (some m) = get_or addr false m

abbrev pub is_joint : ConfigState → Bool
is_joint config_stable = false
is_joint config_joint = true

-- getQuorumSize
unfoldable pub get_quorum_size : Handler ℕ
get_quorum_size = with_rlock λ r.
    let old_quorum = length r.current_config / 2 + 1 in
    if is_joint r.config_state then old_quorum + (len_config r.new_config / 2 + 1) else old_quorum

-- GetState
abbrev pub get_state_locked : Handler (NodeState × ℕ)
get_state_locked r = (ret (r.state, r.current_term), r)

unfoldable pub get_state : Handler (NodeState × ℕ)
get_state = with_lock get_state_locked

-- A method under `mu` that neither panics nor blocks, and leaves `mu` held until its end.
pub with_lock-ret :
    {A : Type 0} (m : Handler A) (r : RaftNode) (a : A)
    → r.locked ≡ false
    → (m (record r { locked = true })).0 ≡ ret a
    → (m (record r { locked = true })).1.locked ≡ true
    → with_lock m r ≡ (ret a, record (m (record r { locked = true })).1 { locked = false })
with_lock-ret m r a free out held = rw (free, out, held) refl

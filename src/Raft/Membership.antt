-- ===== src/Raft/Membership.antt =====
-- Changes of the cluster, of cluster/go/raft/raft.go: AddNode, RemoveNode, changeConfig,
-- applyConfigChangeLocked, appendStableConfig, getConfigSize.
use distributed_mq.Prelude.{
  if◌then◌else◌, ◌==◌, length, ℕ, String, Bool, true, false, ◌&&◌, ◌||◌, not, Option, none, some,
  List, [], ◌∷◌, ◌++◌,
}
use distributed_mq.Prelude.{nat_eq, string_eq}
use distributed_mq.Prelude.Map.{Map, keys, insert, delete, get_or, has_key}
use distributed_mq.Go.{ret, blocked}
use distributed_mq.Raft.{
  config_stable, config_joint, EntryType, conf_change, joint_consensus, ConfigEntry, LogEntry,
  append_stable, RaftNode,
}
use distributed_mq.Raft.Storage.{save_state}
use distributed_mq.Raft.Roles.{Handler, with_rlock, with_lock, send_heartbeats, is_leader, is_joint}

pub data MemberError : Type 0 where
  not_leader already_in_cluster not_in_cluster only_node change_in_progress : MemberError

-- A method that returns `error`: `none` is nil.
abbrev pub MemberResult : Type 0
MemberResult = Option MemberError

abbrev pub entry_of : RaftNode → EntryType → List String → List String → LogEntry
entry_of r type old new = record {
  term = r.current_term;
  index = length r.log;
  type = type;
  topic = "";
  partition = 0;
  payload = [];
  config = some (record { old_peers = old; new_peers = new });
}

-- a map with `true` at each address
abbrev pub config_of : List String → Map String Bool → Map String Bool
config_of [] m = m
config_of (addr ∷ addrs) m = config_of addrs (insert addr true m)

-- the map that changeConfig builds
abbrev pub changed_config : String → Bool → RaftNode → Map String Bool
changed_config addr add r =
    let copy = config_of (keys r.current_config) [] in
    if add then insert addr true copy else delete addr copy

-- changeConfig
abbrev pub change_config_locked : String → Bool → Handler MemberResult
change_config_locked addr add r =
    let new_config = changed_config addr add r in
    (
      ret none,
      save_state (record r {
        new_config = some new_config;
        config_state = config_joint;
        log = r.log ++ entry_of r joint_consensus (keys r.current_config) (keys new_config) ∷ [];
      }),
    )

unfoldable pub change_config : String → Bool → Handler MemberResult
change_config addr add = with_lock (change_config_locked addr add)

-- The checks run with `mu` held, which is released before changeConfig.
unfoldable pub add_node : String → Handler MemberResult
unfolding change_config
add_node addr r =
    if r.locked
    then (blocked, r)
    else if not (is_leader r.state)
    then (ret (some not_leader), r)
    else if get_or addr false r.current_config
    then (ret (some already_in_cluster), r)
    else if is_joint r.config_state
    then (ret (some change_in_progress), r)
    else change_config addr true r

unfoldable pub remove_node : String → Handler MemberResult
unfolding change_config
remove_node addr r =
    if r.locked
    then (blocked, r)
    else if not (is_leader r.state)
    then (ret (some not_leader), r)
    else if not (get_or addr false r.current_config)
    then (ret (some not_in_cluster), r)
    else if addr == r.self_addr && length r.current_config == 1
    then (ret (some only_node), r)
    else if is_joint r.config_state
    then (ret (some change_in_progress), r)
    else change_config addr false r

-- a learner for an address that is no peer yet, and not the node itself
unfoldable pub add_learner : String → RaftNode → RaftNode
add_learner addr r = if has_key addr r.peers || addr == r.self_addr then r else record r {
  peers = insert addr (record { addr = addr; learner = true }) r.peers;
  isr = insert addr true r.isr;
  next_index = insert addr (length r.log) r.next_index;
  match_index = insert addr 0 r.match_index;
}

-- the loop over NewPeers
unfoldable pub add_learners : List String → RaftNode → RaftNode
unfolding add_learner
add_learners [] r = r
add_learners (addr ∷ addrs) r = add_learners addrs (add_learner addr r)

-- a peer that is not in the new configuration
unfoldable pub drop_peer : String → RaftNode → RaftNode
drop_peer addr r = if get_or addr false r.current_config then r else record r {
  peers = delete addr r.peers;
  isr = delete addr r.isr;
  next_index = delete addr r.next_index;
  match_index = delete addr r.match_index;
}

-- the loop over `r.peers` that deletes who is not in the new configuration
unfoldable pub drop_peers : List String → RaftNode → RaftNode
unfolding drop_peer
drop_peers [] r = r
drop_peers (addr ∷ addrs) r = drop_peers addrs (drop_peer addr r)

abbrev pub enter_joint : ConfigEntry → RaftNode → RaftNode
enter_joint c r =
    let r' = add_learners c.new_peers (record r {
      current_config = config_of c.old_peers [];
      new_config = some (config_of c.new_peers []);
      config_state = config_joint;
    }) in
    if is_leader r'.state then record r' { spawned = r'.spawned ++ append_stable ∷ [] } else r'

abbrev pub enter_stable : ConfigEntry → RaftNode → RaftNode
enter_stable c r = drop_peers (keys r.peers) (record r {
  current_config = config_of c.new_peers [];
  new_config = none;
  config_state = config_stable;
})

abbrev pub apply_config : EntryType → Option ConfigEntry → RaftNode → RaftNode
apply_config joint_consensus (some c) r = enter_joint c r
apply_config conf_change (some c) r = enter_stable c r
apply_config _ _ r = r

-- applyConfigChangeLocked
unfoldable pub apply_config_change : LogEntry → RaftNode → RaftNode
unfolding add_learners drop_peers
apply_config_change entry r = apply_config entry.type entry.config r

-- `range` over a map that may be nil
abbrev pub config_keys : Option (Map String Bool) → List String
config_keys none = []
config_keys (some m) = keys m

-- appendStableConfig; the heartbeats are sent after `mu` is released
unfoldable pub append_stable_config : Handler (Unit {0})
unfolding send_heartbeats
append_stable_config r =
    if r.locked
    then (blocked, r)
    else if is_leader r.state && is_joint r.config_state
    then (
      ret tt,
      send_heartbeats (
          save_state (record r {
            log = r.log ++ entry_of r conf_change [] (config_keys r.new_config) ∷ [];
          })),
    )
    else (ret tt, r)

-- getConfigSize
unfoldable pub get_config_size : Handler ℕ
get_config_size = with_rlock λ r. length r.current_config

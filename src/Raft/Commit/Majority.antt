-- ===== src/Raft/Commit/Majority.antt =====
-- What the counting of replicas in updateCommitIndex of cluster/go/raft/raft.go comes to.
use mathlib.Core.Path.{ap}
use distributed_mq.Prelude.{
  leb, if◌then◌else◌, Option-cases, if-elim, length, ℕ, zero, suc, ◌+◌, ◌*◌, ◌/◌, ◌≤◌, ◌<◌, String,
  ◌≡◌, refl, ◌⊎◌, inl, inr, Bool, true, false, ◌&&◌, Option, none, some, List, [], ◌∷◌, arith,
}
use distributed_mq.Prelude.{nat_eq, string_eq}
use distributed_mq.Prelude.Map.{Map, lookup, get_or}
use distributed_mq.Raft.{ConfigState, config_stable, config_joint, RaftNode}
use distributed_mq.Raft.Roles.{len_config, config_has, is_joint}
use distributed_mq.Raft.Commit.{count_replicas, has_quorum}

-- `k` entries of the list satisfy `P`.
pub data CountOf {A : Type 0} (P : A → Type 0) : List A → ℕ → Type 0 where
  none_left : CountOf P [] 0
  counted : {x : A} {xs : List A} {k : ℕ} → P x → CountOf P xs k → CountOf P (x ∷ xs) (suc k)
  skipped : {x : A} {xs : List A} {k : ℕ} → ¬ P x → CountOf P xs k → CountOf P (x ∷ xs) k

-- A peer of the configuration is known to have the entry at `n`; it is given with its match index.
abbrev pub Holds : ℕ → Map String Bool → String × ℕ → Type 0
Holds n config peer = (n ≤ peer.1) × (lookup peer.0 config ≡ some true)

-- The leader, which counts whether or not it is in the configuration, and the peers that have the
-- entry are more than half as many as the configuration has nodes.
abbrev pub Majority : ℕ → Map String Bool → Map String ℕ → Type 0
Majority n config matches =
    (k : ℕ) × CountOf (Holds n config) matches k × (length config < 2 * (1 + k))

-- a nil map of the new configuration has no nodes
abbrev pub nodes_of : Option (Map String Bool) → Map String Bool
nodes_of none = []
nodes_of (some config) = config

-- A majority of the current configuration has the entry at `n`, and while the configuration is joint,
-- also one of the new configuration.
abbrev pub HasQuorum : ℕ → RaftNode → Type 0
HasQuorum n r =
    Majority n r.current_config r.match_index
    × ((r.config_state ≡ config_stable) ⊎ Majority n (nodes_of r.new_config) r.match_index)

get_or-true :
    (addr : String) (config : Map String Bool)
    → get_or addr false config ≡ true
    → lookup addr config ≡ some true
unfolding get_or
get_or-true addr config h = elim (Option-cases (lookup addr config)) [
  | inl missing ↦ absurd (cc (h, missing))
  | inr (b, found) ↦ ground (arith, h, found)
]

get_or_found :
    (addr : String) (config : Map String Bool)
    → lookup addr config ≡ some true
    → get_or addr false config ≡ true
unfolding get_or
get_or_found addr config h = ground (arith, h)

count_replicas-CountOf :
    (n : ℕ) (config : Map String Bool) (m : Map String ℕ)
    → CountOf (Holds n config) m (count_replicas n m (λ addr. get_or addr false config))
unfolding count_replicas
count_replicas-CountOf n config [] = none_left
count_replicas-CountOf n config ((addr, idx) ∷ m) =
    let rest = count_replicas-CountOf n config m in
    let has : String → Bool = λ name. get_or name false config in
    if-elim (CountOf (Holds n config) ((addr, idx) ∷ m)) (leb n idx && get_or addr false config)
      (suc (count_replicas n m has)) (count_replicas n m has)
      (λ yes_it_is.
        counted (ground (arith, yes_it_is), get_or-true addr config (ground (arith, yes_it_is)))
          rest)
      (λ not_it.
        skipped
          (λ holds. absurd (ground (arith, not_it, holds.0, get_or_found addr config holds.1)))
          rest)

CountOf-unique :
    {A : Type 0} (P : A → Type 0) (xs : List A) (j k : ℕ) → CountOf P xs j → CountOf P xs k → j ≡ k
CountOf-unique P [] zero zero none_left none_left = refl
CountOf-unique P [] zero (suc k) p q = elim q [ ]
CountOf-unique P [] (suc j) k p q = elim p [ ]
CountOf-unique P (x ∷ xs) (suc j) (suc k) (counted a p) (counted b q) =
    ap suc (CountOf-unique P xs j k p q)
CountOf-unique P (x ∷ xs) (suc j) k (counted a p) (skipped b q) = absurd (b a)
CountOf-unique P (x ∷ xs) j (suc k) (skipped a p) (counted b q) = absurd (a b)
CountOf-unique P (x ∷ xs) j k (skipped a p) (skipped b q) = CountOf-unique P xs j k p q

-- The code's test for one configuration.
abbrev enough : ℕ → Map String Bool → Map String ℕ → Bool
enough n config matches =
    leb (length config / 2 + 1) (suc (count_replicas n matches (λ addr. get_or addr false config)))

enough-Majority :
    (n : ℕ) (config : Map String Bool) (matches : Map String ℕ)
    → enough n config matches ≡ true
    → Majority n config matches
enough-Majority n config matches h =
    let k = count_replicas n matches (λ addr. get_or addr false config) in
    (k, count_replicas-CountOf n config matches, ground (arith, h))

Majority-enough :
    (n : ℕ) (config : Map String Bool) (matches : Map String ℕ)
    → Majority n config matches
    → enough n config matches ≡ true
Majority-enough n config matches (k, number, more) = ground (
  arith,
  more,
  CountOf-unique (Holds n config) matches k _ number (count_replicas-CountOf n config matches),
)

-- The test for the new configuration is that for its nodes.
new_enough : ℕ → Option (Map String Bool) → Map String ℕ → Bool
new_enough n config matches =
    leb (len_config config / 2 + 1)
      (suc (count_replicas n matches (λ addr. config_has addr config)))

new_enough-enough :
    (n : ℕ) (config : Option (Map String Bool)) (matches : Map String ℕ)
    → new_enough n config matches ≡ enough n (nodes_of config) matches
unfolding new_enough get_or lookup
new_enough-enough n none matches = refl
new_enough-enough n (some config) matches = refl

has_quorum_lem :
    (n : ℕ) (r : RaftNode)
    → has_quorum n r ≡ (
        if is_joint r.config_state
        then enough n r.current_config r.match_index
          && enough n (nodes_of r.new_config) r.match_index
        else enough n r.current_config r.match_index)
unfolding has_quorum new_enough
has_quorum_lem n r =
    ap
      (λ new.
        if is_joint r.config_state
        then enough n r.current_config r.match_index && new
        else enough n r.current_config r.match_index)
      (new_enough-enough n r.new_config r.match_index)

stable_or_joint : (c : ConfigState) → (c ≡ config_stable) ⊎ (is_joint c ≡ true)
stable_or_joint config_stable = inl refl
stable_or_joint config_joint = inr refl

pub has_quorum-HasQuorum : (n : ℕ) (r : RaftNode) → has_quorum n r ≡ true → HasQuorum n r
has_quorum-HasQuorum n r h = elim (stable_or_joint r.config_state) [
  | inl stable ↦ (
    enough-Majority n r.current_config r.match_index
        (ground (arith, h, has_quorum_lem n r, ap is_joint stable)),
    inl stable,
  )
  | inr joint ↦ (
    enough-Majority n r.current_config r.match_index (ground (arith, h, has_quorum_lem n r, joint)),
    inr (
        enough-Majority n (nodes_of r.new_config) r.match_index
          (ground (arith, h, has_quorum_lem n r, joint))),
  )
]

pub HasQuorum-has_quorum : (n : ℕ) (r : RaftNode) → HasQuorum n r → has_quorum n r ≡ true
HasQuorum-has_quorum n r (now, inl stable) = ground (
  arith,
  has_quorum_lem n r,
  ap is_joint stable,
  Majority-enough n r.current_config r.match_index now,
)
HasQuorum-has_quorum n r (now, inr new) = ground (
  arith,
  has_quorum_lem n r,
  Majority-enough n r.current_config r.match_index now,
  Majority-enough n (nodes_of r.new_config) r.match_index new,
)

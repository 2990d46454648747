-- ===== src/Namespace.antt =====
-- Namespaces and permissions, cluster/go/broker/namespace/namespace.go. Each method holds the mutex
-- from its start to its end, so that it is one step. The namespaces are objects that only the map
-- points to, so that the map holds them.
pub mod Permission
pub mod Topics
use distributed_mq.Prelude.{
  ltb, leb, if◌then◌else◌, ◌==◌, length, ℕ, String, Bool, true, false, ◌&&◌, ◌||◌, not, Option,
  none, some, List, [], ◌∷◌, ◌++◌,
}
use distributed_mq.Prelude.{nat_eq, string_eq}
use distributed_mq.Prelude.Map.{Map, lookup, insert, delete, get_or, has_key}

pub data Action : Type 0 where
  produce consume admin : Action

-- `act == action || act == ActionAdmin`
abbrev pub covers : Action → Action → Bool
covers admin action = true
covers produce produce = true
covers consume consume = true
covers _ _ = false

pub record Acl : Type 0 where
  pub user_id : String
  pub topic : String
  pub actions : List Action
  pub allow : Bool

-- a limit of 0 is no limit; a negative one acts like 0
pub record Quota : Type 0 where
  pub max_messages_per_second : ℕ
  pub max_bytes_per_second : ℕ
  pub max_topics : ℕ
  pub max_partitions : ℕ

pub record NamespaceInfo : Type 0 where
  pub name : String
  pub topics : List String
  pub quota : Quota
  pub acls : List Acl
  pub created_at : ℕ
  pub modified_at : ℕ

pub record NamespaceManager : Type 0 where
  pub namespaces : Map String NamespaceInfo
  pub topic_to_ns : Map String String
  pub user_to_ns : Map String (List String)

-- what a method returns: no error, or one of its errors
pub data Status : Type 0 where
  done already_exists namespace_missing too_many_topics topic_missing : Status

abbrev pub Method : Type 0
Method = NamespaceManager → Status × NamespaceManager

-- NewNamespaceManager
abbrev pub new_namespace_manager : NamespaceManager
new_namespace_manager = record { namespaces = []; topic_to_ns = []; user_to_ns = [] }

abbrev pub member_of : String → List String → Bool
member_of s [] = false
member_of s (t ∷ ts) = t == s || member_of s ts

-- CreateNamespace, which reads the clock twice
unfoldable pub create_namespace : String → Quota → (created modified : ℕ) → Method
create_namespace name quota created modified nm =
    if has_key name nm.namespaces then (already_exists, nm) else (
      done,
      record nm {
        namespaces =
            insert name
              (record {
                name = name;
                topics = [];
                quota = quota;
                acls = [];
                created_at = created;
                modified_at = modified;
              })
              nm.namespaces;
      },
    )

abbrev pub delete_keys : List String → Map String String → Map String String
delete_keys [] m = m
delete_keys (k ∷ ks) m = delete_keys ks (delete k m)

-- DeleteNamespace
unfoldable pub delete_namespace : String → Method
delete_namespace name nm = elim (lookup name nm.namespaces) [
  | none ↦ (namespace_missing, nm)
  | some ns ↦ (
    done,
    record nm {
      topic_to_ns = delete_keys ns.topics nm.topic_to_ns;
      namespaces = delete name nm.namespaces;
    },
  )
]

abbrev pub is_full : NamespaceInfo → Bool
is_full ns = leb ns.quota.max_topics (length ns.topics) && ltb 0 ns.quota.max_topics

abbrev pub with_topic : String → ℕ → NamespaceInfo → NamespaceInfo
with_topic topic now ns = record ns { topics = ns.topics ++ topic ∷ []; modified_at = now }

-- AddTopic
unfoldable pub add_topic : (namespace topic : String) → ℕ → Method
add_topic namespace topic now nm = elim (lookup namespace nm.namespaces) [
  | none ↦ (namespace_missing, nm)
  | some ns ↦
      if is_full ns
      then (too_many_topics, nm)
      else if member_of topic ns.topics
      then (done, nm)
      else (
        done,
        record nm {
          namespaces = insert namespace (with_topic topic now ns) nm.namespaces;
          topic_to_ns = insert topic namespace nm.topic_to_ns;
        },
      )
]

-- the first occurrence is cut out
abbrev pub remove_first : String → List String → List String
remove_first s [] = []
remove_first s (t ∷ ts) = let rest = remove_first s ts in if t == s then ts else t ∷ rest

abbrev pub without_topic : String → ℕ → NamespaceInfo → NamespaceInfo
without_topic topic now ns = record ns { topics = remove_first topic ns.topics; modified_at = now }

-- RemoveTopic
unfoldable pub remove_topic : (namespace topic : String) → ℕ → Method
remove_topic namespace topic now nm = elim (lookup namespace nm.namespaces) [
  | none ↦ (namespace_missing, nm)
  | some ns ↦
      if member_of topic ns.topics
      then (
        done,
        record nm {
          namespaces = insert namespace (without_topic topic now ns) nm.namespaces;
          topic_to_ns = delete topic nm.topic_to_ns;
        },
      )
      else (topic_missing, nm)
]

-- GetNamespaceByTopic
abbrev pub get_namespace_by_topic : String → NamespaceManager → Option NamespaceInfo
get_namespace_by_topic topic nm = elim (lookup topic nm.topic_to_ns) [
  | none ↦ none
  | some name ↦ lookup name nm.namespaces
]

-- the namespaces of a user, with one more if it is not there
abbrev pub note_user : String → List String → List String
note_user namespace names = if member_of namespace names then names else names ++ namespace ∷ []

-- AddACL
unfoldable pub add_acl : String → Acl → ℕ → Method
add_acl namespace acl now nm = elim (lookup namespace nm.namespaces) [
  | none ↦ (namespace_missing, nm)
  | some ns ↦ (
    done,
    record nm {
      namespaces =
          insert namespace (record ns { acls = ns.acls ++ acl ∷ []; modified_at = now })
            nm.namespaces;
      user_to_ns =
          insert acl.user_id (note_user namespace (get_or acl.user_id [] nm.user_to_ns))
            nm.user_to_ns;
    },
  )
]

-- the inner loop of CheckPermission: true if it returns
abbrev pub any_covers : List Action → Action → Bool
any_covers [] action = false
any_covers (act ∷ acts) action = covers act action || any_covers acts action

-- the loop over the ACLs
unfoldable pub check_acls : (user_id topic : String) → Action → List Acl → Bool
check_acls user_id topic action [] = true
check_acls user_id topic action (acl ∷ acls) =
    let rest = check_acls user_id topic action acls in
    if not (acl.user_id == user_id)
    then rest
    else if not (acl.topic == "") && not (acl.topic == topic)
    then rest
    else if any_covers acl.actions action
    then acl.allow
    else rest

-- CheckPermission, none for its error
unfoldable pub check_permission : (user_id topic : String) → Action → NamespaceManager → Option Bool
unfolding check_acls
check_permission user_id topic action nm = elim (lookup topic nm.topic_to_ns) [
  | none ↦ some true
  | some name ↦ elim (lookup name nm.namespaces) [
    | none ↦ none
    | some ns ↦ some (check_acls user_id topic action ns.acls)
  ]
]

-- ===== src/Namespace/Topics.antt =====
-- The limit of topics of cluster/go/broker/namespace/namespace.go.
use distributed_mq.Prelude.{
  if-elim, match-elim, length, All, length-append, ℕ, ◌≤◌, ◌<◌, String, ◌≡◌, some, List, [], ◌∷◌,
  arith,
}
use distributed_mq.Prelude.{nat_eq, string_eq}
use distributed_mq.Prelude.Map.{lookup, insert, has_key, All-lookup, All-insert, All-delete}
use distributed_mq.Namespace.{
  Acl, Quota, NamespaceInfo, NamespaceManager, Status, done, already_exists, namespace_missing,
  too_many_topics, topic_missing, member_of, create_namespace, delete_namespace, is_full,
  with_topic, add_topic, remove_first, without_topic, remove_topic, add_acl,
}

-- A namespace has no more topics than its quota says, if it says anything.
abbrev pub Within : NamespaceInfo → Type 0
Within ns = 0 < ns.quota.max_topics → length ns.topics ≤ ns.quota.max_topics

abbrev pub AllWithin : NamespaceManager → Type 0
AllWithin nm = All (λ (e : String × NamespaceInfo). Within e.1) nm.namespaces

-- One call that changes namespaces.
pub data Step (nm : NamespaceManager) : NamespaceManager → Type 0 where
  created :
      (name : String) (quota : Quota) (at modified : ℕ)
      → Step nm (create_namespace name quota at modified nm).1
  deleted : (name : String) → Step nm (delete_namespace name nm).1
  topic_added : (namespace topic : String) (now : ℕ) → Step nm (add_topic namespace topic now nm).1
  topic_removed :
      (namespace topic : String) (now : ℕ) → Step nm (remove_topic namespace topic now nm).1
  acl_added : (namespace : String) (acl : Acl) (now : ℕ) → Step nm (add_acl namespace acl now nm).1

pub data Reach (nm : NamespaceManager) : NamespaceManager → Type 0 where
  here : Reach nm nm
  next : {a b : NamespaceManager} → Reach nm a → Step a b → Reach nm b

length-remove_first-le : (s : String) (ts : List String) → length (remove_first s ts) ≤ length ts
length-remove_first-le s [] = omega arith
length-remove_first-le s (t ∷ ts) = let rest = length-remove_first-le s ts in ground arith

put-AllWithin :
    (name : String) (ns : NamespaceInfo) (nm : NamespaceManager)
    → Within ns
    → AllWithin nm
    → All (λ (e : String × NamespaceInfo). Within e.1) (insert name ns nm.namespaces)
put-AllWithin name ns nm within all =
    All-insert (λ (e : String × NamespaceInfo). Within e.1) name ns nm.namespaces within all

found-Within :
    (name : String) (ns : NamespaceInfo) (nm : NamespaceManager)
    → AllWithin nm
    → lookup name nm.namespaces ≡ some ns
    → Within ns
found-Within name ns nm all found = All-lookup Within nm.namespaces name ns all found

Step-AllWithin :
    (nm : NamespaceManager) {after : NamespaceManager}
    → Step nm after
    → AllWithin nm
    → AllWithin after
unfolding create_namespace delete_namespace add_topic remove_topic add_acl
Step-AllWithin nm (created name quota at modified) all =
    if-elim (λ (x : Status × NamespaceManager). AllWithin x.1) (has_key name nm.namespaces)
      (already_exists, nm) _ (λ _. all) (λ _. put-AllWithin name _ nm (λ _. omega arith) all)
Step-AllWithin nm (deleted name) all =
    match-elim (λ (x : Status × NamespaceManager). AllWithin x.1) (lookup name nm.namespaces)
      (namespace_missing, nm) _ (λ _. all)
      (λ ns _. All-delete (λ (e : String × NamespaceInfo). Within e.1) name nm.namespaces all)
Step-AllWithin nm (topic_added namespace topic now) all =
    match-elim (λ (x : Status × NamespaceManager). AllWithin x.1) (lookup namespace nm.namespaces)
      (namespace_missing, nm) _ (λ _. all)
      (λ ns _.
        if-elim (λ (x : Status × NamespaceManager). AllWithin x.1) (is_full ns)
          (too_many_topics, nm) _ (λ _. all)
          (λ room.
            if-elim (λ (x : Status × NamespaceManager). AllWithin x.1) (member_of topic ns.topics)
              (done, nm) _ (λ _. all)
              (λ _.
                put-AllWithin namespace (with_topic topic now ns) nm
                  (λ limited. let more = length-append ns.topics (topic ∷ []) in ground arith)
                  all)))
Step-AllWithin nm (topic_removed namespace topic now) all =
    match-elim (λ (x : Status × NamespaceManager). AllWithin x.1) (lookup namespace nm.namespaces)
      (namespace_missing, nm) _ (λ _. all)
      (λ ns found.
        if-elim (λ (x : Status × NamespaceManager). AllWithin x.1) (member_of topic ns.topics) _
          (topic_missing, nm)
          (λ _.
            put-AllWithin namespace (without_topic topic now ns) nm
              (λ limited.
                let old = found-Within namespace ns nm all found limited in
                omega (arith, length-remove_first-le topic ns.topics))
              all)
          (λ _. all))
Step-AllWithin nm (acl_added namespace acl now) all =
    match-elim (λ (x : Status × NamespaceManager). AllWithin x.1) (lookup namespace nm.namespaces)
      (namespace_missing, nm) _ (λ _. all)
      (λ ns found. put-AllWithin namespace _ nm (found-Within namespace ns nm all found) all)

-- In every run of the namespace manager that starts so, a namespace with a limit of topics has no more
-- than its limit.
pub Reach-AllWithin :
    (nm after : NamespaceManager) → Reach nm after → AllWithin nm → AllWithin after
Reach-AllWithin nm after here all = all
Reach-AllWithin nm after (next {a} run step) all =
    Step-AllWithin a step (Reach-AllWithin nm a run all)

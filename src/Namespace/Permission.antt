-- ===== src/Namespace/Permission.antt =====
-- CheckPermission of cluster/go/broker/namespace/namespace.go: the first ACL that applies decides.
use mathlib.Core.Path.{ap, sym}
use mathlib.Core.List.{Memᴰ}
use distributed_mq.Prelude.{
  Bool-cases, if-elim, ◌==◌, str_iff, All, ℕ, String, ◌≡◌, refl, ◌∙◌, ◌⊎◌, inl, inr, true, false,
  ◌&&◌, not, some, List, [], ◌∷◌, ◌++◌, arith,
}
use distributed_mq.Prelude.{nat_eq, string_eq}
use distributed_mq.Namespace.{
  Action, produce, consume, admin, covers, Acl, NamespaceInfo, NamespaceManager, done, remove_topic,
  any_covers, check_acls, check_permission,
}
use distributed_mq.Prelude.Map.{lookup, lookup-delete}

-- An ACL applies to a request: it is of the user, on the topic or on all topics, and one of its actions
-- is the one asked for, or ActionAdmin.
abbrev pub Applies : (user_id topic : String) → Action → Acl → Type 0
Applies user_id topic action acl =
    (acl.user_id ≡ user_id)
    × ((acl.topic ≡ "") ⊎ (acl.topic ≡ topic))
    × (Memᴰ action acl.actions ⊎ Memᴰ admin acl.actions)

covers_self : (action : Action) → covers action action ≡ true
covers_self produce = refl
covers_self consume = refl
covers_self admin = refl

covers_cases : (act action : Action) → covers act action ≡ true → (act ≡ action) ⊎ (act ≡ admin)
covers_cases admin action h = inr refl
covers_cases produce produce h = inl refl
covers_cases produce consume h = cc
covers_cases produce admin h = cc
covers_cases consume produce h = cc
covers_cases consume consume h = inl refl
covers_cases consume admin h = cc

any_covers_member :
    (act action : Action) (acts : List Action)
    → covers act action ≡ true
    → Memᴰ act acts
    → any_covers acts action ≡ true
any_covers_member act action [] h m = elim m [ ]
any_covers_member act action (x ∷ acts) h (Memᴰ.head same) =
    ground (arith, h, ap (λ a. covers a action) same)
any_covers_member act action (x ∷ acts) h (Memᴰ.tail m) =
    ground (arith, any_covers_member act action acts h m)

any_covers_found :
    (action : Action) (acts : List Action)
    → any_covers acts action ≡ true
    → Memᴰ action acts ⊎ Memᴰ admin acts
any_covers_found action [] h = cc
any_covers_found action (act ∷ acts) h = elim (Bool-cases (covers act action)) [
  | inl here ↦ elim (covers_cases act action here) [
    | inl same ↦ inl (Memᴰ.head (sym same))
    | inr same ↦ inr (Memᴰ.head (sym same))
  ]
  | inr other ↦ elim (any_covers_found action acts (ground (arith, h, other))) [
    | inl m ↦ inl (Memᴰ.tail m)
    | inr m ↦ inr (Memᴰ.tail m)
  ]
]

any_covers_either :
    (action : Action) (acts : List Action)
    → Memᴰ action acts ⊎ Memᴰ admin acts
    → any_covers acts action ≡ true
any_covers_either action acts (inl m) = any_covers_member action action acts (covers_self action) m
any_covers_either action acts (inr m) = any_covers_member admin action acts refl m

check_acls-here :
    (user_id topic : String) (action : Action) (after : List Acl) (acl : Acl)
    → Applies user_id topic action acl
    → check_acls user_id topic action (acl ∷ after) ≡ acl.allow
unfolding check_acls
check_acls-here user_id topic action after acl (user, on, act) = ground (
  arith,
  any_covers_either action acl.actions act,
  str_iff acl.user_id user_id,
  str_iff acl.topic "",
  str_iff acl.topic topic,
)

-- The test of the topic, read off.
on_topic :
    (topic : String) (acl : Acl)
    → (not (acl.topic == "") && not (acl.topic == topic)) ≡ false
    → (acl.topic ≡ "") ⊎ (acl.topic ≡ topic)
on_topic topic acl h = elim (Bool-cases (acl.topic == "")) [
  | inl blank ↦ inl ((str_iff acl.topic "").0 blank)
  | inr named ↦ inr ((str_iff acl.topic topic).0 (ground arith))
]

check_acls-skip :
    (user_id topic : String) (action : Action) (rest : List Acl) (acl : Acl)
    → ¬ Applies user_id topic action acl
    → check_acls user_id topic action (acl ∷ rest) ≡ check_acls user_id topic action rest
unfolding check_acls
check_acls-skip user_id topic action rest acl skip =
    let later = check_acls user_id topic action rest in
    if-elim (λ x. x ≡ later) (not (acl.user_id == user_id)) later _ (λ _. refl)
      (λ same.
        if-elim (λ x. x ≡ later) (not (acl.topic == "") && not (acl.topic == topic)) later _
          (λ _. refl)
          (λ on.
            if-elim (λ x. x ≡ later) (any_covers acl.actions action) acl.allow later
              (λ act. absurd (
                skip (
                  (str_iff acl.user_id user_id).0 (ground arith),
                  on_topic topic acl on,
                  any_covers_found action acl.actions act,
                )))
              (λ _. refl)))

check_acls_first :
    (user_id topic : String) (action : Action) (before after : List Acl) (acl : Acl)
    → All (λ a. ¬ Applies user_id topic action a) before
    → Applies user_id topic action acl
    → check_acls user_id topic action (before ++ acl ∷ after) ≡ acl.allow
check_acls_first user_id topic action [] after acl none_before applies =
    check_acls-here user_id topic action after acl applies
check_acls_first user_id topic action (b ∷ before) after acl (skip, none_before) applies =
    check_acls-skip user_id topic action (before ++ acl ∷ after) b skip
    ∙ check_acls_first user_id topic action before after acl none_before applies

-- Where a topic belongs to a namespace, CheckPermission answers with the first ACL of the namespace
-- that is of the user, on the topic or on all topics, and has the action or ActionAdmin among its
-- actions; the later ones do not matter.
pub check_permission_lem :
    (user_id topic name : String) (action : Action) (before after : List Acl) (acl : Acl)
    (ns : NamespaceInfo) (nm : NamespaceManager)
    → lookup topic nm.topic_to_ns ≡ some name
    → lookup name nm.namespaces ≡ some ns
    → ns.acls ≡ before ++ acl ∷ after
    → All (λ a. ¬ Applies user_id topic action a) before
    → Applies user_id topic action acl
    → check_permission user_id topic action nm ≡ some acl.allow
unfolding check_permission
check_permission_lem user_id topic name action before after acl ns nm owner there acls skipped
      applies =
    let first = check_acls_first user_id topic action before after acl skipped applies in
    ground arith

-- After RemoveTopic has succeeded, everybody may do everything with the topic, whatever namespace it
-- belonged to.
pub remove_topic_lem :
    (namespace topic user_id : String) (action : Action) (now : ℕ) (nm : NamespaceManager)
    → (remove_topic namespace topic now nm).0 ≡ done
    → check_permission user_id topic action (remove_topic namespace topic now nm).1 ≡ some true
unfolding remove_topic check_permission
remove_topic_lem namespace topic user_id action now nm success =
    ground (arith, lookup-delete topic topic nm.topic_to_ns, str_iff topic topic)

-- ===== src/Examples/Namespace.antt =====
-- A namespace that shuts a user out of a topic (cluster/go/broker/namespace/namespace.go).
use mathlib.Core.List.{Memᴰ}
use distributed_mq.Prelude.{◌≡◌, refl, inl, inr, true, false, some, [], ◌∷◌}
use distributed_mq.Prelude.{nat_eq, string_eq}
use distributed_mq.Prelude.Map.{lookup, insert, has_key}
use distributed_mq.Namespace.{
  consume, admin, Acl, Quota, NamespaceInfo, NamespaceManager, done, new_namespace_manager,
  create_namespace, add_topic, remove_topic, add_acl, check_permission,
}
use distributed_mq.Namespace.Permission.{check_permission_lem, remove_topic_lem}
use distributed_mq.Namespace.Topics.{
  AllWithin, created, topic_added, acl_added, Reach, here, next, Reach-AllWithin,
}

abbrev two_topics : Quota
two_topics = record {
  max_messages_per_second = 0;
  max_bytes_per_second = 0;
  max_topics = 2;
  max_partitions = 0;
}

abbrev deny : Acl
deny = record { user_id = "eve"; topic = ""; actions = admin ∷ []; allow = false }

abbrev made : NamespaceManager
made = (create_namespace "shop" two_topics 1 1 new_namespace_manager).1

abbrev guarded : NamespaceManager
guarded = (add_acl "shop" deny 3 (add_topic "shop" "orders" 2 made).1).1

guarded_run : Reach new_namespace_manager guarded
guarded_run =
    next (next (next here (created "shop" two_topics 1 1)) (topic_added "shop" "orders" 2))
      (acl_added "shop" deny 3)

Reach-AllWithin_example : AllWithin guarded
Reach-AllWithin_example = Reach-AllWithin new_namespace_manager guarded guarded_run tt

abbrev shop : NamespaceInfo
shop = record {
  name = "shop";
  topics = "orders" ∷ [];
  quota = two_topics;
  acls = deny ∷ [];
  created_at = 1;
  modified_at = 3;
}

owner : lookup "orders" guarded.topic_to_ns ≡ some "shop"
unfolding create_namespace add_acl add_topic lookup insert has_key
owner = refl

shop_there : lookup "shop" guarded.namespaces ≡ some shop
unfolding create_namespace add_acl add_topic lookup insert has_key
shop_there = refl

check_permission_lem_example : check_permission "eve" "orders" consume guarded ≡ some false
check_permission_lem_example =
    check_permission_lem "eve" "orders" "shop" consume [] [] deny shop guarded owner shop_there refl
      tt (refl, inl refl, inr (Memᴰ.head refl))

-- Another namespace takes the topic and lets go of it again, and the user is in.
abbrev taken : NamespaceManager
taken = (add_topic "rival" "orders" 5 (create_namespace "rival" two_topics 4 4 guarded).1).1

taken_back : (remove_topic "rival" "orders" 6 taken).0 ≡ done
unfolding create_namespace add_acl add_topic remove_topic lookup insert has_key
taken_back = refl

remove_topic_lem_example :
    check_permission "eve" "orders" consume (remove_topic "rival" "orders" 6 taken).1 ≡ some true
remove_topic_lem_example = remove_topic_lem "rival" "orders" "eve" consume 6 taken taken_back

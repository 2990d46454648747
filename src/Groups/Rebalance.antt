-- ===== src/Groups/Rebalance.antt =====
-- doRebalance of cluster/go/nameserver/nameserver.go gives every member its share.
use mathlib.Core.Path.{subst}
use native.Mathlib.Nat.{mod-lt, mod-add-div', mul_comm}
use distributed_mq.Prelude.{
  if◌then◌else◌, Bool-cases, Option-cases, if-elim, ◌==◌, str_iff, length, take, drop, All, ℕ, suc,
  ◌+◌, ◌/◌, ◌%◌, ◌≤◌, ◌<◌, String, ◌≡◌, refl, ◌∙◌, inl, inr, false, Option, none, some, List, [],
  ◌∷◌, arith,
}
use distributed_mq.Prelude.{nat_eq, string_eq}
use distributed_mq.Prelude.Map.{Map, keys, values, lookup, get_or, has_key, lookup-insert, NoDup}
use distributed_mq.Groups.{
  MemberMeta, ConsumerGroup, insert_sorted, sort_strings, clear_assignments, set_all, assigned,
  give, count_at, assign, member_ids, do_rebalance,
}
use distributed_mq.Groups.Shares.{
  shares, concat, total, total-eq, shares-concat, shares-length, keys-shares, contains, Distinct,
  contains-sort, sort-Distinct, contains-keys, keys-Distinct,
}

-- What a member is after it got the given partitions.
abbrev given : Option (List ℕ) → Option MemberMeta → Option MemberMeta
given none o = o
given (some ps) none = none
given (some ps) (some m) = some (assigned ps m)

lookup-give :
    (id k : String) (ps : List ℕ) (ms : Map String MemberMeta)
    → lookup id (give k ps ms) ≡ (if k == id then given (some ps) (lookup id ms) else lookup id ms)
unfolding give
lookup-give id k ps ms = elim (Option-cases (lookup k ms)) [
  | inl missing ↦ ground (arith, str_iff k id)
  | inr (m, found) ↦ ground (arith, lookup-insert k id (assigned ps m) ms, str_iff k id)
]

lookup-shares-none :
    (id : String) (per remainder i : ℕ) (ids : List String) (ps : List ℕ)
    → contains id ids ≡ false
    → lookup id (shares per remainder i ids ps) ≡ none
unfolding lookup
lookup-shares-none id per remainder i [] ps h = refl
lookup-shares-none id per remainder i (k ∷ ids) ps h =
    let rest =
      lookup-shares-none id per remainder (i + 1) ids (drop (count_at per remainder i) ps)
        (ground arith) in
    ground (arith, str_iff k id)

lookup-assign :
    (id : String) (per remainder i : ℕ) (ids : List String) (ps : List ℕ)
    (ms : Map String MemberMeta)
    → Distinct ids
    → lookup id (assign per remainder i ids ps ms)
      ≡ given (lookup id (shares per remainder i ids ps)) (lookup id ms)
unfolding assign lookup
lookup-assign id per remainder i [] ps ms h = refl
lookup-assign id per remainder i (k ∷ ids) ps ms (new, h) =
    let n = count_at per remainder i in
    let rest = lookup-assign id per remainder (i + 1) ids (drop n ps) (give k (take n ps) ms) h in
    let step = lookup-give id k (take n ps) ms in
    elim (Bool-cases (k == id)) [
      | inl same ↦
          let gone =
            lookup-shares-none id per remainder (i + 1) ids (drop n ps)
              (subst (λ x. contains x ids ≡ false) ((str_iff k id).0 same) new) in
          rest ∙ rw (gone, step, same)
      | inr other ↦ rest ∙ rw (step, other)
    ]

-- a member without its assignments
abbrev cleared : Option MemberMeta → Option MemberMeta
cleared o = elim o [ none ↦ none | some m ↦ some (record m { assignments = [] }) ]

lookup-clear :
    (id : String) (ms : Map String MemberMeta)
    → lookup id (clear_assignments ms) ≡ cleared (lookup id ms)
unfolding clear_assignments lookup
lookup-clear id [] = refl
lookup-clear id ((k, m) ∷ ms) = let rest = lookup-clear id ms in ground arith

length-insert_sorted :
    (s : String) (ts : List String) → length (insert_sorted s ts) ≡ suc (length ts)
length-insert_sorted s [] = refl
length-insert_sorted s (t ∷ ts) = let rest = length-insert_sorted s ts in ground arith

length-member_ids : (ms : Map String MemberMeta) → length (sort_strings (keys ms)) ≡ length ms
length-member_ids [] = refl
length-member_ids ((k, m) ∷ ms) =
    omega (arith, length-insert_sorted k (sort_strings (keys ms)), length-member_ids ms)

-- The shares of the members of a group, in the order of their identifiers.
abbrev pub shares_of : ConsumerGroup → Map String (List ℕ)
shares_of g =
    shares (length g.partitions / length (member_ids g))
      (length g.partitions % length (member_ids g)) 0 (member_ids g) g.partitions

total-all :
    (n : ℕ) (ids : List String) → 0 < length ids → total (n / length ids) (n % length ids) 0 ids ≡ n
total-all n ids h =
    let bound = mod-lt n h in
    let sum = total-eq (n / length ids) (n % length ids) 0 ids (omega arith) in
    let whole = mod-add-div' n (length ids) in
    let swap = mul_comm (length ids) (n / length ids) in omega arith

-- A member with the given partitions and no other.
abbrev pub reassigned : List ℕ → Option MemberMeta → Option MemberMeta
reassigned ps none = none
reassigned ps (some m) = some (record m { assignments = set_all ps [] })

given-cleared :
    (o : Option (List ℕ)) (p : Option MemberMeta)
    → given o (cleared p) ≡ reassigned (elim o [ none ↦ [] | some ps ↦ ps ]) p
given-cleared none none = refl
given-cleared none (some m) = refl
given-cleared (some ps) none = refl
given-cleared (some ps) (some m) = refl

pub lookup-rebalanced :
    (id : String) (g : ConsumerGroup)
    → NoDup g.members
    → 0 < length g.members
    → lookup id (do_rebalance g).members
      ≡ reassigned (get_or id [] (shares_of g)) (lookup id g.members)
unfolding do_rebalance get_or
lookup-rebalanced id g distinct filled =
    let ids = sort-Distinct (keys g.members) (keys-Distinct g.members distinct) in
    let size = length-member_ids g.members in
    if-elim
      (λ (x : ConsumerGroup).
        lookup id x.members ≡ reassigned (get_or id [] (shares_of g)) (lookup id g.members))
      (length (member_ids g) == 0) g _ (λ empty. absurd (ground arith))
      (λ _.
        lookup-assign id (length g.partitions / length (member_ids g))
          (length g.partitions % length (member_ids g)) 0 (member_ids g) g.partitions
          (clear_assignments g.members) ids
        ∙ rw (lookup-clear id g.members)
            (given-cleared (lookup id (shares_of g)) (lookup id g.members)))

-- For a group that has members, with distinct identifiers: doRebalance makes one share for each
-- member, the shares in the order of the identifiers put together are the list of the partitions of
-- the group, the sizes of the shares are the quotient or one more, afterwards each member is
-- assigned its share and nothing else, and the generation is one higher.
pub do_rebalance_lem :
    (g : ConsumerGroup)
    → NoDup g.members
    → 0 < length g.members
    → (concat (values (shares_of g)) ≡ g.partitions)
      × All
          (λ (e : String × List ℕ).
            (length g.partitions / length g.members ≤ length e.1)
            × (length e.1 ≤ length g.partitions / length g.members + 1))
          (shares_of g)
      × ((id : String) → contains id (keys (shares_of g)) ≡ has_key id g.members)
      × ((id : String)
          → lookup id (do_rebalance g).members
            ≡ reassigned (get_or id [] (shares_of g)) (lookup id g.members))
      × ((do_rebalance g).generation ≡ g.generation + 1)
unfolding do_rebalance
do_rebalance_lem g distinct filled =
    let k = length (member_ids g) in
    let n = length g.partitions in
    let size : k ≡ length g.members = length-member_ids g.members in
    let sum = total-all n (member_ids g) (omega arith) in
    (
      shares-concat (n / k) (n % k) 0 (member_ids g) g.partitions (omega arith),
      subst
          (λ d.
            All (λ (e : String × List ℕ). (n / d ≤ length e.1) × (length e.1 ≤ n / d + 1))
              (shares_of g))
          size (shares-length (n / k) (n % k) 0 (member_ids g) g.partitions (omega arith)),
      λ id.
          rw (keys-shares (n / k) (n % k) 0 (member_ids g) g.partitions)
            (contains-sort id (keys g.members) ∙ contains-keys id g.members),
      λ id. lookup-rebalanced id g distinct filled,
      if-elim (λ (x : ConsumerGroup). x.generation ≡ g.generation + 1) (k == 0) g _
          (λ empty. absurd (ground arith)) (λ _. refl),
    )

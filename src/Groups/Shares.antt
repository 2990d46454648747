-- ===== src/Groups/Shares.antt =====
-- The shares into which doRebalance of cluster/go/nameserver/nameserver.go cuts the partitions.
use distributed_mq.Prelude.{
  if-elim, ◌==◌, str_iff, length, take, drop, All, length-take-le, ℕ, zero, suc, ◌+◌, ◌-◌, ◌*◌, ◌≤◌,
  String, ◌≡◌, refl, ◌∙◌, Bool, false, ◌||◌, List, [], ◌∷◌, ◌++◌, arith,
}
use distributed_mq.Prelude.{nat_eq, string_eq}
use distributed_mq.Prelude.Map.{Map, keys, values, lookup, has_key, NoDup}
use Prim.Native.String.{compare as compare_text}
use text.Mathlib.Text.{is_le}
use distributed_mq.Groups.{MemberMeta, insert_sorted, sort_strings, count_at}

-- What each member gets, from index `i` on.
abbrev pub shares :
    (per_member remainder i : ℕ) (ids : List String) (partitions : List ℕ) → Map String (List ℕ)
shares per_member remainder i [] partitions = []
shares per_member remainder i (id ∷ ids) partitions =
    (id, take (count_at per_member remainder i) partitions)
    ∷ shares per_member remainder (i + 1) ids (drop (count_at per_member remainder i) partitions)

abbrev pub concat : List (List ℕ) → List ℕ
concat [] = []
concat (xs ∷ xss) = xs ++ concat xss

-- How many partitions the members from index `i` on get.
abbrev pub total : ℕ → ℕ → ℕ → List String → ℕ
total per remainder i [] = 0
total per remainder i (id ∷ ids) = count_at per remainder i + total per remainder (i + 1) ids

pub total-eq :
    (per remainder i : ℕ) (ids : List String)
    → remainder ≤ i + length ids
    → total per remainder i ids ≡ length ids * per + (remainder - i)
total-eq per remainder i [] h = omega arith
total-eq per remainder i (id ∷ ids) h =
    let rest = total-eq per remainder (i + 1) ids (omega arith) in ground arith

length-drop : (n : ℕ) (xs : List ℕ) → length (drop n xs) ≡ length xs - n
length-drop zero xs = omega arith
length-drop (suc n) [] = omega arith
length-drop (suc n) (x ∷ xs) = omega (arith, length-drop n xs)

take-drop : (n : ℕ) (xs : List ℕ) → take n xs ++ drop n xs ≡ xs
take-drop zero xs = refl
take-drop (suc n) [] = refl
take-drop (suc n) (x ∷ xs) = rw (take-drop n xs)

pub shares-concat :
    (per remainder i : ℕ) (ids : List String) (ps : List ℕ)
    → length ps ≤ total per remainder i ids
    → concat (values (shares per remainder i ids ps)) ≡ ps
shares-concat per remainder i [] [] h = refl
shares-concat per remainder i [] (p ∷ ps) h = absurd (omega arith)
shares-concat per remainder i (id ∷ ids) ps h =
    let n = count_at per remainder i in
    rw (shares-concat per remainder (i + 1) ids (drop n ps) (omega (arith, length-drop n ps)))
      (take-drop n ps)

-- Where there are enough partitions for the counts, no two shares differ by more than one.
pub shares-length :
    (per remainder i : ℕ) (ids : List String) (ps : List ℕ)
    → total per remainder i ids ≤ length ps
    → All
        (λ (e : String × List ℕ). (per ≤ length e.1) × (length e.1 ≤ per + 1))
        (shares per remainder i ids ps)
shares-length per remainder i [] ps h = tt
shares-length per remainder i (id ∷ ids) ps h =
    let n = count_at per remainder i in
    let here = length-take-le n ps (omega arith) in
    let rest =
      shares-length per remainder (i + 1) ids (drop n ps) (omega (arith, length-drop n ps)) in
    (((ground arith, ground arith)), rest)

pub keys-shares :
    (per remainder i : ℕ) (ids : List String) (ps : List ℕ)
    → keys (shares per remainder i ids ps) ≡ ids
keys-shares per remainder i [] ps = refl
keys-shares per remainder i (id ∷ ids) ps =
    rw (keys-shares per remainder (i + 1) ids (drop (count_at per remainder i) ps))

abbrev pub contains : String → List String → Bool
contains x [] = false
contains x (y ∷ ys) = y == x || contains x ys

abbrev pub Distinct : List String → Type 0
Distinct [] = Unit
Distinct (x ∷ xs) = (contains x xs ≡ false) × Distinct xs

contains-insert_sorted :
    (x y : String) (ys : List String) → contains x (insert_sorted y ys) ≡ (y == x || contains x ys)
contains-insert_sorted x y [] = refl
contains-insert_sorted x y (z ∷ zs) = let rest = contains-insert_sorted x y zs in ground arith

insert_sorted-Distinct :
    (y : String) (ys : List String)
    → contains y ys ≡ false
    → Distinct ys
    → Distinct (insert_sorted y ys)
insert_sorted-Distinct y [] new h = (refl, tt)
insert_sorted-Distinct y (z ∷ zs) new (other, h) =
    if-elim Distinct (is_le (compare_text y z)) (y ∷ z ∷ zs) (z ∷ insert_sorted y zs)
      (λ _. (new, (other, h)))
      (λ _. (
        ground (arith, contains-insert_sorted z y zs, str_iff y z, str_iff z y),
        insert_sorted-Distinct y zs (ground arith) h,
      ))

pub contains-sort : (x : String) (ys : List String) → contains x (sort_strings ys) ≡ contains x ys
contains-sort x [] = refl
contains-sort x (y ∷ ys) =
    ground (arith, contains-insert_sorted x y (sort_strings ys), contains-sort x ys)

pub sort-Distinct : (ys : List String) → Distinct ys → Distinct (sort_strings ys)
sort-Distinct [] h = tt
sort-Distinct (y ∷ ys) (new, h) =
    insert_sorted-Distinct y (sort_strings ys) (contains-sort y ys ∙ new) (sort-Distinct ys h)

pub contains-keys :
    (id : String) (ms : Map String MemberMeta) → contains id (keys ms) ≡ has_key id ms
unfolding has_key lookup
contains-keys id [] = refl
contains-keys id ((k, m) ∷ ms) = let rest = contains-keys id ms in ground arith

pub keys-Distinct : (ms : Map String MemberMeta) → NoDup ms → Distinct (keys ms)
unfolding has_key
keys-Distinct [] h = tt
keys-Distinct ((k, m) ∷ ms) (new, h) = (ground (arith, contains-keys k ms), keys-Distinct ms h)

-- ===== src/Prelude/Map.antt =====
-- Go maps as association lists. The order of the list is the order in which `range` goes through
-- the map; Go leaves it open, and so do the theorems, which hold for every list.
use mathlib.Core.Path.{◌≡◌, refl, subst, ap₂}
use mathlib.Core.Bool.{Bool, true, false}
use mathlib.Core.List.{List, [], ◌∷◌}
use mathlib.Core.Option.{Option, none, some}
use Prim.Native.Nat.{suc, ◌≤◌, ◌<◌}
use native.Mathlib.Omega.{arith}
use distributed_mq.Prelude.Lists.{length, All}
use distributed_mq.Prelude.Tests.{Comparable, ◌==◌, if◌then◌else◌, if-elim}

abbrev pub Map {ℓ κ} : Type ℓ → Type κ → Type (ℓ ⊔ κ)
Map K V = List (K × V)

abbrev pub keys {ℓ κ} : {K : Type ℓ} {V : Type κ} → Map K V → List K
keys [] = []
keys ((k, v) ∷ m) = k ∷ keys m

-- `for _, v := range m`
abbrev pub values {ℓ κ} : {K : Type ℓ} {V : Type κ} → Map K V → List V
values [] = []
values ((k, v) ∷ m) = v ∷ values m

pub beq_refl {ℓ} : {K : Type ℓ} ⦃c : Comparable K⦄ (k : K) → (k == k) ≡ true
beq_refl ⦃c⦄ k = (c.eqb_iff k k).1 refl

some_inj {ℓ} : {A : Type ℓ} {a b : A} → some a ≡ some b → a ≡ b
some_inj h = cc

module _ {ℓ κ} {K : Type ℓ} {V : Type κ} ⦃c : Comparable K⦄ where
  -- `v, ok := m[k]`
  unfoldable pub lookup : K → Map K V → Option V
  lookup k [] = none
  lookup k ((j, x) ∷ rest) = if j == k then some x else lookup k rest

  -- `m[k] = v`
  unfoldable pub insert : K → V → Map K V → Map K V
  insert k x [] = (k, x) ∷ []
  insert k x ((j, y) ∷ rest) = if j == k then (k, x) ∷ rest else (j, y) ∷ insert k x rest

  -- `delete(m, k)`
  unfoldable pub delete : K → Map K V → Map K V
  delete k [] = []
  delete k ((j, w) ∷ m) = let rest = delete k m in if j == k then rest else (j, w) ∷ rest

  -- `m[k]` where a missing key reads as the zero value `d`
  unfoldable pub get_or : K → V → Map K V → V
  unfolding lookup
  get_or k d m = elim (lookup k m) [ none ↦ d | some v ↦ v ]

  -- `_, ok := m[k]`
  unfoldable pub has_key : K → Map K V → Bool
  unfolding lookup
  has_key k m = elim (lookup k m) [ none ↦ false | some v ↦ true ]

  pub lookup-insert :
      (k j : K) (x : V) (m : Map K V)
      → lookup j (insert k x m) ≡ (if k == j then some x else lookup j m)
  unfolding insert lookup
  lookup-insert k j x [] = refl
  lookup-insert k j x ((i, y) ∷ rest) =
      ground (arith, lookup-insert k j x rest, c.eqb_iff i j, c.eqb_iff i k, c.eqb_iff k j)

  pub lookup-delete :
      (k j : K) (m : Map K V) → lookup j (delete k m) ≡ (if k == j then none else lookup j m)
  unfolding lookup delete
  lookup-delete k j [] = ground arith
  lookup-delete k j ((i, w) ∷ m) =
      ground (arith, c.eqb_iff k j, c.eqb_iff i k, c.eqb_iff i j, lookup-delete k j m)

  pub length-delete-le : (k : K) (m : Map K V) → length (delete k m) ≤ length m
  unfolding delete
  length-delete-le k [] = omega arith
  length-delete-le k ((i, w) ∷ m) = ground (arith, length-delete-le k m)

  -- Deleting a key that is there makes the map smaller.
  pub length-delete-lt :
      (k : K) (m : Map K V) (v : V) → lookup k m ≡ some v → suc (length (delete k m)) ≤ length m
  unfolding lookup delete
  length-delete-lt k [] v h = cc
  length-delete-lt k ((i, w) ∷ m) v h = ground (arith, length-delete-le k m, length-delete-lt k m v)

  pub length-insert-le : (k : K) (v : V) (m : Map K V) → length (insert k v m) ≤ suc (length m)
  unfolding insert
  length-insert-le k v [] = omega arith
  length-insert-le k v ((i, w) ∷ m) = ground (arith, length-insert-le k v m)

  pub length-insert-pos : (k : K) (v : V) (m : Map K V) → 0 < length (insert k v m)
  unfolding insert
  length-insert-pos k v [] = omega arith
  length-insert-pos k v ((i, w) ∷ m) = ground arith

  pub length-insert-old :
      (k : K) (v w : V) (m : Map K V) → lookup k m ≡ some w → length (insert k v m) ≡ length m
  unfolding lookup insert
  length-insert-old k v w [] h = cc
  length-insert-old k v w ((i, x) ∷ m) h = ground (arith, length-insert-old k v w m)

  pub length-insert-new :
      (k : K) (v : V) (m : Map K V) → lookup k m ≡ none → length (insert k v m) ≡ suc (length m)
  unfolding lookup insert
  length-insert-new k v [] h = refl
  length-insert-new k v ((i, x) ∷ m) h = ground (arith, length-insert-new k v m)

  -- The keys are distinct, as those of a Go map are.
  abbrev pub NoDup : Map K V → Type (ℓ ⊔ κ)
  NoDup [] = Unit
  NoDup ((k, v) ∷ m) = (lookup k m ≡ none) × NoDup m

  pub insert-NoDup : (k : K) (v : V) (m : Map K V) → NoDup m → NoDup (insert k v m)
  unfolding insert lookup
  insert-NoDup k v [] h = (refl, tt)
  insert-NoDup k v ((j, w) ∷ m) (new, h) =
      if-elim NoDup (j == k) ((k, v) ∷ m) ((j, w) ∷ insert k v m)
        (λ same. (ground (arith, c.eqb_iff j k), h))
        (λ other. (
          ground (arith, lookup-insert k j v m, c.eqb_iff k j, c.eqb_iff j k),
          insert-NoDup k v m h,
        ))

  pub delete-NoDup : (k : K) (m : Map K V) → NoDup m → NoDup (delete k m)
  unfolding delete
  delete-NoDup k [] h = tt
  delete-NoDup k ((j, w) ∷ m) (new, h) =
      if-elim NoDup (j == k) (delete k m) ((j, w) ∷ delete k m) (λ same. delete-NoDup k m h)
        (λ other. (ground (arith, lookup-delete k j m), delete-NoDup k m h))

  pub All-lookup {μ} :
      (P : V → Type μ) (m : Map K V) (k : K) (v : V)
      → All (λ (e : K × V). P e.1) m
      → lookup k m ≡ some v
      → P v
  unfolding lookup
  All-lookup P [] k v h found = cc
  All-lookup P ((j, w) ∷ m) k v (p, h) found =
      if-elim (λ (o : Option V). o ≡ some v → P v) (j == k) (some w) (lookup k m)
        (λ _ same. subst P (some_inj same) p) (λ _ later. All-lookup P m k v h later) found

  -- The same for a property of the key as well.
  pub All-lookup_key {μ} :
      (P : K × V → Type μ) (m : Map K V) (k : K) (v : V) → All P m → lookup k m ≡ some v → P (k, v)
  unfolding lookup
  All-lookup_key P [] k v h found = cc
  All-lookup_key P ((j, w) ∷ m) k v (p, h) found =
      if-elim (λ (o : Option V). o ≡ some v → P (k, v)) (j == k) (some w) (lookup k m)
        (λ same value. subst P (ap₂ (λ x y. (x, y)) ((c.eqb_iff j k).0 same) (some_inj value)) p)
        (λ _ later. All-lookup_key P m k v h later) found

  pub All-insert {μ} :
      (P : K × V → Type μ) (k : K) (v : V) (m : Map K V) → P (k, v) → All P m → All P (insert k v m)
  unfolding insert
  All-insert P k v [] p h = (p, tt)
  All-insert P k v ((j, w) ∷ m) p (q, h) =
      if-elim (All P) (j == k) ((k, v) ∷ m) ((j, w) ∷ insert k v m) (λ _. (p, h))
        (λ _. (q, All-insert P k v m p h))

  pub All-delete {μ} : (P : K × V → Type μ) (k : K) (m : Map K V) → All P m → All P (delete k m)
  unfolding delete
  All-delete P k [] h = tt
  All-delete P k ((j, w) ∷ m) (q, h) =
      if-elim (All P) (j == k) (delete k m) ((j, w) ∷ delete k m) (λ _. All-delete P k m h)
        (λ _. (q, All-delete P k m h))

pub ruleset map_laws = (lookup-insert, lookup-delete)

-- ===== src/Go.antt =====
-- What a Go handler over shared state does: it returns, panics, or blocks on a mutex for ever.
-- The state comes back in each case, since what was written before stays written.
use distributed_mq.Prelude.{ℕ, ◌+◌, ◌-◌, ◌%◌, ◌^◌, ◌<◌, ◌≡◌, arith}

-- uint64 arithmetic wraps.
abbrev pub u64 : ℕ → ℕ
u64 n = n % 2 ^ 64

-- `a - b` on uint64
abbrev pub sub_u64 : ℕ → ℕ → ℕ
sub_u64 a b = (a + 2 ^ 64 - b) % 2 ^ 64

pub data Outcome {ℓ} (A : Type ℓ) : Type ℓ where
  ret : A → Outcome A
  panic : Outcome A
  blocked : Outcome A

abbrev pub map_outcome {ℓ} : {A B : Type ℓ} → (A → B) → Outcome A → Outcome B
map_outcome f (ret a) = ret (f a)
map_outcome f panic = panic
map_outcome f blocked = blocked

abbrev pub Exec {ℓ} : Type ℓ → Type ℓ → Type ℓ
Exec S A = S → Outcome A × S

module _ {ℓ} {S A B : Type ℓ} where
  abbrev pub continue : (r : Outcome A) (next : A → Exec S B) → Exec S B
  continue (ret value) next s = next value s
  continue panic next s = (panic, s)
  continue blocked next s = (blocked, s)

  infixl 5 ◌>>=◌ ◌>>◌
  -- the second part runs in the state that the first one leaves
  abbrev pub ◌>>=◌ : (first : Exec S A) (next : A → Exec S B) → Exec S B
  ◌>>=◌ first next s = let (r, left) = first s in continue r next left

  abbrev pub ◌>>◌ : (first : Exec S A) (second : Exec S B) → Exec S B
  first >> second = first >>= λ _. second

pub u64-small : (n : ℕ) → n < 2 ^ 64 → u64 n ≡ n
u64-small n h = omega arith

-- A subtraction that would go below zero wraps to a value near 2 ^ 64.
pub sub_u64_wraps : (a b : ℕ) → a < b → b < 2 ^ 64 → sub_u64 a b ≡ 2 ^ 64 - (b - a)
sub_u64_wraps a b h k = omega arith

-- ===== src/Prelude/Int.antt =====
-- Go's signed integers: an int32 or int64 is given by the bit pattern of its two's complement.
use Prim.Native.Nat.{ℕ, ◌+◌, ◌-◌, ◌^◌}
use Prim.Native.String.{String, ◌++◌}
use mathlib.Core.Bool.{Bool, true}
use distributed_mq.Prelude.Tests.{ltb, if◌then◌else◌}
use distributed_mq.Prelude.Text.{decimal}

-- `negsuc n` is -(n + 1).
pub data ℤ : Type 0 where
  pos : ℕ → ℤ
  negsuc : ℕ → ℤ

-- the number of a pattern of `w` bits
abbrev pub signed : (w bits : ℕ) → ℤ
signed w bits = if ltb bits (2 ^ (w - 1)) then pos bits else negsuc (2 ^ w - bits - 1)

-- `n > i`
abbrev pub above : ℕ → ℤ → Bool
above n (pos k) = ltb k n
above n (negsuc k) = true

-- `%d`
abbrev pub decimal_int : ℤ → String
decimal_int (pos n) = decimal n
decimal_int (negsuc n) = "-" ++ decimal (n + 1)

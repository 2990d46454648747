-- ===== src/Prelude/Text.antt =====
-- Texts that Go's fmt prints.
use Prim.Native.Nat.{ℕ, zero, suc, ◌/◌, ◌%◌}
use Prim.Native.String.{String, ◌++◌}
use mathlib.Core.List.{List, [], ◌∷◌}
use mathlib.Core.Option.{none, some}
use distributed_mq.Prelude.Lists.{get_elem?}
use distributed_mq.Prelude.Tests.{ltb, if◌then◌else◌}

abbrev ten_digits : List String
ten_digits = "0" ∷ "1" ∷ "2" ∷ "3" ∷ "4" ∷ "5" ∷ "6" ∷ "7" ∷ "8" ∷ "9" ∷ []

abbrev digit : ℕ → String
digit n = elim (get_elem? ten_digits n) [ none ↦ "" | some text ↦ text ]

-- `%d` of a number with at most the given number of digits and one more
abbrev decimal_upto : ℕ → ℕ → String
decimal_upto zero n = digit (n % 10)
decimal_upto (suc digits) n =
    let upper = decimal_upto digits (n / 10) in
    if ltb n 10 then digit n else upper ++ digit (n % 10)

-- `%d` of a number below 2 ^ 64, which has at most 20 digits
unfoldable pub decimal : ℕ → String
decimal n = decimal_upto 19 n

-- `fmt.Sprintf("%s-%d", s, n)`
unfoldable pub dashed : String → ℕ → String
unfolding decimal
dashed s n = s ++ "-" ++ decimal n

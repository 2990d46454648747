-- ===== src/Prelude/Bytes.antt =====
-- Go strings and byte slices. A Go string is a text whose characters are its bytes.
use Prim.Native.Nat.{ℕ, zero, suc, ◌+◌, ◌*◌, ◌<◌, compare, Ordering}
use Prim.Native.Char.{Char, char, code, nul, IsScalar}
use Prim.Native.String.{String}
use mathlib.Core.Path.{◌≡◌, refl, ap}
use mathlib.Core.Logic.{inl, inr, dite, dif_pos}
use mathlib.Core.List.{List, [], ◌∷◌, ◌++◌}
use mathlib.Core.Option.{Option, none, some}
use native.Mathlib.Bridge.{le_prop}
use native.Mathlib.Decide.{dec_lt}
use native.Mathlib.Omega.{arith}
use text.Mathlib.TextEquality.{Char-path}
use distributed_mq.Prelude.Lists.{length, All}
use distributed_mq.Prelude.Tests.{Option-cases}

-- `[]byte(s)`
unfoldable pub bytes_of : String → List ℕ
bytes_of String.[] = []
bytes_of (String.◌∷◌ c s) = code c ∷ bytes_of s

IsScalar_of_lt : (n : ℕ) → n < 256 → IsScalar n
IsScalar_of_lt n h = let low : compare n 55296 ≡ Ordering.lt = ground arith in rw low tt

-- the character of a byte
byte_char : ℕ → Char
byte_char n = dite (dec_lt n 256) (λ h. char n (IsScalar_of_lt n h)) (λ _. nul)

-- `string(b)`
unfoldable pub text_of : List ℕ → String
unfolding byte_char IsScalar_of_lt
text_of [] = ""
text_of (b ∷ bs) = String.◌∷◌ (byte_char b) (text_of bs)

byte_char-code : (c : Char) → code c < 256 → byte_char (code c) ≡ c
unfolding byte_char
byte_char-code c h =
    Char-path (byte_char (code c)) c (rw (dif_pos (dec_lt (code c) 256) le_prop h) refl)

-- A text of bytes comes back.
pub text_of-bytes_of : (s : String) → All (λ b. b < 256) (bytes_of s) → text_of (bytes_of s) ≡ s
unfolding text_of bytes_of
text_of-bytes_of String.[] h = refl
text_of-bytes_of (String.◌∷◌ c s) (small, h) =
    rw (byte_char-code c small) (ap (String.◌∷◌ c) (text_of-bytes_of s h))

-- `n` bytes off the front, or none if there are less: io.ReadFull on what the other side sends
-- until it closes the connection
unfoldable pub read_full : ℕ → List ℕ → Option (List ℕ × List ℕ)
read_full zero s = some ([], s)
read_full (suc n) [] = none
read_full (suc n) (b ∷ s) = elim (read_full n s) [
  | none ↦ none
  | some (bs, rest) ↦ some (b ∷ bs, rest)
]

-- binary.BigEndian.Uint16, Uint32 and Uint64, on a slice of that length
abbrev pub decode_from : ℕ → List ℕ → ℕ
decode_from acc [] = acc
decode_from acc (b ∷ bs) = decode_from (acc * 256 + b) bs

abbrev pub decode : List ℕ → ℕ
decode bs = decode_from 0 bs

pub read_full-append : (bs rest : List ℕ) → read_full (length bs) (bs ++ rest) ≡ some (bs, rest)
unfolding read_full
read_full-append [] rest = refl
read_full-append (b ∷ bs) rest = rw (read_full-append bs rest) refl

-- What is read has the length that was asked for, and the rest is shorter by as much.
pub read_full-length :
    (n : ℕ) (s bs rest : List ℕ)
    → read_full n s ≡ some (bs, rest)
    → (length bs ≡ n) × (length s ≡ n + length rest)
unfolding read_full
read_full-length zero s bs rest h = ground arith
read_full-length (suc n) [] bs rest h = cc
read_full-length (suc n) (b ∷ s) bs rest h = elim (Option-cases (read_full n s)) [
  | inl short ↦ absurd (ground arith)
  | inr ((bs', rest'), more) ↦ ground (arith, read_full-length n s bs' rest')
]

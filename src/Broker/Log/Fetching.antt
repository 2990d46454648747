-- ===== src/Broker/Log/Fetching.antt =====
-- What Fetch of cluster/go/broker/broker.go returns.
use mathlib.Core.Path.{ap}
use distributed_mq.Prelude.{
  ltb, Option-cases, if-elim, match-elim, length, take, drop, All, length-append, ℕ, zero, suc, ◌+◌,
  ◌-◌, ◌*◌, ◌%◌, ◌≤◌, ◌<◌, String, ◌≡◌, refl, ◌⊎◌, inl, inr, Bool, true, false, ◌&&◌, none, some,
  List, [], ◌∷◌, ◌++◌, arith,
}
use distributed_mq.Prelude.{nat_eq, string_eq}
use distributed_mq.Prelude.Int.{ℤ, pos, above}
use distributed_mq.Prelude.Map.{lookup}
use distributed_mq.Storage.{
  CommitLog, seg_key, zeros, read_bytes, read, IndexEntry, SparseIndex, get_entries_after,
}
use distributed_mq.Broker.{Message}
use distributed_mq.Broker.Log.{entries_after, read_message, fetch_loop}

abbrev pub sizes : List Message → ℕ
sizes [] = 0
sizes (msg ∷ msgs) = length msg.value + sizes msgs

length-zeros : (n : ℕ) → length (zeros n) ≡ n
length-zeros zero = refl
length-zeros (suc n) = omega (arith, length-zeros n)

-- What `take` gives, and what is missing.
length-take_missing : (n : ℕ) (xs : List ℕ) → length (take n xs) + (n - length xs) ≡ n
length-take_missing zero xs = omega arith
length-take_missing (suc n) [] = omega arith
length-take_missing (suc n) (x ∷ xs) = omega (arith, length-take_missing n xs)

read_bytes-length :
    (n : ℕ) (rest bytes : List ℕ) → read_bytes n rest ≡ some bytes → length bytes ≡ n
read_bytes-length zero rest bytes h = ground arith
read_bytes-length (suc n) [] bytes h = cc
read_bytes-length (suc n) (x ∷ rest) bytes h =
    let n' = suc n - length (x ∷ rest) in
    let whole = take (suc n) (x ∷ rest) in
    let same : whole ++ zeros n' ≡ bytes = cc in
    omega (
      arith,
      ap length same,
      length-append whole (zeros n'),
      length-zeros n',
      length-take_missing n rest,
    )

-- A Read gives as many bytes as were asked for.
read-length :
    (offset size : ℕ) (cl : CommitLog) (bytes : List ℕ)
    → read offset size cl ≡ some bytes
    → length bytes ≡ size
unfolding read
read-length offset size cl bytes h = elim (Option-cases (lookup (seg_key offset) cl.files)) [
  | inl missing ↦ absurd (ground arith)
  | inr (file, found) ↦
      read_bytes-length size (drop (offset % (1024 * 1024) + 20) file) bytes (ground arith)
]

stop-elim :
    (P : List Message → Type 0) (b : Bool) (x y : List Message)
    → (b ≡ true → P x)
    → (b ≡ false → P y)
    → P (elim b [ true ↦ x | false ↦ y ])
stop-elim P true x y f g = f refl
stop-elim P false x y f g = g refl

-- A round of the loop stops, or goes on without a message, or with one.
fetch_loop-elim :
    (P : List Message → Type 0) (topic : String) (partition : ℤ) (cl : CommitLog) (most : ℤ)
    (total : ℕ) (any : Bool) (e : IndexEntry) (es : List IndexEntry)
    → ((above (total + e.size) most && any) ≡ true → P [])
    → (read e.offset e.size cl ≡ none → P (fetch_loop topic partition cl most total any es))
    → ((above (total + e.size) most && any) ≡ false
        → (bytes : List ℕ) → read e.offset e.size cl ≡ some bytes
        → P (
            read_message topic partition e bytes
            ∷ fetch_loop topic partition cl most (total + e.size) true es))
    → P (fetch_loop topic partition cl most total any (e ∷ es))
unfolding fetch_loop
fetch_loop-elim P topic partition cl most total any e es f g h =
    stop-elim P (above (total + e.size) most && any) [] _ f (λ goes.
      match-elim P (read e.offset e.size cl) (fetch_loop topic partition cl most total any es) _ g
        (h goes))

-- The messages `msgs` after `total` bytes stay within the limit, if there are any.
abbrev Rest : (most total : ℕ) → List Message → Type 0
Rest most total msgs = (msgs ≡ []) ⊎ (total + sizes msgs ≤ most)

Rest-cons :
    (most total n : ℕ) (msg : Message) (msgs : List Message)
    → length msg.value ≡ n
    → total + n ≤ most
    → Rest most (total + n) msgs
    → total + sizes (msg ∷ msgs) ≤ most
Rest-cons most total n msg msgs size fits (inl alone) = omega (arith, size, ap sizes alone)
Rest-cons most total n msg msgs size fits (inr within) = omega (arith, size)

-- With a message before it, the loop stays within the limit.
fetch_loop-Rest :
    (topic : String) (partition : ℤ) (cl : CommitLog) (most total : ℕ) (es : List IndexEntry)
    → Rest most total (fetch_loop topic partition cl (pos most) total true es)
fetch_loop-Rest topic partition cl most total [] = unfold fetch_loop in inl refl
fetch_loop-Rest topic partition cl most total (e ∷ es) =
    fetch_loop-elim (Rest most total) topic partition cl (pos most) total true e es (λ _. inl refl)
      (λ _. fetch_loop-Rest topic partition cl most total es)
      (λ goes bytes found. inr (
        Rest-cons most total e.size (read_message topic partition e bytes)
          (fetch_loop topic partition cl (pos most) (total + e.size) true es)
          (read-length e.offset e.size cl bytes found) (ground arith)
          (fetch_loop-Rest topic partition cl most (total + e.size) es)))

abbrev pub Limited : ℕ → List Message → Type 0
Limited most msgs = (length msgs ≤ 1) ⊎ (sizes msgs ≤ most)

Rest-Limited :
    (most n : ℕ) (msg : Message) (msgs : List Message)
    → length msg.value ≡ n
    → Rest most n msgs
    → Limited most (msg ∷ msgs)
Rest-Limited most n msg msgs size (inl alone) = inl (omega (arith, ap length alone))
Rest-Limited most n msg msgs size (inr within) = inr (omega (arith, size))

-- With a limit of bytes that is not negative, the loop of Fetch returns one message at most, or messages
-- whose values have no more bytes together than the limit.
pub fetch_loop-sizes :
    (topic : String) (partition : ℤ) (cl : CommitLog) (most : ℕ) (es : List IndexEntry)
    → Limited most (fetch_loop topic partition cl (pos most) 0 false es)
fetch_loop-sizes topic partition cl most [] = unfold fetch_loop in inl (omega arith)
fetch_loop-sizes topic partition cl most (e ∷ es) =
    fetch_loop-elim (Limited most) topic partition cl (pos most) 0 false e es
      (λ _. inl (omega arith)) (λ _. fetch_loop-sizes topic partition cl most es)
      (λ _ bytes found.
        Rest-Limited most (0 + e.size) (read_message topic partition e bytes) _
          (omega (arith, read-length e.offset e.size cl bytes found))
          (fetch_loop-Rest topic partition cl most (0 + e.size) es))

fetch_loop-All :
    (P : ℕ → Type 0) (topic : String) (partition : ℤ) (cl : CommitLog) (most : ℤ) (total : ℕ)
    (any : Bool) (es : List IndexEntry)
    → All (λ (e : IndexEntry). P e.offset) es
    → All (λ (msg : Message). P msg.offset) (fetch_loop topic partition cl most total any es)
fetch_loop-All P topic partition cl most total any [] h = unfold fetch_loop in tt
fetch_loop-All P topic partition cl most total any (e ∷ es) (p, h) =
    fetch_loop-elim (All (λ (msg : Message). P msg.offset)) topic partition cl most total any e es
      (λ _. tt) (λ _. fetch_loop-All P topic partition cl most total any es h)
      (λ _ bytes _. (p, fetch_loop-All P topic partition cl most (total + e.size) true es h))

get_entries_after-All :
    (n : ℕ) (idx : SparseIndex) → All (λ (e : IndexEntry). n < e.offset) (get_entries_after n idx)
unfolding get_entries_after
get_entries_after-All n [] = tt
get_entries_after-All n ((k, e) ∷ idx) =
    if-elim (All (λ (x : IndexEntry). n < x.offset)) (ltb n e.offset) (e ∷ get_entries_after n idx)
      (get_entries_after n idx) (λ later. (ground arith, get_entries_after-All n idx))
      (λ _. get_entries_after-All n idx)

-- Fetch from an offset that is not negative gives messages with higher offsets only.
pub fetch_loop-after :
    (topic : String) (partition : ℤ) (cl : CommitLog) (most : ℤ) (n : ℕ) (idx : SparseIndex)
    → All
        (λ (msg : Message). n < msg.offset)
        (fetch_loop topic partition cl most 0 false (entries_after (pos n) idx))
fetch_loop-after topic partition cl most n idx =
    fetch_loop-All (λ o. n < o) topic partition cl most 0 false (get_entries_after n idx)
      (get_entries_after-All n idx)

-- ===== src/Oldest.antt =====
-- The search for the oldest entry of a map, which BeginTransaction of
-- cluster/go/broker/transaction/transaction.go and CheckAndRecord of
-- cluster/go/broker/idempotent/idempotent.go write out in the same way.
use distributed_mq.Prelude.{
  ltb, if◌then◌else◌, Option-cases, if-elim, ◌==◌, str_iff, length, All, ℕ, suc, ◌≤◌, ◌<◌, String,
  ◌≡◌, refl, inl, inr, ◌||◌, none, some, [], ◌∷◌, arith,
}
use mathlib.Core.Path.{subst}
use distributed_mq.Prelude.{nat_eq, string_eq}
use distributed_mq.Prelude.Map.{Map, lookup, delete, length-delete-lt, NoDup}

module _ {V : Type 0} where
  -- the loop over the map, with `oldest` and `oldestTime`; the zero time is 0
  unfoldable pub scan_oldest : (V → ℕ) → Map String V → String × ℕ → String × ℕ
  scan_oldest time_of [] best = best
  scan_oldest time_of ((id, v) ∷ m) (oldest, time) =
      scan_oldest time_of m
        (if time == 0 || ltb (time_of v) time then (id, time_of v) else (oldest, time))

  -- one round of the loop
  abbrev better : (V → ℕ) → String → V → String × ℕ → String × ℕ
  better time_of id ref best =
      if best.1 == 0 || ltb (time_of ref) best.1 then (id, time_of ref) else best

  -- The loop keeps the key that it began with, or ends with one of the map.
  pub scan_oldest-missing :
      (time_of : V → ℕ) (m : Map String V) (best : String × ℕ)
      → lookup (scan_oldest time_of m best).0 m ≡ none
      → scan_oldest time_of m best ≡ best
  unfolding scan_oldest lookup
  scan_oldest-missing time_of [] best h = refl
  scan_oldest-missing time_of ((id, ref) ∷ m) best h =
      let chosen : String × ℕ = better time_of id ref best in
      let key = (scan_oldest time_of m chosen).0 in
      let same : scan_oldest time_of m chosen ≡ chosen =
        scan_oldest-missing time_of m chosen (ground (arith, str_iff id key)) in
      if-elim
        (λ (x : String × ℕ). scan_oldest time_of m chosen ≡ x → scan_oldest time_of m chosen ≡ best)
        (best.1 == 0 || ltb (time_of ref) best.1) (id, time_of ref) best
        (λ _ is_id. absurd (ground (arith, str_iff id key))) (λ _ is_best. is_best) same

  -- The loop ends with the time of the entry that it ends with.
  pub scan_oldest-time :
      (time_of : V → ℕ) (m : Map String V) (best : String × ℕ) (ref : V)
      → NoDup m
      → (0 < best.1 → lookup best.0 m ≡ none)
      → lookup (scan_oldest time_of m best).0 m ≡ some ref
      → (scan_oldest time_of m best).1 ≡ time_of ref
  unfolding scan_oldest lookup
  scan_oldest-time time_of [] best ref h fresh found = cc
  scan_oldest-time time_of ((id, r) ∷ m) best ref (new, h) fresh found =
      let chosen : String × ℕ = better time_of id r best in
      let key = (scan_oldest time_of m chosen).0 in
      let absent : lookup chosen.0 m ≡ none =
        if-elim (λ (x : String × ℕ). lookup x.0 m ≡ none) (best.1 == 0 || ltb (time_of r) best.1)
          (id, time_of r) best (λ _. new)
          (λ older. let gone = fresh (ground arith) in ground (arith, str_iff id best.0)) in
      elim (Option-cases (lookup key m)) [
        | inr (r', tail) ↦
            let time = scan_oldest-time time_of m chosen r' h (λ _. absent) tail in
            ground (arith, str_iff id key)
        | inl none_left ↦
            let kept = scan_oldest-missing time_of m chosen none_left in
            if-elim
              (λ (x : String × ℕ).
                scan_oldest time_of m chosen ≡ x → (scan_oldest time_of m chosen).1 ≡ time_of ref)
              (best.1 == 0 || ltb (time_of r) best.1) (id, time_of r) best
              (λ _ is_id. ground (arith, str_iff id key))
              (λ older is_best.
                let gone = fresh (ground arith) in
                absurd (ground (arith, str_iff id key, str_iff id best.0)))
              kept
      ]

  pub scan_oldest-some :
      (time_of : V → ℕ) (m : Map String V)
      → 0 < length m
      → (ref : V) × (lookup (scan_oldest time_of m ("", 0)).0 m ≡ some ref)
  unfolding scan_oldest lookup
  scan_oldest-some time_of [] h = absurd (omega arith)
  scan_oldest-some time_of ((id, ref) ∷ m) h =
      let key = (scan_oldest time_of m (id, time_of ref)).0 in
      elim (Option-cases (lookup key ((id, ref) ∷ m))) [
        | inl missing ↦
            absurd (ground (arith, scan_oldest-missing time_of m (id, time_of ref), str_iff id key))
        | inr found ↦ found
      ]

  -- All times are after the zero time.
  abbrev pub Started : (V → ℕ) → Map String V → Type 0
  Started time_of m = All (λ (e : String × V). 0 < time_of e.1) m

  -- No entry of the map is older than `time`.
  abbrev pub NoneOlder : (V → ℕ) → ℕ → Map String V → Type 0
  NoneOlder time_of time m = All (λ (e : String × V). time ≤ time_of e.1) m

  pub scan_oldest-le :
      (time_of : V → ℕ) (m : Map String V) (best : String × ℕ)
      → Started time_of m
      → 0 < best.1
      → (scan_oldest time_of m best).1 ≤ best.1
  unfolding scan_oldest
  scan_oldest-le time_of [] best hs h = omega arith
  scan_oldest-le time_of ((id, ref) ∷ m) best (started, hs) h =
      let after = scan_oldest-le time_of m (better time_of id ref best) hs (ground arith) in
      ground arith

  pub scan_oldest-NoneOlder :
      (time_of : V → ℕ) (m : Map String V) (best : String × ℕ)
      → Started time_of m
      → NoneOlder time_of (scan_oldest time_of m best).1 m
  unfolding scan_oldest
  scan_oldest-NoneOlder time_of [] best h = tt
  scan_oldest-NoneOlder time_of ((id, ref) ∷ m) best (started, hs) =
      let after = scan_oldest-le time_of m (better time_of id ref best) hs (ground arith) in
      (ground arith, scan_oldest-NoneOlder time_of m (better time_of id ref best) hs)

  -- Where there is an entry, the one that the loop ends with is of the map, and where all times are
  -- after the zero time and the keys are distinct, none is older.
  pub scan_oldest-Oldest :
      (time_of : V → ℕ) (m : Map String V)
      → NoDup m
      → Started time_of m
      → 0 < length m
      → (v : V) × (lookup (scan_oldest time_of m ("", 0)).0 m ≡ some v)
        × NoneOlder time_of (time_of v) m
  scan_oldest-Oldest time_of m distinct started filled =
      let (v, found) = scan_oldest-some time_of m filled in
      let time =
        scan_oldest-time time_of m ("", 0) v distinct (λ none_is. absurd (omega arith)) found in
      (
        v,
        found,
        subst (λ t. NoneOlder time_of t m) time (scan_oldest-NoneOlder time_of m ("", 0) started),
      )

  pub delete-oldest :
      (time_of : V → ℕ) (m : Map String V)
      → 0 < length m
      → suc (length (delete (scan_oldest time_of m ("", 0)).0 m)) ≤ length m
  delete-oldest time_of m filled =
      let (v, found) = scan_oldest-some time_of m filled in
      length-delete-lt (scan_oldest time_of m ("", 0)).0 m v found

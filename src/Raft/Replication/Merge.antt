-- ===== src/Raft/Replication/Merge.antt =====
-- What the loop of AppendEntries (cluster/go/raft/raft.go) makes of a log.
use mathlib.Core.List.{append_assoc, append-nil}
use distributed_mq.Prelude.{
  leb, if◌then◌else◌, leb-suc, leb-zero, Bool-cases, Option-cases, ◌==◌, length, get_elem?, take,
  drop, length-append, length-take-le, get_elem?-none_of_le, lt_of_get_elem?, take-all,
  length-le_of_none, ℕ, suc, ◌+◌, ◌^◌, ◌≤◌, ◌<◌, ◌≡◌, refl, sym, ap, ◌∙◌, inl, inr, true, false,
  none, some, List, [], ◌∷◌, ◌++◌, arith,
}
use distributed_mq.Prelude.{nat_eq}
use distributed_mq.Go.{u64-small}
use distributed_mq.Raft.{LogEntry}
use distributed_mq.Raft.Replication.{place_entry, merge_entries}

-- How many of the entries, from the first on, are in the log with their terms, from `index` on.
pub agreeing : ℕ → List LogEntry → List LogEntry → ℕ
agreeing index [] log = 0
agreeing index (entry ∷ entries) log =
    let more = agreeing (index + 1) entries log in
    elim (get_elem? log index) [
      | none ↦ 0
      | some old ↦ if old.term == entry.term then suc more else 0
    ]

-- The log keeps what agrees; from the first disagreement on it is what the request holds.
unfoldable pub merged : ℕ → List LogEntry → List LogEntry → List LogEntry
merged index entries log =
    let k = agreeing index entries log in
    if leb (length entries) k then log else take (index + k) log ++ drop k entries

merge_entries-cons :
    (index : ℕ) (entry : LogEntry) (entries log : List LogEntry)
    → index + suc (length entries) < 2 ^ 64
    → merge_entries index (entry ∷ entries) log
      ≡ merge_entries (index + 1) entries (place_entry index entry log)
unfolding merge_entries
merge_entries-cons index entry entries log bound =
    ap (λ i. merge_entries (index + 1) entries (place_entry i entry log))
      (u64-small index (omega arith))

module _ (index : ℕ) (entry : LogEntry) (log : List LogEntry) where
  place_entry-end : get_elem? log index ≡ none → place_entry index entry log ≡ log ++ entry ∷ []
  unfolding place_entry
  place_entry-end e = ground arith

  place_entry-keep :
      (old : LogEntry)
      → get_elem? log index ≡ some old
      → (old.term == entry.term) ≡ true
      → place_entry index entry log ≡ log
  unfolding place_entry
  place_entry-keep old e t = ground arith

  place_entry-cut :
      (old : LogEntry)
      → get_elem? log index ≡ some old
      → (old.term == entry.term) ≡ false
      → place_entry index entry log ≡ take index log ++ entry ∷ []
  unfolding place_entry
  place_entry-cut old e t = ground arith

module _ (index : ℕ) (entry : LogEntry) (entries log : List LogEntry) where
  agreeing-end : get_elem? log index ≡ none → agreeing index (entry ∷ entries) log ≡ 0
  unfolding agreeing
  agreeing-end e = ground arith

  agreeing-keep :
      (old : LogEntry)
      → get_elem? log index ≡ some old
      → (old.term == entry.term) ≡ true
      → agreeing index (entry ∷ entries) log ≡ suc (agreeing (index + 1) entries log)
  unfolding agreeing
  agreeing-keep old e t = ground arith

  agreeing-cut :
      (old : LogEntry)
      → get_elem? log index ≡ some old
      → (old.term == entry.term) ≡ false
      → agreeing index (entry ∷ entries) log ≡ 0
  unfolding agreeing
  agreeing-cut old e t = ground arith

  merged-zero :
      agreeing index (entry ∷ entries) log ≡ 0
      → merged index (entry ∷ entries) log ≡ take index log ++ (entry ∷ entries)
  unfolding merged
  merged-zero e =
      let start : index + 0 ≡ index = omega arith in
      rw (e, leb-zero (length entries)) (ap (λ (n : ℕ). take n log ++ (entry ∷ entries)) start)

  merged-suc :
      agreeing index (entry ∷ entries) log ≡ suc (agreeing (index + 1) entries log)
      → merged index (entry ∷ entries) log ≡ merged (index + 1) entries log
  unfolding merged
  merged-suc e =
      let k = agreeing (index + 1) entries log in
      let shift : index + suc k ≡ index + 1 + k = omega arith in
      rw (e, leb-suc (length entries) k)
        (ap (λ (n : ℕ). if leb (length entries) k then log else take n log ++ drop k entries) shift)

merge_entries-end :
    (index : ℕ) (entries log : List LogEntry)
    → index ≡ length log
    → index + length entries < 2 ^ 64
    → merge_entries index entries log ≡ log ++ entries
unfolding merge_entries
merge_entries-end index [] log e bound = rw append-nil
merge_entries-end index (entry ∷ entries) log e bound =
    merge_entries-cons index entry entries log bound
    ∙ ap (merge_entries (index + 1) entries)
        (place_entry-end index entry log (get_elem?-none_of_le log index (omega arith)))
    ∙ merge_entries-end (index + 1) entries (log ++ entry ∷ [])
        (omega (arith, length-append {0} log (entry ∷ []))) (omega arith)
    ∙ append_assoc log (entry ∷ []) entries

merge_entries-cut :
    (index : ℕ) (entry : LogEntry) (entries log : List LogEntry)
    → index ≤ length log
    → index + suc (length entries) < 2 ^ 64
    → merge_entries (index + 1) entries (take index log ++ entry ∷ [])
      ≡ take index log ++ (entry ∷ entries)
merge_entries-cut index entry entries log inside bound =
    merge_entries-end (index + 1) entries (take index log ++ entry ∷ [])
      (omega (
        arith,
        length-append {0} (take index log) (entry ∷ []),
        length-take-le {0} index log inside,
      ))
      (omega arith)
    ∙ append_assoc (take index log) (entry ∷ []) entries

-- The loop of AppendEntries, started at an index inside or at the end of the log, keeps the log if
-- every entry is there with its term, and else replaces what follows the last agreeing entry, the
-- rest of the log included, by the remaining entries of the request.
pub merge_entries_lem :
    (index : ℕ) (entries log : List LogEntry)
    → index ≤ length log
    → index + length entries < 2 ^ 64
    → merge_entries index entries log ≡ merged index entries log
unfolding merge_entries merged agreeing
merge_entries_lem index [] log inside bound = refl
merge_entries_lem index (entry ∷ entries) log inside bound =
    elim (Option-cases (get_elem? log index)) [
      | inl e ↦
          let end : index ≡ length log = omega (arith, length-le_of_none {0} log index e) in
          merge_entries-end index (entry ∷ entries) log end bound
          ∙ ap (λ l. l ++ (entry ∷ entries)) (sym (take-all index log (omega arith)))
          ∙ sym (merged-zero index entry entries log (agreeing-end index entry entries log e))
      | inr (old, e) ↦ elim (Bool-cases (old.term == entry.term)) [
        | inl t ↦
            merge_entries-cons index entry entries log bound
            ∙ ap (merge_entries (index + 1) entries) (place_entry-keep index entry log old e t)
            ∙ merge_entries_lem (index + 1) entries log
                (omega (arith, lt_of_get_elem? {0} log index old e)) (omega arith)
            ∙ sym
                (merged-suc index entry entries log (agreeing-keep index entry entries log old e t))
        | inr t ↦
            merge_entries-cons index entry entries log bound
            ∙ ap (merge_entries (index + 1) entries) (place_entry-cut index entry log old e t)
            ∙ merge_entries-cut index entry entries log inside bound
            ∙ sym
                (merged-zero index entry entries log (agreeing-cut index entry entries log old e t))
      ]
    ]

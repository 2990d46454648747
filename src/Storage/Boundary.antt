-- ===== src/Storage/Boundary.antt =====
-- Segment files of cluster/go/broker/storage/bridge_go.go once a record has passed the end of a
-- segment.
use mathlib.Core.Path.{ap, sym}
use distributed_mq.Prelude.{
  nat_beq_iff, length, drop, length-append, ℕ, zero, suc, ◌+◌, ◌*◌, ◌%◌, ◌≤◌, ◌<◌, ◌≡◌, refl, ◌∙◌,
  ◌≢◌, none, some, List, [], ◌∷◌, ◌++◌, arith,
}
use distributed_mq.Prelude.{nat_eq, string_eq}
use distributed_mq.Prelude.Map.{beq_refl, lookup, get_or, lookup-insert}
use distributed_mq.Storage.{
  CommitLog, complete, full_data, seg_key, file_of, append_whole, append, read_bytes, read,
}
use distributed_mq.Storage.ReadBack.{read-found, header, length-header}

drop-all : (n : ℕ) (xs : List ℕ) → length xs ≤ n → drop n xs ≡ []
drop-all zero [] h = refl
drop-all zero (x ∷ xs) h = absurd (omega arith)
drop-all (suc n) [] h = refl
drop-all (suc n) (x ∷ xs) h = drop-all n xs (omega arith)

read_bytes-end : (size : ℕ) → 0 < size → read_bytes size [] ≡ none
read_bytes-end zero h = absurd (omega arith)
read_bytes-end (suc size) h = refl

length-full_data :
    (offset t : ℕ) (payload : List ℕ) → length (full_data offset t payload) ≡ length payload + 20
length-full_data offset t payload =
    omega (arith, length-append (header offset t payload) payload, length-header offset t payload)

file_of-missing : (key : ℕ) (cl : CommitLog) → lookup key cl.files ≡ none → file_of key cl ≡ []
unfolding get_or
file_of-missing key cl missing = cc

-- Where an append goes to a segment that has no file yet, the file is the record alone.
fresh_file :
    (t : ℕ) (payload : List ℕ) (cl : CommitLog)
    → lookup (seg_key cl.last_offset) cl.files ≡ none
    → lookup (seg_key cl.last_offset) (append_whole t payload cl).1.files
      ≡ some (full_data cl.last_offset t payload)
unfolding append_whole
fresh_file t payload cl missing =
    let key = seg_key cl.last_offset in
    lookup-insert key key (file_of key cl ++ full_data cl.last_offset t payload) cl.files
    ∙ rw (beq_refl key, file_of-missing key cl missing)

-- An append leaves the files of other segments alone.
other_file :
    (t key : ℕ) (payload : List ℕ) (cl : CommitLog)
    → seg_key cl.last_offset ≢ key
    → lookup key (append_whole t payload cl).1.files ≡ lookup key cl.files
unfolding append_whole
other_file t key payload cl other =
    let k = seg_key cl.last_offset in
    ground (
      arith,
      lookup-insert k key (file_of k cl ++ full_data cl.last_offset t payload) cl.files,
      nat_beq_iff k key,
    )

-- Where all writes are complete and the second segment has no file yet: when a record that begins in the
-- first segment passes its end at 1 MiB and ends below 2 MiB, and the next one is not empty and not longer
-- than what passed the end, then Append returns an offset for the next one, and Read of that offset and
-- size is an error.
pub boundary_lost :
    (t u : ℕ) (first second : List ℕ) (cl : CommitLog)
    → cl.last_offset < 1048576
    → lookup 1 cl.files ≡ none
    → 0 < length second
    → 1048576 + length second ≤ cl.last_offset + (length first + 20)
    → cl.last_offset + (length first + 20) < 2097152
    → ((append complete u second (append complete t first cl).1).0
        ≡ some (cl.last_offset + (length first + 20)))
      × (read
            (cl.last_offset + (length first + 20))
            (length second)
            (append complete u second (append complete t first cl).1).1
          ≡ none)
unfolding append
boundary_lost t u first second cl small absent filled past inside =
    let mid = (append_whole t first cl).1 in
    let offset = cl.last_offset + (length first + 20) in
    let at : mid.last_offset ≡ offset = omega (arith, length-full_data cl.last_offset t first) in
    let one : seg_key mid.last_offset ≡ 1 = omega (arith, at) in
    let missing : lookup (seg_key mid.last_offset) mid.files ≡ none =
      rw one (other_file t 1 first cl (λ same. absurd (omega (arith, same))) ∙ absent) in
    (
      ap some at,
      rw (sym at) (
          read-found mid.last_offset (length second) (full_data mid.last_offset u second)
            (append_whole u second mid).1 (fresh_file u second mid missing)
          ∙ rw
              (drop-all (mid.last_offset % (1024 * 1024) + 20) (full_data mid.last_offset u second)
                (omega (arith, length-full_data mid.last_offset u second, at)))
              (read_bytes-end (length second) filled)),
    )

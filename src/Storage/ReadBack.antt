-- ===== src/Storage/ReadBack.antt =====
-- Read of cluster/go/broker/storage/bridge_go.go gives back what Append wrote, and where it does not.
use mathlib.Core.Path.{sym, ap}
use distributed_mq.Prelude.{
  nat_beq_iff, Bool-cases, if-elim, ◌==◌, length, take, drop, length-append, ℕ, suc, ◌+◌, ◌-◌, ◌*◌,
  ◌%◌, ◌<◌, ◌≡◌, refl, ◌∙◌, inl, inr, Option, none, some, List, [], ◌∷◌, ◌++◌, arith,
}
use distributed_mq.Prelude.{nat_eq, string_eq}
use distributed_mq.Prelude.Map.{beq_refl, lookup, get_or, has_key, lookup-insert}
use distributed_mq.Storage.{
  CommitLog, FileWrites, not_opened, cut_after, complete, big_endian, full_data, seg_key, file_of,
  extend, append_whole, append, append_all, read_bytes, read,
}

-- The file of `key` has `bytes` after `pre`.
abbrev pub Holds : ℕ → (pre bytes : List ℕ) → CommitLog → Type 0
Holds key pre bytes cl = (post : List ℕ) × (lookup key cl.files ≡ some (pre ++ (bytes ++ post)))

append_assoc : (xs ys zs : List ℕ) → (xs ++ ys) ++ zs ≡ xs ++ (ys ++ zs)
append_assoc [] ys zs = refl
append_assoc (x ∷ xs) ys zs = rw (append_assoc xs ys zs)

extend-Holds :
    (k key : ℕ) (more pre bytes : List ℕ) (cl : CommitLog)
    → Holds key pre bytes cl
    → Holds key pre bytes (extend k more cl)
unfolding get_or
extend-Holds k key more pre bytes cl (post, found) = elim (Bool-cases (k == key)) [
  | inl same ↦
      let is_key : k ≡ key = (nat_beq_iff k key).0 same in
      let whole : file_of k cl ≡ pre ++ (bytes ++ post) = ground arith in
      (
        post ++ more,
        lookup-insert k key (file_of k cl ++ more) cl.files
            ∙ rw (same, whole, append_assoc pre (bytes ++ post) more, append_assoc bytes post more),
      )
  | inr other ↦ (post, ground (arith, lookup-insert k key (file_of k cl ++ more) cl.files))
]

pub append-Holds :
    (disk : FileWrites) (t key : ℕ) (payload pre bytes : List ℕ) (cl : CommitLog)
    → Holds key pre bytes cl
    → Holds key pre bytes (append disk t payload cl).1
unfolding append
append-Holds complete t key payload pre bytes cl h =
    extend-Holds (seg_key cl.last_offset) key (full_data cl.last_offset t payload) pre bytes cl h
append-Holds (cut_after n) t key payload pre bytes cl h =
    extend-Holds (seg_key cl.last_offset) key (take n (full_data cl.last_offset t payload)) pre
      bytes cl h
append-Holds not_opened t key payload pre bytes cl h =
    if-elim (λ (x : Option ℕ × CommitLog). Holds key pre bytes x.1)
      (has_key (seg_key cl.last_offset) cl.segments) (append_whole t payload cl) (none, cl)
      (λ _.
        extend-Holds (seg_key cl.last_offset) key (full_data cl.last_offset t payload) pre bytes cl
          h)
      (λ _. h)

append_all-Holds :
    (entries : List (FileWrites × ℕ × List ℕ)) (key : ℕ) (pre bytes : List ℕ) (cl : CommitLog)
    → Holds key pre bytes cl
    → Holds key pre bytes (append_all entries cl)
unfolding append_all
append_all-Holds [] key pre bytes cl h = h
append_all-Holds ((disk, t, payload) ∷ entries) key pre bytes cl h =
    append_all-Holds entries key pre bytes (append disk t payload cl).1
      (append-Holds disk t key payload pre bytes cl h)

drop-append : (pre rest : List ℕ) → drop (length pre) (pre ++ rest) ≡ rest
drop-append [] rest = refl
drop-append (x ∷ pre) rest = drop-append pre rest

take-append : (bytes post : List ℕ) → take (length bytes) (bytes ++ post) ≡ bytes
take-append [] post = refl
take-append (b ∷ bytes) post = rw (take-append bytes post)

append-nil : (xs : List ℕ) → xs ++ [] ≡ xs
append-nil [] = refl
append-nil (x ∷ xs) = rw (append-nil xs)

read_bytes-full : (bytes post : List ℕ) → read_bytes (length bytes) (bytes ++ post) ≡ some bytes
read_bytes-full [] post = refl
read_bytes-full (b ∷ bytes) post =
    let none_left : suc (length bytes) - suc (length (bytes ++ post)) ≡ 0 =
      omega (arith, length-append bytes post) in
    rw (none_left, take-append bytes post) (ap (λ xs. some (b ∷ xs)) (append-nil bytes))

pub read-found :
    (offset size : ℕ) (bytes : List ℕ) (cl : CommitLog)
    → lookup (seg_key offset) cl.files ≡ some bytes
    → read offset size cl ≡ read_bytes size (drop (offset % (1024 * 1024) + 20) bytes)
unfolding read
read-found offset size bytes cl found = cc

-- A file that holds `bytes` where Read looks for them.
pub read-Holds :
    (offset : ℕ) (pre bytes : List ℕ) (cl : CommitLog)
    → Holds (seg_key offset) pre bytes cl
    → length pre ≡ offset % (1024 * 1024) + 20
    → read offset (length bytes) cl ≡ some bytes
read-Holds offset pre bytes cl (post, found) place =
    read-found offset (length bytes) (pre ++ (bytes ++ post)) cl found
    ∙ rw (sym place, drop-append pre (bytes ++ post)) (read_bytes-full bytes post)

-- A log whose first segment is not full, and whose file has one byte for each offset.
abbrev pub IsAligned : CommitLog → Type 0
IsAligned cl = (cl.last_offset < 1024 * 1024) × (length (file_of 0 cl) ≡ cl.last_offset)

abbrev pub header : ℕ → ℕ → List ℕ → List ℕ
header offset t payload = big_endian 8 offset ++ big_endian 8 t ++ big_endian 4 (length payload)

pub append_whole-Holds :
    (t : ℕ) (payload : List ℕ) (cl : CommitLog)
    → IsAligned cl
    → Holds
        (seg_key cl.last_offset)
        (file_of 0 cl ++ header cl.last_offset t payload)
        payload
        (append_whole t payload cl).1
unfolding append_whole
append_whole-Holds t payload cl (small, aligned) =
    let key = seg_key cl.last_offset in
    let first : key ≡ 0 = omega arith in
    let whole = full_data cl.last_offset t payload in
    let old : file_of key cl ≡ file_of 0 cl = rw first in
    (
      [],
      lookup-insert key key (file_of key cl ++ whole) cl.files
          ∙ rw (
            beq_refl key,
            old,
            append-nil payload,
            append_assoc (file_of 0 cl) (header cl.last_offset t payload) payload,
          ),
    )

pub length-header : (offset t : ℕ) (payload : List ℕ) → length (header offset t payload) ≡ 20
unfolding big_endian
length-header offset t payload = refl

-- While the first segment is not full and its file has one byte for each offset: an Append whose
-- calls of the file system succeed returns the last offset, and Read of that offset and size gives
-- the data back, also after any further appends, whatever becomes of them.
pub append-read :
    (t : ℕ) (payload : List ℕ) (later : List (FileWrites × ℕ × List ℕ)) (cl : CommitLog)
    → IsAligned cl
    → ((append complete t payload cl).0 ≡ some cl.last_offset)
      × (read cl.last_offset (length payload) (append_all later (append complete t payload cl).1)
          ≡ some payload)
unfolding append
append-read t payload later cl (small, aligned) =
    let pre = file_of 0 cl ++ header cl.last_offset t payload in
    (
      refl,
      read-Holds cl.last_offset pre payload (append_all later (append complete t payload cl).1)
          (append_all-Holds later (seg_key cl.last_offset) pre payload
            (append complete t payload cl).1 (append_whole-Holds t payload cl (small, aligned)))
          (omega (
            arith,
            length-append (file_of 0 cl) (header cl.last_offset t payload),
            length-header cl.last_offset t payload,
          )),
    )

-- ===== src/Broker/Log/Refine.antt =====
-- The commit log and index of a topic partition (cluster/go/broker/broker.go) against the list of the
-- messages that were appended to it.
use mathlib.Core.Path.{sym, ap, subst}
use distributed_mq.Prelude.{
  if◌then◌else◌, if-elim, length, All, length-append, All-imp, All-append_one, ℕ, ◌+◌, ◌*◌, ◌%◌,
  ◌<◌, String, ◌≡◌, refl, ◌∙◌, some, List, [], ◌∷◌, ◌++◌, map, arith,
}
use distributed_mq.Prelude.{nat_eq, string_eq}
use distributed_mq.Prelude.Int.{ℤ, pos, negsuc, above}
use distributed_mq.Prelude.Map.{beq_refl, insert, get_or, lookup-insert}
use distributed_mq.Storage.{
  CommitLog, complete, full_data, seg_key, file_of, extend, append_whole, append, read, IndexEntry,
  SparseIndex, put, get_entries_after,
}
use distributed_mq.Storage.ReadBack.{
  Holds, append-Holds, read-Holds, IsAligned, header, append_whole-Holds, length-header,
}
use distributed_mq.Broker.{Message, TopicPartition}
use distributed_mq.Broker.Log.{
  ApplyEnv, appended, append_to, entries_after, read_message, consume_loop,
}

-- A message that was appended, in the abstract view.
pub record Logged : Type 0 where
  pub offset : ℕ
  pub timestamp : ℕ
  pub bytes : List ℕ

abbrev pub entry_of : Logged → IndexEntry
entry_of l = record { offset = l.offset; size = length l.bytes; timestamp = l.timestamp }

abbrev pub index_of : List Logged → SparseIndex
index_of [] = []
index_of (l ∷ ls) = (l.offset, entry_of l) ∷ index_of ls

-- The bytes of a message stand in the file where Read looks for them.
abbrev pub Stored : CommitLog → Logged → Type 0
Stored cl l =
    (l.offset < cl.last_offset)
    × ((pre : List ℕ) × (length pre ≡ l.offset % (1024 * 1024) + 20)
        × Holds (seg_key l.offset) pre l.bytes cl)

-- A topic partition holds the messages `ls`, in the order in which they were appended.
abbrev pub Refines : List Logged → TopicPartition → Type 0
Refines ls tp = (tp.index ≡ index_of ls) × All (Stored tp.commit_log) ls

-- The messages of the abstract view with an offset above the given int64.
abbrev pub later_than : ℤ → List Logged → List Logged
later_than offset [] = []
later_than offset (l ∷ ls) =
    let rest = later_than offset ls in if above l.offset offset then l ∷ rest else rest

abbrev pub message_at : String → ℤ → Logged → Message
message_at topic partition l = read_message topic partition (entry_of l) l.bytes

Stored-read :
    (cl : CommitLog) (l : Logged) → Stored cl l → read l.offset (length l.bytes) cl ≡ some l.bytes
Stored-read cl l (below, (pre, place, held)) = read-Holds l.offset pre l.bytes cl held place

pub entries_after-index_of :
    (offset : ℤ) (ls : List Logged)
    → entries_after offset (index_of ls) ≡ map entry_of (later_than offset ls)
unfolding get_entries_after
entries_after-index_of (pos n) [] = refl
entries_after-index_of (pos n) (l ∷ ls) = ground (arith, entries_after-index_of (pos n) ls)
entries_after-index_of (negsuc n) [] = refl
entries_after-index_of (negsuc n) (l ∷ ls) =
    ap (λ es. entry_of l ∷ es) (entries_after-index_of (negsuc n) ls)

-- Consume gives the messages of the view.
pub consume_loop-entries :
    (topic : String) (partition : ℤ) (cl : CommitLog) (ls : List Logged)
    → All (Stored cl) ls
    → consume_loop topic partition cl (map entry_of ls) ≡ map (message_at topic partition) ls
unfolding consume_loop
consume_loop-entries topic partition cl [] h = refl
consume_loop-entries topic partition cl (l ∷ ls) (stored, h) =
    rw (Stored-read cl l stored, consume_loop)
      (ap (λ ms. message_at topic partition l ∷ ms) (consume_loop-entries topic partition cl ls h))

pub later_than-All :
    (P : Logged → Type 0) (offset : ℤ) (ls : List Logged) → All P ls → All P (later_than offset ls)
later_than-All P offset [] h = tt
later_than-All P offset (l ∷ ls) (p, h) =
    if-elim (All P) (above l.offset offset) (l ∷ later_than offset ls) (later_than offset ls)
      (λ _. (p, later_than-All P offset ls h)) (λ _. later_than-All P offset ls h)

insert-index_of :
    (ls : List Logged) (l : Logged)
    → All (λ (old : Logged). old.offset < l.offset) ls
    → insert l.offset (entry_of l) (index_of ls) ≡ index_of (ls ++ l ∷ [])
unfolding insert
insert-index_of [] l h = refl
insert-index_of (old ∷ ls) l (less, h) = ground (arith, insert-index_of ls l h)

length-full_data :
    (offset t : ℕ) (payload : List ℕ) → length (full_data offset t payload) ≡ 20 + length payload
length-full_data offset t payload =
    omega (arith, length-append (header offset t payload) payload, length-header offset t payload)

-- What a message adds to the length of the log.
abbrev pub grown : List ℕ → ℕ → ℕ
grown payload n = n + (20 + length payload)

pub append_whole-length :
    (t : ℕ) (payload : List ℕ) (cl : CommitLog)
    → ((append_whole t payload cl).0 ≡ some cl.last_offset)
      × ((append_whole t payload cl).1.last_offset ≡ grown payload cl.last_offset)
unfolding append_whole
append_whole-length t payload cl = (refl, omega (arith, length-full_data cl.last_offset t payload))

append_whole-Stored :
    (t : ℕ) (payload : List ℕ) (cl : CommitLog) (l : Logged)
    → Stored cl l
    → Stored (append_whole t payload cl).1 l
unfolding append
append_whole-Stored t payload cl l (below, (pre, place, held)) = (
  omega (arith, (append_whole-length t payload cl).1),
  (pre, place, append-Holds complete t (seg_key l.offset) payload pre l.bytes cl held),
)

-- The message that an Append to an aligned log adds.
append_whole-new :
    (t now : ℕ) (payload : List ℕ) (cl : CommitLog)
    → IsAligned cl
    → Stored
        (append_whole t payload cl).1
        (record { offset = cl.last_offset; timestamp = now; bytes = payload })
append_whole-new t now payload cl (small, aligned) = (
  omega (arith, (append_whole-length t payload cl).1),
  (
    file_of 0 cl ++ header cl.last_offset t payload,
    omega (
      arith,
      length-append (file_of 0 cl) (header cl.last_offset t payload),
      length-header cl.last_offset t payload,
    ),
    append_whole-Holds t payload cl (small, aligned),
  ),
)

file_of-extend :
    (key : ℕ) (more : List ℕ) (cl : CommitLog)
    → file_of key (extend key more cl) ≡ file_of key cl ++ more
unfolding get_or
file_of-extend key more cl =
    ground (arith, lookup-insert key key (file_of key cl ++ more) cl.files, beq_refl key)

pub append_whole-IsAligned :
    (t : ℕ) (payload : List ℕ) (cl : CommitLog)
    → IsAligned cl
    → grown payload cl.last_offset < 1024 * 1024
    → IsAligned (append_whole t payload cl).1
unfolding append_whole
append_whole-IsAligned t payload cl (small, aligned) fits =
    let key = seg_key cl.last_offset in
    let first : key ≡ 0 = omega arith in
    let whole = full_data cl.last_offset t payload in
    let size = length-full_data cl.last_offset t payload in
    (
      omega (arith, size),
      subst (λ k. length (file_of 0 (extend k whole cl)) ≡ cl.last_offset + length whole)
          (sym first)
          (rw (file_of-extend 0 whole cl) (omega (arith, length-append (file_of 0 cl) whole))),
    )

-- The message that an entry adds to a topic partition.
abbrev pub logged : ApplyEnv → List ℕ → CommitLog → Logged
logged env payload cl = record {
  offset = cl.last_offset;
  timestamp = env.put_time;
  bytes = payload;
}

pub append_to-complete :
    (env : ApplyEnv) (payload : List ℕ) (tp : TopicPartition)
    → env.disk ≡ complete
    → append_to env payload tp ≡ record tp {
      commit_log = (append_whole env.append_time payload tp.commit_log).1;
      index = put tp.commit_log.last_offset (length payload) env.put_time tp.index;
    }
unfolding append_to append append_whole
append_to-complete env payload tp written =
    ap (λ disk. appended env payload tp (append disk env.append_time payload tp.commit_log)) written

-- Append and Put add one message to the view, and keep the others.
pub append_to-Refines :
    (env : ApplyEnv) (payload : List ℕ) (tp : TopicPartition) (ls : List Logged)
    → env.disk ≡ complete
    → IsAligned tp.commit_log
    → Refines ls tp
    → Refines (ls ++ logged env payload tp.commit_log ∷ []) (append_to env payload tp)
append_to-Refines env payload tp ls written aligned (is_index, stored) =
    let new = logged env payload tp.commit_log in
    let cl = tp.commit_log in
    subst (Refines (ls ++ new ∷ [])) (sym (append_to-complete env payload tp written)) (
      ap (insert new.offset (entry_of new)) is_index
          ∙ insert-index_of ls new (All-imp _ _ ls (λ l held. held.0) stored),
      All-append_one _ ls new
          (All-imp _ _ ls (λ l held. append_whole-Stored env.append_time payload cl l held) stored)
          (append_whole-new env.append_time env.put_time payload cl aligned),
    )

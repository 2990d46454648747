-- ===== src/Storage.antt =====
-- The commit log and the sparse index of a broker, cluster/go/broker/storage/bridge_go.go. Each
-- method holds its mutex from its start to its end, so that it is one step; a flush of a batch with
-- more than one entry, or of one, is a step after the one that takes the batch. A segment file is the
-- list of its bytes. The files are named by the segment key, and a file that is open is open to
-- append. Offsets and sizes are not negative.
pub mod ReadBack
pub mod Boundary
use distributed_mq.Prelude.{
  ltb, leb, if◌then◌else◌, length, take, drop, ℕ, zero, suc, ◌+◌, ◌-◌, ◌*◌, ◌/◌, ◌%◌, ◌^◌, Bool,
  true, ◌&&◌, Option, none, some, List, [], ◌∷◌, ◌++◌,
}
use distributed_mq.Prelude.{nat_eq, string_eq}
use distributed_mq.Prelude.Map.{Map, lookup, insert, get_or, has_key}

pub record CommitLog : Type 0 where
  pub files : Map ℕ (List ℕ)
  pub segments : Map ℕ Bool
  pub last_offset : ℕ
  pub batch_buffer : List (List ℕ)
  pub batch_size : ℕ

-- What the calls of the file system in one append come to: OpenFile fails, Write fails after the
-- given number of bytes, or all bytes are written.
pub data FileWrites : Type 0 where
  not_opened : FileWrites
  cut_after : ℕ → FileWrites
  complete : FileWrites

-- `byte((n >> (8*k)) & 0xFF)` for k from the given number of bytes down
unfoldable pub big_endian : ℕ → ℕ → List ℕ
big_endian zero n = []
big_endian (suc k) n = n / 2 ^ (8 * k) % 256 ∷ big_endian k n

-- the header of 20 bytes, and the data
abbrev pub full_data : (offset timestamp : ℕ) → List ℕ → List ℕ
full_data offset timestamp bytes =
    (big_endian 8 offset ++ big_endian 8 timestamp ++ big_endian 4 (length bytes)) ++ bytes

abbrev pub seg_key : ℕ → ℕ
seg_key offset = offset / 1024 / 1024

abbrev pub file_of : ℕ → CommitLog → List ℕ
file_of key cl = get_or key [] cl.files

-- a file that is written to is there afterwards, and open
abbrev pub extend : ℕ → List ℕ → CommitLog → CommitLog
extend key bytes cl = record cl {
  files = insert key (file_of key cl ++ bytes) cl.files;
  segments = insert key true cl.segments;
}

-- the part of Append after the file is open, where all bytes are written
unfoldable pub append_whole : ℕ → List ℕ → CommitLog → Option ℕ × CommitLog
append_whole timestamp bytes cl =
    let whole = full_data cl.last_offset timestamp bytes in
    (
      some cl.last_offset,
      record (extend (seg_key cl.last_offset) whole cl) {
        last_offset = cl.last_offset + length whole;
      },
    )

-- Append, whose reply is the offset or none for an error; a file that is open is not opened again
unfoldable pub append : FileWrites → ℕ → List ℕ → CommitLog → Option ℕ × CommitLog
unfolding append_whole
append complete timestamp bytes cl = append_whole timestamp bytes cl
append (cut_after n) timestamp bytes cl =
    (none, extend (seg_key cl.last_offset) (take n (full_data cl.last_offset timestamp bytes)) cl)
append not_opened timestamp bytes cl =
    if has_key (seg_key cl.last_offset) cl.segments
    then append_whole timestamp bytes cl
    else (none, cl)

-- the loop of batchFlush, which goes on after an error; each entry has its own calls and clock
unfoldable pub append_all : List (FileWrites × ℕ × List ℕ) → CommitLog → CommitLog
unfolding append
append_all [] cl = cl
append_all ((disk, timestamp, bytes) ∷ entries) cl =
    append_all entries (append disk timestamp bytes cl).1

-- batchFlush up to the release of batchMu: the batch that it takes
abbrev pub take_batch : CommitLog → List (List ℕ) × CommitLog
take_batch cl = (cl.batch_buffer, record cl { batch_buffer = [] })

-- AppendAsync: true if it asks for a flush
abbrev pub append_async : List ℕ → CommitLog → Bool × CommitLog
append_async bytes cl =
    let buffer = cl.batch_buffer ++ bytes ∷ [] in
    (leb cl.batch_size (length buffer), record cl { batch_buffer = buffer })

abbrev pub zeros : ℕ → List ℕ
zeros zero = []
zeros (suc n) = 0 ∷ zeros n

-- `f.Read(buf)`: an error at the end of the file, and else the bytes that are there, with the rest
-- of the buffer still zero
abbrev pub read_bytes : ℕ → List ℕ → Option (List ℕ)
read_bytes zero rest = some []
read_bytes (suc n) [] = none
read_bytes (suc n) (b ∷ bs) = some (take (suc n) (b ∷ bs) ++ zeros (suc n - length (b ∷ bs)))

-- Read, none for an error
unfoldable pub read : (offset size : ℕ) → CommitLog → Option (List ℕ)
read offset size cl = elim (lookup (seg_key offset) cl.files) [
  | none ↦ none
  | some bytes ↦ read_bytes size (drop (offset % (1024 * 1024) + 20) bytes)
]

-- GetOffset
abbrev pub get_offset : CommitLog → ℕ
get_offset cl = cl.last_offset

pub record IndexEntry : Type 0 where
  pub offset : ℕ
  pub size : ℕ
  pub timestamp : ℕ

abbrev pub SparseIndex : Type 0
SparseIndex = Map ℕ IndexEntry

-- Put
abbrev pub put : (offset size timestamp : ℕ) → SparseIndex → SparseIndex
put offset size timestamp idx =
    insert offset (record { offset = offset; size = size; timestamp = timestamp }) idx

-- PutBatch
abbrev pub put_batch : List IndexEntry → SparseIndex → SparseIndex
put_batch [] idx = idx
put_batch (e ∷ es) idx = put_batch es (insert e.offset e idx)

-- the loop of Lookup, with `best`
abbrev pub later_entry : ℕ → IndexEntry → Option IndexEntry → Option IndexEntry
later_entry timestamp e none = if leb e.timestamp timestamp then some e else none
later_entry timestamp e (some best) =
    if leb e.timestamp timestamp && ltb best.timestamp e.timestamp then some e else some best

abbrev pub lookup_from : ℕ → SparseIndex → Option IndexEntry → Option IndexEntry
lookup_from timestamp [] best = best
lookup_from timestamp ((k, e) ∷ idx) best = lookup_from timestamp idx (later_entry timestamp e best)

abbrev pub lookup_time : ℕ → SparseIndex → Option IndexEntry
lookup_time timestamp idx = lookup_from timestamp idx none

-- GetLastOffset
abbrev pub get_last_offset : SparseIndex → ℕ → ℕ
get_last_offset [] max = max
get_last_offset ((k, e) ∷ idx) max = get_last_offset idx (if ltb max k then k else max)

-- GetEntriesAfter
unfoldable pub get_entries_after : ℕ → SparseIndex → List IndexEntry
get_entries_after offset [] = []
get_entries_after offset ((k, e) ∷ idx) =
    let rest = get_entries_after offset idx in if ltb offset e.offset then e ∷ rest else rest

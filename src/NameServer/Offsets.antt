-- ===== src/NameServer/Offsets.antt =====
-- The offsets of consumers: the store of cluster/go/nameserver/offset_store.go, and handleCommitOffset
-- and handleGetOffset of cluster/go/nameserver/nameserver.go. The database (go.etcd.io/bbolt) is a
-- parameter: its states and its calls on the bucket "consumer_offsets". A partition and an offset
-- are an int and an int64.
pub mod Commits
use Prim.Native.String
use distributed_mq.Prelude.{nat_eq, string_eq}
use distributed_mq.Prelude.{
  ltb, if◌then◌else◌, ◌==◌, length, take, ℕ, zero, suc, ◌-◌, ◌%◌, ◌^◌, String, Bool, true, false,
  ◌&&◌, ◌||◌, Option, none, some, List,
}
use distributed_mq.Prelude.Int.{ℤ, pos, negsuc, signed, decimal_int}
use distributed_mq.Prelude.Bytes.{decode}
use distributed_mq.Go.{Outcome, ret, panic, map_outcome}
use distributed_mq.Storage.{big_endian}
use distributed_mq.NameServer.{
  Response, success, bad_request, internal_error, Field, absent, malformed, negative, number,
}

-- Update with a Put or a Delete, none for an error; `Get`, none for nil; whether a View starts, and
-- whether the bucket is there
pub record BoltDb (S : Type 0) : Type 0 where
  pub is_open : S → Bool
  pub has_bucket : S → Bool
  pub get_key : String → S → Option (List ℕ)
  pub put_key : String → List ℕ → S → Option S
  pub delete_key : String → S → Option S

abbrev negated : ℕ → ℤ
negated zero = pos 0
negated (suc n) = negsuc n

-- a number of a form, none where it is refused or absent
abbrev pub int_of : Field → Option ℤ
int_of absent = none
int_of malformed = none
int_of (negative n) = some (negated n)
int_of (number n) = some (pos n)

-- `uint64(i)`
abbrev pub bits64 : ℤ → ℕ
bits64 (pos n) = n % 2 ^ 64
bits64 (negsuc n) = (2 ^ 64 - (n % 2 ^ 64) - 1) % 2 ^ 64

-- the key of a group, topic and partition
unfoldable pub offset_key : (group_id topic : String) → ℤ → String
offset_key group_id topic partition =
    String.◌++◌ group_id
      (String.◌++◌ "/" (String.◌++◌ topic (String.◌++◌ "/" (decimal_int partition))))

-- whether a parameter that both handlers want is missing
abbrev pub is_absent : Field → Bool
is_absent absent = true
is_absent _ = false

abbrev pub offset_reply : Option ℤ → Response ℤ
offset_reply none = internal_error
offset_reply (some offset) = success offset

-- what GetOffset makes of the value of the key; Uint64 panics on less than 8 bytes
abbrev pub stored_offset : Option (List ℕ) → Outcome (Option ℤ)
stored_offset none = ret (some (pos 0))
stored_offset (some value) =
    if ltb (length value) 8 then panic else ret (some (signed 64 (decode (take 8 value))))

module _ {S : Type 0} (db : BoltDb S) where
  -- PutOffset
  unfoldable pub put_offset : (group_id topic : String) → ℤ → ℤ → S → Option S
  put_offset group_id topic partition offset s =
      if db.has_bucket s
      then db.put_key (offset_key group_id topic partition) (big_endian 8 (bits64 offset)) s
      else none

  -- DeleteOffset
  unfoldable pub delete_offset : (group_id topic : String) → ℤ → S → Option S
  delete_offset group_id topic partition s =
      if db.has_bucket s then db.delete_key (offset_key group_id topic partition) s else none

  -- GetOffset, none for an error
  unfoldable pub get_offset_of : (group_id topic : String) → ℤ → S → Outcome (Option ℤ)
  get_offset_of group_id topic partition s =
      if db.is_open s && db.has_bucket s
      then stored_offset (db.get_key (offset_key group_id topic partition) s)
      else ret none

  -- the end of handleCommitOffset, on the store that NewNameServer has opened, or none
  unfoldable pub commit_offset :
      (group_id topic : String) → ℤ → ℤ → Option S → Response ℤ × Option S
  unfolding put_offset
  commit_offset group_id topic partition offset none = (success offset, none)
  commit_offset group_id topic partition offset (some s) =
      elim (put_offset group_id topic partition offset s) [
        | none ↦ (internal_error, some s)
        | some s' ↦ (success offset, some s')
      ]

  -- handleCommitOffset; what it replies is the offset
  unfoldable pub handle_commit_offset :
      (group_id topic : String) → (partition offset : Field) → Option S → Response ℤ × Option S
  unfolding commit_offset
  handle_commit_offset group_id topic partition offset store =
      if group_id == "" || topic == "" || is_absent partition || is_absent offset
      then (bad_request, store)
      else elim (int_of partition) [
        | none ↦ (bad_request, store)
        | some p ↦ elim (int_of offset) [
          | none ↦ (bad_request, store)
          | some o ↦ commit_offset group_id topic p o store
        ]
      ]

  -- the end of handleGetOffset
  unfoldable pub get_committed : (group_id topic : String) → ℤ → Option S → Outcome (Response ℤ)
  unfolding get_offset_of
  get_committed group_id topic partition none = ret (success (pos 0))
  get_committed group_id topic partition (some s) =
      map_outcome offset_reply (get_offset_of group_id topic partition s)

  -- handleGetOffset
  unfoldable pub handle_get_offset :
      (group_id topic : String) → (partition : Field) → Option S → Outcome (Response ℤ)
  unfolding get_committed
  handle_get_offset group_id topic partition store =
      if group_id == "" || topic == "" || is_absent partition
      then ret bad_request
      else elim (int_of partition) [
        | none ↦ ret bad_request
        | some p ↦ get_committed group_id topic p store
      ]

-- ===== src/NameServer/Offsets/Commits.antt =====
-- What handleGetOffset of cluster/go/nameserver/nameserver.go replies after handleCommitOffset.
use Prim.Native.String
use text.Mathlib.TextLemmas.{append_assoc, length-append}
use mathlib.Core.Path.{ap, sym}
use distributed_mq.Prelude.{
  if◌then◌else◌, str_iff, length, ℕ, ◌^◌, ◌<◌, String, ◌≡◌, refl, ◌∙◌, ◌≢◌, true, false, ◌&&◌,
  Option, none, some, List, arith,
}
use distributed_mq.Prelude.{nat_eq, string_eq}
use distributed_mq.Prelude.Int.{ℤ, pos, negsuc, signed, decimal_int}
use distributed_mq.Go.{ret}
use distributed_mq.Storage.{big_endian}
use distributed_mq.NameServer.Offsets.{
  BoltDb, int_of, bits64, offset_key, is_absent, offset_reply, stored_offset, put_offset,
  get_offset_of, handle_commit_offset, handle_get_offset,
}
use distributed_mq.Wire.Requests.{decode-big_endian8}
use distributed_mq.NameServer.{success, Field, absent, malformed, negative, number}

-- An Update that succeeds is seen by each later View, and touches its own key only.
pub record IsBolt (S : Type 0) (db : BoltDb S) : Type 0 where
  pub put_open :
      (key : String) (value : List ℕ) (s s' : S)
      → db.put_key key value s ≡ some s'
      → (db.is_open s ≡ true) × (db.is_open s' ≡ true)
  pub put_bucket :
      (key : String) (value : List ℕ) (s s' : S)
      → db.put_key key value s ≡ some s'
      → db.has_bucket s' ≡ db.has_bucket s
  pub put_same :
      (key : String) (value : List ℕ) (s s' : S)
      → db.put_key key value s ≡ some s'
      → db.get_key key s' ≡ some value
  pub put_other :
      (key other : String) (value : List ℕ) (s s' : S)
      → db.put_key key value s ≡ some s'
      → other ≢ key
      → db.get_key other s' ≡ db.get_key other s

-- an int64
abbrev pub InInt64 : ℤ → Type 0
InInt64 (pos n) = n < 2 ^ 63
InInt64 (negsuc n) = n < 2 ^ 63

signed-bits64 : (i : ℤ) → InInt64 i → signed 64 (bits64 i) ≡ i
signed-bits64 (pos n) h = ground arith
signed-bits64 (negsuc n) h = ground arith

bits64-small : (i : ℤ) → bits64 i < 2 ^ 64
bits64-small (pos n) = omega arith
bits64-small (negsuc n) = omega arith

eight_bytes : (i : ℤ) → length (big_endian 8 (bits64 i)) ≡ 8
unfolding big_endian
eight_bytes i = refl

offset_key-shared :
    (a b c : String) (partition : ℤ)
    → offset_key (String.◌++◌ a (String.◌++◌ "/" b)) c partition
      ≡ offset_key a (String.◌++◌ b (String.◌++◌ "/" c)) partition
unfolding offset_key
offset_key-shared a b c partition =
    let rest = String.◌++◌ "/" (decimal_int partition) in
    append_assoc a (String.◌++◌ "/" b) (String.◌++◌ "/" (String.◌++◌ c rest))
    ∙ ap (λ t. String.◌++◌ a t)
        (append_assoc "/" b (String.◌++◌ "/" (String.◌++◌ c rest))
          ∙ ap (λ t. String.◌++◌ "/" t)
              (sym (
                append_assoc b (String.◌++◌ "/" c) rest
                ∙ ap (λ t. String.◌++◌ b t) (append_assoc "/" c rest))))

named : (b c : String) → String.◌++◌ b (String.◌++◌ "/" c) ≢ ""
named b c empty =
    let one : String.count "/" ≡ 1 = refl in
    omega
      (arith, ap String.count empty, length-append b (String.◌++◌ "/" c), length-append "/" c, one)

int_of-present : (f : Field) (i : ℤ) → int_of f ≡ some i → is_absent f ≡ false
int_of-present absent i h = cc
int_of-present malformed i h = refl
int_of-present (negative n) i h = refl
int_of-present (number n) i h = refl

module _ {S : Type 0} (db : BoltDb S) (laws : IsBolt S db) where
  -- what a PutOffset that succeeds has done
  put_offset_lem :
      (group_id topic : String) (partition offset : ℤ) (s s' : S)
      → put_offset db group_id topic partition offset s ≡ some s'
      → (db.has_bucket s ≡ true)
        × (db.put_key (offset_key group_id topic partition) (big_endian 8 (bits64 offset)) s
            ≡ some s')
  unfolding put_offset
  put_offset_lem group_id topic partition offset s s' done = ground arith

  stored_offset-big_endian :
      (offset : ℤ)
      → InInt64 offset
      → stored_offset (some (big_endian 8 (bits64 offset))) ≡ ret (some offset)
  unfolding big_endian
  stored_offset-big_endian offset h =
      ap (λ n. ret (some (signed 64 n))) (decode-big_endian8 (bits64 offset) (bits64-small offset))
      ∙ ap (λ i. ret (some i)) (signed-bits64 offset h)

  get_offset_of-put_offset :
      (group_id topic : String) (partition offset : ℤ) (s s' : S)
      → InInt64 offset
      → put_offset db group_id topic partition offset s ≡ some s'
      → get_offset_of db group_id topic partition s' ≡ ret (some offset)
  unfolding get_offset_of
  get_offset_of-put_offset group_id topic partition offset s s' h done =
      let (there, put) = put_offset_lem group_id topic partition offset s s' done in
      let key = offset_key group_id topic partition in
      let value = big_endian 8 (bits64 offset) in
      let (_, opened) = laws.put_open key value s s' put in
      let bucket = laws.put_bucket key value s s' put ∙ there in
      let same = laws.put_same key value s s' put in
      rw (opened, bucket, same) (stored_offset-big_endian offset h)

  handle_commit_offset_lem :
      (group_id topic : String) (place field : Field) (partition offset : ℤ) (s s' : S)
      → group_id ≢ ""
      → topic ≢ ""
      → int_of place ≡ some partition
      → int_of field ≡ some offset
      → put_offset db group_id topic partition offset s ≡ some s'
      → handle_commit_offset db group_id topic place field (some s) ≡ (success offset, some s')
  unfolding handle_commit_offset
  handle_commit_offset_lem group_id topic place field partition offset s s' g t is_place is_offset
        done =
      ground (
        arith,
        str_iff group_id "",
        str_iff topic "",
        int_of-present place partition is_place,
        int_of-present field offset is_offset,
        is_place,
        is_offset,
        done,
      )

  handle_get_offset_lem :
      (group_id topic : String) (place : Field) (partition : ℤ) (s : S) (reply : Option ℤ)
      → group_id ≢ ""
      → topic ≢ ""
      → int_of place ≡ some partition
      → get_offset_of db group_id topic partition s ≡ ret reply
      → handle_get_offset db group_id topic place (some s) ≡ ret (offset_reply reply)
  unfolding handle_get_offset
  handle_get_offset_lem group_id topic place partition s reply g t is_place found = ground (
    arith,
    str_iff group_id "",
    str_iff topic "",
    int_of-present place partition is_place,
    is_place,
    found,
  )

  get_offset_of-other :
      (group_id topic other_group other_topic : String) (partition offset other : ℤ) (s s' : S)
      → offset_key other_group other_topic other ≢ offset_key group_id topic partition
      → put_offset db group_id topic partition offset s ≡ some s'
      → get_offset_of db other_group other_topic other s'
        ≡ get_offset_of db other_group other_topic other s
  unfolding get_offset_of
  get_offset_of-other group_id topic other_group other_topic partition offset other s s' differ
        done =
      let (there, put) = put_offset_lem group_id topic partition offset s s' done in
      let key = offset_key group_id topic partition in
      let value = big_endian 8 (bits64 offset) in
      let (was, opened) = laws.put_open key value s s' put in
      let bucket = laws.put_bucket key value s s' put in
      let same =
        laws.put_other key (offset_key other_group other_topic other) value s s' put differ in
      rw (was, opened, bucket, same) refl

  -- Where the database takes the write, handleCommitOffset replies with success, handleGetOffset for the
  -- same group, topic and partition then replies with the same offset, an int64, and what GetOffset
  -- returns for any other key is what it was.
  pub handle_commit_offset-handle_get_offset :
      (group_id topic other_group other_topic : String) (place field : Field)
      (partition offset other : ℤ) (s s' : S)
      → group_id ≢ ""
      → topic ≢ ""
      → int_of place ≡ some partition
      → int_of field ≡ some offset
      → InInt64 offset
      → put_offset db group_id topic partition offset s ≡ some s'
      → offset_key other_group other_topic other ≢ offset_key group_id topic partition
      → (handle_commit_offset db group_id topic place field (some s) ≡ (success offset, some s'))
        × (handle_get_offset db group_id topic place (some s') ≡ ret (success offset))
        × (get_offset_of db other_group other_topic other s'
            ≡ get_offset_of db other_group other_topic other s)
  handle_commit_offset-handle_get_offset group_id topic other_group other_topic place field
        partition offset other s s' g t is_place is_offset fits done differ =
      (
        handle_commit_offset_lem group_id topic place field partition offset s s' g t is_place
            is_offset done,
        handle_get_offset_lem group_id topic place partition s' (some offset) g t is_place
            (get_offset_of-put_offset group_id topic partition offset s s' fits done),
        get_offset_of-other group_id topic other_group other_topic partition offset other s s'
            differ done,
      )

  get_offset_of-key :
      (group_id topic other_group other_topic : String) (partition other : ℤ) (s : S)
      → offset_key group_id topic partition ≡ offset_key other_group other_topic other
      → get_offset_of db group_id topic partition s
        ≡ get_offset_of db other_group other_topic other s
  unfolding get_offset_of
  get_offset_of-key group_id topic other_group other_topic partition other s same =
      ap
        (λ key.
          if db.is_open s && db.has_bucket s then stored_offset (db.get_key key s) else ret none)
        same

  -- The key of a group "a/b" and a topic "c" is that of the group "a" and the topic "b/c": an offset that the
  -- one commits is what handleGetOffset replies to the other.
  pub key_shared :
      (a b c : String) (place : Field) (partition offset : ℤ) (s s' : S)
      → a ≢ ""
      → int_of place ≡ some partition
      → InInt64 offset
      → put_offset db (String.◌++◌ a (String.◌++◌ "/" b)) c partition offset s ≡ some s'
      → handle_get_offset db a (String.◌++◌ b (String.◌++◌ "/" c)) place (some s')
        ≡ ret (success offset)
  key_shared a b c place partition offset s s' a_there is_place fits done =
      let found =
        get_offset_of-put_offset (String.◌++◌ a (String.◌++◌ "/" b)) c partition offset s s' fits
          done in
      handle_get_offset_lem a (String.◌++◌ b (String.◌++◌ "/" c)) place partition s' (some offset)
        a_there (named b c) is_place
        (sym (
            get_offset_of-key (String.◌++◌ a (String.◌++◌ "/" b)) c a
              (String.◌++◌ b (String.◌++◌ "/" c)) partition partition s'
              (offset_key-shared a b c partition))
          ∙ found)

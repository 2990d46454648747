-- ===== src/Client/Replies.antt =====
-- How samples/go-consumer/main.go reads the responses of cluster/go/broker/broker.go.
use mathlib.Core.Path.{subst, sym}
use mathlib.Core.List.{append_assoc}
use distributed_mq.Prelude.{
  length, All, ℕ, suc, ◌^◌, ◌<◌, ◌≡◌, refl, ◌∙◌, none, some, List, [], ◌∷◌, ◌++◌, arith,
}
use distributed_mq.Prelude.{nat_eq, string_eq}
use distributed_mq.Prelude.Bytes.{read_full, decode, read_full-append}
use distributed_mq.Storage.{big_endian}
use distributed_mq.Wire.{
  magic, resp_success, resp_error, field, send_response, FetchedMessage, entry_bytes, entries_bytes,
  fetch_response,
}
use distributed_mq.Client.Consumer.{
  network_error, server_error, FetchResult, fetch_failed, with_message, read_messages, read_reply,
}
use distributed_mq.Wire.Requests.{decode-big_endian4, decode-big_endian8}

-- The numbers of a message fit their fields.
abbrev pub FitsEntry : FetchedMessage → Type 0
FitsEntry e = (e.offset < 2 ^ 64) × (e.timestamp < 2 ^ 64) × (length e.value < 2 ^ 32)

abbrev entry_header : (offset timestamp size : ℕ) → List ℕ
entry_header offset timestamp size =
    big_endian 8 offset ++ (big_endian 8 timestamp ++ big_endian 4 size)

entry_fields :
    (offset timestamp size : ℕ)
    → let h = entry_header offset timestamp size in
      (length h ≡ 20)
      × (field 0 8 h ≡ decode (big_endian 8 offset))
      × (field 8 8 h ≡ decode (big_endian 8 timestamp))
      × (field 16 4 h ≡ decode (big_endian 4 size))
unfolding big_endian
entry_fields offset timestamp size = (refl, refl, refl, refl)

abbrev reply_header : (mark count : ℕ) → List ℕ
reply_header mark count = magic ∷ resp_success ∷ (big_endian 8 mark ++ big_endian 4 count)

reply_fields :
    (mark count : ℕ)
    → let h = reply_header mark count in
      (length h ≡ 14)
      × (field 0 1 h ≡ magic)
      × (field 1 1 h ≡ resp_success)
      × (field 2 8 h ≡ decode (big_endian 8 mark))
      × (field 10 4 h ≡ decode (big_endian 4 count))
unfolding big_endian
reply_fields mark count = (refl, refl, refl, refl, refl)

-- Reading a header of a known length with anything behind it.
read_whole : (n : ℕ) (h rest : List ℕ) → length h ≡ n → read_full n (h ++ rest) ≡ some (h, rest)
read_whole n h rest size =
    subst (λ k. read_full k (h ++ rest) ≡ some (h, rest)) size (read_full-append h rest)

abbrev pub all_read : List FetchedMessage → ℕ → List ℕ → FetchResult
all_read es mark rest = record {
  messages = es;
  high_watermark = mark;
  error = none;
  conn = some rest;
}

read_messages-step :
    (count mark : ℕ) (s header after value rest : List ℕ)
    → read_full 20 s ≡ some (header, after)
    → read_full (field 16 4 header) after ≡ some (value, rest)
    → read_messages (suc count) mark s
      ≡ with_message
          (record { offset = field 0 8 header; timestamp = field 8 8 header; value = value })
          (read_messages count mark rest)
unfolding read_messages
read_messages-step count mark s header after value rest first second = ground (arith, first, second)

read_messages-entries :
    (es : List FetchedMessage) (mark : ℕ) (rest : List ℕ)
    → All FitsEntry es
    → read_messages (length es) mark (entries_bytes es ++ rest) ≡ all_read es mark rest
unfolding entries_bytes entry_bytes
read_messages-entries [] mark rest h = unfold read_messages in refl
read_messages-entries (e ∷ es) mark rest ((offset, timestamp, size), h) =
    let header = entry_header e.offset e.timestamp (length e.value) in
    let more = entries_bytes es ++ rest in
    let (whole, place, time, count) = entry_fields e.offset e.timestamp (length e.value) in
    let same : ((header ++ e.value) ++ entries_bytes es) ++ rest ≡ header ++ (e.value ++ more) =
      append_assoc (header ++ e.value) (entries_bytes es) rest ∙ append_assoc header e.value more in
    let len = count ∙ decode-big_endian4 (length e.value) size in
    let body =
      subst (λ n. read_full n (e.value ++ more) ≡ some (e.value, more)) (sym len)
        (read_full-append e.value more) in
    let step =
      read_messages-step (length es) mark (header ++ (e.value ++ more)) header (e.value ++ more)
        e.value more (read_whole 20 header (e.value ++ more) whole) body in
    rw
      (
        same,
        step,
        place,
        decode-big_endian8 e.offset offset,
        time,
        decode-big_endian8 e.timestamp timestamp,
        read_messages-entries es mark rest h,
      )
      refl

-- The consumer reads back the messages and the high watermark of a response to a fetch, and leaves what
-- follows on the connection, where the numbers fit 64 bits, each message has less than 2 ^ 32 bytes, and
-- there are less than 2 ^ 32 messages.
pub fetch_response-read_reply :
    (es : List FetchedMessage) (mark : ℕ) (rest : List ℕ)
    → All FitsEntry es
    → mark < 2 ^ 64
    → length es < 2 ^ 32
    → read_reply (fetch_response es mark ++ rest) ≡ all_read es mark rest
unfolding read_reply fetch_response
fetch_response-read_reply es mark rest h mark_fits count_fits =
    let header = reply_header mark (length es) in
    let after = entries_bytes es ++ rest in
    let (whole, is_magic, ok_status, mark_field, count) = reply_fields mark (length es) in
    let found = read_whole 14 header after whole in
    let counted = count ∙ decode-big_endian4 (length es) count_fits in
    let marked = mark_field ∙ decode-big_endian8 mark mark_fits in
    rw (append_assoc header (entries_bytes es) rest) (
      ground
        (arith, found, is_magic, ok_status, marked, counted, read_messages-entries es mark rest h))

-- An error response has two bytes, but the consumer reads fourteen first: twelve bytes of what follows are
-- lost from the connection, which it keeps; and where nothing follows it does not see the
-- error.
pub error_misread :
    (more rest : List ℕ)
    → length more ≡ 12
    → (read_reply (send_response resp_error "" 0 ++ (more ++ rest))
        ≡ fetch_failed server_error (some rest))
      × (read_reply (send_response resp_error "" 0) ≡ fetch_failed network_error none)
unfolding read_reply send_response
error_misread more rest twelve =
    let header = magic ∷ resp_error ∷ more in
    let found = read_whole 14 header rest (omega (arith, twelve)) in
    let is_magic : field 0 1 header ≡ magic = refl in
    let bad_status : field 1 1 header ≡ resp_error = refl in
    (ground (arith, found, is_magic, bad_status), unfold read_full in refl)

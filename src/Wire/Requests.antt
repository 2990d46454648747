-- ===== src/Wire/Requests.antt =====
-- handleClient of cluster/go/broker/broker.go reads the requests that clients write.
use mathlib.Core.Path.{subst, ap}
use mathlib.Core.List.{append_assoc}
use distributed_mq.Prelude.{
  length, All, ℕ, ◌^◌, ◌<◌, String, ◌≡◌, refl, ◌∙◌, some, List, ◌++◌, arith,
}
use distributed_mq.Prelude.{nat_eq, string_eq}
use distributed_mq.Prelude.Bytes.{
  bytes_of, text_of, text_of-bytes_of, read_full, decode, read_full-append,
}
use distributed_mq.Storage.{big_endian}
use distributed_mq.Wire.{
  magic, Request, request_header, request_bytes, field, read_body, next_request,
}

decode-big_endian2 : (n : ℕ) → n < 2 ^ 16 → decode (big_endian 2 n) ≡ n
unfolding big_endian
decode-big_endian2 n h = omega arith

pub decode-big_endian4 : (n : ℕ) → n < 2 ^ 32 → decode (big_endian 4 n) ≡ n
unfolding big_endian
decode-big_endian4 n h = omega arith

pub decode-big_endian8 : (n : ℕ) → n < 2 ^ 64 → decode (big_endian 8 n) ≡ n
unfolding big_endian
decode-big_endian8 n h = omega arith

-- The sizes and numbers of a request fit their fields, and its topic is a text of bytes.
abbrev pub Fits : Request → Type 0
Fits q =
    (length (bytes_of q.topic) < 2 ^ 16)
    × (q.partition < 2 ^ 32)
    × (length q.payload < 2 ^ 32)
    × All (λ b. b < 256) (bytes_of q.topic)

-- The fields of the header.
header_fields :
    (cmd_id topic_len partition data_len : ℕ)
    → let h = request_header cmd_id topic_len partition data_len in
      (length h ≡ 12)
      × (field 0 1 h ≡ magic)
      × (field 1 1 h ≡ cmd_id)
      × (field 2 2 h ≡ decode (big_endian 2 topic_len))
      × (field 4 4 h ≡ decode (big_endian 4 partition))
      × (field 8 4 h ≡ decode (big_endian 4 data_len))
unfolding big_endian
header_fields cmd_id topic_len partition data_len = (refl, refl, omega arith, refl, refl, refl)

-- Reading a header with anything behind it.
read_header :
    (cmd_id topic_len partition data_len : ℕ) (w : List ℕ)
    → let h = request_header cmd_id topic_len partition data_len in
      read_full 12 (h ++ w) ≡ some (h, w)
read_header cmd_id topic_len partition data_len w =
    let h = request_header cmd_id topic_len partition data_len in
    subst (λ n. read_full n (h ++ w) ≡ some (h, w))
      (header_fields cmd_id topic_len partition data_len).0 (read_full-append h w)

-- The body of a request after a header with the right fields.
read_body-written :
    (header payload rest : List ℕ) (topic : String)
    → field 2 2 header ≡ length (bytes_of topic)
    → field 8 4 header ≡ length payload
    → read_body header (bytes_of topic ++ (payload ++ rest))
      ≡ some (
        record {
          cmd_id = field 1 1 header;
          topic = text_of (bytes_of topic);
          partition = field 4 4 header;
          payload = payload;
        },
        rest,
      )
unfolding read_body
read_body-written header payload rest topic t d = ground (
  arith,
  t,
  d,
  read_full-append (bytes_of topic) (payload ++ rest),
  read_full-append payload rest,
)

-- handleClient reads back the request that a client writes, and goes on with what follows it, where
-- the topic has less than 2 ^ 16 bytes and the payload less than 2 ^ 32.
pub request_bytes-next_request :
    (q : Request) (rest : List ℕ) → Fits q → next_request (request_bytes q ++ rest) ≡ some (q, rest)
unfolding next_request request_bytes
request_bytes-next_request q rest (topic_fits, partition_fits, payload_fits, ascii) =
    let t = bytes_of q.topic in
    let h = request_header q.cmd_id (length t) q.partition (length q.payload) in
    let (_, is_magic, cmd, topic_len, part, data_len) =
      header_fields q.cmd_id (length t) q.partition (length q.payload) in
    let body =
      read_body-written h q.payload rest q.topic
        (topic_len ∙ decode-big_endian2 (length t) topic_fits)
        (data_len ∙ decode-big_endian4 (length q.payload) payload_fits) in
    let same : (h ++ (t ++ q.payload)) ++ rest ≡ h ++ (t ++ (q.payload ++ rest)) =
      append_assoc h (t ++ q.payload) rest ∙ ap (λ x. h ++ x) (append_assoc t q.payload rest) in
    rw same (
      ground (
        arith,
        read_header q.cmd_id (length t) q.partition (length q.payload) (t ++ (q.payload ++ rest)),
        is_magic,
        cmd,
        part,
        decode-big_endian4 q.partition partition_fits,
        body,
        text_of-bytes_of q.topic ascii,
      ))

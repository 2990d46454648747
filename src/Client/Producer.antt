-- ===== src/Client/Producer.antt =====
-- The producer, samples/go-producer/main.go: sendMessage, its errors, and the batches of main. A
-- connection that could not be made again is nil.
use distributed_mq.Prelude.{
  ltb, if◌then◌else◌, ◌==◌, length, take, ℕ, ◌+◌, String, Bool, true, false, not, Option, none,
  some, List, [], ◌∷◌,
}
use distributed_mq.Prelude.{nat_eq, string_eq}
use distributed_mq.Prelude.Bytes.{text_of}
use distributed_mq.Go.{ret, panic, Exec, ◌>>◌}
use distributed_mq.Wire.{magic, cmd_produce, resp_success, resp_redirect, resp_error, Request}

-- what sendMessage writes
unfoldable pub produce_request : String → ℕ → List ℕ → (acks : ℕ) → Request
produce_request topic partition payload acks = record {
  cmd_id = cmd_produce;
  topic = topic;
  partition = partition;
  payload = acks ∷ payload;
}

-- what sendMessage returns: nil, or an error, here by its text
pub data SendResult : Type 0 where
  sent : SendResult
  network_error invalid_response invalid_magic : SendResult
  redirect_no_address redirect_bad_length : SendResult
  redirect : String → SendResult
  server_error unknown_status : SendResult

-- the case of RespRedirect, by the bytes after the status
abbrev pub parse_redirect : List ℕ → SendResult
parse_redirect [] = redirect_no_address
parse_redirect (leader_len ∷ rest) =
    if ltb (length rest) leader_len
    then redirect_bad_length
    else redirect (text_of (take leader_len rest))

-- sendMessage from the response on, by what one Read of at most 1024 bytes gives; none for its error
unfoldable pub parse_response : Option (List ℕ) → SendResult
parse_response none = network_error
parse_response (some []) = invalid_response
parse_response (some (first ∷ [])) = invalid_response
parse_response (some (first ∷ status ∷ rest)) =
    if not (first == magic)
    then invalid_magic
    else if status == resp_success
    then sent
    else if status == resp_redirect
    then parse_redirect rest
    else if status == resp_error
    then server_error
    else unknown_status

-- isRedirectError, which cuts "redirect:" off the text of the error: three of the texts begin so
abbrev pub is_redirect_error : SendResult → Option String
is_redirect_error (redirect addr) = if addr == "" then none else some addr
is_redirect_error redirect_no_address = some " no leader address"
is_redirect_error redirect_bad_length = some " invalid leader address length"
is_redirect_error _ = none

-- a Response of main
pub data SendStatus : Type 0 where
  succeeded errored : SendStatus
  redirected : String → SendStatus

abbrev pub status_of : SendResult → SendStatus
status_of sent = succeeded
status_of result = elim (is_redirect_error result) [ none ↦ errored | some addr ↦ redirected addr ]

pub record Counts : Type 0 where
  pub success : ℕ
  pub failed : ℕ
  pub redirects : ℕ

-- A message of a batch: what its first sending returns, and what a second one would.
abbrev pub Sending : Type 0
Sending = SendResult × SendResult

-- `needRedirect` and `newLeader`
unfoldable pub new_leader : List Sending → Option String
new_leader [] = none
new_leader ((first, again) ∷ batch) = elim (status_of first) [
  | redirected addr ↦ some addr
  | succeeded ↦ new_leader batch
  | errored ↦ new_leader batch
]

abbrev pub is_sent : SendResult → Bool
is_sent sent = true
is_sent _ = false

abbrev pub count_result : SendResult → Counts → Counts
count_result sent c = record c { success = c.success + 1 }
count_result _ c = record c { failed = c.failed + 1 }

-- the loop where no redirect is needed
unfoldable pub count_all : List Sending → Counts → Counts
count_all [] c = c
count_all ((first, again) ∷ batch) c = count_all batch (count_result first c)

-- the loop over the new connection
unfoldable pub count_again : List Sending → Counts → Counts
count_again [] c = c
count_again ((first, again) ∷ batch) c =
    count_again batch (count_result (if is_sent first then sent else again) c)

-- the loop where the new connection failed
unfoldable pub count_failed : List Sending → Counts → Counts
count_failed [] c = c
count_failed ((first, again) ∷ batch) c =
    count_failed batch (if is_sent first then c else record c { failed = c.failed + 1 })

abbrev pub one_redirect : Counts → Counts
one_redirect c = record c { redirects = c.redirects + 1 }

-- the counts, and whether the connection is not nil
abbrev pub Progress : Type 0
Progress = Counts × Bool

-- a round of the loop of main over a batch; `reconnects` says whether the new connection is made. A nil
-- connection is a panic.
unfoldable pub send_batch : (reconnects : Bool) → List Sending → Exec Progress (Unit {0})
unfolding new_leader count_all count_again count_failed
send_batch reconnects batch (c, false) = (panic, (c, false))
send_batch reconnects batch (c, true) = elim (new_leader batch) [
  | none ↦ (ret tt, (count_all batch c, true))
  | some addr ↦
      if reconnects
      then (ret tt, (count_again batch (one_redirect c), true))
      else (ret tt, (count_failed batch (one_redirect c), false))
]

-- the loop
unfoldable pub send_all : List (Bool × List Sending) → Exec Progress (Unit {0})
unfolding send_batch
send_all [] p = (ret tt, p)
send_all ((reconnects, batch) ∷ batches) p = (send_batch reconnects batch >> send_all batches) p

abbrev pub no_counts : Counts
no_counts = record { success = 0; failed = 0; redirects = 0 }

-- ===== src/Broker/Server/Serve.antt =====
-- The loop of handleClient in cluster/go/broker/broker.go ends, and serves what clients write.
use mathlib.Core.Path.{sym, subst}
use distributed_mq.Prelude.{
  Bool-cases, Option-cases, match-elim, ◌==◌, length, All, ℕ, zero, suc, ◌+◌, ◌*◌, ◌≤◌, ◌<◌, ◌≡◌,
  refl, ◌≢◌, inl, inr, some, List, [], ◌∷◌, ◌++◌, arith,
}
use distributed_mq.Prelude.{nat_eq, string_eq}
use distributed_mq.Go.{Outcome, ret, panic, blocked}
use distributed_mq.Wire.{magic, Request, request_bytes, field, read_body, next_request}
use distributed_mq.Wire.Requests.{Fits, request_bytes-next_request}
use distributed_mq.Broker.{Broker}
use distributed_mq.Broker.Server.{
  dispatch, World, Ending, closed, crashed, stuck, out_of_fuel, next_round, handle_client,
}
use distributed_mq.Broker.Server.Handled.{Handled, dispatch-Handled}
use distributed_mq.Prelude.Bytes.{read_full, read_full-length}

read_body-length :
    (header after rest : List ℕ) (q : Request)
    → read_body header after ≡ some (q, rest)
    → length rest ≤ length after
unfolding read_body
read_body-length header after rest q h = elim (Option-cases (read_full (field 2 2 header) after)) [
  | inl short ↦ absurd (ground arith)
  | inr ((topic, after'), found) ↦ elim (Option-cases (read_full (field 8 4 header) after')) [
    | inl short ↦ absurd (ground arith)
    | inr ((payload, rest'), more) ↦ ground (
      arith,
      read_full-length (field 2 2 header) after topic after' found,
      read_full-length (field 8 4 header) after' payload rest' more,
    )
  ]
]

-- Each round takes a header at least.
next_request-length :
    (s rest : List ℕ) (q : Request) → next_request s ≡ some (q, rest) → 12 + length rest ≤ length s
unfolding next_request
next_request-length s rest q h = elim (Option-cases (read_full 12 s)) [
  | inl short ↦ absurd (ground arith)
  | inr ((header, after), found) ↦ elim (Bool-cases (field 0 1 header == magic)) [
    | inl good ↦
        ground
          (arith, read_full-length 12 s header after found, read_body-length header after rest q)
    | inr bad ↦ absurd (ground arith)
  ]
]

next_round-ends :
    (next : List ℕ → Broker → Ending × Broker) (r : Outcome (List ℕ) × Broker)
    → ((bytes : List ℕ) (b : Broker) → (next bytes b).0 ≢ out_of_fuel)
    → (next_round next r).0 ≢ out_of_fuel
next_round-ends next (ret bytes, b) h = h bytes b
next_round-ends next (panic, b) h = λ e. cc
next_round-ends next (blocked, b) h = λ e. cc

-- handleClient returns, whatever the other side sends before it closes the connection, unless a
-- handler panics or blocks for ever: with one unit of fuel for each 12 bytes and one more, the loop
-- does not run out of it.
pub handle_client_ends :
    (fuel number : ℕ) (w : World) (stream sent : List ℕ) (b : Broker)
    → length stream < 12 * fuel
    → (handle_client fuel w number stream sent b).0 ≢ out_of_fuel
unfolding handle_client
handle_client_ends zero number w stream sent b h = absurd (omega arith)
handle_client_ends (suc fuel) number w stream sent b h =
    match-elim (λ (x : Ending × Broker). x.0 ≢ out_of_fuel) (next_request stream) (closed sent, b) _
      (λ _ e. cc)
      (λ found asked.
        next_round-ends _ (dispatch (w.env_at number) (w.between_at number) found.0 b) (λ bytes b'.
          handle_client_ends fuel (number + 1) w found.1 (sent ++ bytes) b'
            (omega (arith, next_request-length stream found.1 found.0 asked))))

handle_client-found :
    (fuel number : ℕ) (w : World) (stream rest sent : List ℕ) (q : Request) (b : Broker)
    → next_request stream ≡ some (q, rest)
    → handle_client (suc fuel) w number stream sent b
      ≡ next_round
          (λ bytes. handle_client fuel w (number + 1) rest (sent ++ bytes))
          (dispatch (w.env_at number) (w.between_at number) q b)
unfolding handle_client
handle_client-found fuel number w stream rest sent q b found = rw (found, handle_client) refl

handle_client-nil :
    (fuel number : ℕ) (w : World) (sent : List ℕ) (b : Broker)
    → handle_client (suc fuel) w number [] sent b ≡ (closed sent, b)
unfolding handle_client next_request read_full
handle_client-nil fuel number w sent b = refl

-- How a broker serves requests, from the request of the given number on, with the bytes that were written
-- so far: each is handled and its response written, until all are and the connection is closed, or
-- until a handler panics or blocks for ever.
pub data Served (w : World) : ℕ → List Request → List ℕ → Broker → Ending × Broker → Type 0 where
  all_answered :
      {number : ℕ} {sent : List ℕ} {b : Broker} → Served w number [] sent b (closed sent, b)
  answered :
      {number : ℕ} {q : Request} {qs : List Request} {sent bytes : List ℕ} {b b' : Broker}
      {r : Ending × Broker}
      → Handled (w.env_at number) (w.between_at number) q b (ret bytes, b')
      → Served w (number + 1) qs (sent ++ bytes) b' r
      → Served w number (q ∷ qs) sent b r
  panicked :
      {number : ℕ} {q : Request} {qs : List Request} {sent : List ℕ} {b b' : Broker}
      → Handled (w.env_at number) (w.between_at number) q b (panic, b')
      → Served w number (q ∷ qs) sent b (crashed, b')
  waits_for_ever :
      {number : ℕ} {q : Request} {qs : List Request} {sent : List ℕ} {b b' : Broker}
      → Handled (w.env_at number) (w.between_at number) q b (blocked, b')
      → Served w number (q ∷ qs) sent b (stuck, b')

next_round-Served :
    (w : World) (number : ℕ) (q : Request) (qs : List Request) (sent : List ℕ) (b : Broker)
    (next : List ℕ → Broker → Ending × Broker) (r : Outcome (List ℕ) × Broker)
    → Handled (w.env_at number) (w.between_at number) q b r
    → ((bytes : List ℕ) (b' : Broker) → Served w (number + 1) qs (sent ++ bytes) b' (next bytes b'))
    → Served w number (q ∷ qs) sent b (next_round next r)
next_round-Served w number q qs sent b next (ret bytes, b') handled rest =
    answered handled (rest bytes b')
next_round-Served w number q qs sent b next (panic, b') handled rest = panicked handled
next_round-Served w number q qs sent b next (blocked, b') handled rest = waits_for_ever handled

-- What a client writes that sends requests one after another.
pub all_requests : List Request → List ℕ
all_requests [] = []
all_requests (q ∷ qs) = request_bytes q ++ all_requests qs

-- On a connection on which a client writes requests that fit their frames and then closes it,
-- handleClient calls the handler of each of them by the byte of its command, once and in order, with the
-- topic, partition and payload that the client meant, and writes the responses one after another;
-- either all are answered and it returns, or it ends in the first handler that panics or blocks for
-- ever.
pub handle_client_serves :
    (fuel number : ℕ) (w : World) (qs : List Request) (sent : List ℕ) (b : Broker)
    → All Fits qs
    → length qs < fuel
    → Served w number qs sent b (handle_client fuel w number (all_requests qs) sent b)
unfolding all_requests
handle_client_serves zero number w qs sent b h enough = absurd (omega arith)
handle_client_serves (suc fuel) number w [] sent b h enough =
    subst (Served w number [] sent b) (sym (handle_client-nil fuel number w sent b)) all_answered
handle_client_serves (suc fuel) number w (q ∷ qs) sent b (fits, h) enough =
    subst (Served w number (q ∷ qs) sent b)
      (sym (
        handle_client-found fuel number w (all_requests (q ∷ qs)) (all_requests qs) sent q b
          (request_bytes-next_request q (all_requests qs) fits)))
      (next_round-Served w number q qs sent b
        (λ bytes. handle_client fuel w (number + 1) (all_requests qs) (sent ++ bytes))
        (dispatch (w.env_at number) (w.between_at number) q b)
        (dispatch-Handled (w.env_at number) (w.between_at number) q b)
        (λ bytes b'.
          handle_client_serves fuel (number + 1) w qs (sent ++ bytes) b' h (omega arith)))

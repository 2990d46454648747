-- ===== src/Tracing/Bounds.antt =====
-- The tracer of cluster/go/broker/tracing/tracing.go stays within its limit.
use distributed_mq.Prelude.{
  Option-cases, length, ℕ, ◌≤◌, ◌<◌, String, ◌≡◌, inl, inr, some, [], ◌∷◌, ◌++◌, arith,
}
use distributed_mq.Prelude.{nat_eq, string_eq}
use distributed_mq.Prelude.Int.{ℤ}
use distributed_mq.Prelude.Map.{Map, lookup, insert, length-insert-le, length-insert-old}
use distributed_mq.Oldest.{delete-oldest}
use distributed_mq.Tracing.{
  TraceEvent, TraceContext, Tracer, expire_traces, cleanup_traces, trace_created, evict_trace,
  Clock, new_context, start_trace, add_event, update_offset,
}

-- No more traces than the limit.
abbrev pub Within : Tracer → Type 0
Within t = (0 < t.max_traces) × (length t.traces ≤ t.max_traces)

pub data Step (t : Tracer) : Tracer → Type 0 where
  started :
      (subject : String) (partition seen : ℕ) (clock : Clock)
      → Step t (start_trace subject partition seen clock t).1
  added : (id : String) (event : TraceEvent) → Step t (add_event id event t)
  moved : (id : String) (place : ℤ) → Step t (update_offset id place t)
  cleaned : (now : ℕ) → Step t (cleanup_traces now t)

length-expire_traces-le :
    (now : ℕ) (m : Map String TraceContext) → length (expire_traces now m) ≤ length m
unfolding expire_traces
length-expire_traces-le now [] = omega arith
length-expire_traces-le now ((id, ctx) ∷ m) = ground (arith, length-expire_traces-le now m)

evict_trace-lt :
    (t : Tracer)
    → Within t
    → ((evict_trace t).max_traces ≡ t.max_traces) × (length (evict_trace t).traces < t.max_traces)
unfolding evict_trace
evict_trace-lt t (some_room, within) = ground (arith, delete-oldest trace_created t.traces)

start_trace-Within :
    (subject : String) (partition seen : ℕ) (clock : Clock) (t : Tracer)
    → Within t
    → Within (start_trace subject partition seen clock t).1
unfolding start_trace
start_trace-Within subject partition seen clock t h =
    let ctx = new_context subject partition seen clock t.expire_after in
    ground (arith, evict_trace-lt t h, length-insert-le ctx.trace_id ctx (evict_trace t).traces)

-- A trace that is there is replaced.
replaced-le :
    (id : String) (old new : TraceContext) (m : Map String TraceContext) (limit : ℕ)
    → lookup id m ≡ some old
    → length m ≤ limit
    → length (insert id new m) ≤ limit
replaced-le id old new m limit there within = omega (arith, length-insert-old id new old m there)

-- Every method of a tracer within its limit leaves it within its limit.
pub Step-Within : (t t' : Tracer) → Step t t' → Within t → Within t'
unfolding add_event update_offset cleanup_traces
Step-Within t t' (started subject partition seen clock) h =
    start_trace-Within subject partition seen clock t h
Step-Within t t' (added id event) h = elim (Option-cases (lookup id t.traces)) [
  | inl missing ↦ ground arith
  | inr (ctx, there) ↦
      let new = record ctx { events = ctx.events ++ event ∷ [] } in
      ground (arith, replaced-le id ctx new t.traces t.max_traces there)
]
Step-Within t t' (moved id place) h = elim (Option-cases (lookup id t.traces)) [
  | inl missing ↦ ground arith
  | inr (ctx, there) ↦
      let new = record ctx { offset = place } in
      ground (arith, replaced-le id ctx new t.traces t.max_traces there)
]
Step-Within t t' (cleaned now) h = ground (arith, length-expire_traces-le now t.traces)

-- ===== src/Tracing.antt =====
-- The traces of a broker, cluster/go/broker/tracing/tracing.go. Each method holds the mutex from its
-- start to its end, so that it is one step; StartTrace reads the number of traces before it locks the
-- mutex. The contexts are objects that the map points to and that only these methods write. A time
-- is a number of nanoseconds, and 0 is the zero time.
pub mod Bounds
use distributed_mq.Prelude.{
  ltb, leb, if◌then◌else◌, length, ℕ, ◌+◌, ◌-◌, String, Option, none, some, List, [], ◌∷◌, ◌++◌,
}
use distributed_mq.Prelude.{nat_eq, string_eq}
use distributed_mq.Prelude.Int.{ℤ, pos}
use distributed_mq.Prelude.Text.{decimal, dashed}
use distributed_mq.Prelude.Map.{Map, values, lookup, insert, delete}
use Prim.Native.String
use distributed_mq.Oldest.{scan_oldest}

pub data TraceEventType : Type 0 where
  produce receive persist replicate commit consume ack retry dlq delayed dispatch : TraceEventType

-- a value of the details: a string, or an int or int64
pub data Detail : Type 0 where
  text : String → Detail
  number : ℤ → Detail

pub record TraceEvent : Type 0 where
  pub timestamp : ℕ
  pub event_type : TraceEventType
  pub service : String
  pub node_id : String
  pub details : Map String Detail

pub record TraceContext : Type 0 where
  pub trace_id : String
  pub topic : String
  pub partition : ℕ
  pub offset : ℤ
  pub events : List TraceEvent
  pub created : ℕ
  pub expires : ℕ

pub record Tracer : Type 0 where
  pub traces : Map String TraceContext
  pub max_traces : ℕ
  pub expire_after : ℕ

-- NewTracer
abbrev pub new_tracer : ℕ → ℕ → Tracer
new_tracer max_traces expire_after = record {
  traces = [];
  max_traces = max_traces;
  expire_after = expire_after;
}

-- the loop of cleanupExpired; Go allows the deletion of the entry that `range` is at
unfoldable pub expire_traces : ℕ → Map String TraceContext → Map String TraceContext
expire_traces now [] = []
expire_traces now ((id, ctx) ∷ m) =
    let rest = expire_traces now m in if ltb ctx.expires now then rest else (id, ctx) ∷ rest

-- one tick of cleanupExpired
unfoldable pub cleanup_traces : ℕ → Tracer → Tracer
unfolding expire_traces
cleanup_traces now t = record t { traces = expire_traces now t.traces }

-- `fmt.Sprintf("%d-%d-%d", ...)`, with the number of traces that StartTrace read without the mutex
unfoldable pub new_trace_id : (nanos partition seen : ℕ) → String
new_trace_id nanos partition seen =
    String.◌++◌ (dashed (decimal nanos) partition) (String.◌++◌ "-" (decimal seen))

abbrev pub trace_created : TraceContext → ℕ
trace_created ctx = ctx.created

-- the eviction of the oldest trace
unfoldable pub evict_trace : Tracer → Tracer
evict_trace t =
    if leb t.max_traces (length t.traces)
    then record t { traces = delete (scan_oldest trace_created t.traces ("", 0)).0 t.traces }
    else t

-- the clock of a StartTrace: its three reads
pub record Clock : Type 0 where
  pub for_id : ℕ
  pub for_created : ℕ
  pub for_expires : ℕ

abbrev pub new_context : String → ℕ → ℕ → Clock → ℕ → TraceContext
new_context topic partition seen clock expire_after = record {
  trace_id = new_trace_id clock.for_id partition seen;
  topic = topic;
  partition = partition;
  offset = pos 0;
  events = [];
  created = clock.for_created;
  expires = clock.for_expires + expire_after;
}

-- StartTrace
unfoldable pub start_trace : String → ℕ → (seen : ℕ) → Clock → Tracer → TraceContext × Tracer
unfolding evict_trace
start_trace topic partition seen clock t =
    let ctx = new_context topic partition seen clock t.expire_after in
    (ctx, record (evict_trace t) { traces = insert ctx.trace_id ctx (evict_trace t).traces })

-- GetTrace
abbrev pub get_trace : String → Tracer → Option TraceContext
get_trace id t = lookup id t.traces

-- AddEvent, with the event and its timestamp
unfoldable pub add_event : String → TraceEvent → Tracer → Tracer
add_event id event t = elim (lookup id t.traces) [
  | none ↦ t
  | some ctx ↦ record t {
    traces = insert id (record ctx { events = ctx.events ++ event ∷ [] }) t.traces;
  }
]

-- UpdateOffset
unfoldable pub update_offset : String → ℤ → Tracer → Tracer
update_offset id offset t = elim (lookup id t.traces) [
  | none ↦ t
  | some ctx ↦ record t { traces = insert id (record ctx { offset = offset }) t.traces }
]

-- GetActiveTraces
abbrev pub get_active_traces : Tracer → List TraceContext
get_active_traces t = values t.traces

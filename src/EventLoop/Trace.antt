-- ===== src/EventLoop/Trace.antt =====
-- The canonical trace of src/event_loop.cpp and its hash.
use cpp_market_replay_engine.Base.Fnv.{fnv1a64}
use cpp_market_replay_engine.Base.Text.{Text, codes, decimal}
use cpp_market_replay_engine.EventLoop.{TraceEventKind, TraceEventClass, EventTraceEntry}
use cpp_market_replay_engine.Base.{
  if◌then◌else◌, market_entry_kind, internal_entry_kind, Result, err, ok, ◌>>=◌, ℕ, Bool, true,
  false, not, List, [], ◌∷◌, ◌++◌,
}

abbrev pub trace_kind_name : TraceEventKind → Text
trace_kind_name TraceEventKind.book_update = codes "book_update"
trace_kind_name TraceEventKind.trade = codes "trade"
trace_kind_name TraceEventKind.timer = codes "timer"
trace_kind_name TraceEventKind.order_arrival = codes "order_arrival"
trace_kind_name TraceEventKind.cancel_arrival = codes "cancel_arrival"
trace_kind_name TraceEventKind.user = codes "user"

-- The kind is that of a historical event.
abbrev pub is_market_kind : TraceEventKind → Bool
is_market_kind TraceEventKind.book_update = true
is_market_kind TraceEventKind.trade = true
is_market_kind _ = false

-- What both forms of a line share, behind the class.
abbrev pub trace_fields : EventTraceEntry → Text
trace_fields entry =
    decimal entry.timestamp_ns
    ++ (b',' ∷ (trace_kind_name entry.kind ++ (b',' ∷ decimal entry.sequence_id)))

abbrev trace_line_of : TraceEventClass → EventTraceEntry → Result Text
trace_line_of TraceEventClass.market entry =
    if not (is_market_kind entry.kind)
    then err market_entry_kind
    else ok (codes "M," ++ trace_fields entry)
trace_line_of TraceEventClass.internal entry =
    if is_market_kind entry.kind
    then err internal_entry_kind
    else ok (codes "I," ++ (trace_fields entry ++ (b',' ∷ entry.label)))

unfoldable pub canonical_trace_line : EventTraceEntry → Result Text
canonical_trace_line entry = trace_line_of entry.event_class entry

unfoldable pub canonical_trace : List EventTraceEntry → Result Text
canonical_trace [] = ok []
canonical_trace (entry ∷ trace) = canonical_trace_line entry >>= λ line.
    canonical_trace trace >>= λ text. ok (line ++ (10 ∷ text))

unfoldable pub trace_hash : List EventTraceEntry → Result ℕ
trace_hash trace = canonical_trace trace >>= λ text. ok (fnv1a64 text)

-- ===== src/Web/Context.antt =====
-- web/mux/context.go: the values that a request's context points to. A context holds a pointer
-- into `World.values`, so all holders of the context see a write through it.
pub mod Laws
use httper.Web.World.{Span, Ctx, BaseValues, World, Act, done}
use httper.Base.{ℕ, String, Option, none, some, List, [], ◌∷◌, ◌++◌, length, get_elem?, set, ℤ, pos}

abbrev pub empty_uuid : String
empty_uuid = "00000000-0000-0000-0000-000000000000"

-- The tracer that noop.NewTracerProvider().Tracer returns.
abbrev pub noop_tracer : ℕ
noop_tracer = 0

-- ctx.Value(base).(*BaseValues), the pointer followed
abbrev pub value : Ctx → World → Option BaseValues
value ctx w = elim ctx.base [ none ↦ none | some p ↦ get_elem? w.values p ]

abbrev pub with_status : ℤ → List BaseValues → ℕ → Option BaseValues → List BaseValues
with_status code vs p none = vs
with_status code vs p (some v) = set vs p (record v { status_code = code })

unfoldable pub set_status_code : Ctx → ℤ → Act (Unit {0})
set_status_code ctx code w = elim ctx.base [
  | none ↦ (done tt, w)
  | some p ↦ (done tt, record w { values = with_status code w.values p (get_elem? w.values p) })
]

-- `time_now` is the time of the call.
unfoldable pub get_values : ℕ → Ctx → World → BaseValues
get_values time_now ctx w = elim (value ctx w) [
  | some v ↦ v
  | none ↦ record {
    trace_id = empty_uuid;
    now = time_now;
    tracer = some noop_tracer;
    status_code = pos 0;
  }
]

unfoldable pub get_trace_id : Ctx → World → String
get_trace_id ctx w = elim (value ctx w) [ some v ↦ v.trace_id | none ↦ empty_uuid ]

-- `start` is Tracer.Start of the tracing library: the tracer, the context and the span's name.
unfoldable pub add_span : (ℕ → Ctx → String → Ctx × Span) → Ctx → String → World → Ctx × Span
add_span start ctx span_name w = elim (value ctx w) [
  | none ↦ (ctx, ctx.span)
  | some v ↦ elim v.tracer [ none ↦ (ctx, ctx.span) | some t ↦ start t ctx span_name ]
]

-- setValues(ctx, &v), with the allocation of v
unfoldable pub set_values : Ctx → BaseValues → Act Ctx
set_values ctx v w =
    (done (record ctx { base = some (length w.values) }), record w { values = w.values ++ v ∷ [] })

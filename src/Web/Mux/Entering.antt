-- ===== src/Web/Mux/Entering.antt =====
-- The state in which a registered handler begins.
use httper.Base.{
  get_elem?-append_length, ◌≡◌, refl, ap, ◌∙◌, Option, some, [], ◌∷◌, ◌++◌, if◌then◌else◌, length,
  get_elem?, pos,
}
use httper.GoError.{GoError}
use httper.Web.World.{Span, Ctx, Request, BaseValues, World, Result, and_then, Handler}
use httper.Web.Context.{set_values, value}
use httper.Web.Mux.{App, Router, log_error, start_span, handle_request}

module _ (router : Router) (a : App) (r : Request) (w : World) where
  abbrev spanned : Ctx × Span
  spanned = router.start a.tracer r.ctx "mux.handler"

  -- The header with what the propagator injects
  abbrev pub traced : World
  traced = record w {
    response = record w.response { header = router.inject spanned.0 w.response.header };
  }

  abbrev first_values : BaseValues
  first_values = record {
    trace_id = if spanned.1.is_valid then spanned.1.trace_id else router.new_uuid traced;
    now = router.time_now traced;
    tracer = some a.tracer;
    status_code = pos 0;
  }

  -- The context and the state that the handler is given
  abbrev pub entered_ctx : Ctx
  entered_ctx = record spanned.0 { base = some (length w.values) }

  abbrev pub entered : World
  entered = record traced { values = w.values ++ first_values ∷ [] }

  pub value-entered :
      (e : World) → e.values ≡ entered.values → value entered_ctx e ≡ some first_values
  value-entered e same =
      ap (λ vs. get_elem? vs (length w.values)) same ∙ get_elem?-append_length w.values first_values

  abbrev pub after_handler : Result (Option GoError) × World → Result (Unit {0}) × World
  after_handler x = and_then x.0 (log_error "handle") x.1

  pub handle_request-entered :
      (handler : Handler)
      → handle_request router a handler r w
        ≡ after_handler (handler entered_ctx (record r { ctx = entered_ctx }) entered)
  unfolding handle_request start_span set_values
  handle_request-entered handler = refl

-- ===== src/Web/Request/Answers.antt =====
-- What the client of a handler sees that returns the error of Decode.
use httper.Web.Middleware.Errors.Laws.{fields-respond_json}
use httper.Web.Middleware.Stack.{
  IsRoute, Served, serve_http-Served, start_ctx, start_request, begun,
}
use httper.Base.{refl, ap, ◌∙◌, some, ℕ, String, ◌≡◌, Bool, true, Option, none, List, map, pos}
use httper.Web.Context.{value}
use httper.Web.Mux.{Router, Table, App}
use httper.Web.Mux.Registering.{Registration}
use httper.Web.World.{Middleware, BaseValues, Request, World, Handler, done, fields_json}
use httper.GoError.{field_errors, as_field_errors, GoError, FieldError}
use httper.Web.Errs.{Caller}
use httper.Web.Respond.Laws.{IsUnsent}
use httper.Web.Validate.{Verdict, Violation, violated, field_of, validate}
use httper.Web.Request.{decode}

module _ (fields_text : List FieldError → String) (caller : Caller) (time_now : ℕ) {V : Type 0}
    (json_decode : Bool → V → Option GoError × V) (check : V → Verdict) where
  decode-violated :
      (val v : V) (vs : List Violation)
      → json_decode true val ≡ (none, v)
      → check v ≡ violated vs
      → (decode json_decode check val).0 ≡ some (field_errors (map field_of vs))
  unfolding decode validate
  decode-violated val v vs reads finds = rw (reads, finds) refl

  module _ (stack : World → String) (router : Router) (handler : Handler) (r : Request) (w : World)
      (t : Table) (mw : List Middleware) (route : Registration) (a : App) (t₀ t' : Table) where
    -- An app of New with Logger, Errors and Panics, in any order, and no other middleware serves a
    -- request for which the mux chooses a route that was registered under a new pattern, on the app
    -- or through Mount and Use, over a connection that works: where the handler, with any
    -- middleware around it that Use added or that is its own, returns the error of Decode, before
    -- it wrote anything and with its values still stored, on a body that decodes to a value of
    -- which the validator finds violations, the client gets a 422 whose JSON has, for each
    -- violation in order, the field error that Validate makes of it, and the last line of the log
    -- is Logger's with status 422.
    pub serve_http-decode :
        (w' : World) (val x : V) (vs : List Violation) {v : BaseValues}
        → IsRoute fields_text caller time_now stack router handler r w t mw route a t₀ t'
        → handler
            (start_ctx fields_text caller time_now stack router handler r w)
            (start_request fields_text caller time_now stack router handler r w)
            (begun fields_text caller time_now stack router handler r w)
          ≡ (done (decode json_decode check val).0, w')
        → IsUnsent w'
        → value (start_ctx fields_text caller time_now stack router handler r w) w' ≡ some v
        → json_decode true val ≡ (none, x)
        → check x ≡ violated vs
        → Served fields_text caller time_now stack router handler r w t mw route a t₀ t'
            (pos 422)
            (fields_json (map field_of vs))
            w'
    unfolding as_field_errors
    serve_http-decode w' val x vs {v} i returns unsent stored reads finds =
        serve_http-Served fields_text caller time_now stack router handler r w t mw route a t₀ t'
          (pos 422) (fields_json (map field_of vs)) w' {v = v} i
          (fields-respond_json fields_text caller time_now stack handler
            (start_ctx fields_text caller time_now stack router handler r w)
            (start_request fields_text caller time_now stack router handler r w)
            (begun fields_text caller time_now stack router handler r w) w'
            (field_errors (map field_of vs)) (map field_of vs)
            (returns ∙ ap (λ e. (done e, w')) (decode-violated val x vs reads finds)) refl)
          unsent (record { valid = refl; final = refl; no_content = refl; modified = refl }) stored

-- ===== src/Web/Middleware/Stack.antt =====
-- An app with the usual middleware, from New to the answer of a request.
use httper.Base.{
  ◌++◌, ℤ, sym, pos, none, some, ℕ, String, ◌≡◌, refl, ap, ◌∙◌, Option, List, [], ◌∷◌,
}
use httper.Web.Middleware.Errors.Laws.{
  logged-IsUnsent, errors_handler-done, errors_handler-respond_json, logged, panic_err,
  panic-respond_json,
}
use httper.Web.Middleware.Errors.Shown.{
  shown_code, shown_text, to_app_error-shown_code, to_app_error-shown_text,
}
use httper.Web.Respond.Laws.{respond_json_sends, IsFinal, IsUnsent}
use httper.Web.Middleware.Errors.{obscure, errors_handler, to_app_error}
use httper.Web.Respond.{respond_json, marshalled}
use httper.Web.World.{
  Payload, BaseValues, Ctx, Request, World, Result, done, panicked, Handler, Middleware, error_json,
  set_header, LogEntry,
}
use httper.GoError.{AppError, as_field_errors, GoError, FieldError}
use httper.Web.Context.{value}
use httper.Web.Errs.{Caller}
use httper.Web.Mux.{App, Router, Table, wrap, handle_request, serve_http, patterns, find_handler}
use httper.Web.Mux.Entering.{entered, entered_ctx, after_handler, handle_request-entered}
use httper.Web.Mux.Registering.{Registration, register, register_lem, group_of, pattern}
use httper.Web.Mux.Serving.{serve_http-handle}
use httper.Web.Mux.Options.{new_app, opt_middleware}
use httper.Web.Mux.Options.Making.{app_of, new_app-inv}
use httper.Web.Middleware.Usual.{IsUsual, usual, usual_app, with_middleware-usual}
use httper.Web.Middleware.Logger.{logger_handler}
use httper.Web.Middleware.Logger.Laws.{started, completed, logger_handler-respond_json}
use httper.Web.Middleware.Panics.{panics_handler}

module _ (fields_text : List FieldError → String) (caller : Caller) (time_now : ℕ)
    (stack : World → String) where
  abbrev pub inner : Handler → Handler
  inner handler = errors_handler fields_text caller time_now (panics_handler stack handler)

  wrap-usual :
      (handler : Handler)
      → wrap (usual fields_text caller time_now stack) handler
        ≡ logger_handler time_now (inner handler)
  unfolding wrap
  wrap-usual handler = refl

  abbrev served_app : App
  served_app = usual_app fields_text caller time_now stack

  module _ (router : Router) (handler : Handler) (r : Request) (w : World) where
    abbrev pub start_ctx : Ctx
    start_ctx = entered_ctx router served_app r w

    abbrev pub start_request : Request
    start_request = record r { ctx = start_ctx }

    -- What Errors takes an error for
    abbrev pub app_err : GoError → AppError
    app_err e = to_app_error fields_text caller time_now e

    -- What Panics makes of a panic
    abbrev pub crash : World → String → GoError
    crash w' rec = panic_err fields_text caller time_now stack rec w'

    -- The state `w'` with the log line of Errors
    abbrev pub reported : World → GoError → World
    reported w' e = logged fields_text caller time_now e (app_err e) w' start_ctx

    reported-IsUnsent : (w' : World) (e : GoError) → IsUnsent w' → IsUnsent (reported w' e)
    reported-IsUnsent w' e u =
        logged-IsUnsent fields_text caller time_now e (app_err e) w' start_ctx u

    -- The state when Logger has written its first line
    abbrev pub begun : World
    begun = started time_now (inner handler) start_ctx start_request (entered router served_app r w)

    -- The answer of the route: Logger around the others
    abbrev answered : Result (Option GoError) × World
    answered =
        logger_handler time_now (inner handler) start_ctx start_request
          (entered router served_app r w)

    -- The line that Logger writes at the end
    abbrev pub last_line : ℤ → LogEntry
    last_line code =
        completed time_now (inner handler) start_ctx start_request code
          (entered router served_app r w)

    after_handler-done :
        (x : Result (Option GoError) × World)
        → x.0 ≡ done none
        → after_handler router served_app r w x ≡ (done tt, x.1)
    after_handler-done x e = rw e refl

    module _ (t : Table) (mw : List Middleware) (route : Registration) (a : App)
        (t₀ t' : Table) where
      -- New with the usual middleware made the app; Mount, Use and Handle registered the route for a
      -- pattern that was not in the table, and the mux chooses this pattern for the request. `handler`
      -- is the route's with the middleware around it that Use added and that is its own.
      pub record IsRoute : Type 0 where
        pub usual_mw : IsUsual fields_text caller time_now stack mw
        pub made : new_app router (opt_middleware mw ∷ []) ≡ done (a, t₀)
        pub wrapped : wrap (route.added ++ route.own) route.bare ≡ handler
        pub new : find_handler (pattern route) t ≡ none
        pub registered : register router a route t ≡ done t'
        pub chosen : router.choose (patterns t') r ≡ some (pattern route)

      serve_http-answered :
          IsRoute → answered.0 ≡ done none → serve_http router a t' r w ≡ (done tt, answered.1)
      serve_http-answered i quiet =
          let is_usual : served_app ≡ a =
            sym (ap app_of (with_middleware-usual fields_text caller time_now stack mw i.usual_mw))
            ∙ new_app-inv router mw i.made in
          ap (λ b. serve_http router b t' r w) (sym is_usual)
          ∙ serve_http-handle router served_app route.method (group_of route) route.path route.bare
              (route.added ++ route.own) t r w refl i.new
              (sym (register_lem router served_app route t)
                ∙ ap (λ b. register router b route t) is_usual
                ∙ i.registered)
              i.chosen
          ∙ ap
              (λ h.
                handle_request router served_app (wrap (usual fields_text caller time_now stack) h)
                  r w)
              i.wrapped
          ∙ ap (λ h. handle_request router served_app h r w) (wrap-usual handler)
          ∙ handle_request-entered router served_app r w (logger_handler time_now (inner handler))
          ∙ after_handler-done answered quiet

      -- The app has served this status with this JSON body, from the state `w'`, and logged this
      -- status last.
      abbrev pub Served : ℤ → Payload → World → Type 0
      Served code payload w' =
          ((serve_http router a t' r w).0 ≡ done tt)
          × ((serve_http router a t' r w).1.response.body ≡ payload ∷ [])
          × ((serve_http router a t' r w).1.response.sent
              ≡ some (code, set_header "Content-Type" "application/json" w'.response.header))
          × ((serve_http router a t' r w).1.logs ≡ w'.logs ++ last_line code ∷ [])

      pub serve_http-Served :
          (code : ℤ) (payload : Payload) (w' : World) {v : BaseValues}
          → IsRoute
          → inner handler start_ctx start_request begun
            ≡ respond_json start_ctx code (marshalled payload) w'
          → IsUnsent w'
          → IsFinal code
          → value start_ctx w' ≡ some v
          → Served code payload w'
      serve_http-Served code payload w' {v} i answers u final stored =
          let logs =
            logger_handler-respond_json time_now (inner handler) start_ctx start_request code
              payload (entered router served_app r w) w' {v = v} answers u final stored in
          rw (serve_http-answered i logs.0) (refl, logs.1, logs.2, logs.3)

      -- An app of New with Logger, Errors and Panics, in any order, and no other middleware serves
      -- a request for which the mux chooses a route that was registered under a new pattern, on the
      -- app or through Mount and Use, over a connection that works: where the handler, with any
      -- middleware around it that Use added or that is its own, panics before it wrote anything,
      -- with its values still stored, the app does not panic, the client gets 500 and the text of
      -- that status as JSON, and nothing of the panic, and the last lines of the log are the panic,
      -- as Errors writes it, and Logger's line with status 500.
      pub serve_http-panic :
          (w' : World) (rec : String) {v : BaseValues}
          → IsRoute
          → handler start_ctx start_request begun ≡ (panicked rec, w')
          → IsUnsent w'
          → value start_ctx w' ≡ some v
          → Served
              (pos 500)
              (error_json (pos 500) "Internal Server Error")
              (reported w' (crash w' rec))
      serve_http-panic w' rec {v} i fails u stored =
          serve_http-Served (pos 500) (error_json (pos 500) "Internal Server Error")
            (reported w' (crash w' rec)) {v = v} i
            (panic-respond_json fields_text caller time_now stack handler start_ctx start_request
              begun w' rec fails)
            (reported-IsUnsent w' (crash w' rec) u)
            (record { valid = refl; final = refl; no_content = refl; modified = refl }) stored

      -- An app of New with Logger, Errors and Panics, in any order, and no other middleware serves
      -- a request for which the mux chooses a route that was registered under a new pattern, on the
      -- app or through Mount and Use, over a connection that works: where the handler, with any
      -- middleware around it that Use added or that is its own, returns an error that wraps no
      -- field errors, before it wrote anything and with its values still stored, the client gets
      -- the code and the message of the *errs.Error that the error wraps, or 500 where it wraps
      -- none, as JSON, the message of an internal error replaced by the text of the status; the
      -- last lines of the log are the error and Logger's line with that code. The code must be one
      -- that a response with a body can end with.
      pub serve_http-app_error :
          (w' : World) (e : GoError) {v : BaseValues}
          → IsRoute
          → handler start_ctx start_request begun ≡ (done (some e), w')
          → as_field_errors e ≡ none
          → IsFinal (shown_code e)
          → IsUnsent w'
          → value start_ctx w' ≡ some v
          → Served (shown_code e) (error_json (shown_code e) (shown_text e)) (reported w' e)
      serve_http-app_error w' e {v} i fails no_fields final u stored =
          let answered_with =
            errors_handler-respond_json fields_text caller time_now stack handler start_ctx
              start_request begun w' e (app_err e) fails no_fields refl in
          let seen =
            ap
              (λ c.
                respond_json start_ctx c (marshalled (error_json c (obscure (app_err e)).message))
                  (reported w' e))
              (to_app_error-shown_code fields_text caller time_now e)
            ∙ ap
                (λ m.
                  respond_json start_ctx (shown_code e) (marshalled (error_json (shown_code e) m))
                    (reported w' e))
                (to_app_error-shown_text fields_text caller time_now e) in
          serve_http-Served (shown_code e) (error_json (shown_code e) (shown_text e))
            (reported w' e) {v = v} i (answered_with ∙ seen) (reported-IsUnsent w' e u) final stored

      -- An app of New with Logger, Errors and Panics, in any order, and no other middleware serves
      -- a request for which the mux chooses a route that was registered under a new pattern, on the
      -- app or through Mount and Use, over a connection that works: where the handler, with any
      -- middleware around it that Use added or that is its own, ends by answering with RespondJSON,
      -- before which nothing was sent, with its values still stored and a status that a response
      -- with a body can end with, the client gets that status and that JSON, and the last line of
      -- the log is Logger's with that status.
      pub serve_http-respond_json :
          (code : ℤ) (payload : Payload) (w' : World) {v : BaseValues}
          → IsRoute
          → handler start_ctx start_request begun
            ≡ respond_json start_ctx code (marshalled payload) w'
          → IsUnsent w'
          → IsFinal code
          → value start_ctx w' ≡ some v
          → Served code payload w'
      serve_http-respond_json code payload w' {v} i answers u final stored =
          let x = respond_json start_ctx code (marshalled payload) w' in
          let ends : x ≡ (done none, x.1) =
            ap (λ res. (res, x.1)) (respond_json_sends start_ctx code payload w' u final).0 in
          serve_http-Served code payload w' {v = v} i
            (errors_handler-done fields_text caller time_now stack handler start_ctx start_request
                begun x.1 (answers ∙ ends)
              ∙ sym ends)
            u final stored

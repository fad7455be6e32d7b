-- ===== src/Web/Middleware/Logger/Laws.antt =====
-- What the Logger middleware writes to the log.
use httper.Web.World.{
  BaseValues, Payload, LogEntry, set_header, Ctx, Request, World, request_started,
  request_completed, done, Handler,
}
use httper.Web.Context.{value, get_values}
use httper.Web.Respond.{respond_json, marshalled}
use httper.Web.Respond.Laws.{
  IsUnsent, IsFinal, respond_json_sends, respond_json-logs, respond_json-get_values,
}
use httper.GoError.{GoError}
use httper.Web.Middleware.Logger.{logger_handler, log_path}
use httper.Base.{ap, none, some, ℤ, ◌∙◌, ℕ, ◌≡◌, refl, Option, [], ◌∷◌, ◌++◌}

module _ (time_now : ℕ) (handler : Handler) (ctx : Ctx) (r : Request) where
  abbrev pub started : World → World
  started w = record w {
    logs =
        w.logs
        ++ request_started (get_values time_now ctx w).trace_id r.method (log_path r) r.remote_addr
          ∷ [];
  }

  -- Around a handler that returns, Logger writes one line before and one after it, the second with
  -- the status that stands in the values when the handler has returned. The handler's error is
  -- passed on.
  logger_handler_lem :
      (w w' : World) (err : Option GoError)
      → handler ctx r (started w) ≡ (done err, w')
      → logger_handler time_now handler ctx r w ≡ (
        done err,
        record w' {
          logs =
              w'.logs
              ++ request_completed
                  (get_values time_now ctx w).trace_id
                  r.method
                  (log_path r)
                  r.remote_addr
                  (get_values time_now ctx w').status_code
                ∷ [];
        },
      )
  unfolding logger_handler
  logger_handler_lem w w' err h = rw h refl

  abbrev pub completed : ℤ → World → LogEntry
  completed status w =
      request_completed (get_values time_now ctx w).trace_id r.method (log_path r) r.remote_addr
        status

  -- Around a handler that ends by answering with RespondJSON, before which nothing was sent, in a
  -- context that has values and with a status that a response with a body can end with: the line
  -- that Logger writes at the end bears the status that went to the client.
  pub logger_handler-respond_json :
      (code : ℤ) (payload : Payload) (w w' : World) {v : BaseValues}
      → handler ctx r (started w) ≡ respond_json ctx code (marshalled payload) w'
      → IsUnsent w'
      → IsFinal code
      → value ctx w' ≡ some v
      → ((logger_handler time_now handler ctx r w).0 ≡ done none)
        × ((logger_handler time_now handler ctx r w).1.response.body ≡ payload ∷ [])
        × ((logger_handler time_now handler ctx r w).1.response.sent
            ≡ some (code, set_header "Content-Type" "application/json" w'.response.header))
        × ((logger_handler time_now handler ctx r w).1.logs ≡ w'.logs ++ completed code w ∷ [])
  logger_handler-respond_json code payload w w' {v} answers unsent final stored =
      let sends = respond_json_sends ctx code payload w' unsent final in
      let after = (respond_json ctx code (marshalled payload) w').1 in
      let ran : handler ctx r (started w) ≡ (done none, after) =
        answers ∙ ap (λ x. (x, after)) sends.0 in
      rw (logger_handler_lem w after none ran) (
        refl,
        sends.1,
        sends.2,
        rw
            (
              respond_json-logs ctx code payload w' unsent final,
              respond_json-get_values time_now ctx code payload w' {v = v} unsent final stored,
            )
            refl,
      )

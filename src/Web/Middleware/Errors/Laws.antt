-- ===== src/Web/Middleware/Errors/Laws.antt =====
-- What a client sees of an error that a handler returns.

use httper.Web.Middleware.Panics.Laws.{panics_handler-done, panics_handler-panicked}
use httper.GoError.{AppError, GoError, FieldError, as_field_errors, as_app_error, message}
use httper.Web.World.{
  Ctx, request_error, Request, World, Payload, error_json, fields_json, done, panicked, set_header,
  Handler,
}
use httper.Web.Errs.{Caller, new_internal}
use httper.Web.Context.{get_values}
use httper.Web.Respond.Laws.{IsUnsent, IsFinal, respond_json_sends}
use httper.Web.Status.{status_text}
use httper.Web.Middleware.Panics.{panics_handler}
use httper.Web.Middleware.Errors.{
  marshalled, respond_json, obscure, to_app_error, answer_app_error, answer, errors_handler,
}
use httper.Base.{
  ◌∙◌, ap, arith, ℕ, String, ◌<>◌, ◌≡◌, refl, none, some, List, [], ◌∷◌, ◌++◌, ℤ, pos, path_base,
}

code-obscure : (e : AppError) → (obscure e).code ≡ e.code
unfolding obscure
code-obscure e = ground arith

module _ (fields_text : List FieldError → String) (caller : Caller) (time_now : ℕ) where
  -- The response is this one status with this one JSON body, and no error is left.
  abbrev pub Answered : Handler → Ctx → Request → World → World → ℤ → Payload → Type 0
  Answered handler ctx r w w' code payload =
      ((errors_handler fields_text caller time_now handler ctx r w).0 ≡ done none)
      × ((errors_handler fields_text caller time_now handler ctx r w).1.response.body
          ≡ payload ∷ [])
      × ((errors_handler fields_text caller time_now handler ctx r w).1.response.sent
          ≡ some (code, set_header "Content-Type" "application/json" w'.response.header))

  -- One answer to the error `err`, in the state `w'` that the handler left.
  abbrev Answers : Ctx → GoError → World → ℤ → Payload → Type 0
  Answers ctx err w' code payload =
      ((answer fields_text caller time_now ctx (some err) w').0 ≡ done none)
      × ((answer fields_text caller time_now ctx (some err) w').1.response.body ≡ payload ∷ [])
      × ((answer fields_text caller time_now ctx (some err) w').1.response.sent
          ≡ some (code, set_header "Content-Type" "application/json" w'.response.header))

  answer-fields :
      (ctx : Ctx) (err : GoError) (w' : World) (fs : List FieldError)
      → IsUnsent w'
      → as_field_errors err ≡ some fs
      → Answers ctx err w' (pos 422) (fields_json fs)
  unfolding answer
  answer-fields ctx err w' fs unsent h = rw h (
      respond_json_sends ctx (pos 422) (fields_json fs) w' unsent
        (record { valid = refl; final = refl; no_content = refl; modified = refl }))

  -- The state after the log line of Errors
  abbrev pub logged : GoError → AppError → World → Ctx → World
  logged err e w' ctx = record w' {
    logs =
        w'.logs
        ++ request_error (get_values time_now ctx w').trace_id err (path_base e.file_name)
            (path_base e.func_name)
          ∷ [];
  }

  pub logged-IsUnsent :
      (err : GoError) (e : AppError) (w' : World) (ctx : Ctx)
      → IsUnsent w'
      → IsUnsent (logged err e w' ctx)
  logged-IsUnsent err e w' ctx u = record {
    unsent = u.unsent;
    unwritten = u.unwritten;
    works = u.works;
  }

  answer-respond_json :
      (ctx : Ctx) (err : GoError) (w' : World) (e : AppError)
      → as_field_errors err ≡ none
      → to_app_error fields_text caller time_now err ≡ e
      → answer fields_text caller time_now ctx (some err) w'
        ≡ respond_json ctx e.code
            (marshalled (error_json e.code (obscure e).message))
            (logged err e w' ctx)
  unfolding answer answer_app_error
  answer-respond_json ctx err w' e h same =
      rw (h, same)
        (ap
          (λ c.
            respond_json ctx e.code (marshalled (error_json c (obscure e).message))
              (logged err e w' ctx))
          (code-obscure e))

  answer-app :
      (ctx : Ctx) (err : GoError) (w' : World) (e : AppError)
      → IsUnsent w'
      → as_field_errors err ≡ none
      → to_app_error fields_text caller time_now err ≡ e
      → IsFinal e.code
      → Answers ctx err w' e.code (error_json e.code (obscure e).message)
  answer-app ctx err w' e unsent h same final = rw (answer-respond_json ctx err w' e h same) (
      respond_json_sends ctx e.code (error_json e.code (obscure e).message) (logged err e w' ctx)
        (logged-IsUnsent err e w' ctx unsent) final)

  errors_handler-answer :
      (handler : Handler) (ctx : Ctx) (r : Request) (w w' : World) (err : GoError)
      → handler ctx r w ≡ (done (some err), w')
      → errors_handler fields_text caller time_now handler ctx r w
        ≡ answer fields_text caller time_now ctx (some err) w'
  unfolding errors_handler
  errors_handler-answer handler ctx r w w' err fails = rw fails refl

  -- What Panics makes of a panic
  abbrev pub panic_err : (World → String) → String → World → GoError
  panic_err stack rec w = message ("PANIC [" <> (rec <> ("] TRACE[" <> (stack w <> "]"))))

  pub panic-respond_json :
      (stack : World → String) (handler : Handler) (ctx : Ctx) (r : Request) (w w' : World)
      (rec : String)
      → handler ctx r w ≡ (panicked rec, w')
      → errors_handler fields_text caller time_now (panics_handler stack handler) ctx r w
        ≡ respond_json ctx (pos 500) (marshalled (error_json (pos 500) "Internal Server Error")) (
            logged
              (panic_err stack rec w')
              (to_app_error fields_text caller time_now (panic_err stack rec w'))
              w'
              ctx)
  unfolding to_app_error new_internal obscure status_text as_field_errors as_app_error
  panic-respond_json stack handler ctx r w w' rec fails =
      let err = panic_err stack rec w' in
      errors_handler-answer (panics_handler stack handler) ctx r w w' err
        (panics_handler-panicked stack handler ctx r w w' rec fails)
      ∙ answer-respond_json ctx err w' (to_app_error fields_text caller time_now err) refl refl

  pub errors_handler-respond_json :
      (stack : World → String) (handler : Handler) (ctx : Ctx) (r : Request) (w w' : World)
      (err : GoError) (e : AppError)
      → handler ctx r w ≡ (done (some err), w')
      → as_field_errors err ≡ none
      → to_app_error fields_text caller time_now err ≡ e
      → errors_handler fields_text caller time_now (panics_handler stack handler) ctx r w
        ≡ respond_json ctx e.code
            (marshalled (error_json e.code (obscure e).message))
            (logged err e w' ctx)
  errors_handler-respond_json stack handler ctx r w w' err e fails h same =
      errors_handler-answer (panics_handler stack handler) ctx r w w' err
        (panics_handler-done stack handler ctx r w w' (some err) fails)
      ∙ answer-respond_json ctx err w' e h same

  pub fields-respond_json :
      (stack : World → String) (handler : Handler) (ctx : Ctx) (r : Request) (w w' : World)
      (err : GoError) (fs : List FieldError)
      → handler ctx r w ≡ (done (some err), w')
      → as_field_errors err ≡ some fs
      → errors_handler fields_text caller time_now (panics_handler stack handler) ctx r w
        ≡ respond_json ctx (pos 422) (marshalled (fields_json fs)) w'
  unfolding answer
  fields-respond_json stack handler ctx r w w' err fs fails h =
      errors_handler-answer (panics_handler stack handler) ctx r w w' err
        (panics_handler-done stack handler ctx r w w' (some err) fails)
      ∙ rw h refl

  pub errors_handler-done :
      (stack : World → String) (handler : Handler) (ctx : Ctx) (r : Request) (w w' : World)
      → handler ctx r w ≡ (done none, w')
      → errors_handler fields_text caller time_now (panics_handler stack handler) ctx r w
        ≡ (done none, w')
  unfolding errors_handler answer
  errors_handler-done stack handler ctx r w w' quiet =
      rw (panics_handler-done stack handler ctx r w w' none quiet) refl

  -- A handler that panics before it wrote anything, behind Panics and Errors: the client gets a
  -- 500 with the text of the status, and nothing of the panic.
  pub panic-Answered :
      (stack : World → String) (handler : Handler) (ctx : Ctx) (r : Request) (w w' : World)
      (rec : String)
      → handler ctx r w ≡ (panicked rec, w')
      → IsUnsent w'
      → Answered
          (panics_handler stack handler)
          ctx
          r
          w
          w'
          (pos 500)
          (error_json (pos 500) "Internal Server Error")
  unfolding to_app_error new_internal obscure status_text as_field_errors as_app_error
  panic-Answered stack handler ctx r w w' rec fails unsent =
      let err = message ("PANIC [" <> (rec <> ("] TRACE[" <> (stack w' <> "]")))) in
      rw
        (errors_handler-answer (panics_handler stack handler) ctx r w w' err
          (panics_handler-panicked stack handler ctx r w w' rec fails))
        (answer-app ctx err w' (to_app_error fields_text caller time_now err) unsent refl refl
          (record { valid = refl; final = refl; no_content = refl; modified = refl }))

  -- A handler whose error wraps field errors, before it wrote anything: the client gets a 422 with
  -- the list of the fields as JSON, and Errors reports no error.
  pub errors_handler-fields :
      (handler : Handler) (ctx : Ctx) (r : Request) (w w' : World) (err : GoError)
      (fs : List FieldError)
      → handler ctx r w ≡ (done (some err), w')
      → IsUnsent w'
      → as_field_errors err ≡ some fs
      → Answered handler ctx r w w' (pos 422) (fields_json fs)
  errors_handler-fields handler ctx r w w' err fs fails unsent h =
      rw (errors_handler-answer handler ctx r w w' err fails) (answer-fields ctx err w' fs unsent h)

  -- A handler whose error wraps no field errors, before it wrote anything: the client gets the code
  -- and the message of the *errs.Error that the error wraps, or 500 where it wraps none, as JSON;
  -- the message of an internal error is replaced by the text of the status. The code must be one
  -- that a response with a body can end with.
  pub errors_handler-app_error :
      (handler : Handler) (ctx : Ctx) (r : Request) (w w' : World) (err : GoError) (e : AppError)
      → handler ctx r w ≡ (done (some err), w')
      → IsUnsent w'
      → as_field_errors err ≡ none
      → to_app_error fields_text caller time_now err ≡ e
      → IsFinal e.code
      → Answered handler ctx r w w' e.code (error_json e.code (obscure e).message)
  errors_handler-app_error handler ctx r w w' err e fails unsent h same final =
      rw (errors_handler-answer handler ctx r w w' err fails)
        (answer-app ctx err w' e unsent h same final)

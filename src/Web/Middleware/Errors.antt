-- ===== src/Web/Middleware/Errors.antt =====
-- web/middleware/errors.go.
pub mod Laws
pub mod Shown
use mathlib.Core.Option
use httper.GoError.{GoError, AppError, FieldError, as_field_errors, as_app_error}
use httper.Web.World.{
  Ctx, Act, pure, ◌>>=◌, ◌>>◌, get, log, request_error, fields_json, Handler, Middleware, named,
}
use httper.Web.Context.{get_values}
use httper.Web.Errs.{Caller, new_internal}
use httper.Web.Respond.{respond_json, encode_error, marshalled}
use httper.Web.Status.{status_text}
use httper.Base.{ℕ, String, Option, none, some, List, if◌then◌else◌, pos, path_base}

-- What is sent of an application error: an internal one with the text of its status, which the source
-- writes into the error itself.
unfoldable pub obscure : AppError → AppError
obscure e = if e.inner_err then record e { message = status_text e.code } else e

module _ (fields_text : List FieldError → String) (caller : Caller) (time_now : ℕ) where
  -- The error that is answered where there are no field errors
  unfoldable pub to_app_error : GoError → AppError
  to_app_error err = Option.get_or (as_app_error err) (new_internal fields_text caller err)

  pub answer_app_error : Ctx → GoError → AppError → Act (Option GoError)
  answer_app_error ctx err app_err = do
    w ← get
    log (
        request_error (get_values time_now ctx w).trace_id err (path_base app_err.file_name)
          (path_base app_err.func_name))
    respond_json ctx app_err.code (encode_error (obscure app_err))

  -- The two answers: to field errors, and to any other error
  pub answer_found : Ctx → GoError → Option (List FieldError) → Act (Option GoError)
  answer_found ctx err (some fs) = respond_json ctx (pos 422) (marshalled (fields_json fs))
  answer_found ctx err none = answer_app_error ctx err (to_app_error err)

  -- What Errors does with the error of the handler
  pub answer : Ctx → Option GoError → Act (Option GoError)
  unfolding answer_found
  answer ctx none = pure none
  answer ctx (some err) = answer_found ctx err (as_field_errors err)

  -- Errors
  unfoldable pub errors_handler : Handler → Handler
  errors_handler handler ctx r = do err ← handler ctx r; answer ctx err

  abbrev pub errors : Middleware
  errors = named "github.com/adamwoolhether/httper/web/middleware.Errors.func1" errors_handler

-- ===== src/Web/Tests/Served.antt =====
-- Requests through an app that New has made.
use httper.Base.{trim_left, Bool, Option, none, List, String, refl, false, some, [], ◌∷◌, pos}
use httper.Web.Mux.{
  mount, use_mw, Router, Table, App, handle, handle_func, handle_request, wrap, find_handler,
  patterns,
}
use httper.Web.Mux.Registering.{Registration, register}
use httper.Web.Tests.Samples.{failing, app_err, no_text, caller, request, world, panicking, stack}
use httper.Web.Middleware.Stack.{
  IsRoute, Served, serve_http-app_error, serve_http-respond_json, serve_http-panic, begun, reported,
}
use httper.Web.Middleware.Usual.{new_app-usual, IsUsual, usual_app}
use httper.Web.Middleware.Errors.{obscure, to_app_error, errors, errors_handler}
use httper.Web.Respond.{respond_json, marshalled}
use httper.Web.World.{
  value_json, Handler, done, fields_json, Request, World, Middleware, pure, error_json,
}
use httper.GoError.{message, app_error, as_field_errors, as_app_error, GoError}
use httper.Web.Request.Answers.{serve_http-decode}
use httper.Web.Request.{decode}
use httper.Web.Validate.{Violation, Verdict, violated, custom_err_for_tag}
use httper.Web.Mux.Options.{name}
use httper.Web.Mux.Options.Laws.{named_as, custom}
use httper.Web.Middleware.Logger.{logger, logger_handler}
use httper.Web.Middleware.Panics.{panics, panics_handler}

-- The mux chooses the first pattern.
abbrev first_pattern : List String → Option String
first_pattern [] = none
first_pattern (p ∷ _) = some p

abbrev pub router : Router
router = record {
  start = λ t c s. (c, c.span);
  inject = λ c h. ("Traceparent", "00") ∷ h;
  new_uuid = λ w. "uuid";
  time_now = λ w. 3;
  conflicts = λ ps p. false;
  choose = λ ps r. first_pattern ps;
  not_found = λ r. pure tt;
}

-- Panics first, Logger last
abbrev pub given : List Middleware
given = panics stack ∷ errors no_text caller 3 ∷ logger 3 ∷ []

given-IsUsual : IsUsual no_text caller 3 stack given
unfolding named_as custom name
given-IsUsual = record {
  no_cors = refl;
  no_csrf = refl;
  one_logger = refl;
  one_errors = refl;
  no_custom = refl;
  one_panics = refl;
}

abbrev pub asked : Request
asked = request "GET" []

abbrev pub app : App
app = usual_app no_text caller 3 stack

-- The handler for GET /users on an app that is mounted at /v1
abbrev pub users : Handler → Registration
users handler = record {
  sub_route = "/v1";
  added = [];
  method = "GET";
  path = "/users";
  own = [];
  bare = handler;
}

-- The table after Get has registered that
abbrev pub table : Handler → Table
table handler =
    (
      "GET /v1/users",
      handle_request router app
          (logger_handler 3 (errors_handler no_text caller 3 (panics_handler stack handler))),
    )
    ∷ []

pub is_route :
    (handler : Handler)
    → IsRoute no_text caller 3 stack router handler asked world [] given
        (users handler)
        app
        []
        (table handler)
unfolding wrap register handle handle_func find_handler patterns mount use_mw trim_left
is_route handler = record {
  usual_mw = given-IsUsual;
  made = new_app-usual no_text caller 3 stack router given given-IsUsual;
  wrapped = refl;
  new = refl;
  registered = refl;
  chosen = refl;
}

-- The state in which the handler begins
abbrev pub entry : Handler → World
entry handler = begun no_text caller 3 stack router handler asked world

serve_http-panic_example :
    Served no_text caller 3 stack router panicking asked world [] given
      (users panicking)
      app
      []
      (table panicking)
      (pos 500)
      (error_json (pos 500) "Internal Server Error")
      (reported no_text caller 3 stack router panicking asked world
        (entry panicking)
        (message "PANIC [boom] TRACE[main.go:12]"))
serve_http-panic_example =
    serve_http-panic no_text caller 3 stack router panicking asked world [] given (users panicking)
      app [] (table panicking) (entry panicking) "boom" (is_route panicking) refl
      (record { unsent = refl; unwritten = refl; works = refl }) refl

abbrev pub missing_user : GoError
missing_user = GoError.wrap "users: " (app_error app_err)

serve_http-app_error_example :
    Served no_text caller 3 stack router
      (failing missing_user)
      asked
      world
      []
      given
      (users (failing missing_user))
      app
      []
      (table (failing missing_user))
      (pos 404)
      (error_json (pos 404) "no such user")
      (reported no_text caller 3 stack router
        (failing missing_user)
        asked
        world
        (entry (failing missing_user))
        missing_user)
unfolding as_field_errors to_app_error as_app_error obscure
serve_http-app_error_example =
    serve_http-app_error no_text caller 3 stack router (failing missing_user) asked world [] given
      (users (failing missing_user)) app [] (table (failing missing_user))
      (entry (failing missing_user)) missing_user (is_route (failing missing_user)) refl refl
      (record { valid = refl; final = refl; no_content = refl; modified = refl })
      (record { unsent = refl; unwritten = refl; works = refl }) refl

abbrev pub answering : Handler
answering c r = respond_json c (pos 201) (marshalled (value_json "{}"))

serve_http-respond_json_example :
    Served no_text caller 3 stack router answering asked world [] given
      (users answering)
      app
      []
      (table answering)
      (pos 201)
      (value_json "{}")
      (entry answering)
serve_http-respond_json_example =
    serve_http-respond_json no_text caller 3 stack router answering asked world [] given
      (users answering) app [] (table answering) (pos 201) (value_json "{}") (entry answering)
      (is_route answering) refl (record { unsent = refl; unwritten = refl; works = refl })
      (record { valid = refl; final = refl; no_content = refl; modified = refl }) refl

-- A value is the text of a body; it lacks its name.
abbrev json_decode : Bool → String → Option GoError × String
json_decode disallow body = (none, body)

abbrev missing : List Violation
missing = record { field = "name"; tag = "required"; translated = "name is a required field" } ∷ []

abbrev check : String → Verdict
check body = violated missing

abbrev creating : Handler
creating c r w = (done (decode json_decode check "{}").0, w)

serve_http-decode_example :
    Served no_text caller 3 stack router creating asked world [] given
      (users creating)
      app
      []
      (table creating)
      (pos 422)
      (fields_json (record { field = "name"; err = "This field is required" } ∷ []))
      (entry creating)
unfolding custom_err_for_tag
serve_http-decode_example =
    serve_http-decode no_text caller 3 json_decode check stack router creating asked world [] given
      (users creating) app [] (table creating) (entry creating) "{}" "{}" missing
      (is_route creating) refl (record { unsent = refl; unwritten = refl; works = refl }) refl refl
      refl

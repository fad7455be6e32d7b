-- ===== src/Web/Tests/Denied.antt =====
-- Requests that the global middleware of an app does not let in.
use httper.Base.{
  String, ◌<>◌, ◌≡◌, refl, true, false, Option, none, some, List, [], ◌∷◌, arith, eq_iff, pos,
}
use httper.Web.Mux.Options.{with_middleware, name}
use httper.Web.World.{
  Request, Middleware, value_json, error_json, plain, set_header, del_header, get_header, done,
  pure, named,
}
use httper.Web.Respond.{marshalled, Encoded}
use httper.Web.Mux.{App, Router, serve_http}
use httper.Web.Mux.Options.Laws.{named_as}
use httper.Web.Mux.Options.Making.{app_of, new_app-app_of}
use httper.Web.Middleware.Cors.{cors, check_origin}
use httper.Web.Middleware.Csrf.{csrf, csrf_handler, check_request}
use httper.Web.Middleware.Csrf.Laws.{Passes-check_request}
use httper.Web.Middleware.Logger.{logger}
use httper.Web.Middleware.Outside.{serve_http-cors, serve_http-csrf}
use httper.Web.Tests.Samples.{no_text, caller, world, world-IsUnsent, request, from}

abbrev router : Router
router = record {
  start = λ t c s. (c, c.span);
  inject = λ c h. h;
  new_uuid = λ w. "uuid";
  time_now = λ w. 3;
  conflicts = λ ps p. false;
  choose = λ ps r. none;
  not_found = λ r. pure tt;
}

abbrev no_data : Encoded
no_data = marshalled (value_json "null")

abbrev allowed : List String
allowed = "https://app.example.com" ∷ []

abbrev with_cors : List Middleware
with_cors = logger 3 ∷ cors no_text caller no_data allowed [] ∷ []

abbrev cors_app : App
cors_app = app_of (cors no_text caller no_data allowed [] ∷ [], logger 3 ∷ [])

serve_http-cors_example :
    ((serve_http router cors_app [] (from "GET" "https://evil.com") world).0 ≡ done tt)
    × ((serve_http router cors_app [] (from "GET" "https://evil.com") world).1.response.body
        ≡ error_json (pos 403) ("CORS origin[" <> ("https://evil.com" <> "] not allowed")) ∷ [])
    × ((serve_http router cors_app [] (from "GET" "https://evil.com") world).1.response.sent
        ≡ some (pos 403, set_header "Content-Type" "application/json" []))
unfolding get_header check_origin named_as name with_middleware
serve_http-cors_example =
    serve_http-cors no_text caller no_data allowed [] router with_cors {a = cors_app} {t₀ = []} []
      (from "GET" "https://evil.com") world refl (new_app-app_of router with_cors)
      (λ e. ground (arith, eq_iff "https://evil.com" "")) refl world-IsUnsent

abbrev no_host : String → Option String
no_host o = none

abbrev guard : Middleware
guard =
    named "github.com/adamwoolhether/httper/web/middleware.CSRF.func1"
      (csrf_handler no_host allowed)

abbrev csrf_app : App
csrf_app = app_of (guard ∷ [], logger 3 ∷ [])

abbrev forged : Request
forged = request "POST" (("Sec-Fetch-Site", "cross-site") ∷ [])

serve_http-csrf_example :
    ((serve_http router csrf_app [] forged world).0 ≡ done tt)
    × ((serve_http router csrf_app [] forged world).1.response.body
        ≡ plain "csrf: Forbidden\n" ∷ [])
    × ((serve_http router csrf_app [] forged world).1.response.sent
        ≡ some (
          pos 403,
          set_header "X-Content-Type-Options" "nosniff"
              (set_header "Content-Type" "text/plain; charset=utf-8" []),
        ))
unfolding csrf check_request get_header named_as name with_middleware del_header
serve_http-csrf_example =
    serve_http-csrf no_host (λ o. true) allowed router (logger 3 ∷ guard ∷ []) {a = csrf_app}
      {t₀ = []} [] forged world {m = guard} refl refl refl
      (new_app-app_of router (logger 3 ∷ guard ∷ []))
      (λ h. cc (Passes-check_request no_host allowed forged h)) world-IsUnsent

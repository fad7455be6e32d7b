-- ===== src/Web/Middleware/Outside.antt =====
-- The global middleware of an app: what stands before its mux.
use httper.Base.{
  arith, Bool, Option, String, ◌<>◌, ◌≡◌, refl, sym, ap, ◌∙◌, ◌≢◌, false, some, List, [], ◌∷◌, ◌++◌,
  pos,
}
use httper.Web.World.{
  named, plain, Request, World, done, Middleware, error_json, set_header, del_header, get_header,
}
use httper.Web.Middleware.Csrf.Laws.{Passes, csrf_handler-denies}
use httper.Web.Middleware.Csrf.{csrf, csrf_handler}
use httper.GoError.{FieldError}
use httper.Web.Errs.{Caller}
use httper.Web.Respond.{Encoded}
use httper.Web.Respond.Laws.{IsUnsent}
use httper.Web.Mux.{App, Router, Table, wrap, serve_http}
use httper.Web.Mux.Outside.{mux_handler, serve_http-outermost}
use httper.Web.Mux.Options.{new_app, opt_middleware}
use httper.Web.Mux.Options.Making.{new_app-inv}
use httper.Web.Mux.Options.Laws.{with_middleware_lem, named_as}
use httper.Web.Middleware.Cors.{cors, check_origin}
use httper.Web.Middleware.Cors.Laws.{cors_handler-rejects}

new_app-global_mw :
    (router : Router) (mw : List Middleware) {a : App} {t : Table}
    → new_app router (opt_middleware mw ∷ []) ≡ done (a, t)
    → a.global_mw ≡ named_as "CORS" mw ++ named_as "CSRF" mw
new_app-global_mw router mw made =
    ap (λ b. App.global_mw b) (sym (new_app-inv router mw made))
    ∙ ap (λ s. s.0) (with_middleware_lem mw)

module _ (fields_text : List FieldError → String) (caller : Caller) (no_data : Encoded)
    (allowed_origins allowed_headers : List String) (router : Router) (mw : List Middleware)
    {a : App} {t₀ : Table} (t : Table) (r : Request) (w : World) where
  -- New with one CORS among any other middleware: a request whose Origin no entry admits, on a
  -- response of which nothing was sent, is served 403 with a JSON error as the whole body, and no
  -- header line is added but the content type, whatever routes are registered.
  pub serve_http-cors :
      named_as "CORS" mw ≡ cors fields_text caller no_data allowed_origins allowed_headers ∷ []
      → new_app router (opt_middleware mw ∷ []) ≡ done (a, t₀)
      → get_header "Origin" r.header ≢ ""
      → check_origin allowed_origins (get_header "Origin" r.header) ≡ false
      → IsUnsent w
      → ((serve_http router a t r w).0 ≡ done tt)
        × ((serve_http router a t r w).1.response.body
            ≡ error_json
                (pos 403)
                ("CORS origin[" <> (get_header "Origin" r.header <> "] not allowed"))
              ∷ [])
        × ((serve_http router a t r w).1.response.sent
            ≡ some (pos 403, set_header "Content-Type" "application/json" w.response.header))
  serve_http-cors one made given refused unsent =
      let m = cors fields_text caller no_data allowed_origins allowed_headers in
      let inside = wrap (named_as "CSRF" mw) (mux_handler router t) in
      let rejects =
        cors_handler-rejects fields_text caller no_data allowed_origins allowed_headers inside r.ctx
          r w given refused unsent in
      let first = new_app-global_mw router mw made ∙ ap (λ l. l ++ named_as "CSRF" mw) one in
      let served = serve_http-outermost router a t r w (named_as "CSRF" mw) first rejects.0 in
      rw served (refl, rejects.1, rejects.2)

csrf-inv :
    (origin_host : String → Option String) (is_origin : String → Bool) (trusted : List String)
    {m : Middleware}
    → csrf origin_host is_origin trusted ≡ done m
    → m
      ≡ named "github.com/adamwoolhether/httper/web/middleware.CSRF.func1"
          (csrf_handler origin_host trusted)
unfolding csrf
csrf-inv origin_host is_origin trusted made = ground arith

module _ (origin_host : String → Option String) (is_origin : String → Bool) (trusted : List String)
    (router : Router) (mw : List Middleware) {a : App} {t₀ : Table} (t : Table) (r : Request)
    (w : World) where
  -- New with one CSRF, no CORS and any other middleware: a request that does not pass the check, on
  -- a response of which nothing was sent, is served 403 with a plain text as the whole body,
  -- whatever routes are registered.
  pub serve_http-csrf :
      {m : Middleware}
      → csrf origin_host is_origin trusted ≡ done m
      → named_as "CORS" mw ≡ []
      → named_as "CSRF" mw ≡ m ∷ []
      → new_app router (opt_middleware mw ∷ []) ≡ done (a, t₀)
      → (Passes origin_host trusted r → ⊥)
      → IsUnsent w
      → ((serve_http router a t r w).0 ≡ done tt)
        × ((serve_http router a t r w).1.response.body ≡ plain "csrf: Forbidden\n" ∷ [])
        × ((serve_http router a t r w).1.response.sent
            ≡ some (
              pos 403,
              set_header "X-Content-Type-Options" "nosniff" (
                  set_header "Content-Type" "text/plain; charset=utf-8"
                    (del_header "Content-Length" w.response.header)),
            ))
  serve_http-csrf {m} is_csrf no_cors one made refused unsent =
      let inside = wrap [] (mux_handler router t) in
      let denies = csrf_handler-denies origin_host trusted inside r.ctx r w refused unsent in
      let first : a.global_mw
          ≡ named "github.com/adamwoolhether/httper/web/middleware.CSRF.func1"
              (csrf_handler origin_host trusted)
            ∷ [] =
        new_app-global_mw router mw made
        ∙ rw (no_cors, one) (ap (λ m'. m' ∷ []) (csrf-inv origin_host is_origin trusted is_csrf)) in
      rw (serve_http-outermost router a t r w [] first denies.0) (refl, denies.1, denies.2)

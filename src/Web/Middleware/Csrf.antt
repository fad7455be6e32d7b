-- ===== src/Web/Middleware/Csrf.antt =====
-- web/middleware/csrf.go. http.CrossOriginProtection is the standard library's: its check is
-- written out here, with the host of an Origin header as the parameter `origin_host` (url.Parse)
-- and the test of AddTrustedOrigin as `is_origin`.
pub mod Laws
use httper.Web.World.{
  Request, Result, done, panicked, Act, pure, ◌>>=◌, ◌>>◌, get_header, http_error, Handler,
  Middleware, named,
}
use httper.Web.Context.{set_status_code}
use httper.Base.{
  String, Bool, true, false, not, ◌&&◌, ◌||◌, Option, none, some, List, str_eq, if◌then◌else◌, any,
  pos,
}

-- Option String equals the text
abbrev is_host : Option String → String → Bool
is_host none host = false
is_host (some h) host = str_eq h host

abbrev pub trusts : List String → String → Bool
trusts trusted origin = not (str_eq origin "") && any (λ t. str_eq t origin) trusted

abbrev is_safe_method : String → Bool
is_safe_method m = str_eq m "GET" || (str_eq m "HEAD" || str_eq m "OPTIONS")

module _ (origin_host : String → Option String) where
  -- (*http.CrossOriginProtection).Check, true for a request that may pass
  unfoldable pub check_request : List String → Request → Bool
  check_request trusted r =
      let site = get_header "Sec-Fetch-Site" r.header in
      let origin = get_header "Origin" r.header in
      if is_safe_method r.method
      then true
      else if str_eq site ""
      then (if str_eq origin ""
          then true
          else if is_host (origin_host origin) r.host
          then true
          else trusts trusted origin)
      else if str_eq site "same-origin" || str_eq site "none"
      then true
      else trusts trusted origin

  -- errHandler
  pub deny : Request → Act (Unit {0})
  deny r = do set_status_code r.ctx (pos 403); http_error "csrf: Forbidden" (pos 403)

  -- The handler that CSRF returns: the error of the inner handler comes out through a variable
  -- of the closure, which stays nil where the request is denied.
  unfoldable pub csrf_handler : List String → Handler → Handler
  csrf_handler trusted handler ctx r =
      let r' = record r { ctx = ctx } in
      if check_request trusted r' then handler ctx r' else (do deny r'; pure none)

  -- CSRF: building it panics on an origin that AddTrustedOrigin refuses.
  unfoldable pub csrf : (is_origin : String → Bool) → List String → Result Middleware
  csrf is_origin allowed_origins =
      if any (λ o. not (is_origin o)) allowed_origins
      then panicked "invalid origin"
      else done (
          named "github.com/adamwoolhether/httper/web/middleware.CSRF.func1"
            (csrf_handler allowed_origins))

-- ===== src/Web/Middleware/Cors/Laws.antt =====
-- Which origins pass, and what the CORS middleware does with each request.
use httper.Web.Respond.Laws.{respond_json_sends, IsUnsent}
use httper.Web.Respond.{respond_error, Encoded}
use httper.GoError.{GoError, FieldError, error_text}
use httper.Web.Errs.{Caller, new_error}
use httper.Web.World.Laws.{get_header-set_header}
use httper.Web.World.{
  error_json, done, Ctx, Handler, with_header, Result, World, set_header, Request, get_header,
  Header,
}
use httper.Web.Glob.{path_match}
use httper.Web.Middleware.Cors.{
  headers_text, set_cors, cors_handler, Origins, separate, collect, is_allowed, check_origin,
}
use httper.Base.{
  some, ◌<>◌, pos, none, refl, str_ne, ◌≢◌, Option, false, String, ◌≡◌, Bool, true, ◌||◌, List, [],
  ◌∷◌, ◌++◌, foldl, arith, str_eq, eq_iff, if◌then◌else◌, any, contains_char,
}

-- An entry of the list admits an origin: `*` any, a pattern those it matches, another text itself.
pub admits : String → String → Bool
admits o origin =
    if str_eq o "*"
    then true
    else if contains_char b'*' o
    then path_match o origin
    else str_eq o origin

any-snoc :
    (p : String → Bool) (xs : List String) (x : String) → any p (xs ++ x ∷ []) ≡ (any p xs || p x)
any-snoc p [] x = ground arith
any-snoc p (y ∷ xs) x = ground (arith, any-snoc p xs x)

-- The answer of the function that CheckOriginFunc returns, from what it collected
passes : Origins → String → Bool
passes s origin =
    is_allowed s.0 "*" || (is_allowed s.0 origin || any (λ o. path_match o origin) s.1)

passes-collect :
    (s : Origins) (o origin : String)
    → passes (collect s o) origin ≡ (passes s origin || admits o origin)
unfolding passes collect admits
passes-collect (allowed, wild) o origin = ground (
  arith,
  any-snoc (λ p. path_match p origin) wild o,
  eq_iff o "*",
  eq_iff o origin,
  eq_iff "*" "*",
  eq_iff "*" origin,
)

passes-foldl :
    (s : Origins) (os : List String) (origin : String)
    → passes (foldl collect s os) origin ≡ (passes s origin || any (λ o. admits o origin) os)
passes-foldl s [] origin = ground arith
passes-foldl s (o ∷ os) origin =
    ground (arith, passes-foldl (collect s o) os origin, passes-collect s o origin)

-- An origin passes exactly when some entry of the comma-separated lists admits it.
pub check_origin_lem :
    (allowed_origins : List String) (origin : String)
    → check_origin allowed_origins origin ≡ any (λ o. admits o origin) (separate allowed_origins)
unfolding check_origin passes
check_origin_lem allowed_origins origin = passes-foldl ([], []) (separate allowed_origins) origin

-- The header after the lines of an allowed origin
unfoldable pub cors_header : String → String → Header → Header
cors_header origin headers h = set_header "Access-Control-Allow-Headers" headers (
    set_header "Access-Control-Max-Age" "86400" (
      set_header "Access-Control-Allow-Credentials" "true" (
        set_header "Access-Control-Allow-Methods" "GET, OPTIONS, PUT, POST, PATCH, DELETE"
          (set_header "Vary" "Origin" (set_header "Access-Control-Allow-Origin" origin h)))))

pub origin-cors_header :
    (origin headers : String) (h : Header)
    → get_header "Access-Control-Allow-Origin" (cors_header origin headers h) ≡ origin
unfolding cors_header
origin-cors_header origin headers h = simp get_header-set_header

module _ (fields_text : List FieldError → String) (caller : Caller) (no_data : Encoded)
    (allowed_origins allowed_headers : List String) (handler : Handler) (ctx : Ctx)
    (r : Request) where
  abbrev pub cors_run : World → Result (Option GoError) × World
  cors_run w =
      cors_handler fields_text caller no_data allowed_origins allowed_headers handler ctx r w

  -- Without an Origin header the middleware does nothing.
  pub cors_handler-no_origin :
      (w : World) → get_header "Origin" r.header ≡ "" → cors_run w ≡ handler ctx r w
  unfolding cors_handler
  cors_handler-no_origin w h = rw h refl

  -- A request with an Origin that no entry admits, before anything was sent, is answered with 403
  -- and a JSON error as the whole body; no error is reported, and no header line is added but the
  -- content type.
  pub cors_handler-rejects :
      (w : World)
      → get_header "Origin" r.header ≢ ""
      → check_origin allowed_origins (get_header "Origin" r.header) ≡ false
      → IsUnsent w
      → ((cors_run w).0 ≡ done none)
        × ((cors_run w).1.response.body
            ≡ error_json
                (pos 403)
                ("CORS origin[" <> (get_header "Origin" r.header <> "] not allowed"))
              ∷ [])
        × ((cors_run w).1.response.sent
            ≡ some (pos 403, set_header "Content-Type" "application/json" w.response.header))
  unfolding cors_handler respond_error new_error error_text
  cors_handler-rejects w named refused unsent =
      rw (str_ne (get_header "Origin" r.header) "" named, refused)
        (respond_json_sends ctx (pos 403)
          (error_json (pos 403)
            ("CORS origin[" <> (get_header "Origin" r.header <> "] not allowed")))
          w unsent (record { valid = refl; final = refl; no_content = refl; modified = refl }))

  -- A request with an Origin that some entry admits, other than OPTIONS, is handed to the handler
  -- with that origin as Access-Control-Allow-Origin.
  pub cors_handler-accepts :
      (w : World)
      → get_header "Origin" r.header ≢ ""
      → check_origin allowed_origins (get_header "Origin" r.header) ≡ true
      → str_eq r.method "OPTIONS" ≡ false
      → (h : Header) × (cors_run w ≡ handler ctx r (with_header h w))
        × (get_header "Access-Control-Allow-Origin" h ≡ get_header "Origin" r.header)
  unfolding cors_handler set_cors cors_header
  cors_handler-accepts w named admitted other = (
    cors_header (get_header "Origin" r.header) (headers_text allowed_headers) w.response.header,
    rw (str_ne (get_header "Origin" r.header) "" named, admitted, other) refl,
    origin-cors_header _ _ w.response.header,
  )

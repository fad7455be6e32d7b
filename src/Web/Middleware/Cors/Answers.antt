-- ===== src/Web/Middleware/Cors/Answers.antt =====
-- What the CORS middleware makes of a request, as a relation, and that it does that.
use httper.Web.Middleware.Cors.{set_cors, headers_text, cors_handler, separate, check_origin}
use httper.Web.Respond.{respond_json, Encoded}
use httper.Base.{
  ◌∙◌, sym, subst, inl, inr, Bool-cases, arith, eq_iff, refl, str_ne, true, false, ◌≢◌, String,
  ◌<>◌, ◌≡◌, Bool, Option, none, some, List, [], ◌∷◌, str_eq, any, pos,
}
use httper.GoError.{GoError, FieldError}
use httper.Web.Errs.{Caller}
use httper.Web.World.{
  error_json, done, Ctx, Handler, with_header, Result, World, set_header, Request, get_header,
  Header,
}
use httper.Web.Respond.Laws.{IsUnsent, respond_json-no_content}
use httper.Web.Middleware.Cors.Laws.{
  admits, check_origin_lem, cors_header, origin-cors_header, cors_run, cors_handler-no_origin,
  cors_handler-rejects,
}

abbrev pub origin_of : Request → String
origin_of r = get_header "Origin" r.header

-- Some entry of the comma-separated lists admits the origin of the request.
abbrev pub is_admitted : List String → Request → Bool
is_admitted allowed_origins r = any (λ o. admits o (origin_of r)) (separate allowed_origins)

abbrev pub is_options : Request → Bool
is_options r = str_eq r.method "OPTIONS"

-- What comes of a request: it goes to the handler as it is, is refused, is answered as a preflight,
-- or goes to the handler with the origin allowed.
pub data CorsAnswer (allowed_origins : List String) (handler : Handler) (ctx : Ctx) (r : Request)
    (w : World) : Result (Option GoError) × World → Type 0 where
  no_origin : origin_of r ≡ "" → CorsAnswer allowed_origins handler ctx r w (handler ctx r w)
  refused :
      {x : Result (Option GoError) × World}
      → is_admitted allowed_origins r ≡ false
      → x.0 ≡ done none
      → x.1.response.body
        ≡ error_json (pos 403) ("CORS origin[" <> (origin_of r <> "] not allowed")) ∷ []
      → x.1.response.sent
        ≡ some (pos 403, set_header "Content-Type" "application/json" w.response.header)
      → CorsAnswer allowed_origins handler ctx r w x
  preflight :
      {x : Result (Option GoError) × World} (h : Header)
      → is_admitted allowed_origins r ≡ true
      → is_options r ≡ true
      → get_header "Access-Control-Allow-Origin" h ≡ origin_of r
      → x.0 ≡ done none
      → x.1.response.body ≡ []
      → x.1.response.sent ≡ some (pos 204, h)
      → CorsAnswer allowed_origins handler ctx r w x
  handed_on :
      (h : Header)
      → is_admitted allowed_origins r ≡ true
      → is_options r ≡ false
      → get_header "Access-Control-Allow-Origin" h ≡ origin_of r
      → CorsAnswer allowed_origins handler ctx r w (handler ctx r (with_header h w))

module _ (fields_text : List FieldError → String) (caller : Caller) (no_data : Encoded)
    (allowed_origins allowed_headers : List String) (handler : Handler) (ctx : Ctx)
    (r : Request) where
  abbrev ran : World → Result (Option GoError) × World
  ran w = cors_run fields_text caller no_data allowed_origins allowed_headers handler ctx r w

  abbrev allowing : World → Header
  allowing w = cors_header (origin_of r) (headers_text allowed_headers) w.response.header

  module _ (w : World) (named : origin_of r ≢ "")
      (admitted : check_origin allowed_origins (origin_of r) ≡ true) where
    run-preflight :
        is_options r ≡ true
        → ran w ≡ respond_json ctx (pos 204) no_data (with_header (allowing w) w)
    unfolding cors_handler set_cors cors_header
    run-preflight options = rw (str_ne (origin_of r) "" named, admitted, options) refl

    run-handed_on : is_options r ≡ false → ran w ≡ handler ctx r (with_header (allowing w) w)
    unfolding cors_handler set_cors cors_header
    run-handed_on other = rw (str_ne (origin_of r) "" named, admitted, other) refl

  admitted_or_not :
      (w : World)
      → IsUnsent w
      → origin_of r ≢ ""
      → check_origin allowed_origins (origin_of r) ≡ is_admitted allowed_origins r
      → CorsAnswer allowed_origins handler ctx r w (ran w)
  admitted_or_not w u named same = elim (Bool-cases (is_admitted allowed_origins r)) [
    | inr other ↦
        let (quiet, body, sent) =
          cors_handler-rejects fields_text caller no_data allowed_origins allowed_headers handler
            ctx r w named (same ∙ other) u in
        refused other quiet body sent
    | inl admitted ↦ elim (Bool-cases (is_options r)) [
      | inl options ↦
          let h = allowing w in
          let (quiet, body, sent) =
            respond_json-no_content ctx no_data (with_header h w)
              (record { unsent = u.unsent; unwritten = u.unwritten; works = u.works }) in
          subst (CorsAnswer allowed_origins handler ctx r w)
            (sym (run-preflight w named (same ∙ admitted) options))
            (preflight h admitted options (origin-cors_header _ _ w.response.header) quiet body
              sent)
      | inr other ↦
          subst (CorsAnswer allowed_origins handler ctx r w)
            (sym (run-handed_on w named (same ∙ admitted) other))
            (handed_on (allowing w) admitted other (origin-cors_header _ _ w.response.header))
    ]
  ]

  -- CORS, with any lists of origins and headers, before anything was sent. A request without an
  -- Origin goes to the handler as it is. One whose Origin no entry of the comma-separated lists admits
  -- is answered with 403 and a JSON error as the whole body, and no header line is added but the
  -- content type. Of those that an entry admits, one with the method OPTIONS is answered with 204, no
  -- body and its origin as Access-Control-Allow-Origin, and the handler does not run; any other goes
  -- to the handler with that header line. No error is reported but what the handler reports.
  pub cors_handler-CorsAnswer :
      (w : World) → IsUnsent w → CorsAnswer allowed_origins handler ctx r w (ran w)
  cors_handler-CorsAnswer w u = elim (Bool-cases (str_eq (origin_of r) "")) [
    | inl empty ↦
        let none_there : origin_of r ≡ "" = ground (arith, eq_iff (origin_of r) "") in
        subst (CorsAnswer allowed_origins handler ctx r w)
          (sym (
            cors_handler-no_origin fields_text caller no_data allowed_origins allowed_headers
              handler ctx r w none_there))
          (no_origin none_there)
    | inr named ↦
        admitted_or_not w u (λ e. ground (arith, eq_iff (origin_of r) ""))
          (check_origin_lem allowed_origins (origin_of r))
  ]

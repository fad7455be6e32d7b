-- ===== src/Web/Mux.antt =====
-- web/mux/mux.go. The *http.ServeMux that all apps of a tree share is a table of patterns and
-- handlers, passed along; `Router` is what net/http does with the table.
pub mod Laws
pub mod Entering
pub mod Options
pub mod Outside
pub mod Serving
pub mod Registering
pub mod Slices
use httper.GoError.{GoError}
use mathlib.Core.List.{reverse}
use httper.Web.World.{
  Span, Ctx, Header, Request, World, Result, done, panicked, Act, pure, ◌>>=◌, ◌>>◌, get, modify,
  log, mux_error, Handler, Middleware, nil, named,
}
use httper.Web.Context.{set_values}
use httper.Base.{
  ℕ, String, ◌<>◌, Bool, Option, none, some, List, [], ◌∷◌, ◌++◌, map, foldl, str_eq, if◌then◌else◌,
  pos, trim_left,
}

-- http.HandlerFunc
abbrev pub HandlerFunc : Type 0
HandlerFunc = Request → Act (Unit {0})

abbrev pub Table : Type 0
Table = List (String × HandlerFunc)

-- What the package calls of the tracing, uuid and net/http packages: Tracer.Start, the
-- propagator's Inject into a header, uuid.New, time.Now, whether a pattern conflicts with those
-- registered (HandleFunc panics), which registered pattern a request selects, and what is served
-- when there is none.
pub record Router : Type 0 where
  pub start : ℕ → Ctx → String → Ctx × Span
  pub inject : Ctx → Header → Header
  pub new_uuid : World → String
  pub time_now : World → ℕ
  pub conflicts : List String → String → Bool
  pub choose : List String → Request → Option String
  pub not_found : HandlerFunc

pub record App : Type 0 where
  pub global_mw : List Middleware
  pub mw : List Middleware
  pub group : String
  pub logger : ℕ
  pub tracer : ℕ

-- One round of the loop of `wrap`.
abbrev wrap_one : Handler → Middleware → Handler
wrap_one handler nil = handler
wrap_one handler (named _ mw_fn) = mw_fn handler

-- wrap: the loop runs over slices.Backward(mw).
unfoldable pub wrap : List Middleware → Handler → Handler
wrap mw handler = foldl wrap_one handler (reverse mw)

-- adapt
unfoldable pub adapt : HandlerFunc → Handler
adapt h ctx r = do h r; pure none

unfoldable pub patterns : Table → List String
patterns t = map (λ e. e.0) t

-- The handler registered for a pattern.
unfoldable pub find_handler : String → Table → Option HandlerFunc
find_handler p [] = none
find_handler p ((q, h) ∷ t) = if str_eq q p then some h else find_handler p t

-- The log of an error that a handler returned.
abbrev log_error : String → Option GoError → Act (Unit {0})
log_error what none = pure tt
log_error what (some e) = log (mux_error what e)

abbrev final_path : String → String → String
final_path group path = if str_eq group "" then path else "/" <> (group <> path)

module _ (router : Router) where
  -- (*http.ServeMux).HandleFunc
  unfoldable pub handle_func : String → HandlerFunc → Table → Result Table
  unfolding patterns
  handle_func pattern h t =
      if router.conflicts (patterns t) pattern
      then panicked "pattern conflicts"
      else done (t ++ (pattern, h) ∷ [])

  abbrev serve_found : Request → Option HandlerFunc → Act (Unit {0})
  serve_found r none = router.not_found r
  serve_found r (some h) = h r

  abbrev serve_chosen : Table → Request → Option String → Act (Unit {0})
  serve_chosen t r none = router.not_found r
  serve_chosen t r (some p) = serve_found r (find_handler p t)

  -- (*http.ServeMux).ServeHTTP
  unfoldable pub mux_serve : Table → HandlerFunc
  unfolding patterns find_handler
  mux_serve t r = serve_chosen t r (router.choose (patterns t) r)

  -- (*App).ServeHTTP
  unfoldable pub serve_http : App → Table → HandlerFunc
  unfolding wrap mux_serve
  serve_http a t r = do
    err ← wrap a.global_mw (λ ctx r'. (do mux_serve t r'; pure none)) r.ctx r
    log_error "serve http" err

  -- startSpan: the context of the span, and the span. Attributes of the span are not kept.
  start_span : App → Request → Act (Ctx × Span)
  start_span a r = do
    let started = router.start a.tracer r.ctx "mux.handler"
    modify (λ w. record w {
      response = record w.response { header = router.inject started.0 w.response.header };
    })
    pure started

  -- The closure `h` of Handle, around the wrapped handler.
  unfoldable pub handle_request : App → Handler → HandlerFunc
  unfolding start_span set_values
  handle_request a handler r = do
    (ctx, span) ← start_span a r
    w ← get
    let trace_id = if span.is_valid then span.trace_id else router.new_uuid w
    ctx' ← set_values ctx (record {
      trace_id = trace_id;
      now = router.time_now w;
      tracer = some a.tracer;
      status_code = pos 0;
    })
    err ← handler ctx' (record r { ctx = ctx' })
    log_error "handle" err

  -- (*App).Handle
  unfoldable pub handle :
      App → (method group path : String) → Handler → List Middleware → Table → Result Table
  unfolding wrap handle_func handle_request
  handle a method group path handler mw t =
      handle_func (method <> (" " <> final_path group path))
        (handle_request a (wrap a.mw (wrap mw handler))) t

  -- (*App).HandleRaw
  unfoldable pub handle_raw :
      App → (method group path : String) → HandlerFunc → List Middleware → Table → Result Table
  unfolding handle adapt
  handle_raw a method group path handler mw t = handle a method group path (adapt handler) mw t

  -- The closure `h` of HandleNoMiddleware
  unfoldable pub handle_bare : Handler → HandlerFunc
  handle_bare handler r = do err ← handler r.ctx r; log_error "handle no mw" err

  -- (*App).HandleNoMiddleware
  unfoldable pub handle_no_middleware :
      App → (method group path : String) → Handler → Table → Result Table
  unfolding handle_func handle_bare
  handle_no_middleware a method group path handler t =
      handle_func (method <> (" " <> final_path group path)) (handle_bare handler) t

  -- (*App).Get, Post, Put, Patch and Delete
  unfoldable pub get_route : App → String → Handler → List Middleware → Table → Result Table
  unfolding handle
  get_route a path fn mw = handle a "GET" a.group path fn mw

  unfoldable pub post_route : App → String → Handler → List Middleware → Table → Result Table
  unfolding handle
  post_route a path fn mw = handle a "POST" a.group path fn mw

  unfoldable pub put_route : App → String → Handler → List Middleware → Table → Result Table
  unfolding handle
  put_route a path fn mw = handle a "PUT" a.group path fn mw

  unfoldable pub patch_route : App → String → Handler → List Middleware → Table → Result Table
  unfolding handle
  patch_route a path fn mw = handle a "PATCH" a.group path fn mw

  unfoldable pub delete_route : App → String → Handler → List Middleware → Table → Result Table
  unfolding handle
  delete_route a path fn mw = handle a "DELETE" a.group path fn mw

-- (*App).Group
unfoldable pub group_app : App → App
group_app a = record a { group = "" }

-- (*App).Mount
unfoldable pub mount : String → App → App
unfolding trim_left
mount sub_route a = record a { group = trim_left b'/' sub_route }

-- (*App).Use
unfoldable pub use_mw : List Middleware → App → App
use_mw mw a = record a { mw = a.mw ++ mw }

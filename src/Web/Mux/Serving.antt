-- ===== src/Web/Mux/Serving.antt =====
-- From a registration to the handler that serves a request.
use httper.Web.Mux.{
  serve_found, serve_chosen, HandlerFunc, Table, Router, App, wrap, patterns, find_handler,
  log_error, final_path, handle_func, mux_serve, serve_http, handle_request, handle,
}
use httper.Web.World.{and_then, Request, World, Result, done, panicked, pure, Handler, Middleware}
use httper.Base.{
  Option, List, ◌∙◌, ◌<>◌, String, ◌≡◌, refl, ap, none, some, [], ◌∷◌, ◌++◌, arith, eq_iff,
}
use httper.GoError.{GoError}

find_handler-append :
    (p : String) (h : HandlerFunc) (t : Table)
    → find_handler p t ≡ none
    → find_handler p (t ++ (p, h) ∷ []) ≡ some h
unfolding find_handler
find_handler-append p h [] new = rw ((eq_iff p p).1 refl) refl
find_handler-append p h ((q, g) ∷ t) new = ground (arith, find_handler-append p h t)

abbrev ignored : Result (Unit {0}) × World → Result (Option GoError) × World
ignored x = and_then x.0 (λ _. pure none) x.1

-- Nothing is logged where no error is returned.
and_then-ignored :
    (x : Result (Unit {0}) × World)
    → and_then (ignored x).0 (log_error "serve http") (ignored x).1 ≡ x
and_then-ignored (done a, w) = refl
and_then-ignored (panicked s, w) = refl

abbrev pub pattern_of : String → String → String → String
pattern_of method group path = method <> (" " <> final_path group path)

module _ (router : Router) where
  serve_http-mux_serve :
      (a : App) (t : Table) (r : Request) (w : World)
      → a.global_mw ≡ []
      → serve_http router a t r w ≡ mux_serve router t r w
  unfolding serve_http wrap
  serve_http-mux_serve a t r w none_global =
      rw none_global (and_then-ignored (mux_serve router t r w))

  mux_serve-chosen :
      (p : String) (h : HandlerFunc) (t : Table) (r : Request) (w : World)
      → find_handler p t ≡ none
      → router.choose (patterns (t ++ (p, h) ∷ [])) r ≡ some p
      → mux_serve router (t ++ (p, h) ∷ []) r w ≡ h r w
  unfolding mux_serve
  mux_serve-chosen p h t r w new chosen =
      ap (λ o. serve_chosen router (t ++ (p, h) ∷ []) r o w) chosen
      ∙ ap (λ o. serve_found router r o w) (find_handler-append p h t new)

  handle-inv :
      (a : App) (method group path : String) (handler : Handler) (mw : List Middleware) (t : Table)
      {t' : Table}
      → handle router a method group path handler mw t ≡ done t'
      → t'
        ≡ t
          ++ (pattern_of method group path, handle_request router a (wrap a.mw (wrap mw handler)))
            ∷ []
  unfolding handle handle_func
  handle-inv a method group path handler mw t registered = ground arith

  -- An app without global middleware serves a request, for which the mux chooses the pattern that
  -- Handle has registered, by the handler inside the route's middleware inside the app's, behind
  -- the start of the span and the new values. The pattern was not in the table before.
  pub serve_http-handle :
      (a : App) (method group path : String) (handler : Handler) (mw : List Middleware) (t : Table)
      {t' : Table} (r : Request) (w : World)
      → a.global_mw ≡ []
      → find_handler (pattern_of method group path) t ≡ none
      → handle router a method group path handler mw t ≡ done t'
      → router.choose (patterns t') r ≡ some (pattern_of method group path)
      → serve_http router a t' r w ≡ handle_request router a (wrap a.mw (wrap mw handler)) r w
  serve_http-handle a method group path handler mw t {t'} r w none_global new registered chosen =
      let stands = handle-inv a method group path handler mw t registered in
      serve_http-mux_serve a t' r w none_global
      ∙ rw stands (
          mux_serve-chosen (pattern_of method group path)
            (handle_request router a (wrap a.mw (wrap mw handler))) t r w new (rw stands at chosen))

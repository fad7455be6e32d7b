-- ===== src/Web/Mux/Outside.antt =====
-- The outermost global middleware of an app, around its mux.
use httper.Base.{String, ◌≡◌, refl, ◌∙◌, Option, none, List, ◌∷◌}
use httper.GoError.{GoError}
use httper.Web.World.{
  Request, World, Result, done, Handler, Middleware, named, and_then, pure, ◌>>◌,
}
use httper.Web.Mux.{App, Router, Table, wrap, wrap_one, serve_http, mux_serve, log_error}
use httper.Web.Mux.Laws.{wrap-cons}

module _ (router : Router) where
  abbrev pub mux_handler : Table → Handler
  mux_handler t ctx r = do mux_serve router t r; pure none

  abbrev after_outside : Result (Option GoError) × World → Result (Unit {0}) × World
  after_outside x = and_then x.0 (log_error "serve http") x.1

  after_outside-done :
      (x : Result (Option GoError) × World) → x.0 ≡ done none → after_outside x ≡ (done tt, x.1)
  after_outside-done x e = rw e refl

  module _ (a : App) (t : Table) (r : Request) (w : World) where
    serve_http-wrap :
        (m : Middleware) (ms : List Middleware)
        → a.global_mw ≡ m ∷ ms
        → serve_http router a t r w ≡ after_outside (wrap_one (wrap ms (mux_handler t)) m r.ctx r w)
    unfolding serve_http
    serve_http-wrap m ms first = rw (first, wrap-cons m ms (mux_handler t)) refl

    -- Where the outermost middleware reports no error, what it leaves is what is served.
    pub serve_http-outermost :
        {s : String} {f : Handler → Handler} (ms : List Middleware)
        → a.global_mw ≡ named s f ∷ ms
        → (f (wrap ms (mux_handler t)) r.ctx r w).0 ≡ done none
        → serve_http router a t r w ≡ (done tt, (f (wrap ms (mux_handler t)) r.ctx r w).1)
    serve_http-outermost {s} {f} ms first quiet =
        serve_http-wrap (named s f) ms first
        ∙ after_outside-done (f (wrap ms (mux_handler t)) r.ctx r w) quiet

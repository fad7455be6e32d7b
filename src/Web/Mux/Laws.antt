-- ===== src/Web/Mux/Laws.antt =====
-- The order in which middleware runs, and what a registration adds to the table.
use mathlib.Core.List.{reverse, reverse-cons}
use httper.Web.World.{Handler, Middleware}
use httper.Base.{foldl-append, String, ◌≡◌, refl, sym, ap, ◌∙◌, List, [], ◌∷◌, ◌++◌}
use httper.Web.Mux.{wrap, wrap_one, handle, use_mw, Router, App, Table}

-- The first middleware is the outermost one.
pub wrap-cons :
    (m : Middleware) (mw : List Middleware) (handler : Handler)
    → wrap (m ∷ mw) handler ≡ wrap_one (wrap mw handler) m
unfolding wrap
wrap-cons m mw handler = rw reverse-cons (foldl-append wrap_one handler (reverse mw) (m ∷ []))

-- Wrapping by one list inside another is wrapping by the two lists in order.
pub wrap-append :
    (xs ys : List Middleware) (handler : Handler)
    → wrap (xs ++ ys) handler ≡ wrap xs (wrap ys handler)
unfolding wrap
wrap-append [] ys handler = refl
wrap-append (x ∷ xs) ys handler =
    wrap-cons x (xs ++ ys) handler
    ∙ ap (λ h. wrap_one h x) (wrap-append xs ys handler)
    ∙ sym (wrap-cons x xs (wrap ys handler))

-- Registering a route on an app to which Use has added middleware is registering it on the app
-- before, with the added middleware in front of the route's own.
pub handle-use_mw :
    (router : Router) (a : App) (ms mw : List Middleware) (method group path : String)
    (handler : Handler) (t : Table)
    → handle router (use_mw ms a) method group path handler mw t
      ≡ handle router a method group path handler (ms ++ mw) t
unfolding handle use_mw
handle-use_mw router a ms mw method group path handler t =
    rw (wrap-append a.mw ms (wrap mw handler), wrap-append ms mw handler) refl

-- ===== src/Web/Mux/Options/Making.antt =====
-- The app that New makes of a list of middleware.
use httper.Base.{◌≡◌, refl, sym, ap, ◌∙◌, List, [], ◌∷◌}
use httper.Web.World.{Middleware, Result, done, panicked}
use httper.Web.Context.{noop_tracer}
use httper.Web.Mux.{App, Router, Table}
use httper.Web.Mux.Options.{with_middleware, new_app, opt_middleware, default_logger, apply}

-- An app of New with these two stacks and no other option
abbrev pub app_of : List Middleware × List Middleware → App
app_of (globals, routes) = record {
  global_mw = globals;
  mw = routes;
  group = "";
  logger = default_logger;
  tracer = noop_tracer;
}

abbrev app_in : Result (App × Table) → App
app_in (done x) = x.0
app_in (panicked s) = app_of ([], [])

pub new_app-app_of :
    (router : Router) (mw : List Middleware)
    → new_app router (opt_middleware mw ∷ []) ≡ done (app_of (with_middleware mw), [])
unfolding new_app apply
new_app-app_of router mw = refl

pub new_app-inv :
    (router : Router) (mw : List Middleware) {a : App} {t : Table}
    → new_app router (opt_middleware mw ∷ []) ≡ done (a, t)
    → app_of (with_middleware mw) ≡ a
new_app-inv router mw made = ap (λ x. app_in x) (sym (new_app-app_of router mw) ∙ made)

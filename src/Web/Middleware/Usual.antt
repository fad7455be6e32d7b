-- ===== src/Web/Middleware/Usual.antt =====
-- The app that New makes of Logger, Errors and Panics.
use httper.Web.Middleware.Errors.{errors}
use httper.Web.World.{World, done, Middleware}
use httper.GoError.{FieldError}
use httper.Base.{ℕ, String, ◌≡◌, refl, ap, ◌∙◌, List, [], ◌∷◌}
use httper.Web.Errs.{Caller}
use httper.Web.Mux.{App, Router}
use httper.Web.Mux.Options.{with_middleware, new_app, opt_middleware}
use httper.Web.Mux.Options.Making.{app_of, new_app-app_of}
use httper.Web.Mux.Options.Laws.{with_middleware_lem, named_as, custom}
use httper.Web.Middleware.Logger.{logger}
use httper.Web.Middleware.Panics.{panics}

module _ (fields_text : List FieldError → String) (caller : Caller) (time_now : ℕ)
    (stack : World → String) where
  -- Logger, Errors and Panics, once each, in any order
  pub record IsUsual (mw : List Middleware) : Type 0 where
    pub no_cors : named_as "CORS" mw ≡ []
    pub no_csrf : named_as "CSRF" mw ≡ []
    pub one_logger : named_as "Logger" mw ≡ logger time_now ∷ []
    pub one_errors : named_as "Errors" mw ≡ errors fields_text caller time_now ∷ []
    pub no_custom : custom mw ≡ []
    pub one_panics : named_as "Panics" mw ≡ panics stack ∷ []

  abbrev pub usual : List Middleware
  usual = logger time_now ∷ errors fields_text caller time_now ∷ panics stack ∷ []

  pub with_middleware-usual : (mw : List Middleware) → IsUsual mw → with_middleware mw ≡ ([], usual)
  with_middleware-usual mw u =
      with_middleware_lem mw
      ∙ rw (u.no_cors, u.no_csrf, u.one_logger, u.one_errors, u.no_custom, u.one_panics) refl

  abbrev pub usual_app : App
  usual_app = app_of ([], usual)

  pub new_app-usual :
      (router : Router) (mw : List Middleware)
      → IsUsual mw
      → new_app router (opt_middleware mw ∷ []) ≡ done (usual_app, [])
  new_app-usual router mw u =
      new_app-app_of router mw ∙ ap (λ s. done (app_of s, [])) (with_middleware-usual mw u)

-- ===== src/Web/Tests.antt =====
-- Redirects, responses, registrations and errors.
mod Samples
mod Stack
mod Denied
mod Served
mod Reached
use httper.Base.{◌≡◌, refl, ◌⊎◌, [], ◌∷◌, ◌++◌, pos}
use httper.Web.World.{pure}
use httper.Web.Respond.Redirect.{redirect_lem, Refused, Sent}
use httper.Web.Mux.Options.{with_middleware}
use httper.Web.Mux.Options.Laws.{with_middleware_lem, named_as, custom}
use httper.Web.Middleware.Errors.{errors}
use httper.Web.Middleware.Logger.{logger}
use httper.Web.Middleware.Panics.{panics}
use httper.Web.Tests.Samples.{no_text, caller, world, request, stack}

with_middleware_lem_example :
    with_middleware (panics stack ∷ errors no_text caller 3 ∷ logger 3 ∷ []) ≡ (
      named_as "CORS" (panics stack ∷ errors no_text caller 3 ∷ logger 3 ∷ [])
          ++ named_as "CSRF" (panics stack ∷ errors no_text caller 3 ∷ logger 3 ∷ []),
      named_as "Logger" (panics stack ∷ errors no_text caller 3 ∷ logger 3 ∷ [])
          ++ (named_as "Errors" (panics stack ∷ errors no_text caller 3 ∷ logger 3 ∷ [])
              ++ (custom (panics stack ∷ errors no_text caller 3 ∷ logger 3 ∷ [])
                  ++ named_as "Panics" (panics stack ∷ errors no_text caller 3 ∷ logger 3 ∷ []))),
    )
with_middleware_lem_example =
    with_middleware_lem (panics stack ∷ errors no_text caller 3 ∷ logger 3 ∷ [])

redirect_lem_example :
    Refused (λ r url. url) (request "GET" []) "/login" (pos 302) world
    ⊎ Sent (λ r url. url) (request "GET" []) "/login" (pos 302) world
redirect_lem_example = redirect_lem (λ r url. url) (request "GET" []) "/login" (pos 302) world refl

-- ===== src/Web/Tests/Stack.antt =====
-- Requests through the middleware.
use httper.Web.Tests.Samples.{world-IsUnsent, no_text, caller, world, ctx, request, from, silent}
use httper.Web.Middleware.Cors.Answers.{CorsAnswer, cors_handler-CorsAnswer}
use httper.Base.{String, List, [], ◌∷◌}
use httper.Web.World.{Request, value_json}
use httper.Web.Respond.{marshalled}
use httper.Web.Middleware.Cors.{cors_handler}

abbrev allowed : List String
allowed = "https://app.example.com,https://*.test.com" ∷ []

-- A preflight
cors_handler-CorsAnswer_example :
    CorsAnswer allowed silent ctx (from "OPTIONS" "https://a.test.com") world (
      cors_handler no_text caller
        (marshalled (value_json "null"))
        allowed
        []
        silent
        ctx
        (from "OPTIONS" "https://a.test.com")
        world)
cors_handler-CorsAnswer_example =
    cors_handler-CorsAnswer no_text caller (marshalled (value_json "null")) allowed [] silent ctx
      (from "OPTIONS" "https://a.test.com") world world-IsUnsent

abbrev forged : Request
forged = request "POST" (("Sec-Fetch-Site", "cross-site") ∷ [])

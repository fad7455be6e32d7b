-- ===== src/Web/Mux/Slices/Tests.antt =====
-- A group of an App with room behind its stack, and middleware on both.
use httper.Base.{◌+◌, ◌≡◌, [], ◌∷◌, List, map, refl}
use httper.Web.World.{Middleware, named}
use httper.Web.Mux.{App, group_app, mount, use_mw}
use httper.Web.Mux.Slices.{Call, group, mounted, use_on, made_with, run_calls}
use httper.Web.Mux.Slices.Independent.{stacks, app_calls}
use httper.Web.Mux.Slices.Refinement.{stacks-run_calls}

abbrev first : Middleware
first = named "first" (λ h. h)

abbrev second : Middleware
second = named "second" (λ h. h)

abbrev third : Middleware
third = named "third" (λ h. h)

abbrev root : App
root = record { global_mw = []; mw = first ∷ []; group = ""; logger = 0; tracer = 0 }

-- The append to the root writes into its array, behind which the group has a clone.
abbrev calls : List Call
calls = group 0 ∷ use_on 0 (second ∷ []) ∷ use_on 1 (third ∷ []) ∷ mounted 1 "/v1" ∷ []

stacks-run_calls_example :
    stacks (run_calls (λ n. n + 2) calls (made_with (λ n. n + 2) root.mw))
    ≡ map App.mw (app_calls calls (root ∷ []))
stacks-run_calls_example = stacks-run_calls (λ n. n + 2) root calls

-- The group has not the middleware that the root used after it was made.
root_and_group :
    map App.mw (app_calls calls (root ∷ []))
    ≡ (first ∷ second ∷ []) ∷ (first ∷ third ∷ []) ∷ (first ∷ third ∷ []) ∷ []
unfolding group_app mount use_mw
root_and_group = refl

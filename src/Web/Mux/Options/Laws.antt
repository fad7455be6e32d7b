-- ===== src/Web/Mux/Options/Laws.antt =====
-- What WithMiddleware makes of a list of middleware.
use mathlib.Core.List.{map-append, append-nil, append_assoc}
use httper.Web.World.{Middleware}
use httper.Web.Mux.Options.{with_middleware, Ordered, name, categorize}
use httper.Web.Mux.Options.Sorting.{sort_stable-buckets, buckets, at, IsOneOf}
use httper.Base.{
  ℕ, String, ◌≡◌, refl, ◌∙◌, inl, inr, Bool, true, false, not, ◌||◌, List, [], ◌∷◌, ◌++◌, map,
  foldl, arith, str_eq, eq_iff, ◌==◌, if◌then◌else◌, Bool-cases, All,
}

-- The middleware made by a function of this name, in the order given.
unfoldable pub named_as : String → List Middleware → List Middleware
named_as k [] = []
named_as k (m ∷ ms) = if str_eq (name m) k then m ∷ named_as k ms else named_as k ms

abbrev is_known : String → Bool
is_known s =
    str_eq s "CORS"
    || (str_eq s "CSRF" || (str_eq s "Logger" || (str_eq s "Errors" || str_eq s "Panics")))

-- The middleware of every other name.
unfoldable pub custom : List Middleware → List Middleware
custom [] = []
custom (m ∷ ms) = if is_known (name m) then custom ms else m ∷ custom ms

abbrev entry : ℕ → Bool → Middleware → Ordered
entry p g m = record { priority = p; global = g; fn = m }

-- The two lists that the loop of WithMiddleware builds.
globals_of : List Middleware → List Ordered
globals_of [] = []
globals_of (m ∷ ms) =
    if str_eq (name m) "CORS"
    then entry 1 true m ∷ globals_of ms
    else if str_eq (name m) "CSRF"
    then entry 2 true m ∷ globals_of ms
    else globals_of ms

route_priority : String → ℕ
route_priority s =
    if str_eq s "Logger"
    then 3
    else if str_eq s "Errors"
    then 4
    else if str_eq s "Panics"
    then 100
    else 5

routes_of : List Middleware → List Ordered
routes_of [] = []
routes_of (m ∷ ms) =
    if str_eq (name m) "CORS"
    then routes_of ms
    else if str_eq (name m) "CSRF"
    then routes_of ms
    else entry (route_priority (name m)) false m ∷ routes_of ms

foldl-categorize :
    (g r : List Ordered) (ms : List Middleware)
    → foldl categorize (g, r) ms ≡ (g ++ globals_of ms, r ++ routes_of ms)
unfolding categorize globals_of routes_of route_priority
foldl-categorize g r [] = simp append-nil
foldl-categorize g r (m ∷ ms) = elim (Bool-cases (str_eq (name m) "CORS")) [
  | inl e ↦ rw e (foldl-categorize (g ++ entry 1 true m ∷ []) r ms ∙ simp append_assoc)
  | inr e ↦ elim (Bool-cases (str_eq (name m) "CSRF")) [
    | inl f ↦ rw (e, f) (foldl-categorize (g ++ entry 2 true m ∷ []) r ms ∙ simp append_assoc)
    | inr f ↦ elim (Bool-cases (str_eq (name m) "Logger")) [
      | inl k ↦ rw (e, f, k) (foldl-categorize g (r ++ entry 3 false m ∷ []) ms ∙ simp append_assoc)
      | inr k ↦ elim (Bool-cases (str_eq (name m) "Errors")) [
        | inl l ↦
            rw (e, f, k, l) (foldl-categorize g (r ++ entry 4 false m ∷ []) ms ∙ simp append_assoc)
        | inr l ↦ elim (Bool-cases (str_eq (name m) "Panics")) [
          | inl n ↦
              rw (e, f, k, l, n)
                (foldl-categorize g (r ++ entry 100 false m ∷ []) ms ∙ simp append_assoc)
          | inr n ↦
              rw (e, f, k, l, n)
                (foldl-categorize g (r ++ entry 5 false m ∷ []) ms ∙ simp append_assoc)
        ]
      ]
    ]
  ]
]

globals_of-IsOneOf :
    (ms : List Middleware) → All (λ x. IsOneOf x.priority (1 ∷ 2 ∷ [])) (globals_of ms)
unfolding globals_of
globals_of-IsOneOf [] = tt
globals_of-IsOneOf (m ∷ ms) = ground (arith, globals_of-IsOneOf ms)

routes_of-IsOneOf :
    (ms : List Middleware) → All (λ x. IsOneOf x.priority (3 ∷ 4 ∷ 5 ∷ 100 ∷ [])) (routes_of ms)
unfolding routes_of route_priority
routes_of-IsOneOf [] = tt
routes_of-IsOneOf (m ∷ ms) = ground (arith, routes_of-IsOneOf ms)

abbrev fns : List Ordered → List Middleware
fns xs = map (λ o. o.fn) xs

fns-at-globals :
    (ms : List Middleware)
    → (fns (at 1 (globals_of ms)) ≡ named_as "CORS" ms)
      × (fns (at 2 (globals_of ms)) ≡ named_as "CSRF" ms)
unfolding globals_of at named_as
fns-at-globals [] = (refl, refl)
fns-at-globals (m ∷ ms) =
    ground (
      arith,
      fns-at-globals ms,
      eq_iff (name m) "CORS",
      eq_iff (name m) "CSRF",
      eq_iff "CORS" "CSRF",
    )

-- What a name that is neither CORS nor CSRF says of the priority.
route_tests :
    (s : String)
    → ((route_priority s == 3) ≡ str_eq s "Logger")
      × ((route_priority s == 4) ≡ str_eq s "Errors")
      × ((route_priority s == 100) ≡ str_eq s "Panics")
      × ((route_priority s == 5)
          ≡ not (str_eq s "Logger" || (str_eq s "Errors" || str_eq s "Panics")))
unfolding route_priority
route_tests s = ground (
  arith,
  eq_iff s "Logger",
  eq_iff s "Errors",
  eq_iff s "Panics",
  eq_iff "Logger" "Errors",
  eq_iff "Logger" "Panics",
  eq_iff "Errors" "Panics",
)

global_tests :
    (s : String)
    → ((str_eq s "CORS" || str_eq s "CSRF") ≡ true)
    → (str_eq s "Logger" ≡ false) × (str_eq s "Errors" ≡ false) × (str_eq s "Panics" ≡ false)
global_tests s h = (
  ground (
    arith,
    eq_iff s "CORS",
    eq_iff s "CSRF",
    eq_iff s "Logger",
    eq_iff "CORS" "Logger",
    eq_iff "CSRF" "Logger",
  ),
  ground (
    arith,
    eq_iff s "CORS",
    eq_iff s "CSRF",
    eq_iff s "Errors",
    eq_iff "CORS" "Errors",
    eq_iff "CSRF" "Errors",
  ),
  ground (
    arith,
    eq_iff s "CORS",
    eq_iff s "CSRF",
    eq_iff s "Panics",
    eq_iff "CORS" "Panics",
    eq_iff "CSRF" "Panics",
  ),
)

-- The entries of one priority in the route-level list.
module _ (p : ℕ) (k : String) where
  fns-at-routes :
      ((s : String) → (route_priority s == p) ≡ str_eq s k)
      → ((s : String) → (str_eq s "CORS" || str_eq s "CSRF") ≡ true → str_eq s k ≡ false)
      → (ms : List Middleware) → fns (at p (routes_of ms)) ≡ named_as k ms
  unfolding routes_of at named_as
  fns-at-routes same other [] = refl
  fns-at-routes same other (m ∷ ms) =
      ground (arith, fns-at-routes same other ms, same (name m), other (name m))

fns-at-custom : (ms : List Middleware) → fns (at 5 (routes_of ms)) ≡ custom ms
unfolding routes_of at custom
fns-at-custom [] = refl
fns-at-custom (m ∷ ms) = ground (arith, fns-at-custom ms, route_tests (name m))

-- WithMiddleware splits the middleware into the global stack, all CORS before all CSRF, and the
-- route-level stack, all Logger, then all Errors, then every custom one, then all Panics. Within
-- each of these the order is the one given, and none is dropped or doubled.
pub with_middleware_lem :
    (mw : List Middleware)
    → with_middleware mw ≡ (
      named_as "CORS" mw ++ named_as "CSRF" mw,
      named_as "Logger" mw ++ (named_as "Errors" mw ++ (custom mw ++ named_as "Panics" mw)),
    )
unfolding with_middleware buckets
with_middleware_lem mw =
    rw
      (
        foldl-categorize [] [] mw,
        sort_stable-buckets 0 (1 ∷ 2 ∷ []) (globals_of mw) (omega arith) (globals_of-IsOneOf mw),
        sort_stable-buckets 0 (3 ∷ 4 ∷ 5 ∷ 100 ∷ []) (routes_of mw) (omega arith)
            (routes_of-IsOneOf mw),
      )
      (simp (
        map-append,
        append-nil,
        (fns-at-globals mw).0,
        (fns-at-globals mw).1,
        fns-at-routes 3 "Logger" (λ s. (route_tests s).0) (λ s h. (global_tests s h).0) mw,
        fns-at-routes 4 "Errors" (λ s. (route_tests s).1) (λ s h. (global_tests s h).1) mw,
        fns-at-custom mw,
        fns-at-routes 100 "Panics" (λ s. (route_tests s).2) (λ s h. (global_tests s h).2) mw,
      ))

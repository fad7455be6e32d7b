-- ===== src/Web/Mux/Options.antt =====
-- web/mux/options.go and New of web/mux/mux.go: the functional options of an App, and how
-- WithMiddleware sorts middleware by the name of the function that made it.
pub mod Laws
pub mod Making
pub mod Sorting
use httper.Web.World.{Handler, Middleware, nil, named, Result, done, map_result}
use httper.Web.Mux.{App, Table, Router, HandlerFunc, adapt, handle_no_middleware}
use httper.Web.Context.{noop_tracer}
use httper.Base.{
  ℕ, String, Bool, true, false, Option, none, some, List, [], ◌∷◌, ◌++◌, map, foldl, str_eq, leb,
  if◌then◌else◌, split, after_last,
}

-- ordered; the field `global` is set beside the priority and never read.
pub record Ordered : Type 0 where
  pub priority : ℕ
  pub global : Bool
  pub fn : Middleware

-- What runtime.FuncForPC reports for a function value; it has no name for a nil function.
abbrev func_name : Middleware → String
func_name nil = ""
func_name (named s _) = s

-- parts[1], or the whole name where there is one part
abbrev second_part : String → List String → String
second_part whole (a ∷ b ∷ _) = b
second_part whole _ = whole

-- name, on the text that the runtime reports
unfoldable pub name_of : String → String
unfolding after_last split
name_of fn_name = let short = after_last b'/' fn_name in second_part short (split b'.' short)

unfoldable pub name : Middleware → String
unfolding name_of
name mw = name_of (func_name mw)

abbrev pub Stacks : Type 0
Stacks = List Ordered × List Ordered

abbrev as_global : ℕ → Middleware → Stacks → Stacks
as_global p m (globals, mws) = (globals ++ record { priority = p; global = true; fn = m } ∷ [], mws)

abbrev as_route : ℕ → Middleware → Stacks → Stacks
as_route p m (globals, mws) = (globals, mws ++ record { priority = p; global = false; fn = m } ∷ [])

-- One round of the loop of WithMiddleware
unfoldable pub categorize : Stacks → Middleware → Stacks
categorize s m =
    if str_eq (name m) "CORS"
    then as_global 1 m s
    else if str_eq (name m) "CSRF"
    then as_global 2 m s
    else if str_eq (name m) "Logger"
    then as_route 3 m s
    else if str_eq (name m) "Errors"
    then as_route 4 m s
    else if str_eq (name m) "Panics"
    then as_route 100 m s
    else as_route 5 m s

-- slices.SortStableFunc by priority: an element goes behind those that are not above it.
unfoldable pub insert_ordered : Ordered → List Ordered → List Ordered
insert_ordered x [] = x ∷ []
insert_ordered x (y ∷ ys) =
    if leb x.priority y.priority then x ∷ y ∷ ys else y ∷ insert_ordered x ys

unfoldable pub sort_stable : List Ordered → List Ordered
unfolding insert_ordered
sort_stable [] = []
sort_stable (x ∷ xs) = insert_ordered x (sort_stable xs)

-- The global and the route-level stack that WithMiddleware stores.
unfoldable pub with_middleware : List Middleware → List Middleware × List Middleware
unfolding categorize sort_stable
with_middleware mw =
    let (globals, mws) = foldl categorize ([], []) mw in
    (map (λ o. o.fn) (sort_stable globals), map (λ o. o.fn) (sort_stable mws))

pub record Options : Type 0 where
  pub static_fs : Option Handler
  pub static_path : String
  pub tracer : Option ℕ
  pub logger : Option ℕ
  pub global_mw : List Middleware
  pub mw : List Middleware

-- The option functions, each by its arguments. WithStaticFS carries the handler that
-- http.StripPrefix and http.FileServer make of the file system and the prefix.
pub data Opt : Type 0 where
  opt_middleware : List Middleware → Opt
  opt_tracer : Option ℕ → Opt
  opt_logger : Option ℕ → Opt
  opt_static_fs : HandlerFunc → String → Opt

unfoldable pub apply : Opt → Options → Options
unfolding with_middleware adapt
apply (opt_middleware mw) o =
    let (globals, routes) = with_middleware mw in record o { global_mw = globals; mw = routes }
apply (opt_tracer t) o = record o { tracer = t }
apply (opt_logger l) o = record o { logger = l }
apply (opt_static_fs h prefix) o = record o { static_fs = some (adapt h); static_path = prefix }

abbrev pub no_options : Options
no_options = record {
  static_fs = none;
  static_path = "";
  tracer = none;
  logger = none;
  global_mw = [];
  mw = [];
}

-- slog.Default()
abbrev pub default_logger : ℕ
default_logger = 0

abbrev or_default : ℕ → Option ℕ → ℕ
or_default d none = d
or_default d (some n) = n

-- New: the app, and the table of its new ServeMux
unfoldable pub new_app : Router → List Opt → Result (App × Table)
unfolding apply handle_no_middleware
new_app router opt_fns =
    let opts = foldl (λ o f. apply f o) no_options opt_fns in
    let app : App = record {
      global_mw = opts.global_mw;
      mw = opts.mw;
      group = "";
      logger = or_default default_logger opts.logger;
      tracer = or_default noop_tracer opts.tracer;
    } in
    elim opts.static_fs [
      | none ↦ done (app, [])
      | some fs ↦
          map_result (λ t. (app, t))
            (handle_no_middleware router app "GET" "" opts.static_path fs [])
    ]

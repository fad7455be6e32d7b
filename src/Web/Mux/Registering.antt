-- ===== src/Web/Mux/Registering.antt =====
-- A route, from New by way of Mount and Use to Get, Post, Put, Patch, Delete or Handle.
use httper.Web.World.{Handler, Middleware, Result}
use httper.Web.Mux.{Router, App, Table, handle, mount, use_mw}
use httper.Web.Mux.Laws.{handle-use_mw}
use httper.Web.Mux.Serving.{pattern_of}
use httper.Base.{String, ◌≡◌, List, ◌++◌, trim_left}

-- What is given to Mount, Use and Handle. Without Mount the sub-route is empty.
pub record Registration : Type 0 where
  pub sub_route : String
  pub added : List Middleware
  pub method : String
  pub path : String
  pub own : List Middleware
  pub bare : Handler

-- The prefix that Mount makes of the sub-route
abbrev pub group_of : Registration → String
group_of route = trim_left b'/' route.sub_route

abbrev pub pattern : Registration → String
pattern route = pattern_of route.method (group_of route) route.path

module _ (router : Router) where
  -- The App of Mount and Use registers the route under its group, as Get and the others do.
  unfoldable pub register : App → Registration → Table → Result Table
  unfolding handle mount use_mw
  register a route t =
      let b = use_mw route.added (mount route.sub_route a) in
      handle router b route.method b.group route.path route.bare route.own t

  pub register_lem :
      (a : App) (route : Registration) (t : Table)
      → register a route t
        ≡ handle router a route.method
            (group_of route)
            route.path
            route.bare
            (route.added ++ route.own)
            t
  unfolding register handle mount use_mw
  register_lem a route t =
      handle-use_mw router (mount route.sub_route a) route.added route.own route.method
        (group_of route) route.path route.bare t

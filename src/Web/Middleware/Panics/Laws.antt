-- ===== src/Web/Middleware/Panics/Laws.antt =====
-- No panic of the handler gets past the middleware, and nothing else is changed.
use httper.GoError.{GoError, message}
use httper.Web.World.{Ctx, Request, World, Result, done, panicked, Handler}
use httper.Web.Middleware.Panics.{panics_handler, recovered}
use httper.Base.{String, ◌<>◌, ◌≡◌, refl, Option, some}

-- With Panics around it a handler always returns, also where it panics, and the state is the one
-- that the handler left.
pub panics_handler-returns :
    (stack : World → String) (handler : Handler) (ctx : Ctx) (r : Request) (w : World)
    → (err : Option GoError) × ((panics_handler stack handler ctx r w).0 ≡ done err)
      × ((panics_handler stack handler ctx r w).1 ≡ (handler ctx r w).1)
unfolding panics_handler
panics_handler-returns stack handler ctx r w = returns (handler ctx r w)
  where
    returns :
        (res : Result (Option GoError) × World)
        → (err : Option GoError) × ((recovered stack res).0 ≡ done err)
          × ((recovered stack res).1 ≡ res.1)
    returns (done err, w') = (err, refl, refl)
    returns (panicked rec, w') = (_, refl, refl)

-- What a panic becomes.
pub panics_handler-panicked :
    (stack : World → String) (handler : Handler) (ctx : Ctx) (r : Request) (w w' : World)
    (rec : String)
    → handler ctx r w ≡ (panicked rec, w')
    → panics_handler stack handler ctx r w
      ≡ (done (some (message ("PANIC [" <> (rec <> ("] TRACE[" <> (stack w' <> "]")))))), w')
unfolding panics_handler
panics_handler-panicked stack handler ctx r w w' rec h = rw h refl

pub panics_handler-done :
    (stack : World → String) (handler : Handler) (ctx : Ctx) (r : Request) (w w' : World)
    (err : Option GoError)
    → handler ctx r w ≡ (done err, w')
    → panics_handler stack handler ctx r w ≡ (done err, w')
unfolding panics_handler
panics_handler-done stack handler ctx r w w' err h = rw h refl

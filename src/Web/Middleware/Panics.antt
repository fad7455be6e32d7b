-- ===== src/Web/Middleware/Panics.antt =====
-- web/middleware/panic.go. `stack` is debug.Stack() at the time of the panic.
pub mod Laws
use httper.GoError.{GoError, message}
use httper.Web.World.{World, Result, done, panicked, Handler, Middleware, named}
use httper.Base.{String, ◌<>◌, Option, some}

-- The deferred function, on what the handler came to
recovered :
    (stack : World → String) → Result (Option GoError) × World → Result (Option GoError) × World
recovered stack (done err, w) = (done err, w)
recovered stack (panicked rec, w) =
    (done (some (message ("PANIC [" <> (rec <> ("] TRACE[" <> (stack w <> "]")))))), w)

-- Panics
unfoldable pub panics_handler : (World → String) → Handler → Handler
unfolding recovered
panics_handler stack handler ctx r w = recovered stack (handler ctx r w)

abbrev pub panics : (World → String) → Middleware
panics stack =
    named "github.com/adamwoolhether/httper/web/middleware.Panics.func1" (panics_handler stack)

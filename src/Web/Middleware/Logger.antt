-- ===== src/Web/Middleware/Logger.antt =====
-- web/middleware/logger.go. The values that GetValues returns are a pointer, so the status is read
-- after the handler wrote it; `time_now` is the time of the call, for a context with no values.
-- Elapsed times are not kept.
pub mod Laws
use httper.Web.World.{
  Request, pure, ◌>>=◌, ◌>>◌, get, log, request_started, request_completed, Handler, Middleware,
  named,
}
use httper.Web.Context.{get_values}
use httper.Base.{ℕ, String, ◌<>◌, str_eq, if◌then◌else◌}

abbrev pub log_path : Request → String
log_path r = if str_eq r.raw_query "" then r.path else r.path <> ("?" <> r.raw_query)

-- Logger
unfoldable pub logger_handler : ℕ → Handler → Handler
logger_handler time_now handler ctx r = do
  before ← get
  let trace_id = (get_values time_now ctx before).trace_id
  log (request_started trace_id r.method (log_path r) r.remote_addr)
  err ← handler ctx r
  after ← get
  log (
      request_completed trace_id r.method (log_path r) r.remote_addr
        (get_values time_now ctx after).status_code)
  pure err

abbrev pub logger : ℕ → Middleware
logger time_now =
    named "github.com/adamwoolhether/httper/web/middleware.Logger.func1" (logger_handler time_now)

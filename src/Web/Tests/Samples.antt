-- ===== src/Web/Tests/Samples.antt =====
-- Requests, handlers and errors that the tests share.
use httper.Base.{String, refl, false, none, some, List, [], ◌∷◌, pos}
use httper.GoError.{GoError, FieldError, AppError}
use httper.Web.World.{Ctx, Header, Request, BaseValues, World, Handler, pure, panic}
use httper.Web.Errs.{Caller}
use httper.Web.Respond.Laws.{IsUnsent}

abbrev pub no_text : List FieldError → String
no_text fs = "[]"

abbrev pub caller : Caller
caller = record { func_name = "main.handler"; file_name = "main.go:12" }

abbrev pub values : BaseValues
values = record { trace_id = "trace"; now = 3; tracer = none; status_code = pos 0 }

abbrev pub world : World
world = record {
  response = record { header = []; sent = none; body = []; broken = none };
  values = values ∷ [];
  logs = [];
}

pub world-IsUnsent : IsUnsent world
world-IsUnsent = record { unsent = refl; unwritten = refl; works = refl }

abbrev pub ctx : Ctx
ctx = record { base = some 0; span = record { trace_id = ""; is_valid = false } }

abbrev pub request : String → Header → Request
request method header = record {
  ctx = ctx;
  method = method;
  host = "api.example.com";
  path = "/users";
  raw_query = "";
  remote_addr = "10.0.0.1:4000";
  request_uri = "/users";
  header = header;
}

abbrev pub from : String → String → Request
from method origin = request method (("Origin", origin) ∷ [])

abbrev pub silent : Handler
silent _ r = pure none

abbrev pub failing : GoError → Handler
failing e _ r = pure (some e)

abbrev pub panicking : Handler
panicking _ r = panic "boom"

abbrev pub stack : World → String
stack w = "main.go:12"

abbrev pub app_err : AppError
app_err = record {
  code = pos 404;
  message = "no such user";
  func_name = "main.handler";
  file_name = "main.go:12";
  inner_err = false;
}

abbrev pub field_errs : List FieldError
field_errs =
    record { field = "name"; err = "is required" }
    ∷ record { field = "name"; err = "too short" }
    ∷ []

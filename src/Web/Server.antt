-- ===== src/Web/Server.antt =====
-- web/server/server.go and the options of web/server/options.go. `S` is the state that shutdown
-- functions and the http.Server change; contexts and deadlines are left to them.
pub mod Laws
pub mod Given
mod Tests
use httper.Base.{
  ℕ, ◌*◌, String, Option, none, some, List, [], ◌∷◌, ◌++◌, foldl, str_eq, if◌then◌else◌, ℤ, pos,
  eq_ℤ,
}
use httper.GoError.{GoError, new, wrap, is_error}

-- The fields of an http.Server that New sets. Durations are in nanoseconds.
pub record HttpServer : Type 0 where
  pub addr : String
  pub read_timeout : ℤ
  pub write_timeout : ℤ
  pub idle_timeout : ℤ
  pub handler : Option ℕ

abbrev pub seconds : ℕ → ℤ
seconds n = pos (n * 1000000000)

abbrev pub default_server : HttpServer
default_server = record {
  addr = ":8080";
  read_timeout = seconds 5;
  write_timeout = seconds 10;
  idle_timeout = seconds 120;
  handler = none;
}

-- slog.Default()
abbrev pub default_logger : ℕ
default_logger = 0

abbrev pub ShutdownFunc : Type 0 → Type 0
ShutdownFunc S = S → Option GoError × S

pub record Options (S : Type 0) : Type 0 where
  pub srv : Option HttpServer
  pub host : String
  pub read_timeout : ℤ
  pub write_timeout : ℤ
  pub idle_timeout : ℤ
  pub shutdown_timeout : ℤ
  pub logger : Option ℕ
  pub shutdown_funcs : List (ShutdownFunc S)
  pub tls_cert_file : String
  pub tls_key_file : String

pub data Opt (S : Type 0) : Type 0 where
  with_server : Option HttpServer → Opt S
  with_host : String → Opt S
  with_read_timeout : ℤ → Opt S
  with_write_timeout : ℤ → Opt S
  with_idle_timeout : ℤ → Opt S
  with_shutdown_timeout : ℤ → Opt S
  with_logger : Option ℕ → Opt S
  with_shutdown_func : ShutdownFunc S → Opt S
  with_tls : String → String → Opt S

pub record Server (S : Type 0) : Type 0 where
  pub srv : HttpServer
  pub shutdown_timeout : ℤ
  pub logger : ℕ
  pub shutdown_funcs : List (ShutdownFunc S)
  pub tls_cert_file : String
  pub tls_key_file : String

-- The value that is not the zero value, or the other one
abbrev text_or : String → String → String
text_or value other = if str_eq value "" then other else value

abbrev duration_or : ℤ → ℤ → ℤ
duration_or value other = if eq_ℤ value (pos 0) then other else value

abbrev or_default {ℓ} : {A : Type ℓ} → A → Option A → A
or_default d none = d
or_default d (some a) = a

module _ {S : Type 0} where
  pub apply : Options S → Opt S → Options S
  apply o (with_server srv) = record o { srv = srv }
  apply o (with_host host) = record o { host = host }
  apply o (with_read_timeout d) = record o { read_timeout = d }
  apply o (with_write_timeout d) = record o { write_timeout = d }
  apply o (with_idle_timeout d) = record o { idle_timeout = d }
  apply o (with_shutdown_timeout d) = record o { shutdown_timeout = d }
  apply o (with_logger log) = record o { logger = log }
  apply o (with_shutdown_func fn) = record o { shutdown_funcs = o.shutdown_funcs ++ fn ∷ [] }
  apply o (with_tls cert key) = record o { tls_cert_file = cert; tls_key_file = key }

  abbrev pub no_options : Options S
  no_options = record {
    srv = none;
    host = "";
    read_timeout = pos 0;
    write_timeout = pos 0;
    idle_timeout = pos 0;
    shutdown_timeout = pos 0;
    logger = none;
    shutdown_funcs = [];
    tls_cert_file = "";
    tls_key_file = "";
  }

  -- The http.Server that New sets up
  abbrev configure : ℕ → Options S → HttpServer
  configure handler o =
      let srv = or_default default_server o.srv in
      record {
        addr = text_or o.host srv.addr;
        read_timeout = duration_or o.read_timeout srv.read_timeout;
        write_timeout = duration_or o.write_timeout srv.write_timeout;
        idle_timeout = duration_or o.idle_timeout srv.idle_timeout;
        handler = some handler;
      }

  -- New, behind the loop over the options
  pub from_options : ℕ → Options S → Server S
  from_options handler o = record {
    srv = configure handler o;
    shutdown_timeout = duration_or o.shutdown_timeout (seconds 20);
    logger = or_default default_logger o.logger;
    shutdown_funcs = o.shutdown_funcs;
    tls_cert_file = o.tls_cert_file;
    tls_key_file = if str_eq o.tls_cert_file "" then "" else o.tls_key_file;
  }

  -- New
  pub new_server : ℕ → List (Opt S) → Server S
  unfolding apply from_options
  new_server handler opts = from_options handler (foldl apply no_options opts)

abbrev pub server_closed : ℕ
server_closed = 10

-- http.ErrServerClosed
abbrev pub err_server_closed : GoError
err_server_closed = new server_closed "http: Server closed"

pub data Line : Type 0 where
  started : (addr : String) → Line
  signal_received : Line
  shutdown_func_failed : GoError → Line
  shutdown_complete : Line

-- What comes first for Run: the end of ListenAndServe or ListenAndServeTLS, or a signal.
pub data Event : Type 0 where
  stopped : GoError → Event
  signalled : Event

abbrev failed_line : Option GoError → List Line
failed_line none = []
failed_line (some e) = shutdown_func_failed e ∷ []

-- `stop` and `close` are (*http.Server).Shutdown and Close.
module _ {S : Type 0} (stop : S → Option GoError × S) (close : S → S) where
  -- The loop over the shutdown functions
  pub run_funcs : List (ShutdownFunc S) → S → S × List Line
  run_funcs [] s = (s, [])
  run_funcs (fn ∷ fns) s =
      let (e, after) = fn s in
      let (last, lines) = run_funcs fns after in (last, failed_line e ++ lines)

  abbrev after_stop : List Line → Option GoError × S → Option GoError × S × List Line
  after_stop lines (none, s) = (none, s, lines)
  after_stop lines (some e, s) = (some (wrap "server didn't stop gracefully: " e), close s, lines)

  -- Shutdown
  pub shutdown : Server S → S → Option GoError × S × List Line
  unfolding run_funcs
  shutdown server s =
      let (after, lines) = run_funcs server.shutdown_funcs s in after_stop lines (stop after)

  abbrev after_signal : Option GoError × S × List Line → Option GoError × S × List Line
  after_signal (none, s, lines) = (none, s, signal_received ∷ lines ++ shutdown_complete ∷ [])
  after_signal (some e, s, lines) =
      (some (wrap "graceful shutdown: " e), s, signal_received ∷ lines)

  abbrev answer : Server S → S → Event → Option GoError × S × List Line
  answer server s (stopped e) =
      if is_error e server_closed then (none, s, []) else (some (wrap "server error: " e), s, [])
  answer server s signalled = after_signal (shutdown server s)

  -- Run; the line of the start is written by the goroutine that listens.
  pub run : Server S → Event → S → Option GoError × S × List Line
  unfolding shutdown
  run server event s =
      let (e, after, lines) = answer server s event in (e, after, started server.srv.addr ∷ lines)

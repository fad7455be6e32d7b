-- ===== src/Web/Server/Tests.antt =====
-- A server with two shutdown functions, the first of which fails.
use httper.Base.{ℕ, ◌+◌, pos, last_given, ◌*◌, ◌≡◌, ◌↔◌, Option, none, some, List, [], ◌∷◌}
use httper.GoError.{GoError, message}
use httper.Web.Server.{
  Opt, with_server, with_host, with_shutdown_func, new_server, ShutdownFunc, run, signalled,
  with_idle_timeout, HttpServer,
}
use httper.Web.Server.Given.{new_server_lem}
use httper.Web.Server.Laws.{registered, ran, run-signalled}

abbrev fails : ShutdownFunc ℕ
fails s = (some (message "flush failed"), s * 2)

abbrev counts : ShutdownFunc ℕ
counts s = (none, s + 1)

abbrev opts : List (Opt ℕ)
opts = with_host ":9090" ∷ with_shutdown_func fails ∷ with_shutdown_func counts ∷ []

abbrev stop : ℕ → Option GoError × ℕ
stop s = (none, s)

abbrev old_server : HttpServer
old_server = record {
  addr = ":80";
  read_timeout = pos 1;
  write_timeout = pos 2;
  idle_timeout = pos 3;
  handler = none;
}

abbrev mixed : List (Opt ℕ)
mixed =
    with_host ":9090"
    ∷ with_server (some old_server)
    ∷ with_idle_timeout (pos 7)
    ∷ with_shutdown_func fails
    ∷ []

new_server_lem_example : new_server 1 mixed ≡ record {
  srv = record {
    addr = ":9090";
    read_timeout = pos 1;
    write_timeout = pos 2;
    idle_timeout = pos 7;
    handler = some 1;
  };
  shutdown_timeout = pos 20000000000;
  logger = 0;
  shutdown_funcs = fails ∷ [];
  tls_cert_file = "";
  tls_key_file = "";
}
unfolding last_given registered
new_server_lem_example = new_server_lem 1 mixed

run-signalled_example :
    ((run stop (λ s. s) (new_server 1 opts) signalled 5).0 ≡ none)
    ↔ ((stop (ran stop (λ s. s) (registered opts) 5)).0 ≡ none)
run-signalled_example = run-signalled stop (λ s. s) 1 opts 5

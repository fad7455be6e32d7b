-- ===== src/Web/Server/Given.antt =====
-- What New makes of the options that it is given, for each of them by the last option that gives it.
use mathlib.Core.Option
use httper.Base.{
  last_given, String, str_eq, if◌then◌else◌, ℤ, pos, eq_ℤ, some, ℕ, ◌≡◌, refl, ◌∙◌, sym, Option,
  none, List, [], ◌∷◌, ◌++◌, foldl, ap,
}
use mathlib.Core.List.{append-nil, append_assoc}
use httper.Web.Server.{
  Options, Opt, with_server, with_host, with_read_timeout, or_default, default_server,
  default_logger, with_write_timeout, with_idle_timeout, with_shutdown_timeout, with_logger,
  with_shutdown_func, with_tls, apply, no_options, new_server, from_options, HttpServer,
}
use httper.Web.Server.Laws.{registered}

-- The one that is not the zero value, first the one given
abbrev pub text_used : String → String → String
text_used given other = if str_eq given "" then other else given

abbrev pub duration_used : ℤ → ℤ → ℤ
duration_used given other = if eq_ℤ given (pos 0) then other else given

or_default-get_or {ℓ} : {A : Type ℓ} (d : A) (o : Option A) → or_default d o ≡ Option.get_or o d
or_default-get_or d none = refl
or_default-get_or d (some a) = refl

module _ {S : Type 0} where
  abbrev pub given_server : Opt S → Option (Option HttpServer)
  given_server (with_server srv) = some srv
  given_server o = none

  abbrev pub given_host : Opt S → Option String
  given_host (with_host host) = some host
  given_host o = none

  abbrev pub given_read_timeout : Opt S → Option ℤ
  given_read_timeout (with_read_timeout d) = some d
  given_read_timeout o = none

  abbrev pub given_write_timeout : Opt S → Option ℤ
  given_write_timeout (with_write_timeout d) = some d
  given_write_timeout o = none

  abbrev pub given_idle_timeout : Opt S → Option ℤ
  given_idle_timeout (with_idle_timeout d) = some d
  given_idle_timeout o = none

  abbrev pub given_shutdown_timeout : Opt S → Option ℤ
  given_shutdown_timeout (with_shutdown_timeout d) = some d
  given_shutdown_timeout o = none

  abbrev pub given_logger : Opt S → Option (Option ℕ)
  given_logger (with_logger l) = some l
  given_logger o = none

  abbrev pub given_cert : Opt S → Option String
  given_cert (with_tls cert key) = some cert
  given_cert o = none

  abbrev pub given_key : Opt S → Option String
  given_key (with_tls cert key) = some key
  given_key o = none

  abbrev resolved : Options S → List (Opt S) → Options S
  resolved o fs = record {
    srv = last_given given_server o.srv fs;
    host = last_given given_host o.host fs;
    read_timeout = last_given given_read_timeout o.read_timeout fs;
    write_timeout = last_given given_write_timeout o.write_timeout fs;
    idle_timeout = last_given given_idle_timeout o.idle_timeout fs;
    shutdown_timeout = last_given given_shutdown_timeout o.shutdown_timeout fs;
    logger = last_given given_logger o.logger fs;
    shutdown_funcs = o.shutdown_funcs ++ registered fs;
    tls_cert_file = last_given given_cert o.tls_cert_file fs;
    tls_key_file = last_given given_key o.tls_key_file fs;
  }

  foldl-resolved : (fs : List (Opt S)) (o : Options S) → foldl apply o fs ≡ resolved o fs
  unfolding apply last_given registered
  foldl-resolved [] o =
      ap (λ l. record o { shutdown_funcs = l }) (sym (append-nil o.shutdown_funcs))
  foldl-resolved (with_server srv ∷ fs) o = foldl-resolved fs _
  foldl-resolved (with_host host ∷ fs) o = foldl-resolved fs _
  foldl-resolved (with_read_timeout d ∷ fs) o = foldl-resolved fs _
  foldl-resolved (with_write_timeout d ∷ fs) o = foldl-resolved fs _
  foldl-resolved (with_idle_timeout d ∷ fs) o = foldl-resolved fs _
  foldl-resolved (with_shutdown_timeout d ∷ fs) o = foldl-resolved fs _
  foldl-resolved (with_logger l ∷ fs) o = foldl-resolved fs _
  foldl-resolved (with_shutdown_func fn ∷ fs) o =
      foldl-resolved fs _
      ∙ ap (λ l. record (resolved o fs) { shutdown_funcs = l })
          (append_assoc o.shutdown_funcs (fn ∷ []) (registered fs))
  foldl-resolved (with_tls cert key ∷ fs) o = foldl-resolved fs _

  module _ (handler : ℕ) (fs : List (Opt S)) where
    -- The http.Server given, or one on port 8080 with timeouts of 5, 10 and 120 seconds
    abbrev pub server_used : HttpServer
    server_used = Option.get_or (last_given given_server none fs) (record {
      addr = ":8080";
      read_timeout = pos 5000000000;
      write_timeout = pos 10000000000;
      idle_timeout = pos 120000000000;
      handler = none;
    })

    abbrev pub cert_used : String
    cert_used = last_given given_cert "" fs

    -- New, for options in any order: its http.Server has the handler, and the host and the timeouts
    -- that options give, each by the last that gives it, wherever WithServer stands among them; a
    -- host or a timeout that is not given, or is zero, is that of the last WithServer, or the
    -- default. The shutdown has 20 seconds if no other time is given, the logger is the default one
    -- if none is given, all shutdown functions are registered in order, and the key file counts
    -- only with a certificate.
    pub new_server_lem : new_server handler fs ≡ record {
      srv = record {
        addr = text_used (last_given given_host "" fs) server_used.addr;
        read_timeout =
            duration_used (last_given given_read_timeout (pos 0) fs) server_used.read_timeout;
        write_timeout =
            duration_used (last_given given_write_timeout (pos 0) fs) server_used.write_timeout;
        idle_timeout =
            duration_used (last_given given_idle_timeout (pos 0) fs) server_used.idle_timeout;
        handler = some handler;
      };
      shutdown_timeout =
          duration_used (last_given given_shutdown_timeout (pos 0) fs) (pos 20000000000);
      logger = Option.get_or (last_given given_logger none fs) 0;
      shutdown_funcs = registered fs;
      tls_cert_file = cert_used;
      tls_key_file = if str_eq cert_used "" then "" else last_given given_key "" fs;
    }
    unfolding new_server from_options
    new_server_lem =
        ap (from_options handler) (foldl-resolved fs no_options)
        ∙ cc (
          or_default-get_or default_server (last_given given_server none fs),
          or_default-get_or default_logger (last_given given_logger none fs),
        )

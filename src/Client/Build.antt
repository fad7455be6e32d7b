-- ===== src/Client/Build.antt =====
-- Build of client/client.go and the options of client/options.go. Build changes the *http.Client
-- that it is given, so the clients stand in a store and are named by their index.
pub mod Laws
pub mod Given
use httper.GoError.{message, wrap, Try, ok, err}
use httper.Client.Throttle.{Config, is_refused, refusal, new_config}
use httper.Base.{
  ℕ, String, Bool, true, false, Option, none, some, List, [], ◌∷◌, ◌++◌, str_eq, if◌then◌else◌,
  length, get_elem?, set, ℤ, pos, ltb_ℤ,
}

-- An http.RoundTripper: http.DefaultTransport, one from outside, or one that the package builds.
pub data RoundTripper : Type 0 where
  default_transport : RoundTripper
  custom : ℕ → RoundTripper
  user_agent : String → RoundTripper → RoundTripper
  throttled : Config → (logger : ℕ) → RoundTripper → RoundTripper

-- The field CheckRedirect: nil, a function from outside, or the one that Build sets, which returns
-- http.ErrUseLastResponse.
pub data CheckRedirect : Type 0 where
  unset : CheckRedirect
  other : ℕ → CheckRedirect
  use_last_response : CheckRedirect

pub record HttpClient : Type 0 where
  pub transport : Option RoundTripper
  pub timeout : ℤ
  pub check_redirect : CheckRedirect

abbrev pub zero_client : HttpClient
zero_client = record { transport = none; timeout = pos 0; check_redirect = unset }

abbrev pub Store : Type 0
Store = List HttpClient

pub record Options : Type 0 where
  pub client : Option ℕ
  pub rt : Option RoundTripper
  pub timeout : Option ℤ
  pub user_agent_value : String
  pub throttle : Option Config
  pub no_follow_redirects : Bool
  pub logger : Option ℕ

-- The option functions, each by its arguments; a nil argument is `none`.
pub data Opt : Type 0 where
  with_client : Option ℕ → Opt
  with_transport : Option RoundTripper → Opt
  with_timeout : ℤ → Opt
  with_user_agent : String → Opt
  with_throttle : ℤ → ℤ → Opt
  with_no_follow_redirects : Opt
  with_logger : Option ℕ → Opt

unfoldable pub apply : Opt → Options → Try Options
apply (with_client none) o = err (message "client must not be nil")
apply (with_client (some p)) o = ok (record o { client = some p })
apply (with_transport none) o = err (message "transport must not be nil")
apply (with_transport (some t)) o = ok (record o { rt = some t })
apply (with_timeout d) o =
    if ltb_ℤ d (pos 0)
    then err (message "timeout must not be negative")
    else ok (record o { timeout = some d })
apply (with_user_agent header) o = ok (record o { user_agent_value = header })
apply (with_throttle rps burst) o =
    if is_refused rps burst
    then err (refusal rps burst)
    else ok (record o { throttle = some (record { rps = rps; burst = burst }) })
apply with_no_follow_redirects o = ok (record o { no_follow_redirects = true })
apply (with_logger l) o = ok (record o { logger = l })

-- The loop over the options
unfoldable pub apply_all : List Opt → Options → Try Options
unfolding apply
apply_all [] o = ok o
apply_all (f ∷ fs) o = elim (apply f o) [ ok o' ↦ apply_all fs o' | err e ↦ err e ]

abbrev pub no_options : Options
no_options = record {
  client = none;
  rt = none;
  timeout = none;
  user_agent_value = "";
  throttle = none;
  no_follow_redirects = false;
  logger = none;
}

pub record Client : Type 0 where
  pub c : ℕ
  pub logger : ℕ

-- slog.Default()
abbrev pub default_logger : ℕ
default_logger = 0

-- The client that the pointer names; a pointer from outside the store reads as a zero client.
unfoldable pub client_at : Store → ℕ → HttpClient
client_at s p = elim (get_elem? s p) [ none ↦ zero_client | some c ↦ c ]

-- The client to configure, made anew where none was given
abbrev pub allocate : Option ℕ → Store → ℕ × Store
allocate (some p) s = (p, s)
allocate none s = (length s, s ++ zero_client ∷ [])

abbrev set_timeout : Option ℤ → HttpClient → HttpClient
set_timeout none c = c
set_timeout (some d) c = record c { timeout = d }

abbrev set_redirect : Bool → HttpClient → HttpClient
set_redirect b c = if b then record c { check_redirect = use_last_response } else c

abbrev pub base_of : Option RoundTripper → Option RoundTripper → RoundTripper
base_of (some t) own = t
base_of none (some t) = t
base_of none none = default_transport

abbrev pub with_agent : String → RoundTripper → RoundTripper
with_agent value base = if str_eq value "" then base else user_agent value base

abbrev throttle_made : ℕ → RoundTripper → Try Config → Try RoundTripper
throttle_made logger base (ok cfg) = ok (throttled cfg logger base)
throttle_made logger base (err e) = err (wrap "configuring throttle: " e)

abbrev add_throttle : Option Config → ℕ → RoundTripper → Try RoundTripper
add_throttle none logger base = ok base
add_throttle (some t) logger base = throttle_made logger base (new_config t.rps t.burst)

abbrev pub logger_of : Options → ℕ
logger_of o = elim o.logger [ none ↦ default_logger | some l ↦ l ]

-- Where the stack of round trippers is built, or not
abbrev install : ℕ → ℕ → HttpClient → Store → Try RoundTripper → Try Client × Store
install p logger hc s (err e) = (err e, set s p hc)
install p logger hc s (ok t) =
    (ok (record { c = p; logger = logger }), set s p (record hc { transport = some t }))

-- Build behind the loop: the client's fields are set before the transport can fail.
unfoldable pub configure : Options → Store → Try Client × Store
unfolding client_at
configure o s =
    let (p, s₁) = allocate o.client s in
    let hc = set_redirect o.no_follow_redirects (set_timeout o.timeout (client_at s₁ p)) in
    let base = with_agent o.user_agent_value (base_of o.rt hc.transport) in
    install p (logger_of o) hc s₁ (add_throttle o.throttle (logger_of o) base)

-- Behind the loop over the options
abbrev after_options : Store → Try Options → Try Client × Store
after_options s (err e) = (err (wrap "applying option: " e), s)
after_options s (ok o) = configure o s

-- Build
unfoldable pub build : List Opt → Store → Try Client × Store
unfolding apply_all
build opt_fns s = after_options s (apply_all opt_fns no_options)

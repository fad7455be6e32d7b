-- ===== src/Client/Build/Given.antt =====
-- What Build makes of the options that it is given, for each of them by the last option that gives it.
use mathlib.Core.Option
use httper.Base.{
  last_given, All, get_elem?, get_elem?-set_self, get_elem?-set_other, get_elem?-append_short,
  get_elem?-append_length, length, sym, ◌∙◌, ℕ, String, ◌<◌, ◌≡◌, ◌≢◌, refl, ap, Bool, true, false,
  Option, none, some, List, [], ◌∷◌, ◌++◌, set, ℤ, pos, ltb_ℤ, leb_ℤ, str_eq, if◌then◌else◌,
}
use httper.Client.Build.{
  default_logger, no_options, build, with_client, with_transport, with_timeout, with_user_agent,
  with_throttle, with_no_follow_redirects, with_logger, set_timeout, default_transport, user_agent,
  unset, use_last_response, set_redirect, Options, Opt, apply, apply_all, HttpClient, RoundTripper,
  Store, logger_of, base_of, client_at, allocate, zero_client,
}
use httper.Client.Build.Laws.{build-ok, configured, throttle_over, stack}
use httper.GoError.{ok}
use httper.Client.Throttle.{Config}

-- No argument that an option refuses: nil, a negative timeout, a rate or a burst that is not positive.
abbrev pub IsValid : Opt → Type 0
IsValid (with_client none) = ⊥
IsValid (with_transport none) = ⊥
IsValid (with_timeout d) = ltb_ℤ d (pos 0) ≡ false
IsValid (with_throttle rps burst) = (leb_ℤ rps (pos 0) ≡ false) × (leb_ℤ burst (pos 0) ≡ false)
IsValid o = Unit

abbrev pub given_client : Opt → Option (Option ℕ)
given_client (with_client p) = some p
given_client o = none

abbrev pub given_transport : Opt → Option (Option RoundTripper)
given_transport (with_transport t) = some t
given_transport o = none

abbrev pub given_timeout : Opt → Option (Option ℤ)
given_timeout (with_timeout d) = some (some d)
given_timeout o = none

abbrev pub given_agent : Opt → Option String
given_agent (with_user_agent header) = some header
given_agent o = none

abbrev pub given_throttle : Opt → Option (Option Config)
given_throttle (with_throttle rps burst) = some (some (record { rps = rps; burst = burst }))
given_throttle o = none

abbrev pub given_no_follow : Opt → Option Bool
given_no_follow with_no_follow_redirects = some true
given_no_follow o = none

abbrev pub given_logger : Opt → Option (Option ℕ)
given_logger (with_logger l) = some l
given_logger o = none

abbrev resolved : List Opt → Options → Options
resolved fs o = record {
  client = last_given given_client o.client fs;
  rt = last_given given_transport o.rt fs;
  timeout = last_given given_timeout o.timeout fs;
  user_agent_value = last_given given_agent o.user_agent_value fs;
  throttle = last_given given_throttle o.throttle fs;
  no_follow_redirects = last_given given_no_follow o.no_follow_redirects fs;
  logger = last_given given_logger o.logger fs;
}

apply_all-resolved :
    (fs : List Opt) (o : Options) → All IsValid fs → apply_all fs o ≡ ok (resolved fs o)
unfolding apply_all apply last_given
apply_all-resolved [] o h = refl
apply_all-resolved (with_client none ∷ fs) o h = absurd h.0
apply_all-resolved (with_client (some p) ∷ fs) o h = apply_all-resolved fs _ h.1
apply_all-resolved (with_transport none ∷ fs) o h = absurd h.0
apply_all-resolved (with_transport (some t) ∷ fs) o h = apply_all-resolved fs _ h.1
apply_all-resolved (with_timeout d ∷ fs) o h =
    rw (apply_all, apply, h.0) (apply_all-resolved fs _ h.1)
apply_all-resolved (with_user_agent a ∷ fs) o h = apply_all-resolved fs _ h.1
apply_all-resolved (with_throttle rps burst ∷ fs) o h =
    rw (apply_all, apply, h.0.0, h.0.1) (apply_all-resolved fs _ h.1)
apply_all-resolved (with_no_follow_redirects ∷ fs) o h = apply_all-resolved fs _ h.1
apply_all-resolved (with_logger l ∷ fs) o h = apply_all-resolved fs _ h.1

-- The client `old` to configure, at `p`: the one given, or a zero client behind those that there are
abbrev pub IsNamed : Option ℕ → Store → ℕ → HttpClient → Type 0
IsNamed none s p old =
    (p ≡ length s) × (old ≡ record { transport = none; timeout = pos 0; check_redirect = unset })
IsNamed (some p') s p old = (p ≡ p') × (get_elem? s p' ≡ some old)

abbrev Allocated : Option ℕ → Store → ℕ → HttpClient → Type 0
Allocated client s p old =
    ((allocate client s).0 ≡ p)
    × (get_elem? (allocate client s).1 p ≡ some old)
    × ((q : ℕ) → q < length s → get_elem? (allocate client s).1 q ≡ get_elem? s q)

allocate-Allocated :
    (client : Option ℕ) (s : Store) (p : ℕ) (old : HttpClient)
    → IsNamed client s p old
    → Allocated client s p old
allocate-Allocated none s p old (at, fresh) = (
  sym at,
  ap (get_elem? (s ++ zero_client ∷ [])) at
      ∙ get_elem?-append_length s zero_client
      ∙ ap (λ c. some c) (sym fresh),
  λ q b. get_elem?-append_short s zero_client q b,
)
allocate-Allocated (some p') s p old (at, there) =
    (sym at, ap (get_elem? s) at ∙ there, λ q b. refl)

settled :
    (t : Option ℤ) (b : Bool) (x : RoundTripper) (c : HttpClient)
    → record (set_redirect b (set_timeout t c)) { transport = some x } ≡ record {
      transport = some x;
      timeout = Option.get_or t c.timeout;
      check_redirect = if b then use_last_response else c.check_redirect;
    }
settled none true x c = refl
settled none false x c = refl
settled (some d) true x c = refl
settled (some d) false x c = refl

base_of_lem :
    (given own : Option RoundTripper)
    → base_of given own ≡ Option.get_or given (Option.get_or own default_transport)
base_of_lem none none = refl
base_of_lem none (some t) = refl
base_of_lem (some t) none = refl
base_of_lem (some t) (some u) = refl

logger_or :
    (l : Option ℕ) → elim l as (λ _. ℕ) [ none ↦ default_logger | some n ↦ n ] ≡ Option.get_or l 0
logger_or none = refl
logger_or (some n) = refl

module _ (fs : List Opt) where
  abbrev pub logger_used : ℕ
  logger_used = Option.get_or (last_given given_logger none fs) 0

  abbrev pub base_used : HttpClient → RoundTripper
  base_used old =
      Option.get_or (last_given given_transport none fs)
        (Option.get_or old.transport default_transport)

  abbrev pub agent_used : String
  agent_used = last_given given_agent "" fs

  -- The transport of the client: the throttle around the user agent around the transport given, or
  -- the client's own, or the default one
  abbrev pub transport_used : HttpClient → RoundTripper
  transport_used old =
      throttle_over (last_given given_throttle none fs) logger_used
        (if str_eq agent_used "" then base_used old else user_agent agent_used (base_used old))

  abbrev pub client_used : HttpClient → HttpClient
  client_used old = record {
    transport = some (transport_used old);
    timeout = Option.get_or (last_given given_timeout none fs) old.timeout;
    check_redirect =
        if last_given given_no_follow false fs then use_last_response else old.check_redirect;
  }

  stack_lem : (old : HttpClient) → stack (resolved fs no_options) old.transport ≡ transport_used old
  stack_lem old =
      rw
        (
          logger_or (last_given given_logger none fs),
          base_of_lem (last_given given_transport none fs) old.transport,
        )
        refl

  configured-client_used :
      (old : HttpClient) → configured (resolved fs no_options) old ≡ client_used old
  configured-client_used old =
      settled (last_given given_timeout none fs) (last_given given_no_follow false fs)
        (stack (resolved fs no_options) old.transport) old
      ∙ ap (λ t. record (client_used old) { transport = some t }) (stack_lem old)

  -- Where no option refuses its argument, Build succeeds, for options in any order, and configures
  -- the client that the last WithClient gives, or a new one: its timeout, its redirect check and
  -- its transport are what the last option gives for each, or else the client's own, the transport
  -- under the user agent and the throttle that are given; the logger is the last one given or the
  -- default one, and no other client changes.
  pub build_lem :
      (s : Store) (p : ℕ) (old : HttpClient)
      → All IsValid fs
      → IsNamed (last_given given_client none fs) s p old
      → ((build fs s).0 ≡ ok (record { c = p; logger = logger_used }))
        × (get_elem? (build fs s).1 p ≡ some (client_used old))
        × ((q : ℕ) → q < length s → q ≢ p → get_elem? (build fs s).1 q ≡ get_elem? s q)
  unfolding client_at
  build_lem s p old valid named =
      let o = resolved fs no_options in
      let made = build-ok fs s o (apply_all-resolved fs no_options valid) in
      let (at, there, kept) = allocate-Allocated (last_given given_client none fs) s p old named in
      let s₁ = (allocate o.client s).1 in
      let stored : (build fs s).1 ≡ set s₁ p (client_used old) =
        ap (λ r. r.1) made
        ∙ ap (λ n. set s₁ n (configured o (client_at s₁ n))) at
        ∙ ap (λ c. set s₁ p (configured o (elim c [ none ↦ zero_client | some d ↦ d ]))) there
        ∙ ap (set s₁ p) (configured-client_used old) in
      (
        ap (λ r. r.0) made
            ∙ ap (λ n. ok (record { c = n; logger = logger_of o })) at
            ∙ ap (λ l. ok (record { c = p; logger = l }))
                (logger_or (last_given given_logger none fs)),
        ap (λ l. get_elem? l p) stored ∙ get_elem?-set_self s₁ p (client_used old) there,
        λ q b other.
            ap (λ l. get_elem? l q) stored
            ∙ get_elem?-set_other s₁ p q (client_used old) (λ e. other (sym e))
            ∙ kept q b,
      )

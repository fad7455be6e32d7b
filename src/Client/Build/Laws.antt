-- ===== src/Client/Build/Laws.antt =====
-- What Build does to the clients.
use httper.Base.{
  subst, sym, ◌∙◌, ℕ, ◌≡◌, refl, ap, inl, inr, Bool, true, false, Option, none, some, List, [], ◌∷◌,
  Bool-cases, set, ℤ, pos, ltb_ℤ,
}
use httper.Client.Build.{
  after_options, no_options, build, with_client, with_transport, with_timeout, with_user_agent,
  with_throttle, with_no_follow_redirects, with_logger, add_throttle, throttle_made, set_timeout,
  set_redirect, Options, Opt, apply, apply_all, configure, throttled, HttpClient, RoundTripper,
  Store, logger_of, with_agent, base_of, client_at, allocate,
}
use httper.GoError.{GoError, Try, ok, err}
use httper.Client.Throttle.{Config, is_refused, new_config}

-- A throttle that NewRoundTripper accepts, where there is one.
abbrev IsAccepted : Option Config → Type 0
IsAccepted none = Unit
IsAccepted (some t) = is_refused t.rps t.burst ≡ false

abbrev AllValid : Try Options → Type 0
AllValid (ok o) = IsAccepted o.throttle
AllValid (err e) = Unit

apply-AllValid : (f : Opt) (o : Options) → IsAccepted o.throttle → AllValid (apply f o)
unfolding apply
apply-AllValid (with_client none) o v = tt
apply-AllValid (with_client (some p)) o v = v
apply-AllValid (with_transport none) o v = tt
apply-AllValid (with_transport (some t)) o v = v
apply-AllValid (with_timeout d) o v = elim (Bool-cases (ltb_ℤ d (pos 0))) [
  | inl e ↦ rw e tt
  | inr e ↦ rw e v
]
apply-AllValid (with_user_agent a) o v = v
apply-AllValid (with_throttle rps burst) o v = elim (Bool-cases (is_refused rps burst)) [
  | inl e ↦ rw e tt
  | inr e ↦ rw e e
]
apply-AllValid with_no_follow_redirects o v = v
apply-AllValid (with_logger l) o v = v

following :
    (fs : List Opt) (r : Try Options)
    → ((o : Options) → IsAccepted o.throttle → AllValid (apply_all fs o))
    → AllValid r
    → AllValid (elim r [ ok o' ↦ apply_all fs o' | err e ↦ err e ])
following fs (ok o) ih v = ih o v
following fs (err e) ih v = tt

apply_all-AllValid :
    (fs : List Opt) (o : Options) → IsAccepted o.throttle → AllValid (apply_all fs o)
unfolding apply_all
apply_all-AllValid [] o v = v
apply_all-AllValid (f ∷ fs) o v =
    following fs (apply f o) (λ o' v'. apply_all-AllValid fs o' v') (apply-AllValid f o v)

abbrev pub throttle_over : Option Config → ℕ → RoundTripper → RoundTripper
throttle_over none logger base = base
throttle_over (some t) logger base = throttled t logger base

-- The stack of round trippers: the throttle outside the user agent, outside the base.
abbrev pub stack : Options → Option RoundTripper → RoundTripper
stack o own =
    throttle_over o.throttle (logger_of o) (with_agent o.user_agent_value (base_of o.rt own))

-- The client after Build, from the client before.
abbrev pub configured : Options → HttpClient → HttpClient
configured o c = record (set_redirect o.no_follow_redirects (set_timeout o.timeout c)) {
  transport = some (stack o c.transport);
}

new_config-ok : (t : Config) → is_refused t.rps t.burst ≡ false → new_config t.rps t.burst ≡ ok t
unfolding new_config
new_config-ok t v = rw v refl

add_throttle-ok :
    (t : Option Config) (logger : ℕ) (base : RoundTripper)
    → IsAccepted t
    → add_throttle t logger base ≡ ok (throttle_over t logger base)
add_throttle-ok none logger base v = refl
add_throttle-ok (some t) logger base v = ap (throttle_made logger base) (new_config-ok t v)

set_timeout-transport :
    (d : Option ℤ) (b : Bool) (c : HttpClient)
    → HttpClient.transport (set_redirect b (set_timeout d c)) ≡ c.transport
set_timeout-transport none true c = refl
set_timeout-transport none false c = refl
set_timeout-transport (some d) true c = refl
set_timeout-transport (some d) false c = refl

abbrev pub configured_store : Options → ℕ × Store → Store
configured_store o (p, s) = set s p (configured o (client_at s p))

configure_lem :
    (o : Options) (s : Store)
    → IsAccepted o.throttle
    → configure o s ≡ (
      ok (record { c = (allocate o.client s).0; logger = logger_of o }),
      configured_store o (allocate o.client s),
    )
unfolding configure client_at
configure_lem o s v =
    rw
      (
        set_timeout-transport o.timeout o.no_follow_redirects
            (client_at (allocate o.client s).1 (allocate o.client s).0),
        add_throttle-ok o.throttle (logger_of o)
            (with_agent o.user_agent_value
              (base_of o.rt (client_at (allocate o.client s).1 (allocate o.client s).0).transport))
            v,
      )
      refl

-- Where every option applies, Build succeeds: it returns the client that the options name, or a new
-- one, with that client's timeout and redirect check as the options set them and its transport
-- replaced by the stack, throttle over user agent over base; no other client changes.
pub build-ok :
    (fs : List Opt) (s : Store) (o : Options)
    → apply_all fs no_options ≡ ok o
    → build fs s ≡ (
      ok (record { c = (allocate o.client s).0; logger = logger_of o }),
      configured_store o (allocate o.client s),
    )
unfolding build
build-ok fs s o e =
    rw e (configure_lem o s (subst AllValid e (apply_all-AllValid fs no_options tt)))

after_options-err :
    (r : Try Options) (s : Store) (e : GoError)
    → AllValid r
    → (after_options s r).0 ≡ err e
    → (after_options s r).1 ≡ s
after_options-err (err e') s e v h = refl
after_options-err (ok o) s e v h = cc (sym (ap (λ r. r.0) (configure_lem o s v)) ∙ h)

-- Where Build returns an error, it has changed no client.
pub build-err :
    (fs : List Opt) (s : Store) (e : GoError) → (build fs s).0 ≡ err e → (build fs s).1 ≡ s
unfolding build
build-err fs s e h =
    after_options-err (apply_all fs no_options) s e (apply_all-AllValid fs no_options tt) h

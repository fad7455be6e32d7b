-- ===== src/Client/Send/Laws.antt =====
-- Which User-Agent goes out.
use httper.Base.{
  get_elem?-set_self, sym, get_elem?, Bool-cases, refl, inl, inr, ℕ, String, ◌≡◌, ap, ◌∙◌, Option,
  none, some, List, [], ◌∷◌, arith, str_eq, if◌then◌else◌,
}
use httper.Client.Build.{
  Client, RoundTripper, default_transport, custom, user_agent, throttled, HttpClient, Store,
  Options, Opt, apply_all, no_options, build, client_at, base_of, with_agent, allocate, logger_of,
}
use httper.Client.Throttle.{Config}
use httper.GoError.{err, Try, ok, or_else}
use httper.Client.Build.Laws.{build-ok, configured, configured_store, stack, throttle_over}
use httper.Client.Request.{Lines, values_of, set_line}
use httper.Client.Request.Laws.{values_of-set_line}
use httper.Client.Send.{carried, sent_header, transport_or}

-- The innermost user agent among the round trippers
unfoldable pub agent_of : RoundTripper → Option String
agent_of default_transport = none
agent_of (custom n) = none
agent_of (user_agent value base) = or_else (agent_of base) (some value)
agent_of (throttled cfg logger base) = agent_of base

abbrev agent_values : Option String → List String → List String
agent_values none own = own
agent_values (some value) own = value ∷ []

-- The lines of a key when the request goes out
abbrev pub outgoing : String → Option String → Lines → List String
outgoing k agent h =
    if str_eq "User-Agent" k then agent_values agent (values_of k h) else values_of k h

outgoing-set_line :
    (k value : String) (agent : Option String) (h : Lines)
    → outgoing k agent (set_line "User-Agent" value h) ≡ outgoing k (or_else agent (some value)) h
outgoing-set_line k value none h = elim (Bool-cases (str_eq "User-Agent" k)) [
  | inl same ↦ rw (values_of-set_line "User-Agent" k value h, same) refl
  | inr other ↦ rw (values_of-set_line "User-Agent" k value h, other) refl
]
outgoing-set_line k value (some v) h = elim (Bool-cases (str_eq "User-Agent" k)) [
  | inl same ↦ rw same refl
  | inr other ↦ rw (values_of-set_line "User-Agent" k value h, other) refl
]

values_of-carried :
    (t : RoundTripper) (k : String) (h : Lines)
    → values_of k (carried t h) ≡ outgoing k (agent_of t) h
unfolding carried agent_of
values_of-carried default_transport k h = ground arith
values_of-carried (custom n) k h = ground arith
values_of-carried (user_agent value base) k h =
    values_of-carried base k (set_line "User-Agent" value h)
    ∙ outgoing-set_line k value (agent_of base) h
values_of-carried (throttled cfg logger base) k h = values_of-carried base k h

-- The user agent that the options give, if it is not the empty text
abbrev pub given : String → Option String
given value = if str_eq value "" then none else some value

or_else-none : (o : Option String) → or_else o none ≡ o
or_else-none none = refl
or_else-none (some v) = refl

agent_of-with_agent :
    (value : String) (base : RoundTripper)
    → agent_of (with_agent value base) ≡ or_else (agent_of base) (given value)
unfolding agent_of
agent_of-with_agent value base = elim (Bool-cases (str_eq value "")) [
  | inl empty ↦ rw empty (sym (or_else-none (agent_of base)))
  | inr there ↦ rw there refl
]

agent_of-throttle_over :
    (t : Option Config) (logger : ℕ) (base : RoundTripper)
    → agent_of (throttle_over t logger base) ≡ agent_of base
unfolding agent_of
agent_of-throttle_over none logger base = refl
agent_of-throttle_over (some t) logger base = refl

agent_of-stack :
    (o : Options) (own : Option RoundTripper)
    → agent_of (stack o own) ≡ or_else (agent_of (base_of o.rt own)) (given o.user_agent_value)
agent_of-stack o own =
    agent_of-throttle_over o.throttle (logger_of o)
      (with_agent o.user_agent_value (base_of o.rt own))
    ∙ agent_of-with_agent o.user_agent_value (base_of o.rt own)

client_at-some : (s : Store) (p : ℕ) (c : HttpClient) → get_elem? s p ≡ some c → client_at s p ≡ c
unfolding client_at
client_at-some s p c held = rw (held, client_at) refl

client_at-set :
    (s : Store) (p : ℕ) (o : Options) (c : HttpClient)
    → get_elem? s p ≡ some c
    → client_at (configured_store o (p, s)) p ≡ configured o c
client_at-set s p o c held =
    client_at-some (configured_store o (p, s)) p (configured o (client_at s p))
      (get_elem?-set_self s p (configured o (client_at s p)) held)
    ∙ ap (configured o) (client_at-some s p c held)

pointer_in : Try Client → ℕ
pointer_in (ok cl) = cl.c
pointer_in (err e) = 0

abbrev sent_after : Try Client × Store → Lines → Lines
sent_after x h = sent_header x.1 (pointer_in x.0) h

-- A client that Build returns, from the client `c` at its pointer: for each key, the lines of a
-- request as they go out are those of the request, but for the key User-Agent, for which the one
-- line is the innermost user agent: one among the round trippers of the transport that the options
-- or `c` give, before the one of WithUserAgent; the request's lines stay where there is neither.
pub sent_header-build :
    (fs : List Opt) (s : Store) (o : Options) (c : HttpClient) {cl : Client} {s' : Store}
    (k : String) (h : Lines)
    → apply_all fs no_options ≡ ok o
    → get_elem? (allocate o.client s).1 (allocate o.client s).0 ≡ some c
    → build fs s ≡ (ok cl, s')
    → values_of k (sent_header s' cl.c h)
      ≡ outgoing k (or_else (agent_of (base_of o.rt c.transport)) (given o.user_agent_value)) h
unfolding sent_header pointer_in
sent_header-build fs s o c {cl} {s'} k h applied held made =
    let p = (allocate o.client s).0 in
    let same : (
      ok (record { c = p; logger = logger_of o }),
      configured_store o (allocate o.client s),
    )
        ≡ (ok cl, s') =
      sym (build-ok fs s o applied) ∙ made in
    ap (λ x. values_of k (sent_after x h)) (sym same)
    ∙ ap (λ b. values_of k (carried (transport_or b.transport) h))
        (client_at-set (allocate o.client s).1 p o c held)
    ∙ values_of-carried (stack o c.transport) k h
    ∙ ap (λ a. outgoing k a h) (agent_of-stack o c.transport)

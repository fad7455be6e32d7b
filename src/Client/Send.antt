-- ===== src/Client/Send.antt =====
-- The way of a request's header through the round trippers of a client: (userAgent).RoundTrip of
-- client/options.go. The lines that http.Client adds before it, for a Jar or for the user information
-- of a URL, are left out. A throttle hands the request on as it is, or not at all (Client.Throttle).
pub mod Laws
mod Tests
use httper.Base.{ℕ, Option, none, some}
use httper.Client.Build.{
  RoundTripper, default_transport, custom, user_agent, throttled, Store, client_at,
}
use httper.Client.Request.{Lines, set_line, delete}

-- The header with which the request reaches the transport from outside. RoundTrip sets its line on a
-- clone, so the caller's header stays as it was.
unfoldable pub carried : RoundTripper → Lines → Lines
unfolding delete
carried default_transport h = h
carried (custom n) h = h
carried (user_agent value base) h = carried base (set_line "User-Agent" value h)
carried (throttled cfg logger base) h = carried base h

-- An http.Client without a transport uses http.DefaultTransport.
abbrev transport_or : Option RoundTripper → RoundTripper
transport_or none = default_transport
transport_or (some t) = t

-- The header that goes out of the client that the pointer names
unfoldable pub sent_header : Store → ℕ → Lines → Lines
unfolding carried client_at
sent_header s p h = carried (transport_or (client_at s p).transport) h

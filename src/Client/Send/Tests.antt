-- ===== src/Client/Send/Tests.antt =====
-- A client that is built a second time, with another user agent.
use httper.Client.Build.{
  configure, Options, HttpClient, with_client, with_user_agent, build, apply_all, no_options,
  user_agent, default_transport, zero_client,
}
use httper.Base.{◌≡◌, refl, some, [], ◌∷◌}
use httper.Client.Request.{values_of}
use httper.Client.Send.{sent_header}
use httper.Client.Send.Laws.{sent_header-build, outgoing, agent_of}

abbrev first : HttpClient
first = record zero_client { transport = some (user_agent "one" default_transport) }

abbrev settings : Options
settings = record no_options { client = some 0; user_agent_value = "two" }

abbrev rebuilt : HttpClient
rebuilt = record zero_client {
  transport = some (user_agent "two" (user_agent "one" default_transport));
}

sent_header-build_example :
    values_of "User-Agent" (sent_header (rebuilt ∷ []) 0 (("User-Agent", "curl") ∷ []))
    ≡ outgoing "User-Agent" (some "one") (("User-Agent", "curl") ∷ [])
unfolding agent_of apply_all build configure
sent_header-build_example =
    sent_header-build (with_client (some 0) ∷ with_user_agent "two" ∷ []) (first ∷ []) settings
      first {cl = record { c = 0; logger = 0 }} {s' = rebuilt ∷ []} "User-Agent"
      (("User-Agent", "curl") ∷ []) refl refl refl

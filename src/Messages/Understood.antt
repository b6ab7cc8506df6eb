-- ===== src/Messages/Understood.antt =====
-- The client tells the requests of the server apart, and reads what they carry.
use go_tcp_tunnel.Base.{
  ◌≡◌, ◌≢◌, inl, inr, refl, arith, Bool, true, false, some, [], ◌∷◌, Bytes, beq, ok, Result-cases,
}
use go_tcp_tunnel.Base.Dict.{Dict, lookup, insert}
use go_tcp_tunnel.Proto.{get}
use go_tcp_tunnel.StreamProxy.{not-is_empty}
use go_tcp_tunnel.Client.{serve_http, handshake_error, tunnel_info, handshake}
use go_tcp_tunnel.Routing.Delivery.{arrived}
use go_tcp_tunnel.Messages.{
  Json, Push, push_to_client, notify_error, send_tunnel_info, handshake_request, handle_tunnel_info,
}

-- What the JSON of these hosts decodes to has their entries.
abbrev pub CarriesHosts : Json → Dict Bytes → Type 0
CarriesHosts json hosts =
    (text : Bytes)
    → json.marshal_hosts hosts ≡ ok text
    → (read : Dict Bytes) × (json.decode_hosts text ≡ ok read)
      × ((name : Bytes) → lookup name read ≡ lookup name hosts)

pub serve_http-handshake :
    (identifier remote : Bytes)
    → serve_http (arrived (handshake_request identifier) remote) ≡ handshake
unfolding serve_http get lookup beq
serve_http-handshake identifier remote = refl

serve_http-notify_error :
    (made : Bool) (text identifier remote : Bytes) (p : Push)
    → text ≢ []
    → notify_error made (some text) identifier ≡ some p
    → serve_http (arrived p.outgoing remote) ≡ handshake_error text
unfolding notify_error push_to_client serve_http get insert lookup beq
serve_http-notify_error false text identifier remote p ne e = absurd (ground arith)
serve_http-notify_error true text identifier remote p ne e = ground (arith, not-is_empty text ne)

serve_http-send_tunnel_info :
    (json : Json) (made : Bool) (hosts : Dict Bytes) (identifier remote : Bytes) (p : Push)
    → send_tunnel_info json made hosts identifier ≡ some p
    → (serve_http (arrived p.outgoing remote) ≡ tunnel_info)
      × (json.marshal_hosts hosts ≡ ok p.body)
unfolding send_tunnel_info push_to_client serve_http get insert lookup beq
serve_http-send_tunnel_info json made [] identifier remote p e = absurd (ground arith)
serve_http-send_tunnel_info json false (h ∷ hs) identifier remote p e =
    elim (Result-cases (json.marshal_hosts (h ∷ hs))) [
      | inl (x, f) ↦ absurd (ground arith)
      | inr (body, f) ↦ absurd (ground arith)
    ]
serve_http-send_tunnel_info json true (h ∷ hs) identifier remote p e =
    elim (Result-cases (json.marshal_hosts (h ∷ hs))) [
      | inl (x, f) ↦ absurd (ground arith)
      | inr (body, f) ↦ (ground (arith, f), ground (arith, f))
    ]

-- The client recognizes each of the three requests that the server makes of it: that for its
-- tunnels, the notification of an error, from which it reads the text, and that of the public
-- hosts, with which its callback is called. The text is not empty, net/http made the requests, and
-- encoding/json is assumed to decode the hosts to the same entries.
pub serve_http-pushed :
    (json : Json) (hosts : Dict Bytes) (text identifier remote name : Bytes) (made : Bool)
    → (p q : Push) → text ≢ []
    → CarriesHosts json hosts
    → notify_error made (some text) identifier ≡ some p
    → send_tunnel_info json made hosts identifier ≡ some q
    → (serve_http (arrived (handshake_request identifier) remote) ≡ handshake)
      × (serve_http (arrived p.outgoing remote) ≡ handshake_error text)
      × (serve_http (arrived q.outgoing remote) ≡ tunnel_info)
      × ((read : Dict Bytes) × (handle_tunnel_info json q.body
            ≡ (record { status = 200; body = [] }, some read))
          × (lookup name read ≡ lookup name hosts))
unfolding handle_tunnel_info
serve_http-pushed json hosts text identifier remote name made p q ne carries error told =
    let (recognized, body) = serve_http-send_tunnel_info json made hosts identifier remote q told in
    let (read, decodes, same) = carries q.body body in
    (
      serve_http-handshake identifier remote,
      serve_http-notify_error made text identifier remote p ne error,
      recognized,
      (read, rw (decodes, handle_tunnel_info) refl, same name),
    )

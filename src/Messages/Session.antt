-- ===== src/Messages/Session.antt =====
-- The whole way: from a client that connects to a user's connection at the local service.
use go_tcp_tunnel.Base.{
  Option, ℕ, ◌≤◌, ◌≡◌, inl, inr, refl, ap, ◌∙◌, arith, Bool, true, false, none, some, [], ◌∷◌, ◌++◌,
  Bytes, ok, has_byte, length, take, take-all, Result-cases,
}
use go_tcp_tunnel.Base.Dict.{Dict, lookup}
use go_tcp_tunnel.HostPort.{trim_port, colon}
use go_tcp_tunnel.HttpHost.{http_full_host}
use go_tcp_tunnel.Proto
use go_tcp_tunnel.Proto.{ControlMessage, is_stream}
use go_tcp_tunnel.StreamProxy.{new_multi_stream_proxy, stream_proxy, forwarded}
use go_tcp_tunnel.Config.{Tunnel, check_tunnels, target_map, tunnels}
use go_tcp_tunnel.Client.{serve_http, proxied}
use go_tcp_tunnel.Server.{Server, ServerConfig}
use go_tcp_tunnel.Server.Handling.{World, Response, handle_client, notify_tunnel_info}
use go_tcp_tunnel.Server.Tunnels.{OpensNew}
use go_tcp_tunnel.Server.Accepted.{pointers, handle_client_ok}
use go_tcp_tunnel.Routing.{to_lower, routed, handle_http_conn, connect_request}
use go_tcp_tunnel.Routing.Delivery.{delivery, arrived}
use go_tcp_tunnel.Messages.{
  Json, Reply, handle_handshake, respond, handshake_request, response_of, answer_limit,
}
use go_tcp_tunnel.Messages.Understood.{serve_http-handshake}

-- The JSON of these tunnels is within the limit, and what it decodes to has their entries.
abbrev pub CarriesTunnels : Json → Dict Proto.Tunnel → Type 0
CarriesTunnels json ts =
    (text : Bytes)
    → json.marshal_tunnels ts ≡ ok text
    → (length text ≤ answer_limit)
      × ((read : Dict Proto.Tunnel) × (json.decode_tunnels text ≡ ok (pointers read))
          × ((name : Bytes) → lookup name read ≡ lookup name ts))

-- The server's request for the tunnels, to whatever identifier, is answered by a client that asks
-- for these, whatever the server's state is then.
abbrev pub Answers : Json → Bool → World → Dict Proto.Tunnel → Type 0
Answers json sized w ts =
    (identifier remote : Bytes) (s met : Server) (resp : Response) (reply : Reply)
    → respond json ts (arrived (handshake_request identifier) remote) [] ≡ some reply
    → w.exchange s ≡ (some resp, met)
    → resp ≡ response_of json sized reply

pub respond-handshake_request :
    (json : Json) (ts : Dict Proto.Tunnel) (identifier remote : Bytes)
    → respond json ts (arrived (handshake_request identifier) remote) []
      ≡ some (handle_handshake json ts)
unfolding respond
respond-handshake_request json ts identifier remote =
    rw (serve_http-handshake identifier remote, respond) refl

-- A notification leaves the registry as it is.
abbrev pub KeepsRegistry : World → Type 0
KeepsRegistry w =
    (identifier : Bytes) (s : Server) → (w.push identifier s).state.registry ≡ s.state.registry

pointers-injective :
    (ts us : Dict Proto.Tunnel)
    → ◌≡◌ {A = Option (Dict (Option Proto.Tunnel))} (some (pointers ts)) (some (pointers us))
    → ts ≡ us
pointers-injective [] [] e = refl
pointers-injective [] (u ∷ us) e = absurd (ground arith)
pointers-injective (t ∷ ts) [] e = absurd (ground arith)
pointers-injective ((m, t) ∷ ts) ((n, u) ∷ us) e =
    let rest : ts ≡ us = pointers-injective ts us (ground arith) in ground (arith, rest)

read_as_sent :
    (json : Json) (sized : Bool) (ts asked : Dict Proto.Tunnel) (resp : Response) (name : Bytes)
    → CarriesTunnels json ts
    → resp ≡ response_of json sized (handle_handshake json ts)
    → resp.status ≡ 200
    → resp.tunnels ≡ some (pointers asked)
    → lookup name asked ≡ lookup name ts
unfolding response_of handle_handshake
read_as_sent json sized ts asked resp name carries answer fine decoded =
    elim (Result-cases (json.marshal_tunnels ts)) [
      | inl (e, failed) ↦ absurd (ground (arith, ap (λ r. r.status) answer))
      | inr (text, made) ↦
          let (short, (read, decodes, same)) = carries text made in
          let whole : json.decode_tunnels (take answer_limit text) ≡ ok (pointers read) =
            ap json.decode_tunnels (take-all answer_limit text short) ∙ decodes in
          let taken : asked ≡ read =
            pointers-injective asked read (ground (arith, ap (λ r. r.tunnels) answer, whole)) in
          ap (λ a. lookup name a) taken ∙ same name
    ]

told_registry :
    (w : World) (ts : Dict Proto.Tunnel) (identifier : Bytes) (s : Server)
    → KeepsRegistry w
    → (notify_tunnel_info w ts identifier s).state.registry ≡ s.state.registry
unfolding notify_tunnel_info
told_registry w ts identifier s keeps = ground (arith, keeps identifier s)

-- A client with a configuration that loads answers the request of a server for its tunnels, and
-- handleClient accepts it. Then a user's connection whose host is the public host of one of the
-- client's http tunnels, in any case and with or without a port, is routed to the identifier of the client's
-- certificate, and the client, which receives the server's request, forwards it to the local
-- address of that tunnel, if that address answers. The JSON of the tunnels is assumed to be within
-- the limit of the server and to decode to the same entries, net.Listen to open new listeners, the
-- notification to leave the registry as it is, the tunnel's name to stand for one tunnel, and the
-- base domain to have no colon and no capital letter.
pub session :
    (json : Json) (sized : Bool) (dials : Bytes → Bool) (config : ServerConfig) (w : World)
    → (raw : Dict (Option Tunnel)) (before after : Dict Tunnel) (name : Bytes) (t : Tunnel)
      (host remote : Bytes)
    → (conn : ℕ) (s s' : Server) → OpensNew w.listen
    → KeepsRegistry w
    → has_byte colon config.base_domain ≡ false
    → check_tunnels raw [] ≡ ok (before ++ (name, t) ∷ after)
    → lookup name after ≡ none
    → is_stream t.protocol ≡ false
    → CarriesTunnels json (tunnels (before ++ (name, t) ∷ after) [])
    → Answers json sized w (tunnels (before ++ (name, t) ∷ after) [])
    → handle_client config w conn s ≡ (ok tt, s')
    → to_lower (trim_port host) ≡ http_full_host config.base_domain t.subdomain
    → dials t.addr ≡ true
    → (identifier : Bytes) × (sent got : ControlMessage) × (w.peer_id ≡ some identifier)
      × (handle_http_conn config.base_domain true (some host) true s'.state.registry
          ≡ routed identifier sent)
      × (serve_http (arrived (connect_request identifier sent) remote) ≡ proxied got)
      × (stream_proxy dials
            (new_multi_stream_proxy (target_map (before ++ (name, t) ∷ after) []))
            got
          ≡ forwarded t.addr)
session json sized dials config w raw before after name t host remote conn s s' fresh keeps plain
      loads once ns carries answers accepted lowered reaches =
    let (identifier, known, a) = handle_client_ok config w conn s s' accepted in
    let sent_tunnels = tunnels (before ++ (name, t) ∷ after) [] in
    let same =
      read_as_sent json sized sent_tunnels a.tunnels a.response name carries
        (answers identifier remote a.asked_in a.met a.response _
          (respond-handshake_request json sent_tunnels identifier remote) a.answer)
        a.status a.decoded in
    let (sent, got, routes, serves, goes) =
      delivery dials w.listen config.base_domain raw before after name t a.tunnels identifier host
        remote a.met.state a.backend fresh plain loads once ns same a.added lowered reaches in
    let registry : s'.state.registry ≡ a.backend.registry =
      ap (λ q. q.state.registry) a.told
      ∙ told_registry w a.tunnels identifier (record a.met { state = a.backend }) keeps in
    (
      identifier,
      sent,
      got,
      known,
      ap (λ r. handle_http_conn config.base_domain true (some host) true r) registry ∙ routes,
      serves,
      goes,
    )

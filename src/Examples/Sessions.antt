-- ===== src/Examples/Sessions.antt =====
-- Runs of server and client together.
use go_tcp_tunnel.Server.Accepted.{pointers}
use go_tcp_tunnel.Base.{◌≡◌, refl, ap, arith, true, some, [], ◌∷◌, Bytes, codes, ok, take, beq}
use go_tcp_tunnel.Base.Dict.{Dict, lookup, insert}
use go_tcp_tunnel.Proto
use go_tcp_tunnel.Proto.{ControlMessage}
use go_tcp_tunnel.StreamProxy.{new_multi_stream_proxy, stream_proxy, forwarded}
use go_tcp_tunnel.Config.{target_map, tunnels, to_proto}
use go_tcp_tunnel.Client.{serve_http, proxied, handshake, handshake_error, tunnel_info}
use go_tcp_tunnel.Server.{Server, new_server, add_tunnels, collect, add_tunnel, finish}
use go_tcp_tunnel.Server.Handling
use go_tcp_tunnel.Server.Handling.{
  World, handle_client, join_pool, joined, answered, decoded, open_tunnels, open_given, until_nil,
}
use go_tcp_tunnel.Pool.{add_conn}
use go_tcp_tunnel.Registry.{set, subscribe, new_registry}
use go_tcp_tunnel.Registry.Hosts.{occupied}
use go_tcp_tunnel.Routing.{routed, handle_http_conn, connect_request}
use go_tcp_tunnel.Routing.Delivery.{arrived}
use go_tcp_tunnel.Messages.{
  Json, Push, push_to_client, notify_error, send_tunnel_info, handshake_request, handle_handshake,
  handle_tunnel_info, response_of,
}
use go_tcp_tunnel.Messages.Understood.{CarriesHosts, serve_http-pushed}
use go_tcp_tunnel.Messages.Session.{CarriesTunnels, Answers, respond-handshake_request, session}
use go_tcp_tunnel.Examples.Data.{laptop, base, listen-OpensNew, config, world}
use go_tcp_tunnel.Examples.Clients.{
  raw, ssh, web, asked, loads, web_is_no_stream, full_host, base-plain,
}

abbrev hosts : Dict Bytes
hosts = (codes "web", codes "web.tunnel.example.com") ∷ []

-- It knows one document of each kind.
abbrev json : Json
json = record {
  marshal_tunnels = λ ts. ok (codes "tunnels");
  decode_tunnels = λ text. ok (pointers asked);
  marshal_hosts = λ hs. ok (codes "hosts");
  decode_hosts = λ text. ok hosts;
}

json-CarriesHosts : CarriesHosts json hosts
json-CarriesHosts text e = (hosts, refl, λ name. refl)

json-CarriesTunnels : CarriesTunnels json asked
json-CarriesTunnels text e = (ground arith, (asked, refl, λ name. refl))

abbrev refusal : Push
refusal = record {
  outgoing = record {
    method = codes "CONNECT";
    url = (handshake_request laptop).url;
    header = insert Proto.header_error (codes "no") [];
  };
  body = [];
}

abbrev notice : Push
notice = record {
  outgoing = record {
    method = codes "CONNECT";
    url = (handshake_request laptop).url;
    header = insert Proto.header_tunnel_info (codes "1") [];
  };
  body = codes "hosts";
}

pushed :
    (notify_error true (some (codes "no")) laptop ≡ some refusal)
    × (send_tunnel_info json true hosts laptop ≡ some notice)
unfolding notify_error send_tunnel_info push_to_client
pushed = (refl, refl)

serve_http-pushed_example :
    (serve_http (arrived (handshake_request laptop) (codes "10.0.0.1:9")) ≡ handshake)
    × (serve_http (arrived refusal.outgoing (codes "10.0.0.1:9")) ≡ handshake_error (codes "no"))
    × (serve_http (arrived notice.outgoing (codes "10.0.0.1:9")) ≡ tunnel_info)
    × ((read : Dict Bytes) × (handle_tunnel_info json notice.body
          ≡ (record { status = 200; body = [] }, some read))
        × (lookup (codes "web") read ≡ lookup (codes "web") hosts))
serve_http-pushed_example =
    serve_http-pushed json hosts (codes "no") laptop (codes "10.0.0.1:9") (codes "web") true refusal
      notice (λ e. cc) json-CarriesHosts pushed.0 pushed.1

-- The client of the configuration is at the other end.
abbrev with_client : World
with_client = record world {
  exchange = λ s. (some (response_of json true (handle_handshake json asked)), s);
}

with_client-Answers : Answers json true with_client asked
with_client-Answers identifier remote s met resp reply answers e =
    let same : handle_handshake json asked ≡ reply =
      ground (arith, respond-handshake_request json asked identifier remote, answers) in
    ground (arith, ap (λ r. r.0) e, ap (λ r. response_of json true r) same)

abbrev met : Server
met = (handle_client config with_client 3 new_server).1

accepts : (handle_client config with_client 3 new_server).0 ≡ ok tt
unfolding handle_client open_given until_nil new_server join_pool joined add_conn lookup
    Handling.handshake answered response_of handle_handshake decoded tunnels insert beq open_tunnels
    add_tunnels collect add_tunnel to_proto Proto.is_stream Proto.is_http
    Proto.valid_subdomain_label Proto.is_alnum Proto.is_label_byte set occupied subscribe
    new_registry take finish
accepts = refl

accepted : handle_client config with_client 3 new_server ≡ (ok tt, met)
accepted = ap (λ r. (r, met)) accepts

session_example :
    (identifier : Bytes) × (sent got : ControlMessage) × (with_client.peer_id ≡ some identifier)
    × (handle_http_conn base true
          (some (codes "Web.Tunnel.example.com:443"))
          true
          met.state.registry
        ≡ routed identifier sent)
    × (serve_http (arrived (connect_request identifier sent) (codes "10.0.0.1:9")) ≡ proxied got)
    × (stream_proxy
          (λ a. true)
          (new_multi_stream_proxy (target_map ((codes "ssh", ssh) ∷ (codes "web", web) ∷ []) []))
          got
        ≡ forwarded (codes "127.0.0.1:8080"))
unfolding lookup
session_example =
    session json true (λ a. true) config with_client raw ((codes "ssh", ssh) ∷ []) [] (codes "web")
      web (codes "Web.Tunnel.example.com:443") (codes "10.0.0.1:9") 3 new_server met listen-OpensNew
      (λ i s. refl) base-plain loads refl web_is_no_stream json-CarriesTunnels with_client-Answers
      accepted full_host refl

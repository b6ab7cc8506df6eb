-- ===== src/Routing/Delivery.antt =====
-- From a user's connection to the local service.
use go_tcp_tunnel.Base.{
  Option, ◌≡◌, refl, sym, ap, ◌∙◌, arith, Bool, true, false, none, some, [], ◌∷◌, ◌++◌, Bytes,
  codes, ok, has_byte,
}
use go_tcp_tunnel.Base.Dict.{Dict, lookup, insert, lookup-insert, lookup-insert_self}
use go_tcp_tunnel.HostPort.{trim_port, colon}
use go_tcp_tunnel.HttpHost.{http_full_host}
use go_tcp_tunnel.Proto
use go_tcp_tunnel.Proto.{ControlMessage, is_stream}
use go_tcp_tunnel.StreamProxy.{new_multi_stream_proxy, stream_proxy, forwarded}
use go_tcp_tunnel.Config.{Tunnel, check_tunnels, target_map, tunnels, to_proto}
use go_tcp_tunnel.Config.Checked.{IsHttpTunnel, check_tunnels-IsChecked}
use go_tcp_tunnel.Config.Targets.{found-IsHttpTunnel}
use go_tcp_tunnel.Client.{Request, serve_http, proxied}
use go_tcp_tunnel.Client.Requests.{serve_http-target}
use go_tcp_tunnel.Server.{Backend, Listen, add_tunnels}
use go_tcp_tunnel.Server.Tunnels.{OpensNew}
use go_tcp_tunnel.Routing.{
  to_lower, routed, http_message, handle_http_conn, Outgoing, connect_request,
}
use go_tcp_tunnel.Routing.Hosts.{handle_http_conn-add_tunnels}

-- A request as it arrives on the connection from a remote address.
abbrev pub arrived : Outgoing → Bytes → Request
arrived o remote = record { method = o.method; header = o.header; remote_addr = remote }

lookup-tunnels_absent :
    (name : Bytes) (ts : Dict Tunnel) (p : Dict Proto.Tunnel)
    → lookup name ts ≡ none
    → lookup name (tunnels ts p) ≡ lookup name p
unfolding lookup tunnels
lookup-tunnels_absent name [] p e = refl
lookup-tunnels_absent name ((n, u) ∷ ts) p e = ground (
  arith,
  lookup-tunnels_absent name ts (insert n (to_proto u) p),
  lookup-insert n name (to_proto u) p,
)

-- The client asks for the tunnel under its name.
lookup-tunnels :
    (before after : Dict Tunnel) (name : Bytes) (t : Tunnel) (p : Dict Proto.Tunnel)
    → lookup name after ≡ none
    → lookup name (tunnels (before ++ (name, t) ∷ after) p) ≡ some (to_proto t)
unfolding tunnels
lookup-tunnels [] after name t p e =
    lookup-tunnels_absent name after (insert name (to_proto t) p) e
    ∙ lookup-insert_self name (to_proto t) p
lookup-tunnels ((n, u) ∷ before) after name t p e =
    lookup-tunnels before after name t (insert n (to_proto u) p) e

asked_host :
    {seen : Dict Bytes} (t : Tunnel) → IsHttpTunnel t seen → (to_proto t).host ≡ t.subdomain
unfolding to_proto
asked_host t h = rw h.protocol refl

module _ (dials : Bytes → Bool) (listen : Listen) (base_domain : Bytes) where
  -- A client with a configuration that loads asks a server for its tunnels, and the server accepts
  -- them. Then a user's connection whose host is the public host of one of the http tunnels, in any
  -- case and with or without a port, is routed to that client, and the client, which receives the
  -- server's request, forwards it to the local address of that tunnel, if that address answers. The
  -- server is assumed to receive the tunnel's entry as the client sent it, net.Listen to open new
  -- listeners, the tunnel's name to stand for one tunnel, and the base domain to have no colon.
  pub delivery :
      (raw : Dict (Option Tunnel)) (before after : Dict Tunnel) (name : Bytes) (t : Tunnel)
      (asked : Dict Proto.Tunnel)
      → (identifier host remote : Bytes) (b b' : Backend) → OpensNew listen
      → has_byte colon base_domain ≡ false
      → check_tunnels raw [] ≡ ok (before ++ (name, t) ∷ after)
      → lookup name after ≡ none
      → is_stream t.protocol ≡ false
      → lookup name asked ≡ lookup name (tunnels (before ++ (name, t) ∷ after) [])
      → add_tunnels listen base_domain asked identifier b ≡ (ok tt, b')
      → to_lower (trim_port host) ≡ http_full_host base_domain t.subdomain
      → dials t.addr ≡ true
      → (sent got : ControlMessage) × (handle_http_conn base_domain true
            (some host)
            true
            b'.registry
          ≡ routed identifier sent)
        × (serve_http (arrived (connect_request identifier sent) remote) ≡ proxied got)
        × (stream_proxy dials
              (new_multi_stream_proxy (target_map (before ++ (name, t) ∷ after) []))
              got
            ≡ forwarded t.addr)
  unfolding connect_request to_proto
  delivery raw before after name t asked identifier host remote b b' fresh plain loads once ns same
        accepted lowered answers =
      let (_, h) =
        found-IsHttpTunnel before after name t [] ns (check_tunnels-IsChecked raw [] loads) in
      let found = same ∙ lookup-tunnels before after name t [] once in
      let msg = http_message t.subdomain in
      let (got, serves, goes) =
        serve_http-target dials raw before after name t msg [] (codes "PUT") remote loads ns refl
          refl refl (λ e. cc) answers in
      let routes =
        handle_http_conn-add_tunnels listen base_domain asked identifier b b' name host (to_proto t)
          fresh plain accepted found ns
          (lowered ∙ ap (http_full_host base_domain) (sym (asked_host t h))) in
      (
        msg,
        got,
        routes ∙ ap (λ s. routed identifier (http_message s)) (asked_host t h),
        serves,
        goes,
      )

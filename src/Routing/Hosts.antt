-- ===== src/Routing/Hosts.antt =====
-- Which client a request for a public host reaches.
use go_tcp_tunnel.Base.{
  ◌≡◌, inl, inr, arith, true, false, some, [], ◌∷◌, ◌++◌, Bytes, ok, All, elem, beq, beq_iff,
  has_byte, has_byte-append, Bool-cases,
}
use go_tcp_tunnel.Base.Dict.{Dict, lookup}
use go_tcp_tunnel.HostPort.{trim_port, colon}
use go_tcp_tunnel.HostPort.Laws.{trim_port-plain}
use go_tcp_tunnel.HttpHost.{http_full_host, http_slug_from_host-http_full_host}
use go_tcp_tunnel.Proto.{Tunnel, is_stream, valid_subdomain_label}
use go_tcp_tunnel.Proto.Label.{valid_subdomain_label_iff, label-Lacks}
use go_tcp_tunnel.Registry.{subscriber}
use go_tcp_tunnel.Registry.Hosts.{elem-names}
use go_tcp_tunnel.Server.{Backend, Listen, add_tunnels}
use go_tcp_tunnel.Server.Tunnels.{OpensNew, IsServed, hosts_of, add_tunnels_success}
use go_tcp_tunnel.Routing.{to_lower, routed, http_message, route, handle_http_conn}

pub served_label :
    (ts : Dict Tunnel) (name : Bytes) (t : Tunnel)
    → All IsServed ts
    → lookup name ts ≡ some t
    → is_stream t.protocol ≡ false
    → valid_subdomain_label t.host ≡ true
unfolding lookup
served_label [] name t v e s = cc
served_label ((n, u) ∷ ts) name t v e s = elim (Bool-cases (beq n name)) [
  | inl h ↦ ground (arith, v.0)
  | inr h ↦ served_label ts name t v.1 (ground arith) s
]

hosts_of-elem :
    (base_domain : Bytes) (ts : Dict Tunnel) (name : Bytes) (t : Tunnel)
    → lookup name ts ≡ some t
    → is_stream t.protocol ≡ false
    → elem (http_full_host base_domain t.host) (hosts_of base_domain ts) ≡ true
unfolding lookup elem
hosts_of-elem base_domain [] name t e s = cc
hosts_of-elem base_domain ((n, u) ∷ ts) name t e s = elim (Bool-cases (beq n name)) [
  | inl h ↦
      ground
        (arith, beq_iff (http_full_host base_domain t.host) (http_full_host base_domain u.host))
  | inr h ↦ ground (arith, hosts_of-elem base_domain ts name t (ground arith) s)
]

pub full_host-plain :
    (base_domain host : Bytes)
    → has_byte colon base_domain ≡ false
    → valid_subdomain_label host ≡ true
    → trim_port (http_full_host base_domain host) ≡ http_full_host base_domain host
unfolding http_full_host
full_host-plain base_domain host plain valid =
    let label = (valid_subdomain_label_iff host).0 valid in
    trim_port-plain (host ++ b'.' ∷ base_domain) (
      unfold has_byte in
      ground (arith, has_byte-append colon host (b'.' ∷ base_domain), label-Lacks host label.bytes))

-- After a batch of tunnels was accepted, a request whose host is the public host of one of its http
-- tunnels, in any case and with or without a port, goes to the client of the batch with the
-- tunnel's own host in the message; the base domain has no colon, and net.Listen is assumed to open
-- new listeners.
pub handle_http_conn-add_tunnels :
    (listen : Listen) (base_domain : Bytes) (tunnels : Dict Tunnel) (identifier : Bytes)
    → (b b' : Backend) (name host : Bytes) (t : Tunnel) → OpensNew listen
    → has_byte colon base_domain ≡ false
    → add_tunnels listen base_domain tunnels identifier b ≡ (ok tt, b')
    → lookup name tunnels ≡ some t
    → is_stream t.protocol ≡ false
    → to_lower (trim_port host) ≡ http_full_host base_domain t.host
    → handle_http_conn base_domain true (some host) true b'.registry
      ≡ routed identifier (http_message t.host)
unfolding handle_http_conn route subscriber
handle_http_conn-add_tunnels listen base_domain tunnels identifier b b' name host t fresh plain e
      found s lowered =
    let full = http_full_host base_domain t.host in
    let (i, _, _, _, served, owner, _) =
      add_tunnels_success listen base_domain tunnels identifier b b' full 0 fresh e in
    let same =
      full_host-plain base_domain t.host plain (served_label tunnels name t served found s) in
    let registered = elem-names full _ (hosts_of-elem base_domain tunnels name t found s) in
    ground
      (arith, lowered, owner, registered, http_slug_from_host-http_full_host base_domain t.host)

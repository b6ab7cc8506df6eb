-- ===== src/Routing/Advertised.antt =====
-- The hosts that a client is told of.
use go_tcp_tunnel.Base.{
  ◌≡◌, refl, ap, ◌∙◌, arith, true, false, none, some, Option, [], ◌∷◌, Bytes, if◌then◌else◌, ok,
  All, beq, beq_iff, has_byte, Option-cases, inl, inr,
}
use go_tcp_tunnel.Base.Dict.{Dict, lookup, insert, lookup-insert, NodupKeys}
use go_tcp_tunnel.HostPort.{colon, trim_port}
use go_tcp_tunnel.HttpHost.{http_full_host}
use go_tcp_tunnel.Proto.{Tunnel, is_stream, is_http, http, is_label_byte, is_alnum}
use go_tcp_tunnel.Proto.Label.{valid_subdomain_label_iff}
use go_tcp_tunnel.Server.{Backend, Listen, add_tunnels}
use go_tcp_tunnel.Server.Tunnels.{OpensNew, add_tunnels_success}
use go_tcp_tunnel.Routing.{to_lower, routed, http_message, handle_http_conn, tunnel_hosts}
use go_tcp_tunnel.Routing.Hosts.{served_label, full_host-plain, handle_http_conn-add_tunnels}

abbrev host_of : Bytes → Option Tunnel → Option Bytes → Option Bytes
host_of base_domain none otherwise = otherwise
host_of base_domain (some t) otherwise =
    if is_http t.protocol then some (http_full_host base_domain t.host) else otherwise

lookup-tunnel_hosts :
    (base_domain name : Bytes) (ts : Dict Tunnel) (hosts : Dict Bytes)
    → NodupKeys ts
    → lookup name (tunnel_hosts base_domain ts hosts)
      ≡ host_of base_domain (lookup name ts) (lookup name hosts)
unfolding tunnel_hosts lookup
lookup-tunnel_hosts base_domain name [] hosts u = refl
lookup-tunnel_hosts base_domain name ((n, t) ∷ ts) hosts u = ground (
  arith,
  lookup-tunnel_hosts base_domain name ts
      (if is_http t.protocol then insert n (http_full_host base_domain t.host) hosts else hosts)
      u.1,
  lookup-insert n name (http_full_host base_domain t.host) hosts,
  u.0,
  beq_iff n name,
)

web_is_no_stream : is_stream http ≡ false
unfolding is_stream beq
web_is_no_stream = refl

http-is_stream : (p : Bytes) → is_http p ≡ true → is_stream p ≡ false
unfolding is_http
http-is_stream p h = ap is_stream ((beq_iff p http).0 h) ∙ web_is_no_stream

to_lower-label : (s : Bytes) → All (λ c. is_label_byte c ≡ true) s → to_lower s ≡ s
unfolding to_lower is_label_byte is_alnum
to_lower-label [] h = refl
to_lower-label (c ∷ s) h = ground (arith, to_lower-label s h.1)

to_lower-full_host :
    (base_domain s : Bytes)
    → to_lower base_domain ≡ base_domain
    → All (λ c. is_label_byte c ≡ true) s
    → to_lower (http_full_host base_domain s) ≡ http_full_host base_domain s
unfolding http_full_host to_lower is_label_byte is_alnum
to_lower-full_host base_domain [] e h = ap (λ t. b'.' ∷ t) e
to_lower-full_host base_domain (c ∷ s) e h = ground (arith, to_lower-full_host base_domain s e h.1)

lookup-nil : (name : Bytes) → lookup {V = Bytes} name [] ≡ none
unfolding lookup
lookup-nil name = refl

told_of :
    (base_domain name : Bytes) (ts : Dict Tunnel) (t : Tunnel) (host : Bytes)
    → NodupKeys ts
    → lookup name ts ≡ some t
    → lookup name (tunnel_hosts base_domain ts []) ≡ some host
    → (is_http t.protocol ≡ true) × (host ≡ http_full_host base_domain t.host)
told_of base_domain name ts t host u found told =
    let e = lookup-tunnel_hosts base_domain name ts [] u in
    let none_else = lookup-nil name in (ground arith, ground arith)

-- Every host that the client is told of is routed to it once its batch of tunnels was accepted,
-- with the host of the tunnel of that name in the message; the names are assumed to be distinct,
-- the base domain to have no colon and no capital letter, and net.Listen to open new listeners.
pub handle_http_conn-tunnel_hosts :
    (listen : Listen) (base_domain : Bytes) (tunnels : Dict Tunnel) (identifier : Bytes)
    → (b b' : Backend) (name host : Bytes) → OpensNew listen
    → has_byte colon base_domain ≡ false
    → to_lower base_domain ≡ base_domain
    → NodupKeys tunnels
    → add_tunnels listen base_domain tunnels identifier b ≡ (ok tt, b')
    → lookup name (tunnel_hosts base_domain tunnels []) ≡ some host
    → (t : Tunnel) × (lookup name tunnels ≡ some t)
      × (handle_http_conn base_domain true (some host) true b'.registry
          ≡ routed identifier (http_message t.host))
handle_http_conn-tunnel_hosts listen base_domain tunnels identifier b b' name host fresh plain low u
      e told =
    elim (Option-cases (lookup name tunnels)) [
      | inl absent ↦
          absurd
            (ground (arith, lookup-tunnel_hosts base_domain name tunnels [] u, lookup-nil name))
      | inr (t, found) ↦
          let (web, same) = told_of base_domain name tunnels t host u found told in
          let stream = http-is_stream t.protocol web in
          let (_, _, _, _, served, _, _) =
            add_tunnels_success listen base_domain tunnels identifier b b' [] 0 fresh e in
          let valid = served_label tunnels name t served found stream in
          let label = (valid_subdomain_label_iff t.host).0 valid in
          let lowered =
            ap (λ h. to_lower (trim_port h)) same
            ∙ (ap to_lower (full_host-plain base_domain t.host plain valid)
                ∙ to_lower-full_host base_domain t.host low label.bytes) in
          (
            t,
            found,
            handle_http_conn-add_tunnels listen base_domain tunnels identifier b b' name host t
                fresh plain e found stream lowered,
          )
    ]

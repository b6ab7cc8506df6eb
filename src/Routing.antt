-- ===== src/Routing.antt =====
-- `handleHTTPConn`, `connectRequest` and the messages of `listen` in server.go: to which client a
-- connection of a user goes, and with which message. Sniffing the host with net/http is an argument;
-- `strings.ToLower` is that of ASCII.
pub mod Hosts
pub mod Delivery
pub mod Advertised
use go_tcp_tunnel.Base.{
  ℕ, ◌+◌, ◌&&◌, Bool, true, false, none, some, Option, [], ◌∷◌, Bytes, codes, leb, if◌then◌else◌,
  map,
}
use go_tcp_tunnel.Base.Dict.{Dict, insert}
use go_tcp_tunnel.HostPort.{trim_port}
use go_tcp_tunnel.HttpHost.{http_slug_from_host, http_full_host}
use go_tcp_tunnel.Pool.{url}
use go_tcp_tunnel.Proto.{ControlMessage, Tunnel, is_http, write_to_header, action_proxy, http}
use go_tcp_tunnel.Registry.{Registry, subscriber}

abbrev pub lower : ℕ → ℕ
lower c = if leb b'A' c && leb c b'Z' then c + 32 else c

unfoldable pub to_lower : Bytes → Bytes
to_lower = map lower

-- The connection is closed at once, is closed behind an answer, or goes to a client.
pub data Routed : Type 0 where
  closed : Routed
  answered : Bytes → Routed
  routed : Bytes → ControlMessage → Routed

abbrev pub not_found : Bytes
not_found = codes "HTTP/1.1 404 Not Found\r\nConnection: close\r\nContent-Length: 0\r\n\r\n"

abbrev pub http_message : Bytes → ControlMessage
http_message slug = record {
  action = action_proxy;
  forwarded_host = slug;
  forwarded_proto = http;
  remote_addr = [];
}

unfoldable pub route : Bytes → Registry → Bytes → Routed
route base_domain r full_host = elim (subscriber full_host r) [
  | none ↦ answered not_found
  | some identifier ↦ routed identifier (http_message (http_slug_from_host base_domain full_host))
]

-- The two calls of `SetReadDeadline`, and between them the host that `peekHostHeader` finds.
unfoldable pub handle_http_conn : Bytes → Bool → Option Bytes → Bool → Registry → Routed
handle_http_conn base_domain false host cleared r = closed
handle_http_conn base_domain true none cleared r = closed
handle_http_conn base_domain true (some host) false r = closed
handle_http_conn base_domain true (some host) true r =
    route base_domain r (to_lower (trim_port host))

-- The message of a connection that the listener of a stream accepted.
abbrev pub stream_message : Bytes → Bytes → ControlMessage
stream_message network address = record {
  action = action_proxy;
  forwarded_host = address;
  forwarded_proto = network;
  remote_addr = [];
}

pub record Outgoing : Type 0 where
  pub method : Bytes
  pub url : Bytes
  pub header : Dict Bytes

unfoldable pub connect_request : Bytes → ControlMessage → Outgoing
connect_request identifier msg = record {
  method = codes "PUT";
  url = url identifier;
  header = write_to_header msg [];
}

-- The public hosts by the names of the http tunnels, of which `handleClient` tells the client.
unfoldable pub tunnel_hosts : Bytes → Dict Tunnel → Dict Bytes → Dict Bytes
tunnel_hosts base_domain [] hosts = hosts
tunnel_hosts base_domain ((name, t) ∷ ts) hosts =
    tunnel_hosts base_domain ts
      (if is_http t.protocol then insert name (http_full_host base_domain t.host) hosts else hosts)

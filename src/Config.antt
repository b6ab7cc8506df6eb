-- ===== src/Config.antt =====
-- cmd/client/config.go and the maps that cmd/client/options.go makes of the configuration: the
-- tunnels that a client asks for. The YAML decoder gives the map of tunnels.
pub mod Loading
pub mod Checked
pub mod Targets
pub mod Streams
use go_tcp_tunnel.Base.{
  Option, none, some, [], ◌∷◌, ◌++◌, Bytes, codes, if◌then◌else◌, is_empty, Result, ok, err, ◌>>=◌,
  ◌>>◌, require, map_err, not,
}
use go_tcp_tunnel.Base.Dict.{Dict, lookup, insert}
use go_tcp_tunnel.HostPort.{AddrError, split_host_port, normalize_address}
use go_tcp_tunnel.Proto
use go_tcp_tunnel.Proto.{is_stream, is_http, valid_subdomain_label}

pub record Tunnel : Type 0 where
  pub protocol : Bytes
  pub addr : Bytes
  pub remote_addr : Bytes
  pub subdomain : Bytes

pub data ConfigError : Type 0 where
  addr_missing remote_addr_not_supported invalid_default_subdomain invalid_subdomain : ConfigError
  invalid_protocol duplicate_subdomain server_addr_missing : ConfigError
  nil_tunnel : ConfigError  -- not returned: the panic at a null for a tunnel
  addr_error remote_addr_error server_addr_error : AddrError → ConfigError

-- The remote address of a stream: the port of the local one on every interface, if none is given.
remote_of : Tunnel → Bytes → Result ConfigError Bytes
remote_of t addr =
    if is_empty t.remote_addr
    then (do parts ← map_err addr_error (split_host_port addr); ok (codes "0.0.0.0:" ++ parts.1))
    else ok t.remote_addr

unfoldable pub complete_tcp : Tunnel → Result ConfigError Tunnel
unfolding remote_of
complete_tcp t = do
  require (not (is_empty t.addr)) addr_missing
  addr ← map_err addr_error (normalize_address t.addr)
  given ← remote_of t addr
  remote ← map_err remote_addr_error (normalize_address given)
  ok (record t { addr = addr; remote_addr = remote })

-- The subdomain is the tunnel's name, if none is given.
abbrev subdomain_of : Tunnel → Bytes → Bytes
subdomain_of t name = if is_empty t.subdomain then name else t.subdomain

unfoldable pub complete_http : Tunnel → Bytes → Result ConfigError Tunnel
complete_http t name = do
  require (not (is_empty t.addr)) addr_missing
  addr ← map_err addr_error (normalize_address t.addr)
  require (valid_subdomain_label (subdomain_of t name))
      (if is_empty t.subdomain then invalid_default_subdomain else invalid_subdomain)
  require (is_empty t.remote_addr) remote_addr_not_supported
  ok (record t { addr = addr; subdomain = subdomain_of t name })

-- `if other, ok := subdomains[t.Subdomain]; ok { … }; subdomains[t.Subdomain] = name`
claim : Bytes → Tunnel → Dict Bytes → Result ConfigError (Tunnel × Dict Bytes)
claim name t seen = elim (lookup t.subdomain seen) [
  | some _ ↦ err duplicate_subdomain
  | none ↦ ok (t, insert t.subdomain name seen)
]

-- One round of the loop over the tunnels, with the subdomains seen so far.
unfoldable pub check_tunnel : Bytes → Tunnel → Dict Bytes → Result ConfigError (Tunnel × Dict Bytes)
unfolding claim
check_tunnel name t seen =
    if is_stream t.protocol
    then (do t' ← complete_tcp t; ok (t', seen))
    else if is_http t.protocol
    then (do t' ← complete_http t name; claim name t' seen)
    else err invalid_protocol

-- `none` is a nil pointer, which the loop reads when it comes to it.
unfoldable pub check_tunnels : Dict (Option Tunnel) → Dict Bytes → Result ConfigError (Dict Tunnel)
check_tunnels [] seen = ok []
check_tunnels ((name, none) ∷ ts) seen = err nil_tunnel
check_tunnels ((name, some t) ∷ ts) seen = elim (check_tunnel name t seen) [
  | err e ↦ err e
  | ok (t', seen') ↦ elim (check_tunnels ts seen') [
    | err e ↦ err e
    | ok ts' ↦ ok ((name, t') ∷ ts')
  ]
]

-- `loadClientConfigFromFile` from the server's address on: that address and the tunnels.
unfoldable pub load_client_config :
    Bytes → Dict (Option Tunnel) → Result ConfigError (Bytes × Dict Tunnel)
load_client_config server_addr ts = do
  require (not (is_empty server_addr)) server_addr_missing
  address ← map_err server_addr_error (normalize_address server_addr)
  checked ← check_tunnels ts []
  ok (address, checked)

-- `tunnels` of options.go: what the client asks of the server.
unfoldable pub to_proto : Tunnel → Proto.Tunnel
to_proto t = record {
  protocol = t.protocol;
  host = if is_http t.protocol then t.subdomain else [];
  auth = [];
  addr = t.remote_addr;
}

unfoldable pub tunnels : Dict Tunnel → Dict Proto.Tunnel → Dict Proto.Tunnel
tunnels [] p = p
tunnels ((name, t) ∷ ts) p = tunnels ts (insert name (to_proto t) p)

-- The loop of `proxy` of options.go: the local address for each forwarded host.
unfoldable pub target_map : Dict Tunnel → Dict Bytes → Dict Bytes
target_map [] m = m
target_map ((name, t) ∷ ts) m = target_map ts (
    if is_stream t.protocol
    then insert t.remote_addr t.addr m
    else if is_http t.protocol
    then insert t.subdomain t.addr m
    else m)

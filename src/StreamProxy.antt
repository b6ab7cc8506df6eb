-- ===== src/StreamProxy.antt =====
-- streamproxy.go and proxy.go: which local address a tunneled connection is forwarded to. Copying
-- the bytes is left out.
use go_tcp_tunnel.Base.{
  ◌≡◌, ◌≢◌, refl, arith, Bool, false, ◌||◌, none, some, Option, [], ◌∷◌, ◌++◌, Bytes, codes,
  if◌then◌else◌, is_empty, Result, ok, err,
}
use go_tcp_tunnel.Base.Dict.{Dict, lookup}
use go_tcp_tunnel.HostPort.{AddrError, split_host_port}
use go_tcp_tunnel.Proto.{ControlMessage, is_stream, is_http}

pub record StreamProxy : Type 0 where
  pub local_addr : Bytes
  pub local_addr_map : Dict Bytes

unfoldable pub new_stream_proxy : Bytes → StreamProxy
new_stream_proxy local_addr = record { local_addr = local_addr; local_addr_map = [] }

unfoldable pub new_multi_stream_proxy : Dict Bytes → StreamProxy
new_multi_stream_proxy local_addr_map = record { local_addr = []; local_addr_map = local_addr_map }

-- `if addr := p.localAddrMap[key]; addr != "" { return addr }`, and what follows.
unfoldable pub try_key : Bytes → Dict Bytes → Bytes → Bytes
try_key key m otherwise = elim (lookup key m) [
  | none ↦ otherwise
  | some found ↦ if is_empty found then otherwise else found
]

-- `net.SplitHostPort` answers empty texts with its error.
abbrev parts_of : Result AddrError (Bytes × Bytes) → Bytes × Bytes
parts_of (ok parts) = parts
parts_of (err _) = ([], [])

unfoldable pub local_addr_for : StreamProxy → Bytes → Bytes
local_addr_for p host_port = elim p.local_addr_map [
  | [] ↦ p.local_addr
  | _ ∷ _ ↦
      let (host, port) = parts_of (split_host_port host_port) in
      try_key host_port p.local_addr_map (
        try_key port p.local_addr_map (
          try_key (codes "0.0.0.0:" ++ port) p.local_addr_map
            (try_key host p.local_addr_map p.local_addr)))
]

pub data Proxied : Type 0 where
  unsupported_protocol no_target : Proxied
  dial_failed forwarded : Bytes → Proxied

-- `StreamProxy.Proxy`; `dials` tells whether the local address answers.
unfoldable pub stream_proxy : (Bytes → Bool) → StreamProxy → ControlMessage → Proxied
stream_proxy dials p msg =
    let target = local_addr_for p msg.forwarded_host in
    if is_stream msg.forwarded_proto || is_http msg.forwarded_proto
    then if is_empty target
      then no_target
      else if dials target
      then forwarded target
      else dial_failed target
    else unsupported_protocol

-- `Proxy(ProxyFuncs)`: nothing is called for another protocol or with no function.
unfoldable pub proxy_func : Option (ControlMessage → Proxied) → ControlMessage → Option Proxied
proxy_func stream msg =
    if is_stream msg.forwarded_proto || is_http msg.forwarded_proto
    then elim stream [ none ↦ none | some f ↦ some (f msg) ]
    else none

lookup-nil : (key : Bytes) → lookup {V = Bytes} key [] ≡ none
unfolding lookup
lookup-nil key = refl

pub not-is_empty : (s : Bytes) → s ≢ [] → is_empty s ≡ false
not-is_empty [] h = absurd (h refl)
not-is_empty (c ∷ s) h = refl

-- An address that is mapped to a local address goes there.
pub local_addr_for_key :
    (p : StreamProxy) (key target : Bytes)
    → lookup key p.local_addr_map ≡ some target
    → target ≢ []
    → local_addr_for p key ≡ target
unfolding local_addr_for try_key
local_addr_for_key p key target e ne = ground (arith, lookup-nil key, not-is_empty target ne)

-- The address of a listener on every interface goes to the local address of that port.
pub local_addr_for_wildcard :
    (p : StreamProxy) (key host port target : Bytes)
    → split_host_port key ≡ ok (host, port)
    → lookup key p.local_addr_map ≡ none
    → lookup port p.local_addr_map ≡ none
    → lookup (codes "0.0.0.0:" ++ port) p.local_addr_map ≡ some target
    → target ≢ []
    → local_addr_for p key ≡ target
unfolding local_addr_for try_key
local_addr_for_wildcard p key host port target parts a b e ne = ground (
  arith,
  lookup-nil key,
  lookup-nil port,
  lookup-nil (codes "0.0.0.0:" ++ port),
  not-is_empty target ne,
)

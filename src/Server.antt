-- ===== src/Server.antt =====
-- server.go: the server's side of a tunnel. The state is the pool of connections with, behind its
-- `free` callback, the registry and the open listeners. What the operating system, TLS and HTTP/2
-- answer are arguments.
pub mod Handling
pub mod Tunnels
pub mod Handshake
pub mod Listeners
pub mod Admission
pub mod Accepted
pub mod Closing
pub mod Unsubscribing
pub mod Serving
pub mod Returning
pub mod Repeating
pub mod Reconnecting
use go_tcp_tunnel.Base.{
  ℕ, Bool, none, some, Option, List, [], ◌∷◌, ◌++◌, Bytes, if◌then◌else◌, is_empty, Result, ok, err,
  discard_all,
}
use go_tcp_tunnel.Base.Dict.{Dict}
use go_tcp_tunnel.HttpHost.{http_full_host}
use go_tcp_tunnel.Proto.{Tunnel, is_stream, is_http, valid_subdomain_label}
use go_tcp_tunnel.Registry.{Registry, RegistryItem, Entry, RegistryError, new_registry, clear, set}
use go_tcp_tunnel.Registry
use go_tcp_tunnel.Pool.{Pool, new_conn_pool, Http2, PoolError, delete_conn}
use go_tcp_tunnel.Pool

-- The registry and the listeners of the process that are open.
pub record Backend : Type 0 where
  pub registry : Registry
  pub open_listeners : List ℕ

-- What the server was started with.
pub record ServerConfig : Type 0 where
  pub base_domain : Bytes
  pub auto_subscribe : Bool

-- `net.Listen`, by network, address and the listeners already open.
abbrev pub Listen : Type 0
Listen = Bytes → Bytes → List ℕ → Option ℕ

unfoldable pub disconnected : Bytes → Backend → Backend
disconnected identifier b =
    let (i, r) = clear identifier b.registry in
    elim i [
      | none ↦ record b { registry = r }
      | some found ↦ record {
        registry = r;
        open_listeners = discard_all found.listeners b.open_listeners;
      }
    ]

pub data TunnelError : Type 0 where
  listen_failed no_base_domain missing_host invalid_label unsupported_protocol : Bytes → TunnelError
  registry_error : RegistryError → TunnelError

-- One round of the loop of `addTunnels`: the item so far and the open listeners. The tunnel's name
-- is in every error but that of `net.Listen`.
unfoldable pub add_tunnel :
    Listen
    → Bytes
    → Bytes
    → Tunnel
    → RegistryItem
    → List ℕ
    → Result TunnelError (RegistryItem × List ℕ)
add_tunnel listen base_domain name t i opened =
    if is_stream t.protocol
    then elim (listen t.protocol t.addr opened) [
      | none ↦ err (listen_failed t.addr)
      | some l ↦ ok (record i { listeners = i.listeners ++ (l ∷ []) }, l ∷ opened)
    ]
    else if is_http t.protocol
    then if is_empty base_domain
      then err (no_base_domain name)
      else if is_empty t.host
      then err (missing_host name)
      else if valid_subdomain_label t.host
      then ok (record i { hosts = i.hosts ++ (http_full_host base_domain t.host ∷ []) }, opened)
      else err (invalid_label name)
    else err (unsupported_protocol name)

pub record Collected : Type 0 where
  pub result : Result TunnelError (Unit {0})
  pub item : RegistryItem
  pub opened : List ℕ

unfoldable pub collect : Listen → Bytes → Dict Tunnel → RegistryItem → List ℕ → Collected
collect listen base_domain [] i opened = record { result = ok tt; item = i; opened = opened }
collect listen base_domain ((name, t) ∷ ts) i opened =
    elim (add_tunnel listen base_domain name t i opened) [
      | err e ↦ record { result = err e; item = i; opened = opened }
      | ok (i', opened') ↦ collect listen base_domain ts i' opened'
    ]

abbrev pub empty_item : RegistryItem
empty_item = record { hosts = []; listeners = [] }

-- `rollback:` closes what the batch opened.
unfoldable pub finish : Bytes → Backend → Collected → Result TunnelError (Unit {0}) × Backend
finish identifier b c = elim c.result [
  | err e ↦ (err e, record b { open_listeners = discard_all c.item.listeners c.opened })
  | ok _ ↦ elim (set c.item identifier b.registry) [
    | err e ↦ (
      err (registry_error e),
      record b { open_listeners = discard_all c.item.listeners c.opened },
    )
    | ok r ↦ (ok tt, record { registry = r; open_listeners = c.opened })
  ]
]

-- The map's order is the order in which the loop meets the tunnels.
unfoldable pub add_tunnels :
    Listen → Bytes → Dict Tunnel → Bytes → Backend → Result TunnelError (Unit {0}) × Backend
unfolding finish
add_tunnels listen base_domain tunnels identifier b =
    finish identifier b (collect listen base_domain tunnels empty_item b.open_listeners)

abbrev pub Server : Type 0
Server = Pool Backend

-- The callback that `NewServer` hands to the pool.
abbrev pub free : Option (Bytes → Backend → Backend)
free = some disconnected

-- `others` is what other goroutines do between `DeleteConn` and the registry's `Unsubscribe`.
unfoldable pub server_unsubscribe : (Server → Server) → Bytes → Server → Option Entry × Server
server_unsubscribe others identifier s =
    let s' = others (delete_conn free identifier s) in
    let (i, r) = Registry.unsubscribe identifier s'.state.registry in
    (i, record s' { state = record { registry = r; open_listeners = s'.state.open_listeners } })

unfoldable pub server_ping : Http2 → Bytes → Server → Result PoolError (Unit {0})
server_ping h identifier s = Pool.ping h identifier s

-- `NewServer`.
unfoldable pub new_server : Server
new_server = new_conn_pool (record { registry = new_registry; open_listeners = [] })

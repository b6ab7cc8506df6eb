-- ===== src/Lifecycle.antt =====
-- server.go: opening and closing the server's own listeners, and the loops that accept connections.
-- What Accept returns is a list of events.
pub mod Accepting
pub mod Releasing
pub mod Streams
use go_tcp_tunnel.Base.{
  ℕ, Bool, true, false, not, ◌&&◌, none, some, Option, List, [], ◌∷◌, Bytes, codes, if◌then◌else◌,
  is_empty, Result, ok, err, discard,
}
use go_tcp_tunnel.Proto.{ControlMessage}
use go_tcp_tunnel.Server.{Listen}
use go_tcp_tunnel.Registry.{Registry}
use go_tcp_tunnel.Routing.{stream_message, Routed, handle_http_conn}

pub data ListenError : Type 0 where
  missing_addr missing_tls_config control_listen_failed http_listen_failed : ListenError

-- The fields of `ServerConfig` that concern the listeners.
pub record ListenConfig : Type 0 where
  pub listener : Option ℕ
  pub addr : Bytes
  pub has_tls_config : Bool
  pub base_domain : Bytes
  pub http_addr : Bytes

-- The control listener, the one for http tunnels, and the open listeners of the process.
pub record Ports : Type 0 where
  pub control : ℕ
  pub http : Option ℕ
  pub opened : List ℕ

abbrev tcp_network : Bytes
tcp_network = codes "tcp"

opened_control : Option ℕ → List ℕ → Result ListenError Ports
opened_control none opened = err control_listen_failed
opened_control (some l) opened = ok (record { control = l; http = none; opened = l ∷ opened })

-- `listener`, and what `NewServer` keeps of it. A listener that is given is open already.
unfoldable pub new_ports : Listen → ListenConfig → List ℕ → Result ListenError Ports
unfolding opened_control
new_ports listen config opened = elim config.listener [
  | some l ↦ ok (record { control = l; http = none; opened = opened })
  | none ↦
      if is_empty config.addr
      then err missing_addr
      else if config.has_tls_config
      then opened_control (listen tcp_network config.addr opened) opened
      else err missing_tls_config
]

-- `Start` before its loop.
unfoldable pub start_ports : Listen → ListenConfig → Ports → Result ListenError (Unit {0}) × Ports
start_ports listen config p =
    if not (is_empty config.base_domain) && not (is_empty config.http_addr)
    then elim (listen tcp_network config.http_addr p.opened) [
      | none ↦ (err http_listen_failed, record p { opened = discard p.control p.opened })
      | some l ↦ (ok tt, record p { http = some l; opened = l ∷ p.opened })
    ]
    else (ok tt, p)

-- `Addr` and `HTTPAddr`, with the addresses of the listeners as texts.
unfoldable pub ports_addr : (ℕ → Bytes) → Ports → Bytes
ports_addr text p = text p.control

unfoldable pub ports_http_addr : (ℕ → Bytes) → Ports → Bytes
ports_http_addr text p = elim p.http [ none ↦ [] | some l ↦ text l ]

unfoldable pub stop_ports : Ports → Ports
stop_ports p =
    let opened = discard p.control p.opened in
    elim p.http [
      | none ↦ record p { opened = opened }
      | some l ↦ record p { opened = discard l opened }
    ]

pub data Accept : Type 0 where
  accepted : ℕ → Accept
  accept_failed listener_closed : Accept

-- The loops of `Start`, `listen` and `listenHTTP`: the connections that are handled, each in its
-- own goroutine, and whether the loop has ended.
unfoldable pub accept_loop : List Accept → List ℕ × Bool
accept_loop [] = ([], false)
accept_loop (accepted c ∷ es) = let (handled, ended) = accept_loop es in (c ∷ handled, ended)
accept_loop (accept_failed ∷ es) = accept_loop es
accept_loop (listener_closed ∷ es) = ([], true)

-- What `listen` hands to `proxyConn` for a stream.
unfoldable pub listen_stream : Bytes → Bytes → Bytes → List ℕ → List (ℕ × (Bytes × ControlMessage))
listen_stream identifier network address [] = []
listen_stream identifier network address (c ∷ cs) =
    (c, (identifier, stream_message network address)) ∷ listen_stream identifier network address cs

-- `listen`
unfoldable pub listen_loop :
    Bytes → Bytes → Bytes → List Accept → List (ℕ × (Bytes × ControlMessage)) × Bool
listen_loop identifier network address es =
    let (cs, ended) = accept_loop es in (listen_stream identifier network address cs, ended)

-- What handling a connection meets: the two calls of `SetReadDeadline`, the host that
-- `peekHostHeader` finds, and the registry then.
pub record Sniffed : Type 0 where
  pub has_deadline : Bool
  pub host : Option Bytes
  pub is_cleared : Bool
  pub registry : Registry

unfoldable pub handle_all : Bytes → (ℕ → Sniffed) → List ℕ → List (ℕ × Routed)
handle_all base_domain sniff [] = []
handle_all base_domain sniff (c ∷ cs) =
    let s = sniff c in
    (c, handle_http_conn base_domain s.has_deadline s.host s.is_cleared s.registry)
    ∷ handle_all base_domain sniff cs

-- `listenHTTP`
unfoldable pub listen_http : Bytes → (ℕ → Sniffed) → List Accept → List (ℕ × Routed) × Bool
listen_http base_domain sniff es =
    let (cs, ended) = accept_loop es in (handle_all base_domain sniff cs, ended)

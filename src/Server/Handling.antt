-- ===== src/Server/Handling.antt =====
-- server.go: handleClient and the functions that only it calls. What TLS and HTTP/2 answer, and
-- what other goroutines do meanwhile, are arguments.
use go_tcp_tunnel.Base.{
  ℕ, Bool, true, false, none, some, Option, [], ◌∷◌, Bytes, ◌==◌, if◌then◌else◌, Result, ok, err,
}
use go_tcp_tunnel.Base.Dict.{Dict}
use go_tcp_tunnel.Proto.{Tunnel, is_http}
use go_tcp_tunnel.Registry.{subscribe, is_subscribed}
use go_tcp_tunnel.Pool.{Http2, PoolError, add_conn, delete_conn}
use go_tcp_tunnel.Server.{
  Collected, Listen, Server, ServerConfig, TunnelError, collect, empty_item, add_tunnels, free,
}

-- `conn.Close()` of a connection that is not in the pool.
unfoldable pub close_conn : ℕ → Server → Server
close_conn conn s = record s { closed = conn ∷ s.closed }

-- The client's answer to the handshake, with no content length where it is unknown; `tunnels` is
-- what the JSON decoder makes of its body, in which a null for a tunnel is a nil pointer.
pub record Response : Type 0 where
  pub status : ℕ
  pub content_length : Option ℕ
  pub tunnels : Option (Dict (Option Tunnel))

-- What the world answers while one client is handled. `exchange` is the handshake request and
-- `push` a notification: both return when other goroutines may have changed the server.
pub record World : Type 0 where
  pub is_tls : Bool
  pub peer_id : Option Bytes
  pub deadline_set : Bool
  pub http2 : Http2
  pub request_made : Bool
  pub exchange : Server → Option Response × Server
  pub push : Bytes → Server → Server
  pub listen : Listen

pub data Reject : Type 0 where
  not_tls certificate_error unknown_client deadline_failed request_failed exchange_failed : Reject
  bad_status no_content decode_failed no_tunnels : Reject
  pool_error : PoolError → Reject
  tunnel_error : TunnelError → Reject
  nil_tunnel : Reject  -- not a reject: the panic at a nil pointer, which ends the program

-- `reject:` before and after the connection is in the pool. There `err` is never `nil`, so
-- `notifyError` always sends.
unfoldable pub reject_conn : Reject → ℕ → Server → Result Reject (Unit {0}) × Server
reject_conn e conn s = (err e, close_conn conn s)

unfoldable pub reject_client : World → Reject → Bytes → Server → Result Reject (Unit {0}) × Server
reject_client w e identifier s = (err e, delete_conn free identifier (w.push identifier s))

pub has_http : Dict Tunnel → Bool
has_http [] = false
has_http ((name, t) ∷ ts) = if is_http t.protocol then true else has_http ts

-- `notifyTunnelInfo` sends only if there is a host.
unfoldable pub notify_tunnel_info : World → Dict Tunnel → Bytes → Server → Server
unfolding has_http
notify_tunnel_info w tunnels identifier s = if has_http tunnels then w.push identifier s else s

unfoldable pub open_tunnels :
    ServerConfig → World → Dict Tunnel → Bytes → Server → Result Reject (Unit {0}) × Server
open_tunnels config w tunnels identifier s =
    let (r, b) = add_tunnels w.listen config.base_domain tunnels identifier s.state in
    elim r [
      | err e ↦ reject_client w (tunnel_error e) identifier (record s { state = b })
      | ok _ ↦ (ok tt, notify_tunnel_info w tunnels identifier (record s { state = b }))
    ]

pub is_zero : Option ℕ → Bool
is_zero none = false
is_zero (some n) = n == 0

-- The tunnels up to the first nil pointer, and whether there is one.
unfoldable pub until_nil : Dict (Option Tunnel) → Dict Tunnel × Bool
until_nil [] = ([], false)
until_nil ((name, none) ∷ ps) = ([], true)
until_nil ((name, some t) ∷ ps) = let (ts, nil) = until_nil ps in ((name, t) ∷ ts, nil)

-- The rounds of the loop of `addTunnels`.
abbrev pub collected : ServerConfig → World → Dict Tunnel → Server → Collected
collected config w ts s = collect w.listen config.base_domain ts empty_item s.state.open_listeners

-- The loop of `addTunnels` reads a nil pointer if it comes to it: no tunnel before it fails.
unfoldable pub open_given :
    ServerConfig → World → Dict Tunnel × Bool → Bytes → Server → Result Reject (Unit {0}) × Server
open_given config w (ts, false) identifier s = open_tunnels config w ts identifier s
open_given config w (ts, true) identifier s = elim (collected config w ts s).result [
  | err e ↦ open_tunnels config w ts identifier s
  | ok _ ↦ (err nil_tunnel, s)
]

-- What the server makes of the tunnels in the answer.
unfoldable pub decoded :
    ServerConfig
    → World
    → Bytes
    → Option (Dict (Option Tunnel))
    → Server
    → Result Reject (Unit {0}) × Server
decoded config w identifier none s = reject_client w decode_failed identifier s
decoded config w identifier (some []) s = reject_client w no_tunnels identifier s
decoded config w identifier (some (p ∷ ps)) s =
    open_given config w (until_nil (p ∷ ps)) identifier s

-- What the server makes of the client's answer.
unfoldable pub answered :
    ServerConfig → World → Bytes → Option Response → Server → Result Reject (Unit {0}) × Server
unfolding is_zero
answered config w identifier none s = reject_client w exchange_failed identifier s
answered config w identifier (some resp) s =
    if resp.status == 200
    then if is_zero resp.content_length
      then reject_client w no_content identifier s
      else decoded config w identifier resp.tunnels s
    else reject_client w bad_status identifier s

unfoldable pub handshake : ServerConfig → World → Bytes → Server → Result Reject (Unit {0}) × Server
handshake config w identifier s =
    if w.request_made
    then answered config w identifier (w.exchange s).0 (w.exchange s).1
    else reject_client w request_failed identifier s

-- What follows `AddConn`.
unfoldable pub joined :
    ServerConfig
    → World
    → ℕ
    → Bytes
    → Result PoolError (Unit {0}) × Server
    → Result Reject (Unit {0}) × Server
joined config w conn identifier (err e, s) = reject_conn (pool_error e) conn s
joined config w conn identifier (ok _, s) = handshake config w identifier s

unfoldable pub join_pool :
    ServerConfig → World → ℕ → Bytes → Server → Result Reject (Unit {0}) × Server
join_pool config w conn identifier s =
    if w.deadline_set
    then joined config w conn identifier (add_conn free w.http2 conn identifier s)
    else reject_conn deadline_failed conn s

unfoldable pub subscribe_client : Bytes → Server → Server
subscribe_client identifier s = record s {
  state = record {
    registry = subscribe identifier s.state.registry;
    open_listeners = s.state.open_listeners;
  };
}

unfoldable pub handle_client : ServerConfig → World → ℕ → Server → Result Reject (Unit {0}) × Server
unfolding subscribe_client
handle_client config w conn s =
    if w.is_tls
    then elim w.peer_id [
      | none ↦ reject_conn certificate_error conn s
      | some identifier ↦
          if config.auto_subscribe
          then join_pool config w conn identifier (subscribe_client identifier s)
          else if is_subscribed identifier s.state.registry
          then join_pool config w conn identifier s
          else reject_conn unknown_client conn s
    ]
    else reject_conn not_tls conn s

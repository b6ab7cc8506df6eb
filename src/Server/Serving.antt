-- ===== src/Server/Serving.antt =====
-- A server over time: what its operations lead to, where the goroutines that run while a client is
-- handled do nothing but such operations themselves.
pub mod Tidy
pub mod Sound
pub mod Listed
use go_tcp_tunnel.Base.{ℕ, inl, inr, Bytes, Option-cases, Bool-cases}
use go_tcp_tunnel.Base.Dict.{lookup}
use go_tcp_tunnel.Pool.{Http2, get_client_conn, mark_dead}
use go_tcp_tunnel.Pool.Invariant.{IsFresh, IsNewClient}
use go_tcp_tunnel.Server.{Server, ServerConfig, free, server_unsubscribe}
use go_tcp_tunnel.Server.Handling.{World, subscribe_client, handle_client}
use go_tcp_tunnel.Server.Tunnels.{OpensNew}
use go_tcp_tunnel.Server.Unsubscribing.{HasNoItem, between}
use go_tcp_tunnel.Server.Handshake.{IsKept, handle_client-keeps}

-- One state of the server leads to another: `handleClient` of a connection that is new, as its
-- HTTP/2 connection is, with other operations in each exchange and notification; `Subscribe` of a
-- client that is `Listed`; `Unsubscribe`, with other operations between its two locks, of a client
-- that has no item when it comes to the second; and what HTTP/2 calls in the pool, with other
-- operations between the two locks of `GetClientConn`. `addTunnels` and `disconnected` are one step
-- each: Interleaving takes them apart.
pub data Leads (config : ServerConfig) (Listed : Bytes → Type 0) : Server → Server → Type 0 where
  stays : {s : Server} → Leads config Listed s s
  then_leads :
      {s m t : Server} → Leads config Listed s m → Leads config Listed m t → Leads config Listed s t
  handles :
      {s : Server} (w : World) (conn : ℕ)
      → IsFresh conn s
      → IsNewClient w.http2 conn s
      → OpensNew w.listen
      → ((q : Server) → Leads config Listed q (w.exchange q).1)
      → ((identifier : Bytes) (q : Server) → Leads config Listed q (w.push identifier q))
      → Leads config Listed s (handle_client config w conn s).1
  subscribes :
      {s : Server} (identifier : Bytes)
      → Listed identifier
      → Leads config Listed s (subscribe_client identifier s)
  unsubscribes :
      {s : Server} (others : Server → Server) (identifier : Bytes)
      → ((q : Server) → Leads config Listed q (others q))
      → HasNoItem identifier (between others identifier s).state
      → Leads config Listed s (server_unsubscribe others identifier s).1
  gets :
      {s : Server} (h : Http2) (others : Server → Server) (address : Bytes)
      → ((q : Server) → Leads config Listed q (others q))
      → Leads config Listed s (get_client_conn free h others address s).1
  dies : {s : Server} (client_conn : ℕ) → Leads config Listed s (mark_dead free client_conn s)

module _ {config : ServerConfig} {Listed : Bytes → Type 0} {P : Server → Type 0}
    (k : IsKept config Listed P) where
  get_client_conn-keeps :
      (h : Http2) (others : Server → Server) (address : Bytes) (s : Server)
      → ((q : Server) → P q → P (others q))
      → P s
      → P (get_client_conn free h others address s).1
  unfolding get_client_conn
  get_client_conn-keeps h others address s keeps v = elim (Option-cases (lookup address s.conns)) [
    | inl e ↦ rw (e, get_client_conn) v
    | inr (cp, e) ↦ elim (Bool-cases (h.can_take_new_request cp.client_conn)) [
      | inl takes ↦ rw (e, get_client_conn) (rw takes v)
      | inr stale ↦ rw (e, get_client_conn) (rw stale (k.evicted cp address (others s) (keeps s v)))
    ]
  ]

  -- What every change keeps, holds as long as the server runs.
  pub Leads-keeps : {s t : Server} → Leads config Listed s t → P s → P t
  Leads-keeps stays v = v
  Leads-keeps (then_leads l m) v = Leads-keeps m (Leads-keeps l v)
  Leads-keeps (handles {s} w conn fresh new_client new exchanges pushes) v =
      handle_client-keeps config Listed P k w
        (record {
          exchanged = λ q u. Leads-keeps (exchanges q) u;
          pushed = λ i q u. Leads-keeps (pushes i q) u;
          opens_new = new;
        })
        conn s fresh new_client v
  Leads-keeps (subscribes {s} identifier listed) v = k.subscribed identifier s (inr listed) v
  Leads-keeps (unsubscribes {s} others identifier meanwhile none_there) v =
      k.unsubscribed others identifier s (λ q u. Leads-keeps (meanwhile q) u) none_there v
  Leads-keeps (gets {s} h others address between) v =
      get_client_conn-keeps h others address s (λ q u. Leads-keeps (between q) u) v
  Leads-keeps (dies {s} client_conn) v = k.died client_conn s v

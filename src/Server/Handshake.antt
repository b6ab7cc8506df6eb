-- ===== src/Server/Handshake.antt =====
-- What `handleClient` keeps, on every path: what each of its calls that change the server keeps.
use go_tcp_tunnel.Base.{
  ℕ, true, ◌≡◌, ◌⊎◌, inl, inr, arith, none, some, Option, [], ◌∷◌, Bytes, ◌==◌, Result, ok, err,
  refl, if_both, if_cases, Option-cases, Result-cases, Bool, false,
}
use go_tcp_tunnel.Base.Dict.{Dict, lookup-insert_self}
use go_tcp_tunnel.Proto.{Tunnel}
use go_tcp_tunnel.Pool.{ConnPair, Http2, PoolError, evict, mark_dead, add_conn, delete_conn}
use go_tcp_tunnel.Pool.Invariant.{IsFresh, IsNewClient}
use go_tcp_tunnel.Pool.State.{IsUnused, add_conn-IsUnused}
use go_tcp_tunnel.Registry.{void, is_subscribed, subscribe}
use go_tcp_tunnel.Server.{Server, ServerConfig, Listen, free, add_tunnels, server_unsubscribe}
use go_tcp_tunnel.Server.Handling.{
  World, Response, Reject, reject_conn, reject_client, close_conn, has_http, open_tunnels, decoded,
  answered, handshake, joined, join_pool, subscribe_client, handle_client, notify_tunnel_info,
  is_zero, open_given, collected, until_nil,
}
use go_tcp_tunnel.Server.Tunnels.{OpensNew}
use go_tcp_tunnel.Server.Unsubscribing.{HasNoItem, between}

-- Each change that the server's operations make keeps `P`. Clients are subscribed by the server
-- itself or are `Listed`.
pub record IsKept (config : ServerConfig) (Listed : Bytes → Type 0) (P : Server → Type 0)
    : Type 0 where
  pub closed : (conn : ℕ) (s : Server) → IsUnused conn s → P s → P (close_conn conn s)
  pub joined :
      (h : Http2) (conn : ℕ) (i : Bytes) (s : Server)
      → IsFresh conn s
      → IsNewClient h conn s
      → is_subscribed i s.state.registry ≡ true
      → P s
      → P (add_conn free h conn i s).1
  pub deleted : (i : Bytes) (s : Server) → P s → P (delete_conn free i s)
  pub evicted : (cp : ConnPair) (a : Bytes) (s : Server) → P s → P (evict free cp a s)
  pub died : (c : ℕ) (s : Server) → P s → P (mark_dead free c s)
  pub added :
      (listen : Listen) (ts : Dict Tunnel) (i : Bytes) (s : Server)
      → OpensNew listen
      → P s
      → P (record s { state = (add_tunnels listen config.base_domain ts i s.state).1 })
  pub subscribed :
      (i : Bytes) (s : Server)
      → (config.auto_subscribe ≡ true) ⊎ Listed i
      → P s
      → P (subscribe_client i s)
  pub unsubscribed :
      (others : Server → Server) (i : Bytes) (s : Server)
      → ((q : Server) → P q → P (others q))
      → HasNoItem i (between others i s).state
      → P s
      → P (server_unsubscribe others i s).1

pub subscribe_client-is_subscribed :
    (i : Bytes) (s : Server) → is_subscribed i (subscribe_client i s).state.registry ≡ true
unfolding subscribe_client subscribe is_subscribed
subscribe_client-is_subscribed i s =
    ground (arith, lookup-insert_self i void s.state.registry.items)

-- Other goroutines keep `P` while the server waits for the client, and `net.Listen` opens new
-- listeners.
pub record IsKeptBy (w : World) (P : Server → Type 0) : Type 0 where
  pub exchanged : (s : Server) → P s → P (w.exchange s).1
  pub pushed : (i : Bytes) (s : Server) → P s → P (w.push i s)
  pub opens_new : OpensNew w.listen

module _ (config : ServerConfig) (Listed : Bytes → Type 0) (P : Server → Type 0)
    (k : IsKept config Listed P) (w : World) (t : IsKeptBy w P) where
  reject_client-keeps : (e : Reject) (i : Bytes) (s : Server) → P s → P (reject_client w e i s).1
  unfolding reject_client
  reject_client-keeps e i s v = k.deleted i (w.push i s) (t.pushed i s v)

  notify-keeps : (ts : Dict Tunnel) (i : Bytes) (s : Server) → P s → P (notify_tunnel_info w ts i s)
  unfolding notify_tunnel_info
  notify-keeps ts i s v = if_both P (has_http ts) _ _ (t.pushed i s v) v

  abbrev Kept : Result Reject (Unit {0}) × Server → Type 0
  Kept q = P q.1

  open_tunnels-keeps :
      (ts : Dict Tunnel) (i : Bytes) (s : Server) → P s → Kept (open_tunnels config w ts i s)
  unfolding open_tunnels
  open_tunnels-keeps ts i s v =
      let added = k.added w.listen ts i s t.opens_new v in
      elim (Result-cases (add_tunnels w.listen config.base_domain ts i s.state).0) [
        | inl (e, failed) ↦ rw (failed, open_tunnels) (reject_client-keeps _ i _ added)
        | inr (_, good) ↦ rw (good, open_tunnels) (notify-keeps ts i _ added)
      ]

  open_given-keeps :
      (g : Dict Tunnel × Bool) (i : Bytes) (s : Server) → P s → Kept (open_given config w g i s)
  unfolding open_given
  open_given-keeps (ts, false) i s v = open_tunnels-keeps ts i s v
  open_given-keeps (ts, true) i s v = elim (Result-cases (collected config w ts s).result) [
    | inl (e, failed) ↦ rw (failed, open_given) (open_tunnels-keeps ts i s v)
    | inr (_, good) ↦ rw (good, open_given) v
  ]

  decoded-keeps :
      (i : Bytes) (ts : Option (Dict (Option Tunnel))) (s : Server)
      → P s
      → Kept (decoded config w i ts s)
  unfolding decoded
  decoded-keeps i none s v = reject_client-keeps _ i s v
  decoded-keeps i (some []) s v = reject_client-keeps _ i s v
  decoded-keeps i (some (p ∷ ps)) s v = open_given-keeps (until_nil (p ∷ ps)) i s v

  answered-keeps :
      (i : Bytes) (r : Option Response) (s : Server) → P s → Kept (answered config w i r s)
  unfolding answered
  answered-keeps i none s v = reject_client-keeps _ i s v
  answered-keeps i (some resp) s v =
      if_both Kept (resp.status == 200) _ _
        (if_both Kept (is_zero resp.content_length) _ _ (reject_client-keeps _ i s v)
          (decoded-keeps i resp.tunnels s v))
        (reject_client-keeps _ i s v)

  handshake-keeps : (i : Bytes) (s : Server) → P s → Kept (handshake config w i s)
  unfolding handshake
  handshake-keeps i s v =
      if_both Kept w.request_made _ _
        (answered-keeps i (w.exchange s).0 (w.exchange s).1 (t.exchanged s v))
        (reject_client-keeps _ i s v)

  joined-keeps :
      (conn : ℕ) (i : Bytes) (q : Result PoolError (Unit {0}) × Server)
      → ((e : PoolError) → q.0 ≡ err e → IsUnused conn q.1)
      → P q.1
      → Kept (joined config w conn i q)
  unfolding joined reject_conn
  joined-keeps conn i (err e, s) unused v = k.closed conn s (unused e refl) v
  joined-keeps conn i (ok _, s) unused v = handshake-keeps i s v

  join_pool-keeps :
      (conn : ℕ) (i : Bytes) (s : Server)
      → IsFresh conn s
      → IsNewClient w.http2 conn s
      → is_subscribed i s.state.registry ≡ true
      → P s
      → Kept (join_pool config w conn i s)
  unfolding join_pool reject_conn
  join_pool-keeps conn i s fresh new known v =
      if_both Kept w.deadline_set _ _
        (joined-keeps conn i _ (λ e failed. add_conn-IsUnused free w.http2 conn i s e fresh failed)
          (k.joined w.http2 conn i s fresh new known v))
        (k.closed conn s fresh.unused v)

  pub handle_client-keeps :
      (conn : ℕ) (s : Server)
      → IsFresh conn s
      → IsNewClient w.http2 conn s
      → P s
      → Kept (handle_client config w conn s)
  unfolding handle_client reject_conn subscribe_client
  handle_client-keeps conn s fresh new v =
      let rejected = k.closed conn s fresh.unused v in
      if_both Kept w.is_tls _ _
        (elim (Option-cases w.peer_id) [
          | inl e ↦ simp e rejected
          | inr (i, e) ↦ simp e (
              if_cases Kept config.auto_subscribe _ _
                (λ auto.
                  join_pool-keeps conn i (subscribe_client i s)
                    (record { open_conn = fresh.open_conn; unused = fresh.unused }) new
                    (subscribe_client-is_subscribed i s) (k.subscribed i s (inl auto) v))
                (λ _.
                  if_cases Kept (is_subscribed i s.state.registry) _ _
                    (λ known. join_pool-keeps conn i s fresh new known v) (λ _. rejected)))
        ])
        rejected

-- ===== src/Server/Returning.antt =====
-- A client that comes and goes.
use go_tcp_tunnel.Base.{
  ℕ, ◌≡◌, inl, inr, refl, sym, ap, ◌∙◌, arith, none, some, Option, ◌∷◌, Bytes, beq_iff, ok, holds,
  if◌then◌else◌, Option-cases, Bool-cases, subst,
}
use go_tcp_tunnel.Base.Dict.{
  Dict, lookup, insert, erase, lookup-insert, lookup-insert_self, lookup-erase, NodupKeys,
  insert-NodupKeys,
}
use go_tcp_tunnel.Id.RoundTrip.{IsId}
use go_tcp_tunnel.Proto.{Tunnel}
use go_tcp_tunnel.Pool.{ConnPair, addr, find_conn, mark_dead}
use go_tcp_tunnel.Pool.Address.{identifier-addr}
use go_tcp_tunnel.Pool.State.{mark_dead-some, add_conn-new}
use go_tcp_tunnel.Pool.Invariant.{IsNewClient, IsSound, find_conn-some, find_conn-none}
use go_tcp_tunnel.Registry.Invariant.{IsConsistent}
use go_tcp_tunnel.Registry.Spec.{clear-set}
use go_tcp_tunnel.Server.{
  Server, ServerConfig, Backend, Listen, Collected, free, disconnected, add_tunnels, collect,
  empty_item, finish,
}
use go_tcp_tunnel.Server.Handling.{
  Response, World, notify_tunnel_info, handshake, joined, join_pool, reject_conn, reject_client,
  subscribe_client, handle_client,
}
use go_tcp_tunnel.Server.Tunnels.{
  OpensNew, Tracks, Tracks-empty, collect-Tracks, rolled_back, finish_success,
}
use go_tcp_tunnel.Server.Listeners.{IsTidy, subscribe-IsTidy}
use go_tcp_tunnel.Server.Accepted.{answered_ok, open_tunnels_ok}

-- Both tables of the registry, and the set of open listeners, read the same.
pub record IsSame (b b' : Backend) : Type 0 where
  pub hosts : (k : Bytes) → lookup k b'.registry.hosts ≡ lookup k b.registry.hosts
  pub items : (j : Bytes) → lookup j b'.registry.items ≡ lookup j b.registry.items
  pub listeners : (k : ℕ) → holds k b'.open_listeners ≡ holds k b.open_listeners

disconnected-finish :
    (i : Bytes) (b b' : Backend) (c : Collected)
    → IsConsistent b.registry
    → Tracks b.open_listeners c.item c.opened
    → finish i b c ≡ (ok tt, b')
    → IsSame b (disconnected i b')
unfolding disconnected
disconnected-finish i b b' c v tracks done =
    let (_, wrote, opened) = finish_success i b b' c done in
    let (back, hosts, items) = clear-set c.item i b.registry v wrote in
    record {
      hosts = λ k. ground (arith, back, hosts k);
      items = λ j. ground (arith, back, items j);
      listeners =
          λ k. ground (arith, back, opened, rolled_back b.open_listeners c.item c.opened k tracks);
    }

-- What addTunnels did for a client, disconnected takes back.
disconnected-add_tunnels :
    (listen : Listen) (base_domain : Bytes) (ts : Dict Tunnel) (i : Bytes) (b b' : Backend)
    → OpensNew listen
    → IsConsistent b.registry
    → add_tunnels listen base_domain ts i b ≡ (ok tt, b')
    → IsSame b (disconnected i b')
unfolding add_tunnels
disconnected-add_tunnels listen base_domain ts i b b' new v done =
    disconnected-finish i b b' (collect listen base_domain ts empty_item b.open_listeners) v
      (collect-Tracks listen base_domain new b.open_listeners ts empty_item b.open_listeners
        (Tracks-empty b.open_listeners))
      done

find_conn-insert :
    (a : Bytes) (cp : ConnPair) (m : Dict ConnPair)
    → NodupKeys m
    → ((b : Bytes) (cq : ConnPair) → lookup b m ≡ some cq → cq.client_conn ≡ cp.client_conn → ⊥)
    → find_conn cp.client_conn (insert a cp m) ≡ some (a, cp)
find_conn-insert a cp m u new = elim (Option-cases (find_conn cp.client_conn (insert a cp m))) [
  | inl absent ↦
      absurd
        (find_conn-none cp.client_conn (insert a cp m) a cp absent (lookup-insert_self a cp m) refl)
  | inr ((b, cq), found) ↦
      let (there, same) =
        find_conn-some cp.client_conn (insert a cp m) b cq (insert-NodupKeys a cp m u) found in
      ground (arith, found, there, same, lookup-insert a b cp m, beq_iff a b, new b cq)
]

-- Nobody else changes the server while the client is served, and the client always answers alike.
pub record IsQuiet (w : World) : Type 0 where
  pub answer : Option Response
  pub exchanged : (s : Server) → w.exchange s ≡ (answer, s)
  pub pushed : (i : Bytes) (s : Server) → w.push i s ≡ s

-- The server after the check of the client's subscription.
abbrev pub admitted : ServerConfig → Bytes → Server → Server
admitted config i s = if config.auto_subscribe then subscribe_client i s else s

module _ (config : ServerConfig) (w : World) (i : Bytes) (quiet : IsQuiet w) where
  notified : (ts : Dict Tunnel) (s : Server) → notify_tunnel_info w ts i s ≡ s
  unfolding notify_tunnel_info
  notified ts s = ground (arith, quiet.pushed i s)

  pub handshake_adds :
      (s s' : Server)
      → handshake config w i s ≡ (ok tt, s')
      → (ts : Dict Tunnel) × (b : Backend) × (add_tunnels w.listen config.base_domain ts i s.state
          ≡ (ok tt, b))
        × (s' ≡ record s { state = b })
  unfolding handshake reject_client
  handshake_adds s s' e =
      let (resp, ts, _, _, _, opens) =
        answered_ok config w i (w.exchange s).0 (w.exchange s).1 s' (ground arith) in
      let (b, added, told) = open_tunnels_ok config w ts i (w.exchange s).1 s' opens in
      let same = ap (λ r. r.1) (quiet.exchanged s) in
      (
        ts,
        b,
        ap (λ q. add_tunnels w.listen config.base_domain ts i q.state) (sym same) ∙ added,
        told
            ∙ (notified ts (record (w.exchange s).1 { state = b })
                ∙ ap {A = Server} {B = Server} (λ q. record q { state = b }) same),
      )

  pub join_pool-handshake :
      (conn c : ℕ) (s s' : Server)
      → lookup (addr i) s.conns ≡ none
      → w.http2.new_client_conn conn ≡ some c
      → join_pool config w conn i s ≡ (ok tt, s')
      → handshake config w i
          (record s { conns = insert (addr i) (record { conn = conn; client_conn = c }) s.conns })
        ≡ (ok tt, s')
  unfolding join_pool joined reject_conn
  join_pool-handshake conn c s s' absent made e =
      ground (arith, e, add_conn-new free w.http2 conn c i s absent made)

  join_pool_adds :
      (conn c : ℕ) (s s' : Server)
      → lookup (addr i) s.conns ≡ none
      → w.http2.new_client_conn conn ≡ some c
      → join_pool config w conn i s ≡ (ok tt, s')
      → (ts : Dict Tunnel) × (b : Backend) × (add_tunnels w.listen config.base_domain ts i s.state
          ≡ (ok tt, b))
        × (s' ≡ record s {
          conns = insert (addr i) (record { conn = conn; client_conn = c }) s.conns;
          state = b;
        })
  join_pool_adds conn c s s' absent made e =
      handshake_adds
        (record s { conns = insert (addr i) (record { conn = conn; client_conn = c }) s.conns }) s'
        (join_pool-handshake conn c s s' absent made e)

  pub handle_client-join_pool :
      (conn : ℕ) (s s' : Server)
      → w.peer_id ≡ some i
      → handle_client config w conn s ≡ (ok tt, s')
      → join_pool config w conn i (admitted config i s) ≡ (ok tt, s')
  unfolding handle_client reject_conn
  handle_client-join_pool conn s s' known e = ground (arith, e, known)

  pub admitted_parts :
      (s : Server)
      → ((admitted config i s).conns ≡ s.conns) × ((admitted config i s).closed ≡ s.closed)
  unfolding subscribe_client
  admitted_parts s = ground arith

  admitted-IsTidy : (s : Server) → IsTidy s.state → IsTidy (admitted config i s).state
  unfolding subscribe_client
  admitted-IsTidy s v = elim (Bool-cases config.auto_subscribe) [
    | inl auto ↦ rw auto (subscribe-IsTidy i s.state v)
    | inr listed ↦ rw listed v
  ]

  -- A client that joined the pool is gone when its connection died.
  mark_dead_joined :
      (conn c : ℕ) (s : Server) (b : Backend)
      → IsId i
      → NodupKeys s.conns
      → ((a : Bytes) (cq : ConnPair) → lookup a s.conns ≡ some cq → cq.client_conn ≡ c → ⊥)
      → mark_dead free c (record s {
        conns = insert (addr i) (record { conn = conn; client_conn = c }) s.conns;
        state = b;
      })
        ≡ record {
          conns =
              erase (addr i) (insert (addr i) (record { conn = conn; client_conn = c }) s.conns);
          closed = conn ∷ s.closed;
          state = disconnected i b;
        }
  mark_dead_joined conn c s b v u new =
      let pair : ConnPair = record { conn = conn; client_conn = c } in
      mark_dead-some disconnected c (record s { conns = insert (addr i) pair s.conns; state = b })
        (addr i) pair (find_conn-insert (addr i) pair s.conns u new)
      ∙ ap {A = Bytes} {B = Server}
          (λ j. record {
            conns = erase (addr i) (insert (addr i) pair s.conns);
            closed = conn ∷ s.closed;
            state = disconnected j b;
          })
          (identifier-addr i v)

  -- A client that comes, is accepted, and whose connection dies, leaves nothing behind but its
  -- subscription: both tables of the registry, the open listeners and the pool read as they did when
  -- the client had been admitted, and its connection is closed. The client is not in the pool
  -- before, net.Listen is assumed to open new listeners and the transport to make a new HTTP/2
  -- connection, and nobody else is assumed to change the server meanwhile.
  pub handle_client-mark_dead :
      (conn c : ℕ) (s s' : Server)
      → OpensNew w.listen
      → IsId i
      → w.peer_id ≡ some i
      → lookup (addr i) s.conns ≡ none
      → w.http2.new_client_conn conn ≡ some c
      → IsNewClient w.http2 conn s
      → IsSound s
      → IsTidy s.state
      → handle_client config w conn s ≡ (ok tt, s')
      → IsSame (admitted config i s).state (mark_dead free c s').state
        × ((a : Bytes) → lookup a (mark_dead free c s').conns ≡ lookup a s.conns)
        × ((mark_dead free c s').closed ≡ conn ∷ s.closed)
  handle_client-mark_dead conn c s s' opens v known absent made new sound tidy e =
      let q = admitted config i s in
      let (conns, closed) = admitted_parts s in
      let (ts, b, added, same) =
        join_pool_adds conn c q s' (ap (lookup (addr i)) conns ∙ absent) made
          (handle_client-join_pool conn s s' known e) in
      let gone =
        ap (mark_dead free c) same
        ∙ mark_dead_joined conn c q b v (subst NodupKeys (sym conns) sound.nodup)
            (λ a cq f g. new c a cq made (ap (lookup a) (sym conns) ∙ f) g) in
      (
        subst (IsSame q.state) (ap (λ t. t.state) (sym gone)) (
            disconnected-add_tunnels w.listen config.base_domain ts i q.state b opens
              (admitted-IsTidy s tidy).consistent added),
        λ a. ground (
          arith,
          gone,
          conns,
          absent,
          lookup-erase (addr i) a
              (insert (addr i) (record { conn = conn; client_conn = c }) q.conns),
          lookup-insert (addr i) a (record { conn = conn; client_conn = c }) q.conns,
          beq_iff (addr i) a,
        ),
        ground (arith, gone, closed),
      )

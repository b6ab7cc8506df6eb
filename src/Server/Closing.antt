-- ===== src/Server/Closing.antt =====
-- `handleClient` closes every connection that it rejects.
use go_tcp_tunnel.Base.{
  ℕ, true, ◌≡◌, inl, inr, refl, arith, none, some, Option, [], ◌∷◌, Bytes, ◌==◌, Result, ok, err,
  holds, if_both, Option-cases, Result-cases, subst, Bool, false, ◌≢◌,
}
use go_tcp_tunnel.Base.Dict.{Dict}
use go_tcp_tunnel.Proto.{Tunnel}
use go_tcp_tunnel.Pool.{PoolError, addr, add_conn}
use go_tcp_tunnel.Pool.State.{IsHeld, add_conn-ok, delete_conn-closes}
use go_tcp_tunnel.Registry.{is_subscribed}
use go_tcp_tunnel.Server.{Server, ServerConfig, free, add_tunnels}
use go_tcp_tunnel.Server.Handling.{
  World, Response, Reject, reject_conn, reject_client, close_conn, open_tunnels, decoded, answered,
  handshake, joined, join_pool, subscribe_client, handle_client, is_zero, open_given, collected,
  until_nil, nil_tunnel,
}

-- While the server waits for the client, other goroutines take the connection out of the pool only
-- by closing it.
pub record KeepsConn (conn : ℕ) (w : World) : Type 0 where
  pub exchanged : (a : Bytes) (s : Server) → IsHeld conn a s → IsHeld conn a (w.exchange s).1
  pub pushed : (a i : Bytes) (s : Server) → IsHeld conn a s → IsHeld conn a (w.push i s)

-- A rejected connection is closed, unless the program panicked.
abbrev Closes : ℕ → Result Reject (Unit {0}) × Server → Type 0
Closes conn (err e, s) = e ≢ nil_tunnel → holds conn s.closed ≡ true
Closes conn (ok _, s) = Unit

module _ (config : ServerConfig) (w : World) (conn : ℕ) (keeps : KeepsConn conn w) where
  reject_client-Closes :
      (e : Reject) (i : Bytes) (s : Server)
      → IsHeld conn (addr i) s
      → Closes conn (reject_client w e i s)
  unfolding reject_client
  reject_client-Closes e i s h =
      λ rejected. delete_conn-closes free conn i (w.push i s) (keeps.pushed (addr i) i s h)

  open_tunnels-Closes :
      (ts : Dict Tunnel) (i : Bytes) (s : Server)
      → IsHeld conn (addr i) s
      → Closes conn (open_tunnels config w ts i s)
  unfolding open_tunnels
  open_tunnels-Closes ts i s h =
      elim (Result-cases (add_tunnels w.listen config.base_domain ts i s.state).0) [
        | inl (e, failed) ↦ rw (failed, open_tunnels) (reject_client-Closes _ i _ h)
        | inr (_, good) ↦ rw (good, open_tunnels) tt
      ]

  open_given-Closes :
      (g : Dict Tunnel × Bool) (i : Bytes) (s : Server)
      → IsHeld conn (addr i) s
      → Closes conn (open_given config w g i s)
  unfolding open_given
  open_given-Closes (ts, false) i s h = open_tunnels-Closes ts i s h
  open_given-Closes (ts, true) i s h = elim (Result-cases (collected config w ts s).result) [
    | inl (e, failed) ↦ rw (failed, open_given) (open_tunnels-Closes ts i s h)
    | inr (_, good) ↦ rw (good, open_given) (λ rejected. absurd (rejected refl))
  ]

  decoded-Closes :
      (i : Bytes) (ts : Option (Dict (Option Tunnel))) (s : Server)
      → IsHeld conn (addr i) s
      → Closes conn (decoded config w i ts s)
  unfolding decoded
  decoded-Closes i none s h = reject_client-Closes _ i s h
  decoded-Closes i (some []) s h = reject_client-Closes _ i s h
  decoded-Closes i (some (p ∷ ps)) s h = open_given-Closes (until_nil (p ∷ ps)) i s h

  answered-Closes :
      (i : Bytes) (r : Option Response) (s : Server)
      → IsHeld conn (addr i) s
      → Closes conn (answered config w i r s)
  unfolding answered
  answered-Closes i none s h = reject_client-Closes _ i s h
  answered-Closes i (some resp) s h =
      if_both (Closes conn) (resp.status == 200) _ _
        (if_both (Closes conn) (is_zero resp.content_length) _ _ (reject_client-Closes _ i s h)
          (decoded-Closes i resp.tunnels s h))
        (reject_client-Closes _ i s h)

  handshake-Closes :
      (i : Bytes) (s : Server) → IsHeld conn (addr i) s → Closes conn (handshake config w i s)
  unfolding handshake
  handshake-Closes i s h =
      if_both (Closes conn) w.request_made _ _
        (answered-Closes i (w.exchange s).0 (w.exchange s).1 (keeps.exchanged (addr i) s h))
        (reject_client-Closes _ i s h)

  reject_conn-Closes : (e : Reject) (s : Server) → Closes conn (reject_conn e conn s)
  unfolding reject_conn close_conn holds
  reject_conn-Closes e s rejected = ground arith

  joined-Closes :
      (i : Bytes) (q : Result PoolError (Unit {0}) × Server)
      → (q.0 ≡ ok tt → IsHeld conn (addr i) q.1)
      → Closes conn (joined config w conn i q)
  unfolding joined
  joined-Closes i (err e, s) h = reject_conn-Closes _ s
  joined-Closes i (ok _, s) h = handshake-Closes i s (h refl)

  join_pool-Closes : (i : Bytes) (s : Server) → Closes conn (join_pool config w conn i s)
  unfolding join_pool
  join_pool-Closes i s =
      if_both (Closes conn) w.deadline_set _ _
        (joined-Closes i (add_conn free w.http2 conn i s) λ e.
          let (cp, found, same, _) = add_conn-ok free w.http2 conn i s e in inr (cp, found, same))
        (reject_conn-Closes _ s)

  all-Closes : (s : Server) → Closes conn (handle_client config w conn s)
  unfolding handle_client
  all-Closes s =
      if_both (Closes conn) w.is_tls _ _
        (elim (Option-cases w.peer_id) [
          | inl e ↦ simp e (reject_conn-Closes _ s)
          | inr (i, e) ↦ simp e (
              if_both (Closes conn) config.auto_subscribe _ _
                (join_pool-Closes i (subscribe_client i s))
                (if_both (Closes conn) (is_subscribed i s.state.registry) _ _ (join_pool-Closes i s)
                  (reject_conn-Closes _ s)))
        ])
        (reject_conn-Closes _ s)

  -- Whenever handleClient rejects a client, on whatever path, its connection is closed at the end;
  -- other goroutines are assumed to take it out of the pool only by closing it. The panic at a null
  -- for a tunnel is no rejection: it ends the program.
  pub handle_client_closes :
      (s s' : Server) (e : Reject)
      → handle_client config w conn s ≡ (err e, s')
      → e ≢ nil_tunnel
      → holds conn s'.closed ≡ true
  handle_client_closes s s' e r = subst (Closes conn) r (all-Closes s)

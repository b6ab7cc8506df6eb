-- ===== src/Server/Reconnecting.antt =====
-- A client that was accepted and died is accepted again.
use go_tcp_tunnel.Base.{
  ℕ, ◌≡◌, ap, ◌∙◌, arith, none, some, Option, [], ◌∷◌, Bytes, ok, Bool, true, false,
}
use go_tcp_tunnel.Base.Dict.{Dict, lookup, insert}
use go_tcp_tunnel.Id.RoundTrip.{IsId}
use go_tcp_tunnel.Proto.{Tunnel}
use go_tcp_tunnel.Pool.{addr, mark_dead}
use go_tcp_tunnel.Pool.State.{add_conn-new}
use go_tcp_tunnel.Pool.Invariant.{IsNewClient, IsSound}
use go_tcp_tunnel.Registry.{void, subscribe, is_subscribed}
use go_tcp_tunnel.Registry.Spec.{set_result}
use go_tcp_tunnel.Server.{Server, ServerConfig, free, collect, empty_item, add_tunnels}
use go_tcp_tunnel.Server.Handling.{
  World, Response, notify_tunnel_info, open_tunnels, decoded, answered, handshake, join_pool,
  joined, reject_conn, reject_client, handle_client, subscribe_client, open_given, until_nil,
}
use go_tcp_tunnel.Server.Listeners.{IsTidy}
use go_tcp_tunnel.Server.Tunnels.{OpensNew, finish_success}
use go_tcp_tunnel.Server.Returning.{
  IsSame, IsQuiet, admitted, admitted_parts, handshake_adds, handle_client-join_pool,
  join_pool-handshake, handle_client-mark_dead,
}
use go_tcp_tunnel.Server.Accepted.{open_tunnels_ok, open_given_ok}
use go_tcp_tunnel.Server.Repeating.{IgnoresOrder, add_tunnels_again}

module _ (config : ServerConfig) (w : World) (i : Bytes) (quiet : IsQuiet w)
    (ignores : IgnoresOrder w.listen) where
  open_tunnels_again :
      (ts : Dict Tunnel) (s q s' : Server)
      → IsSame s.state q.state
      → open_tunnels config w ts i s ≡ (ok tt, s')
      → (q' : Server) × (open_tunnels config w ts i q ≡ (ok tt, q'))
  unfolding open_tunnels
  open_tunnels_again ts s q s' same e =
      let (b, added, _) = open_tunnels_ok config w ts i s s' e in
      let (b', again) =
        add_tunnels_again w.listen config.base_domain ignores ts i s.state q.state b same added in
      (notify_tunnel_info w ts i (record q { state = b' }), ground (arith, again))

  open_given_again :
      (ts : Dict Tunnel) (nil : Bool) (s q s' : Server)
      → IsSame s.state q.state
      → open_given config w (ts, nil) i s ≡ (ok tt, s')
      → (q' : Server) × (open_given config w (ts, nil) i q ≡ (ok tt, q'))
  unfolding open_given
  open_given_again ts false s q s' same e = open_tunnels_again ts s q s' same e
  open_given_again ts true s q s' same e =
      absurd (ground (arith, (open_given_ok config w ts true i s s' e).0))

  decoded_again :
      (r : Option (Dict (Option Tunnel))) (s q s' : Server)
      → IsSame s.state q.state
      → decoded config w i r s ≡ (ok tt, s')
      → (q' : Server) × (decoded config w i r q ≡ (ok tt, q'))
  unfolding decoded reject_client
  decoded_again none s q s' same e = absurd (ground arith)
  decoded_again (some []) s q s' same e = absurd (ground arith)
  decoded_again (some (p ∷ ps)) s q s' same e =
      open_given_again (until_nil (p ∷ ps)).0 (until_nil (p ∷ ps)).1 s q s' same e

  answered_again :
      (r : Option Response) (s q s' : Server)
      → IsSame s.state q.state
      → answered config w i r s ≡ (ok tt, s')
      → (q' : Server) × (answered config w i r q ≡ (ok tt, q'))
  unfolding answered reject_client
  answered_again none s q s' same e = absurd (ground arith)
  answered_again (some resp) s q s' same e =
      let (q', again) = decoded_again resp.tunnels s q s' same (ground arith) in
      (q', ground (arith, e, again))

  handshake_again :
      (s q s' : Server)
      → IsSame s.state q.state
      → handshake config w i s ≡ (ok tt, s')
      → (q' : Server) × (handshake config w i q ≡ (ok tt, q'))
  unfolding handshake reject_client
  handshake_again s q s' same e =
      let (q', again) =
        answered_again quiet.answer s q s' same (ground (arith, e, quiet.exchanged s)) in
      (q', ground (arith, e, again, quiet.exchanged q))

  -- A client that has tunnels was subscribed without an item before.
  was_subscribed :
      (s s' : Server)
      → handshake config w i s ≡ (ok tt, s')
      → lookup i s.state.registry.items ≡ some void
  unfolding add_tunnels
  was_subscribed s s' e =
      let (ts, b, added, _) = handshake_adds config w i quiet s s' e in
      let (_, wrote, _) =
        finish_success i s.state b
          (collect w.listen config.base_domain ts empty_item s.state.open_listeners) added in
      (set_result _ i s.state.registry wrote).1

  -- The checks of handleClient that come before, passed once, are passed again.
  handle_client_again :
      (conn conn' : ℕ) (s s' t t' : Server)
      → w.peer_id ≡ some i
      → handle_client config w conn s ≡ (ok tt, s')
      → lookup i t.state.registry.items ≡ some void
      → join_pool config w conn' i t ≡ (ok tt, t')
      → handle_client config w conn' t ≡ (ok tt, t')
  unfolding handle_client reject_conn subscribe_client subscribe is_subscribed
  handle_client_again conn conn' s s' t t' known e there joins =
      ground (arith, known, e, there, joins)

  join_pool_again :
      (conn conn' c' : ℕ) (s s' t t' : Server)
      → join_pool config w conn i s ≡ (ok tt, s')
      → lookup (addr i) t.conns ≡ none
      → w.http2.new_client_conn conn' ≡ some c'
      → handshake config w i
          (record t { conns = insert (addr i) (record { conn = conn'; client_conn = c' }) t.conns })
        ≡ (ok tt, t')
      → join_pool config w conn' i t ≡ (ok tt, t')
  unfolding join_pool joined reject_conn
  join_pool_again conn conn' c' s s' t t' e absent made shakes =
      ground (arith, e, shakes, add_conn-new free w.http2 conn' c' i t absent made)

  -- A client that was accepted, and whose connection died, is accepted again when it comes back with
  -- a new connection: with its own listeners and hosts it never stands in its own way. It answers
  -- alike, was not in the pool before, nobody else changes the server meanwhile, net.Listen opens new
  -- listeners and depends on which are open only, and the transport makes new HTTP/2 connections.
  pub reconnects :
      (conn c conn' c' : ℕ) (s s' : Server)
      → OpensNew w.listen
      → IsId i
      → w.peer_id ≡ some i
      → lookup (addr i) s.conns ≡ none
      → w.http2.new_client_conn conn ≡ some c
      → w.http2.new_client_conn conn' ≡ some c'
      → IsNewClient w.http2 conn s
      → IsSound s
      → IsTidy s.state
      → handle_client config w conn s ≡ (ok tt, s')
      → (handle_client config w conn' (mark_dead free c s')).0 ≡ ok tt
  reconnects conn c conn' c' s s' opens v known absent made made' new sound tidy e =
      let q = admitted config i s in
      let t = mark_dead free c s' in
      let joins = handle_client-join_pool config w i quiet conn s s' known e in
      let before : lookup (addr i) q.conns ≡ none =
        ap (lookup (addr i)) (admitted_parts config w i quiet s).0 ∙ absent in
      let shakes = join_pool-handshake config w i quiet conn c q s' before made joins in
      let (same, conns, _) =
        handle_client-mark_dead config w i quiet conn c s s' opens v known absent made new sound
          tidy e in
      let joined_before : Server = record q {
        conns = insert (addr i) (record { conn = conn; client_conn = c }) q.conns;
      } in
      let joined_again : Server = record t {
        conns = insert (addr i) (record { conn = conn'; client_conn = c' }) t.conns;
      } in
      let (t', again) = handshake_again joined_before joined_again s' same shakes in
      let back =
        join_pool_again conn conn' c' q s' t t' joins (conns (addr i) ∙ absent) made' again in
      ap (λ r. r.0)
        (handle_client_again conn conn' s s' t t' known e
          (same.items i ∙ was_subscribed joined_before s' shakes) back)

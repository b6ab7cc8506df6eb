-- ===== src/Config/Streams.antt =====
-- Where the client forwards what the server sends for a stream.
use go_tcp_tunnel.Base.{
  Option, ◌≡◌, ◌≢◌, inl, inr, refl, ◌∙◌, arith, Bool, true, none, some, [], ◌∷◌, ◌++◌, Bytes, codes,
  ok, has_byte, beq_iff, All, subst,
}
use go_tcp_tunnel.Base.Dict.{Dict, lookup, insert, lookup-insert, lookup-insert_self}
use go_tcp_tunnel.HostPort.{colon, split_host_port}
use go_tcp_tunnel.Proto.{ControlMessage, is_stream}
use go_tcp_tunnel.StreamProxy.{
  StreamProxy, new_multi_stream_proxy, local_addr_for, not-is_empty, local_addr_for_wildcard,
  stream_proxy, forwarded,
}
use go_tcp_tunnel.Config.{Tunnel, check_tunnels, target_map}
use go_tcp_tunnel.Config.Checked.{IsStreamTunnel, IsChecked, check_tunnels-IsChecked}
use go_tcp_tunnel.Config.Targets.{has_byte-ne-nil}

-- No tunnel of the list has the remote address.
abbrev pub IsUnused : Bytes → Dict Tunnel → Type 0
IsUnused remote = All λ (entry : Bytes × Tunnel). entry.1.remote_addr ≢ remote

lookup-target_map_remote :
    (k : Bytes) (ts : Dict Tunnel) (seen m : Dict Bytes)
    → has_byte colon k ≡ true
    → IsUnused k ts
    → IsChecked seen ts
    → lookup k (target_map ts m) ≡ lookup k m
unfolding target_map
lookup-target_map_remote k [] seen m c u v = refl
lookup-target_map_remote k ((name, t) ∷ ts) seen m c u (inl (s, v)) = simp (s.protocol) (
    lookup-target_map_remote k ts seen (insert t.remote_addr t.addr m) c u.1 v
    ∙ ground (arith, lookup-insert t.remote_addr k t.addr m, beq_iff t.remote_addr k, u.0))
lookup-target_map_remote k ((name, t) ∷ ts) seen m c u (inr (h, v)) =
    simp (h.not_stream, h.protocol)
      (lookup-target_map_remote k ts (insert t.subdomain name seen) (insert t.subdomain t.addr m) c
          u.1 v
        ∙ ground (arith, lookup-insert t.subdomain k t.addr m, beq_iff t.subdomain k, h.plain))

target_of_first_stream :
    (after : Dict Tunnel) (name : Bytes) (t : Tunnel) (seen m : Dict Bytes)
    → is_stream t.protocol ≡ true
    → IsUnused t.remote_addr after
    → IsStreamTunnel t
    → IsChecked seen after
    → lookup t.remote_addr (target_map ((name, t) ∷ after) m) ≡ some t.addr
unfolding target_map
target_of_first_stream after name t seen m st u s v = simp st (
    lookup-target_map_remote t.remote_addr after seen (insert t.remote_addr t.addr m) s.remote u v
    ∙ lookup-insert_self t.remote_addr t.addr m)

target_of_stream :
    (before after : Dict Tunnel) (name : Bytes) (t : Tunnel) (seen m : Dict Bytes)
    → is_stream t.protocol ≡ true
    → IsUnused t.remote_addr after
    → IsChecked seen (before ++ (name, t) ∷ after)
    → (lookup t.remote_addr (target_map (before ++ (name, t) ∷ after) m) ≡ some t.addr)
      × (has_byte colon t.addr ≡ true)
unfolding target_map
target_of_stream [] after name t seen m st u (inr (h, v)) = absurd (cc (st, h.not_stream))
target_of_stream [] after name t seen m st u (inl (s, v)) =
    (target_of_first_stream after name t seen m st u s v, s.addr)
target_of_stream ((n, w) ∷ before) after name t seen m st u (inl (s, v)) =
    target_of_stream before after name t seen _ st u v
target_of_stream ((n, w) ∷ before) after name t seen m st u (inr (h, v)) =
    target_of_stream before after name t (insert w.subdomain n seen) _ st u v

stream_proxy_stream :
    (dials : Bytes → Bool) (p : StreamProxy) (msg : ControlMessage) (target : Bytes)
    → is_stream msg.forwarded_proto ≡ true
    → target ≢ []
    → local_addr_for p msg.forwarded_host ≡ target
    → dials target ≡ true
    → stream_proxy dials p msg ≡ forwarded target
unfolding stream_proxy
stream_proxy_stream dials p msg target f ne goes answers = ground (arith, not-is_empty target ne)

-- In a configuration that loads, a stream with a remote port on every interface receives what the
-- server sends from the listener of that port, under whatever address the listener has, if no later
-- tunnel has the same remote address and neither that address nor the port alone is a key of the
-- client's map.
pub stream_proxy-wildcard :
    (dials : Bytes → Bool) (raw : Dict (Option Tunnel)) (before after : Dict Tunnel)
    (name host port : Bytes) (t : Tunnel)
    → (msg : ControlMessage) → check_tunnels raw [] ≡ ok (before ++ (name, t) ∷ after)
    → is_stream t.protocol ≡ true
    → t.remote_addr ≡ codes "0.0.0.0:" ++ port
    → IsUnused t.remote_addr after
    → is_stream msg.forwarded_proto ≡ true
    → split_host_port msg.forwarded_host ≡ ok (host, port)
    → lookup msg.forwarded_host (target_map (before ++ (name, t) ∷ after) []) ≡ none
    → lookup port (target_map (before ++ (name, t) ∷ after) []) ≡ none
    → dials t.addr ≡ true
    → stream_proxy dials (new_multi_stream_proxy (target_map (before ++ (name, t) ∷ after) [])) msg
      ≡ forwarded t.addr
unfolding new_multi_stream_proxy
stream_proxy-wildcard dials raw before after name host port t msg loads st remote u proto parts a b
      answers =
    let (found, colon_in) =
      target_of_stream before after name t [] [] st u (check_tunnels-IsChecked raw [] loads) in
    let p : StreamProxy = record {
      local_addr = [];
      local_addr_map = target_map (before ++ (name, t) ∷ after) [];
    } in
    let ne = has_byte-ne-nil t.addr colon_in in
    stream_proxy_stream dials p msg t.addr proto ne
      (local_addr_for_wildcard p msg.forwarded_host host port t.addr parts a b
        (subst (λ k. lookup k p.local_addr_map ≡ some t.addr) remote found) ne)
      answers

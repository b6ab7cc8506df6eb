-- ===== src/Config/Targets.antt =====
-- Where the client forwards what the server sends for an http tunnel.
use go_tcp_tunnel.Base.{
  Option, ◌≡◌, ◌≢◌, inl, inr, refl, ◌∙◌, arith, Bool, true, false, some, [], ◌∷◌, ◌++◌, Bytes, ok,
  has_byte, beq, beq_iff,
}
use go_tcp_tunnel.Base.Dict.{Dict, lookup, insert, lookup-insert, lookup-insert_self}
use go_tcp_tunnel.HostPort.{colon}
use go_tcp_tunnel.Proto.{is_stream, is_http, ControlMessage, http}
use go_tcp_tunnel.Proto.Label.{IsLabel}
use go_tcp_tunnel.StreamProxy.{
  StreamProxy, new_multi_stream_proxy, local_addr_for, not-is_empty, local_addr_for_key,
  stream_proxy, forwarded,
}
use go_tcp_tunnel.Config.{Tunnel, check_tunnels, target_map}
use go_tcp_tunnel.Config.Checked.{IsHttpTunnel, IsChecked, check_tunnels-IsChecked}

-- A subdomain that was seen is not overwritten later.
lookup-target_map :
    (k other : Bytes) (ts : Dict Tunnel) (seen m : Dict Bytes)
    → has_byte colon k ≡ false
    → lookup k seen ≡ some other
    → IsChecked seen ts
    → lookup k (target_map ts m) ≡ lookup k m
unfolding target_map
lookup-target_map k other [] seen m plain e v = refl
lookup-target_map k other ((name, t) ∷ ts) seen m plain e (inl (s, v)) = simp (s.protocol) (
    lookup-target_map k other ts seen (insert t.remote_addr t.addr m) plain e v
    ∙ ground (arith, lookup-insert t.remote_addr k t.addr m, beq_iff t.remote_addr k, s.remote))
lookup-target_map k other ((name, t) ∷ ts) seen m plain e (inr (h, v)) =
    simp (h.not_stream, h.protocol)
      (lookup-target_map k other ts (insert t.subdomain name seen) (insert t.subdomain t.addr m)
          plain
          (ground (arith, lookup-insert t.subdomain k name seen, beq_iff t.subdomain k, h.new)) v
        ∙ ground (arith, lookup-insert t.subdomain k t.addr m, beq_iff t.subdomain k, h.new))

http-is_http : is_http http ≡ true
unfolding is_http beq
http-is_http = refl

pub has_byte-ne-nil : (s : Bytes) → has_byte colon s ≡ true → s ≢ []
unfolding has_byte
has_byte-ne-nil [] h = cc
has_byte-ne-nil (c ∷ s) h = λ e. cc

target_of_first :
    (after : Dict Tunnel) (name : Bytes) (t : Tunnel) (seen m : Dict Bytes)
    → IsHttpTunnel t seen
    → IsChecked (insert t.subdomain name seen) after
    → lookup t.subdomain (target_map ((name, t) ∷ after) m) ≡ some t.addr
unfolding target_map
target_of_first after name t seen m h v =
    simp (h.not_stream, h.protocol)
      (lookup-target_map t.subdomain name after (insert t.subdomain name seen)
          (insert t.subdomain t.addr m) h.plain (lookup-insert_self t.subdomain name seen) v
        ∙ lookup-insert_self t.subdomain t.addr m)

target_of_subdomain :
    (before after : Dict Tunnel) (name : Bytes) (t : Tunnel) (seen m : Dict Bytes)
    → is_stream t.protocol ≡ false
    → IsChecked seen (before ++ (name, t) ∷ after)
    → (lookup t.subdomain (target_map (before ++ (name, t) ∷ after) m) ≡ some t.addr)
      × (has_byte colon t.addr ≡ true)
unfolding target_map
target_of_subdomain [] after name t seen m ns (inl (s, v)) = absurd (cc (ns, s.protocol))
target_of_subdomain [] after name t seen m ns (inr (h, v)) =
    (target_of_first after name t seen m h v, h.addr)
target_of_subdomain ((n, u) ∷ before) after name t seen m ns (inl (s, v)) =
    target_of_subdomain before after name t seen _ ns v
target_of_subdomain ((n, u) ∷ before) after name t seen m ns (inr (h, v)) =
    target_of_subdomain before after name t (insert u.subdomain n seen) _ ns v

pub label-ne-nil : (s : Bytes) → IsLabel s → s ≢ []
label-ne-nil [] v = absurd (omega (arith, v.nonempty))
label-ne-nil (c ∷ s) v = λ e. cc

pub found-IsHttpTunnel :
    (before after : Dict Tunnel) (name : Bytes) (t : Tunnel) (seen : Dict Bytes)
    → is_stream t.protocol ≡ false
    → IsChecked seen (before ++ (name, t) ∷ after)
    → (seen' : Dict Bytes) × IsHttpTunnel t seen'
found-IsHttpTunnel [] after name t seen ns (inl (s, v)) = absurd (cc (ns, s.protocol))
found-IsHttpTunnel [] after name t seen ns (inr (h, v)) = (seen, h)
found-IsHttpTunnel ((n, u) ∷ before) after name t seen ns (inl (s, v)) =
    found-IsHttpTunnel before after name t seen ns v
found-IsHttpTunnel ((n, u) ∷ before) after name t seen ns (inr (h, v)) =
    found-IsHttpTunnel before after name t (insert u.subdomain n seen) ns v

stream_proxy_lem :
    (dials : Bytes → Bool) (p : StreamProxy) (msg : ControlMessage) (target : Bytes) {host : Bytes}
    → msg.forwarded_host ≡ host
    → msg.forwarded_proto ≡ http
    → target ≢ []
    → local_addr_for p host ≡ target
    → dials target ≡ true
    → stream_proxy dials p msg ≡ forwarded target
unfolding stream_proxy
stream_proxy_lem dials p msg target e f ne goes answers =
    ground (arith, http-is_http, not-is_empty target ne)

-- In every configuration that loads, the client forwards what the server sends for the subdomain of
-- an http tunnel to the local address of that tunnel, if that address answers, whatever other
-- tunnels stand before and after it.
pub stream_proxy-target :
    (dials : Bytes → Bool) (ts : Dict (Option Tunnel)) (before after : Dict Tunnel) (name : Bytes)
    (t : Tunnel)
    → (msg : ControlMessage) → check_tunnels ts [] ≡ ok (before ++ (name, t) ∷ after)
    → is_stream t.protocol ≡ false
    → msg.forwarded_host ≡ t.subdomain
    → msg.forwarded_proto ≡ http
    → dials t.addr ≡ true
    → stream_proxy dials (new_multi_stream_proxy (target_map (before ++ (name, t) ∷ after) [])) msg
      ≡ forwarded t.addr
unfolding new_multi_stream_proxy
stream_proxy-target dials ts before after name t msg loads ns host protocol answers =
    let (found, colon_in) =
      target_of_subdomain before after name t [] [] ns (check_tunnels-IsChecked ts [] loads) in
    let m = target_map (before ++ (name, t) ∷ after) [] in
    let goes =
      local_addr_for_key (record { local_addr = []; local_addr_map = m }) t.subdomain t.addr found
        (λ e. has_byte-ne-nil t.addr colon_in e) in
    stream_proxy_lem dials _ msg t.addr host protocol (has_byte-ne-nil t.addr colon_in) goes answers

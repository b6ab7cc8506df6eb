-- ===== src/Lifecycle/Streams.antt =====
-- From a connection that the listener of a stream accepts to the local service.
use go_tcp_tunnel.Base.{
  Option, ◌≡◌, ◌≢◌, refl, ap, false, arith, Bool, true, none, List, [], ◌∷◌, ◌++◌, Bytes, codes, ok,
  All, beq, cut_last,
}
use go_tcp_tunnel.Base.Dict.{Dict, lookup}
use go_tcp_tunnel.HostPort.{split_host_port}
use go_tcp_tunnel.Proto.{ControlMessage, is_stream}
use go_tcp_tunnel.StreamProxy.{new_multi_stream_proxy, stream_proxy, forwarded}
use go_tcp_tunnel.Config.{Tunnel, check_tunnels, target_map}
use go_tcp_tunnel.Config.Streams.{IsUnused, stream_proxy-wildcard}
use go_tcp_tunnel.Client.{serve_http, proxied}
use go_tcp_tunnel.Client.Requests.{serve_http-proxied}
use go_tcp_tunnel.Routing.{stream_message, connect_request}
use go_tcp_tunnel.Routing.Delivery.{arrived}
use go_tcp_tunnel.Lifecycle.{Accept, listen_loop}
use go_tcp_tunnel.Lifecycle.Accepting.{
  connections, IsOpen, handled, accept_loop-open, listen_stream-handled,
}

-- The request for the message, the client forwards to this local address.
abbrev pub Reaches : (Bytes → Bool) → Dict Tunnel → Bytes → Bytes → Bytes → ControlMessage → Type 0
Reaches dials ts remote target identifier msg =
    (got : ControlMessage) × (serve_http (arrived (connect_request identifier msg) remote)
      ≡ proxied got)
    × (stream_proxy dials (new_multi_stream_proxy (target_map ts [])) got ≡ forwarded target)

address-ne-nil :
    (address : Bytes) (parts : Bytes × Bytes) → split_host_port address ≡ ok parts → address ≢ []
unfolding split_host_port cut_last
address-ne-nil [] parts e ne = absurd (ground arith)
address-ne-nil (c ∷ s) parts e ne = cc

network-ne-nil : (network : Bytes) → is_stream network ≡ true → network ≢ []
unfolding is_stream beq
network-ne-nil [] e ne = absurd (ground arith)
network-ne-nil (c ∷ s) e ne = cc

module _ (dials : Bytes → Bool) (raw : Dict (Option Tunnel)) (before after : Dict Tunnel)
    (name host port : Bytes) (t : Tunnel) (network address : Bytes) where
  -- The tunnel is a stream of a configuration that loads, with a remote port on every interface;
  -- no later tunnel has that remote address, neither the address that its listener reports nor the
  -- port alone is a key of the client's map, and its local address answers.
  pub record IsOpenStream : Type 0 where
    pub loads : check_tunnels raw [] ≡ ok (before ++ (name, t) ∷ after)
    pub stream : is_stream t.protocol ≡ true
    pub remote_addr : t.remote_addr ≡ codes "0.0.0.0:" ++ port
    pub unused : IsUnused t.remote_addr after
    pub network_is_stream : is_stream network ≡ true
    pub parts : split_host_port address ≡ ok (host, port)
    pub no_address : lookup address (target_map (before ++ (name, t) ∷ after) []) ≡ none
    pub no_port : lookup port (target_map (before ++ (name, t) ∷ after) []) ≡ none
    pub answers : dials t.addr ≡ true

  message-Reaches :
      (identifier remote : Bytes)
      → IsOpenStream
      → Reaches dials
          (before ++ (name, t) ∷ after)
          remote
          t.addr
          identifier
          (stream_message network address)
  unfolding connect_request
  message-Reaches identifier remote v =
      let msg = stream_message network address in
      (
        record msg { remote_addr = remote },
        serve_http-proxied msg [] (codes "PUT") remote refl
            (address-ne-nil address (host, port) v.parts)
            (network-ne-nil network v.network_is_stream) (λ e. cc),
        stream_proxy-wildcard dials raw before after name host port t
            (record msg { remote_addr = remote }) v.loads v.stream v.remote_addr v.unused
            v.network_is_stream v.parts v.no_address v.no_port v.answers,
      )

  -- For the connections that the listener of a stream accepts while it is open, each once and in
  -- their order and whatever fails between them, the server asks the client of the listener, all with
  -- one message, and the client forwards a request with that message to the local address of that
  -- stream. The stream has a remote port on every interface, in a configuration that loads; no later
  -- tunnel has the same remote address, neither the address that the listener reports nor the port
  -- alone is a key of the client's map, and the local address answers.
  pub listen_loop-Reaches :
      (es : List Accept) (identifier remote : Bytes)
      → All IsOpen es
      → IsOpenStream
      → (msg : ControlMessage) × (listen_loop identifier network address es
          ≡ (handled (λ c. (identifier, msg)) (connections es), false))
        × Reaches dials (before ++ (name, t) ∷ after) remote t.addr identifier msg
  unfolding listen_loop
  listen_loop-Reaches es identifier remote is_open v = (
    stream_message network address,
    rw (accept_loop-open es is_open)
        (ap (λ l. (l, false)) (listen_stream-handled identifier network address (connections es))),
    message-Reaches identifier remote v,
  )

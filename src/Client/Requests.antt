-- ===== src/Client/Requests.antt =====
-- What the requests of the server do to the client.
use go_tcp_tunnel.Base.{
  Option, ℕ, ◌≡◌, ◌≢◌, refl, sym, ap, ◌∙◌, arith, Bool, true, false, none, some, List, [], ◌∷◌,
  ◌++◌, Bytes, beq_iff, ok, All,
}
use go_tcp_tunnel.Base.Dict.{Dict}
use go_tcp_tunnel.Proto.{
  ControlMessage, get, missing_if, write_to_header, header_error, action_proxy, header_action,
  header_forwarded_host, header_forwarded_proto, is_stream, http,
}
use go_tcp_tunnel.Proto.Message.{read_written}
use go_tcp_tunnel.StreamProxy.{new_multi_stream_proxy, stream_proxy, forwarded, not-is_empty}
use go_tcp_tunnel.Config.{Tunnel, check_tunnels, target_map}
use go_tcp_tunnel.Config.Checked.{check_tunnels-IsChecked}
use go_tcp_tunnel.Config.Targets.{stream_proxy-target, found-IsHttpTunnel, label-ne-nil}
use go_tcp_tunnel.Client.{
  Client, Request, handshake_error, proxied, connect_method, dispatch, serve_http, handle, Round,
  start, start_round, after_serving, connect, disconnect_error, server_error,
}

-- The requests of one connection, one after the other.
unfoldable pub handle_all : List Request → Client → Client
handle_all [] c = c
handle_all (q ∷ qs) c = handle_all qs (handle q c)

-- The server's notification of an error.
pub record IsError (q : Request) : Type 0 where
  pub method : q.method ≡ connect_method
  pub error : get header_error q.header ≢ []

-- No notification of an error.
abbrev pub IsQuiet : Request → Type 0
IsQuiet q = get header_error q.header ≡ []

serve_http-error :
    (q : Request) → IsError q → serve_http q ≡ handshake_error (get header_error q.header)
unfolding serve_http
serve_http-error q v =
    ground (arith, v.method, not-is_empty _ v.error, beq_iff q.method connect_method)

handle_error :
    (q : Request) (c : Client)
    → IsError q
    → (handle q c).server_err ≡ some (get header_error q.header)
unfolding handle
handle_error q c v = rw (handle, serve_http-error q v) refl

handle_quiet : (q : Request) (c : Client) → IsQuiet q → handle q c ≡ c
unfolding handle serve_http dispatch
handle_quiet q c v = ground (arith, v)

handle_all_quiet : (qs : List Request) (c : Client) → All IsQuiet qs → handle_all qs c ≡ c
unfolding handle_all
handle_all_quiet [] c v = refl
handle_all_quiet (q ∷ qs) c v = rw (handle_quiet q c v.0) (handle_all_quiet qs c v.1)

handle_all-append :
    (ps qs : List Request) (c : Client) → handle_all (ps ++ qs) c ≡ handle_all qs (handle_all ps c)
unfolding handle_all
handle_all-append [] qs c = refl
handle_all-append (p ∷ ps) qs c = handle_all-append ps qs (handle p c)

handle_all_error :
    (before after : List Request) (q : Request) (c : Client)
    → IsError q
    → All IsQuiet after
    → (handle_all (before ++ q ∷ after) c).server_err ≡ some (get header_error q.header)
unfolding handle_all
handle_all_error before after q c v quiet =
    rw
      (
        handle_all-append before (q ∷ after) c,
        handle_all_quiet after (handle q (handle_all before c)) quiet,
      )
      (handle_error q (handle_all before c) v)

start_round_error :
    (r : Round) (c : Client) (conn : ℕ) (e : Bytes)
    → c.conn ≡ none
    → r.dialed ≡ ok conn
    → r.is_cancelled ≡ false
    → (r.serves (record c { conn = some conn })).server_err ≡ some e
    → (start_round r c).0 ≡ some (server_error e)
unfolding start_round after_serving connect disconnect_error
start_round_error r c conn e idle dialed running v = ground (arith, v)

-- If the server notified the client of an error while the connection was served, `Start` returns
-- the last error it was notified of, whatever else the server sent before and after, unless the
-- context is cancelled; the client is not connected before.
pub start-server_error :
    (r : Round) (rs : List Round) (c : Client) (conn : ℕ) (before after : List Request)
    → (q : Request) → c.conn ≡ none
    → r.dialed ≡ ok conn
    → r.is_cancelled ≡ false
    → r.serves ≡ handle_all (before ++ q ∷ after)
    → IsError q
    → All IsQuiet after
    → (start (r ∷ rs) c).0 ≡ some (server_error (get header_error q.header))
unfolding start
start-server_error r rs c conn before after q idle dialed running serves v quiet =
    rw
      (
        start_round_error r c conn (get header_error q.header) idle dialed running (
            ap (λ f. (f (record c { conn = some conn })).server_err) serves
            ∙ handle_all_error before after q (record c { conn = some conn }) v quiet),
        start,
      )
      refl

missing_none : (s header : Bytes) → s ≢ [] → missing_if s header ≡ []
missing_none s header v = rw (not-is_empty s v) refl

pub serve_http-proxied :
    (msg : ControlMessage) (h : Dict Bytes) (method remote : Bytes)
    → msg.action ≡ action_proxy
    → msg.forwarded_host ≢ []
    → msg.forwarded_proto ≢ []
    → method ≢ connect_method
    → serve_http (record { method = method; header = write_to_header msg h; remote_addr = remote })
      ≡ proxied (record msg { remote_addr = remote })
unfolding serve_http dispatch
serve_http-proxied msg h method remote a b c d = ground (
  arith,
  read_written msg h remote,
  missing_none msg.action header_action (λ e. cc),
  missing_none msg.forwarded_host header_forwarded_host b,
  missing_none msg.forwarded_proto header_forwarded_proto c,
  beq_iff method connect_method,
  beq_iff msg.action action_proxy,
)

-- What the server writes for a connection to the subdomain of an http tunnel of a configuration
-- that loaded, the client serves by forwarding to the local address of that tunnel, whatever other
-- headers the request has, if that address answers and the method is not CONNECT.
pub serve_http-target :
    (dials : Bytes → Bool) (ts : Dict (Option Tunnel)) (before after : Dict Tunnel) (name : Bytes)
    (t : Tunnel)
    → (msg : ControlMessage) (h : Dict Bytes) (method remote : Bytes)
    → check_tunnels ts [] ≡ ok (before ++ (name, t) ∷ after)
    → is_stream t.protocol ≡ false
    → msg.action ≡ action_proxy
    → msg.forwarded_host ≡ t.subdomain
    → msg.forwarded_proto ≡ http
    → method ≢ connect_method
    → dials t.addr ≡ true
    → (m : ControlMessage) × (serve_http
          (record { method = method; header = write_to_header msg h; remote_addr = remote })
        ≡ proxied m)
      × (stream_proxy dials (new_multi_stream_proxy (target_map (before ++ (name, t) ∷ after) [])) m
          ≡ forwarded t.addr)
serve_http-target dials ts before after name t msg headers method remote loads ns action host
      protocol put answers =
    let (_, h) =
      found-IsHttpTunnel before after name t [] ns (check_tunnels-IsChecked ts [] loads) in
    (
      record msg { remote_addr = remote },
      serve_http-proxied msg headers method remote action
          (λ e. label-ne-nil t.subdomain h.label (sym host ∙ e)) (λ e. cc) put,
      stream_proxy-target dials ts before after name t (record msg { remote_addr = remote }) loads
          ns host protocol answers,
    )

-- ===== src/Client.antt =====
-- client.go: the client's connection to the server. What the world does in one round of the loop of
-- `Start` is an argument; times are nanoseconds, and the zero time of `lastDisconnect` is `none`.
pub mod Dialing
pub mod Loop
pub mod Requests
use go_tcp_tunnel.Base.{
  ℕ, ◌-◌, ◌*◌, Bool, true, false, not, none, some, Option, List, [], ◌∷◌, Bytes, codes, ltb, beq,
  if◌then◌else◌, is_empty, Result, ok, err, ◌>>◌, require,
}
use go_tcp_tunnel.Base.Dict.{Dict}
use go_tcp_tunnel.Proto.{
  ControlMessage, get, read_control_message, header_error, header_tunnel_info, action_proxy,
}

pub data ClientError : Type 0 where
  missing_server_addr missing_tls_config missing_tunnels missing_proxy : ClientError
  already_connected dial_failed backoff_exceeded cancelled being_cut : ClientError
  server_error : Bytes → ClientError

-- The fields of the configuration that `NewClient` looks at.
pub record ClientConfig : Type 0 where
  pub server_addr : Bytes
  pub has_tls_config : Bool
  pub tunnel_count : ℕ
  pub has_proxy : Bool

pub record Client : Type 0 where
  pub conn : Option ℕ
  pub server_err : Option Bytes
  pub last_disconnect : Option ℕ
  pub closed : List ℕ

unfoldable pub unconnected : Client
unconnected = record { conn = none; server_err = none; last_disconnect = none; closed = [] }

unfoldable pub new_client : ClientConfig → Result ClientError Client
new_client config = do
  require (not (is_empty config.server_addr)) missing_server_addr
  require config.has_tls_config missing_tls_config
  require (ltb 0 config.tunnel_count) missing_tunnels
  require config.has_proxy missing_proxy
  ok unconnected

-- `connect`, by what `dial` would return.
unfoldable pub connect : Result ClientError ℕ → Client → Result ClientError ℕ × Client
connect dialed c = elim c.conn [
  | some _ ↦ (err already_connected, c)
  | none ↦ elim dialed [ err e ↦ (err e, c) | ok conn ↦ (ok conn, record c { conn = some conn }) ]
]

unfoldable pub stop : Client → Client
stop c = elim c.conn [ none ↦ c | some conn ↦ record c { conn = none; closed = conn ∷ c.closed } ]

unfoldable pub connected : Client → Bool
connected c = elim c.conn [ none ↦ false | some _ ↦ true ]

-- One round of the loop of `Start`: what dialing returns, what happens to the client while the
-- connection is served, whether the context is cancelled by then, and the time then.
pub record Round : Type 0 where
  pub dialed : Result ClientError ℕ
  pub serves : Client → Client
  pub is_cancelled : Bool
  pub now : ℕ

-- `now.Sub(c.lastDisconnect).Seconds() < 5`
abbrev pub is_hiccup : Option ℕ → ℕ → Bool
is_hiccup none now = false
is_hiccup (some last) now = ltb (now - last) (5 * 1_000_000_000)

-- The error after a disconnect: the server's, or that the connection is being cut.
unfoldable pub disconnect_error : Client → ℕ → Option ClientError
disconnect_error c now = elim c.server_err [
  | some e ↦ some (server_error e)
  | none ↦ if is_hiccup c.last_disconnect now then some being_cut else none
]

-- `none` goes on to the next round.
unfoldable pub after_serving : Round → Client → Option ClientError × Client
after_serving r c = if r.is_cancelled then (some cancelled, c) else (
  disconnect_error c r.now,
  record c { conn = none; server_err = none; last_disconnect = some r.now },
)

unfoldable pub start_round : Round → Client → Option ClientError × Client
start_round r c =
    let (dialed, c') = connect r.dialed c in
    elim dialed [
      | err e ↦ (some (if r.is_cancelled then cancelled else e), c')
      | ok _ ↦ after_serving r (r.serves c')
    ]

-- The loop over the rounds that the world plays; `none` is a client that still runs.
unfoldable pub start : List Round → Client → Option ClientError × Client
start [] c = (none, c)
start (r ∷ rs) c =
    let (e, c') = start_round r c in elim e [ some x ↦ (some x, c') | none ↦ start rs c' ]

-- What `serveHTTP` does with a request of the server.
pub data Served : Type 0 where
  handshake_error : Bytes → Served
  tunnel_info handshake unknown_action : Served
  bad_request : List Bytes → Served
  proxied : ControlMessage → Served

pub record Request : Type 0 where
  pub method : Bytes
  pub header : Dict Bytes
  pub remote_addr : Bytes

abbrev pub connect_method : Bytes
connect_method = codes "CONNECT"

dispatch : Result (List Bytes) ControlMessage → Served
dispatch (err missing) = bad_request missing
dispatch (ok msg) = if beq msg.action action_proxy then proxied msg else unknown_action

unfoldable pub serve_http : Request → Served
unfolding dispatch
serve_http r =
    if beq r.method connect_method
    then if is_empty (get header_error r.header)
      then if is_empty (get header_tunnel_info r.header) then handshake else tunnel_info
      else handshake_error (get header_error r.header)
    else dispatch (read_control_message r.header r.remote_addr)

-- What a request does to the client's own state.
unfoldable pub handle : Request → Client → Client
handle r c = elim (serve_http r) [ handshake_error e ↦ record c { server_err = some e } | _ ↦ c ]

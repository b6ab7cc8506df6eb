-- ===== src/Messages.antt =====
-- server.go and client.go: what the two say to each other on the control connection, outside of the
-- tunneled connections. encoding/json is a parameter; an error is its text.
pub mod Understood
pub mod Session
use go_tcp_tunnel.Base.{
  ℕ, Bool, true, false, none, some, Option, List, [], ◌∷◌, ◌++◌, Bytes, codes, if◌then◌else◌,
  length, take, Result, ok, err,
}
use go_tcp_tunnel.Base.Dict.{Dict, insert}
use go_tcp_tunnel.Proto.{Tunnel, header_error, header_tunnel_info}
use go_tcp_tunnel.Pool.{url}
use go_tcp_tunnel.Server.Handling.{Response}
use go_tcp_tunnel.Routing.{Outgoing}
use go_tcp_tunnel.Client.{
  Request, connect_method, serve_http, handshake_error, tunnel_info, handshake, unknown_action,
  bad_request, proxied,
}

pub record Json : Type 0 where
  pub marshal_tunnels : Dict Tunnel → Result Bytes Bytes
  pub decode_tunnels : Bytes → Result Bytes (Dict (Option Tunnel))
  pub marshal_hosts : Dict Bytes → Result Bytes Bytes
  pub decode_hosts : Bytes → Result Bytes (Dict Bytes)

-- A request of the server with its body.
pub record Push : Type 0 where
  pub outgoing : Outgoing
  pub body : Bytes

-- The request of `handleClient`.
abbrev pub handshake_request : Bytes → Outgoing
handshake_request identifier = record { method = connect_method; url = url identifier; header = [] }

-- `made` is whether `http.NewRequest` succeeds.
unfoldable pub push_to_client : Bool → Bytes → Bytes → (Dict Bytes → Dict Bytes) → Option Push
push_to_client false identifier body set_header = none
push_to_client true identifier body set_header = some (record {
  outgoing = record { method = connect_method; url = url identifier; header = set_header [] };
  body = body;
})

unfoldable pub notify_error : Bool → Option Bytes → Bytes → Option Push
notify_error made none identifier = none
notify_error made (some text) identifier =
    push_to_client made identifier [] (insert header_error text)

-- `notifyTunnelInfo`
unfoldable pub send_tunnel_info : Json → Bool → Dict Bytes → Bytes → Option Push
send_tunnel_info json made [] identifier = none
send_tunnel_info json made (h ∷ hs) identifier = elim (json.marshal_hosts (h ∷ hs)) [
  | err e ↦ none
  | ok body ↦ push_to_client made identifier body (insert header_tunnel_info (codes "1"))
]

pub record Reply : Type 0 where
  pub status : ℕ
  pub body : Bytes

-- `http.Error`
abbrev pub error_reply : Bytes → ℕ → Reply
error_reply text status = record { status = status; body = text ++ codes "\n" }

unfoldable pub handle_handshake : Json → Dict Tunnel → Reply
handle_handshake json tunnels = elim (json.marshal_tunnels tunnels) [
  | err e ↦ error_reply e 500
  | ok body ↦ record { status = 200; body = body }
]

-- The reply, and the hosts with which `onTunnelInfo` is called.
unfoldable pub handle_tunnel_info : Json → Bytes → Reply × Option (Dict Bytes)
handle_tunnel_info json body = elim (json.decode_hosts body) [
  | err e ↦ (error_reply e 400, none)
  | ok hosts ↦ (record { status = 200; body = [] }, some hosts)
]

-- A list of texts as `%s` prints it.
spaced : List Bytes → Bytes
spaced [] = []
spaced (s ∷ []) = s
spaced (s ∷ t ∷ ts) = s ++ b' ' ∷ spaced (t ∷ ts)

-- `serveHTTP` of a client that asks for `tunnels`; `none` is the stream of a tunneled connection.
unfoldable pub respond : Json → Dict Tunnel → Request → Bytes → Option Reply
unfolding spaced
respond json tunnels r body = elim (serve_http r) [
  | handshake_error text ↦ some (record { status = 200; body = [] })
  | tunnel_info ↦ some (handle_tunnel_info json body).0
  | handshake ↦ some (handle_handshake json tunnels)
  | unknown_action ↦ some (error_reply (codes "unknown action") 400)
  | bad_request missing ↦
      some (error_reply (codes "missing headers: [" ++ (spaced missing ++ codes "]")) 400)
  | proxied msg ↦ none
]

-- How many bytes of the client's answer the server reads.
abbrev pub answer_limit : ℕ
answer_limit = 126976

abbrev pub decoded_tunnels : Result Bytes (Dict (Option Tunnel)) → Option (Dict (Option Tunnel))
decoded_tunnels (err e) = none
decoded_tunnels (ok ts) = some ts

-- A reply as `handleClient` meets it; whether its length is known depends on the transport.
unfoldable pub response_of : Json → Bool → Reply → Response
response_of json sized reply = record {
  status = reply.status;
  content_length = if sized then some (length reply.body) else none;
  tunnels = decoded_tunnels (json.decode_tunnels (take answer_limit reply.body));
}

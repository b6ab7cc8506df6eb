-- ===== src/Proto.antt =====
-- proto/tunnel.go and proto/controlmsg.go: what client and server say to each other.
pub mod Label
pub mod Message
use go_tcp_tunnel.Base.{
  ℕ, Bool, true, false, ◌&&◌, ◌||◌, [], ◌∷◌, ◌++◌, List, none, some, Bytes, codes, ◌==◌, leb,
  if◌then◌else◌, length, is_empty, Result, ok, err, beq,
}
use go_tcp_tunnel.Base.Dict.{Dict, lookup, insert}

pub record Tunnel : Type 0 where
  pub protocol : Bytes
  pub host : Bytes
  pub auth : Bytes
  pub addr : Bytes

-- Known protocol types.
abbrev pub tcp : Bytes
tcp = codes "tcp"

abbrev pub tcp4 : Bytes
tcp4 = codes "tcp4"

abbrev pub tcp6 : Bytes
tcp6 = codes "tcp6"

abbrev pub http : Bytes
http = codes "http"

-- `case proto.TCP, proto.TCP4, proto.TCP6`
unfoldable pub is_stream : Bytes → Bool
is_stream protocol = beq protocol tcp || (beq protocol tcp4 || beq protocol tcp6)

unfoldable pub is_http : Bytes → Bool
is_http protocol = beq protocol http

-- `[a-z0-9]` and `[a-z0-9-]`.
unfoldable pub is_alnum : ℕ → Bool
is_alnum c = (leb b'a' c && leb c b'z') || (leb b'0' c && leb c b'9')

unfoldable pub is_label_byte : ℕ → Bool
unfolding is_alnum
is_label_byte c = is_alnum c || c == b'-'

-- `[a-z0-9-]*[a-z0-9]`, up to the end of the text.
unfoldable pub label_end : Bytes → Bool
label_end [] = false
label_end (c ∷ []) = is_alnum c
label_end (c ∷ d ∷ s) = is_label_byte c && label_end (d ∷ s)

-- `([a-z0-9-]{0,61}[a-z0-9])?`
unfoldable pub label_rest : Bytes → Bool
unfolding label_end
label_rest [] = true
label_rest (c ∷ s) = leb (length (c ∷ s)) 62 && label_end (c ∷ s)

unfoldable pub valid_subdomain_label : Bytes → Bool
unfolding label_rest
valid_subdomain_label [] = false
valid_subdomain_label (c ∷ s) = is_alnum c && label_rest s

abbrev pub header_error : Bytes
header_error = codes "X-Error"

abbrev pub header_action : Bytes
header_action = codes "X-Action"

abbrev pub header_forwarded_host : Bytes
header_forwarded_host = codes "X-Forwarded-Host"

abbrev pub header_forwarded_proto : Bytes
header_forwarded_proto = codes "X-Forwarded-Proto"

abbrev pub header_tunnel_info : Bytes
header_tunnel_info = codes "X-Tunnel-Info"

abbrev pub action_proxy : Bytes
action_proxy = codes "proxy"

pub record ControlMessage : Type 0 where
  pub action : Bytes
  pub forwarded_host : Bytes
  pub forwarded_proto : Bytes
  pub remote_addr : Bytes

-- `http.Header.Get`: a missing header reads as the empty text.
unfoldable pub get : Bytes → Dict Bytes → Bytes
get key h = elim (lookup key h) [ none ↦ [] | some value ↦ value ]

-- `if value == "" { missing = append(missing, header) }`
abbrev pub missing_if : Bytes → Bytes → List Bytes
missing_if value header = if is_empty value then header ∷ [] else []

-- `if len(missing) != 0 { return nil, … }`
abbrev pub read_result : ControlMessage → List Bytes → Result (List Bytes) ControlMessage
read_result msg [] = ok msg
read_result msg (h ∷ hs) = err (h ∷ hs)

-- The error holds the missing headers.
unfoldable pub read_control_message : Dict Bytes → Bytes → Result (List Bytes) ControlMessage
read_control_message h remote =
    let msg : ControlMessage = record {
      action = get header_action h;
      forwarded_host = get header_forwarded_host h;
      forwarded_proto = get header_forwarded_proto h;
      remote_addr = remote;
    } in
    read_result msg (
      missing_if msg.action header_action
      ++ (missing_if msg.forwarded_host header_forwarded_host
          ++ missing_if msg.forwarded_proto header_forwarded_proto))

unfoldable pub write_to_header : ControlMessage → Dict Bytes → Dict Bytes
write_to_header msg h =
    insert header_forwarded_proto msg.forwarded_proto
      (insert header_forwarded_host msg.forwarded_host (insert header_action msg.action h))

-- ===== src/ServerCommand.antt =====
-- cmd/server/options.go: the command that runs the server, up to its accepting loop.
pub mod Admission
pub mod Started
use go_tcp_tunnel.Base.{
  ℕ, Bool, true, none, List, [], ◌∷◌, Bytes, codes, is_empty, Result, ok, err, ◌>>=◌,
}
use go_tcp_tunnel.CaCommand.{Files, Os}
use go_tcp_tunnel.Tls.{Keys, TlsError, load_key_pair, load_roots}
use go_tcp_tunnel.Registry.{Registry}
use go_tcp_tunnel.Server.{Server, ServerConfig, Listen, new_server}
use go_tcp_tunnel.ClientIds.{OptionError, subscribe_listed}
use go_tcp_tunnel.Lifecycle.{ListenError, ListenConfig, Ports, new_ports, start_ports}

pub record Options : Type 0 where
  pub tunnel_addr : Bytes
  pub tls_crt : Bytes
  pub tls_key : Bytes
  pub client_ca : Bytes
  pub client_ids : Bytes
  pub base_domain : Bytes
  pub http_addr : Bytes

-- The values of the flags that `Command` declares.
abbrev pub default_options : Options
default_options = record {
  tunnel_addr = codes ":5223";
  tls_crt = codes "tls.crt";
  tls_key = codes "tls.key";
  client_ca = codes "ca.crt";
  client_ids = [];
  base_domain = [];
  http_addr = codes "127.0.0.1:9000";
}

-- `tls.ClientAuthType`
pub data ClientAuth : Type 0 where
  no_client_cert request_client_cert require_any_client_cert : ClientAuth
  verify_client_cert_if_given require_and_verify_client_cert : ClientAuth

-- The fields of `tls.Config` that the command sets.
pub record TlsConfig : Type 0 where
  pub certificate : Bytes
  pub client_auth : ClientAuth
  pub client_cas : Bytes
  pub root_cas : Bytes
  pub session_tickets_disabled : Bool
  pub min_version : ℕ
  pub next_protos : List Bytes

-- `tls.VersionTLS12`
abbrev version_tls12 : ℕ
version_tls12 = 771

unfoldable pub tls_config : Os → Keys → Files → Options → Result TlsError TlsConfig
tls_config os keys fs o = do
  cert ← load_key_pair os keys fs o.tls_crt o.tls_key
  roots ← load_roots keys fs o.client_ca
  ok (record {
    certificate = cert;
    client_auth = require_and_verify_client_cert;
    client_cas = roots;
    root_cas = roots;
    session_tickets_disabled = true;
    min_version = version_tls12;
    next_protos = codes "h2" ∷ [];
  })

pub data CommandError : Type 0 where
  tls_failed : TlsError → CommandError
  create_failed start_failed : ListenError → CommandError
  option_error : OptionError → CommandError

-- A server whose loop accepts connections.
pub record Running : Type 0 where
  pub tls : TlsConfig
  pub config : ServerConfig
  pub server : Server
  pub ports : Ports

-- The configuration of `NewServer`: what concerns the listeners, and what concerns the clients.
abbrev pub listen_config : Options → ListenConfig
listen_config o = record {
  listener = none;
  addr = o.tunnel_addr;
  has_tls_config = true;
  base_domain = o.base_domain;
  http_addr = o.http_addr;
}

abbrev pub server_config : Options → ServerConfig
server_config o = record { base_domain = o.base_domain; auto_subscribe = is_empty o.client_ids }

-- A new server whose clients are subscribed, with the listeners of its backend.
abbrev pub serving : Registry → Server
serving r = record new_server { state = record { registry = r; open_listeners = [] } }

-- `server.Start`
unfoldable pub started :
    TlsConfig
    → Options
    → Registry
    → Result ListenError (Unit {0}) × Ports
    → Result CommandError Running × List ℕ
started tls o r (err e, p) = (err (start_failed e), p.opened)
started tls o r (ok _, p) =
    (ok (record { tls = tls; config = server_config o; server = serving r; ports = p }), p.opened)

-- The subscriptions between `NewServer` and `Start`; a listener that is open stays open on an error.
unfoldable pub listening :
    Listen
    → TlsConfig
    → Options
    → Ports
    → Result OptionError Registry
    → Result CommandError Running × List ℕ
unfolding started
listening listen tls o p (err e) = (err (option_error e), p.opened)
listening listen tls o p (ok r) = started tls o r (start_ports listen (listen_config o) p)

unfoldable pub created :
    Listen
    → TlsConfig
    → Options
    → List ℕ
    → Result ListenError Ports
    → Result CommandError Running × List ℕ
unfolding listening
created listen tls o opened (err e) = (err (create_failed e), opened)
created listen tls o opened (ok p) =
    listening listen tls o p (subscribe_listed o.client_ids new_server.state.registry)

-- `Execute`; with the listeners that are open afterwards.
unfoldable pub execute :
    Os → Keys → Files → Listen → Options → List ℕ → Result CommandError Running × List ℕ
unfolding created
execute os keys fs listen o opened = elim (tls_config os keys fs o) [
  | err e ↦ (err (tls_failed e), opened)
  | ok tls ↦ created listen tls o opened (new_ports listen (listen_config o) opened)
]

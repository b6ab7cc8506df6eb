-- ===== src/ServerCommand/Admission.antt =====
-- Whom a server that the command started lets in.
use go_tcp_tunnel.Base.{◌≡◌, ok}
use go_tcp_tunnel.CaCommand.{Files, read_file}
use go_tcp_tunnel.Server.{Server}
use go_tcp_tunnel.ServerCommand.{Options, TlsConfig, require_and_verify_client_cert}

-- The authority's certificates of a server are those of its file, and clients need one of them.
abbrev pub Verifies : Files → Options → TlsConfig → Type 0
Verifies fs o tls =
    (tls.client_auth ≡ require_and_verify_client_cert)
    × (read_file o.client_ca fs ≡ ok tls.client_cas)

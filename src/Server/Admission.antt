-- ===== src/Server/Admission.antt =====
-- Who may open tunnels.
use go_tcp_tunnel.Base.{ℕ, true, ◌≡◌, ◌⊎◌, arith, some, ◌∷◌, Bytes}
use go_tcp_tunnel.Registry.{is_subscribed}
use go_tcp_tunnel.Server.{Server, ServerConfig}
use go_tcp_tunnel.Server.Handling.{World, handle_client, reject_conn, close_conn}

-- Unless the peer speaks TLS, has a certificate of its own and is subscribed (or new clients are
-- subscribed on their first call), its connection is closed and nothing else changes.
pub handle_client_admits :
    (config : ServerConfig) (w : World) (conn : ℕ) (s : Server)
    → ((w.is_tls ≡ true)
        × ((identifier : Bytes) × (w.peer_id ≡ some identifier)
            × ((config.auto_subscribe ≡ true)
                ⊎ (is_subscribed identifier s.state.registry ≡ true))))
      ⊎ ((handle_client config w conn s).1 ≡ record s { closed = conn ∷ s.closed })
unfolding handle_client reject_conn close_conn
handle_client_admits config w conn s = ground arith

-- ===== src/Examples/Returning.antt =====
-- A client comes to a new server, and its connection dies.
use go_tcp_tunnel.Server.Accepted.{pointers}
use go_tcp_tunnel.Base.{some, ◌≡◌, refl, none, ◌∷◌, Bytes, ok, beq}
use go_tcp_tunnel.Base.Dict.{lookup, insert}
use go_tcp_tunnel.Pool.{addr, mark_dead, add_conn}
use go_tcp_tunnel.Proto
use go_tcp_tunnel.Registry.{set, subscribe, new_registry}
use go_tcp_tunnel.Registry.Hosts.{occupied}
use go_tcp_tunnel.Server.{Server, free, new_server, add_tunnels, collect, add_tunnel, finish}
use go_tcp_tunnel.Server.Handling.{
  handle_client, join_pool, joined, handshake, answered, decoded, open_tunnels, open_given,
  until_nil,
}
use go_tcp_tunnel.Server.Listeners.{new_server-IsTidy}
use go_tcp_tunnel.Server.Returning.{IsSame, IsQuiet, admitted, handle_client-mark_dead}
use go_tcp_tunnel.Server.Serving.Sound.{new_server-IsSound}
use go_tcp_tunnel.Examples.Servers.{new_server-IsNewClient}
use go_tcp_tunnel.Examples.Data.{batch, laptop, laptop-IsId, config, world, listen-OpensNew}

abbrev come : Server
come = (handle_client config world 3 new_server).1

accepts : (handle_client config world 3 new_server).0 ≡ ok tt
unfolding handle_client open_given until_nil new_server join_pool joined add_conn lookup handshake
    answered decoded insert beq open_tunnels add_tunnels collect add_tunnel Proto.is_stream
    Proto.is_http Proto.valid_subdomain_label Proto.is_alnum Proto.is_label_byte set occupied
    subscribe new_registry finish
accepts = refl

world-IsQuiet : IsQuiet world
world-IsQuiet = record {
  answer = some (record { status = 200; content_length = none; tunnels = some (pointers batch) });
  exchanged = λ s. refl;
  pushed = λ i s. refl;
}

pub not_there : lookup (addr laptop) new_server.conns ≡ none
unfolding new_server lookup
not_there = refl

handle_client-mark_dead_example :
    IsSame (admitted config laptop new_server).state (mark_dead free 103 come).state
    × ((a : Bytes) → lookup a (mark_dead free 103 come).conns ≡ lookup a new_server.conns)
    × ((mark_dead free 103 come).closed ≡ 3 ∷ new_server.closed)
handle_client-mark_dead_example =
    handle_client-mark_dead config world laptop world-IsQuiet 3 103 new_server come listen-OpensNew
      laptop-IsId refl not_there refl new_server-IsNewClient new_server-IsSound new_server-IsTidy
      (λ j. (accepts j, come))

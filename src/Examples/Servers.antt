-- ===== src/Examples/Servers.antt =====
-- Runs of the server.
use go_tcp_tunnel.Base.{
  arith, none, ◌≡◌, refl, true, false, ◌||◌, some, [], ◌∷◌, Bytes, codes, ok, err, holds, beq, elem,
  length, All, if◌then◌else◌, discard_all, discard,
}
use go_tcp_tunnel.Base.Dict.{lookup}
use go_tcp_tunnel.HostPort.{trim_port}
use go_tcp_tunnel.Registry.{item, RegistryItem, is_subscribed, new_registry}
use go_tcp_tunnel.Proto
use go_tcp_tunnel.HttpHost
use go_tcp_tunnel.Registry.Hosts.{names}
use go_tcp_tunnel.Proto.{is_stream, is_http}
use go_tcp_tunnel.Pool.{mark_dead}
use go_tcp_tunnel.Server.{
  free, Backend, Server, ServerConfig, new_server, add_tunnels, registry_error, collect, add_tunnel,
  unsupported_protocol, finish,
}
use go_tcp_tunnel.Server.Handling.{
  handle_client, unknown_client, reject_conn, close_conn, decoded, open_given, until_nil,
  open_tunnels, nil_tunnel, tunnel_error, reject_client,
}
use go_tcp_tunnel.Registry.Hosts.{occupied}
use go_tcp_tunnel.Registry.{not_subscribed, set, void}
use go_tcp_tunnel.Server.Tunnels.{
  add_tunnels_rollback, add_tunnels_success, hosts_of, streams, IsServed,
}
use go_tcp_tunnel.Server.Listeners.{IsTidy}
use go_tcp_tunnel.Server.Serving.{Leads, stays, then_leads, handles, dies}
use go_tcp_tunnel.Server.Serving.Tidy.{new_server-Leads-IsTidy}
use go_tcp_tunnel.Server.Serving.Sound.{new_server-Leads-IsSound}
use go_tcp_tunnel.Pool.Invariant.{IsFresh, IsNewClient, IsSound}
use go_tcp_tunnel.Server.Closing.{KeepsConn, handle_client_closes}
use go_tcp_tunnel.Examples.Data.{
  laptop, base, batch, ssh_tunnel, listen, listen-OpensNew, config, world,
}

abbrev unsubscribed : Backend
unsubscribed = record { registry = new_registry; open_listeners = 4 ∷ [] }

-- The client is not subscribed, so the listener that was opened for it is closed again.
rejected_batch :
    add_tunnels listen base batch laptop unsubscribed
    ≡ (err (registry_error not_subscribed), unsubscribed)
unfolding add_tunnels collect add_tunnel is_stream is_http beq Proto.valid_subdomain_label
    Proto.is_alnum Proto.is_label_byte set new_registry lookup discard_all discard
    HttpHost.http_full_host
rejected_batch = refl

add_tunnels_rollback_example :
    (unsubscribed.registry ≡ unsubscribed.registry)
    × (holds 4 unsubscribed.open_listeners ≡ holds 4 unsubscribed.open_listeners)
add_tunnels_rollback_example =
    add_tunnels_rollback listen base listen-OpensNew batch laptop unsubscribed unsubscribed
      (registry_error not_subscribed) 4 rejected_batch

abbrev subscribed : Backend
subscribed = record {
  registry = record { items = (laptop, void) ∷ []; hosts = [] };
  open_listeners = 4 ∷ [];
}

abbrev serving : Backend
serving = (add_tunnels listen base batch laptop subscribed).1

accepted_batch : add_tunnels listen base batch laptop subscribed ≡ (ok tt, serving)
unfolding add_tunnels collect add_tunnel is_stream is_http beq Proto.valid_subdomain_label
    Proto.is_alnum Proto.is_label_byte set lookup HttpHost.http_full_host occupied
accepted_batch = refl

add_tunnels_success_example :
    (i : RegistryItem) × (lookup laptop serving.registry.items ≡ some (item i))
    × (i.hosts ≡ hosts_of base batch)
    × (length i.listeners ≡ streams batch)
    × All IsServed batch
    × (lookup (trim_port (codes "myapp.tunnel.example.com")) serving.registry.hosts ≡ (
        if elem (trim_port (codes "myapp.tunnel.example.com")) (names (hosts_of base batch))
        then some laptop
        else lookup (trim_port (codes "myapp.tunnel.example.com")) subscribed.registry.hosts))
    × (holds 5 serving.open_listeners ≡ (holds 5 i.listeners || holds 5 subscribed.open_listeners))
add_tunnels_success_example =
    add_tunnels_success listen base batch laptop subscribed serving
      (codes "myapp.tunnel.example.com") 5 listen-OpensNew accepted_batch

abbrev closed_config : ServerConfig
closed_config = record { base_domain = base; auto_subscribe = false }

-- Behind a tunnel that can be opened, a null ends the program; behind one that cannot, it is not met.
with_null :
    (name : Bytes)
    → (decoded config world laptop
        (some ((name, some ssh_tunnel) ∷ (name, none) ∷ []))
        new_server).0
      ≡ err nil_tunnel
unfolding decoded open_given until_nil collect add_tunnel is_stream beq new_server
with_null name = refl

before_null :
    (name : Bytes)
    → (decoded config world laptop
        (some ((name, some (record ssh_tunnel { protocol = [] })) ∷ (name, none) ∷ []))
        new_server).0
      ≡ err (tunnel_error (unsupported_protocol name))
unfolding decoded open_given until_nil open_tunnels add_tunnels collect add_tunnel finish is_stream
    is_http beq new_server reject_client
before_null name = refl

world-KeepsConn : KeepsConn 3 world
world-KeepsConn = record { exchanged = λ a s h. h; pushed = λ a i s h. h }

abbrev turned_away : Server
turned_away = record new_server { closed = 3 ∷ new_server.closed }

rejected_client : handle_client closed_config world 3 new_server ≡ (err unknown_client, turned_away)
unfolding handle_client reject_conn close_conn is_subscribed new_server new_registry lookup
rejected_client = refl

handle_client_closes_example : holds 3 turned_away.closed ≡ true
handle_client_closes_example =
    handle_client_closes closed_config world 3 world-KeepsConn new_server turned_away unknown_client
      rejected_client (λ e. absurd (ground arith))

-- A client comes, and its connection dies.
abbrev served : Server
served = mark_dead free 103 (handle_client config world 3 new_server).1

new_server-IsFresh : IsFresh 3 new_server
unfolding new_server lookup holds
new_server-IsFresh = record { open_conn = refl; unused = λ a cp h. cc }

pub new_server-IsNewClient : IsNewClient world.http2 3 new_server
unfolding new_server lookup
new_server-IsNewClient c a cp made h = cc

abbrev Anyone : Bytes → Type 0
Anyone i = Unit

served-Leads : Leads config Anyone new_server served
served-Leads =
    then_leads
      (handles world 3 new_server-IsFresh new_server-IsNewClient listen-OpensNew (λ q. stays)
        (λ i q. stays))
      (dies 103)

new_server-Leads-IsTidy_example : IsTidy served.state
new_server-Leads-IsTidy_example = new_server-Leads-IsTidy config Anyone served served-Leads

new_server-Leads-IsSound_example : IsSound served
new_server-Leads-IsSound_example = new_server-Leads-IsSound config Anyone served served-Leads

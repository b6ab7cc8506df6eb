-- ===== src/Examples/Unsubscribing.antt =====
-- Runs of `Server.Unsubscribe`.
use go_tcp_tunnel.Base.{subst, sym, ap, ◌∙◌}
use go_tcp_tunnel.Pool.{delete_conn}
use go_tcp_tunnel.Server.Unsubscribing.{IsHarmless, between}
use go_tcp_tunnel.Base.{◌≡◌, refl, true, false, some, [], ◌∷◌, codes, holds, beq, beq_iff}
use go_tcp_tunnel.Base.Dict.{lookup, insert}
use go_tcp_tunnel.HttpHost.{http_full_host}
use go_tcp_tunnel.Proto.{is_stream, is_http, valid_subdomain_label, is_alnum, is_label_byte}
use go_tcp_tunnel.Pool.{ConnPair, addr}
use go_tcp_tunnel.Registry.{RegistryItem, item, subscribe, new_registry, is_subscribed, set}
use go_tcp_tunnel.Registry.Hosts.{occupied}
use go_tcp_tunnel.Server.{
  Backend, Server, new_server, add_tunnels, collect, add_tunnel, finish, server_unsubscribe,
}
use go_tcp_tunnel.Server.Listeners.{
  IsTidy, Owner, new_server-IsTidy, subscribe-IsTidy, add_tunnels-IsTidy,
}
use go_tcp_tunnel.Server.Unsubscribing.{server_unsubscribe-IsTidy, server_unsubscribe_leaks}
use go_tcp_tunnel.Examples.Data.{laptop, laptop-IsId, base, batch, listen, listen-OpensNew}

abbrev waiting : Backend
waiting = record new_server.state { registry = subscribe laptop new_server.state.registry }

abbrev serving : Backend
serving = (add_tunnels listen base batch laptop waiting).1

serving-IsTidy : IsTidy serving
serving-IsTidy =
    add_tunnels-IsTidy listen base listen-OpensNew batch laptop waiting
      (subscribe-IsTidy laptop new_server.state new_server-IsTidy)

abbrev pair : ConnPair
pair = record { conn = 3; client_conn = 103 }

abbrev present : Server
present = record { conns = (addr laptop, pair) ∷ []; closed = []; state = serving }

abbrev absent : Server
absent = record { conns = []; closed = []; state = serving }

present_pair : lookup (addr laptop) present.conns ≡ some pair
unfolding lookup
present_pair = rw ((beq_iff (addr laptop) (addr laptop)).1 refl)

-- Nobody does anything in between.
abbrev nothing : Server → Server
nothing s = s

nothing-IsHarmless : IsHarmless nothing laptop 3
nothing-IsHarmless = record { tidy = λ q v. v; no_item = λ q h. h; closed = λ q h. h }

server_unsubscribe-IsTidy_example :
    IsTidy (server_unsubscribe nothing laptop present).1.state
    × (is_subscribed laptop (server_unsubscribe nothing laptop present).1.state.registry ≡ false)
    × (holds 3 (server_unsubscribe nothing laptop present).1.closed ≡ true)
server_unsubscribe-IsTidy_example =
    server_unsubscribe-IsTidy nothing laptop present pair nothing-IsHarmless laptop-IsId
      serving-IsTidy present_pair

abbrev served : RegistryItem
served = record { hosts = codes "myapp.tunnel.example.com" ∷ []; listeners = 0 ∷ [] }

served_stored : lookup laptop serving.registry.items ≡ some (item served)
unfolding add_tunnels collect add_tunnel finish subscribe new_registry insert lookup is_stream
    is_http beq valid_subdomain_label is_alnum is_label_byte set occupied new_server http_full_host
served_stored = refl

served_held : holds 0 served.listeners ≡ true
unfolding holds
served_held = refl

-- The client is not in the pool.
left_alone : between nothing laptop absent ≡ absent
unfolding delete_conn lookup
left_alone = refl

server_unsubscribe_leaks_example :
    (holds 0 (server_unsubscribe nothing laptop absent).1.state.open_listeners ≡ true)
    × (Owner (server_unsubscribe nothing laptop absent).1.state.registry.items 0 → ⊥)
server_unsubscribe_leaks_example =
    server_unsubscribe_leaks nothing laptop absent served 0
      (subst (λ s. IsTidy s.state) (sym left_alone) serving-IsTidy)
      (ap (λ s. lookup laptop s.state.registry.items) left_alone ∙ served_stored) served_held

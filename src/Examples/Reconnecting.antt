-- ===== src/Examples/Reconnecting.antt =====
-- A client with a stream and an http tunnel dies and comes back.
use go_tcp_tunnel.Server.Accepted.{pointers}
use go_tcp_tunnel.Base.{
  none, ℕ, suc, ◌≡◌, ◌≤◌, ◌<◌, refl, arith, true, some, List, [], ◌∷◌, ok, holds, if◌then◌else◌,
  ltb, beq,
}
use go_tcp_tunnel.Base.Dict.{lookup, insert}
use go_tcp_tunnel.Proto
use go_tcp_tunnel.Pool.{mark_dead, add_conn}
use go_tcp_tunnel.Registry.{set, subscribe, new_registry}
use go_tcp_tunnel.Registry.Hosts.{occupied}
use go_tcp_tunnel.Server.{
  Server, Listen, free, new_server, add_tunnels, collect, add_tunnel, finish,
}
use go_tcp_tunnel.Server.Handling.{
  World, handle_client, join_pool, joined, handshake, answered, decoded, open_tunnels, open_given,
  until_nil,
}
use go_tcp_tunnel.Server.Tunnels.{OpensNew}
use go_tcp_tunnel.Server.Serving.Sound.{new_server-IsSound}
use go_tcp_tunnel.Server.Listeners.{new_server-IsTidy}
use go_tcp_tunnel.Server.Returning.{IsQuiet}
use go_tcp_tunnel.Server.Repeating.{IgnoresOrder}
use go_tcp_tunnel.Server.Reconnecting.{reconnects}
use go_tcp_tunnel.Examples.Data.{laptop, laptop-IsId, config, world, batch}
use go_tcp_tunnel.Examples.Servers.{new_server-IsNewClient}
use go_tcp_tunnel.Examples.Returning.{not_there}

-- The first number above all that are in use.
abbrev next : List ℕ → ℕ
next [] = 0
next (n ∷ ns) = let m = next ns in if ltb n m then m else suc n

lt-next : (k : ℕ) (ns : List ℕ) → holds k ns ≡ true → k < next ns
unfolding holds
lt-next k [] h = cc
lt-next k (n ∷ ns) h = ground (arith, lt-next k ns)

next_least : (ns : List ℕ) (m : ℕ) → ((k : ℕ) → holds k ns ≡ true → k < m) → next ns ≤ m
unfolding holds
next_least [] m h = omega arith
next_least (n ∷ ns) m h = ground (arith, next_least ns m (λ k g. h k (ground (arith, g))), h n)

abbrev listen_next : Listen
listen_next network address opened = some (next opened)

listen_next-OpensNew : OpensNew listen_next
listen_next-OpensNew network address opened l e = ground (arith, lt-next (next opened) opened)

listen_next-IgnoresOrder : IgnoresOrder listen_next
listen_next-IgnoresOrder network address opened opened' alike =
    let a : next opened' ≤ next opened =
      next_least opened' (next opened) (λ k h. lt-next k opened (ground (arith, h, alike k))) in
    let b : next opened ≤ next opened' =
      next_least opened (next opened') (λ k h. lt-next k opened' (ground (arith, h, alike k))) in
    let same : next opened' ≡ next opened = omega arith in rw same refl

abbrev with_next : World
with_next = record world { listen = listen_next }

with_next-IsQuiet : IsQuiet with_next
with_next-IsQuiet = record {
  answer = some (record { status = 200; content_length = none; tunnels = some (pointers batch) });
  exchanged = λ s. refl;
  pushed = λ i s. refl;
}

abbrev come : Server
come = (handle_client config with_next 3 new_server).1

accepts : (handle_client config with_next 3 new_server).0 ≡ ok tt
unfolding handle_client open_given until_nil new_server join_pool joined add_conn lookup handshake
    answered decoded insert beq open_tunnels add_tunnels collect add_tunnel Proto.is_stream
    Proto.is_http Proto.valid_subdomain_label Proto.is_alnum Proto.is_label_byte set occupied
    subscribe new_registry finish
accepts = refl

reconnects_example : (handle_client config with_next 4 (mark_dead free 103 come)).0 ≡ ok tt
reconnects_example =
    reconnects config with_next laptop with_next-IsQuiet listen_next-IgnoresOrder 3 103 4 104
      new_server come listen_next-OpensNew laptop-IsId refl not_there refl refl
      new_server-IsNewClient new_server-IsSound new_server-IsTidy (λ j. (accepts j, come))

-- ===== src/Examples/Interleavings.antt =====
-- A run of two goroutines: one adds the tunnels of a client while the other clears them again.
use go_tcp_tunnel.Interleaving.Sequential.{after_clear}
use go_tcp_tunnel.Interleaving.{Move, idle, adding}
use go_tcp_tunnel.Registry.{clear}
use go_tcp_tunnel.Server.{empty_item}
use go_tcp_tunnel.Base.{◌⊎◌, ℕ}
use go_tcp_tunnel.Server.Listeners.{Owner}
use go_tcp_tunnel.Base.{
  ◌≡◌, refl, arith, true, false, [], ◌∷◌, codes, ok, err, holds, beq, cut_last,
}
use go_tcp_tunnel.Base.Dict.{Dict, lookup, insert}
use go_tcp_tunnel.HttpHost.{http_full_host}
use go_tcp_tunnel.Proto.{Tunnel, is_stream, is_http, valid_subdomain_label, is_alnum, is_label_byte}
use go_tcp_tunnel.Registry.{void, Registry, RegistryItem, item, new_registry, subscribe, set}
use go_tcp_tunnel.Registry.Hosts.{occupied, register}
use go_tcp_tunnel.HostPort.{trim_port, split_host_port}
use go_tcp_tunnel.Interleaving.Sequential.{Runs, add_tunnels-Runs}
use go_tcp_tunnel.Server.{
  Backend, add_tunnels, disconnected, unsupported_protocol, add_tunnel, empty_item,
}
use go_tcp_tunnel.Server.Listeners.{IsTidy}
use go_tcp_tunnel.Interleaving.{
  idle, adding, closing, join, begin, add, commit, refuse, System, pick, Reach, here, next, update,
  held,
}
use go_tcp_tunnel.Interleaving.Quiet.{IsQuiet, Reach-IsTidy, Reach_closes}
use go_tcp_tunnel.Examples.Data.{
  laptop, desktop, base, batch, ssh_tunnel, web_tunnel, listen, listen-OpensNew,
}

abbrev subscribed : Registry
subscribed = subscribe desktop (subscribe laptop new_registry)

abbrev with_ssh : RegistryItem
with_ssh = record { hosts = []; listeners = 0 ∷ [] }

abbrev with_both : RegistryItem
with_both = record { hosts = codes "myapp.tunnel.example.com" ∷ []; listeners = 0 ∷ [] }

abbrev after_join : System
after_join = record {
  registry = subscribe laptop new_registry;
  opened = [];
  pc = update (λ n. idle) 0 idle;
}

abbrev after_begin : System
after_begin = record after_join { pc = update after_join.pc 0 (adding laptop batch empty_item) }

abbrev after_ssh : System
after_ssh = record after_begin {
  opened = 0 ∷ [];
  pc = update after_begin.pc 0 (adding laptop ((codes "web", web_tunnel) ∷ []) with_ssh);
}

-- The other goroutine steps in between.
abbrev after_other : System
after_other = record after_ssh { registry = subscribed; pc = update after_ssh.pc 1 idle }

abbrev after_web : System
after_web = record after_other { pc = update after_other.pc 0 (adding laptop [] with_both) }

abbrev stored : Registry
stored = record {
  items = (laptop, item with_both) ∷ (desktop, void) ∷ [];
  hosts = (codes "myapp.tunnel.example.com", laptop) ∷ [];
}

abbrev after_commit : System
after_commit = record after_web { registry = stored; pc = update after_web.pc 0 idle }

ssh_added : add_tunnel listen base (codes "ssh") ssh_tunnel empty_item [] ≡ ok (with_ssh, 0 ∷ [])
unfolding add_tunnel is_stream beq
ssh_added = refl

web_added :
    add_tunnel listen base (codes "web") web_tunnel with_ssh (0 ∷ []) ≡ ok (with_both, 0 ∷ [])
unfolding add_tunnel is_stream is_http beq valid_subdomain_label is_alnum is_label_byte
    http_full_host
web_added = refl

both_set : set with_both laptop subscribed ≡ ok stored
unfolding set subscribe new_registry insert lookup beq occupied register trim_port split_host_port
    cut_last
both_set = refl

other-Reach : Reach listen base after_other
other-Reach =
    next
      (next (next (next here (pick 0 (join laptop))) (pick 0 (begin laptop batch)))
        (pick 0 (add ssh_added)))
      (pick 1 (join desktop))

commit-Reach : Reach listen base after_commit
commit-Reach = next (next other-Reach (pick 0 (add web_added))) (pick 0 (commit both_set))

commit-IsQuiet : IsQuiet after_commit
commit-IsQuiet n = ground arith

Reach-IsTidy_example : IsTidy (record { registry = stored; open_listeners = 0 ∷ [] })
Reach-IsTidy_example =
    Reach-IsTidy listen base listen-OpensNew after_commit commit-Reach commit-IsQuiet

-- A batch of another client is refused, and its listener is to be closed again.
abbrev bad_tunnel : Tunnel
bad_tunnel = record { protocol = codes "udp"; host = []; auth = []; addr = [] }

abbrev bad_batch : Dict Tunnel
bad_batch = (codes "ssh", ssh_tunnel) ∷ (codes "dns", bad_tunnel) ∷ []

abbrev with_one : RegistryItem
with_one = record { hosts = []; listeners = 1 ∷ [] }

abbrev bad_begun : System
bad_begun = record after_commit {
  pc = update after_commit.pc 1 (adding desktop bad_batch empty_item);
}

abbrev bad_opened : System
bad_opened = record bad_begun {
  opened = 1 ∷ 0 ∷ [];
  pc = update bad_begun.pc 1 (adding desktop ((codes "dns", bad_tunnel) ∷ []) with_one);
}

abbrev bad_refused : System
bad_refused = record bad_opened { pc = update bad_opened.pc 1 (closing (1 ∷ [])) }

bad_added :
    add_tunnel listen base (codes "ssh") ssh_tunnel empty_item (0 ∷ []) ≡ ok (with_one, 1 ∷ 0 ∷ [])
unfolding add_tunnel is_stream beq
bad_added = refl

udp_refused :
    add_tunnel listen base (codes "dns") bad_tunnel with_one (1 ∷ 0 ∷ [])
    ≡ err (unsupported_protocol (codes "dns"))
unfolding add_tunnel is_stream is_http beq
udp_refused = refl

refused-Reach : Reach listen base bad_refused
refused-Reach =
    next (next (next commit-Reach (pick 1 (begin desktop bad_batch))) (pick 1 (add bad_added)))
      (pick 1 (refuse udp_refused))

Reach_closes_example :
    (holds 1 (1 ∷ 0 ∷ []) ≡ true)
    × (Owner stored.items 1 → ⊥)
    × (◌≡◌ {A = ℕ} 0 1 ⊎ (holds 1 (held (bad_refused.pc 0)) ≡ false))
Reach_closes_example =
    Reach_closes listen base listen-OpensNew bad_refused refused-Reach 1 0 1 [] refl

abbrev waiting : Backend
waiting = record { registry = subscribed; open_listeners = 4 ∷ [] }

add_tunnels-Runs_example :
    Runs listen base subscribed
      (4 ∷ [])
      (adding laptop batch empty_item)
      (add_tunnels listen base batch laptop waiting).1
    × Move listen base subscribed
        (4 ∷ [])
        idle
        (clear laptop subscribed).1
        (4 ∷ [])
        (after_clear (clear laptop subscribed).0)
    × Runs listen base
        (clear laptop subscribed).1
        (4 ∷ [])
        (after_clear (clear laptop subscribed).0)
        (disconnected laptop waiting)
add_tunnels-Runs_example = add_tunnels-Runs listen base batch laptop waiting

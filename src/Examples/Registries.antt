-- ===== src/Examples/Registries.antt =====
-- Runs of the registry.
use go_tcp_tunnel.Base.{
  ◌≡◌, ◌↔◌, refl, true, false, some, List, [], ◌∷◌, Bytes, codes, ok, elem, beq,
}
use go_tcp_tunnel.Base.Dict.{lookup, insert}
use go_tcp_tunnel.HostPort.{trim_port}
use go_tcp_tunnel.Registry.{
  Registry, RegistryItem, void, new_registry, subscribe, is_subscribed, subscriber, set,
  unsubscribe,
}
use go_tcp_tunnel.Registry
use go_tcp_tunnel.Registry.Hosts.{names, register, occupied}
use go_tcp_tunnel.Registry.Invariant.{owns, IsConsistent, new_registry-IsConsistent}
use go_tcp_tunnel.Registry.Spec.{
  Call, subscribes, sets, run, run-IsConsistent, subscriber_iff, set-ok_iff, unsubscribe_forgets,
  without,
}
use go_tcp_tunnel.Examples.Data.{laptop, desktop}

abbrev app_item : RegistryItem
app_item = record { hosts = codes "app.example.com" ∷ []; listeners = 3 ∷ [] }

abbrev history : List Call
history = subscribes laptop ∷ subscribes desktop ∷ sets app_item laptop ∷ []

abbrev before : Registry
before = run (subscribes laptop ∷ subscribes desktop ∷ []) new_registry

before-IsConsistent : IsConsistent before
before-IsConsistent = run-IsConsistent _ new_registry new_registry-IsConsistent

subscriber_iff_example :
    (subscriber (codes "app.example.com:443") (run history new_registry) ≡ some laptop) ↔ (
      owns
        (trim_port (codes "app.example.com:443"))
        (lookup laptop (run history new_registry).items)
      ≡ true)
subscriber_iff_example = subscriber_iff history (codes "app.example.com:443") laptop

set-ok_iff_example : ((r' : Registry) × (set app_item laptop before ≡ ok r')) ↔ (
    (lookup laptop before.items ≡ some void)
    × ((k owner : Bytes)
        → elem k (names app_item.hosts) ≡ true
        → owns k (lookup owner before.items) ≡ false))
set-ok_iff_example = set-ok_iff before before-IsConsistent app_item laptop

set-run : set app_item laptop before ≡ ok (run history new_registry)
unfolding set run Registry.Spec.step subscribe lookup insert new_registry occupied beq register
    trim_port
set-run = refl

unsubscribe_forgets_example :
    let r = run history new_registry in
    (is_subscribed laptop (unsubscribe laptop r).1 ≡ false)
    × (subscriber (codes "app.example.com") (unsubscribe laptop r).1
        ≡ without laptop (subscriber (codes "app.example.com") r))
unsubscribe_forgets_example =
    unsubscribe_forgets laptop (codes "app.example.com") (run history new_registry)
      (run-IsConsistent history new_registry new_registry-IsConsistent)

-- ===== src/Registry/Subscribed.antt =====
-- What each method of the registry does to the subscriptions.
use go_tcp_tunnel.Base.{◌≡◌, arith, false, ◌||◌, Bytes, ok, beq, beq_iff, if◌then◌else◌}
use go_tcp_tunnel.Base.Dict.{lookup-insert}
use go_tcp_tunnel.Registry.{
  Registry, RegistryItem, void, item, subscribe, unsubscribe, clear, set, is_subscribed,
}
use go_tcp_tunnel.Registry.Spec.{unsubscribe-items}

pub is_subscribed-subscribe :
    (i j : Bytes) (r : Registry) → is_subscribed j (subscribe i r) ≡ (beq j i || is_subscribed j r)
unfolding is_subscribed subscribe
is_subscribed-subscribe i j r =
    ground (arith, lookup-insert i j void r.items, beq_iff i j, beq_iff j i)

pub is_subscribed-unsubscribe :
    (i j : Bytes) (r : Registry)
    → is_subscribed j (unsubscribe i r).1 ≡ (if beq i j then false else is_subscribed j r)
unfolding is_subscribed
is_subscribed-unsubscribe i j r = ground (arith, unsubscribe-items i r j)

pub is_subscribed-clear :
    (i j : Bytes) (r : Registry) → is_subscribed j (clear i r).1 ≡ is_subscribed j r
unfolding is_subscribed clear
is_subscribed-clear i j r = ground (arith, lookup-insert i j void r.items, beq_iff i j)

pub is_subscribed-set :
    (it : RegistryItem) (i j : Bytes) (r r' : Registry)
    → set it i r ≡ ok r'
    → is_subscribed j r' ≡ is_subscribed j r
unfolding is_subscribed set
is_subscribed-set it i j r r' e = ground (arith, lookup-insert i j (item it) r.items, beq_iff i j)

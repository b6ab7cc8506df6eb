-- ===== src/Server/Repeating.antt =====
-- A batch of tunnels that was accepted, is accepted again by a backend that reads the same.
use go_tcp_tunnel.Base.{
  ℕ, ◌≡◌, inl, inr, refl, arith, List, [], ◌∷◌, Bytes, ok, err, holds, Result-cases,
}
use go_tcp_tunnel.Base.Dict.{Dict, lookup, insert}
use go_tcp_tunnel.Proto.{Tunnel}
use go_tcp_tunnel.Registry.{Registry, RegistryItem, item, set}
use go_tcp_tunnel.HostPort.{trim_port}
use go_tcp_tunnel.Registry.Hosts.{occupied, register}
use go_tcp_tunnel.Registry.Spec.{set_result}
use go_tcp_tunnel.Server.{
  Backend, Listen, Collected, TunnelError, add_tunnel, collect, empty_item, finish, add_tunnels,
}
use go_tcp_tunnel.Server.Tunnels.{add_tunnel-Adds, finish_success}
use go_tcp_tunnel.Server.Returning.{IsSame}

-- The same listeners are open.
abbrev Alike : List ℕ → List ℕ → Type 0
Alike opened opened' = (k : ℕ) → holds k opened' ≡ holds k opened

-- What `net.Listen` does depends on which listeners are open, not on their order.
abbrev pub IgnoresOrder : Listen → Type 0
IgnoresOrder listen =
    (network address : Bytes) (opened opened' : List ℕ)
    → ((k : ℕ) → holds k opened' ≡ holds k opened)
    → listen network address opened' ≡ listen network address opened

occupied_same :
    (hs : List Bytes) (m n : Dict Bytes)
    → ((k : Bytes) → lookup k n ≡ lookup k m)
    → occupied hs n ≡ occupied hs m
unfolding occupied
occupied_same [] m n same = refl
occupied_same (h ∷ hs) m n same = ground (arith, occupied_same hs m n same, same (trim_port h))

-- `set` looks at nothing but the two tables.
set_again :
    (it : RegistryItem) (i : Bytes) (r q r' : Registry)
    → set it i r ≡ ok r'
    → ((k : Bytes) → lookup k q.hosts ≡ lookup k r.hosts)
    → ((j : Bytes) → lookup j q.items ≡ lookup j r.items)
    → (q' : Registry) × (set it i q ≡ ok q')
unfolding set
set_again it i r q r' e hosts items =
    let (clear, subscribed, _) = set_result it i r e in
    (
      record { items = insert i (item it) q.items; hosts = register it.hosts i q.hosts },
      ground (arith, items i, subscribed, clear, occupied_same it.hosts r.hosts q.hosts hosts),
    )

module _ (listen : Listen) (base_domain : Bytes) (ignores : IgnoresOrder listen) where
  add_tunnel_refused :
      (name : Bytes) (t : Tunnel) (it : RegistryItem) (opened opened' : List ℕ) (e : TunnelError)
      → Alike opened opened'
      → add_tunnel listen base_domain name t it opened ≡ err e
      → add_tunnel listen base_domain name t it opened' ≡ err e
  unfolding add_tunnel
  add_tunnel_refused name t it opened opened' e alike failed =
      ground (arith, failed, ignores t.protocol t.addr opened opened' alike)

  add_tunnel_again :
      (name : Bytes) (t : Tunnel) (it j : RegistryItem) (opened opened' o : List ℕ)
      → Alike opened opened'
      → add_tunnel listen base_domain name t it opened ≡ ok (j, o)
      → (o' : List ℕ) × (add_tunnel listen base_domain name t it opened' ≡ ok (j, o')) × Alike o o'
  unfolding add_tunnel holds
  add_tunnel_again name t it j opened opened' o alike e =
      elim (add_tunnel-Adds listen base_domain name t it j opened o e) [
        | inl (stream, (l, opens, ej, eo)) ↦ (
          l ∷ opened',
          ground (arith, stream, opens, ej, ignores t.protocol t.addr opened opened' alike),
          λ k. ground (arith, eo, alike k),
        )
        | inr (other, web, label, ej, eo) ↦
            (opened', ground (arith, e, other, web, label, ej), λ k. ground (arith, eo, alike k))
      ]

  collect_again :
      (ts : Dict Tunnel) (it : RegistryItem) (opened opened' : List ℕ)
      → Alike opened opened'
      → ((collect listen base_domain ts it opened').result
          ≡ (collect listen base_domain ts it opened).result)
        × ((collect listen base_domain ts it opened').item
            ≡ (collect listen base_domain ts it opened).item)
  unfolding collect
  collect_again [] it opened opened' alike = (refl, refl)
  collect_again ((name, t) ∷ ts) it opened opened' alike =
      elim (Result-cases (add_tunnel listen base_domain name t it opened)) [
        | inl (e, failed) ↦
            rw (failed, add_tunnel_refused name t it opened opened' e alike failed, collect)
              (refl, refl)
        | inr ((j, o), done) ↦
            let (o', again, alike') = add_tunnel_again name t it j opened opened' o alike done in
            rw (done, again, collect) (collect_again ts j o o' alike')
      ]

  finish_again :
      (i : Bytes) (b q b' : Backend) (c d : Collected)
      → IsSame b q
      → d.result ≡ c.result
      → d.item ≡ c.item
      → finish i b c ≡ (ok tt, b')
      → (q' : Backend) × (finish i q d ≡ (ok tt, q'))
  unfolding finish
  finish_again i b q b' c d same results items done =
      let (good, wrote, _) = finish_success i b b' c done in
      let (r, writes) =
        set_again c.item i b.registry q.registry b'.registry wrote same.hosts same.items in
      (
        record { registry = r; open_listeners = d.opened },
        ground (arith, results, items, good, writes),
      )

  pub add_tunnels_again :
      (ts : Dict Tunnel) (i : Bytes) (b q b' : Backend)
      → IsSame b q
      → add_tunnels listen base_domain ts i b ≡ (ok tt, b')
      → (q' : Backend) × (add_tunnels listen base_domain ts i q ≡ (ok tt, q'))
  unfolding add_tunnels
  add_tunnels_again ts i b q b' same done =
      let (results, items) =
        collect_again ts empty_item b.open_listeners q.open_listeners same.listeners in
      finish_again i b q b' (collect listen base_domain ts empty_item b.open_listeners)
        (collect listen base_domain ts empty_item q.open_listeners) same results items done

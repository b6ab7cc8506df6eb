-- ===== src/Server/Tunnels.antt =====
-- `addTunnels`: a batch is added whole or taken back.
use go_tcp_tunnel.HostPort.{trim_port}
use go_tcp_tunnel.Registry.Hosts.{names, lookup-register}
use go_tcp_tunnel.Base.{
  ℕ, suc, ◌+◌, true, false, ◌||◌, ◌≡◌, ◌⊎◌, inl, inr, refl, ap, sym, arith, some, List, [], ◌∷◌,
  ◌++◌, Bytes, if◌then◌else◌, ok, err, holds, discard_all, holds-append, holds-discard_all, length,
  length-append, All, append-nil, elem, Result-cases, append_assoc,
}
use go_tcp_tunnel.Base.Dict.{Dict, lookup, lookup-insert_self}
use go_tcp_tunnel.HttpHost.{http_full_host}
use go_tcp_tunnel.Proto.{Tunnel, is_stream, is_http, valid_subdomain_label}
use go_tcp_tunnel.Registry.{RegistryItem, item, set}
use go_tcp_tunnel.Registry.Spec.{set_result}
use go_tcp_tunnel.Server.{
  Backend, Listen, TunnelError, add_tunnel, collect, Collected, finish, add_tunnels, empty_item,
}

-- `net.Listen` opens a new listener.
abbrev pub OpensNew : Listen → Type 0
OpensNew listen =
    (network address : Bytes) (opened : List ℕ) (l : ℕ)
    → listen network address opened ≡ some l
    → holds l opened ≡ false

-- The listeners of the item are those opened since the batch began.
pub record Tracks (before : List ℕ) (i : RegistryItem) (opened : List ℕ) : Type 0 where
  pub all : (k : ℕ) → holds k opened ≡ (holds k i.listeners || holds k before)
  pub new : (k : ℕ) → holds k i.listeners ≡ true → holds k before ≡ false

pub Tracks-empty : (before : List ℕ) → Tracks before empty_item before
unfolding holds
Tracks-empty before = record { all = λ k. refl; new = λ k h. cc }

-- What a successful round does, for a stream and for an http tunnel.
abbrev pub Adds : Listen → Bytes → Tunnel → RegistryItem → RegistryItem → List ℕ → List ℕ → Type 0
Adds listen base_domain t i j opened opened' =
    ((is_stream t.protocol ≡ true)
      × ((l : ℕ) × (listen t.protocol t.addr opened ≡ some l)
          × (j ≡ record i { listeners = i.listeners ++ (l ∷ []) })
          × (opened' ≡ l ∷ opened)))
    ⊎ ((is_stream t.protocol ≡ false)
        × (is_http t.protocol ≡ true)
        × (valid_subdomain_label t.host ≡ true)
        × (j ≡ record i { hosts = i.hosts ++ (http_full_host base_domain t.host ∷ []) })
        × (opened' ≡ opened))

pub add_tunnel-Adds :
    (listen : Listen) (base_domain name : Bytes) (t : Tunnel) (i j : RegistryItem)
    (opened opened' : List ℕ)
    → add_tunnel listen base_domain name t i opened ≡ ok (j, opened')
    → Adds listen base_domain t i j opened opened'
unfolding add_tunnel
add_tunnel-Adds listen base_domain name t i j opened opened' e = ground arith

Tracks-cons :
    (before : List ℕ) (i : RegistryItem) (opened : List ℕ) (j : RegistryItem) (opened' : List ℕ)
    (l : ℕ)
    → Tracks before i opened
    → holds l opened ≡ false
    → j.listeners ≡ i.listeners ++ (l ∷ [])
    → opened' ≡ l ∷ opened
    → Tracks before j opened'
unfolding holds
Tracks-cons before i opened j opened' l v fresh ej eo = record {
  all = λ k. ground (arith, v.all k, holds-append k i.listeners (l ∷ []));
  new = λ k h. ground (arith, v.all k, v.all l, v.new k, holds-append k i.listeners (l ∷ []));
}

Tracks-same :
    (before : List ℕ) (i : RegistryItem) (opened : List ℕ) (j : RegistryItem) (opened' : List ℕ)
    → Tracks before i opened
    → j.listeners ≡ i.listeners
    → opened' ≡ opened
    → Tracks before j opened'
Tracks-same before i opened j opened' v ej eo = record {
  all = λ k. ground (arith, v.all k);
  new = λ k h. ground (arith, v.new k);
}

pub rolled_back :
    (before : List ℕ) (i : RegistryItem) (opened : List ℕ) (k : ℕ)
    → Tracks before i opened
    → holds k (discard_all i.listeners opened) ≡ holds k before
rolled_back before i opened k v =
    ground (arith, v.all k, v.new k, holds-discard_all k i.listeners opened)

finish_rollback :
    (identifier : Bytes) (b b' : Backend) (c : Collected) (e : TunnelError) (k : ℕ)
    → Tracks b.open_listeners c.item c.opened
    → finish identifier b c ≡ (err e, b')
    → (b'.registry ≡ b.registry) × (holds k b'.open_listeners ≡ holds k b.open_listeners)
unfolding finish
finish_rollback identifier b b' c e k v failed =
    ground (arith, rolled_back b.open_listeners c.item c.opened k v)

module _ (listen : Listen) (base_domain : Bytes) (fresh : OpensNew listen) where
  add_tunnel-Tracks :
      (before : List ℕ) (name : Bytes) (t : Tunnel) (i j : RegistryItem) (opened opened' : List ℕ)
      → Tracks before i opened
      → add_tunnel listen base_domain name t i opened ≡ ok (j, opened')
      → Tracks before j opened'
  add_tunnel-Tracks before name t i j opened opened' v e =
      elim (add_tunnel-Adds listen base_domain name t i j opened opened' e) [
        | inl (_, (l, opens, ej, eo)) ↦
            Tracks-cons before i opened j opened' l v (fresh t.protocol t.addr opened l opens)
              (ap (λ r. r.listeners) ej) eo
        | inr (_, _, _, ej, eo) ↦
            Tracks-same before i opened j opened' v (ap (λ r. r.listeners) ej) eo
      ]

  pub collect-Tracks :
      (before : List ℕ) (ts : Dict Tunnel) (i : RegistryItem) (opened : List ℕ)
      → Tracks before i opened
      → Tracks before
          (collect listen base_domain ts i opened).item
          (collect listen base_domain ts i opened).opened
  unfolding collect
  collect-Tracks before [] i opened v = v
  collect-Tracks before ((name, t) ∷ ts) i opened v =
      elim (Result-cases (add_tunnel listen base_domain name t i opened)) [
        | inl (e, failed) ↦ rw (failed, collect) v
        | inr ((j, opened'), added) ↦
            rw (added, collect)
              (collect-Tracks before ts j opened'
                (add_tunnel-Tracks before name t i j opened opened' v added))
      ]

  -- A batch that fails leaves the registry as it was, and exactly the listeners open that were.
  pub add_tunnels_rollback :
      (tunnels : Dict Tunnel) (identifier : Bytes) (b b' : Backend) (e : TunnelError) (k : ℕ)
      → add_tunnels listen base_domain tunnels identifier b ≡ (err e, b')
      → (b'.registry ≡ b.registry) × (holds k b'.open_listeners ≡ holds k b.open_listeners)
  unfolding add_tunnels
  add_tunnels_rollback tunnels identifier b b' e k failed =
      finish_rollback identifier b b' _ e k
        (collect-Tracks b.open_listeners tunnels empty_item b.open_listeners
          (Tracks-empty b.open_listeners))
        failed

-- The public hosts and the number of listeners that a batch asks for.
abbrev pub hosts_of : Bytes → Dict Tunnel → List Bytes
hosts_of base_domain [] = []
hosts_of base_domain ((name, t) ∷ ts) =
    if is_stream t.protocol
    then hosts_of base_domain ts
    else http_full_host base_domain t.host ∷ hosts_of base_domain ts

abbrev pub streams : Dict Tunnel → ℕ
streams [] = 0
streams ((name, t) ∷ ts) = if is_stream t.protocol then suc (streams ts) else streams ts

-- A stream, or an http tunnel with a DNS label for its host.
abbrev pub IsServed : Bytes × Tunnel → Type 0
IsServed (name, t) =
    (is_stream t.protocol ≡ true)
    ⊎ ((is_http t.protocol ≡ true) × (valid_subdomain_label t.host ≡ true))

pub record Served (base_domain : Bytes) (ts : Dict Tunnel) (i j : RegistryItem) : Type 0 where
  pub hosts : j.hosts ≡ i.hosts ++ hosts_of base_domain ts
  pub listeners : length j.listeners ≡ length i.listeners + streams ts
  pub served : All IsServed ts

Served-cons :
    (listen : Listen) (base_domain name : Bytes) (t : Tunnel) (ts : Dict Tunnel)
    → (i j k : RegistryItem) (opened opened' : List ℕ)
    → Adds listen base_domain t i j opened opened'
    → Served base_domain ts j k
    → Served base_domain ((name, t) ∷ ts) i k
Served-cons listen base_domain name t ts i j k opened opened' (inl (stream, (l, _, ej, _))) v =
    record {
      hosts = ground (arith, v.hosts);
      listeners = ground (arith, v.listeners, length-append i.listeners (l ∷ []));
      served = (inl stream, v.served);
    }
Served-cons listen base_domain name t ts i j k opened opened' (inr (other, http, valid, ej, _)) v =
    record {
      hosts = ground (
        arith,
        v.hosts,
        append_assoc i.hosts (http_full_host base_domain t.host ∷ []) (hosts_of base_domain ts),
      );
      listeners = ground (arith, v.listeners);
      served = (inr (http, valid), v.served);
    }

collect-Served :
    (listen : Listen) (base_domain : Bytes) (ts : Dict Tunnel) (i : RegistryItem) (opened : List ℕ)
    → (collect listen base_domain ts i opened).result ≡ ok tt
    → Served base_domain ts i (collect listen base_domain ts i opened).item
unfolding collect
collect-Served listen base_domain [] i opened e = record {
  hosts = sym (append-nil i.hosts);
  listeners = omega arith;
  served = tt;
}
collect-Served listen base_domain ((name, t) ∷ ts) i opened e =
    elim (Result-cases (add_tunnel listen base_domain name t i opened)) [
      | inl (f, failed) ↦ absurd (ground arith)
      | inr ((j, opened'), added) ↦
          rw (added, collect)
            (Served-cons listen base_domain name t ts i j _ opened opened'
              (add_tunnel-Adds listen base_domain name t i j opened opened' added)
              (collect-Served listen base_domain ts j opened' (ground arith)))
    ]

pub finish_success :
    (identifier : Bytes) (b b' : Backend) (c : Collected)
    → finish identifier b c ≡ (ok tt, b')
    → (c.result ≡ ok tt)
      × (set c.item identifier b.registry ≡ ok b'.registry)
      × (b'.open_listeners ≡ c.opened)
unfolding finish
finish_success identifier b b' c e = ground arith

-- A batch that succeeds gives the client an item with the public hosts of the http tunnels and one
-- listener for each stream; every tunnel of the batch is served, each host resolves to the client,
-- and exactly the item's listeners are open besides those that were open before.
pub add_tunnels_success :
    (listen : Listen) (base_domain : Bytes) (tunnels : Dict Tunnel) (identifier : Bytes)
    → (b b' : Backend) (host : Bytes) (k : ℕ) → OpensNew listen
    → add_tunnels listen base_domain tunnels identifier b ≡ (ok tt, b')
    → (i : RegistryItem) × (lookup identifier b'.registry.items ≡ some (item i))
      × (i.hosts ≡ hosts_of base_domain tunnels)
      × (length i.listeners ≡ streams tunnels)
      × All IsServed tunnels
      × (lookup (trim_port host) b'.registry.hosts ≡ (
          if elem (trim_port host) (names (hosts_of base_domain tunnels))
          then some identifier
          else lookup (trim_port host) b.registry.hosts))
      × (holds k b'.open_listeners ≡ (holds k i.listeners || holds k b.open_listeners))
unfolding add_tunnels
add_tunnels_success listen base_domain tunnels identifier b b' host k fresh e =
    let c = collect listen base_domain tunnels empty_item b.open_listeners in
    let (good, stored, opened) = finish_success identifier b b' c e in
    let v = collect-Served listen base_domain tunnels empty_item b.open_listeners good in
    let w =
      collect-Tracks listen base_domain fresh b.open_listeners tunnels empty_item b.open_listeners
        (Tracks-empty b.open_listeners) in
    let (_, _, r) = set_result c.item identifier b.registry stored in
    (
      c.item,
      rw r (lookup-insert_self identifier (item c.item) b.registry.items),
      v.hosts,
      omega (arith, v.listeners),
      v.served,
      rw (r, lookup-register (trim_port host) c.item.hosts identifier b.registry.hosts, v.hosts),
      rw opened (w.all k),
    )

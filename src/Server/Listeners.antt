-- ===== src/Server/Listeners.antt =====
-- No listener is leaked: the open listeners are exactly those of the items of the registry.
use go_tcp_tunnel.Base.{
  ℕ, true, ◌≡◌, ◌⊎◌, inl, inr, ap, sym, ◌∙◌, arith, none, some, Bytes, ok, holds, discard_all,
  holds-discard_all, Bool-cases, Option-cases, Result-cases, beq_iff,
}
use go_tcp_tunnel.Base.Dict.{Dict, lookup, insert, lookup-insert, lookup-insert_self}
use go_tcp_tunnel.Proto.{Tunnel}
use go_tcp_tunnel.Registry.{
  Registry, RegistryItem, Entry, void, item, new_registry, clear, subscribe,
}
use go_tcp_tunnel.Registry.Invariant.{
  new_registry-IsConsistent, IsConsistent, clear-IsConsistent, set-IsConsistent,
  subscribe-IsConsistent,
}
use go_tcp_tunnel.Registry.Spec.{set_result}
use go_tcp_tunnel.Server.{
  new_server, Backend, Listen, collect, add_tunnels, empty_item, disconnected,
}
use go_tcp_tunnel.Server.Tunnels.{
  OpensNew, Tracks, Tracks-empty, collect-Tracks, finish_success, add_tunnels_rollback,
}

-- Some item holds the listener.
pub record Owner (items : Dict Entry) (k : ℕ) : Type 0 where
  pub identifier : Bytes
  pub found : RegistryItem
  pub stored : lookup identifier items ≡ some (item found)
  pub held : holds k found.listeners ≡ true

pub record IsTidy (b : Backend) : Type 0 where
  pub consistent : IsConsistent b.registry
  pub owned : (k : ℕ) → holds k b.open_listeners ≡ true → Owner b.registry.items k
  pub opened :
      (k : ℕ) (a : Bytes) (i : RegistryItem)
      → lookup a b.registry.items ≡ some (item i)
      → holds k i.listeners ≡ true
      → holds k b.open_listeners ≡ true
  pub once :
      (k : ℕ) (a c : Bytes) (i j : RegistryItem)
      → lookup a b.registry.items ≡ some (item i)
      → lookup c b.registry.items ≡ some (item j)
      → holds k i.listeners ≡ true
      → holds k j.listeners ≡ true
      → a ≡ c

pub new_server-IsTidy : IsTidy new_server.state
unfolding new_server new_registry lookup holds
new_server-IsTidy = record {
  consistent = new_registry-IsConsistent;
  owned = λ k h. cc;
  opened = λ k a i h. cc;
  once = λ k a c i j h. cc;
}

-- The registry and the listeners after the item of a client is cleared.
abbrev Cleared : Bytes → RegistryItem → Backend → Backend → Type 0
Cleared identifier i b b' =
    (b'.registry.items ≡ insert identifier void b.registry.items)
    × (b'.open_listeners ≡ discard_all i.listeners b.open_listeners)

disconnected_cases :
    (identifier : Bytes) (b : Backend)
    → (disconnected identifier b ≡ b)
      ⊎ ((i : RegistryItem) × (lookup identifier b.registry.items ≡ some (item i))
          × Cleared identifier i b (disconnected identifier b))
unfolding disconnected clear
disconnected_cases identifier b = elim (Option-cases (lookup identifier b.registry.items)) [
  | inl e ↦ inl (ground arith)
  | inr (void, e) ↦ inl (ground arith)
  | inr (item i, e) ↦ inr (i, e, (ground arith, ground arith))
]

subscribe_new :
    (identifier : Bytes) (r : Registry)
    → lookup identifier r.items ≡ none
    → subscribe identifier r ≡ record r { items = insert identifier void r.items }
unfolding subscribe
subscribe_new identifier r e = ground arith

disconnected_registry :
    (identifier : Bytes) (b : Backend)
    → (disconnected identifier b).registry ≡ (clear identifier b.registry).1
unfolding disconnected
disconnected_registry identifier b = ground arith

module _ (identifier : Bytes) (b : Backend) (v : IsTidy b) where
  Cleared-IsTidy :
      (i : RegistryItem) (b' : Backend)
      → lookup identifier b.registry.items ≡ some (item i)
      → IsConsistent b'.registry
      → Cleared identifier i b b'
      → IsTidy b'
  Cleared-IsTidy i b' e w (items, listeners) = record {
    consistent = w;
    owned = λ k h.
        let was = v.owned k (ground (arith, holds-discard_all k i.listeners b.open_listeners)) in
        record {
          identifier = was.identifier;
          found = was.found;
          stored = ground (
            arith,
            was.stored,
            was.held,
            lookup-insert identifier was.identifier void b.registry.items,
            beq_iff identifier was.identifier,
            holds-discard_all k i.listeners b.open_listeners,
          );
          held = was.held;
        };
    opened = λ k a j g h. ground (
      arith,
      lookup-insert identifier a void b.registry.items,
      v.opened k a j,
      v.once k identifier a i j e,
      holds-discard_all k i.listeners b.open_listeners,
      beq_iff identifier a,
    );
    once = λ k a c j l f g h m. ground (
      arith,
      lookup-insert identifier a void b.registry.items,
      lookup-insert identifier c void b.registry.items,
      v.once k a c j l,
    );
  }

  disconnected-IsConsistent : IsConsistent (disconnected identifier b).registry
  disconnected-IsConsistent =
      rw (disconnected_registry identifier b)
        (clear-IsConsistent b.registry v.consistent identifier)

  -- Clearing the resources of a client that went away leaks no listener.
  pub disconnected-IsTidy : IsTidy (disconnected identifier b)
  disconnected-IsTidy = elim (disconnected_cases identifier b) [
    | inl same ↦ rw same v
    | inr (i, e, done) ↦
        Cleared-IsTidy i (disconnected identifier b) e disconnected-IsConsistent done
  ]

  -- A new item for a subscribed client, whose listeners were opened since.
  stored-IsTidy :
      (i : RegistryItem) (b' : Backend)
      → lookup identifier b.registry.items ≡ some void
      → IsConsistent b'.registry
      → b'.registry.items ≡ insert identifier (item i) b.registry.items
      → Tracks b.open_listeners i b'.open_listeners
      → IsTidy b'
  stored-IsTidy i b' e w items t = record {
    consistent = w;
    owned = λ k h. elim (Bool-cases (holds k i.listeners)) [
      | inl new ↦ record {
        identifier = identifier;
        found = i;
        stored = rw items (lookup-insert_self identifier (item i) b.registry.items);
        held = new;
      }
      | inr old ↦
          let was = v.owned k (ground (arith, t.all k)) in
          record {
            identifier = was.identifier;
            found = was.found;
            stored = ground (
              arith,
              was.stored,
              lookup-insert identifier was.identifier (item i) b.registry.items,
              beq_iff identifier was.identifier,
            );
            held = was.held;
          }
    ];
    opened = λ k a j g h. ground (
      arith,
      lookup-insert identifier a (item i) b.registry.items,
      v.opened k a j,
      t.all k,
      t.new k,
    );
    once = λ k a c j l f g h m. ground (
      arith,
      lookup-insert identifier a (item i) b.registry.items,
      lookup-insert identifier c (item i) b.registry.items,
      v.once k a c j l,
      t.new k,
      v.opened k a j,
      v.opened k c l,
      beq_iff identifier a,
      beq_iff identifier c,
    );
  }

  -- Only the order of the open listeners may differ.
  same-IsTidy :
      (b' : Backend)
      → b'.registry ≡ b.registry
      → ((k : ℕ) → holds k b'.open_listeners ≡ holds k b.open_listeners)
      → IsTidy b'
  same-IsTidy b' r o = record {
    consistent = rw r v.consistent;
    owned = λ k h. rw r (v.owned k (sym (o k) ∙ h));
    opened = λ k a i g h. o k ∙ v.opened k a i (rw r at g) h;
    once = λ k a c i j f g h m. v.once k a c i j (rw r at f) (rw r at g) h m;
  }

  pub subscribe-IsTidy : IsTidy (record b { registry = subscribe identifier b.registry })
  unfolding subscribe
  subscribe-IsTidy = elim (Option-cases (lookup identifier b.registry.items)) [
    | inr (x, e) ↦ rw (e, subscribe) v
    | inl e ↦
        rw (e, subscribe)
          (record {
            consistent =
                rw (sym (subscribe_new identifier b.registry e))
                  (subscribe-IsConsistent b.registry v.consistent identifier);
            owned = λ k h.
                let was = v.owned k h in
                record {
                  identifier = was.identifier;
                  found = was.found;
                  stored = ground (
                    arith,
                    was.stored,
                    lookup-insert identifier was.identifier void b.registry.items,
                    beq_iff identifier was.identifier,
                  );
                  held = was.held;
                };
            opened = λ k a j g h.
                ground (arith, lookup-insert identifier a void b.registry.items, v.opened k a j);
            once = λ k a c j l f g h m. ground (
              arith,
              lookup-insert identifier a void b.registry.items,
              lookup-insert identifier c void b.registry.items,
              v.once k a c j l,
            );
          })
  ]

module _ (listen : Listen) (base_domain : Bytes) (fresh : OpensNew listen) where
  added-IsTidy :
      (tunnels : Dict Tunnel) (identifier : Bytes) (b b' : Backend)
      → IsTidy b
      → add_tunnels listen base_domain tunnels identifier b ≡ (ok tt, b')
      → IsTidy b'
  unfolding add_tunnels
  added-IsTidy tunnels identifier b b' v e =
      let c = collect listen base_domain tunnels empty_item b.open_listeners in
      let (_, stored, opened) = finish_success identifier b b' c e in
      let (_, was_void, r) = set_result c.item identifier b.registry stored in
      let t =
        collect-Tracks listen base_domain fresh b.open_listeners tunnels empty_item b.open_listeners
          (Tracks-empty b.open_listeners) in
      stored-IsTidy identifier b v c.item b' was_void
        (set-IsConsistent b.registry v.consistent identifier c.item stored) (ap (λ g. g.items) r)
        (rw opened t)

  -- Whether the batch is added or taken back, no listener is leaked.
  pub add_tunnels-IsTidy :
      (tunnels : Dict Tunnel) (identifier : Bytes) (b : Backend)
      → IsTidy b
      → IsTidy (add_tunnels listen base_domain tunnels identifier b).1
  add_tunnels-IsTidy tunnels identifier b v =
      let b' = (add_tunnels listen base_domain tunnels identifier b).1 in
      elim (Result-cases (add_tunnels listen base_domain tunnels identifier b).0) [
        | inl (x, e) ↦
            let back = λ (k : ℕ).
              add_tunnels_rollback listen base_domain fresh tunnels identifier b b' x k
                (λ i. (e i, b')) in
            same-IsTidy identifier b v b' (back 0).0 (λ k. (back k).1)
        | inr (_, e) ↦ added-IsTidy tunnels identifier b b' v (λ i. (e i, b'))
      ]

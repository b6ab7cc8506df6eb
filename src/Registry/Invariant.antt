-- ===== src/Registry/Invariant.antt =====
-- The two tables of the registry agree, and every method keeps it so.
use go_tcp_tunnel.Base.{
  ◌≡◌, inl, inr, Bool, true, false, none, some, Option, Bytes, elem, beq_iff, arith, Option-cases,
  ok,
}
use go_tcp_tunnel.Base.Dict.{lookup, lookup-insert, lookup-erase}
use go_tcp_tunnel.Registry.{
  Registry, RegistryItem, Entry, void, item, new_registry, subscribe, unsubscribe, set, set_entry,
  clear,
}
use go_tcp_tunnel.Registry.Hosts.{
  names, occupied, lookup-register, lookup-unregister, occupied-none,
}

-- Is `k` the name of one of the hosts of the entry?
unfoldable pub owns : Bytes → Option Entry → Bool
owns k none = false
owns k (some void) = false
owns k (some (item i)) = elem k (names i.hosts)

-- The table of hosts is exactly what the items say.
pub record IsConsistent (r : Registry) : Type 0 where
  pub sound :
      (k owner : Bytes) → lookup k r.hosts ≡ some owner → owns k (lookup owner r.items) ≡ true
  pub complete :
      (k owner : Bytes) → owns k (lookup owner r.items) ≡ true → lookup k r.hosts ≡ some owner

pub new_registry-IsConsistent : IsConsistent new_registry
unfolding new_registry lookup owns
new_registry-IsConsistent = record { sound = λ k owner h. cc; complete = λ k owner h. cc }

module _ (r : Registry) (v : IsConsistent r) (identifier : Bytes) where
  pub subscribe-IsConsistent : IsConsistent (subscribe identifier r)
  unfolding subscribe owns
  subscribe-IsConsistent = record {
    sound = λ k owner h. ground (
      arith,
      v.sound k owner,
      lookup-insert identifier owner void r.items,
      beq_iff identifier owner,
    );
    complete = λ k owner h. ground (
      arith,
      v.complete k owner,
      lookup-insert identifier owner void r.items,
      beq_iff identifier owner,
    );
  }

  pub unsubscribe-IsConsistent : IsConsistent (unsubscribe identifier r).1
  unfolding unsubscribe owns
  unsubscribe-IsConsistent = elim (Option-cases (lookup identifier r.items)) [
    | inl e ↦ rw (e, unsubscribe) v
    | inr (void, e) ↦
        rw (e, unsubscribe)
          (record {
            sound = λ k owner h. ground (
              arith,
              v.sound k owner,
              lookup-erase identifier owner r.items,
              beq_iff identifier owner,
            );
            complete = λ k owner h. ground (
              arith,
              v.complete k owner,
              lookup-erase identifier owner r.items,
              beq_iff identifier owner,
            );
          })
    | inr (item i, e) ↦
        rw (e, unsubscribe)
          (record {
            sound = λ k owner h. ground (
              arith,
              v.sound k owner,
              lookup-erase identifier owner r.items,
              beq_iff identifier owner,
              lookup-unregister k i.hosts r.hosts,
            );
            complete = λ k owner h. ground (
              arith,
              v.complete k owner,
              v.complete k identifier,
              lookup-erase identifier owner r.items,
              beq_iff identifier owner,
              lookup-unregister k i.hosts r.hosts,
            );
          })
  ]

  pub clear-IsConsistent : IsConsistent (clear identifier r).1
  unfolding clear owns
  clear-IsConsistent = elim (Option-cases (lookup identifier r.items)) [
    | inl e ↦ rw (e, clear) v
    | inr (void, e) ↦ rw (e, clear) v
    | inr (item i, e) ↦
        rw (e, clear)
          (record {
            sound = λ k owner h. ground (
              arith,
              v.sound k owner,
              lookup-insert identifier owner void r.items,
              beq_iff identifier owner,
              lookup-unregister k i.hosts r.hosts,
            );
            complete = λ k owner h. ground (
              arith,
              v.complete k owner,
              v.complete k identifier,
              lookup-insert identifier owner void r.items,
              beq_iff identifier owner,
              lookup-unregister k i.hosts r.hosts,
            );
          })
  ]

  set_void-IsConsistent :
      (i : RegistryItem) (r' : Registry)
      → lookup identifier r.items ≡ some void
      → set_entry i identifier r (some void) ≡ ok r'
      → IsConsistent r'
  unfolding set_entry owns
  set_void-IsConsistent i r' e done = elim (Option-cases (occupied i.hosts r.hosts)) [
    | inl free ↦ record {
      sound = λ k owner h. ground (
        arith,
        v.sound k owner,
        lookup-insert identifier owner (item i) r.items,
        beq_iff identifier owner,
        lookup-register k i.hosts identifier r.hosts,
      );
      complete = λ k owner h. ground (
        arith,
        v.complete k owner,
        lookup-insert identifier owner (item i) r.items,
        beq_iff identifier owner,
        lookup-register k i.hosts identifier r.hosts,
        occupied-none k i.hosts r.hosts free,
      );
    }
    | inr (h, taken) ↦ absurd (ground arith)
  ]

  pub set-IsConsistent :
      (i : RegistryItem) {r' : Registry} → set i identifier r ≡ ok r' → IsConsistent r'
  unfolding set
  set-IsConsistent i {r'} done = elim (Option-cases (lookup identifier r.items)) [
    | inl e ↦ absurd (unfold set_entry in ground arith)
    | inr (item j, e) ↦ absurd (unfold set_entry in ground arith)
    | inr (void, e) ↦ set_void-IsConsistent i r' e (rw (← e) done)
  ]

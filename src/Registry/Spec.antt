-- ===== src/Registry/Spec.antt =====
-- Histories of calls of the registry, and what a caller may rely on after any of them.
use go_tcp_tunnel.Base.{
  ◌≡◌, ◌≢◌, ◌↔◌, refl, sym, inl, inr, true, false, none, some, Option, List, [], ◌∷◌, Bytes, elem,
  beq, beq_iff, if◌then◌else◌, arith, Option-cases, Bool-cases, Result, ok, err,
}
use go_tcp_tunnel.Base.Dict.{lookup, insert, lookup-insert, lookup-insert_self, lookup-erase}
use go_tcp_tunnel.HostPort.{trim_port}
use go_tcp_tunnel.Registry.{
  Registry, RegistryItem, Entry, void, item, new_registry, subscribe, unsubscribe, set, set_entry,
  clear, subscriber, is_subscribed, RegistryError,
}
use go_tcp_tunnel.Registry.Hosts.{
  names, register, occupied, lookup-register, lookup-unregister, occupied-none, occupied-some,
  elem-names,
}
use go_tcp_tunnel.Registry.Invariant.{
  owns, IsConsistent, new_registry-IsConsistent, subscribe-IsConsistent, unsubscribe-IsConsistent,
  clear-IsConsistent, set-IsConsistent,
}

pub data Call : Type 0 where
  subscribes unsubscribes clears : Bytes → Call
  sets : RegistryItem → Bytes → Call

-- A call that fails leaves the registry as it was.
abbrev pub after : Registry → Result RegistryError Registry → Registry
after r (ok r') = r'
after r (err e) = r

unfoldable pub step : Call → Registry → Registry
step (subscribes identifier) r = subscribe identifier r
step (unsubscribes identifier) r = (unsubscribe identifier r).1
step (clears identifier) r = (clear identifier r).1
step (sets i identifier) r = after r (set i identifier r)

unfoldable pub run : List Call → Registry → Registry
run [] r = r
run (c ∷ cs) r = run cs (step c r)

after-IsConsistent :
    (r : Registry) (v : IsConsistent r) (identifier : Bytes) (i : RegistryItem)
    → (o : Result RegistryError Registry) → set i identifier r ≡ o
    → IsConsistent (after r o)
after-IsConsistent r v identifier i (ok r') e = set-IsConsistent r v identifier i e
after-IsConsistent r v identifier i (err _) e = v

pub step-IsConsistent : (c : Call) (r : Registry) → IsConsistent r → IsConsistent (step c r)
unfolding step
step-IsConsistent (subscribes identifier) r v = subscribe-IsConsistent r v identifier
step-IsConsistent (unsubscribes identifier) r v = unsubscribe-IsConsistent r v identifier
step-IsConsistent (clears identifier) r v = clear-IsConsistent r v identifier
step-IsConsistent (sets i identifier) r v = after-IsConsistent r v identifier i _ refl

pub run-IsConsistent : (cs : List Call) (r : Registry) → IsConsistent r → IsConsistent (run cs r)
unfolding run
run-IsConsistent [] r v = v
run-IsConsistent (c ∷ cs) r v = run-IsConsistent cs (step c r) (step-IsConsistent c r v)

-- After any history of calls on a new registry, a host resolves to a client exactly when the item
-- of that client holds it.
pub subscriber_iff :
    (cs : List Call) (host_port owner : Bytes)
    → (subscriber host_port (run cs new_registry) ≡ some owner)
      ↔ (owns (trim_port host_port) (lookup owner (run cs new_registry).items) ≡ true)
unfolding subscriber
subscriber_iff cs host_port owner =
    let v = run-IsConsistent cs new_registry new_registry-IsConsistent in
    (v.sound (trim_port host_port) owner, v.complete (trim_port host_port) owner)

module _ (r : Registry) (v : IsConsistent r) where
  -- Two clients never own one host.
  pub owns_unique :
      (k a b : Bytes) → owns k (lookup a r.items) ≡ true → owns k (lookup b r.items) ≡ true → a ≡ b
  owns_unique k a b p q = ground (arith, v.complete k a p, v.complete k b q)

  set_needs :
      (i : RegistryItem) (identifier : Bytes) {r' : Registry}
      → set i identifier r ≡ ok r'
      → (lookup identifier r.items ≡ some void)
        × ((k owner : Bytes)
            → elem k (names i.hosts) ≡ true
            → owns k (lookup owner r.items) ≡ false)
  unfolding set set_entry
  set_needs i identifier done = elim (Option-cases (lookup identifier r.items)) [
    | inl e ↦ absurd (ground arith)
    | inr (item j, e) ↦ absurd (ground arith)
    | inr (void, e) ↦ elim (Option-cases (occupied i.hosts r.hosts)) [
      | inl free ↦ (
        e,
        λ k owner m. ground (arith, occupied-none k i.hosts r.hosts free m, v.complete k owner),
      )
      | inr (h, taken) ↦ absurd (ground arith)
    ]
  ]

  set_succeeds :
      (i : RegistryItem) (identifier : Bytes)
      → (lookup identifier r.items ≡ some void)
        × ((k owner : Bytes)
            → elem k (names i.hosts) ≡ true
            → owns k (lookup owner r.items) ≡ false)
      → (r' : Registry) × (set i identifier r ≡ ok r')
  unfolding set set_entry
  set_succeeds i identifier (e, unowned) = elim (Option-cases (occupied i.hosts r.hosts)) [
    | inl free ↦ (
      record {
        items = insert identifier (item i) r.items;
        hosts = register i.hosts identifier r.hosts;
      },
      ground arith,
    )
    | inr (h, taken) ↦
        let (m, (owner, has)) = occupied-some i.hosts r.hosts h taken in
        absurd (
          ground (
            arith,
            unowned (trim_port h) owner (elem-names h i.hosts m),
            v.sound (trim_port h) owner has,
          ))
  ]

  -- `set` succeeds exactly for a subscribed client with no item, none of whose hosts has an owner.
  pub set-ok_iff :
      (i : RegistryItem) (identifier : Bytes)
      → ((r' : Registry) × (set i identifier r ≡ ok r')) ↔ (
          (lookup identifier r.items ≡ some void)
          × ((k owner : Bytes)
              → elem k (names i.hosts) ≡ true
              → owns k (lookup owner r.items) ≡ false))
  set-ok_iff i identifier = (λ (r', done). set_needs i identifier done, set_succeeds i identifier)

pub unsubscribe-items :
    (identifier : Bytes) (r : Registry) (j : Bytes)
    → lookup j (unsubscribe identifier r).1.items
      ≡ (if beq identifier j then none else lookup j r.items)
unfolding unsubscribe
unsubscribe-items identifier r j =
    ground (arith, lookup-erase identifier j r.items, beq_iff identifier j)

not_owned : (k : Bytes) (e : Option Entry) → e ≡ none → owns k e ≡ false
unfolding owns
not_owned k none e = refl
not_owned k (some _) e = cc

pub set_result :
    (i : RegistryItem) (identifier : Bytes) (r : Registry) {r' : Registry}
    → set i identifier r ≡ ok r'
    → (occupied i.hosts r.hosts ≡ none)
      × (lookup identifier r.items ≡ some void)
      × (r' ≡ record {
        items = insert identifier (item i) r.items;
        hosts = register i.hosts identifier r.hosts;
      })
unfolding set set_entry
set_result i identifier r done = ground arith

-- What `set` wrote, `clear` takes back: the item is returned and both tables read as before.
pub clear-set :
    (i : RegistryItem) (identifier : Bytes) (r : Registry) {r' : Registry}
    → IsConsistent r
    → set i identifier r ≡ ok r'
    → ((clear identifier r').0 ≡ some i)
      × ((k : Bytes) → lookup k (clear identifier r').1.hosts ≡ lookup k r.hosts)
      × ((j : Bytes) → lookup j (clear identifier r').1.items ≡ lookup j r.items)
unfolding clear set set_entry
clear-set i identifier r {r'} v done =
    let (free, e, kept) = set_result i identifier r done in
    let back = lookup-insert_self identifier (item i) r.items in
    rw (kept, clear)
      (
        ground (arith, back),
        λ k. ground (
          arith,
          back,
          lookup-unregister k i.hosts (register i.hosts identifier r.hosts),
          lookup-register k i.hosts identifier r.hosts,
          occupied-none k i.hosts r.hosts free,
        ),
        λ j. ground (
          arith,
          back,
          lookup-insert identifier j void (insert identifier (item i) r.items),
          lookup-insert identifier j (item i) r.items,
          beq_iff identifier j,
        ),
      )

-- The owner, unless it is the client that left.
abbrev pub without : Bytes → Option Bytes → Option Bytes
without identifier none = none
without identifier (some owner) = if beq identifier owner then none else some owner

without_other :
    (identifier : Bytes) (o : Option Bytes) → o ≢ some identifier → without identifier o ≡ o
without_other identifier none h = refl
without_other identifier (some owner) h = ground (arith, beq_iff identifier owner)

without_self :
    (identifier : Bytes) (o : Option Bytes) → o ≡ some identifier → without identifier o ≡ none
without_self identifier none h = cc
without_self identifier (some owner) h = ground (arith, beq_iff identifier owner)

unsubscribe-hosts :
    (identifier k : Bytes) (r : Registry)
    → IsConsistent r
    → lookup k (unsubscribe identifier r).1.hosts ≡ without identifier (lookup k r.hosts)
unfolding unsubscribe owns
unsubscribe-hosts identifier k r v = elim (Option-cases (lookup identifier r.items)) [
  | inl e ↦
      rw (e, unsubscribe)
        (sym (
          without_other identifier (lookup k r.hosts)
            (λ g. ground (arith, e, v.sound k identifier g))))
  | inr (void, e) ↦
      rw (e, unsubscribe)
        (sym (
          without_other identifier (lookup k r.hosts)
            (λ g. ground (arith, e, v.sound k identifier g))))
  | inr (item i, e) ↦
      rw (e, unsubscribe, lookup-unregister k i.hosts r.hosts)
        (elim (Bool-cases (elem k (names i.hosts))) [
          | inl m ↦ rw m (
              sym (
                without_self identifier (lookup k r.hosts)
                  (v.complete k identifier (ground arith))))
          | inr m ↦ rw m (
              sym (
                without_other identifier (lookup k r.hosts)
                  (λ g. ground (arith, e, v.sound k identifier g))))
        ])
]

-- After `Unsubscribe` the client is unknown, its hosts are free, and every host of another client
-- resolves as before.
pub unsubscribe_forgets :
    (identifier host : Bytes) (r : Registry)
    → IsConsistent r
    → (is_subscribed identifier (unsubscribe identifier r).1 ≡ false)
      × (subscriber host (unsubscribe identifier r).1 ≡ without identifier (subscriber host r))
unfolding is_subscribed subscriber
unsubscribe_forgets identifier host r v = (
  ground (arith, unsubscribe-items identifier r identifier, beq_iff identifier identifier),
  unsubscribe-hosts identifier (trim_port host) r v,
)

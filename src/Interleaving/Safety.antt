-- ===== src/Interleaving/Safety.antt =====
-- No interleaving of the goroutines loses or shares a listener.
use go_tcp_tunnel.Base.{
  ℕ, false, ◌≡◌, inl, inr, refl, ap, sym, ◌∙◌, arith, none, some, List, [], ◌∷◌, ◌++◌, Bytes, beq,
  beq_iff, if◌then◌else◌, ok, holds, discard, subst,
}
use go_tcp_tunnel.Base.Dict.{Dict, lookup, lookup-insert}
use go_tcp_tunnel.Proto.{Tunnel}
use go_tcp_tunnel.Registry.{
  Registry, RegistryItem, void, item, new_registry, subscribe, unsubscribe, clear,
}
use go_tcp_tunnel.Registry.Invariant.{
  IsConsistent, new_registry-IsConsistent, subscribe-IsConsistent, unsubscribe-IsConsistent,
  set-IsConsistent, clear-IsConsistent,
}
use go_tcp_tunnel.Registry.Spec.{set_result, unsubscribe-items}
use go_tcp_tunnel.Server.{Listen, add_tunnel}
use go_tcp_tunnel.Server.Tunnels.{OpensNew, add_tunnel-Adds}
use go_tcp_tunnel.Interleaving.{
  Pc, idle, adding, closing, returned, Move, begin, add, refuse, commit, conflict, join, disconnect,
  pass, leave, close, finish, System, update, Step, pick, start, Reach, here, next, listeners_of,
  held, own,
}
use go_tcp_tunnel.Interleaving.Owners.{
  Holder, Distinct, by_client, by_goroutine, pointwise, IsSound, same-IsSound, handed-IsSound,
  opened-IsSound, closed-IsSound,
}

pub record Inv (r : Registry) (opened : List ℕ) (pc : ℕ → Pc) : Type 0 where
  pub consistent : IsConsistent r
  pub sound : IsSound (own r pc) opened

subscribe-listeners_of :
    (i a : Bytes) (r : Registry)
    → listeners_of (lookup a (subscribe i r).items) ≡ listeners_of (lookup a r.items)
unfolding subscribe
subscribe-listeners_of i a r = ground (arith, lookup-insert i a void r.items, beq_iff i a)

clear-listeners_of :
    (i a : Bytes) (r : Registry)
    → listeners_of (lookup a (clear i r).1.items)
      ≡ (if beq a i then [] else listeners_of (lookup a r.items))
unfolding clear
clear-listeners_of i a r = ground (arith, lookup-insert i a void r.items, beq_iff i a, beq_iff a i)

clear-some :
    (i : Bytes) (r : Registry) (it : RegistryItem)
    → (clear i r).0 ≡ some it
    → lookup i r.items ≡ some (item it)
unfolding clear
clear-some i r it e = ground arith

clear-none : (i : Bytes) (r : Registry) → (clear i r).0 ≡ none → (clear i r).1 ≡ r
unfolding clear
clear-none i r e = ground arith

unsubscribe-listeners_of :
    (i a : Bytes) (r : Registry)
    → listeners_of (lookup a (unsubscribe i r).1.items)
      ≡ (if beq a i then [] else listeners_of (lookup a r.items))
unsubscribe-listeners_of i a r = ground (arith, unsubscribe-items i r a, beq_iff i a, beq_iff a i)

unsubscribe_entry : (i : Bytes) (r : Registry) → (unsubscribe i r).0 ≡ lookup i r.items
unfolding unsubscribe
unsubscribe_entry i r = ground arith

module _ (r : Registry) (opened : List ℕ) (pc : ℕ → Pc) (v : Inv r opened pc) (n : ℕ) where
  -- Only the registry's subscriptions and the goroutine's place change.
  stays :
      (r' : Registry) (p : Pc)
      → IsConsistent r'
      → ((a : Bytes) → listeners_of (lookup a r'.items) ≡ listeners_of (lookup a r.items))
      → held p ≡ held (pc n)
      → Inv r' opened (update pc n p)
  stays r' p c e same_held = record {
    consistent = c;
    sound =
        same-IsSound (own r pc) (own r' (update pc n p)) opened v.sound
          (pointwise _ _ (λ a. e a) (λ m. ground arith));
  }

  -- The goroutine hands what it has to a client's item.
  gives :
      (r' : Registry) (i : Bytes) (p : Pc)
      → IsConsistent r'
      → listeners_of (lookup i r.items) ≡ []
      → held p ≡ []
      → ((a : Bytes)
          → listeners_of (lookup a r'.items)
            ≡ (if beq a i then held (pc n) else listeners_of (lookup a r.items)))
      → Inv r' opened (update pc n p)
  gives r' i p c empty none_left e = record {
    consistent = c;
    sound =
        handed-IsSound (own r pc) (own r' (update pc n p)) opened v.sound (by_goroutine n)
          (by_client i) refl empty (pointwise _ _ (λ a. e a) (λ m. ground arith));
  }

  -- The goroutine takes what a client's item has.
  takes :
      (r' : Registry) (i : Bytes) (p : Pc)
      → IsConsistent r'
      → held (pc n) ≡ []
      → held p ≡ listeners_of (lookup i r.items)
      → ((a : Bytes)
          → listeners_of (lookup a r'.items)
            ≡ (if beq a i then [] else listeners_of (lookup a r.items)))
      → Inv r' opened (update pc n p)
  takes r' i p c empty taken e = record {
    consistent = c;
    sound =
        handed-IsSound (own r pc) (own r' (update pc n p)) opened v.sound (by_client i)
          (by_goroutine n) refl empty (pointwise _ _ (λ a. e a) (λ m. ground arith));
  }

  opens :
      (p : Pc) (l : ℕ)
      → holds l opened ≡ false
      → held p ≡ held (pc n) ++ l ∷ []
      → Inv r (l ∷ opened) (update pc n p)
  opens p l new e = record {
    consistent = v.consistent;
    sound =
        opened-IsSound (own r pc) (own r (update pc n p)) opened v.sound (by_goroutine n) l new
          (pointwise _ _ (λ a. refl) (λ m. ground arith));
  }

  closes :
      (p : Pc) (l : ℕ) (ls : List ℕ)
      → held (pc n) ≡ l ∷ ls
      → held p ≡ ls
      → Inv r (discard l opened) (update pc n p)
  closes p l ls e f = record {
    consistent = v.consistent;
    sound =
        closed-IsSound (own r pc) (own r (update pc n p)) opened v.sound (by_goroutine n) l ls e
          (pointwise _ _ (λ a. refl) (λ m. ground arith));
  }

module _ (listen : Listen) (base_domain : Bytes) (fresh : OpensNew listen) where
  add-Inv :
      (r : Registry) (opened opened' : List ℕ) (pc : ℕ → Pc) (n : ℕ) (identifier name : Bytes)
      → (t : Tunnel) (ts rest : Dict Tunnel) (i j : RegistryItem)
      → add_tunnel listen base_domain name t i opened ≡ ok (j, opened')
      → adding identifier ts i ≡ pc n
      → Inv r opened pc
      → Inv r opened' (update pc n (adding identifier rest j))
  add-Inv r opened opened' pc n identifier name t ts rest i j e at_pc v =
      elim (add_tunnel-Adds listen base_domain name t i j opened opened' e) [
        | inl (_, (l, opens_l, ej, eo)) ↦ rw eo (
            opens r opened pc v n (adding identifier rest j) l
              (fresh t.protocol t.addr opened l opens_l)
              (ap (λ k. k.listeners) ej ∙ ap (λ p. held p ++ l ∷ []) at_pc))
        | inr (_, _, _, ej, eo) ↦ rw eo (
            stays r opened pc v n r (adding identifier rest j) v.consistent (λ a. refl)
              (ap (λ k. k.listeners) ej ∙ ap held at_pc))
      ]

  Move-Inv :
      {r r' : Registry} {opened opened' : List ℕ} {p p' : Pc}
      → Move listen base_domain r opened p r' opened' p'
      → (pc : ℕ → Pc) (n : ℕ) → p ≡ pc n
      → Inv r opened pc
      → Inv r' opened' (update pc n p')
  Move-Inv {r} {opened} (begin identifier ts) pc n e v =
      stays r opened pc v n r _ v.consistent (λ a. refl) (ap held e)
  Move-Inv {r} {opened} {opened'} (add {identifier} {name} {t} {ts} {i} {j} added) pc n e v =
      add-Inv r opened opened' pc n identifier name t ((name, t) ∷ ts) ts i j added e v
  Move-Inv {r} {opened} (refuse {identifier} {name} {t} {ts} {i} failed) pc n e v =
      stays r opened pc v n r (closing i.listeners) v.consistent (λ a. refl) (ap held e)
  Move-Inv {r} {r'} {opened} (commit {identifier} {i} done) pc n e v =
      let (_, was_void, done') = set_result i identifier r done in
      gives r opened pc v n r' identifier idle (set-IsConsistent r v.consistent identifier i done)
        (ap listeners_of was_void) refl
        (λ a. ground (
          arith,
          done',
          e,
          lookup-insert identifier a (item i) r.items,
          beq_iff identifier a,
          beq_iff a identifier,
        ))
  Move-Inv {r} {opened} (conflict {identifier} {i} failed) pc n e v =
      stays r opened pc v n r (closing i.listeners) v.consistent (λ a. refl) (ap held e)
  Move-Inv {r} {opened} (join i) pc n e v =
      stays r opened pc v n (subscribe i r) idle (subscribe-IsConsistent r v.consistent i)
        (λ a. subscribe-listeners_of i a r) (ap held e)
  Move-Inv {r} {opened} (disconnect i {it} found) pc n e v =
      takes r opened pc v n (clear i r).1 i (closing it.listeners)
        (clear-IsConsistent r v.consistent i) (sym (ap held e))
        (sym (ap listeners_of (clear-some i r it found))) (λ a. clear-listeners_of i a r)
  Move-Inv {r} {opened} (pass i none_there) pc n e v =
      stays r opened pc v n (clear i r).1 idle (clear-IsConsistent r v.consistent i)
        (λ a. ap (λ q. listeners_of (lookup a q.items)) (clear-none i r none_there)) (ap held e)
  Move-Inv {r} {opened} (leave i) pc n e v =
      takes r opened pc v n (unsubscribe i r).1 i (returned (unsubscribe i r).0)
        (unsubscribe-IsConsistent r v.consistent i) (sym (ap held e))
        (ap listeners_of (unsubscribe_entry i r)) (λ a. unsubscribe-listeners_of i a r)
  Move-Inv {r} {opened} (close {l} {ls}) pc n e v =
      closes r opened pc v n (closing ls) l ls (sym (ap held e)) refl
  Move-Inv {r} {opened} finish pc n e v =
      stays r opened pc v n r idle v.consistent (λ a. refl) (ap held e)

  start_empty : (h : Holder) → own start.registry start.pc h ≡ []
  unfolding new_registry lookup
  start_empty = pointwise _ (λ h. []) (λ a. refl) (λ m. refl)

  start-Inv : Inv start.registry start.opened start.pc
  unfolding new_registry lookup holds
  start-Inv = record {
    consistent = new_registry-IsConsistent;
    sound = record {
      owned = λ k h. cc;
      all_open = λ k h p. ground (arith, start_empty h);
      unique = λ k h g p q. ground (arith, start_empty h);
      distinct = λ h. subst Distinct (sym (start_empty h)) tt;
    };
  }

  Step-Inv :
      {s t : System}
      → Step listen base_domain s t
      → Inv s.registry s.opened s.pc
      → Inv t.registry t.opened t.pc
  Step-Inv {s} (pick n m) v = Move-Inv m s.pc n refl v

  pub Reach-Inv : {s : System} → Reach listen base_domain s → Inv s.registry s.opened s.pc
  Reach-Inv here = start-Inv
  Reach-Inv (next r st) = Step-Inv st (Reach-Inv r)

-- ===== src/Interleaving/Sequential.antt =====
-- The steps of one goroutine that nobody interrupts are what `addTunnels` and `disconnected` do.
use go_tcp_tunnel.Base.{
  ℕ, ◌≡◌, ◌≢◌, Option, refl, sym, ap, ◌∙◌, subst, arith, none, some, List, [], ◌∷◌, Bytes, ok, err,
  Result-cases, Option-cases, discard, discard_all, inl, inr,
}
use go_tcp_tunnel.Base.Dict.{Dict}
use go_tcp_tunnel.Proto.{Tunnel}
use go_tcp_tunnel.Registry.{Registry, RegistryItem, RegistryError, clear, set}
use go_tcp_tunnel.Server.{
  Listen, Backend, TunnelError, Collected, add_tunnel, collect, finish, add_tunnels, empty_item,
  disconnected,
}
use go_tcp_tunnel.Interleaving.{
  Pc, idle, adding, closing, Move, add, refuse, commit, conflict, disconnect, pass, close,
}
use go_tcp_tunnel.Interleaving

-- The steps of one goroutine until it rests. A goroutine at rest takes no step here, so that it
-- starts nothing else: where it is busy, each step is forced.
pub data Run (listen : Listen) (base_domain : Bytes) (r' : Registry) (opened' : List ℕ)
    : Registry → List ℕ → Pc → Type 0 where
  ended : Run listen base_domain r' opened' r' opened' idle
  then_run :
      {r m : Registry} {opened between : List ℕ} {p q : Pc}
      → p ≢ idle
      → Move listen base_domain r opened p m between q
      → Run listen base_domain r' opened' m between q
      → Run listen base_domain r' opened' r opened p

-- From the registry, the open listeners and the goroutine's position to the backend, at rest.
abbrev pub Runs : Listen → Bytes → Registry → List ℕ → Pc → Backend → Type 0
Runs listen base_domain r opened p b = Run listen base_domain b.registry b.open_listeners r opened p

-- Where `disconnected` stands after `clear`: it has the listeners of the item in hand.
abbrev pub after_clear : Option RegistryItem → Pc
after_clear none = idle
after_clear (some i) = closing i.listeners

module _ (listen : Listen) (base_domain : Bytes) where
  closing_run :
      (r : Registry) (ls opened : List ℕ)
      → Run listen base_domain r (discard_all ls opened) r opened (closing ls)
  unfolding discard_all
  closing_run r [] opened = then_run (λ e. cc) Interleaving.finish ended
  closing_run r (l ∷ ls) opened = then_run (λ e. cc) close (closing_run r ls (discard l opened))

  abbrev finished : Bytes → Dict Tunnel → RegistryItem → Registry → List ℕ → Backend
  finished identifier ts i r opened =
      (finish identifier (record { registry = r; open_listeners = opened })
        (collect listen base_domain ts i opened)).1

  finished_stored :
      (identifier : Bytes) (i : RegistryItem) (r r' : Registry) (opened : List ℕ)
      → set i identifier r ≡ ok r'
      → finished identifier [] i r opened ≡ record { registry = r'; open_listeners = opened }
  unfolding collect finish
  finished_stored identifier i r r' opened e = ground (arith, e)

  finished_conflict :
      (identifier : Bytes) (i : RegistryItem) (r : Registry) (opened : List ℕ) (x : RegistryError)
      → set i identifier r ≡ err x
      → finished identifier [] i r opened
        ≡ record { registry = r; open_listeners = discard_all i.listeners opened }
  unfolding collect finish
  finished_conflict identifier i r opened x e = ground (arith, e)

  finished_refused :
      (identifier name : Bytes) (t : Tunnel) (ts : Dict Tunnel) (i : RegistryItem) (r : Registry)
      → (opened : List ℕ) (x : TunnelError) → add_tunnel listen base_domain name t i opened ≡ err x
      → finished identifier ((name, t) ∷ ts) i r opened
        ≡ record { registry = r; open_listeners = discard_all i.listeners opened }
  unfolding collect finish
  finished_refused identifier name t ts i r opened x e = ground (arith, e)

  collect_added :
      (name : Bytes) (t : Tunnel) (ts : Dict Tunnel) (i j : RegistryItem) (opened opened' : List ℕ)
      → add_tunnel listen base_domain name t i opened ≡ ok (j, opened')
      → collect listen base_domain ((name, t) ∷ ts) i opened
        ≡ collect listen base_domain ts j opened'
  unfolding collect
  collect_added name t ts i j opened opened' e = rw (e, collect) refl

  finish_same :
      (identifier : Bytes) (r : Registry) (opened opened' : List ℕ) (c : Collected)
      → (finish identifier (record { registry = r; open_listeners = opened }) c).1
        ≡ (finish identifier (record { registry = r; open_listeners = opened' }) c).1
  unfolding finish
  finish_same identifier r opened opened' c = ground arith

  finished_added :
      (identifier name : Bytes) (t : Tunnel) (ts : Dict Tunnel) (i j : RegistryItem) (r : Registry)
      → (opened opened' : List ℕ) → add_tunnel listen base_domain name t i opened ≡ ok (j, opened')
      → finished identifier ((name, t) ∷ ts) i r opened ≡ finished identifier ts j r opened'
  finished_added identifier name t ts i j r opened opened' e =
      ap (λ c. (finish identifier (record { registry = r; open_listeners = opened }) c).1)
        (collect_added name t ts i j opened opened' e)
      ∙ finish_same identifier r opened opened' (collect listen base_domain ts j opened')

  abbrev RunsAdding : Bytes → Dict Tunnel → RegistryItem → Registry → List ℕ → Backend → Type 0
  RunsAdding identifier ts i r opened b =
      Runs listen base_domain r opened (adding identifier ts i) b

  adding_run :
      (identifier : Bytes) (ts : Dict Tunnel) (i : RegistryItem) (r : Registry) (opened : List ℕ)
      → RunsAdding identifier ts i r opened (finished identifier ts i r opened)
  adding_run identifier [] i r opened = elim (Result-cases (set i identifier r)) [
    | inl (e, failed) ↦
        subst (RunsAdding identifier [] i r opened)
          (sym (finished_conflict identifier i r opened e failed))
          (then_run (λ e. cc) (conflict failed) (closing_run r i.listeners opened))
    | inr (r', stored) ↦
        subst (RunsAdding identifier [] i r opened)
          (sym (finished_stored identifier i r r' opened stored))
          (then_run (λ e. cc) (commit stored) ended)
  ]
  adding_run identifier ((name, t) ∷ ts) i r opened =
      elim (Result-cases (add_tunnel listen base_domain name t i opened)) [
        | inl (e, failed) ↦
            subst (RunsAdding identifier ((name, t) ∷ ts) i r opened)
              (sym (finished_refused identifier name t ts i r opened e failed))
              (then_run (λ e. cc) (refuse failed) (closing_run r i.listeners opened))
        | inr ((j, opened'), added) ↦
            subst (RunsAdding identifier ((name, t) ∷ ts) i r opened)
              (sym (finished_added identifier name t ts i j r opened opened' added))
              (then_run (λ e. cc) (add added) (adding_run identifier ts j r opened'))
      ]

  nothing_to_close :
      (identifier : Bytes) (b : Backend)
      → (clear identifier b.registry).0 ≡ none
      → disconnected identifier b
        ≡ record { registry = (clear identifier b.registry).1; open_listeners = b.open_listeners }
  unfolding disconnected
  nothing_to_close identifier b e = ground (arith, e)

  listeners_to_close :
      (identifier : Bytes) (b : Backend) (i : RegistryItem)
      → (clear identifier b.registry).0 ≡ some i
      → disconnected identifier b ≡ record {
        registry = (clear identifier b.registry).1;
        open_listeners = discard_all i.listeners b.open_listeners;
      }
  unfolding disconnected
  listeners_to_close identifier b i e = ground (arith, e)

  abbrev RunsClearing : Bytes → Backend → Backend → Type 0
  RunsClearing identifier b b' =
      Runs listen base_domain (clear identifier b.registry).1 b.open_listeners
        (after_clear (clear identifier b.registry).0) b'

  disconnected_run :
      (identifier : Bytes) (b : Backend)
      → Move listen base_domain b.registry b.open_listeners idle
          (clear identifier b.registry).1
          b.open_listeners
          (after_clear (clear identifier b.registry).0)
        × RunsClearing identifier b (disconnected identifier b)
  disconnected_run identifier b = elim (Option-cases (clear identifier b.registry).0) [
    | inl e ↦ (
      rw e (pass identifier e),
      subst (RunsClearing identifier b) (sym (nothing_to_close identifier b e)) (rw e ended),
    )
    | inr (i, e) ↦ (
      rw e (disconnect identifier e),
      subst (RunsClearing identifier b) (sym (listeners_to_close identifier b i e))
          (rw e (closing_run (clear identifier b.registry).1 i.listeners b.open_listeners)),
    )
  ]

  -- The steps of the interleaving that one goroutine takes without interruption, once it began to
  -- add the batch for the client, lead it to rest with the registry and the open listeners that
  -- `addTunnels` leaves, whether it accepts the batch or takes it back. And `disconnected` is the
  -- step that clears the client's item, followed by the steps that close the item's listeners.
  pub add_tunnels-Runs :
      (tunnels : Dict Tunnel) (identifier : Bytes) (b : Backend)
      → Runs listen base_domain b.registry b.open_listeners
          (adding identifier tunnels empty_item)
          (add_tunnels listen base_domain tunnels identifier b).1
        × Move listen base_domain b.registry b.open_listeners idle
            (clear identifier b.registry).1
            b.open_listeners
            (after_clear (clear identifier b.registry).0)
        × Runs listen base_domain
            (clear identifier b.registry).1
            b.open_listeners
            (after_clear (clear identifier b.registry).0)
            (disconnected identifier b)
  unfolding add_tunnels
  add_tunnels-Runs tunnels identifier b =
      let (clears, closes) = disconnected_run identifier b in
      (adding_run identifier tunnels empty_item b.registry b.open_listeners, clears, closes)

-- ===== src/Interleaving.antt =====
-- server.go and registry.go with several goroutines: the steps between which others may run. Each
-- goroutine is in `addTunnels`, in the loop of its `rollback` or of `disconnected`, or behind
-- `Unsubscribe`; a method of the registry is one step, and so are `net.Listen` and `Close`.
pub mod Owners
pub mod Safety
pub mod Quiet
pub mod Sequential
use go_tcp_tunnel.Base.{
  ℕ, none, some, Option, List, [], ◌∷◌, Bytes, ◌≡◌, ◌==◌, if◌then◌else◌, ok, err, discard,
}
use go_tcp_tunnel.Base.Dict.{Dict, lookup}
use go_tcp_tunnel.Proto.{Tunnel}
use go_tcp_tunnel.Registry.{
  Registry, RegistryItem, Entry, void, item, RegistryError, new_registry, subscribe, unsubscribe,
  set, clear,
}
use go_tcp_tunnel.Server.{Listen, TunnelError, add_tunnel, empty_item}
use Owners.{Holder, by_client, by_goroutine}

-- Where a goroutine stands, with the local variables that are live there.
pub data Pc : Type 0 where
  idle : Pc
  adding : Bytes → Dict Tunnel → RegistryItem → Pc  -- the loop of `addTunnels`
  closing : List ℕ → Pc  -- the loops that close listeners
  returned : Option Entry → Pc  -- behind `Unsubscribe`, with the item that it returned

-- One step of one goroutine, on the registry and the open listeners.
pub data Move (listen : Listen) (base_domain : Bytes) (r : Registry) (opened : List ℕ)
    : Pc → Registry → List ℕ → Pc → Type 0 where
  begin :
      (identifier : Bytes) (ts : Dict Tunnel)
      → Move listen base_domain r opened idle r opened (adding identifier ts empty_item)
  add :
      {identifier name : Bytes} {t : Tunnel} {ts : Dict Tunnel} {i j : RegistryItem}
      → {opened' : List ℕ} → add_tunnel listen base_domain name t i opened ≡ ok (j, opened')
      → Move listen base_domain r opened
          (adding identifier ((name, t) ∷ ts) i)
          r
          opened'
          (adding identifier ts j)
  refuse :
      {identifier name : Bytes} {t : Tunnel} {ts : Dict Tunnel} {i : RegistryItem}
      → {e : TunnelError} → add_tunnel listen base_domain name t i opened ≡ err e
      → Move listen base_domain r opened
          (adding identifier ((name, t) ∷ ts) i)
          r
          opened
          (closing i.listeners)
  commit :
      {identifier : Bytes} {i : RegistryItem} {r' : Registry}
      → set i identifier r ≡ ok r'
      → Move listen base_domain r opened (adding identifier [] i) r' opened idle
  conflict :
      {identifier : Bytes} {i : RegistryItem} {e : RegistryError}
      → set i identifier r ≡ err e
      → Move listen base_domain r opened (adding identifier [] i) r opened (closing i.listeners)
  join :
      (identifier : Bytes)
      → Move listen base_domain r opened idle (subscribe identifier r) opened idle
  disconnect :
      (identifier : Bytes) {it : RegistryItem}
      → (clear identifier r).0 ≡ some it
      → Move listen base_domain r opened idle (clear identifier r).1 opened (closing it.listeners)
  pass :
      (identifier : Bytes)
      → (clear identifier r).0 ≡ none
      → Move listen base_domain r opened idle (clear identifier r).1 opened idle
  leave :
      (identifier : Bytes)
      → Move listen base_domain r opened idle
          (unsubscribe identifier r).1
          opened
          (returned (unsubscribe identifier r).0)
  close :
      {l : ℕ} {ls : List ℕ}
      → Move listen base_domain r opened (closing (l ∷ ls)) r (discard l opened) (closing ls)
  finish : Move listen base_domain r opened (closing []) r opened idle

pub record System : Type 0 where
  pub registry : Registry
  pub opened : List ℕ
  pub pc : ℕ → Pc

abbrev pub update : (ℕ → Pc) → ℕ → Pc → ℕ → Pc
update pc n p m = if m == n then p else pc m

pub data Step (listen : Listen) (base_domain : Bytes) (s : System) : System → Type 0 where
  pick :
      (n : ℕ) {r : Registry} {opened : List ℕ} {p : Pc}
      → Move listen base_domain s.registry s.opened (s.pc n) r opened p
      → Step listen base_domain s (record { registry = r; opened = opened; pc = update s.pc n p })

abbrev pub start : System
start = record { registry = new_registry; opened = []; pc = λ n. idle }

pub data Reach (listen : Listen) (base_domain : Bytes) : System → Type 0 where
  here : Reach listen base_domain start
  next :
      {s t : System}
      → Reach listen base_domain s
      → Step listen base_domain s t
      → Reach listen base_domain t

abbrev pub listeners_of : Option Entry → List ℕ
listeners_of none = []
listeners_of (some void) = []
listeners_of (some (item i)) = i.listeners

abbrev pub held : Pc → List ℕ
held idle = []
held (adding identifier ts i) = i.listeners
held (closing ls) = ls
held (returned e) = listeners_of e

-- The listeners that a holder is to close.
abbrev pub own : Registry → (ℕ → Pc) → Holder → List ℕ
own r pc (by_client a) = listeners_of (lookup a r.items)
own r pc (by_goroutine n) = held (pc n)

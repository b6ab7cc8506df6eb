-- ===== src/Registry.antt =====
-- registry.go: which client is subscribed, and which client owns which public host. The mutex
-- makes each method one step; logging is left out.
pub mod Hosts
pub mod Invariant
pub mod Spec
pub mod Subscribed
use go_tcp_tunnel.Base.{ℕ, Bool, true, false, none, some, Option, List, [], Bytes, Result, ok, err}
use go_tcp_tunnel.Base.Dict.{Dict, lookup, insert, erase}
use go_tcp_tunnel.HostPort.{trim_port}
use Hosts.{register, unregister, occupied}

-- The hosts and the listeners (handles of the operating system) of a client.
pub record RegistryItem : Type 0 where
  pub hosts : List Bytes
  pub listeners : List ℕ

-- What the table of items points to: `voidRegistryItem`, which is told apart by its address, or
-- an item of a client.
pub data Entry : Type 0 where
  void : Entry
  item : RegistryItem → Entry

pub record Registry : Type 0 where
  pub items : Dict Entry
  pub hosts : Dict Bytes

pub data RegistryError : Type 0 where
  not_subscribed overwrite : RegistryError
  host_occupied : Bytes → RegistryError

unfoldable pub new_registry : Registry
new_registry = record { items = []; hosts = [] }

unfoldable pub subscribe : Bytes → Registry → Registry
subscribe identifier r = elim (lookup identifier r.items) [
  | some _ ↦ r
  | none ↦ record r { items = insert identifier void r.items }
]

unfoldable pub is_subscribed : Bytes → Registry → Bool
is_subscribed identifier r = elim (lookup identifier r.items) [ some _ ↦ true | none ↦ false ]

unfoldable pub subscriber : Bytes → Registry → Option Bytes
subscriber host_port r = lookup (trim_port host_port) r.hosts

-- The item that `Unsubscribe` and `clear` return; `nil` is `none`.
unfoldable pub unsubscribe : Bytes → Registry → Option Entry × Registry
unsubscribe identifier r = elim (lookup identifier r.items) [
  | none ↦ (none, r)
  | some void ↦ (some void, record r { items = erase identifier r.items })
  | some (item i) ↦ (
    some (item i),
    record { items = erase identifier r.items; hosts = unregister i.hosts r.hosts },
  )
]

-- What `set` does once the entry of the client is read.
set_entry : RegistryItem → Bytes → Registry → Option Entry → Result RegistryError Registry
set_entry i identifier r none = err not_subscribed
set_entry i identifier r (some (item _)) = err overwrite
set_entry i identifier r (some void) = elim (occupied i.hosts r.hosts) [
  | some host ↦ err (host_occupied host)
  | none ↦ ok (record {
    items = insert identifier (item i) r.items;
    hosts = register i.hosts identifier r.hosts;
  })
]

unfoldable pub set : RegistryItem → Bytes → Registry → Result RegistryError Registry
unfolding set_entry
set i identifier r = set_entry i identifier r (lookup identifier r.items)

unfoldable pub clear : Bytes → Registry → Option RegistryItem × Registry
clear identifier r = elim (lookup identifier r.items) [
  | none ↦ (none, r)
  | some void ↦ (none, r)
  | some (item i) ↦ (
    some i,
    record { items = insert identifier void r.items; hosts = unregister i.hosts r.hosts },
  )
]

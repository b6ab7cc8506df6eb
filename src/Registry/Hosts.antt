-- ===== src/Registry/Hosts.antt =====
-- The loops of registry.go over the hosts of an item, and what they do to the table of hosts.
use go_tcp_tunnel.Base.{
  inl, inr, ◌≡◌, refl, true, none, some, Option, List, [], ◌∷◌, map, Bytes, elem, beq_iff,
  if◌then◌else◌, arith, Option-cases,
}
use go_tcp_tunnel.Base.Dict.{Dict, lookup, insert, erase, lookup-insert, lookup-erase}
use go_tcp_tunnel.HostPort.{trim_port}

-- The first host that somebody has.
unfoldable pub occupied : List Bytes → Dict Bytes → Option Bytes
occupied [] table = none
occupied (h ∷ hs) table =
    let rest = occupied hs table in
    elim (lookup (trim_port h) table) [ some _ ↦ some h | none ↦ rest ]

unfoldable pub register : List Bytes → Bytes → Dict Bytes → Dict Bytes
register [] identifier table = table
register (h ∷ hs) identifier table = register hs identifier (insert (trim_port h) identifier table)

unfoldable pub unregister : List Bytes → Dict Bytes → Dict Bytes
unregister [] table = table
unregister (h ∷ hs) table = unregister hs (erase (trim_port h) table)

-- The host names under which the hosts of an item are registered.
abbrev pub names : List Bytes → List Bytes
names = map trim_port

pub lookup-register :
    (k : Bytes) (hs : List Bytes) (identifier : Bytes) (table : Dict Bytes)
    → lookup k (register hs identifier table)
      ≡ (if elem k (names hs) then some identifier else lookup k table)
unfolding register elem
lookup-register k [] identifier table = refl
lookup-register k (h ∷ hs) identifier table = ground (
  arith,
  lookup-register k hs identifier (insert (trim_port h) identifier table),
  lookup-insert (trim_port h) k identifier table,
  beq_iff (trim_port h) k,
  beq_iff k (trim_port h),
)

pub lookup-unregister :
    (k : Bytes) (hs : List Bytes) (table : Dict Bytes)
    → lookup k (unregister hs table) ≡ (if elem k (names hs) then none else lookup k table)
unfolding unregister elem
lookup-unregister k [] table = refl
lookup-unregister k (h ∷ hs) table = ground (
  arith,
  lookup-unregister k hs (erase (trim_port h) table),
  lookup-erase (trim_port h) k table,
  beq_iff (trim_port h) k,
  beq_iff k (trim_port h),
)

-- Where no host is occupied, no name of the hosts is in the table.
pub occupied-none :
    (k : Bytes) (hs : List Bytes) (table : Dict Bytes)
    → occupied hs table ≡ none
    → elem k (names hs) ≡ true
    → lookup k table ≡ none
unfolding occupied elem
occupied-none k [] table free m = cc
occupied-none k (h ∷ hs) table free m =
    ground (arith, occupied-none k hs table, beq_iff k (trim_port h))

-- The host that is reported occupied is one of the hosts, and somebody has it.
pub occupied-some :
    (hs : List Bytes) (table : Dict Bytes) (h : Bytes)
    → occupied hs table ≡ some h
    → (elem h hs ≡ true) × ((owner : Bytes) × (lookup (trim_port h) table ≡ some owner))
unfolding occupied elem
occupied-some [] table h e = cc
occupied-some (g ∷ hs) table h e = elim (Option-cases (lookup (trim_port g) table)) [
  | inl free ↦ let (m, taken) = occupied-some hs table h (ground arith) in (ground arith, taken)
  | inr (owner, taken) ↦
      let same : g ≡ h = ground arith in (ground (arith, beq_iff h g), (owner, rw (← same) taken))
]

pub elem-names :
    (h : Bytes) (hs : List Bytes) → elem h hs ≡ true → elem (trim_port h) (names hs) ≡ true
unfolding elem
elem-names h [] m = cc
elem-names h (g ∷ hs) m =
    ground (arith, elem-names h hs, beq_iff h g, beq_iff (trim_port h) (trim_port g))

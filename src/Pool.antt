-- ===== src/Pool.antt =====
-- pool.go: the connections of the clients, by the text of their identifier and a port. Each method
-- holds the mutex, so it is one step; `GetClientConn` lets it go once in between.
pub mod Address
pub mod Invariant
pub mod Entries
pub mod Methods
pub mod State
use go_tcp_tunnel.Base.{
  ℕ, Bool, none, some, Option, List, [], ◌∷◌, ◌++◌, Bytes, codes, ◌==◌, if◌then◌else◌, Result, ok,
  err,
}
use go_tcp_tunnel.Base.Dict.{Dict, lookup, insert, erase}
use go_tcp_tunnel.HostPort.{split_host_port}
use go_tcp_tunnel.Id.{empty_id, to_string, unmarshal_text}

-- A connection and the HTTP/2 connection on it, both by their handles.
pub record ConnPair : Type 0 where
  pub conn : ℕ
  pub client_conn : ℕ

-- `state` is what the callback `free` works on, and `closed` the connections closed so far.
pub record Pool (S : Type 0) : Type 0 where
  pub conns : Dict ConnPair
  pub closed : List ℕ
  pub state : S

-- `newConnPool`
abbrev pub new_conn_pool : {S : Type 0} → S → Pool S
new_conn_pool state = record { conns = []; closed = []; state = state }

-- The answers of golang.org/x/net/http2 during one call.
pub record Http2 : Type 0 where
  pub can_take_new_request : ℕ → Bool
  pub ping : ℕ → Bool
  pub new_client_conn : ℕ → Option ℕ

pub data PoolError : Type 0 where
  not_connected already_connected transport_failed ping_failed : PoolError

unfoldable pub url : Bytes → Bytes
url identifier = codes "https://" ++ to_string identifier

unfoldable pub addr : Bytes → Bytes
addr identifier = to_string identifier ++ codes ":443"

-- The identifier for an address; the zero identifier for what is no address.
unfoldable pub identifier : Bytes → Bytes
identifier address = elim (split_host_port address) [
  | err _ ↦ empty_id
  | ok (host, _) ↦ elim (unmarshal_text empty_id host) [ err _ ↦ empty_id | ok found ↦ found ]
]

-- The first entry with the HTTP/2 connection.
unfoldable pub find_conn : ℕ → Dict ConnPair → Option (Bytes × ConnPair)
find_conn c [] = none
find_conn c ((address, cp) ∷ m) =
    let rest = find_conn c m in if cp.client_conn == c then some (address, cp) else rest

module _ {S : Type 0} (free : Option (Bytes → S → S)) where
  call_free : Bytes → Pool S → Pool S
  call_free address p = elim free [
    | none ↦ p
    | some f ↦ record p { state = f (identifier address) p.state }
  ]

  unfoldable pub close : ConnPair → Bytes → Pool S → Pool S
  unfolding call_free
  close cp address p =
      call_free address (record p { conns = erase address p.conns; closed = cp.conn ∷ p.closed })

  -- `if cur, ok := p.conns[addr]; ok && cur.clientConn == cp.clientConn { p.close(cur, addr) }`
  unfoldable pub evict : ConnPair → Bytes → Pool S → Pool S
  evict cp address p = elim (lookup address p.conns) [
    | none ↦ p
    | some cur ↦ if cur.client_conn == cp.client_conn then close cur address p else p
  ]

  -- `others` is what other goroutines do between the two locks.
  unfoldable pub get_client_conn :
      Http2 → (Pool S → Pool S) → Bytes → Pool S → Result PoolError ℕ × Pool S
  get_client_conn h others address p = elim (lookup address p.conns) [
    | none ↦ (err not_connected, p)
    | some cp ↦
        if h.can_take_new_request cp.client_conn
        then (ok cp.client_conn, p)
        else (err not_connected, evict cp address (others p))
  ]

  unfoldable pub mark_dead : ℕ → Pool S → Pool S
  mark_dead c p = elim (find_conn c p.conns) [ none ↦ p | some (address, cp) ↦ close cp address p ]

  dial : Http2 → ℕ → Bytes → Pool S → Result PoolError (Unit {0}) × Pool S
  dial h conn address p = elim (h.new_client_conn conn) [
    | none ↦ (err transport_failed, record p { closed = conn ∷ p.closed })
    | some c ↦ (
      ok tt,
      record p { conns = insert address (record { conn = conn; client_conn = c }) p.conns },
    )
  ]

  unfoldable pub add_conn : Http2 → ℕ → Bytes → Pool S → Result PoolError (Unit {0}) × Pool S
  unfolding dial
  add_conn h conn identifier p = elim (lookup (addr identifier) p.conns) [
    | none ↦ dial h conn (addr identifier) p
    | some cp ↦
        if h.ping cp.client_conn
        then (err already_connected, p)
        else dial h conn (addr identifier) (close cp (addr identifier) p)
  ]

  unfoldable pub delete_conn : Bytes → Pool S → Pool S
  delete_conn identifier p = elim (lookup (addr identifier) p.conns) [
    | none ↦ p
    | some cp ↦ close cp (addr identifier) p
  ]

-- The round-trip time is left out.
unfoldable pub ping : {S : Type 0} → Http2 → Bytes → Pool S → Result PoolError (Unit {0})
ping h identifier p = elim (lookup (addr identifier) p.conns) [
  | none ↦ err not_connected
  | some cp ↦ if h.ping cp.client_conn then ok tt else err ping_failed
]

-- ===== src/Examples/Pools.antt =====
-- Runs of the pool. The state behind `free` counts its calls.
use go_tcp_tunnel.Base.{
  ℕ, ◌+◌, ◌≡◌, ◌≢◌, ◌⊎◌, refl, none, some, [], ◌∷◌, Bytes, ok, err, beq, if◌then◌else◌,
}
use go_tcp_tunnel.Base.Dict.{lookup, insert, lookup-insert_self}
use go_tcp_tunnel.Pool.{ConnPair, Pool, not_connected, addr, get_client_conn, add_conn, delete_conn}
use go_tcp_tunnel.Pool.Methods.{delete_conn_lem, get_client_conn_evicts}
use go_tcp_tunnel.Examples.Data.{laptop, laptop-IsId, desktop, desktop-IsId, http2}

abbrev count : Bytes → ℕ → ℕ
count i n = n + 1

abbrev empty_pool : Pool ℕ
empty_pool = record { conns = []; closed = []; state = 0 }

abbrev stale : ConnPair
stale = record { conn = 3; client_conn = 4 }

abbrev renewed : ConnPair
renewed = record { conn = 5; client_conn = 9 }

abbrev one_conn : Pool ℕ
one_conn = record { conns = insert (addr laptop) stale []; closed = []; state = 0 }

abbrev other_conn : Pool ℕ
other_conn = record { conns = insert (addr laptop) renewed []; closed = []; state = 0 }

first_added : (add_conn (some count) http2 3 laptop empty_pool).0 ≡ ok tt
unfolding add_conn lookup
first_added = refl

delete_conn_lem_example :
    (lookup (addr desktop) (delete_conn (some count) laptop one_conn).conns
      ≡ (if beq laptop desktop then none else lookup (addr desktop) one_conn.conns))
    × (((lookup (addr laptop) one_conn.conns ≡ none)
          × (delete_conn (some count) laptop one_conn ≡ one_conn))
        ⊎ ((cp : ConnPair) × (lookup (addr laptop) one_conn.conns ≡ some cp)
            × ((delete_conn (some count) laptop one_conn).state ≡ count laptop one_conn.state)
            × ((delete_conn (some count) laptop one_conn).closed ≡ cp.conn ∷ one_conn.closed)))
delete_conn_lem_example = delete_conn_lem count laptop desktop one_conn laptop-IsId desktop-IsId

get_client_conn_evicts_example :
    let r = get_client_conn (some count) http2 (λ p. p) (addr laptop) one_conn in
    (r.0 ≡ err not_connected) × (lookup (addr laptop) r.1.conns ≢ some stale)
get_client_conn_evicts_example =
    get_client_conn_evicts count http2 (λ p. p) (addr laptop) one_conn stale stale
      (lookup-insert_self (addr laptop) stale []) refl refl

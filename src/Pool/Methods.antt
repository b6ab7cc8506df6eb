-- ===== src/Pool/Methods.antt =====
-- What each method of the pool promises.
use go_tcp_tunnel.Base.{
  ℕ, false, ◌≡◌, ◌≢◌, ◌⊎◌, ◌∙◌, inl, inr, refl, sym, arith, none, some, Option, ◌∷◌, Bytes, ◌==◌,
  if◌then◌else◌, err, beq, beq_iff, beq_refl, Option-cases, Bool-cases, beq-cases,
}
use go_tcp_tunnel.Base.Dict.{lookup, erase, lookup-erase}
use go_tcp_tunnel.Id.RoundTrip.{IsId}
use go_tcp_tunnel.Pool.Address.{identifier-addr, addr-injective}
use go_tcp_tunnel.Pool.{
  ConnPair, Pool, Http2, not_connected, addr, find_conn, call_free, close, evict, get_client_conn,
  mark_dead, delete_conn,
}
use go_tcp_tunnel.Pool.Invariant.{IsSound, find_conn-some, find_conn-none, close-conns}

-- The entry, unless it has the HTTP/2 connection.
abbrev pub without : ℕ → Option ConnPair → Option ConnPair
without c none = none
without c (some cp) = if cp.client_conn == c then none else some cp

without_other :
    (c : ℕ) (o : Option ConnPair)
    → ((cp : ConnPair) → o ≡ some cp → cp.client_conn ≢ c)
    → without c o ≡ o
without_other c none h = refl
without_other c (some cp) h = ground (arith, h cp refl)

without_one :
    {S : Type 0} (c : ℕ) (p : Pool S) (v : IsSound p) (a b : Bytes) (cp : ConnPair)
    → lookup b p.conns ≡ some cp
    → cp.client_conn ≡ c
    → (if beq b a then none else lookup a p.conns) ≡ without c (lookup a p.conns)
without_one c p v a b cp here dead = elim (beq-cases b a) [
  | inl (hit, e) ↦ rw hit (rw (← e, here) (ground arith))
  | inr (miss, ne) ↦ rw miss (
      sym (
        without_other c (lookup a p.conns)
          λ cq g same. ne (v.conn_once b a cp cq here g (inr (dead ∙ sym same)))))
]

module _ {S : Type 0} (f : Bytes → S → S) where
  -- Closing the connection of a client takes it out of the pool, closes it and calls `free` with
  -- that client.
  pub close_client :
      (cp : ConnPair) (i : Bytes) (p : Pool S)
      → IsId i
      → close (some f) cp (addr i) p ≡ record {
        conns = erase (addr i) p.conns;
        closed = cp.conn ∷ p.closed;
        state = f i p.state;
      }
  unfolding close call_free
  close_client cp i p v = rw (identifier-addr i v)

  -- `DeleteConn` takes the connection of the client out of the pool and no other; if there is one,
  -- it is closed and `free` is called for the client, and if there is none, nothing changes.
  pub delete_conn_lem :
      (i j : Bytes) (p : Pool S)
      → IsId i
      → IsId j
      → (lookup (addr j) (delete_conn (some f) i p).conns
          ≡ (if beq i j then none else lookup (addr j) p.conns))
        × (((lookup (addr i) p.conns ≡ none) × (delete_conn (some f) i p ≡ p))
            ⊎ ((cp : ConnPair) × (lookup (addr i) p.conns ≡ some cp)
                × ((delete_conn (some f) i p).state ≡ f i p.state)
                × ((delete_conn (some f) i p).closed ≡ cp.conn ∷ p.closed)))
  unfolding delete_conn
  delete_conn_lem i j p v w = elim (Option-cases (lookup (addr i) p.conns)) [
    | inl e ↦ rw (e, delete_conn) (ground (arith, beq_iff i j), inl (refl, refl))
    | inr (cp, e) ↦
        rw (e, delete_conn)
          (rw (close_client cp i p v) (
            ground (
              arith,
              beq_iff i j,
              lookup-erase (addr i) (addr j) p.conns,
              beq_iff (addr i) (addr j),
              addr-injective i j v w,
            ),
            inr (cp, refl, refl, refl),
          ))
  ]

  evict_lem :
      (cp cq : ConnPair) (a : Bytes) (p : Pool S)
      → cq.client_conn ≡ cp.client_conn
      → lookup a (evict (some f) cp a p).conns ≢ some cq
  unfolding evict
  evict_lem cp cq a p same = elim (Option-cases (lookup a p.conns)) [
    | inl e ↦ rw (e, evict) (λ g. cc (e, g))
    | inr (cur, e) ↦ elim (Bool-cases (cur.client_conn == cp.client_conn)) [
      | inl hit ↦
          rw (e, evict)
            (rw hit (λ g.
              ground
                (arith, g, close-conns (some f) cur a p, lookup-erase a a p.conns, beq_refl a)))
      | inr miss ↦ rw (e, evict) (rw miss (λ g. ground (arith, g, e)))
    ]
  ]

  -- A connection that can take no new request is out of the pool when `GetClientConn` returns,
  -- whatever other goroutines do between its two locks.
  pub get_client_conn_evicts :
      (h : Http2) (others : Pool S → Pool S) (a : Bytes) (p : Pool S) (cp cq : ConnPair)
      → lookup a p.conns ≡ some cp
      → h.can_take_new_request cp.client_conn ≡ false
      → cq.client_conn ≡ cp.client_conn
      → ((get_client_conn (some f) h others a p).0 ≡ err not_connected)
        × (lookup a (get_client_conn (some f) h others a p).1.conns ≢ some cq)
  unfolding get_client_conn
  get_client_conn_evicts h others a p cp cq e stale same =
      rw (e, get_client_conn) (rw stale (refl, evict_lem cp cq a (others p) same))

  -- A connection by which another goroutine replaced the stale one in between is kept.
  pub get_client_conn_keeps :
      (h : Http2) (others : Pool S → Pool S) (a : Bytes) (p : Pool S) (cp cq : ConnPair)
      → lookup a p.conns ≡ some cp
      → lookup a (others p).conns ≡ some cq
      → cq.client_conn ≢ cp.client_conn
      → h.can_take_new_request cp.client_conn ≡ false
      → get_client_conn (some f) h others a p ≡ (err not_connected, others p)
  unfolding get_client_conn evict
  get_client_conn_keeps h others a p cp cq e e' ne stale = ground arith

  -- `MarkDead` takes every entry with the dead HTTP/2 connection out of a sound pool, and no other.
  pub mark_dead_lem :
      (c : ℕ) (p : Pool S) (a : Bytes)
      → IsSound p
      → lookup a (mark_dead (some f) c p).conns ≡ without c (lookup a p.conns)
  unfolding mark_dead
  mark_dead_lem c p a v = elim (Option-cases (find_conn c p.conns)) [
    | inl e ↦
        rw (e, mark_dead)
          (sym (without_other c (lookup a p.conns) (λ cp g. find_conn-none c p.conns a cp e g)))
    | inr ((b, cp), e) ↦
        let (here, dead) = find_conn-some c p.conns b cp v.nodup e in
        rw (e, mark_dead, close-conns (some f) cp b p, lookup-erase b a p.conns)
          (without_one c p v a b cp here dead)
  ]

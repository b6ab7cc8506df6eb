-- ===== src/Pool/State.antt =====
-- What the methods of the pool keep of the state behind `free`, and of a connection.
use go_tcp_tunnel.Base.{
  if_both, ◌==◌, ℕ, true, ◌≡◌, ◌≢◌, ◌⊎◌, err, inl, inr, refl, arith, none, some, ◌∷◌, Option, Bytes,
  ok, holds, Option-cases, Bool-cases,
}
use go_tcp_tunnel.Base.Dict.{lookup, insert, erase, lookup-insert_self}
use go_tcp_tunnel.Pool.{
  ConnPair, Pool, Http2, PoolError, addr, identifier, find_conn, call_free, close, evict, mark_dead,
  dial, add_conn, delete_conn,
}
use go_tcp_tunnel.Pool.Invariant.{IsFresh, close-closed, close-IsFresh}

module _ {ℓ} {S : Type 0} (P : S → Type ℓ) (f : Bytes → S → S)
    (keep : (i : Bytes) (s : S) → P s → P (f i s)) where
  pub close-keeps :
      (cp : ConnPair) (a : Bytes) (p : Pool S) → P p.state → P (close (some f) cp a p).state
  unfolding close call_free
  close-keeps cp a p v = keep (identifier a) p.state v

  pub delete_conn-keeps : (i : Bytes) (p : Pool S) → P p.state → P (delete_conn (some f) i p).state
  unfolding delete_conn
  delete_conn-keeps i p v = elim (Option-cases (lookup (addr i) p.conns)) [
    | inl e ↦ rw (e, delete_conn) v
    | inr (cp, e) ↦ rw (e, delete_conn) (close-keeps cp (addr i) p v)
  ]

  pub mark_dead-keeps : (c : ℕ) (p : Pool S) → P p.state → P (mark_dead (some f) c p).state
  unfolding mark_dead
  mark_dead-keeps c p v = elim (Option-cases (find_conn c p.conns)) [
    | inl e ↦ rw (e, mark_dead) v
    | inr ((a, cp), e) ↦ rw (e, mark_dead) (close-keeps cp a p v)
  ]

  pub evict-keeps :
      (cp : ConnPair) (a : Bytes) (p : Pool S) → P p.state → P (evict (some f) cp a p).state
  unfolding evict
  evict-keeps cp a p v = elim (Option-cases (lookup a p.conns)) [
    | inl e ↦ rw (e, evict) v
    | inr (cur, e) ↦
        rw (e, evict)
          (if_both {A = Pool S} (λ q. P q.state) (cur.client_conn == cp.client_conn) _ _
            (close-keeps cur a p v) v)
  ]

  dial-keeps :
      (h : Http2) (conn : ℕ) (a : Bytes) (p : Pool S)
      → P p.state
      → P (dial (some f) h conn a p).1.state
  unfolding dial
  dial-keeps h conn a p v = elim (Option-cases (h.new_client_conn conn)) [
    | inl e ↦ rw (e, dial) v
    | inr (c, e) ↦ rw (e, dial) v
  ]

  pub add_conn-keeps :
      (h : Http2) (conn : ℕ) (i : Bytes) (p : Pool S)
      → P p.state
      → P (add_conn (some f) h conn i p).1.state
  unfolding add_conn
  add_conn-keeps h conn i p v = elim (Option-cases (lookup (addr i) p.conns)) [
    | inl e ↦ rw (e, add_conn) (dial-keeps h conn (addr i) p v)
    | inr (cp, e) ↦ elim (Bool-cases (h.ping cp.client_conn)) [
      | inl up ↦ rw (e, add_conn) (rw up v)
      | inr down ↦
          rw (e, add_conn) (rw down (dial-keeps h conn (addr i) _ (close-keeps cp (addr i) p v)))
    ]
  ]

-- The death of a connection that the pool has.
pub mark_dead-some :
    {S : Type 0} (f : Bytes → S → S) (c : ℕ) (p : Pool S) (a : Bytes) (cp : ConnPair)
    → find_conn c p.conns ≡ some (a, cp)
    → mark_dead (some f) c p ≡ record {
      conns = erase a p.conns;
      closed = cp.conn ∷ p.closed;
      state = f (identifier a) p.state;
    }
unfolding mark_dead close call_free
mark_dead-some f c p a cp e = rw (e, mark_dead) refl

-- A client that the pool does not have joins it.
pub add_conn-new :
    {S : Type 0} (free : Option (Bytes → S → S)) (h : Http2) (conn c : ℕ) (i : Bytes) (p : Pool S)
    → lookup (addr i) p.conns ≡ none
    → h.new_client_conn conn ≡ some c
    → add_conn free h conn i p ≡ (
      ok tt,
      record p { conns = insert (addr i) (record { conn = conn; client_conn = c }) p.conns },
    )
unfolding add_conn dial
add_conn-new free h conn c i p absent made = rw (absent, add_conn) (rw (made, dial) refl)

-- No entry has the connection.
abbrev pub IsUnused : {S : Type 0} → ℕ → Pool S → Type 0
IsUnused conn p = (a : Bytes) (cp : ConnPair) → lookup a p.conns ≡ some cp → cp.conn ≢ conn

-- The connection is closed, or it is the one that the pool has at the address.
abbrev pub IsHeld : {S : Type 0} → ℕ → Bytes → Pool S → Type 0
IsHeld conn a p =
    (holds conn p.closed ≡ true)
    ⊎ ((cp : ConnPair) × (lookup a p.conns ≡ some cp) × (cp.conn ≡ conn))

module _ {S : Type 0} (free : Option (Bytes → S → S)) where
  dial-ok :
      (h : Http2) (conn : ℕ) (a : Bytes) (p : Pool S)
      → (dial free h conn a p).0 ≡ ok tt
      → (cp : ConnPair) × (lookup a (dial free h conn a p).1.conns ≡ some cp)
        × (cp.conn ≡ conn)
        × (h.new_client_conn conn ≡ some cp.client_conn)
  unfolding dial
  dial-ok h conn a p e = elim (Option-cases (h.new_client_conn conn)) [
    | inl failed ↦ absurd (ground arith)
    | inr (c, made) ↦
        let pair : ConnPair = record { conn = conn; client_conn = c } in
        (pair, rw (made, dial) (lookup-insert_self a pair p.conns), refl, made)
  ]

  -- `AddConn` takes the connection into the pool whenever it reports success.
  pub add_conn-ok :
      (h : Http2) (conn : ℕ) (i : Bytes) (p : Pool S)
      → (add_conn free h conn i p).0 ≡ ok tt
      → (cp : ConnPair) × (lookup (addr i) (add_conn free h conn i p).1.conns ≡ some cp)
        × (cp.conn ≡ conn)
        × (h.new_client_conn conn ≡ some cp.client_conn)
  unfolding add_conn
  add_conn-ok h conn i p e = elim (Option-cases (lookup (addr i) p.conns)) [
    | inl g ↦ rw (g, add_conn) (dial-ok h conn (addr i) p (rw (g, add_conn) at e))
    | inr (cp, g) ↦ elim (Bool-cases (h.ping cp.client_conn)) [
      | inl up ↦ absurd (ground arith)
      | inr down ↦
          rw (g, add_conn)
            (rw down (dial-ok h conn (addr i) (close free cp (addr i) p) (ground arith)))
    ]
  ]

  -- A connection leaves the pool only by being closed.
  pub delete_conn-closes :
      (conn : ℕ) (i : Bytes) (p : Pool S)
      → IsHeld conn (addr i) p
      → holds conn (delete_conn free i p).closed ≡ true
  unfolding delete_conn holds
  delete_conn-closes conn i p v = elim (Option-cases (lookup (addr i) p.conns)) [
    | inl e ↦ rw (e, delete_conn) (ground arith)
    | inr (cp, e) ↦ rw (e, delete_conn) (ground (arith, close-closed free cp (addr i) p))
  ]

  dial-IsUnused :
      (h : Http2) (conn : ℕ) (a : Bytes) (p : Pool S) (e : PoolError)
      → IsUnused conn p
      → (dial free h conn a p).0 ≡ err e
      → IsUnused conn (dial free h conn a p).1
  unfolding dial
  dial-IsUnused h conn a p e u failed = elim (Option-cases (h.new_client_conn conn)) [
    | inl f ↦ rw (f, dial) u
    | inr (c, made) ↦ absurd (ground arith)
  ]

  -- A connection that `AddConn` refuses is in no entry.
  pub add_conn-IsUnused :
      (h : Http2) (conn : ℕ) (i : Bytes) (p : Pool S) (e : PoolError)
      → IsFresh conn p
      → (add_conn free h conn i p).0 ≡ err e
      → IsUnused conn (add_conn free h conn i p).1
  unfolding add_conn
  add_conn-IsUnused h conn i p e f failed = elim (Option-cases (lookup (addr i) p.conns)) [
    | inl g ↦
        rw (g, add_conn) (dial-IsUnused h conn (addr i) p e f.unused (rw (g, add_conn) at failed))
    | inr (cp, g) ↦ elim (Bool-cases (h.ping cp.client_conn)) [
      | inl up ↦ rw (g, add_conn) (rw up f.unused)
      | inr down ↦
          rw (g, add_conn)
            (rw down (
              dial-IsUnused h conn (addr i) (close free cp (addr i) p) e
                (close-IsFresh free conn cp (addr i) p g f).unused (ground arith)))
    ]
  ]

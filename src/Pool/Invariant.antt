-- ===== src/Pool/Invariant.antt =====
-- No connection of the pool is closed and no connection stands in it twice; every method keeps it so.
use go_tcp_tunnel.Base.{
  ℕ, false, ◌≡◌, ◌≢◌, ◌⊎◌, inl, inr, arith, none, some, Option, [], ◌∷◌, Bytes, ◌==◌, holds,
  beq_iff, Option-cases, Bool-cases,
}
use go_tcp_tunnel.Base.Dict.{
  Dict, lookup, erase, lookup-insert, lookup-erase, NodupKeys, insert-NodupKeys, erase-NodupKeys,
}
use go_tcp_tunnel.Pool.{
  ConnPair, Pool, Http2, addr, find_conn, close, evict, mark_dead, dial, add_conn, delete_conn,
}

pub record IsSound {S : Type 0} (p : Pool S) : Type 0 where
  pub nodup : NodupKeys p.conns
  pub live :
      (a : Bytes) (cp : ConnPair) → lookup a p.conns ≡ some cp → holds cp.conn p.closed ≡ false
  pub conn_once :
      (a b : Bytes) (cp cq : ConnPair)
      → lookup a p.conns ≡ some cp
      → lookup b p.conns ≡ some cq
      → (cp.conn ≡ cq.conn) ⊎ (cp.client_conn ≡ cq.client_conn)
      → a ≡ b

-- A connection that nobody has used before.
pub record IsFresh {S : Type 0} (conn : ℕ) (p : Pool S) : Type 0 where
  pub open_conn : holds conn p.closed ≡ false
  pub unused : (a : Bytes) (cp : ConnPair) → lookup a p.conns ≡ some cp → cp.conn ≢ conn

-- The transport makes a new HTTP/2 connection, as `NewClientConn` is documented to.
abbrev pub IsNewClient : {S : Type 0} → Http2 → ℕ → Pool S → Type 0
IsNewClient h conn p =
    (c : ℕ) (a : Bytes) (cp : ConnPair)
    → h.new_client_conn conn ≡ some c
    → lookup a p.conns ≡ some cp
    → cp.client_conn ≢ c

pub find_conn-some :
    (c : ℕ) (m : Dict ConnPair) (a : Bytes) (cp : ConnPair)
    → NodupKeys m
    → find_conn c m ≡ some (a, cp)
    → (lookup a m ≡ some cp) × (cp.client_conn ≡ c)
unfolding find_conn lookup
find_conn-some c [] a cp u e = cc
find_conn-some c ((b, cq) ∷ m) a cp u e = ground (arith, find_conn-some c m a cp u.1, beq_iff b a)

pub find_conn-none :
    (c : ℕ) (m : Dict ConnPair) (a : Bytes) (cp : ConnPair)
    → find_conn c m ≡ none
    → lookup a m ≡ some cp
    → cp.client_conn ≢ c
unfolding find_conn lookup
find_conn-none c [] a cp u e = cc
find_conn-none c ((b, cq) ∷ m) a cp u e = ground (arith, find_conn-none c m a cp)

module _ {S : Type 0} (free : Option (Bytes → S → S)) where
  pub close-conns :
      (cp : ConnPair) (a : Bytes) (p : Pool S) → (close free cp a p).conns ≡ erase a p.conns
  unfolding close
  close-conns cp a p = ground arith

  pub close-closed :
      (cp : ConnPair) (a : Bytes) (p : Pool S) → (close free cp a p).closed ≡ cp.conn ∷ p.closed
  unfolding close
  close-closed cp a p = ground arith

  pub close-IsSound :
      (cp : ConnPair) (a : Bytes) (p : Pool S)
      → lookup a p.conns ≡ some cp
      → IsSound p
      → IsSound (close free cp a p)
  unfolding holds
  close-IsSound cp a p e v = record {
    nodup = rw (close-conns cp a p) (erase-NodupKeys a p.conns v.nodup);
    live = λ b cq f. ground (
      arith,
      close-conns cp a p,
      close-closed cp a p,
      lookup-erase a b p.conns,
      v.live b cq,
      v.conn_once a b cp cq,
      beq_iff a b,
    );
    conn_once = λ b d cq cr f g h. ground (
      arith,
      close-conns cp a p,
      lookup-erase a b p.conns,
      lookup-erase a d p.conns,
      v.conn_once b d cq cr,
    );
  }

  pub mark_dead-IsSound : (c : ℕ) (p : Pool S) → IsSound p → IsSound (mark_dead free c p)
  unfolding mark_dead
  mark_dead-IsSound c p v = elim (Option-cases (find_conn c p.conns)) [
    | inl e ↦ rw (e, mark_dead) v
    | inr ((a, cp), e) ↦
        rw (e, mark_dead) (close-IsSound cp a p (find_conn-some c p.conns a cp v.nodup e).0 v)
  ]

  pub delete_conn-IsSound : (i : Bytes) (p : Pool S) → IsSound p → IsSound (delete_conn free i p)
  unfolding delete_conn
  delete_conn-IsSound i p v = elim (Option-cases (lookup (addr i) p.conns)) [
    | inl e ↦ rw (e, delete_conn) v
    | inr (cp, e) ↦ rw (e, delete_conn) (close-IsSound cp (addr i) p e v)
  ]

  pub evict-IsSound :
      (cp : ConnPair) (a : Bytes) (p : Pool S) → IsSound p → IsSound (evict free cp a p)
  unfolding evict
  evict-IsSound cp a p v = elim (Option-cases (lookup a p.conns)) [
    | inl e ↦ rw (e, evict) v
    | inr (cur, e) ↦ elim (Bool-cases (cur.client_conn == cp.client_conn)) [
      | inl same ↦ rw (e, evict) (rw same (close-IsSound cur a p e v))
      | inr other ↦ rw (e, evict) (rw other v)
    ]
  ]

  pub close-IsFresh :
      (conn : ℕ) (cp : ConnPair) (a : Bytes) (p : Pool S)
      → lookup a p.conns ≡ some cp
      → IsFresh conn p
      → IsFresh conn (close free cp a p)
  unfolding holds
  close-IsFresh conn cp a p e f = record {
    open_conn = ground (arith, close-closed cp a p, f.open_conn, f.unused a cp e);
    unused = λ b cq g. f.unused b cq (ground (arith, close-conns cp a p, lookup-erase a b p.conns));
  }

  close-IsNewClient :
      (h : Http2) (conn : ℕ) (cp : ConnPair) (a : Bytes) (p : Pool S)
      → IsNewClient h conn p
      → IsNewClient h conn (close free cp a p)
  close-IsNewClient h conn cp a p n c b cq made g =
      n c b cq made (ground (arith, close-conns cp a p, lookup-erase a b p.conns))

  dial-IsSound :
      (h : Http2) (conn : ℕ) (a : Bytes) (p : Pool S)
      → IsFresh conn p
      → IsNewClient h conn p
      → IsSound p
      → IsSound (dial free h conn a p).1
  unfolding dial holds
  dial-IsSound h conn a p f n v = elim (Option-cases (h.new_client_conn conn)) [
    | inl e ↦
        rw (e, dial)
          (record {
            nodup = v.nodup;
            live = λ b cp g. ground (arith, v.live b cp g, f.unused b cp g);
            conn_once = v.conn_once;
          })
    | inr (c, e) ↦
        let pair : ConnPair = record { conn = conn; client_conn = c } in
        rw (e, dial)
          (record {
            nodup = insert-NodupKeys a pair p.conns v.nodup;
            live =
                λ b cp g. ground (arith, lookup-insert a b pair p.conns, v.live b cp, f.open_conn);
            conn_once = λ b d cp cq g k s. ground (
              arith,
              lookup-insert a b pair p.conns,
              lookup-insert a d pair p.conns,
              beq_iff a b,
              beq_iff a d,
              v.conn_once b d cp cq,
              f.unused b cp,
              f.unused d cq,
              n c b cp e,
              n c d cq e,
            );
          })
  ]

  pub add_conn-IsSound :
      (h : Http2) (conn : ℕ) (i : Bytes) (p : Pool S)
      → IsFresh conn p
      → IsNewClient h conn p
      → IsSound p
      → IsSound (add_conn free h conn i p).1
  unfolding add_conn
  add_conn-IsSound h conn i p f n v = elim (Option-cases (lookup (addr i) p.conns)) [
    | inl e ↦ rw (e, add_conn) (dial-IsSound h conn (addr i) p f n v)
    | inr (cp, e) ↦ elim (Bool-cases (h.ping cp.client_conn)) [
      | inl up ↦ rw (e, add_conn) (rw up v)
      | inr down ↦
          rw (e, add_conn)
            (rw down (
              dial-IsSound h conn (addr i) (close free cp (addr i) p)
                (close-IsFresh conn cp (addr i) p e f) (close-IsNewClient h conn cp (addr i) p n)
                (close-IsSound cp (addr i) p e v)))
    ]
  ]

-- ===== src/Pool/Entries.antt =====
-- Which addresses the pool has, after each of its methods.
use go_tcp_tunnel.Base.{
  ℕ, ◌≡◌, inl, inr, arith, some, Option, Bytes, ◌==◌, if_both, Option-cases, Bool-cases, beq_iff,
}
use go_tcp_tunnel.Base.Dict.{lookup, lookup-insert, lookup-erase}
use go_tcp_tunnel.Pool.{
  ConnPair, Pool, Http2, addr, find_conn, close, evict, mark_dead, dial, add_conn, delete_conn,
}
use go_tcp_tunnel.Pool.Invariant.{close-conns}

-- Every address of the pool satisfies `Q`.
abbrev pub Entries : {S : Type 0} → (Bytes → Type 0) → Pool S → Type 0
Entries Q p = (a : Bytes) (cp : ConnPair) → lookup a p.conns ≡ some cp → Q a

module _ {S : Type 0} (free : Option (Bytes → S → S)) (Q : Bytes → Type 0) where
  close-Entries :
      (cp : ConnPair) (a : Bytes) (p : Pool S) → Entries Q p → Entries Q (close free cp a p)
  close-Entries cp a p v b cq e =
      v b cq (ground (arith, close-conns free cp a p, lookup-erase a b p.conns))

  pub delete_conn-Entries :
      (i : Bytes) (p : Pool S) → Entries Q p → Entries Q (delete_conn free i p)
  unfolding delete_conn
  delete_conn-Entries i p v = elim (Option-cases (lookup (addr i) p.conns)) [
    | inl e ↦ rw (e, delete_conn) v
    | inr (cp, e) ↦ rw (e, delete_conn) (close-Entries cp (addr i) p v)
  ]

  pub evict-Entries :
      (cp : ConnPair) (a : Bytes) (p : Pool S) → Entries Q p → Entries Q (evict free cp a p)
  unfolding evict
  evict-Entries cp a p v = elim (Option-cases (lookup a p.conns)) [
    | inl e ↦ rw (e, evict) v
    | inr (cur, e) ↦
        rw (e, evict)
          (if_both (Entries Q) (cur.client_conn == cp.client_conn) _ _ (close-Entries cur a p v) v)
  ]

  pub mark_dead-Entries : (c : ℕ) (p : Pool S) → Entries Q p → Entries Q (mark_dead free c p)
  unfolding mark_dead
  mark_dead-Entries c p v = elim (Option-cases (find_conn c p.conns)) [
    | inl e ↦ rw (e, mark_dead) v
    | inr ((a, cp), e) ↦ rw (e, mark_dead) (close-Entries cp a p v)
  ]

  dial-Entries :
      (h : Http2) (conn : ℕ) (a : Bytes) (p : Pool S)
      → Q a
      → Entries Q p
      → Entries Q (dial free h conn a p).1
  unfolding dial
  dial-Entries h conn a p q v = elim (Option-cases (h.new_client_conn conn)) [
    | inl e ↦ rw (e, dial) v
    | inr (c, e) ↦
        let pair : ConnPair = record { conn = conn; client_conn = c } in
        rw (e, dial)
          (λ b cp g. ground (arith, lookup-insert a b pair p.conns, beq_iff a b, v b cp, q))
  ]

  pub add_conn-Entries :
      (h : Http2) (conn : ℕ) (i : Bytes) (p : Pool S)
      → Q (addr i)
      → Entries Q p
      → Entries Q (add_conn free h conn i p).1
  unfolding add_conn
  add_conn-Entries h conn i p q v = elim (Option-cases (lookup (addr i) p.conns)) [
    | inl e ↦ rw (e, add_conn) (dial-Entries h conn (addr i) p q v)
    | inr (cp, e) ↦ elim (Bool-cases (h.ping cp.client_conn)) [
      | inl up ↦ rw (e, add_conn) (rw up v)
      | inr down ↦
          rw (e, add_conn)
            (rw down (dial-Entries h conn (addr i) _ q (close-Entries cp (addr i) p v)))
    ]
  ]

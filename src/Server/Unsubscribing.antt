-- ===== src/Server/Unsubscribing.antt =====
-- `Server.Unsubscribe`.
use go_tcp_tunnel.Base.{
  ℕ, ◌≡◌, ◌≢◌, inl, inr, refl, sym, ap, ◌∙◌, arith, true, false, some, Bytes, holds, beq_iff, subst,
}
use go_tcp_tunnel.Base.Dict.{lookup, lookup-insert}
use go_tcp_tunnel.Id.RoundTrip.{IsId}
use go_tcp_tunnel.Pool.{ConnPair, addr, delete_conn}
use go_tcp_tunnel.Pool.State.{delete_conn-keeps}
use go_tcp_tunnel.Pool.Methods.{delete_conn_lem}
use go_tcp_tunnel.Registry.{RegistryItem, void, item, clear, unsubscribe, is_subscribed}
use go_tcp_tunnel.Registry.Invariant.{unsubscribe-IsConsistent}
use go_tcp_tunnel.Registry.Spec.{unsubscribe-items}
use go_tcp_tunnel.Server.{Backend, Server, disconnected, free, server_unsubscribe}
use go_tcp_tunnel.Server.Listeners.{IsTidy, Owner, disconnected-IsTidy}

-- The client has no item.
abbrev pub HasNoItem : Bytes → Backend → Type 0
HasNoItem i b = (j : RegistryItem) → lookup i b.registry.items ≢ some (item j)

unsubscribed : Bytes → Backend → Backend
unsubscribed i b = record {
  registry = (unsubscribe i b.registry).1;
  open_listeners = b.open_listeners;
}

-- A client without an item is forgotten without a leak.
unsubscribed-IsTidy :
    (i : Bytes) (b : Backend) → IsTidy b → HasNoItem i b → IsTidy (unsubscribed i b)
unfolding unsubscribed
unsubscribed-IsTidy i b v n = record {
  consistent = unsubscribe-IsConsistent b.registry v.consistent i;
  owned = λ k h.
      let was = v.owned k h in
      record {
        identifier = was.identifier;
        found = was.found;
        stored = ground (
          arith,
          was.stored,
          n was.found,
          unsubscribe-items i b.registry was.identifier,
          beq_iff i was.identifier,
        );
        held = was.held;
      };
  opened = λ k a j g h. ground (arith, unsubscribe-items i b.registry a, v.opened k a j);
  once = λ k a c j l f g h m.
      ground (
        arith,
        unsubscribe-items i b.registry a,
        unsubscribe-items i b.registry c,
        v.once k a c j l,
      );
}

disconnected-HasNoItem : (i : Bytes) (b : Backend) → HasNoItem i (disconnected i b)
unfolding disconnected clear
disconnected-HasNoItem i b j = ground (arith, lookup-insert i i void b.registry.items, beq_iff i i)

-- The server when `Unsubscribe` comes to the registry.
abbrev pub between : (Server → Server) → Bytes → Server → Server
between others i s = others (delete_conn free i s)

-- What `Unsubscribe` leaves of the server.
server_unsubscribe_parts :
    (others : Server → Server) (i : Bytes) (s : Server)
    → ((server_unsubscribe others i s).1.state ≡ unsubscribed i (between others i s).state)
      × ((server_unsubscribe others i s).1.closed ≡ (between others i s).closed)
unfolding server_unsubscribe unsubscribed
server_unsubscribe_parts others i s = (refl, refl)

-- Where the client has no item then, no listener leaks.
pub server_unsubscribe_keeps :
    (others : Server → Server) (i : Bytes) (s : Server)
    → ((q : Server) → IsTidy q.state → IsTidy (others q).state)
    → HasNoItem i (between others i s).state
    → IsTidy s.state
    → IsTidy (server_unsubscribe others i s).1.state
server_unsubscribe_keeps others i s keeps none_there tidy =
    subst IsTidy (sym (server_unsubscribe_parts others i s).0) (
      unsubscribed-IsTidy i (between others i s).state
        (keeps (delete_conn free i s)
          (delete_conn-keeps IsTidy disconnected (λ j b. disconnected-IsTidy j b) i s tidy))
        none_there)

unsubscribed_unknown :
    (i : Bytes) (b : Backend) → is_subscribed i (unsubscribed i b).registry ≡ false
unfolding is_subscribed unsubscribed
unsubscribed_unknown i b = ground (arith, unsubscribe-items i b.registry i, beq_iff i i)

-- Other goroutines leak no listener, store no item for the client, and open no connection again.
pub record IsHarmless (others : Server → Server) (i : Bytes) (conn : ℕ) : Type 0 where
  pub tidy : (q : Server) → IsTidy q.state → IsTidy (others q).state
  pub no_item : (q : Server) → HasNoItem i q.state → HasNoItem i (others q).state
  pub closed : (q : Server) → holds conn q.closed ≡ true → holds conn (others q).closed ≡ true

-- `Unsubscribe` of a client that is in the pool closes its connection, forgets it, and leaks no
-- listener, if what other goroutines do between its two locks leaks none either, stores no item for
-- the client, and opens no closed connection again.
pub server_unsubscribe-IsTidy :
    (others : Server → Server) (i : Bytes) (s : Server) (cp : ConnPair)
    → IsHarmless others i cp.conn
    → IsId i
    → IsTidy s.state
    → lookup (addr i) s.conns ≡ some cp
    → IsTidy (server_unsubscribe others i s).1.state
      × (is_subscribed i (server_unsubscribe others i s).1.state.registry ≡ false)
      × (holds cp.conn (server_unsubscribe others i s).1.closed ≡ true)
unfolding holds
server_unsubscribe-IsTidy others i s cp harmless v tidy e =
    elim ((delete_conn_lem disconnected i i s v v).1) [
      | inl (absent, _) ↦ absurd (cc (e, absent))
      | inr (cq, found, state, closed) ↦
          let (left, gone) = server_unsubscribe_parts others i s in
          let none_there =
            harmless.no_item (delete_conn free i s)
              (subst (HasNoItem i) (sym state) (disconnected-HasNoItem i s.state)) in
          let shut : holds cp.conn (delete_conn free i s).closed ≡ true =
            ground (arith, closed, e, found) in
          (
            server_unsubscribe_keeps others i s harmless.tidy none_there tidy,
            ap (λ b. is_subscribed i b.registry) left
                ∙ unsubscribed_unknown i (between others i s).state,
            ap (holds cp.conn) gone ∙ harmless.closed (delete_conn free i s) shut,
          )
    ]

-- If the client has an item when `Unsubscribe` comes to the registry, its listeners leak: they stay
-- open, and no item of the registry has them. That is so of a client that has tunnels but is no
-- longer in the pool, and of one for which another goroutine stores an item behind `DeleteConn`.
pub server_unsubscribe_leaks :
    (others : Server → Server) (i : Bytes) (s : Server) (it : RegistryItem) (k : ℕ)
    → IsTidy (between others i s).state
    → lookup i (between others i s).state.registry.items ≡ some (item it)
    → holds k it.listeners ≡ true
    → (holds k (server_unsubscribe others i s).1.state.open_listeners ≡ true)
      × (Owner (server_unsubscribe others i s).1.state.registry.items k → ⊥)
server_unsubscribe_leaks others i s it k tidy stored held =
    let m = between others i s in
    subst (λ b. (holds k b.open_listeners ≡ true) × (Owner b.registry.items k → ⊥))
      (sym (server_unsubscribe_parts others i s).0)
      (unfold unsubscribed in
        (
          tidy.opened k i it stored held,
          λ o. ground (
            arith,
            o.stored,
            o.held,
            unsubscribe-items i m.state.registry o.identifier,
            tidy.once k i o.identifier it o.found stored,
            beq_iff i o.identifier,
            held,
          ),
        ))

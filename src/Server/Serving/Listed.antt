-- ===== src/Server/Serving/Listed.antt =====
-- A server that subscribes no clients itself serves only those that it was told to.
use go_tcp_tunnel.Base.{
  ◌≡◌, inl, inr, refl, sym, ◌∙◌, arith, true, false, Bytes, Bool-cases, Result-cases, subst, beq,
  beq_iff,
}
use go_tcp_tunnel.Base.Dict.{Dict}
use go_tcp_tunnel.Proto.{Tunnel}
use go_tcp_tunnel.Pool.{addr, delete_conn}
use go_tcp_tunnel.Pool.Entries.{
  Entries, add_conn-Entries, delete_conn-Entries, evict-Entries, mark_dead-Entries,
}
use go_tcp_tunnel.Pool.State.{add_conn-keeps, delete_conn-keeps, evict-keeps, mark_dead-keeps}
use go_tcp_tunnel.Registry.{is_subscribed, set}
use go_tcp_tunnel.Registry.Subscribed.{
  is_subscribed-subscribe, is_subscribed-unsubscribe, is_subscribed-clear, is_subscribed-set,
}
use go_tcp_tunnel.Server.{
  Server, ServerConfig, Backend, Listen, free, add_tunnels, finish, collect, Collected, empty_item,
  disconnected, server_unsubscribe,
}
use go_tcp_tunnel.Server.Handling.{close_conn, subscribe_client}
use go_tcp_tunnel.Server.Handshake.{IsKept}
use go_tcp_tunnel.Server.Serving.{Leads, Leads-keeps}

-- The clients that are subscribed, and those in the pool, are listed.
pub record IsListed (Listed : Bytes → Type 0) (s : Server) : Type 0 where
  pub clients : (j : Bytes) → is_subscribed j s.state.registry ≡ true → Listed j
  pub connected : Entries (λ a. (j : Bytes) × (a ≡ addr j) × Listed j) s

disconnected-is_subscribed :
    (i j : Bytes) (b : Backend)
    → is_subscribed j (disconnected i b).registry ≡ is_subscribed j b.registry
unfolding disconnected
disconnected-is_subscribed i j b = ground (arith, is_subscribed-clear i j b.registry)

finish-is_subscribed :
    (i j : Bytes) (b : Backend) (c : Collected)
    → is_subscribed j (finish i b c).1.registry ≡ is_subscribed j b.registry
unfolding finish
finish-is_subscribed i j b c = elim (Result-cases (set c.item i b.registry)) [
  | inl (x, failed) ↦ ground (arith, failed)
  | inr (r, done) ↦ ground (arith, done, is_subscribed-set c.item i j b.registry r done)
]

add_tunnels-is_subscribed :
    (listen : Listen) (base_domain : Bytes) (ts : Dict Tunnel) (i j : Bytes) (b : Backend)
    → is_subscribed j (add_tunnels listen base_domain ts i b).1.registry
      ≡ is_subscribed j b.registry
unfolding add_tunnels
add_tunnels-is_subscribed listen base_domain ts i j b =
    finish-is_subscribed i j b (collect listen base_domain ts empty_item b.open_listeners)

module _ (Listed : Bytes → Type 0) where
  abbrev Clients : Backend → Type 0
  Clients b = (j : Bytes) → is_subscribed j b.registry ≡ true → Listed j

  abbrev HasListed : Bytes → Type 0
  HasListed a = (j : Bytes) × (a ≡ addr j) × Listed j

  disconnected-Clients : (i : Bytes) (b : Backend) → Clients b → Clients (disconnected i b)
  disconnected-Clients i b v j h = v j (sym (disconnected-is_subscribed i j b) ∙ h)

  subscribed-Clients :
      (i : Bytes) (s : Server)
      → Listed i
      → IsListed Listed s
      → IsListed Listed (subscribe_client i s)
  unfolding subscribe_client
  subscribed-Clients i s new v = record {
    clients = λ j h. elim (Bool-cases (beq j i)) [
      | inl same ↦ subst Listed (ground (arith, same, beq_iff j i)) new
      | inr other ↦
          v.clients j (ground (arith, h, other, is_subscribed-subscribe i j s.state.registry))
    ];
    connected = v.connected;
  }

  deleted-IsListed :
      (i : Bytes) (s : Server) → IsListed Listed s → IsListed Listed (delete_conn free i s)
  deleted-IsListed i s v = record {
    clients =
        delete_conn-keeps Clients disconnected (λ k b. disconnected-Clients k b) i s v.clients;
    connected = delete_conn-Entries free HasListed i s v.connected;
  }

  server_unsubscribe-IsListed :
      (others : Server → Server) (i : Bytes) (s : Server)
      → ((q : Server) → IsListed Listed q → IsListed Listed (others q))
      → IsListed Listed s
      → IsListed Listed (server_unsubscribe others i s).1
  unfolding server_unsubscribe
  server_unsubscribe-IsListed others i s keeps v =
      let m = others (delete_conn free i s) in
      let left = keeps (delete_conn free i s) (deleted-IsListed i s v) in
      record {
        clients = λ j h.
            left.clients j (ground (arith, h, is_subscribed-unsubscribe i j m.state.registry));
        connected = left.connected;
      }

  pub IsListed-IsKept :
      (config : ServerConfig)
      → config.auto_subscribe ≡ false
      → IsKept config Listed (IsListed Listed)
  unfolding close_conn
  IsListed-IsKept config manual =
      let freed = λ (i : Bytes) (b : Backend). disconnected-Clients i b in
      record {
        closed = λ conn s u v. record { clients = v.clients; connected = v.connected };
        joined = λ h conn i s fresh new known v. record {
          clients = add_conn-keeps Clients disconnected freed h conn i s v.clients;
          connected =
              add_conn-Entries free HasListed h conn i s (i, refl, v.clients i known) v.connected;
        };
        deleted = λ i s v. record {
          clients = delete_conn-keeps Clients disconnected freed i s v.clients;
          connected = delete_conn-Entries free HasListed i s v.connected;
        };
        evicted = λ cp a s v. record {
          clients = evict-keeps Clients disconnected freed cp a s v.clients;
          connected = evict-Entries free HasListed cp a s v.connected;
        };
        died = λ c s v. record {
          clients = mark_dead-keeps Clients disconnected freed c s v.clients;
          connected = mark_dead-Entries free HasListed c s v.connected;
        };
        added = λ listen ts i s new v. record {
          clients = λ j h.
              v.clients j
                (sym (add_tunnels-is_subscribed listen config.base_domain ts i j s.state) ∙ h);
          connected = v.connected;
        };
        subscribed = λ i s may v.
            subscribed-Clients i s
              (elim may [ inl auto ↦ absurd (cc (auto, manual)) | inr listed ↦ listed ]) v;
        unsubscribed =
            λ others i s keeps none_there v. server_unsubscribe-IsListed others i s keeps v;
      }

-- A server that subscribes no clients itself, and is told to subscribe listed clients only, has no
-- other clients, whatever else happens to it.
pub Leads-IsListed :
    (config : ServerConfig) (Listed : Bytes → Type 0) (s t : Server)
    → config.auto_subscribe ≡ false
    → Leads config Listed s t
    → IsListed Listed s
    → IsListed Listed t
Leads-IsListed config Listed s t manual l v = Leads-keeps (IsListed-IsKept Listed config manual) l v

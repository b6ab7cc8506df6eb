-- ===== src/ServerCommand/Started.antt =====
-- The server that the command starts, and whom it serves as long as it runs.
use go_tcp_tunnel.Base.{
  ℕ, ◌≡◌, ◌⊎◌, inl, inr, sym, ap, ◌∙◌, arith, true, false, some, List, [], ◌∷◌, Bytes, elem, ok,
  All, split, is_empty, Result-cases, Bool-cases, subst, beq, beq_iff,
}
use go_tcp_tunnel.Base.Dict.{lookup}
use go_tcp_tunnel.HostPort.{trim_port}
use go_tcp_tunnel.Id.{empty_id, unmarshal_text}
use go_tcp_tunnel.Id.RoundTrip.{IsId}
use go_tcp_tunnel.CaCommand.{Files, Os}
use go_tcp_tunnel.Tls.{Keys}
use go_tcp_tunnel.Pool.{ConnPair, addr}
use go_tcp_tunnel.Pool.Address.{addr-injective}
use go_tcp_tunnel.Registry.{Registry, new_registry, subscribe, subscriber, is_subscribed}
use go_tcp_tunnel.Registry.Invariant.{owns}
use go_tcp_tunnel.Server.{Server, ServerConfig, Listen, new_server}
use go_tcp_tunnel.Server.Handling.{subscribe_client}
use go_tcp_tunnel.Server.Listeners.{IsTidy}
use go_tcp_tunnel.Server.Serving.{Leads, stays, then_leads, subscribes, Leads-keeps}
use go_tcp_tunnel.Server.Serving.Tidy.{IsTidy-IsKept, new_server-Leads-IsTidy}
use go_tcp_tunnel.Server.Serving.Listed.{IsListed, Leads-IsListed}
use go_tcp_tunnel.ClientIds.{subscribe_ids, subscribe_listed}
use go_tcp_tunnel.ClientIds.Listed.{joined, joined-ne-nil, subscribe_listed-joined}
use go_tcp_tunnel.Lifecycle.{Ports, new_ports, start_ports}
use go_tcp_tunnel.ServerCommand.{
  Options, TlsConfig, tls_config, Running, server_config, listen_config, serving, started,
  listening, created, execute,
}

started_parts :
    (listen : Listen) (tls : TlsConfig) (o : Options) (p : Ports) (r : Registry) (run : Running)
    → (started tls o r (start_ports listen (listen_config o) p)).0 ≡ ok run
    → (run.config ≡ server_config o) × (run.server ≡ serving r) × (run.tls ≡ tls)
unfolding started
started_parts listen tls o p r run e = ground arith

-- What a server that runs was made of.
pub execute_parts :
    (os : Os) (keys : Keys) (fs : Files) (listen : Listen) (o : Options) (opened : List ℕ)
    → (run : Running) → (execute os keys fs listen o opened).0 ≡ ok run
    → (r : Registry) × (tls : TlsConfig) × (subscribe_listed o.client_ids new_registry ≡ ok r)
      × (tls_config os keys fs o ≡ ok tls)
      × (run.config ≡ server_config o)
      × (run.server ≡ serving r)
      × (run.tls ≡ tls)
unfolding execute created listening new_server
execute_parts os keys fs listen o opened run e = elim (Result-cases (tls_config os keys fs o)) [
  | inl (x, failed) ↦ absurd (ground arith)
  | inr (tls, configured) ↦ elim (Result-cases (new_ports listen (listen_config o) opened)) [
    | inl (x, failed) ↦ absurd (ground arith)
    | inr (p, made) ↦ elim (Result-cases (subscribe_listed o.client_ids new_registry)) [
      | inl (x, failed) ↦ absurd (ground arith)
      | inr (r, listed) ↦
          let (a, b, c) = started_parts listen tls o p r run (ground arith) in
          (r, tls, listed, configured, a, b, c)
    ]
  ]
]

subscribed_only :
    (i : Bytes) (is : List Bytes) (r : Registry) (j : Bytes)
    → IsId i
    → All IsId is
    → subscribe_listed (joined i is) new_registry ≡ ok r
    → is_subscribed j r ≡ true
    → elem j (i ∷ is) ≡ true
unfolding is_subscribed new_registry lookup
subscribed_only i is r j v vs listed subscribed =
    let (r', made, which) = subscribe_listed-joined i is new_registry j v vs in
    let same : r' ≡ r = ground (arith, made, listed) in ground (arith, which, same)

abbrev pub OnList : Bytes → List Bytes → Bytes → Type 0
OnList i is j = elem j (i ∷ is) ≡ true

abbrev Anyone : Bytes → Type 0
Anyone j = Unit

subscribe_ids-Leads :
    (config : ServerConfig) (cs : List Bytes) (r r' : Registry)
    → subscribe_ids cs r ≡ ok r'
    → Leads config Anyone (serving r) (serving r')
unfolding subscribe_ids subscribe_client
subscribe_ids-Leads config [] r r' e =
    subst (λ q. Leads config Anyone (serving r) (serving q)) (ground (arith, e)) stays
subscribe_ids-Leads config (c ∷ cs) r r' e = elim (Bool-cases (is_empty c)) [
  | inl empty ↦ absurd (ground (arith, e, empty))
  | inr some_text ↦ elim (Result-cases (unmarshal_text empty_id c)) [
    | inl (x, failed) ↦ absurd (ground (arith, e, failed, some_text))
    | inr (j, read) ↦
        then_leads (subscribes j tt)
          (subscribe_ids-Leads config cs (subscribe j r) r' (ground (arith, e, read, some_text)))
  ]
]

subscribe_listed-Leads :
    (config : ServerConfig) (client_ids : Bytes) (r : Registry)
    → subscribe_listed client_ids new_registry ≡ ok r
    → Leads config Anyone new_server (serving r)
unfolding subscribe_listed new_server
subscribe_listed-Leads config client_ids r e = elim (Bool-cases (is_empty client_ids)) [
  | inl empty ↦
      subscribe_ids-Leads config [] new_registry r
        (unfold subscribe_ids in ground (arith, e, empty))
  | inr given ↦
      subscribe_ids-Leads config (split b',' client_ids) new_registry r (ground (arith, e, given))
]

elem-All : (P : Bytes → Type 0) (j : Bytes) (is : List Bytes) → All P is → elem j is ≡ true → P j
unfolding elem
elem-All P j [] v e = absurd (cc e)
elem-All P j (i ∷ is) v e = elim (Bool-cases (beq j i)) [
  | inl same ↦ subst P (sym ((beq_iff j i).0 same)) v.0
  | inr other ↦ elem-All P j is v.1 (ground (arith, e, other))
]

module _ (os : Os) (keys : Keys) (fs : Files) (listen : Listen) (o : Options) (opened : List ℕ)
    (i : Bytes) (is : List Bytes) (run : Running) (s : Server) (v : IsId i) (vs : All IsId is)
    (ids : o.client_ids ≡ joined i is) (runs : (execute os keys fs listen o opened).0 ≡ ok run)
    (leads : Leads run.config (OnList i is) run.server s) where
  pub running-IsListed : (run.config.auto_subscribe ≡ false) × IsListed (OnList i is) s
  unfolding lookup new_server
  running-IsListed =
      let (r, _, listed, _, config, server, _) =
        execute_parts os keys fs listen o opened run runs in
      let manual : run.config.auto_subscribe ≡ false =
        ground (arith, config, ids, joined-ne-nil i is v) in
      let begins : IsListed (OnList i is) (serving r) = record {
        clients = λ j h.
            subscribed_only i is r j v vs
              (ap (λ c. subscribe_listed c new_registry) (sym ids) ∙ listed) h;
        connected = λ a cp h. cc;
      } in
      (
        manual,
        Leads-IsListed run.config (OnList i is) run.server s manual leads
            (subst (IsListed (OnList i is)) (sym server) begins),
      )

  running-IsTidy : IsTidy s.state
  running-IsTidy =
      let (r, _, listed, _, config, server, _) =
        execute_parts os keys fs listen o opened run runs in
      Leads-keeps (IsTidy-IsKept run.config (OnList i is)) leads (
        subst (λ q. IsTidy q.state) (sym server)
          (new_server-Leads-IsTidy run.config Anyone (serving r)
            (subscribe_listed-Leads run.config o.client_ids r listed)))

  -- A server that the command started with a list of identifiers has no subscriptions, no hosts and
  -- no connections but of clients on the list, whatever clients come, are rejected, die or are
  -- unsubscribed, as long as Subscribe is called for listed clients only; net.Listen is assumed to
  -- open new listeners, Accept and the transport to make new connections, and a client to have
  -- no item when Unsubscribe takes it from the registry.
  pub execute_serves :
      (j : Bytes)
      → IsId j
      → (is_subscribed j s.state.registry ≡ true)
        ⊎ (((host : Bytes) × (subscriber host s.state.registry ≡ some j))
            ⊎ ((cp : ConnPair) × (lookup (addr j) s.conns ≡ some cp)))
      → elem j (i ∷ is) ≡ true
  unfolding subscriber is_subscribed owns
  execute_serves j w (inl subscribed) = running-IsListed.1.clients j subscribed
  execute_serves j w (inr (inl (host, found))) =
      running-IsListed.1.clients j
        (ground (arith, running-IsTidy.consistent.sound (trim_port host) j found))
  execute_serves j w (inr (inr (cp, found))) =
      let (k, same, listed) = running-IsListed.1.connected (addr j) cp found in
      subst (λ l. elem l (i ∷ is) ≡ true)
        (sym (addr-injective j k w (elem-All IsId k (i ∷ is) (v, vs) listed) same)) listed

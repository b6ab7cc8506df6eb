-- ===== src/Lifecycle/Releasing.antt =====
-- The server gives its own listeners back.
use go_tcp_tunnel.Base.{true, ◌++◌, [], holds-append}
use go_tcp_tunnel.Base.{
  ℕ, ◌≡◌, inl, inr, arith, none, some, List, ◌∷◌, Option-cases, Result, ok, err, holds, discard,
  holds-discard, is_empty, ◌||◌, false, Bytes,
}
use go_tcp_tunnel.Server.{Listen}
use go_tcp_tunnel.Server.Tunnels.{OpensNew}
use go_tcp_tunnel.Lifecycle.{
  tcp_network, ListenConfig, ListenError, Ports, new_ports, opened_control, start_ports, stop_ports,
  ports_addr, ports_http_addr,
}

control_of :
    (listen : Listen) (config : ListenConfig) (opened : List ℕ) (p : Ports)
    → config.listener ≡ none
    → new_ports listen config opened ≡ ok p
    → (l : ℕ) × (listen tcp_network config.addr opened ≡ some l)
      × (p ≡ record { control = l; http = none; opened = l ∷ opened })
unfolding new_ports opened_control
control_of listen config opened p own made =
    elim (Option-cases (listen tcp_network config.addr opened)) [
      | inl e ↦ absurd (ground arith)
      | inr (l, e) ↦ (l, e, ground arith)
    ]

-- After a Start that succeeded, Addr is as it was, and HTTPAddr is empty exactly if http tunnels are
-- not configured; no listener's address is the empty text.
pub ports_http_addr-start_ports :
    (listen : Listen) (config : ListenConfig) (text : ℕ → Bytes) (p p' : Ports)
    → ((l : ℕ) → is_empty (text l) ≡ false)
    → p.http ≡ none
    → start_ports listen config p ≡ (ok tt, p')
    → (ports_addr text p' ≡ ports_addr text p)
      × (is_empty (ports_http_addr text p')
          ≡ (is_empty config.base_domain || is_empty config.http_addr))
unfolding start_ports ports_addr ports_http_addr
ports_http_addr-start_ports listen config text p p' named unset starts =
    elim (Option-cases (listen tcp_network config.http_addr p.opened)) [
      | inl e ↦ ground (arith, e)
      | inr (l, e) ↦ ground (arith, e, named l)
    ]

-- The listeners behind a start that failed, or behind Stop, when the listeners of streams were
-- opened in between and are open still.
abbrev pub released : List ℕ → Result ListenError (Unit {0}) × Ports → List ℕ
released streams (err e, p) = p.opened
released streams (ok _, p) = (stop_ports (record p { opened = streams ++ p.opened })).opened

abbrev pub left_to_clients : List ℕ → Result ListenError (Unit {0}) → List ℕ
left_to_clients streams (err e) = []
left_to_clients streams (ok _) = streams

-- Of its own two listeners a server that opened the control listener itself leaves none open:
-- neither when Start fails nor after Stop. What it does not close in Stop are the listeners of
-- clients' streams: those that are open then stay open. net.Listen is assumed to open new listeners.
pub start_ports_releases :
    (listen : Listen) (config : ListenConfig) (opened : List ℕ) (p : Ports) (k : ℕ)
    (streams : List ℕ)
    → OpensNew listen
    → config.listener ≡ none
    → new_ports listen config opened ≡ ok p
    → ((j : ℕ) → holds j streams ≡ true → holds j (start_ports listen config p).1.opened ≡ false)
    → holds k (released streams (start_ports listen config p))
      ≡ (holds k (left_to_clients streams (start_ports listen config p).0) || holds k opened)
unfolding start_ports stop_ports holds
start_ports_releases listen config opened p k streams fresh own made apart =
    let (l, opens, same) = control_of listen config opened p own made in
    elim (Option-cases (listen tcp_network config.http_addr p.opened)) [
      | inl e ↦ ground (
        arith,
        fresh tcp_network config.addr opened l opens,
        holds-discard k l (l ∷ opened),
        holds-discard k l (streams ++ l ∷ opened),
        holds-append k streams (l ∷ opened),
        apart l,
      )
      | inr (m, e) ↦ ground (
        arith,
        fresh tcp_network config.addr opened l opens,
        fresh tcp_network config.http_addr (l ∷ opened) m,
        holds-discard k l (l ∷ opened),
        holds-discard k l (streams ++ l ∷ opened),
        holds-append k streams (l ∷ opened),
        holds-discard k l (streams ++ m ∷ l ∷ opened),
        holds-append k streams (m ∷ l ∷ opened),
        holds-discard k m (discard l (streams ++ m ∷ l ∷ opened)),
        apart l,
        apart m,
      )
    ]

-- ===== src/Server/Accepted.antt =====
-- What `handleClient` did when it returns without rejecting the client.
use go_tcp_tunnel.Base.{
  ℕ, ◌≡◌, inl, inr, refl, ap, arith, none, some, Option, [], ◌∷◌, Bytes, ok, Result-cases,
  Option-cases, Bool-cases, Bool, true, false,
}
use go_tcp_tunnel.Base.Dict.{Dict}
use go_tcp_tunnel.Proto.{Tunnel}
use go_tcp_tunnel.Pool.{add_conn}
use go_tcp_tunnel.Server.{Server, ServerConfig, Backend, add_tunnels, free, finish}
use go_tcp_tunnel.Server.Handling.{
  World, Response, reject_conn, reject_client, notify_tunnel_info, open_tunnels, decoded, answered,
  handshake, joined, join_pool, subscribe_client, handle_client, open_given, collected, until_nil,
}

-- A map without a nil pointer.
abbrev pub pointers : Dict Tunnel → Dict (Option Tunnel)
pointers [] = []
pointers ((name, t) ∷ ts) = (name, some t) ∷ pointers ts

-- The client answered with tunnels, they were added, and the client was told of its hosts.
pub record Accepted (config : ServerConfig) (w : World) (identifier : Bytes) (s' : Server)
    : Type 0 where
  pub asked_in : Server
  pub met : Server
  pub response : Response
  pub answer : w.exchange asked_in ≡ (some response, met)
  pub status : response.status ≡ 200
  pub tunnels : Dict Tunnel
  pub decoded : response.tunnels ≡ some (pointers tunnels)
  pub backend : Backend
  pub added :
      add_tunnels w.listen config.base_domain tunnels identifier met.state ≡ (ok tt, backend)
  pub told : s' ≡ notify_tunnel_info w tunnels identifier (record met { state = backend })

pub open_tunnels_ok :
    (config : ServerConfig) (w : World) (ts : Dict Tunnel) (identifier : Bytes) (s s' : Server)
    → open_tunnels config w ts identifier s ≡ (ok tt, s')
    → (b : Backend) × (add_tunnels w.listen config.base_domain ts identifier s.state ≡ (ok tt, b))
      × (s' ≡ notify_tunnel_info w ts identifier (record s { state = b }))
unfolding open_tunnels reject_client
open_tunnels_ok config w ts identifier s s' e =
    elim (Result-cases (add_tunnels w.listen config.base_domain ts identifier s.state).0) [
      | inl (x, failed) ↦ absurd (ground arith)
      | inr (_, added) ↦ (
        (add_tunnels w.listen config.base_domain ts identifier s.state).1,
        ground (arith, added),
        ground (arith, added),
      )
    ]

until_nil_none :
    (ps : Dict (Option Tunnel)) → (until_nil ps).1 ≡ false → ps ≡ pointers (until_nil ps).0
unfolding until_nil
until_nil_none [] e = refl
until_nil_none ((name, none) ∷ ps) e = absurd (ground arith)
until_nil_none ((name, some t) ∷ ps) e = ap (λ qs. (name, some t) ∷ qs) (until_nil_none ps e)

-- The tunnels before a nil pointer are not accepted.
pub open_given_ok :
    (config : ServerConfig) (w : World) (ts : Dict Tunnel) (nil : Bool) (identifier : Bytes)
    → (s s' : Server) → open_given config w (ts, nil) identifier s ≡ (ok tt, s')
    → (nil ≡ false) × (open_tunnels config w ts identifier s ≡ (ok tt, s'))
unfolding open_given open_tunnels add_tunnels finish reject_client
open_given_ok config w ts false identifier s s' e = (refl, e)
open_given_ok config w ts true identifier s s' e =
    elim (Result-cases (collected config w ts s).result) [
      | inl (x, failed) ↦ absurd (ground arith)
      | inr (_, good) ↦ absurd (ground arith)
    ]

pub decoded_ok :
    (config : ServerConfig) (w : World) (identifier : Bytes) (r : Option (Dict (Option Tunnel)))
    → (s s' : Server) → decoded config w identifier r s ≡ (ok tt, s')
    → (ts : Dict Tunnel) × (r ≡ some (pointers ts))
      × (open_tunnels config w ts identifier s ≡ (ok tt, s'))
unfolding decoded reject_client
decoded_ok config w identifier none s s' e = absurd (ground arith)
decoded_ok config w identifier (some []) s s' e = absurd (ground arith)
decoded_ok config w identifier (some (p ∷ ps)) s s' e =
    let (ts, nil) = until_nil (p ∷ ps) in
    let (whole, opens) =
      open_given_ok config w (until_nil (p ∷ ps)).0 (until_nil (p ∷ ps)).1 identifier s s' e in
    ((until_nil (p ∷ ps)).0, ap some (until_nil_none (p ∷ ps) whole), opens)

pub answered_ok :
    (config : ServerConfig) (w : World) (identifier : Bytes) (r : Option Response) (s s' : Server)
    → answered config w identifier r s ≡ (ok tt, s')
    → (resp : Response) × (ts : Dict Tunnel) × (r ≡ some resp)
      × (resp.status ≡ 200)
      × (resp.tunnels ≡ some (pointers ts))
      × (open_tunnels config w ts identifier s ≡ (ok tt, s'))
unfolding answered reject_client
answered_ok config w identifier none s s' e = absurd (ground arith)
answered_ok config w identifier (some resp) s s' e =
    let fine : resp.status ≡ 200 = ground arith in
    let (ts, found, opens) = decoded_ok config w identifier resp.tunnels s s' (ground arith) in
    (resp, ts, refl, fine, found, opens)

accepted :
    (config : ServerConfig) (w : World) (identifier : Bytes) (s s' : Server)
    → handshake config w identifier s ≡ (ok tt, s')
    → Accepted config w identifier s'
unfolding handshake reject_client
accepted config w identifier s s' e =
    let (resp, ts, got, fine, found, opens) =
      answered_ok config w identifier (w.exchange s).0 (w.exchange s).1 s' (ground arith) in
    let (b, added, told) = open_tunnels_ok config w ts identifier (w.exchange s).1 s' opens in
    record {
      asked_in = s;
      met = (w.exchange s).1;
      response = resp;
      answer = ap (λ r. (r, (w.exchange s).1)) got;
      status = fine;
      tunnels = ts;
      decoded = found;
      backend = b;
      added = added;
      told = told;
    }

join_pool_ok :
    (config : ServerConfig) (w : World) (conn : ℕ) (identifier : Bytes) (s s' : Server)
    → join_pool config w conn identifier s ≡ (ok tt, s')
    → Accepted config w identifier s'
unfolding join_pool joined reject_conn
join_pool_ok config w conn identifier s s' e =
    elim (Result-cases (add_conn free w.http2 conn identifier s).0) [
      | inl (x, failed) ↦ absurd (ground arith)
      | inr (_, inside) ↦
          accepted config w identifier (add_conn free w.http2 conn identifier s).1 s' (ground arith)
    ]

pub handle_client_ok :
    (config : ServerConfig) (w : World) (conn : ℕ) (s s' : Server)
    → handle_client config w conn s ≡ (ok tt, s')
    → (identifier : Bytes) × (w.peer_id ≡ some identifier) × Accepted config w identifier s'
unfolding handle_client reject_conn
handle_client_ok config w conn s s' e = elim (Option-cases w.peer_id) [
  | inl unknown ↦ absurd (ground arith)
  | inr (identifier, known) ↦ elim (Bool-cases config.auto_subscribe) [
    | inl auto ↦ (
      identifier,
      known,
      join_pool_ok config w conn identifier (subscribe_client identifier s) s' (ground arith),
    )
    | inr listed ↦ (identifier, known, join_pool_ok config w conn identifier s s' (ground arith))
  ]
]

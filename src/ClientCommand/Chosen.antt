-- ===== src/ClientCommand/Chosen.antt =====
-- Which tunnels the client starts, and that it verifies the server.
use go_tcp_tunnel.Base.{
  ◌≡◌, inl, inr, refl, ap, sym, ◌∙◌, arith, true, false, none, some, Option, List, [], ◌∷◌, Bytes,
  beq, beq_iff, elem, if◌then◌else◌, Result, ok, ◌>>=◌, bind-ok, subst, require, map_err,
  map_err-ok, Option-cases, Bool-cases,
}
use go_tcp_tunnel.Base.Dict.{Dict, lookup, insert, lookup-insert, NodupKeys, insert-NodupKeys}
use go_tcp_tunnel.HostPort.{split_host_port}
use go_tcp_tunnel.CaCommand.{Os, Files}
use go_tcp_tunnel.Tls.{Keys, load_key_pair, load_roots, load_roots-has_certs, bad_server_addr}
use go_tcp_tunnel.Proto
use go_tcp_tunnel.Config.{Tunnel, tunnels, to_proto, target_map}
use go_tcp_tunnel.Config.Loading.{Loaded, BackoffConfig, ExponentialBackOff, exp_backoff}
use go_tcp_tunnel.Client.{Client, new_client}
use go_tcp_tunnel.ClientCommand.{
  client_error, tls_failed, dump_failed, tls_config, TlsConfig, Libraries, CommandError, Options,
  Ran, started, list_command, start_command, select_tunnels, start_client, execute, resolved,
  id_command,
}

selected :
    (config chosen m : Dict Tunnel)
    → ◌≡◌ {A = Result CommandError (Dict Tunnel)} (ok chosen) (ok m)
    → chosen ≡ m
selected config chosen m e = ground arith

lookup-select_tunnels :
    (args : List Bytes) (config chosen m : Dict Tunnel) (name : Bytes)
    → select_tunnels args config chosen ≡ ok m
    → NodupKeys chosen
    → (lookup name m ≡ (if elem name args then lookup name config else lookup name chosen))
      × NodupKeys m
unfolding select_tunnels elem
lookup-select_tunnels [] config chosen m name e u =
    (ground arith, subst NodupKeys (selected config chosen m e) u)
lookup-select_tunnels (a ∷ args) config chosen m name e u = elim (Option-cases (lookup a config)) [
  | inl absent ↦ absurd (ground arith)
  | inr (t, found) ↦
      let (same, v) =
        lookup-select_tunnels args config (insert a t chosen) m name (ground arith)
          (insert-NodupKeys a t chosen u) in
      (ground (arith, same, lookup-insert a name t chosen, beq_iff a name, beq_iff name a), v)
]

abbrev pub asked_for : Option Tunnel → Option Proto.Tunnel → Option Proto.Tunnel
asked_for none otherwise = otherwise
asked_for (some t) otherwise = some (to_proto t)

lookup-tunnels :
    (name : Bytes) (ts : Dict Tunnel) (p : Dict Proto.Tunnel)
    → NodupKeys ts
    → lookup name (tunnels ts p) ≡ asked_for (lookup name ts) (lookup name p)
unfolding tunnels lookup
lookup-tunnels name [] p u = refl
lookup-tunnels name ((n, t) ∷ ts) p u = ground (
  arith,
  lookup-tunnels name ts (insert n (to_proto t) p) u.1,
  lookup-insert n name (to_proto t) p,
  u.0,
  beq_iff n name,
)

-- The server's certificate is verified, for the host of the configured address.
abbrev pub IsVerifying : Loaded → TlsConfig → Type 0
IsVerifying config tls =
    (tls.insecure_skip_verify ≡ false)
    × ((port : Bytes) × (split_host_port config.server_addr ≡ ok (tls.server_name, port)))

tls_config-IsVerifying :
    (os : Os) (keys : Keys) (fs : Files) (o : Options) (config : Loaded) (tls : TlsConfig)
    → tls_config os keys fs o config ≡ ok tls
    → IsVerifying config tls
unfolding tls_config
tls_config-IsVerifying os keys fs o config tls e =
    let (cert, _, e1) = bind-ok (load_key_pair os keys fs o.tls_crt o.tls_key) _ e in
    let (root_pem, loads, e4) = bind-ok (load_roots keys fs o.root_ca) _ e1 in
    let (parts, split, e5) =
      bind-ok (map_err bad_server_addr (split_host_port config.server_addr)) _ e4 in
    let trusted = load_roots-has_certs keys fs o.root_ca root_pem loads in
    let address = map_err-ok bad_server_addr (split_host_port config.server_addr) split in
    (ground (arith, trusted), (parts.1, ground (arith, address)))

start_client_asks :
    (libraries : Libraries) (os : Os) (keys : Keys) (fs : Files) (o : Options) (config : Loaded)
    (ts : Dict Tunnel)
    → (ran : Ran) → start_client libraries os keys fs o config ts ≡ ok ran
    → (tls : TlsConfig) × (client : Client) × (tls_config os keys fs o config ≡ ok tls)
      × (ran
          ≡ started tls client
              (exp_backoff libraries.new_exponential_backoff config.backoff)
              (tunnels ts [])
              (target_map ts []))
unfolding start_client
start_client_asks libraries os keys fs o config [] ran e = absurd (ground arith)
start_client_asks libraries os keys fs o config (t ∷ ts) ran e =
    let (tls, tls_ok, e1) = bind-ok (map_err tls_failed (tls_config os keys fs o config)) _ e in
    let (_, _, e2) = bind-ok (require (libraries.marshals _) dump_failed) _ e1 in
    let (client, _, e3) = bind-ok (map_err client_error (new_client _)) _ e2 in
    (tls, client, map_err-ok tls_failed (tls_config os keys fs o config) tls_ok, ground arith)

-- The backoff has the settings of the configuration, but still starts with the interval that the
-- library gave it.
abbrev pub Follows : ExponentialBackOff → BackoffConfig → ExponentialBackOff → Type 0
Follows made c b =
    (b.current_interval ≡ made.current_interval)
    × (b.initial_interval ≡ c.interval)
    × (b.multiplier ≡ c.multiplier)
    × (b.max_interval ≡ c.max_interval)
    × (b.max_elapsed_time ≡ c.max_time)

start_client_backs_off :
    (libraries : Libraries) (os : Os) (keys : Keys) (fs : Files) (o : Options) (config : Loaded)
    (ts : Dict Tunnel)
    → (tls : TlsConfig) (client : Client) (b : ExponentialBackOff)
    → (asked : Dict Proto.Tunnel) (targets : Dict Bytes)
    → start_client libraries os keys fs o config ts ≡ ok (started tls client b asked targets)
    → Follows libraries.new_exponential_backoff config.backoff b
unfolding exp_backoff
start_client_backs_off libraries os keys fs o config ts tls client b asked targets e =
    let (_, _, _, same) =
      start_client_asks libraries os keys fs o config ts (started tls client b asked targets) e in
    let made : b ≡ exp_backoff libraries.new_exponential_backoff config.backoff =
      ground (arith, same) in
    subst (Follows libraries.new_exponential_backoff config.backoff) (sym made)
      (refl, refl, refl, refl, refl)

not_other_commands :
    (beq start_command id_command ≡ false)
    × (beq start_command list_command ≡ false)
    × (beq start_command start_command ≡ true)
unfolding beq
not_other_commands = (refl, refl, refl)

start_selects :
    (libraries : Libraries) (os : Os) (keys : Keys) (fs : Files) (opts : Options) (config : Loaded)
    → opts.command ≡ start_command
    → execute libraries os keys fs opts config ≡ (
        select_tunnels opts.args config.tunnels []
        >>= start_client libraries os keys fs (resolved opts config) config)
unfolding execute
start_selects libraries os keys fs opts config command = ground (arith, not_other_commands, command)

named :
    (name : Bytes) (args : List Bytes) (config m : Dict Tunnel)
    → lookup name m ≡ (if elem name args then lookup name config else lookup name [])
    → asked_for (lookup name m) (lookup name [])
      ≡ (if elem name args then asked_for (lookup name config) none else none)
unfolding lookup
named name args config m picked = elim (Bool-cases (elem name args)) [
  | inl e ↦ rw (picked, e) refl
  | inr e ↦ rw (picked, e) refl
]

-- The client that `start` starts verifies the certificate of the server, for the host of the
-- configured address, and asks the server for exactly the tunnels that the command names, as the
-- configuration has them. Its backoff has the settings of the configuration, but the interval that
-- it starts with is that of the library: the configured one is not used before the first reset.
pub execute_start :
    (libraries : Libraries) (os : Os) (keys : Keys) (fs : Files) (opts : Options) (config : Loaded)
    (tls : TlsConfig)
    → (client : Client) (backoff : ExponentialBackOff) (asked : Dict Proto.Tunnel)
      (targets : Dict Bytes) (name : Bytes)
    → opts.command ≡ start_command
    → execute libraries os keys fs opts config ≡ ok (started tls client backoff asked targets)
    → IsVerifying config tls
      × Follows libraries.new_exponential_backoff config.backoff backoff
      × (lookup name asked
          ≡ (if elem name opts.args then asked_for (lookup name config.tunnels) none else none))
unfolding execute
execute_start libraries os keys fs opts config tls client backoff asked targets name command e =
    let (m, chosen, e1) =
      bind-ok (select_tunnels opts.args config.tunnels []) _
        (sym (start_selects libraries os keys fs opts config command) ∙ e) in
    let (tls', _, tls_ok, same) =
      start_client_asks libraries os keys fs (resolved opts config) config m
        (started tls client backoff asked targets) e1 in
    let (picked, u) = lookup-select_tunnels opts.args config.tunnels [] m name chosen tt in
    let asks : asked ≡ tunnels m [] = ground (arith, same) in
    let conf : tls' ≡ tls = ground (arith, same) in
    let sent = ap (λ a. lookup name a) asks ∙ lookup-tunnels name m [] u in
    (
      subst (IsVerifying config) conf
          (tls_config-IsVerifying os keys fs (resolved opts config) config tls' tls_ok),
      start_client_backs_off libraries os keys fs (resolved opts config) config m tls client backoff
          asked targets e1,
      sent ∙ named name opts.args config.tunnels m picked,
    )

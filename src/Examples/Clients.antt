-- ===== src/Examples/Clients.antt =====
-- Runs of the client: its configuration, its requests and its loops.
use go_tcp_tunnel.Lifecycle.{Accept}
use go_tcp_tunnel.Lifecycle.Accepting.{handled, connections}
use go_tcp_tunnel.Base.{
  Option, Bytes, err, ℕ, ◌≡◌, refl, arith, true, false, none, some, List, [], ◌∷◌, codes, ok,
  has_byte, cut_last, cut_first, beq,
}
use go_tcp_tunnel.Base.Dict.{Dict, lookup, insert}
use go_tcp_tunnel.HostPort.{split_host_port, normalize_address, decimal}
use go_tcp_tunnel.Proto.{
  ControlMessage, get, is_stream, is_http, valid_subdomain_label, is_alnum, is_label_byte, tcp,
  http, action_proxy, header_error,
}
use go_tcp_tunnel.StreamProxy.{stream_proxy, new_multi_stream_proxy, forwarded}
use go_tcp_tunnel.Config.{
  Tunnel, nil_tunnel, addr_missing, check_tunnels, check_tunnel, complete_tcp, complete_http,
  target_map,
}
use go_tcp_tunnel.Client.{
  Client, Request, Round, unconnected, connect_method, start, server_error, start_round, connect,
  after_serving, disconnect_error,
}
use go_tcp_tunnel.Client.Requests.{handle_all, start-server_error}
use go_tcp_tunnel.HostPort.{colon, trim_port}
use go_tcp_tunnel.HttpHost.{http_full_host}
use go_tcp_tunnel.Proto
use go_tcp_tunnel.Registry.Hosts.{occupied}
use go_tcp_tunnel.Registry.{new_registry, subscribe, set}
use go_tcp_tunnel.Server.{Backend, add_tunnels, collect, add_tunnel, finish}
use go_tcp_tunnel.Config.{tunnels, to_proto}
use go_tcp_tunnel.Routing.{to_lower, routed, http_message, handle_http_conn}
use go_tcp_tunnel.Examples.Data.{laptop, base, listen, listen-OpensNew}
use go_tcp_tunnel.Lifecycle.{accepted, accept_failed, listen_loop}
use go_tcp_tunnel.Lifecycle.Streams.{IsOpenStream, Reaches, listen_loop-Reaches}
use go_tcp_tunnel.StreamProxy.{local_addr_for, try_key}
use go_tcp_tunnel.Base.{◌+◌, ◌*◌, ◌≤◌}
use go_tcp_tunnel.Base.Dict.{NodupKeys}
use go_tcp_tunnel.Client.Loop.{start_rate}
use go_tcp_tunnel.Routing.{tunnel_hosts}
use go_tcp_tunnel.Routing.Advertised.{handle_http_conn-tunnel_hosts}

abbrev pub raw : Dict (Option Tunnel)
raw =
    (
      codes "ssh",
      some (record { protocol = tcp; addr = codes "22"; remote_addr = []; subdomain = [] }),
    )
    ∷ (
      codes "web",
      some (record { protocol = http; addr = codes "8080"; remote_addr = []; subdomain = [] }),
    )
    ∷ []

abbrev pub ssh : Tunnel
ssh = record {
  protocol = tcp;
  addr = codes "127.0.0.1:22";
  remote_addr = codes "0.0.0.0:22";
  subdomain = [];
}

abbrev pub web : Tunnel
web = record {
  protocol = http;
  addr = codes "127.0.0.1:8080";
  remote_addr = [];
  subdomain = codes "web";
}

pub loads : check_tunnels raw [] ≡ ok ((codes "ssh", ssh) ∷ (codes "web", web) ∷ [])
unfolding check_tunnels check_tunnel complete_tcp complete_http is_stream is_http beq
    normalize_address split_host_port cut_last cut_first has_byte decimal valid_subdomain_label
    is_alnum is_label_byte lookup
loads = refl

-- A null for a tunnel is met after the tunnels before it, and not at all behind a wrong one.
null_tunnel :
    (name : Bytes) (seen : Dict Bytes) → check_tunnels ((name, none) ∷ raw) seen ≡ err nil_tunnel
unfolding check_tunnels
null_tunnel name seen = refl

behind_a_wrong_one :
    check_tunnels
      ((codes "ssh", some (record { protocol = tcp; addr = []; remote_addr = []; subdomain = [] }))
        ∷ (codes "web", none)
        ∷ [])
      []
    ≡ err addr_missing
unfolding check_tunnels check_tunnel complete_tcp is_stream beq
behind_a_wrong_one = refl

-- A remote address that is a port alone is put on the loopback address too.
remote_port :
    complete_tcp
      (record { protocol = tcp; addr = codes "22"; remote_addr = codes "80"; subdomain = [] })
    ≡ ok (record ssh { remote_addr = codes "127.0.0.1:80" })
unfolding complete_tcp normalize_address split_host_port cut_last cut_first has_byte decimal
remote_port = refl

pub web_is_no_stream : is_stream http ≡ false
unfolding is_stream beq
web_is_no_stream = refl

abbrev to_web : ControlMessage
to_web = record {
  action = action_proxy;
  forwarded_host = codes "web";
  forwarded_proto = http;
  remote_addr = codes "10.0.0.1:9";
}

abbrev refusal : Request
refusal = record {
  method = connect_method;
  header = (header_error, codes "unknown client") ∷ [];
  remote_addr = [];
}

refusal_text : get header_error refusal.header ≡ codes "unknown client"
unfolding get lookup beq
refusal_text = refl

abbrev refused : Round
refused = record {
  dialed = ok 3;
  serves = handle_all (refusal ∷ []);
  is_cancelled = false;
  now = 9;
}

start-server_error_example :
    (start (refused ∷ []) unconnected).0 ≡ some (server_error (get header_error refusal.header))
unfolding unconnected
start-server_error_example =
    start-server_error refused [] unconnected 3 [] [] refusal refl refl refl refl
      (record { method = refl; error = λ e. ground (arith, refusal_text) }) tt

abbrev lost : ℕ → Round
lost now = record { dialed = ok 3; serves = λ c. c; is_cancelled = false; now = now }

abbrev rounds : List Round
rounds = lost 7 ∷ lost 6_000_000_000 ∷ []

still_running : (start rounds unconnected).0 ≡ none
unfolding start unconnected start_round connect after_serving disconnect_error
still_running = refl

abbrev pub asked : Dict Proto.Tunnel
asked = tunnels ((codes "ssh", ssh) ∷ (codes "web", web) ∷ []) []

-- The server before the client's tunnels, and what it has behind them.
abbrev waiting : Backend
waiting = record { registry = subscribe laptop new_registry; open_listeners = [] }

abbrev serving : Backend
serving = (add_tunnels listen base asked laptop waiting).1

batch_accepted : add_tunnels listen base asked laptop waiting ≡ (ok tt, serving)
unfolding add_tunnels collect add_tunnel finish subscribe new_registry insert lookup is_stream
    is_http beq tunnels to_proto valid_subdomain_label is_alnum is_label_byte set occupied
batch_accepted = refl

pub full_host :
    to_lower (trim_port (codes "Web.Tunnel.example.com:443")) ≡ http_full_host base (codes "web")
unfolding to_lower trim_port split_host_port cut_last cut_first has_byte http_full_host
full_host = refl

pub base-plain : has_byte colon base ≡ false
unfolding has_byte
base-plain = refl

asked-web : lookup (codes "web") asked ≡ some (to_proto web)
unfolding lookup tunnels to_proto is_http beq insert
asked-web = refl

web_host : http_full_host base (codes "web") ≡ http_full_host base (to_proto web).host
unfolding to_proto is_http beq
web_host = refl

-- What the listener of `0.0.0.0:22` reports for its address.
abbrev to_ssh : ControlMessage
to_ssh = record {
  action = action_proxy;
  forwarded_host = codes "[::]:22";
  forwarded_proto = tcp;
  remote_addr = [];
}

ssh_is_stream : is_stream tcp ≡ true
unfolding is_stream beq
ssh_is_stream = refl

ssh_parts : split_host_port (codes "[::]:22") ≡ ok (codes "::", codes "22")
unfolding split_host_port cut_last cut_first has_byte
ssh_parts = refl

no_such_key :
    (lookup (codes "[::]:22") (target_map ((codes "ssh", ssh) ∷ (codes "web", web) ∷ []) []) ≡ none)
    × (lookup (codes "22") (target_map ((codes "ssh", ssh) ∷ (codes "web", web) ∷ []) []) ≡ none)
unfolding lookup target_map is_stream is_http beq insert
no_such_key = (refl, refl)

ssh_is_open :
    IsOpenStream
      (λ a. true)
      raw
      []
      ((codes "web", web) ∷ [])
      (codes "ssh")
      (codes "::")
      (codes "22")
      ssh
      tcp
      (codes "[::]:22")
ssh_is_open = record {
  loads = loads;
  stream = ssh_is_stream;
  remote_addr = refl;
  unused = (λ e. cc, tt);
  network_is_stream = ssh_is_stream;
  parts = ssh_parts;
  no_address = no_such_key.0;
  no_port = no_such_key.1;
  answers = refl;
}

abbrev ssh_events : List Accept
ssh_events = accepted 5 ∷ accept_failed ∷ accepted 6 ∷ []

listen_loop-Reaches_example :
    (msg : ControlMessage) × (listen_loop laptop tcp (codes "[::]:22") ssh_events
      ≡ (handled (λ c. (laptop, msg)) (connections ssh_events), false))
    × Reaches
        (λ a. true)
        ((codes "ssh", ssh) ∷ (codes "web", web) ∷ [])
        (codes "10.0.0.1:9")
        (codes "127.0.0.1:22")
        laptop
        msg
listen_loop-Reaches_example =
    listen_loop-Reaches (λ a. true) raw [] ((codes "web", web) ∷ []) (codes "ssh") (codes "::")
      (codes "22") ssh tcp (codes "[::]:22") ssh_events laptop (codes "10.0.0.1:9")
      (λ e. cc, (λ e. cc, (λ e. cc, tt))) ssh_is_open

-- An http tunnel whose subdomain is the port of a stream receives what is sent for the stream.
captured :
    stream_proxy
      (λ a. true)
      (new_multi_stream_proxy (
        target_map
          ((codes "ssh", ssh) ∷ (codes "22", record web { subdomain = codes "22" }) ∷ [])
          []))
      to_ssh
    ≡ forwarded (codes "127.0.0.1:8080")
unfolding stream_proxy new_multi_stream_proxy local_addr_for try_key lookup target_map is_stream
    is_http beq insert split_host_port cut_last cut_first has_byte
captured = refl

abbrev cut_once : Client
cut_once = record unconnected { last_disconnect = some 7 }

goes_on : (start (lost 6_000_000_000 ∷ []) cut_once).0 ≡ none
unfolding start unconnected start_round connect after_serving disconnect_error
goes_on = refl

start_rate_example : 7 + 1 * (5 * 1_000_000_000) ≤ 6_000_000_000
unfolding unconnected
start_rate_example = start_rate (lost 6_000_000_000 ∷ []) cut_once 7 (λ c. refl, tt) refl goes_on

asked-NodupKeys : NodupKeys asked
unfolding lookup tunnels to_proto beq insert
asked-NodupKeys = (refl, (refl, tt))

base_is_lower : to_lower base ≡ base
unfolding to_lower
base_is_lower = refl

told : lookup (codes "web") (tunnel_hosts base asked []) ≡ some (codes "web.tunnel.example.com")
unfolding lookup tunnel_hosts tunnels to_proto is_http beq insert http_full_host
told = refl

handle_http_conn-tunnel_hosts_example :
    (t : Proto.Tunnel) × (lookup (codes "web") asked ≡ some t)
    × (handle_http_conn base true (some (codes "web.tunnel.example.com")) true serving.registry
        ≡ routed laptop (http_message t.host))
handle_http_conn-tunnel_hosts_example =
    handle_http_conn-tunnel_hosts listen base asked laptop waiting serving (codes "web")
      (codes "web.tunnel.example.com") listen-OpensNew base-plain base_is_lower asked-NodupKeys
      batch_accepted told

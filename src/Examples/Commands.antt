-- ===== src/Examples/Commands.antt =====
-- Runs of the server's listeners, the reading of hosts, the log, and the client's commands.
use go_tcp_tunnel.Base.{◌||◌, arith}
use go_tcp_tunnel.Base.{◌⊎◌, ◌++◌, some}
use go_tcp_tunnel.Log.Filtered.{IsAtMost}
use go_tcp_tunnel.Routing.{stream_message, handle_http_conn}
use go_tcp_tunnel.Base.{
  ℕ, ◌≡◌, refl, true, false, none, some, List, [], ◌∷◌, ◌++◌, Bytes, codes, ok, holds, beq, elem,
  if◌then◌else◌, ◌==◌, not, is_empty, cut_last, has_byte,
}
use go_tcp_tunnel.Base.Dict.{Dict, lookup, insert}
use go_tcp_tunnel.Proto
use go_tcp_tunnel.Proto.{tcp, http}
use go_tcp_tunnel.Config.{Tunnel, tunnels, target_map}
use go_tcp_tunnel.Config.Loading.{ExponentialBackOff, exp_backoff, Loaded}
use go_tcp_tunnel.Client.{new_client, unconnected}
use go_tcp_tunnel.HostPort.{split_host_port}
use go_tcp_tunnel.CaCommand.{Os, Files, File, written, read_file, check_private_key_permissions}
use go_tcp_tunnel.Tls.{Keys, load_key_pair, load_roots}
use go_tcp_tunnel.ClientCommand
use go_tcp_tunnel.ClientCommand.{
  TlsConfig, tls_config, Options, Libraries, start_command, execute, started, select_tunnels,
  resolve_path, sort_strings, less,
}
use go_tcp_tunnel.ClientCommand.Chosen.{Follows, execute_start, asked_for, IsVerifying}
use go_tcp_tunnel.Registry.{new_registry}
use go_tcp_tunnel.Lifecycle.{
  Accept, Sniffed, listen_loop, listen_http, ListenConfig, Ports, new_ports, start_ports,
  accept_loop, accepted, accept_failed, listener_closed,
}
use go_tcp_tunnel.Lifecycle.Accepting.{accept_loop-closed}
use go_tcp_tunnel.Lifecycle.Releasing.{released, left_to_clients, start_ports_releases}
use go_tcp_tunnel.Log.{pos, text, int, Context, context_log, filter_log, std_log}
use go_tcp_tunnel.Log.Filtered.{context_log-filter_log}
use go_tcp_tunnel.Replay.{Parsed, more, request_for, peek_host_header, read_request, multi_reader}
use go_tcp_tunnel.Examples.Data.{listen, listen-OpensNew}

abbrev events : List Accept
events = accepted 4 ∷ accept_failed ∷ accepted 5 ∷ listener_closed ∷ accepted 6 ∷ []

abbrev sniff : ℕ → Sniffed
sniff c = record {
  has_deadline = true;
  host = some (codes "a.example.com");
  is_cleared = c == 4;
  registry = new_registry;
}

accept_loop-closed_example :
    (accept_loop events ≡ (4 ∷ 5 ∷ [], true))
    × (listen_loop [] (codes "tcp") (codes "[::]:80") events ≡ (
      (4, ([], stream_message (codes "tcp") (codes "[::]:80")))
          ∷ (5, ([], stream_message (codes "tcp") (codes "[::]:80")))
          ∷ [],
      true,
    ))
    × (listen_http (codes "example.com") sniff events ≡ (
      (
        4,
        handle_http_conn
            (codes "example.com")
            true
            (some (codes "a.example.com"))
            true
            new_registry,
      )
          ∷ (
            5,
            handle_http_conn
                (codes "example.com")
                true
                (some (codes "a.example.com"))
                false
                new_registry,
          )
          ∷ [],
      true,
    ))
accept_loop-closed_example =
    accept_loop-closed (accepted 4 ∷ accept_failed ∷ accepted 5 ∷ []) (accepted 6 ∷ []) []
      (codes "tcp") (codes "[::]:80") (codes "example.com") sniff
      (λ e. cc, (λ e. cc, (λ e. cc, tt)))

abbrev ports_config : ListenConfig
ports_config = record {
  listener = none;
  addr = codes ":5223";
  has_tls_config = true;
  base_domain = codes "tunnel.example.com";
  http_addr = codes "127.0.0.1:9000";
}

abbrev ports : Ports
ports = record { control = 8; http = none; opened = 8 ∷ 7 ∷ [] }

ports_made : new_ports listen ports_config (7 ∷ []) ≡ ok ports
unfolding new_ports
ports_made = refl

streams_apart :
    (j : ℕ)
    → holds j (9 ∷ []) ≡ true
    → holds j (start_ports listen ports_config ports).1.opened ≡ false
unfolding holds start_ports
streams_apart j h = ground (arith, h)

start_ports_releases_example :
    holds 7 (released (9 ∷ []) (start_ports listen ports_config ports)) ≡ (
      holds 7 (left_to_clients (9 ∷ []) (start_ports listen ports_config ports).0)
      || holds 7 (7 ∷ []))
start_ports_releases_example =
    start_ports_releases listen ports_config (7 ∷ []) ports 7 (9 ∷ []) listen-OpensNew refl
      ports_made streams_apart

-- Three bytes name the host.
abbrev pub parse : Bytes → Parsed
parse (a ∷ b ∷ c ∷ rest) = request_for (a ∷ b ∷ c ∷ [])
parse other = more

abbrev pub reads : List Bytes
reads = codes "ab" ∷ codes "cd" ∷ codes "ef" ∷ []

pub peeked : peek_host_header parse reads ≡ ok (codes "abc", codes "abcd" ∷ codes "ef" ∷ [])
unfolding peek_host_header read_request multi_reader
peeked = refl

abbrev context : Context
context = record {
  prefix = text (codes "prefix") ∷ text (codes "stream") ∷ [];
  suffix = text (codes "dst") ∷ int (pos 3) ∷ [];
  logger = std_log;
}

not_level :
    (beq (codes "prefix") (codes "level") ≡ false) × (beq (codes "dst") (codes "level") ≡ false)
unfolding beq
not_level = (refl, refl)

context_log-filter_log_example :
    (IsAtMost (pos 2) (pos 1)
      × (context_log
            (record context { logger = filter_log (pos 1) std_log })
            (text (codes "level") ∷ int (pos 2) ∷ [])
          ≡ std_log
              (context.prefix ++ (text (codes "level") ∷ int (pos 2) ∷ ([] ++ context.suffix)))))
    ⊎ ((IsAtMost (pos 2) (pos 1) → ⊥)
        × (context_log
              (record context { logger = filter_log (pos 1) std_log })
              (text (codes "level") ∷ int (pos 2) ∷ [])
            ≡ none))
context_log-filter_log_example =
    context_log-filter_log (pos 1) (pos 2) context [] (not_level.0, tt) (not_level.1, tt) tt

abbrev ssh : Tunnel
ssh = record {
  protocol = tcp;
  addr = codes "127.0.0.1:22";
  remote_addr = codes "0.0.0.0:22";
  subdomain = [];
}

abbrev web : Tunnel
web = record {
  protocol = http;
  addr = codes "127.0.0.1:8080";
  remote_addr = [];
  subdomain = codes "web";
}

abbrev loaded : Loaded
loaded = record {
  server_addr = codes "example.com:5223";
  tls_crt = [];
  tls_key = codes "/etc/tls.key";
  ca_crt = [];
  backoff = record { interval = 1; multiplier = (3, 2); max_interval = 2; max_time = 3 };
  tunnels = (codes "ssh", ssh) ∷ (codes "web", web) ∷ [];
}

abbrev options : Options
options = record ClientCommand.default_options { command = start_command; args = codes "web" ∷ [] }

abbrev pub keys : Keys
keys = record {
  key_pair = λ crt key. some crt;
  raw = λ cert. some cert;
  sum256 = λ s. s;
  has_certs = λ pem. not (is_empty pem);
}

-- Half a second first.
abbrev library_backoff : ExponentialBackOff
library_backoff = record {
  initial_interval = 500_000_000;
  multiplier = (3, 2);
  max_interval = 60_000_000_000;
  max_elapsed_time = 900_000_000_000;
  current_interval = 500_000_000;
}

abbrev pub libraries : Libraries
libraries = record { marshals = λ config. true; new_exponential_backoff = library_backoff }

abbrev pub os : Os
os = record {
  stats = λ path. true;
  writes = λ path. written;
  removes = λ path. true;
  makes_dir = λ path. true;
  masked = λ mode. mode;
  join = λ dir name. dir ++ name;
  is_windows = false;
}

abbrev file : Bytes → ℕ → File
file content mode = record { content = content; mode = mode }

abbrev pub files : Files
files =
    (codes "tls.crt", file (codes "laptop") 420)
    ∷ (codes "/etc/tls.key", file (codes "key") 384)
    ∷ (codes "ca.crt", file (codes "root") 420)
    ∷ []

abbrev tls : TlsConfig
tls = record {
  server_name = codes "example.com";
  certificate = codes "laptop";
  insecure_skip_verify = false;
  root_cas = codes "root";
}

abbrev asked : Dict Proto.Tunnel
asked = tunnels ((codes "web", web) ∷ []) []

abbrev targets : Dict Bytes
targets = target_map ((codes "web", web) ∷ []) []

web_started :
    execute libraries os keys files options loaded
    ≡ ok (started tls unconnected (exp_backoff library_backoff loaded.backoff) asked targets)
unfolding tls_config load_roots load_key_pair check_private_key_permissions read_file
    split_host_port cut_last execute select_tunnels lookup insert resolve_path beq new_client
    tunnels has_byte
web_started = refl

execute_start_example :
    IsVerifying loaded tls
    × Follows library_backoff loaded.backoff (exp_backoff library_backoff loaded.backoff)
    × (lookup (codes "web") asked ≡ (
        if elem (codes "web") options.args
        then asked_for (lookup (codes "web") loaded.tunnels) none
        else none))
execute_start_example =
    execute_start libraries os keys files options loaded tls unconnected
      (exp_backoff library_backoff loaded.backoff) asked targets (codes "web") refl web_started

sorted :
    sort_strings (codes "web" ∷ codes "ssh" ∷ codes "a" ∷ [])
    ≡ codes "a" ∷ codes "ssh" ∷ codes "web" ∷ []
unfolding sort_strings less
sorted = refl

-- ===== src/ClientCommand.antt =====
-- cmd/client/options.go: the commands of the client. The flags are those that were set, the arguments
-- those behind them.
-- The dump of the configuration is a parameter.
pub mod Chosen
use go_tcp_tunnel.Base.{
  Bool, true, false, ◌||◌, none, some, Option, List, [], ◌∷◌, Bytes, codes, beq, ltb, ◌==◌, elem,
  length, if◌then◌else◌, is_empty, Result, ok, err, ◌>>=◌, ◌>>◌, require, map_err, not,
}
use go_tcp_tunnel.Base.Dict.{Dict, lookup, insert}
use go_tcp_tunnel.HostPort.{split_host_port}
use go_tcp_tunnel.Id.{to_string}
use go_tcp_tunnel.Proto
use go_tcp_tunnel.CaCommand.{Files, Os}
use go_tcp_tunnel.Tls.{Keys, TlsError, bad_server_addr, load_key_pair, load_roots, new_id}
use go_tcp_tunnel.Config.{Tunnel, tunnels, target_map}
use go_tcp_tunnel.Config.Loading.{
  LoadError, Loaded, ExponentialBackOff, exp_backoff, Paths, Yaml, load_client_config_from_file,
}
use go_tcp_tunnel.Client.{Client, ClientError, new_client}

pub data CommandError : Type 0 where
  list_arguments start_needs_tunnel start_all_arguments no_tunnels dump_failed cert_failed :
      CommandError
  key_pair_failed tls_failed : TlsError → CommandError
  unknown_command no_such_tunnel : Bytes → CommandError
  client_error : ClientError → CommandError
  configuration_error : LoadError → CommandError

pub record Options : Type 0 where
  pub config : Bytes
  pub tls_crt : Bytes
  pub tls_key : Bytes
  pub root_ca : Bytes
  pub tls_crt_set : Bool
  pub tls_key_set : Bool
  pub root_ca_set : Bool
  pub command : Bytes
  pub args : List Bytes

-- The values of the flags that `Command` declares.
abbrev pub default_options : Options
default_options = record {
  config = codes "tunnel.yml";
  tls_crt = codes "tls.crt";
  tls_key = codes "tls.key";
  root_ca = codes "ca.crt";
  tls_crt_set = false;
  tls_key_set = false;
  root_ca_set = false;
  command = [];
  args = [];
}

unfoldable pub resolve_path : Bytes → Bool → Bytes → Bytes
resolve_path flag_val flag_set config_val =
    if flag_set || is_empty config_val then flag_val else config_val

first_arg : List Bytes → Bytes
first_arg [] = []
first_arg (a ∷ rest) = a

other_args : List Bytes → List Bytes
other_args [] = []
other_args (a ∷ rest) = rest

has_args : List Bytes → Bool
has_args [] = false
has_args (a ∷ rest) = true

abbrev id_command : Bytes
id_command = codes "id"

abbrev pub list_command : Bytes
list_command = codes "list"

abbrev pub start_command : Bytes
start_command = codes "start"

abbrev pub start_all_command : Bytes
start_all_command = codes "start-all"

unfoldable pub complete_args : List Bytes → List Bytes → Options → Result CommandError Options
unfolding first_arg other_args has_args
complete_args set_flags fs o =
    let args = other_args fs in
    let o' = record o {
      tls_crt_set = elem (codes "tls-crt") set_flags;
      tls_key_set = elem (codes "tls-key") set_flags;
      root_ca_set = elem (codes "ca-crt") set_flags;
      command = first_arg fs;
      args = args;
    } in
    if beq o'.command id_command || beq o'.command list_command
    then (do require (not (has_args args)) list_arguments; ok o')
    else if beq o'.command start_command
    then (do require (has_args args) start_needs_tunnel; ok o')
    else if beq o'.command start_all_command
    then (do require (not (has_args args)) start_all_arguments; ok o')
    else err (unknown_command o'.command)

-- The loop over the arguments of `start`.
unfoldable pub select_tunnels :
    List Bytes → Dict Tunnel → Dict Tunnel → Result CommandError (Dict Tunnel)
select_tunnels [] config chosen = ok chosen
select_tunnels (arg ∷ args) config chosen = elim (lookup arg config) [
  | none ↦ err (no_such_tunnel arg)
  | some t ↦ select_tunnels args config (insert arg t chosen)
]

-- `<` on strings.
unfoldable pub less : Bytes → Bytes → Bool
less s [] = false
less [] (c ∷ t) = true
less (b ∷ s) (c ∷ t) = let rest = less s t in if b == c then rest else ltb b c

insert_sorted : Bytes → List Bytes → List Bytes
insert_sorted s [] = s ∷ []
insert_sorted s (t ∷ ts) =
    let rest = insert_sorted s ts in if less t s then t ∷ rest else s ∷ t ∷ ts

-- `sort.Strings`
unfoldable pub sort_strings : List Bytes → List Bytes
unfolding insert_sorted
sort_strings [] = []
sort_strings (s ∷ ss) = insert_sorted s (sort_strings ss)

-- The keys of the map, in the order in which the loop meets them.
unfoldable pub tunnel_names : Dict Tunnel → List Bytes
tunnel_names [] = []
tunnel_names ((name, t) ∷ ts) = name ∷ tunnel_names ts

-- The fields of `tls.Config` that the command sets.
pub record TlsConfig : Type 0 where
  pub server_name : Bytes
  pub certificate : Bytes
  pub insecure_skip_verify : Bool
  pub root_cas : Bytes

-- What `Execute` does: print the identifier or the names, or start a client, which asks the server
-- for tunnels, forwards by a map and dials again with a backoff.
pub data Ran : Type 0 where
  printed_id : Bytes → Ran
  listed : List Bytes → Ran
  started : TlsConfig → Client → ExponentialBackOff → Dict Proto.Tunnel → Dict Bytes → Ran

unfoldable pub tls_config : Os → Keys → Files → Options → Loaded → Result TlsError TlsConfig
tls_config os keys fs o config = do
  cert ← load_key_pair os keys fs o.tls_crt o.tls_key
  root_pem ← load_roots keys fs o.root_ca
  parts ← map_err bad_server_addr (split_host_port config.server_addr)
  ok (record {
    server_name = parts.0;
    certificate = cert;
    insecure_skip_verify = not (keys.has_certs root_pem);
    root_cas = root_pem;
  })

-- `yaml.Marshal` of the configuration, which is logged, and `backoff.NewExponentialBackOff()`.
pub record Libraries : Type 0 where
  pub marshals : Loaded → Bool
  pub new_exponential_backoff : ExponentialBackOff

start_client :
    Libraries → Os → Keys → Files → Options → Loaded → Dict Tunnel → Result CommandError Ran
start_client libraries os keys fs o config [] = err no_tunnels
start_client libraries os keys fs o config (t ∷ ts) = do
  tls ← map_err tls_failed (tls_config os keys fs o config)
  require (libraries.marshals (record config { tunnels = t ∷ ts })) dump_failed
  client ← map_err client_error (
      new_client (record {
        server_addr = config.server_addr;
        has_tls_config = true;
        tunnel_count = length (tunnels (t ∷ ts) []);
        has_proxy = true;
      }))
  ok (
      started tls client (exp_backoff libraries.new_exponential_backoff config.backoff)
        (tunnels (t ∷ ts) []) (target_map (t ∷ ts) []))

-- The command `id`.
raw_of : Option Bytes → Result CommandError Bytes
raw_of none = err cert_failed
raw_of (some raw) = ok raw

print_id : Os → Keys → Files → Options → Result CommandError Ran
unfolding raw_of
print_id os keys fs o = do
  cert ← map_err key_pair_failed (load_key_pair os keys fs o.tls_crt o.tls_key)
  raw ← raw_of (keys.raw cert)
  ok (printed_id (to_string (new_id keys raw)))

-- The paths of the command line, or else of the configuration.
abbrev pub resolved : Options → Loaded → Options
resolved opts config = record opts {
  tls_crt = resolve_path opts.tls_crt opts.tls_crt_set config.tls_crt;
  tls_key = resolve_path opts.tls_key opts.tls_key_set config.tls_key;
  root_ca = resolve_path opts.root_ca opts.root_ca_set config.ca_crt;
}

unfoldable pub execute : Libraries → Os → Keys → Files → Options → Loaded → Result CommandError Ran
unfolding start_client print_id
execute libraries os keys fs opts config =
    let o = resolved opts config in
    if beq o.command id_command
    then print_id os keys fs o
    else if beq o.command list_command
    then ok (listed (sort_strings (tunnel_names config.tunnels)))
    else if beq o.command start_command
    then (do
      chosen ← select_tunnels o.args config.tunnels []
      start_client libraries os keys fs o config chosen)
    else start_client libraries os keys fs o config config.tunnels

-- `Execute`
unfoldable pub load_and_execute :
    Paths → Yaml → Libraries → Os → Keys → Files → Options → Result CommandError Ran
load_and_execute paths yaml libraries os keys fs opts = do
  config ← map_err configuration_error (load_client_config_from_file paths yaml fs opts.config)
  execute libraries os keys fs opts config

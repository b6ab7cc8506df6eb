-- ===== src/Examples/Programs.antt =====
-- Runs of the program, and of a server that it starts.
use go_tcp_tunnel.Base.{
  ◌≡◌, ◌↔◌, refl, ap, ◌∙◌, true, false, none, some, List, [], ◌∷◌, Bytes, codes, beq, elem, ok, err,
  Result,
}
use go_tcp_tunnel.Base.Dict.{lookup}
use go_tcp_tunnel.Tls.{Peer, peer_id, identified, load_key_pair, load_roots}
use go_tcp_tunnel.CaCommand.{read_file, check_private_key_permissions}
use go_tcp_tunnel.Registry.{Registry, new_registry}
use go_tcp_tunnel.Server.{new_server}
use go_tcp_tunnel.Server.Handling.{World, handle_client}
use go_tcp_tunnel.ClientIds.{subscribe_listed}
use go_tcp_tunnel.ClientIds.Listed.{joined, subscribe_listed-joined}
use go_tcp_tunnel.Lifecycle.{Ports, new_ports, start_ports}
use go_tcp_tunnel.ServerCommand.{Running, execute, tls_config}
use go_tcp_tunnel.ServerCommand
use go_tcp_tunnel.Main.{Env, Flags, exits, ca_command, main}
use go_tcp_tunnel.Main.Status.{Succeeds, main-zero_iff, main-Keeps}
use go_tcp_tunnel.Examples.Data.{laptop, laptop-IsId, listen, listen-OpensNew, world}
use go_tcp_tunnel.Pool.Invariant.{IsFresh, IsNewClient}
use go_tcp_tunnel.Server.{Server}
use go_tcp_tunnel.Server.Handling.{subscribe_client}
use go_tcp_tunnel.Server.Handshake.{subscribe_client-is_subscribed}
use go_tcp_tunnel.Server.Serving.{Leads, stays, then_leads, handles, subscribes}
use go_tcp_tunnel.ServerCommand.Started.{OnList, execute_serves}
use go_tcp_tunnel.Base.{inl, holds, beq_iff, arith}
use go_tcp_tunnel.Examples.Codec.{crypto}
use go_tcp_tunnel.Examples.Certificates.{os, first_draw, before, note, note_there, again}
use go_tcp_tunnel.Examples.Commands
use go_tcp_tunnel.Examples.Commands.{keys, files, libraries}

abbrev env : Env
env = record {
  os = os;
  keys = keys;
  paths = record { is_abs = λ p. false; dir = λ p. []; join = λ dir p. p };
  yaml = λ backoff text. none;
  libraries = libraries;
  crypto = crypto;
  draw = first_draw;
  listen = listen;
  rounds = [];
  accepts = [];
}

abbrev flags : Flags
flags = record {
  global = λ args. ok (false, args);
  client = λ args. err 2;
  server = λ args. err 2;
  ca = λ args. ok ([], args, again);
}

abbrev init_line : List Bytes
init_line = ca_command ∷ codes "init" ∷ []

main-Keeps_example : lookup (codes "note") (main env flags init_line before).1 ≡ some note
main-Keeps_example = main-Keeps env flags init_line before (codes "note") note refl note_there

main-zero_iff_example :
    ((main env flags init_line before).0 ≡ exits 0) ↔ Succeeds env flags init_line before
main-zero_iff_example = main-zero_iff env flags init_line before

-- A command that does not exist is ignored.
no_such_command : (main env flags (codes "sever" ∷ []) before).0 ≡ exits 0
unfolding main beq
no_such_command = refl

abbrev server_options : ServerCommand.Options
server_options = record ServerCommand.default_options {
  tls_key = codes "/etc/tls.key";
  client_ids = joined laptop [];
}

abbrev value_of : {A : Type 0} → A → Result ServerCommand.CommandError A → A
value_of otherwise (ok a) = a
value_of otherwise (err e) = otherwise

abbrev peer : Peer
peer = record { shakes_hands = true; certs = codes "desktop" ∷ [] }

abbrev with_peer : World
with_peer = record world { peer_id = identified (peer_id keys peer) }

abbrev outcome : Result ServerCommand.CommandError Running
outcome = (execute Commands.os keys files listen server_options []).0

abbrev tls : ServerCommand.TlsConfig
tls = record {
  certificate = codes "laptop";
  client_auth = ServerCommand.require_and_verify_client_cert;
  client_cas = codes "root";
  root_cas = codes "root";
  session_tickets_disabled = true;
  min_version = 771;
  next_protos = codes "h2" ∷ [];
}

abbrev ports : Ports
ports = record { control = 0; http = none; opened = 0 ∷ [] }

listens :
    outcome
    ≡ (ServerCommand.listening listen tls server_options ports
        (subscribe_listed (joined laptop []) new_registry)).0
unfolding execute tls_config load_key_pair load_roots check_private_key_permissions read_file lookup
    beq new_ports ServerCommand.created new_server
listens = refl

abbrev run_of : Registry → Running
run_of r = record {
  tls = tls;
  config = ServerCommand.server_config server_options;
  server = ServerCommand.serving r;
  ports = ports;
}

starts :
    (r : Registry)
    → (ServerCommand.listening listen tls server_options ports (ok r)).0 ≡ ok (run_of r)
unfolding ServerCommand.listening ServerCommand.started start_ports
starts r = refl

ran : (run : Running) × (outcome ≡ ok run)
ran =
    let (r, listed, _) = subscribe_listed-joined laptop [] new_registry laptop laptop-IsId tt in
    (
      run_of r,
      listens
          ∙ (ap (λ q. (ServerCommand.listening listen tls server_options ports q).0) listed
              ∙ starts r),
    )

started-IsFresh : IsFresh 3 ran.0.server
unfolding ran new_server lookup holds
started-IsFresh = record { open_conn = refl; unused = λ a cp h. cc }

started-IsNewClient : IsNewClient world.http2 3 ran.0.server
unfolding ran new_server lookup
started-IsNewClient c a cp made h = cc

-- A client comes, and the client of the list is subscribed again.
abbrev subscribed_again : Server
subscribed_again = subscribe_client laptop (handle_client ran.0.config world 3 ran.0.server).1

laptop-OnList : OnList laptop [] laptop
unfolding elem
laptop-OnList = ground (arith, beq_iff laptop laptop)

again-Leads : Leads ran.0.config (OnList laptop []) ran.0.server subscribed_again
again-Leads =
    then_leads
      (handles world 3 started-IsFresh started-IsNewClient listen-OpensNew (λ q. stays)
        (λ j q. stays))
      (subscribes laptop laptop-OnList)

execute_serves_example : elem laptop (laptop ∷ []) ≡ true
execute_serves_example =
    execute_serves Commands.os keys files listen server_options [] laptop [] ran.0 subscribed_again
      laptop-IsId tt refl ran.1 again-Leads laptop laptop-IsId
      (inl
        (subscribe_client-is_subscribed laptop (handle_client ran.0.config world 3 ran.0.server).1))

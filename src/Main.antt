-- ===== src/Main.antt =====
-- cmd/go-stream-tunnel/main.go: the program, with the commands of cmd/client, cmd/server and cmd/ca.
-- The package flag, which ends the program where the flags are wrong or help is asked for, is a
-- parameter.
pub mod Status
use go_tcp_tunnel.Base.{
  ℕ, Bool, true, false, none, some, Option, List, [], ◌∷◌, Bytes, codes, beq, if◌then◌else◌, Result,
  ok, err,
}
use go_tcp_tunnel.Ca.{Crypto, Draw}
use go_tcp_tunnel.CaCommand.{Files, Os}
use go_tcp_tunnel.CaCommand
use go_tcp_tunnel.Tls.{Keys}
use go_tcp_tunnel.Config
use go_tcp_tunnel.Config.Loading
use go_tcp_tunnel.Config.Loading.{Paths, Yaml}
use go_tcp_tunnel.Client.{Client, Round, ClientError}
use go_tcp_tunnel.Client
use go_tcp_tunnel.ClientCommand.{Libraries, Ran, printed_id, listed, started, load_and_execute}
use go_tcp_tunnel.ClientCommand
use go_tcp_tunnel.Server.{Listen}
use go_tcp_tunnel.Lifecycle.{Accept, accept_loop}
use go_tcp_tunnel.ServerCommand.{Running}
use go_tcp_tunnel.ServerCommand

-- The four flag sets: `err` is the status with which parsing ends the program. The flags that were
-- set, the arguments behind them, and the values are what is parsed.
pub record Flags : Type 0 where
  pub global : List Bytes → Result ℕ (Bool × List Bytes)
  pub client : List Bytes → Result ℕ (List Bytes × List Bytes × ClientCommand.Options)
  pub server : List Bytes → Result ℕ ServerCommand.Options
  pub ca : List Bytes → Result ℕ (List Bytes × List Bytes × CaCommand.Options)

-- What the program meets: `rounds` as a client, `accepts` as a server.
pub record Env : Type 0 where
  pub os : Os
  pub keys : Keys
  pub paths : Paths
  pub yaml : Yaml
  pub libraries : Libraries
  pub crypto : Crypto
  pub draw : Draw
  pub listen : Listen
  pub rounds : List Round
  pub accepts : List Accept

pub data Ended : Type 0 where
  exits : ℕ → Ended
  runs : Ended

-- `Start` returns an error whenever it returns.
start_ended : Option ClientError → Ended
start_ended none = runs
start_ended (some e) = exits 1

-- Go ends a program that panics with status 2.
abbrev is_panic : ClientCommand.CommandError → Bool
is_panic e = elim e [
  | ClientCommand.configuration_error (Loading.config_error Config.nil_tunnel) ↦ true
  | _ ↦ false
]

client_ended : List Round → Result ClientCommand.CommandError Ran → Ended
unfolding start_ended
client_ended rounds (err e) = if is_panic e then exits 2 else exits 1
client_ended rounds (ok (printed_id text)) = exits 0
client_ended rounds (ok (listed names)) = exits 0
client_ended rounds (ok (started tls client backoff asked targets)) =
    start_ended (Client.start rounds client).0

client_main : Env → Flags → List Bytes → Files → Ended
unfolding client_ended
client_main env flags args fs = elim (flags.client args) [
  | err status ↦ exits status
  | ok (set, rest, o) ↦ elim (ClientCommand.complete_args set rest o) [
    | err e ↦ exits 1
    | ok o' ↦
        client_ended env.rounds
          (load_and_execute env.paths env.yaml env.libraries env.os env.keys fs o')
  ]
]

server_ended : List Accept → Result ServerCommand.CommandError Running → Ended
server_ended accepts (err e) = exits 1
server_ended accepts (ok run) = if (accept_loop accepts).1 then exits 1 else runs

server_main : Env → Flags → List Bytes → Files → Ended
unfolding server_ended
server_main env flags args fs = elim (flags.server args) [
  | err status ↦ exits status
  | ok o ↦ server_ended env.accepts (ServerCommand.execute env.os env.keys fs env.listen o []).0
]

ca_ended : Result CaCommand.CommandError (Bytes × Bytes) → Ended
ca_ended (err e) = exits 1
ca_ended (ok pair) = exits 0

ca_main : Env → Flags → List Bytes → Files → Ended × Files
unfolding ca_ended
ca_main env flags args fs = elim (flags.ca args) [
  | err status ↦ (exits status, fs)
  | ok (set, rest, o) ↦ elim (CaCommand.complete_args set rest o) [
    | err e ↦ (exits 1, fs)
    | ok o' ↦
        let (result, fs') = CaCommand.execute env.os env.crypto env.draw o' fs in
        (ca_ended result, fs')
  ]
]

abbrev pub client_command : Bytes
client_command = codes "client"

abbrev pub server_command : Bytes
server_command = codes "server"

abbrev pub ca_command : Bytes
ca_command = codes "ca"

-- The switch has no default.
run_command : Env → Flags → Bytes → List Bytes → Files → Ended × Files
unfolding client_main server_main ca_main
run_command env flags command args fs =
    if beq command client_command
    then (client_main env flags args fs, fs)
    else if beq command server_command
    then (server_main env flags args fs, fs)
    else if beq command ca_command
    then ca_main env flags args fs
    else (exits 0, fs)

unfoldable pub main : Env → Flags → List Bytes → Files → Ended × Files
unfolding run_command
main env flags args fs = elim (flags.global args) [
  | err status ↦ (exits status, fs)
  | ok (true, rest) ↦ (exits 0, fs)
  | ok (false, []) ↦ (exits 1, fs)
  | ok (false, command ∷ rest) ↦ run_command env flags command rest fs
]

-- ===== src/Main/Status.antt =====
-- How the program ends, and what it leaves of the files.
use go_tcp_tunnel.Base.{
  ◌≡◌, ◌≢◌, ◌⊎◌, ◌↔◌, inl, inr, refl, arith, Bool, true, false, some, List, [], ◌∷◌, Bytes, beq,
  beq-cases, beq_iff, Result, ok, err, Result-cases,
}
use go_tcp_tunnel.Base.Dict.{lookup}
use go_tcp_tunnel.CaCommand.{Files, File}
use go_tcp_tunnel.CaCommand
use go_tcp_tunnel.CaCommand.Files.{execute-Keeps}
use go_tcp_tunnel.ClientCommand.{Ran, printed_id, listed, started, load_and_execute}
use go_tcp_tunnel.ClientCommand
use go_tcp_tunnel.Main.{
  Env, Flags, exits, start_ended, client_ended, client_main, server_ended, server_main, ca_ended,
  ca_main, client_command, server_command, ca_command, run_command, main,
}

abbrev pub is_printed : Ran → Bool
is_printed (printed_id text) = true
is_printed (listed names) = true
is_printed (started tls client backoff asked targets) = false

-- Help, or a command that prints something and ends.
abbrev pub ClientSucceeds : Env → Flags → List Bytes → Files → Type 0
ClientSucceeds env flags args fs =
    (flags.client args ≡ err 0)
    ⊎ ((set rest : List Bytes) × (o o' : ClientCommand.Options) × (ran : Ran) × (flags.client args
          ≡ ok (set, rest, o))
        × (ClientCommand.complete_args set rest o ≡ ok o')
        × (load_and_execute env.paths env.yaml env.libraries env.os env.keys fs o' ≡ ok ran)
        × (is_printed ran ≡ true))

abbrev pub CaSucceeds : Env → Flags → List Bytes → Files → Type 0
CaSucceeds env flags args fs =
    (flags.ca args ≡ err 0)
    ⊎ ((set rest : List Bytes) × (o o' : CaCommand.Options) × (pair : Bytes × Bytes) × (flags.ca
            args
          ≡ ok (set, rest, o))
        × (CaCommand.complete_args set rest o ≡ ok o')
        × ((CaCommand.execute env.os env.crypto env.draw o' fs).0 ≡ ok pair))

client_ended_zero :
    (env : Env) (r : Result ClientCommand.CommandError Ran)
    → client_ended env.rounds r ≡ exits 0
    → (ran : Ran) × (r ≡ ok ran) × (is_printed ran ≡ true)
unfolding client_ended start_ended
client_ended_zero env (err e) h = absurd (ground arith)
client_ended_zero env (ok (printed_id text)) h = (printed_id text, refl, refl)
client_ended_zero env (ok (listed names)) h = (listed names, refl, refl)
client_ended_zero env (ok (started tls client backoff asked targets)) h = absurd (ground arith)

client_main_zero :
    (env : Env) (flags : Flags) (args : List Bytes) (fs : Files)
    → client_main env flags args fs ≡ exits 0
    → ClientSucceeds env flags args fs
unfolding client_main
client_main_zero env flags args fs h = elim (Result-cases (flags.client args)) [
  | inl (status, e) ↦ inl (ground arith)
  | inr ((set, rest, o), e) ↦ elim (Result-cases (ClientCommand.complete_args set rest o)) [
    | inl (x, f) ↦ absurd (ground arith)
    | inr (o', f) ↦
        let (ran, ran_ok, printed) = client_ended_zero env _ (ground arith) in
        inr (set, rest, o, o', ran, e, f, ran_ok, printed)
  ]
]

server_main_zero :
    (env : Env) (flags : Flags) (args : List Bytes) (fs : Files)
    → server_main env flags args fs ≡ exits 0
    → flags.server args ≡ err 0
unfolding server_main server_ended
server_main_zero env flags args fs h = ground arith

ca_main_zero :
    (env : Env) (flags : Flags) (args : List Bytes) (fs : Files)
    → (ca_main env flags args fs).0 ≡ exits 0
    → CaSucceeds env flags args fs
unfolding ca_main ca_ended
ca_main_zero env flags args fs h = elim (Result-cases (flags.ca args)) [
  | inl (status, e) ↦ inl (ground arith)
  | inr ((set, rest, o), e) ↦ elim (Result-cases (CaCommand.complete_args set rest o)) [
    | inl (x, f) ↦ absurd (ground arith)
    | inr (o', f) ↦ elim (Result-cases (CaCommand.execute env.os env.crypto env.draw o' fs).0) [
      | inl (x, g) ↦ absurd (ground arith)
      | inr (pair, g) ↦ inr (set, rest, o, o', pair, e, f, g)
    ]
  ]
]

-- What follows the global flags. A server never succeeds, and an unknown command always does.
abbrev pub CommandSucceeds : Env → Flags → Bytes → List Bytes → Files → Type 0
CommandSucceeds env flags command args fs =
    ((command ≡ client_command) × ClientSucceeds env flags args fs)
    ⊎ (((command ≡ server_command) × (flags.server args ≡ err 0))
        ⊎ (((command ≡ ca_command) × CaSucceeds env flags args fs)
            ⊎ ((command ≢ client_command) × (command ≢ server_command) × (command ≢ ca_command))))

abbrev pub Succeeds : Env → Flags → List Bytes → Files → Type 0
Succeeds env flags args fs =
    (flags.global args ≡ err 0)
    ⊎ (((rest : List Bytes) × (flags.global args ≡ ok (true, rest)))
        ⊎ ((command : Bytes) × (rest : List Bytes) × (flags.global args
              ≡ ok (false, command ∷ rest))
            × CommandSucceeds env flags command rest fs))

run_command_zero :
    (env : Env) (flags : Flags) (command : Bytes) (args : List Bytes) (fs : Files)
    → (run_command env flags command args fs).0 ≡ exits 0
    → CommandSucceeds env flags command args fs
unfolding run_command
run_command_zero env flags command args fs h = elim (beq-cases command client_command) [
  | inl (e, p) ↦ inl (p, client_main_zero env flags args fs (ground arith))
  | inr (e, np) ↦ elim (beq-cases command server_command) [
    | inl (f, p) ↦ inr (inl (p, server_main_zero env flags args fs (ground arith)))
    | inr (f, nq) ↦ elim (beq-cases command ca_command) [
      | inl (g, p) ↦ inr (inr (inl (p, ca_main_zero env flags args fs (ground arith))))
      | inr (g, nr) ↦ inr (inr (inr (np, nq, nr)))
    ]
  ]
]

main_zero :
    (env : Env) (flags : Flags) (args : List Bytes) (fs : Files)
    → (main env flags args fs).0 ≡ exits 0
    → Succeeds env flags args fs
unfolding main
main_zero env flags args fs h = elim (Result-cases (flags.global args)) [
  | inl (status, e) ↦ inl (ground arith)
  | inr ((true, rest), e) ↦ inr (inl (rest, e))
  | inr ((false, []), e) ↦ absurd (ground arith)
  | inr ((false, command ∷ rest), e) ↦
      inr (inr (command, rest, e, run_command_zero env flags command rest fs (ground arith)))
]

printed_zero :
    (env : Env) (ran : Ran) → is_printed ran ≡ true → client_ended env.rounds (ok ran) ≡ exits 0
unfolding client_ended
printed_zero env (printed_id text) h = refl
printed_zero env (listed names) h = refl
printed_zero env (started tls client backoff asked targets) h = absurd (ground arith)

client_main_succeeds :
    (env : Env) (flags : Flags) (args : List Bytes) (fs : Files)
    → ClientSucceeds env flags args fs
    → client_main env flags args fs ≡ exits 0
unfolding client_main
client_main_succeeds env flags args fs (inl e) = rw (e, client_main) refl
client_main_succeeds env flags args fs (inr (set, rest, o, o', ran, e, f, g, printed)) =
    rw (e, client_main) (rw f (rw g (printed_zero env ran printed)))

ca_main_succeeds :
    (env : Env) (flags : Flags) (args : List Bytes) (fs : Files)
    → CaSucceeds env flags args fs
    → (ca_main env flags args fs).0 ≡ exits 0
unfolding ca_main ca_ended
ca_main_succeeds env flags args fs (inl e) = rw (e, ca_main) refl
ca_main_succeeds env flags args fs (inr (set, rest, o, o', pair, e, f, g)) =
    rw (e, ca_main) (rw f (rw g refl))

server_main_succeeds :
    (env : Env) (flags : Flags) (args : List Bytes) (fs : Files)
    → flags.server args ≡ err 0
    → server_main env flags args fs ≡ exits 0
unfolding server_main
server_main_succeeds env flags args fs e = rw (e, server_main) refl

run_command_succeeds :
    (env : Env) (flags : Flags) (command : Bytes) (args : List Bytes) (fs : Files)
    → CommandSucceeds env flags command args fs
    → (run_command env flags command args fs).0 ≡ exits 0
unfolding run_command beq
run_command_succeeds env flags command args fs (inl (e, s)) =
    rw e (client_main_succeeds env flags args fs s)
run_command_succeeds env flags command args fs (inr (inl (e, s))) =
    rw e (server_main_succeeds env flags args fs s)
run_command_succeeds env flags command args fs (inr (inr (inl (e, s)))) =
    rw e (ca_main_succeeds env flags args fs s)
run_command_succeeds env flags command args fs (inr (inr (inr (a, b, c)))) = ground (
  arith,
  beq_iff command client_command,
  beq_iff command server_command,
  beq_iff command ca_command,
)

main-Succeeds :
    (env : Env) (flags : Flags) (args : List Bytes) (fs : Files)
    → Succeeds env flags args fs
    → (main env flags args fs).0 ≡ exits 0
unfolding main
main-Succeeds env flags args fs (inl e) = rw (e, main) refl
main-Succeeds env flags args fs (inr (inl (rest, e))) = rw (e, main) refl
main-Succeeds env flags args fs (inr (inr (command, rest, e, s))) =
    rw (e, main) (run_command_succeeds env flags command rest fs s)

-- The program ends with status 0 exactly in these cases: help or the version was asked for; the
-- client printed its identifier or the names of its tunnels; the ca command made its files; or the
-- command is none of the three. A client that was started, and a server, never end with status 0.
pub main-zero_iff :
    (env : Env) (flags : Flags) (args : List Bytes) (fs : Files)
    → ((main env flags args fs).0 ≡ exits 0) ↔ Succeeds env flags args fs
main-zero_iff env flags args fs = (main_zero env flags args fs, main-Succeeds env flags args fs)

ca_main-Keeps :
    (env : Env) (flags : Flags) (args : List Bytes) (fs : Files) (q : Bytes) (f : File)
    → env.os.stats q ≡ true
    → lookup q fs ≡ some f
    → lookup q (ca_main env flags args fs).1 ≡ some f
unfolding ca_main
ca_main-Keeps env flags args fs q f there e = elim (Result-cases (flags.ca args)) [
  | inl (status, g) ↦ rw (g, ca_main) e
  | inr ((set, rest, o), g) ↦ elim (Result-cases (CaCommand.complete_args set rest o)) [
    | inl (x, h) ↦ rw (g, ca_main) (rw h e)
    | inr (o', h) ↦
        rw (g, ca_main) (rw h (execute-Keeps env.os env.crypto env.draw o' fs q f there e))
  ]
]

run_command-Keeps :
    (env : Env) (flags : Flags) (command : Bytes) (args : List Bytes) (fs : Files) (q : Bytes)
    → (f : File) → env.os.stats q ≡ true
    → lookup q fs ≡ some f
    → lookup q (run_command env flags command args fs).1 ≡ some f
unfolding run_command
run_command-Keeps env flags command args fs q f there e =
    ground (arith, ca_main-Keeps env flags args fs q f there e)

-- However the program is called, and whatever else fails, every file that was there before is there
-- afterwards with its content and its mode, unless os.Stat fails for it: that the ca command takes
-- for absence.
pub main-Keeps :
    (env : Env) (flags : Flags) (args : List Bytes) (fs : Files) (q : Bytes) (f : File)
    → env.os.stats q ≡ true
    → lookup q fs ≡ some f
    → lookup q (main env flags args fs).1 ≡ some f
unfolding main
main-Keeps env flags args fs q f there e = elim (Result-cases (flags.global args)) [
  | inl (status, g) ↦ rw (g, main) e
  | inr ((true, rest), g) ↦ rw (g, main) e
  | inr ((false, []), g) ↦ rw (g, main) e
  | inr ((false, command ∷ rest), g) ↦
      rw (g, main) (run_command-Keeps env flags command rest fs q f there e)
]

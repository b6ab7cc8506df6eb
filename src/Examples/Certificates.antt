-- ===== src/Examples/Certificates.antt =====
-- Runs of the `ca` command.
use go_tcp_tunnel.Base.{
  ◌≤◌, ◌≡◌, ◌≢◌, ◌↔◌, refl, arith, true, false, some, [], ◌∷◌, ◌++◌, Bytes, codes, Result, map_err,
  ok, err, All, split, length, beq, beq_iff,
}
use go_tcp_tunnel.Base.Dict.{lookup, insert, erase}
use go_tcp_tunnel.Proto.Label.{IsLabel}
use go_tcp_tunnel.Routing.{to_lower}
use go_tcp_tunnel.Ca.{
  Certificate, Draw, generate_ca, issue_cert, is_valid_dns_name, dns_label, all_labels,
  dns_label_end, is_dns_alnum, is_dns_byte, add_sans, parse_ca_key_pair,
}
use go_tcp_tunnel.Ca.Names.{is_valid_dns_name_iff}
use go_tcp_tunnel.Ca.RoundTrip.{IsPair, ips, names}
use go_tcp_tunnel.CaCommand
use go_tcp_tunnel.CaCommand.{
  File, Files, Os, written, cut_short, Options, CommandError, already_exists, ca_error, ca_crt,
  ca_key, tls_crt, tls_key, ca_name, validity, execute_init, execute_issue, issued, put, write_file,
  write_key_pair, read_file, check_private_key_permissions, remove_file,
}
use go_tcp_tunnel.CaCommand.Commands.{HasPair, issued-execute_init, execute_issue-execute_init}
use go_tcp_tunnel.Examples.Codec.{crypto, crypto-IsFaithful}

abbrev pub os : Os
os = record {
  stats = λ path. true;
  writes = λ path. written;
  removes = λ path. true;
  makes_dir = λ dir. true;
  masked = λ mode. mode;
  join = λ dir file. dir ++ b'/' ∷ file;
  is_windows = false;
}

abbrev pub first_draw : Draw
first_draw = record { key = some 11; serial = some 5; now = 100 }

abbrev second_draw : Draw
second_draw = record { key = some 12; serial = some 6; now = 200 }

abbrev pub note : File
note = record { content = codes "keep"; mode = 420 }

abbrev pub before : Files
before = (codes "note", note) ∷ []

abbrev host_name : Bytes
host_name = codes "tunnel.example.com"

dns_names :
    (is_valid_dns_name (codes "Tunnel.example.com") ≡ true)
    × (is_valid_dns_name (codes "tunnel..com") ≡ false)
    × (is_valid_dns_name (codes "-a.com") ≡ false)
unfolding is_valid_dns_name all_labels dns_label dns_label_end is_dns_alnum is_dns_byte split
dns_names = (refl, refl, refl)

is_valid_dns_name_iff_example : (is_valid_dns_name host_name ≡ true) ↔ (
    (1 ≤ length host_name)
    × (length host_name ≤ 253)
    × All (λ l. IsLabel (to_lower l)) (split b'.' host_name))
is_valid_dns_name_iff_example = is_valid_dns_name_iff host_name

abbrev value_of : Result CommandError (Bytes × Bytes) → Bytes × Bytes
value_of (ok pair) = pair
value_of (err e) = ([], [])

abbrev init_result : Result CommandError (Bytes × Bytes) × Files
init_result = execute_init os crypto first_draw (codes "ca") before

abbrev ca : Bytes × Bytes
ca = value_of init_result.0

made : init_result.0 ≡ ok ca
unfolding execute_init lookup beq generate_ca write_key_pair write_file put insert
made = refl

abbrev issue_result : Result CommandError (Bytes × Bytes) × Files
issue_result =
    execute_issue os crypto second_draw (codes "ca") (codes "server") host_name (codes "out")
      init_result.1

abbrev leaf : Bytes × Bytes
leaf = value_of issue_result.0

leaf_made : issue_result.0 ≡ ok leaf
unfolding execute_init execute_issue lookup beq generate_ca issue_cert issued add_sans
    parse_ca_key_pair write_key_pair write_file put insert read_file check_private_key_permissions
    is_valid_dns_name all_labels dns_label dns_label_end is_dns_alnum is_dns_byte split
leaf_made = refl

ca_differ : beq (os.join (codes "ca") ca_key) (os.join (codes "ca") ca_crt) ≡ false
unfolding beq
ca_differ = refl

ca_paths : os.join (codes "ca") ca_key ≢ os.join (codes "ca") ca_crt
ca_paths e =
    ground (arith, beq_iff (os.join (codes "ca") ca_key) (os.join (codes "ca") ca_crt), ca_differ)

leaf_differ : beq (os.join (codes "out") tls_key) (os.join (codes "out") tls_crt) ≡ false
unfolding beq
leaf_differ = refl

leaf_paths : os.join (codes "out") tls_key ≢ os.join (codes "out") tls_crt
leaf_paths e =
    ground
      (arith, beq_iff (os.join (codes "out") tls_key) (os.join (codes "out") tls_crt), leaf_differ)

issued-execute_init_example :
    issued os crypto second_draw (codes "ca") (codes "server") host_name init_result.1
    ≡ map_err ca_error
        (issue_cert crypto second_draw ca.0 ca.1 (codes "server") (host_name ∷ []) validity)
issued-execute_init_example =
    issued-execute_init os (λ path. refl) crypto first_draw second_draw (codes "ca")
      (codes "server") host_name before ca refl ca_paths made

execute_issue-execute_init_example :
    HasPair os (os.join (codes "out") tls_crt) (os.join (codes "out") tls_key) leaf issue_result.1
    × (x : Certificate) × IsPair crypto leaf x
    × (some 11 ≡ some x.signed_by)
    × (x.issuer ≡ ca_name)
    × (x.subject ≡ codes "server")
    × (x.is_ca ≡ false)
    × (x.ip_addresses ≡ ips crypto (host_name ∷ []))
    × (x.dns_names ≡ names crypto (host_name ∷ []))
execute_issue-execute_init_example =
    execute_issue-execute_init os (λ path. refl) crypto first_draw second_draw (codes "ca")
      (codes "server") host_name before ca refl ca_paths made (codes "out") leaf crypto-IsFaithful
      leaf_paths leaf_made

abbrev pub again : Options
again = record CaCommand.default_options { command = codes "init" }

pub note_there : lookup (codes "note") before ≡ some note
unfolding lookup beq
note_there = refl

-- A key whose writing is cut short is left behind, and then `init` refuses to run again.
abbrev full_disk : Os
full_disk = record os {
  writes = λ path. elim (beq path (codes "ca/ca.key")) [ true ↦ cut_short [] | false ↦ written ];
}

left_behind :
    (execute_init os crypto first_draw
      (codes "ca")
      (execute_init full_disk crypto first_draw (codes "ca") []).1).0
    ≡ err (already_exists (codes "ca/ca.key"))
unfolding execute_init lookup beq generate_ca write_key_pair write_file put insert remove_file erase
left_behind = refl

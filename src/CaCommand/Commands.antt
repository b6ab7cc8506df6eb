-- ===== src/CaCommand/Commands.antt =====
-- `ca init`, and `ca issue` behind it.
use go_tcp_tunnel.Base.{true}
use go_tcp_tunnel.Base.{
  ◌%◌, ◌≡◌, ◌≢◌, inl, inr, refl, ap, sym, ◌∙◌, arith, false, none, some, List, [], ◌∷◌, Bytes, beq,
  beq_iff, if◌then◌else◌, is_empty, Result, ok, err, map_err, map_err-ok, Bool-cases, Result-cases,
}
use go_tcp_tunnel.Base.Dict.{lookup}
use go_tcp_tunnel.Ca.{Certificate, Crypto, Draw, generate_ca, issue_cert}
use go_tcp_tunnel.Ca.RoundTrip.{IsFaithful, IsPair, ips, names, issue_cert-generate_ca}
use go_tcp_tunnel.CaCommand.{
  Files, put, Os, CommandError, ca_error, write_file, public_mode, private_mode, write_key_pair,
  check_private_key_permissions, exists, create_pair, ca_crt, ca_key, tls_crt, tls_key, validity,
  ca_name, execute_init, read_file, issued, parses_back, execute_issue,
}
use go_tcp_tunnel.CaCommand.Files.{lookup-put, lookup-put_self}

-- The two files of a pair, with the modes that the umask leaves.
pub record HasPair (os : Os) (crt key : Bytes) (pair : Bytes × Bytes) (fs : Files) : Type 0 where
  pub crt_file : lookup crt fs ≡ some (record { content = pair.0; mode = os.masked public_mode })
  pub key_file : lookup key fs ≡ some (record { content = pair.1; mode = os.masked private_mode })

write_key_pair-HasPair :
    (os : Os) (crt key : Bytes) (pair : Bytes × Bytes) (fs : Files)
    → key ≢ crt
    → lookup crt fs ≡ none
    → lookup key fs ≡ none
    → (write_key_pair os crt key pair fs).0 ≡ ok tt
    → HasPair os crt key pair (write_key_pair os crt key pair fs).1
unfolding write_key_pair write_file
write_key_pair-HasPair os crt key pair fs ne nc nk e =
    let fs1 = put os crt public_mode (some pair.0) fs in
    let apart : beq key crt ≡ false = ground (arith, beq_iff key crt) in
    let apart' : beq crt key ≡ false = ground (arith, beq_iff crt key) in
    let in1 = lookup-put_self os crt public_mode pair.0 fs nc in
    let kept = lookup-put os key private_mode (some pair.1) fs1 crt apart in
    let absent = lookup-put os crt public_mode (some pair.0) fs key apart' in
    let in2 = lookup-put_self os key private_mode pair.1 fs1 (absent ∙ nk) in
    record { crt_file = ground (arith, in1, kept); key_file = ground (arith, in2) }

-- `os.Stat` fails only where there is no file.
abbrev pub Finds : Os → Type 0
Finds os = (path : Bytes) → os.stats path ≡ true

create_pair-ok :
    (os : Os) (finds : Finds os) (dir crt key : Bytes) (made : Result CommandError (Bytes × Bytes))
    (fs : Files)
    → (pair : Bytes × Bytes) → key ≢ crt
    → exists os crt fs ≡ false
    → exists os key fs ≡ false
    → (create_pair os dir crt key made fs).0 ≡ ok pair
    → (made ≡ ok pair) × HasPair os crt key pair (create_pair os dir crt key made fs).1
unfolding create_pair exists
create_pair-ok os finds dir crt key (err e) fs pair ne nc nk done = absurd (ground arith)
create_pair-ok os finds dir crt key (ok made) fs pair ne nc nk done =
    elim (Result-cases (write_key_pair os crt key made fs).0) [
      | inl (x, failed) ↦ absurd (ground arith)
      | inr (_, good) ↦
          let h =
            write_key_pair-HasPair os crt key made fs ne (ground (arith, finds crt, nc))
              (ground (arith, finds key, nk)) good in
          let same : made ≡ pair = ground arith in
          (
            ap ok same,
            record {
              crt_file = ground (arith, h.crt_file, same);
              key_file = ground (arith, h.key_file, same);
            },
          )
    ]

init-ok :
    (os : Os) (finds : Finds os) (c : Crypto) (d : Draw) (ca_dir : Bytes) (fs : Files)
    (pair : Bytes × Bytes)
    → os.join ca_dir ca_key ≢ os.join ca_dir ca_crt
    → (execute_init os c d ca_dir fs).0 ≡ ok pair
    → (generate_ca c d ca_name validity ≡ ok pair)
      × HasPair os
          (os.join ca_dir ca_crt)
          (os.join ca_dir ca_key)
          pair
          (execute_init os c d ca_dir fs).1
unfolding execute_init
init-ok os finds c d ca_dir fs pair ne done =
    let crt = os.join ca_dir ca_crt in
    let key = os.join ca_dir ca_key in
    let made = map_err ca_error (generate_ca c d ca_name validity) in
    elim (Bool-cases (exists os crt fs)) [
      | inl e ↦ absurd (ground arith)
      | inr nc ↦ elim (Bool-cases (exists os key fs)) [
        | inl e ↦ absurd (ground arith)
        | inr nk ↦
            let (good, h) =
              create_pair-ok os finds ca_dir crt key made fs pair ne nc nk (ground arith) in
            (
              map_err-ok ca_error (generate_ca c d ca_name validity) good,
              record {
                crt_file = ground (arith, h.crt_file);
                key_file = ground (arith, h.key_file);
              },
            )
      ]
    ]

-- The authority that `init` wrote is read back by `issue`.
issued-init :
    (os : Os) (finds : Finds os) (c : Crypto) (d' : Draw) (ca_dir name addr : Bytes) (fs : Files)
    (ca : Bytes × Bytes)
    → os.masked private_mode % 64 ≡ 0
    → HasPair os (os.join ca_dir ca_crt) (os.join ca_dir ca_key) ca fs
    → issued os c d' ca_dir name addr fs
      ≡ map_err ca_error
          (issue_cert c d' ca.0 ca.1 name (if is_empty addr then [] else addr ∷ []) validity)
unfolding issued read_file check_private_key_permissions
issued-init os finds c d' ca_dir name addr fs ca private h =
    ground (arith, finds (os.join ca_dir ca_key), h.crt_file, h.key_file)

parses_back-ok :
    (c : Crypto) (r : Result CommandError (Bytes × Bytes) × Files) (pair : Bytes × Bytes)
    → (parses_back c r).0 ≡ ok pair
    → (r.0 ≡ ok pair) × ((parses_back c r).1 ≡ r.1)
unfolding parses_back
parses_back-ok c (err e, fs) pair done = (ground arith, refl)
parses_back-ok c (ok made, fs) pair done = (ground arith, ground arith)

issue-ok :
    (os : Os) (finds : Finds os) (c : Crypto) (d' : Draw) (ca_dir name addr out_dir : Bytes)
    (fs : Files)
    → (pair : Bytes × Bytes) → os.join out_dir tls_key ≢ os.join out_dir tls_crt
    → (execute_issue os c d' ca_dir name addr out_dir fs).0 ≡ ok pair
    → (issued os c d' ca_dir name addr fs ≡ ok pair)
      × HasPair os
          (os.join out_dir tls_crt)
          (os.join out_dir tls_key)
          pair
          (execute_issue os c d' ca_dir name addr out_dir fs).1
unfolding execute_issue
issue-ok os finds c d' ca_dir name addr out_dir fs pair ne done =
    let crt = os.join out_dir tls_crt in
    let key = os.join out_dir tls_key in
    elim (Result-cases (issued os c d' ca_dir name addr fs)) [
      | inl (x, failed) ↦ absurd (ground arith)
      | inr (made, good) ↦ elim (Bool-cases (exists os crt fs)) [
        | inl e ↦ absurd (ground arith)
        | inr nc ↦ elim (Bool-cases (exists os key fs)) [
          | inl e ↦ absurd (ground arith)
          | inr nk ↦
              let r = create_pair os out_dir crt key (ok made) fs in
              let (created, files) = parses_back-ok c r pair (ground arith) in
              let (same, h) =
                create_pair-ok os finds out_dir crt key (ok made) fs pair ne nc nk created in
              (
                good ∙ same,
                record {
                  crt_file = ground (arith, h.crt_file, files);
                  key_file = ground (arith, h.key_file, files);
                },
              )
        ]
      ]
    ]

module _ (os : Os) (finds : Finds os) (c : Crypto) (d d' : Draw) (ca_dir name addr : Bytes)
    (fs : Files) (ca : Bytes × Bytes) (private : os.masked private_mode % 64 ≡ 0)
    (ne : os.join ca_dir ca_key ≢ os.join ca_dir ca_crt)
    (made : (execute_init os c d ca_dir fs).0 ≡ ok ca) where
  abbrev pub after_init : Files
  after_init = (execute_init os c d ca_dir fs).1

  abbrev pub sans : List Bytes
  sans = if is_empty addr then [] else addr ∷ []

  -- After `ca init` succeeded, `ca issue` with the same directory can read the authority and finds
  -- its key private: it goes on to issue a certificate with what `ca init` made. The umask is
  -- assumed to leave the key's mode private, filepath.Join to keep the two file names apart, and
  -- os.Stat to fail only where there is no file.
  pub issued-execute_init :
      issued os c d' ca_dir name addr after_init
      ≡ map_err ca_error (issue_cert c d' ca.0 ca.1 name sans validity)
  issued-execute_init =
      issued-init os finds c d' ca_dir name addr after_init ca private
        (init-ok os finds c d ca_dir fs ca ne made).1

  -- When `ca issue` succeeds after `ca init`, tls.crt and tls.key hold a certificate that the
  -- authority signed for the name, with the address as its only IP address or DNS name, if one is
  -- given, and the certificate's own key. The cryptography is assumed to read back what it writes, but
  -- times in whole seconds, the umask to leave the key's mode private, filepath.Join to keep the file
  -- names apart, and os.Stat to fail only where there is no file.
  pub execute_issue-execute_init :
      (out_dir : Bytes) (pair : Bytes × Bytes)
      → IsFaithful c
      → os.join out_dir tls_key ≢ os.join out_dir tls_crt
      → (execute_issue os c d' ca_dir name addr out_dir after_init).0 ≡ ok pair
      → HasPair os
          (os.join out_dir tls_crt)
          (os.join out_dir tls_key)
          pair
          (execute_issue os c d' ca_dir name addr out_dir after_init).1
        × (x : Certificate) × IsPair c pair x
        × (d.key ≡ some x.signed_by)
        × (x.issuer ≡ ca_name)
        × (x.subject ≡ name)
        × (x.is_ca ≡ false)
        × (x.ip_addresses ≡ ips c sans)
        × (x.dns_names ≡ names c sans)
  execute_issue-execute_init out_dir pair f ne' done =
      let (generated, _) = init-ok os finds c d ca_dir fs ca ne made in
      let (good, h) = issue-ok os finds c d' ca_dir name addr out_dir after_init pair ne' done in
      let cert_made =
        map_err-ok ca_error (issue_cert c d' ca.0 ca.1 name sans validity)
          (sym issued-execute_init ∙ good) in
      let (x, own, by, issuer, subject, leaf, _, _, _, ip, dns, _) =
        issue_cert-generate_ca c f d d' ca_name name sans validity validity generated cert_made in
      (h, x, own, by, issuer, subject, leaf, ip, dns)

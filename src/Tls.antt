-- ===== src/Tls.antt =====
-- The reading of key pairs and certificates that cmd/client/options.go and cmd/server/options.go
-- both write out, and id.New and PeerID of the package id. Parsing, SHA-256 and the TLS handshake
-- are parameters.
use go_tcp_tunnel.Base.{
  ℕ, Bool, true, none, some, Option, List, [], ◌∷◌, Bytes, length, if◌then◌else◌, is_empty, not,
  Result, ok, err, ◌>>=◌, ◌>>◌, require, map_err, bind-ok, require-ok, map_err-ok, arith, ◌≡◌, refl,
}
use go_tcp_tunnel.HostPort.{AddrError}
use go_tcp_tunnel.CaCommand.{Files, Os, read_file, check_private_key_permissions}
use go_tcp_tunnel.CaCommand

-- `tls.X509KeyPair`, which gives the first certificate, `x509.ParseCertificate`, which gives its
-- `Raw`, `sha256.Sum256` and `AppendCertsFromPEM`.
pub record Keys : Type 0 where
  pub key_pair : Bytes → Bytes → Option Bytes
  pub raw : Bytes → Option Bytes
  pub sum256 : Bytes → Bytes
  pub has_certs : Bytes → Bool

pub data TlsError : Type 0 where
  file_error : CaCommand.CommandError → TlsError
  bad_key_pair no_root_ca bad_root_ca : TlsError
  bad_server_addr : AddrError → TlsError

pair_of : Option Bytes → Result TlsError Bytes
pair_of none = err bad_key_pair
pair_of (some cert) = ok cert

-- `CheckPrivateKeyPermissions` and `tls.LoadX509KeyPair`.
unfoldable pub load_key_pair : Os → Keys → Files → Bytes → Bytes → Result TlsError Bytes
unfolding pair_of
load_key_pair os keys fs tls_crt tls_key = do
  map_err file_error (check_private_key_permissions os tls_key fs)
  crt_pem ← map_err file_error (read_file tls_crt fs)
  key_pem ← map_err file_error (read_file tls_key fs)
  pair_of (keys.key_pair crt_pem key_pem)

-- The authority's certificates, from a path that must be given.
unfoldable pub load_roots : Keys → Files → Bytes → Result TlsError Bytes
load_roots keys fs path = do
  require (not (is_empty path)) no_root_ca
  root_pem ← map_err file_error (read_file path fs)
  require (keys.has_certs root_pem) bad_root_ca
  ok root_pem

pub load_roots-has_certs :
    (keys : Keys) (fs : Files) (path root_pem : Bytes)
    → load_roots keys fs path ≡ ok root_pem
    → keys.has_certs root_pem ≡ true
unfolding load_roots
load_roots-has_certs keys fs path root_pem e =
    let (_, _, e1) = bind-ok (require (not (is_empty path)) no_root_ca) _ e in
    let (pem, _, e2) = bind-ok (map_err file_error (read_file path fs)) _ e1 in
    let (_, trusted, e3) = bind-ok (require (keys.has_certs pem) bad_root_ca) _ e2 in
    ground (arith, require-ok (keys.has_certs pem) bad_root_ca trusted)

pub read_file-load_roots :
    (keys : Keys) (fs : Files) (path root_pem : Bytes)
    → load_roots keys fs path ≡ ok root_pem
    → read_file path fs ≡ ok root_pem
unfolding load_roots
read_file-load_roots keys fs path root_pem e =
    let (_, _, e1) = bind-ok (require (not (is_empty path)) no_root_ca) _ e in
    let (pem, reads, e2) = bind-ok (map_err file_error (read_file path fs)) _ e1 in
    let (_, _, e3) = bind-ok (require (keys.has_certs pem) bad_root_ca) _ e2 in
    ground (arith, map_err-ok file_error (read_file path fs) reads)

pub data PeerError : Type 0 where
  handshake_failed : PeerError
  improper_certs_number : ℕ → PeerError

-- `New`
unfoldable pub new_id : Keys → Bytes → Bytes
new_id keys bytes = keys.sum256 bytes

-- Whether the TLS handshake succeeds, and the certificates that the peer then has.
pub record Peer : Type 0 where
  pub shakes_hands : Bool
  pub certs : List Bytes

id_of : Keys → List Bytes → Result PeerError Bytes
id_of keys [] = err (improper_certs_number 0)
id_of keys (c ∷ []) = ok (new_id keys c)
id_of keys (c ∷ d ∷ certs) = err (improper_certs_number (length (c ∷ d ∷ certs)))

unfoldable pub peer_id : Keys → Peer → Result PeerError Bytes
unfolding id_of
peer_id keys peer = if peer.shakes_hands then id_of keys peer.certs else err handshake_failed

-- The identifier that `handleClient` goes on with.
abbrev pub identified : Result PeerError Bytes → Option Bytes
identified (ok identifier) = some identifier
identified (err e) = none

id_of_one :
    (keys : Keys) (certs : List Bytes) (i : Bytes)
    → id_of keys certs ≡ ok i
    → (cert : Bytes) × (certs ≡ cert ∷ []) × (i ≡ new_id keys cert)
unfolding id_of
id_of_one keys [] i e = absurd (ground arith)
id_of_one keys (c ∷ []) i e = (c, refl, ground arith)
id_of_one keys (c ∷ d ∷ certs) i e = absurd (ground arith)

identified_ok : (r : Result PeerError Bytes) (i : Bytes) → identified r ≡ some i → r ≡ ok i
identified_ok (ok j) i e = ground arith
identified_ok (err x) i e = absurd (ground arith)

-- A peer that is identified has shaken hands, with one certificate, whose digest identifies it.
pub peer_id_one :
    (keys : Keys) (peer : Peer) (i : Bytes)
    → identified (peer_id keys peer) ≡ some i
    → (peer.shakes_hands ≡ true)
      × ((cert : Bytes) × (peer.certs ≡ cert ∷ []) × (i ≡ new_id keys cert))
unfolding peer_id
peer_id_one keys peer i e =
    let h = identified_ok (peer_id keys peer) i e in
    (ground (arith, h), id_of_one keys peer.certs i (ground (arith, h)))

-- ===== src/Ca.antt =====
-- ca/pki.go: the certificate authority. The cryptography of Go's standard library is a parameter:
-- what it draws, signs, encodes and parses.
pub mod Names
pub mod RoundTrip
use go_tcp_tunnel.Base.{
  ℕ, ◌+◌, Bool, true, false, not, ◌&&◌, ◌||◌, none, some, Option, List, [], ◌∷◌, ◌++◌, Bytes, codes,
  leb, ◌==◌, if◌then◌else◌, length, is_empty, split, Result, ok, err, ◌>>=◌, ◌>>◌, require,
}

pub data CaError : Type 0 where
  key_failed serial_failed create_failed marshal_failed : CaError
  no_cert_block cert_unreadable not_a_ca no_key_block key_unreadable : CaError
  invalid_san : Bytes → CaError

pub data KeyUsage : Type 0 where
  cert_and_crl_sign digital_signature : KeyUsage

pub data ExtKeyUsage : Type 0 where
  server_auth client_auth : ExtKeyUsage

-- The fields of `x509.Certificate` that the package sets, and those that signing fills in: the
-- public key of the certificate, the issuer, and the key that signed it.
pub record Certificate : Type 0 where
  pub serial_number : ℕ
  pub subject : Bytes
  pub not_before : ℕ
  pub not_after : ℕ
  pub is_ca : Bool
  pub key_usage : KeyUsage
  pub ext_key_usage : List ExtKeyUsage
  pub ip_addresses : List Bytes
  pub dns_names : List Bytes
  pub public_key : ℕ
  pub issuer : Bytes
  pub signed_by : ℕ

-- `crypto/x509`, `encoding/pem` and `net.ParseIP`; a private key stands for its public key too.
pub record Crypto : Type 0 where
  pub create_certificate : Certificate → Certificate → ℕ → ℕ → Option Bytes
  pub parse_certificate : Bytes → Option Certificate
  pub marshal_key : ℕ → Option Bytes
  pub parse_key : Bytes → Option ℕ
  pub pem_encode : Bytes → Bytes → Bytes
  pub pem_decode : Bytes → Option Bytes
  pub parse_ip : Bytes → Option Bytes

-- What `ecdsa.GenerateKey`, `rand.Int` and `time.Now` answer in one call.
pub record Draw : Type 0 where
  pub key : Option ℕ
  pub serial : Option ℕ
  pub now : ℕ

abbrev pub or_fail : {A : Type 0} → Option A → CaError → Result CaError A
or_fail none e = err e
or_fail (some a) e = ok a

abbrev pub random_serial : Draw → Result CaError ℕ
random_serial d = or_fail d.serial serial_failed

-- `template` before it is signed.
abbrev ca_template : ℕ → Bytes → ℕ → ℕ → Certificate
ca_template serial subject now validity = record {
  serial_number = serial;
  subject = subject;
  not_before = now;
  not_after = now + validity;
  is_ca = true;
  key_usage = cert_and_crl_sign;
  ext_key_usage = [];
  ip_addresses = [];
  dns_names = [];
  public_key = 0;
  issuer = [];
  signed_by = 0;
}

abbrev leaf_template : ℕ → Bytes → ℕ → ℕ → Certificate
leaf_template serial name now validity = record {
  serial_number = serial;
  subject = name;
  not_before = now;
  not_after = now + validity;
  is_ca = false;
  key_usage = digital_signature;
  ext_key_usage = server_auth ∷ client_auth ∷ [];
  ip_addresses = [];
  dns_names = [];
  public_key = 0;
  issuer = [];
  signed_by = 0;
}

-- `CreateCertificate`, `MarshalECPrivateKey` and the two PEM blocks.
signed : Crypto → Certificate → Certificate → ℕ → ℕ → Result CaError (Bytes × Bytes)
signed c template parent key signer = do
  der ← or_fail (c.create_certificate template parent key signer) create_failed
  key_der ← or_fail (c.marshal_key key) marshal_failed
  ok (c.pem_encode (codes "CERTIFICATE") der, c.pem_encode (codes "EC PRIVATE KEY") key_der)

unfoldable pub generate_ca : Crypto → Draw → Bytes → ℕ → Result CaError (Bytes × Bytes)
unfolding signed
generate_ca c d subject validity = do
  key ← or_fail d.key key_failed
  serial ← random_serial d
  let template = ca_template serial subject d.now validity
  signed c template template key key

-- `[a-zA-Z0-9]` and `[a-zA-Z0-9-]`.
unfoldable pub is_dns_alnum : ℕ → Bool
is_dns_alnum c =
    (leb b'a' c && leb c b'z') || ((leb b'A' c && leb c b'Z') || (leb b'0' c && leb c b'9'))

unfoldable pub is_dns_byte : ℕ → Bool
unfolding is_dns_alnum
is_dns_byte c = is_dns_alnum c || c == b'-'

-- `[a-zA-Z0-9-]*[a-zA-Z0-9]`, up to the end of the text.
unfoldable pub dns_label_end : Bytes → Bool
dns_label_end [] = false
dns_label_end (c ∷ []) = is_dns_alnum c
dns_label_end (c ∷ d ∷ s) = is_dns_byte c && dns_label_end (d ∷ s)

-- `dnsLabelRE`
unfoldable pub dns_label : Bytes → Bool
dns_label [] = false
dns_label (c ∷ []) = is_dns_alnum c
dns_label (c ∷ d ∷ s) = is_dns_alnum c && (leb (length (d ∷ s)) 62 && dns_label_end (d ∷ s))

unfoldable pub all_labels : List Bytes → Bool
all_labels [] = true
all_labels (label ∷ labels) = dns_label label && all_labels labels

unfoldable pub is_valid_dns_name : Bytes → Bool
is_valid_dns_name name =
    if is_empty name || not (leb (length name) 253) then false else all_labels (split b'.' name)

-- The loop over `sans`.
unfoldable pub add_sans : Crypto → List Bytes → Certificate → Result CaError Certificate
add_sans c [] template = ok template
add_sans c (san ∷ sans) template = elim (c.parse_ip san) [
  | some ip ↦
      add_sans c sans (record template { ip_addresses = template.ip_addresses ++ (ip ∷ []) })
  | none ↦ elim (is_valid_dns_name san) [
    | false ↦ err (invalid_san san)
    | true ↦ add_sans c sans (record template { dns_names = template.dns_names ++ (san ∷ []) })
  ]
]

unfoldable pub parse_ca_key_pair : Crypto → Bytes → Bytes → Result CaError (Certificate × ℕ)
parse_ca_key_pair c cert_pem key_pem = do
  cert_block ← or_fail (c.pem_decode cert_pem) no_cert_block
  cert ← or_fail (c.parse_certificate cert_block) cert_unreadable
  require cert.is_ca not_a_ca
  key_block ← or_fail (c.pem_decode key_pem) no_key_block
  key ← or_fail (c.parse_key key_block) key_unreadable
  ok (cert, key)

unfoldable pub issue_cert :
    Crypto → Draw → Bytes → Bytes → Bytes → List Bytes → ℕ → Result CaError (Bytes × Bytes)
unfolding signed
issue_cert c d ca_cert_pem ca_key_pem name sans validity = do
  ca ← parse_ca_key_pair c ca_cert_pem ca_key_pem
  key ← or_fail d.key key_failed
  serial ← random_serial d
  template ← add_sans c sans (leaf_template serial name d.now validity)
  signed c template ca.0 key ca.1

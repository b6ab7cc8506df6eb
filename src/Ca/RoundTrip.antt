-- ===== src/Ca/RoundTrip.antt =====
-- A certificate that the authority issues.
use go_tcp_tunnel.Base.{
  ℕ, ◌+◌, ◌*◌, ◌/◌, ◌≡◌, ◌⊎◌, inl, inr, refl, arith, true, false, none, some, Option, List, [], ◌∷◌,
  ◌++◌, Bytes, codes, ok, bind-ok, Option-cases, Bool-cases, append-nil, append_assoc, All,
}
use go_tcp_tunnel.Ca.{
  CaError, server_auth, client_auth, Certificate, Crypto, Draw, or_fail, ca_template, leaf_template,
  signed, generate_ca, is_valid_dns_name, add_sans, parse_ca_key_pair, issue_cert, create_failed,
  marshal_failed, key_failed, serial_failed,
}

-- A time in nanoseconds, as certificates hold it: in whole seconds.
abbrev pub whole_seconds : ℕ → ℕ
whole_seconds n = n / 1_000_000_000 * 1_000_000_000

-- A certificate as signing leaves it.
abbrev pub completed : Certificate → Certificate → ℕ → ℕ → Certificate
completed template parent key signer = record template {
  not_before = whole_seconds template.not_before;
  not_after = whole_seconds template.not_after;
  public_key = key;
  issuer = parent.subject;
  signed_by = signer;
}

-- What is encoded is read back, and a signed certificate has the template's fields, its
-- times in whole seconds.
pub record IsFaithful (c : Crypto) : Type 0 where
  pub pem : (ty der : Bytes) → c.pem_decode (c.pem_encode ty der) ≡ some der
  pub cert :
      (t p : Certificate) (key signer : ℕ) (der : Bytes)
      → c.create_certificate t p key signer ≡ some der
      → c.parse_certificate der ≡ some (completed t p key signer)
  pub key : (k : ℕ) (der : Bytes) → c.marshal_key k ≡ some der → c.parse_key der ≡ some k

or_fail-ok : {A : Type 0} (o : Option A) (e : CaError) {a : A} → or_fail o e ≡ ok a → o ≡ some a
or_fail-ok none e h = cc
or_fail-ok (some a) e h = ground arith

-- The PEM texts hold a certificate and a private key.
pub record IsPair (c : Crypto) (pair : Bytes × Bytes) (x : Certificate) : Type 0 where
  pub cert_der : Bytes
  pub key_der : Bytes
  pub cert_block : c.pem_decode pair.0 ≡ some cert_der
  pub key_block : c.pem_decode pair.1 ≡ some key_der
  pub cert : c.parse_certificate cert_der ≡ some x
  pub key : c.parse_key key_der ≡ some x.public_key

-- An IP address or a DNS name.
abbrev pub IsSan : Crypto → Bytes → Type 0
IsSan c san = ((ip : Bytes) × (c.parse_ip san ≡ some ip)) ⊎ (is_valid_dns_name san ≡ true)

-- The names of the list that are IP addresses, and the others.
abbrev pub ips : Crypto → List Bytes → List Bytes
ips c [] = []
ips c (s ∷ ss) = elim (c.parse_ip s) [ some ip ↦ ip ∷ ips c ss | none ↦ ips c ss ]

abbrev pub names : Crypto → List Bytes → List Bytes
names c [] = []
names c (s ∷ ss) = elim (c.parse_ip s) [ some ip ↦ names c ss | none ↦ s ∷ names c ss ]

module _ (c : Crypto) (f : IsFaithful c) where
  signed-IsPair :
      (t p : Certificate) (key signer : ℕ) (pair : Bytes × Bytes)
      → signed c t p key signer ≡ ok pair
      → IsPair c pair (completed t p key signer)
  unfolding signed
  signed-IsPair t p key signer pair e =
      let (der, made, e1) =
        bind-ok (or_fail (c.create_certificate t p key signer) create_failed) _ e in
      let (key_der, marshalled, e2) = bind-ok (or_fail (c.marshal_key key) marshal_failed) _ e1 in
      record {
        cert_der = der;
        key_der = key_der;
        cert_block = ground (arith, f.pem (codes "CERTIFICATE") der);
        key_block = ground (arith, f.pem (codes "EC PRIVATE KEY") key_der);
        cert = f.cert t p key signer der (or_fail-ok _ _ made);
        key = f.key key key_der (or_fail-ok _ _ marshalled);
      }

  add_sans_lem :
      (sans : List Bytes) (t t' : Certificate)
      → add_sans c sans t ≡ ok t'
      → (t' ≡ record t {
        ip_addresses = t.ip_addresses ++ ips c sans;
        dns_names = t.dns_names ++ names c sans;
      })
        × All (IsSan c) sans
  unfolding add_sans
  add_sans_lem [] t t' e = (ground (arith, append-nil t.ip_addresses, append-nil t.dns_names), tt)
  add_sans_lem (s ∷ ss) t t' e = elim (Option-cases (c.parse_ip s)) [
    | inr (ip, found) ↦
        let t1 = record t { ip_addresses = t.ip_addresses ++ (ip ∷ []) } in
        let (same, known) = add_sans_lem ss t1 t' (ground (arith, found)) in
        (
          ground (arith, same, found, append_assoc t.ip_addresses (ip ∷ []) (ips c ss)),
          (inl (ip, found), known),
        )
    | inl no_ip ↦ elim (Bool-cases (is_valid_dns_name s)) [
      | inl valid ↦
          let t1 = record t { dns_names = t.dns_names ++ (s ∷ []) } in
          let (same, known) = add_sans_lem ss t1 t' (ground (arith, no_ip, valid)) in
          (
            ground (arith, same, no_ip, append_assoc t.dns_names (s ∷ []) (names c ss)),
            (inr valid, known),
          )
      | inr bad ↦ absurd (ground arith)
    ]
  ]

  -- What GenerateCA writes is read back as a CA certificate and its key.
  pub parse_ca_key_pair-generate_ca :
      (d : Draw) (subject : Bytes) (validity : ℕ) {pair : Bytes × Bytes}
      → generate_ca c d subject validity ≡ ok pair
      → (ca : Certificate) × (key : ℕ) × (parse_ca_key_pair c pair.0 pair.1 ≡ ok (ca, key))
        × (d.key ≡ some key)
        × (ca.subject ≡ subject)
        × (ca.public_key ≡ key)
        × IsPair c pair ca
  unfolding generate_ca parse_ca_key_pair
  parse_ca_key_pair-generate_ca d subject validity {pair} e =
      let (key, drawn, e1) = bind-ok (or_fail d.key key_failed) _ e in
      let (serial, _, e2) = bind-ok (or_fail d.serial serial_failed) _ e1 in
      let t = ca_template serial subject d.now validity in
      let v = signed-IsPair t t key key pair e2 in
      (
        completed t t key key,
        key,
        ground (arith, v.cert_block, v.key_block, v.cert, v.key),
        or_fail-ok _ _ drawn,
        refl,
        refl,
        v,
      )

  -- A certificate that IssueCert issues with the texts of an authority that GenerateCA made names
  -- that authority as its issuer and is signed by its key; it is no authority itself, has the name,
  -- serves as server and as client, is valid for the time asked for, in whole seconds, and holds exactly the names
  -- asked for, each an IP address or a DNS name; the key beside it is its own.
  pub issue_cert-generate_ca :
      (d d' : Draw) (subject name : Bytes) (sans : List Bytes) (validity validity' : ℕ)
      → {ca pair : Bytes × Bytes} → generate_ca c d subject validity ≡ ok ca
      → issue_cert c d' ca.0 ca.1 name sans validity' ≡ ok pair
      → (x : Certificate) × IsPair c pair x
        × (d.key ≡ some x.signed_by)
        × (x.issuer ≡ subject)
        × (x.subject ≡ name)
        × (x.is_ca ≡ false)
        × (x.ext_key_usage ≡ server_auth ∷ client_auth ∷ [])
        × (x.not_before ≡ whole_seconds d'.now)
        × (x.not_after ≡ whole_seconds (d'.now + validity'))
        × (x.ip_addresses ≡ ips c sans)
        × (x.dns_names ≡ names c sans)
        × All (IsSan c) sans
  unfolding issue_cert
  issue_cert-generate_ca d d' subject name sans validity validity' {ca} {pair} made e =
      let (authority, ca_key, parsed, drawn, named, _, _) =
        parse_ca_key_pair-generate_ca d subject validity made in
      let (read, parses, e1) = bind-ok (parse_ca_key_pair c ca.0 ca.1) _ e in
      let (key, _, e2) = bind-ok (or_fail d'.key key_failed) _ e1 in
      let (serial, _, e3) = bind-ok (or_fail d'.serial serial_failed) _ e2 in
      let (t, sans_added, e4) =
        bind-ok (add_sans c sans (leaf_template serial name d'.now validity')) _ e3 in
      let (same, known) =
        add_sans_lem sans (leaf_template serial name d'.now validity') t sans_added in
      let read_same : (authority, ca_key) ≡ read = ground (arith, parsed, parses) in
      (
        completed t read.0 key read.1,
        signed-IsPair t read.0 key read.1 pair e4,
        ground (arith, read_same, drawn),
        ground (arith, read_same, named),
        ground (arith, same),
        ground (arith, same),
        ground (arith, same),
        ground (arith, same),
        ground (arith, same),
        ground (arith, same),
        ground (arith, same),
        known,
      )

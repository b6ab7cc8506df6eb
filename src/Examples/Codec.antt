-- ===== src/Examples/Codec.antt =====
-- A cryptography for the examples: certificates of at most one DNS name, written down as lists of
-- numbers.
use go_tcp_tunnel.Base.{
  ℕ, suc, ◌≡◌, refl, arith, Bool, true, false, none, some, Option, List, [], ◌∷◌, ◌++◌, Bytes,
  length, ◌==◌, Option-cases, zero, inl, inr,
}
use go_tcp_tunnel.Ca.{
  ExtKeyUsage, server_auth, client_auth, KeyUsage, cert_and_crl_sign, digital_signature,
  Certificate, Crypto,
}
use go_tcp_tunnel.Ca.RoundTrip.{IsFaithful, completed, whole_seconds}

abbrev split_at : ℕ → Bytes → Bytes × Bytes
split_at zero s = ([], s)
split_at (suc n) [] = ([], [])
split_at (suc n) (c ∷ s) = let (a, b) = split_at n s in (c ∷ a, b)

split_at-append : (s t : Bytes) → split_at (length s) (s ++ t) ≡ (s, t)
split_at-append [] t = refl
split_at-append (c ∷ s) t = rw (split_at-append s t) refl

abbrev write_names : List Bytes → Option Bytes
write_names [] = some []
write_names ((c ∷ s) ∷ []) = some (c ∷ s)
write_names other = none

abbrev read_names : Bytes → List Bytes
read_names [] = []
read_names (c ∷ s) = (c ∷ s) ∷ []

read-write_names : (ns : List Bytes) (s : Bytes) → write_names ns ≡ some s → read_names s ≡ ns
read-write_names [] s e = ground arith
read-write_names ([] ∷ []) s e = cc
read-write_names ([] ∷ n ∷ ns) s e = cc
read-write_names ((c ∷ n) ∷ []) s e = ground arith
read-write_names ((c ∷ n) ∷ m ∷ ns) s e = cc

-- An authority is 1, another certificate 0.
abbrev kind_of : Bool → KeyUsage → List ExtKeyUsage → List Bytes → Option ℕ
kind_of true cert_and_crl_sign [] [] = some 1
kind_of false digital_signature (server_auth ∷ client_auth ∷ []) [] = some 0
kind_of is_ca usage ext ips = none

abbrev write_certificate : Certificate → Certificate → ℕ → ℕ → Option Bytes
write_certificate t p key signer =
    elim (kind_of t.is_ca t.key_usage t.ext_key_usage t.ip_addresses) [
      | none ↦ none
      | some kind ↦ elim (write_names t.dns_names) [
        | none ↦ none
        | some names ↦ some (
            kind
            ∷ t.serial_number
            ∷ whole_seconds t.not_before
            ∷ whole_seconds t.not_after
            ∷ key
            ∷ signer
            ∷ length t.subject
            ∷ length p.subject
            ∷ (t.subject ++ (p.subject ++ names)))
      ]
    ]

abbrev usage_of : Bool → KeyUsage
usage_of true = cert_and_crl_sign
usage_of false = digital_signature

abbrev ext_of : Bool → List ExtKeyUsage
ext_of true = []
ext_of false = server_auth ∷ client_auth ∷ []

abbrev read_certificate : Bytes → Option Certificate
read_certificate (kind ∷ serial ∷ before ∷ after ∷ key ∷ signer ∷ n ∷ m ∷ rest) =
    let (subject, behind) = split_at n rest in
    let (issuer, names) = split_at m behind in
    some (record {
      serial_number = serial;
      subject = subject;
      not_before = before;
      not_after = after;
      is_ca = kind == 1;
      key_usage = usage_of (kind == 1);
      ext_key_usage = ext_of (kind == 1);
      ip_addresses = [];
      dns_names = read_names names;
      public_key = key;
      issuer = issuer;
      signed_by = signer;
    })
read_certificate other = none

kind_of_lem :
    (is_ca : Bool) (usage : KeyUsage) (ext : List ExtKeyUsage) (ips : List Bytes) (kind : ℕ)
    → kind_of is_ca usage ext ips ≡ some kind
    → ((kind == 1) ≡ is_ca) × (usage_of is_ca ≡ usage) × (ext_of is_ca ≡ ext) × (ips ≡ [])
kind_of_lem is_ca usage ext ips kind e = ground arith

read-write_certificate :
    (t p : Certificate) (key signer : ℕ) (der : Bytes)
    → write_certificate t p key signer ≡ some der
    → read_certificate der ≡ some (completed t p key signer)
read-write_certificate t p key signer der e =
    elim (Option-cases (kind_of t.is_ca t.key_usage t.ext_key_usage t.ip_addresses)) [
      | inl x ↦ absurd (ground arith)
      | inr (kind, k) ↦ elim (Option-cases (write_names t.dns_names)) [
        | inl x ↦ absurd (ground arith)
        | inr (names, w) ↦
            let (a, b, c, d) =
              kind_of_lem t.is_ca t.key_usage t.ext_key_usage t.ip_addresses kind k in
            ground (
              arith,
              split_at-append t.subject (p.subject ++ names),
              split_at-append p.subject names,
              read-write_names t.dns_names names w,
            )
      ]
    ]

abbrev pub crypto : Crypto
crypto = record {
  create_certificate = write_certificate;
  parse_certificate = read_certificate;
  marshal_key = λ k. some (k ∷ []);
  parse_key = λ b. elim b [ [] ↦ none | k ∷ _ ↦ some k ];
  pem_encode = λ ty b. b;
  pem_decode = λ b. some b;
  parse_ip = λ s. none;
}

pub crypto-IsFaithful : IsFaithful crypto
crypto-IsFaithful = record {
  pem = λ ty der. refl;
  cert = read-write_certificate;
  key = λ k der e. ground arith;
}

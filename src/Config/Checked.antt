-- ===== src/Config/Checked.antt =====
-- What a configuration that was loaded is like.
use go_tcp_tunnel.Base.{
  ◌≡◌, ◌⊎◌, inl, inr, arith, true, false, Option, none, some, [], ◌∷◌, Bytes, if◌then◌else◌,
  is_empty, Result, ok, require, map_err, not, ap, ◌∙◌, sym, bind-ok, map_err-ok, require-ok, subst,
  has_byte, has_byte-append, Bool-cases, Result-cases, Option-cases,
}
use go_tcp_tunnel.Base.Dict.{Dict, lookup, insert}
use go_tcp_tunnel.HostPort.{loopback, split_host_port, normalize_address, with_host, is_int, colon}
use go_tcp_tunnel.Proto.{is_stream, is_http, valid_subdomain_label}
use go_tcp_tunnel.Proto.Label.{IsLabel, valid_subdomain_label_iff, label-Lacks}
use go_tcp_tunnel.Config.{
  Tunnel, addr_missing, addr_error, remote_addr_error, remote_addr_not_supported, ConfigError,
  complete_tcp, complete_http, remote_of, subdomain_of, claim, check_tunnel, check_tunnels,
}

with_host-colon : (parts : Bytes × Bytes) → has_byte colon (with_host parts) ≡ true
unfolding with_host has_byte
with_host-colon (host, port) =
    ground (arith, has_byte-append colon (if is_empty host then loopback else host) (colon ∷ port))

-- A normalized address has a colon.
pub normalize_address-colon :
    (text : Bytes) {a : Bytes} → normalize_address text ≡ ok a → has_byte colon a ≡ true
unfolding normalize_address
normalize_address-colon text {a} e =
    elim (Result-cases (split_host_port (if is_int text then colon ∷ text else text))) [
      | inl (x, f) ↦ absurd (ground arith)
      | inr (parts, f) ↦ ground (arith, with_host-colon parts)
    ]

-- A tunnel as the loop leaves it.
pub record IsStreamTunnel (t : Tunnel) : Type 0 where
  pub protocol : is_stream t.protocol ≡ true
  pub remote : has_byte colon t.remote_addr ≡ true
  pub addr : has_byte colon t.addr ≡ true

pub record IsHttpTunnel (t : Tunnel) (seen : Dict Bytes) : Type 0 where
  pub not_stream : is_stream t.protocol ≡ false
  pub protocol : is_http t.protocol ≡ true
  pub label : IsLabel t.subdomain
  pub plain : has_byte colon t.subdomain ≡ false
  pub addr : has_byte colon t.addr ≡ true
  pub new : lookup t.subdomain seen ≡ none

complete_tcp-IsStreamTunnel :
    (t : Tunnel) {u : Tunnel}
    → is_stream t.protocol ≡ true
    → complete_tcp t ≡ ok u
    → IsStreamTunnel u
unfolding complete_tcp
complete_tcp-IsStreamTunnel t {u} s e =
    let (_, _, e1) = bind-ok (require (not (is_empty t.addr)) addr_missing) _ e in
    let (addr, ea, e2) = bind-ok (map_err addr_error (normalize_address t.addr)) _ e1 in
    let (given, _, e3) = bind-ok (remote_of t addr) _ e2 in
    let (remote, er, e4) = bind-ok (map_err remote_addr_error (normalize_address given)) _ e3 in
    let ca = normalize_address-colon t.addr (map_err-ok addr_error _ ea) in
    let cr = normalize_address-colon given (map_err-ok remote_addr_error _ er) in
    record { protocol = ground arith; remote = ground (arith, cr); addr = ground (arith, ca) }

complete_http-IsHttpTunnel :
    (t : Tunnel) (name : Bytes) (seen : Dict Bytes) {u : Tunnel}
    → is_stream t.protocol ≡ false
    → is_http t.protocol ≡ true
    → complete_http t name ≡ ok u
    → lookup u.subdomain seen ≡ none
    → IsHttpTunnel u seen
unfolding complete_http
complete_http-IsHttpTunnel t name seen {u} s h e new =
    let (_, _, e1) = bind-ok (require (not (is_empty t.addr)) addr_missing) _ e in
    let (addr, ea, e2) = bind-ok (map_err addr_error (normalize_address t.addr)) _ e1 in
    let (_, valid, e3) = bind-ok (require (valid_subdomain_label (subdomain_of t name)) _) _ e2 in
    let (_, _, e4) = bind-ok (require (is_empty t.remote_addr) remote_addr_not_supported) _ e3 in
    let ca = normalize_address-colon t.addr (map_err-ok addr_error _ ea) in
    let label = (valid_subdomain_label_iff (subdomain_of t name)).0 (require-ok _ _ valid) in
    let sub : subdomain_of t name ≡ u.subdomain = ground arith in
    record {
      not_stream = ground arith;
      protocol = ground arith;
      label = subst IsLabel sub label;
      plain = subst (λ s. has_byte colon s ≡ false) sub (label-Lacks _ label.bytes);
      addr = ground (arith, ca);
      new = new;
    }

-- The tunnels of a loaded configuration, behind the subdomains seen before them.
abbrev pub IsChecked : Dict Bytes → Dict Tunnel → Type 0
IsChecked seen [] = Unit
IsChecked seen ((name, t) ∷ ts) =
    (IsStreamTunnel t × IsChecked seen ts)
    ⊎ (IsHttpTunnel t seen × IsChecked (insert t.subdomain name seen) ts)

ok-injective :
    {cs ds : Dict Tunnel} → ◌≡◌ {A = Result ConfigError (Dict Tunnel)} (ok cs) (ok ds) → cs ≡ ds
ok-injective e = ground arith

checked_stream :
    (name : Bytes) (t u : Tunnel) (seen seen' : Dict Bytes)
    → is_stream t.protocol ≡ true
    → check_tunnel name t seen ≡ ok (u, seen')
    → (complete_tcp t ≡ ok u) × (seen ≡ seen')
unfolding check_tunnel
checked_stream name t u seen seen' s e = elim (Result-cases (complete_tcp t)) [
  | inl (x, failed) ↦ absurd (ground arith)
  | inr (t', done) ↦ (ground arith, ground arith)
]

checked_http :
    (name : Bytes) (t u : Tunnel) (seen seen' : Dict Bytes)
    → is_stream t.protocol ≡ false
    → check_tunnel name t seen ≡ ok (u, seen')
    → (is_http t.protocol ≡ true)
      × (complete_http t name ≡ ok u)
      × (lookup u.subdomain seen ≡ none)
      × (insert u.subdomain name seen ≡ seen')
unfolding check_tunnel claim
checked_http name t u seen seen' s e = elim (Result-cases (complete_http t name)) [
  | inl (x, failed) ↦ absurd (ground arith)
  | inr (t', done) ↦ elim (Option-cases (lookup t'.subdomain seen)) [
    | inl free ↦
        let same : t' ≡ u = ground arith in
        (
          ground arith,
          done ∙ ap ok same,
          subst (λ v. lookup v.subdomain seen ≡ none) same free,
          ground (arith, same),
        )
    | inr (other, taken) ↦ absurd (ground arith)
  ]
]

check_tunnel-IsChecked :
    (name : Bytes) (t u : Tunnel) (seen seen' : Dict Bytes) (us : Dict Tunnel)
    → check_tunnel name t seen ≡ ok (u, seen')
    → IsChecked seen' us
    → IsChecked seen ((name, u) ∷ us)
check_tunnel-IsChecked name t u seen seen' us e rest = elim (Bool-cases (is_stream t.protocol)) [
  | inl s ↦
      let (done, same) = checked_stream name t u seen seen' s e in
      inl (complete_tcp-IsStreamTunnel t s done, subst (λ m. IsChecked m us) (sym same) rest)
  | inr s ↦
      let (h, done, new, same) = checked_http name t u seen seen' s e in
      inr (
        complete_http-IsHttpTunnel t name seen s h done new,
        subst (λ m. IsChecked m us) (sym same) rest,
      )
]

pub check_tunnels-IsChecked :
    (ts : Dict (Option Tunnel)) (seen : Dict Bytes) {cs : Dict Tunnel}
    → check_tunnels ts seen ≡ ok cs
    → IsChecked seen cs
unfolding check_tunnels
check_tunnels-IsChecked [] seen {cs} e = subst (IsChecked seen) (ok-injective e) tt
check_tunnels-IsChecked ((name, none) ∷ ts) seen {cs} e = absurd (ground arith)
check_tunnels-IsChecked ((name, some t) ∷ ts) seen {cs} e =
    elim (Result-cases (check_tunnel name t seen)) [
      | inl (x, failed) ↦ absurd (ground arith)
      | inr ((u, seen'), checked) ↦ elim (Result-cases (check_tunnels ts seen')) [
        | inl (x, failed) ↦ absurd (ground arith)
        | inr (us, rest) ↦
            subst (IsChecked seen) (ok-injective {cs = (name, u) ∷ us} (ground arith)) (
              check_tunnel-IsChecked name t u seen seen' us checked
                (check_tunnels-IsChecked ts seen' rest))
      ]
    ]

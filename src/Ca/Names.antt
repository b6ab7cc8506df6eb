-- ===== src/Ca/Names.antt =====
-- Which names a certificate may hold.
use go_tcp_tunnel.Base.{
  ℕ, ◌≤◌, ◌≡◌, ◌↔◌, refl, arith, true, List, [], ◌∷◌, Bytes, length, All, split,
}
use go_tcp_tunnel.Proto.{is_alnum, is_label_byte, label_end, label_rest, valid_subdomain_label}
use go_tcp_tunnel.Proto.Label.{IsLabel, valid_subdomain_label_iff}
use go_tcp_tunnel.Routing.{lower, to_lower}
use go_tcp_tunnel.Ca.{
  is_dns_alnum, is_dns_byte, dns_label_end, dns_label, all_labels, is_valid_dns_name,
}

alnum-lower : (c : ℕ) → is_alnum (lower c) ≡ is_dns_alnum c
unfolding is_alnum is_dns_alnum
alnum-lower c = ground arith

byte-lower : (c : ℕ) → is_label_byte (lower c) ≡ is_dns_byte c
unfolding is_label_byte is_dns_byte is_alnum is_dns_alnum
byte-lower c = ground arith

length-to_lower : (s : Bytes) → length (to_lower s) ≡ length s
unfolding to_lower
length-to_lower [] = refl
length-to_lower (c ∷ s) = omega (arith, length-to_lower s)

label_end-to_lower : (s : Bytes) → label_end (to_lower s) ≡ dns_label_end s
unfolding to_lower label_end dns_label_end
label_end-to_lower [] = refl
label_end-to_lower (c ∷ []) = alnum-lower c
label_end-to_lower (c ∷ d ∷ s) = rw (byte-lower c, label_end-to_lower (d ∷ s)) refl

-- A label of a DNS name is one of a tunnel's host, in any case.
dns_label-to_lower : (s : Bytes) → dns_label s ≡ valid_subdomain_label (to_lower s)
unfolding dns_label valid_subdomain_label label_rest to_lower
dns_label-to_lower [] = refl
dns_label-to_lower (c ∷ []) = ground (arith, alnum-lower c)
dns_label-to_lower (c ∷ d ∷ s) =
    ground (arith, alnum-lower c, length-to_lower s, label_end-to_lower (d ∷ s))

all_labels_iff : (ls : List Bytes) → (all_labels ls ≡ true) ↔ All (λ l. IsLabel (to_lower l)) ls
unfolding all_labels
all_labels_iff [] = (λ h. tt, λ h. refl)
all_labels_iff (l ∷ ls) =
    let e = dns_label-to_lower l in
    let (there, back) = valid_subdomain_label_iff (to_lower l) in
    (
      λ h. (there (ground arith), (all_labels_iff ls).0 (ground arith)),
      λ (p, ps). ground (arith, back p, (all_labels_iff ls).1 ps),
    )

-- isValidDNSName accepts exactly the texts of one to 253 characters whose parts between dots are
-- DNS labels in any case.
pub is_valid_dns_name_iff :
    (name : Bytes)
    → (is_valid_dns_name name ≡ true) ↔ (
        (1 ≤ length name) × (length name ≤ 253) × All (λ l. IsLabel (to_lower l)) (split b'.' name))
unfolding is_valid_dns_name
is_valid_dns_name_iff [] = (λ h. cc, λ h. absurd (omega (arith, h.0)))
is_valid_dns_name_iff (c ∷ s) = (
  λ h. (omega arith, ground arith, (all_labels_iff (split b'.' (c ∷ s))).0 (ground arith)),
  λ (_, short, ls). ground (arith, short, (all_labels_iff (split b'.' (c ∷ s))).1 ls),
)

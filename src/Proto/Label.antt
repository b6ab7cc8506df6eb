-- ===== src/Proto/Label.antt =====
-- Which texts are subdomain labels.
use go_tcp_tunnel.HostPort.{colon}
use go_tcp_tunnel.Base.{
  refl, has_byte, false, ℕ, ◌≤◌, true, ◌≡◌, ◌↔◌, arith, [], ◌∷◌, Bytes, length, All,
}
use go_tcp_tunnel.Proto.{is_alnum, is_label_byte, label_end, valid_subdomain_label}

abbrev pub first_byte : Bytes → ℕ
first_byte [] = 0
first_byte (c ∷ s) = c

abbrev pub last_byte : Bytes → ℕ
last_byte [] = 0
last_byte (c ∷ []) = c
last_byte (c ∷ d ∷ s) = last_byte (d ∷ s)

-- One to 63 letters, digits and hyphens, with no hyphen at either end.
pub record IsLabel (s : Bytes) : Type 0 where
  pub nonempty : 1 ≤ length s
  pub short : length s ≤ 63
  pub bytes : All (λ c. is_label_byte c ≡ true) s
  pub first : is_alnum (first_byte s) ≡ true
  pub last : is_alnum (last_byte s) ≡ true

alnum_label : (c : ℕ) → is_alnum c ≡ true → is_label_byte c ≡ true
unfolding is_label_byte
alnum_label c h = ground arith

label_end_sound :
    (c : ℕ) (s : Bytes)
    → label_end (c ∷ s) ≡ true
    → All (λ c. is_label_byte c ≡ true) (c ∷ s) × (is_alnum (last_byte (c ∷ s)) ≡ true)
unfolding label_end
label_end_sound c [] h = ((alnum_label c h, tt), h)
label_end_sound c (d ∷ s) h =
    let (all, last) = label_end_sound d s (ground arith) in ((ground arith, all), last)

label_end_complete :
    (c : ℕ) (s : Bytes)
    → All (λ c. is_label_byte c ≡ true) (c ∷ s)
    → is_alnum (last_byte (c ∷ s)) ≡ true
    → label_end (c ∷ s) ≡ true
unfolding label_end
label_end_complete c [] a h = h
label_end_complete c (d ∷ s) a h = ground (arith, label_end_complete d s a.1 h)

valid_subdomain_label-IsLabel : (s : Bytes) → valid_subdomain_label s ≡ true → IsLabel s
unfolding valid_subdomain_label
valid_subdomain_label-IsLabel [] h = cc
valid_subdomain_label-IsLabel (c ∷ []) h = record {
  nonempty = omega arith;
  short = omega arith;
  bytes = (alnum_label c (ground arith), tt);
  first = ground arith;
  last = ground arith;
}
valid_subdomain_label-IsLabel (c ∷ d ∷ s) h =
    let (all, last) = label_end_sound d s (ground arith) in
    record {
      nonempty = omega arith;
      short = ground arith;
      bytes = (alnum_label c (ground arith), all);
      first = ground arith;
      last = last;
    }

IsLabel-valid_subdomain_label : (s : Bytes) → IsLabel s → valid_subdomain_label s ≡ true
unfolding valid_subdomain_label
IsLabel-valid_subdomain_label [] v = absurd (omega (arith, v.nonempty))
IsLabel-valid_subdomain_label (c ∷ []) v = ground (arith, v.first)
IsLabel-valid_subdomain_label (c ∷ d ∷ s) v =
    ground (arith, v.first, v.short, label_end_complete d s v.bytes.1 v.last)

-- The regular expression accepts exactly the DNS labels that its comment describes.
pub valid_subdomain_label_iff : (s : Bytes) → (valid_subdomain_label s ≡ true) ↔ IsLabel s
valid_subdomain_label_iff s = (valid_subdomain_label-IsLabel s, IsLabel-valid_subdomain_label s)

-- A label has no colon.
pub label-Lacks : (s : Bytes) → All (λ c. is_label_byte c ≡ true) s → has_byte colon s ≡ false
unfolding has_byte is_label_byte is_alnum
label-Lacks [] h = refl
label-Lacks (c ∷ s) h = ground (arith, label-Lacks s h.1)

-- ===== src/HostPort/Laws.antt =====
-- When `net.SplitHostPort` takes a text apart, and what `trimPort` makes of it.
use go_tcp_tunnel.Base.{
  ℕ, ◌≡◌, ◌≢◌, refl, false, [], ◌∷◌, ◌++◌, Bytes, arith, ok, err, has_byte, cut_last-append,
  cut_last-none, ◌==◌, has_byte-append,
}
use go_tcp_tunnel.HostPort.{
  missing_port, split_host_port, split_at_colon, split_plain, trim_port, colon,
}

-- No byte that `net.SplitHostPort` treats specially.
abbrev pub IsPlain : Bytes → Type 0
IsPlain s = (has_byte colon s ≡ false) × (has_byte b'[' s ≡ false) × (has_byte b']' s ≡ false)

split_plain_lem :
    (text host port : Bytes)
    → has_byte colon host ≡ false
    → has_byte b'[' text ≡ false
    → has_byte b']' text ≡ false
    → split_plain text host port ≡ ok (host, port)
unfolding split_plain
split_plain_lem text host port a b c = rw (a, b, c)

split_at_colon_lem :
    (text host port : Bytes)
    → has_byte colon host ≡ false
    → has_byte b'[' text ≡ false
    → has_byte b']' text ≡ false
    → split_at_colon text host port ≡ ok (host, port)
unfolding split_at_colon
split_at_colon_lem [] host port a b c = split_plain_lem [] host port a b c
split_at_colon_lem (x ∷ text) host port a b c =
    unfold has_byte in ground (arith, split_plain_lem (x ∷ text) host port a b c)

joined-Lacks :
    (c : ℕ) (host port : Bytes)
    → has_byte c host ≡ false
    → has_byte c port ≡ false
    → (c == colon) ≡ false
    → has_byte c (host ++ colon ∷ port) ≡ false
joined-Lacks c host port h p n =
    rw (has_byte-append c host (colon ∷ port), h) (unfold has_byte in ground arith)

-- A plain host and a plain port, joined by a colon, are taken apart again.
pub split_host_port-join :
    (host port : Bytes)
    → IsPlain host
    → IsPlain port
    → split_host_port (host ++ colon ∷ port) ≡ ok (host, port)
unfolding split_host_port
split_host_port-join host port h p =
    rw (cut_last-append colon host port p.0, split_host_port)
      (split_at_colon_lem (host ++ colon ∷ port) host port h.0
        (joined-Lacks b'[' host port h.1 p.1 refl) (joined-Lacks b']' host port h.2 p.2 refl))

-- A text with no colon has no port.
pub split_host_port-missing :
    (s : Bytes) → has_byte colon s ≡ false → split_host_port s ≡ err missing_port
unfolding split_host_port
split_host_port-missing s h = rw (cut_last-none colon s h, split_host_port)

-- `trimPort` drops the port of a host with a name.
pub trim_port-join :
    (host port : Bytes)
    → IsPlain host
    → IsPlain port
    → host ≢ []
    → trim_port (host ++ colon ∷ port) ≡ host
unfolding trim_port
trim_port-join [] port h p n = absurd (n refl)
trim_port-join (c ∷ host) port h p n = rw (split_host_port-join (c ∷ host) port h p)

-- A text with no colon is kept.
pub trim_port-plain : (s : Bytes) → has_byte colon s ≡ false → trim_port s ≡ s
unfolding trim_port
trim_port-plain s h = rw (split_host_port-missing s h)

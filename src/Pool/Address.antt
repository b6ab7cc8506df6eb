-- ===== src/Pool/Address.antt =====
-- The pool finds the client of a connection again from the connection's address.
use go_tcp_tunnel.Base.{
  ℕ, false, ◌≡◌, ◌⊎◌, inl, inr, refl, arith, [], ◌∷◌, Bytes, codes, All, has_byte, ap, sym, ◌∙◌,
}
use go_tcp_tunnel.HostPort.{colon}
use go_tcp_tunnel.HostPort.Laws.{IsPlain, split_host_port-join}
use go_tcp_tunnel.Id.{empty_id, to_string}
use go_tcp_tunnel.Id.Letters.{IsText}
use go_tcp_tunnel.Id.RoundTrip.{IsId, to_string-IsText, unmarshal_text-to_string}
use go_tcp_tunnel.Pool.{addr, identifier}

text-Lacks :
    (c : ℕ)
    → (c ≡ colon) ⊎ ((c ≡ b'[') ⊎ (c ≡ b']'))
    → (s : Bytes) → All IsText s
    → has_byte c s ≡ false
unfolding has_byte
text-Lacks c h [] t = refl
text-Lacks c h (b ∷ s) t = ground (arith, text-Lacks c h s t.1)

text-IsPlain : (s : Bytes) → All IsText s → IsPlain s
text-IsPlain s t = (
  text-Lacks colon (inl refl) s t,
  text-Lacks b'[' (inr (inl refl)) s t,
  text-Lacks b']' (inr (inr refl)) s t,
)

port-IsPlain : IsPlain (codes "443")
unfolding has_byte
port-IsPlain = (refl, refl, refl)

pub empty_id-IsId : IsId empty_id
unfolding empty_id
empty_id-IsId = (refl, omega arith)

-- The address of a client determines the client.
pub identifier-addr : (i : Bytes) → IsId i → identifier (addr i) ≡ i
unfolding identifier addr
identifier-addr i v =
    rw
      (
        split_host_port-join (to_string i) (codes "443")
            (text-IsPlain (to_string i) (to_string-IsText i v)) port-IsPlain,
        identifier,
      )
      (rw (unmarshal_text-to_string i v empty_id empty_id-IsId, identifier))

pub addr-injective : (i j : Bytes) → IsId i → IsId j → addr i ≡ addr j → i ≡ j
addr-injective i j v w e = sym (identifier-addr i v) ∙ (ap identifier e ∙ identifier-addr j w)

-- ===== src/ClientIds/Listed.antt =====
-- The list that `-client-ids` holds is what the server subscribes.
use go_tcp_tunnel.Base.{
  ◌≡◌, refl, ap, ◌∙◌, arith, false, ◌||◌, List, [], ◌∷◌, ◌++◌, Bytes, ok, All, has_byte, elem,
  is_empty,
}
use go_tcp_tunnel.Base.{split, split-last, split-append}
use go_tcp_tunnel.Id.{empty_id, to_string}
use go_tcp_tunnel.Id.Letters.{IsText}
use go_tcp_tunnel.Id.RoundTrip.{IsId, to_string-IsText, to_string-ne-nil, unmarshal_text-to_string}
use go_tcp_tunnel.Pool.Address.{empty_id-IsId}
use go_tcp_tunnel.Registry.{Registry, subscribe, is_subscribed}
use go_tcp_tunnel.Registry.Subscribed.{is_subscribed-subscribe}
use go_tcp_tunnel.StreamProxy.{not-is_empty}
use go_tcp_tunnel.ClientIds.{subscribe_ids, subscribe_listed}

-- The identifiers as text, with a comma between them.
abbrev pub joined : Bytes → List Bytes → Bytes
joined i [] = to_string i
joined i (k ∷ ks) = to_string i ++ b',' ∷ joined k ks

text-plain : (s : Bytes) → All IsText s → has_byte b',' s ≡ false
unfolding has_byte
text-plain [] h = refl
text-plain (c ∷ s) h = ground (arith, text-plain s h.1)

subscribe_ids-cons :
    (i : Bytes) (rest : List Bytes) (r : Registry)
    → IsId i
    → subscribe_ids (to_string i ∷ rest) r ≡ subscribe_ids rest (subscribe i r)
unfolding subscribe_ids
subscribe_ids-cons i rest r v =
    rw
      (
        not-is_empty (to_string i) (to_string-ne-nil i v),
        unmarshal_text-to_string i v empty_id empty_id-IsId,
        subscribe_ids,
      )
      refl

split-joined :
    (i k : Bytes) (ks : List Bytes)
    → IsId i
    → (split b',' (joined i []) ≡ to_string i ∷ [])
      × (split b',' (joined i (k ∷ ks)) ≡ to_string i ∷ split b',' (joined k ks))
split-joined i k ks v =
    let plain = text-plain (to_string i) (to_string-IsText i v) in
    (split-last b',' (to_string i) plain, split-append b',' (to_string i) (joined k ks) plain)

subscribe_ids-joined :
    (i : Bytes) (is : List Bytes) (r : Registry) (j : Bytes)
    → IsId i
    → All IsId is
    → (r' : Registry) × (subscribe_ids (split b',' (joined i is)) r ≡ ok r')
      × (is_subscribed j r' ≡ (elem j (i ∷ is) || is_subscribed j r))
unfolding elem
subscribe_ids-joined i [] r j v w = (
  subscribe i r,
  ap (λ l. subscribe_ids l r) (split-joined i i [] v).0
      ∙ (subscribe_ids-cons i [] r v ∙ unfold subscribe_ids in refl),
  ground (arith, is_subscribed-subscribe i j r),
)
subscribe_ids-joined i (k ∷ ks) r j v w =
    let (r', e, s) = subscribe_ids-joined k ks (subscribe i r) j w.0 w.1 in
    (
      r',
      ap (λ l. subscribe_ids l r) (split-joined i k ks v).1 ∙ (subscribe_ids-cons i _ r v ∙ e),
      ground (arith, s, is_subscribed-subscribe i j r),
    )

append-ne-nil : (s t : Bytes) → is_empty (s ++ b',' ∷ t) ≡ false
append-ne-nil [] t = refl
append-ne-nil (c ∷ s) t = refl

pub joined-ne-nil : (i : Bytes) (is : List Bytes) → IsId i → is_empty (joined i is) ≡ false
joined-ne-nil i [] v = not-is_empty (to_string i) (to_string-ne-nil i v)
joined-ne-nil i (k ∷ ks) v = append-ne-nil (to_string i) (joined k ks)

-- With the texts of some identifiers of 32 bytes, separated by commas, for `-client-ids`, the
-- server starts with exactly those clients subscribed besides those that were.
pub subscribe_listed-joined :
    (i : Bytes) (is : List Bytes) (r : Registry) (j : Bytes)
    → IsId i
    → All IsId is
    → (r' : Registry) × (subscribe_listed (joined i is) r ≡ ok r')
      × (is_subscribed j r' ≡ (elem j (i ∷ is) || is_subscribed j r))
unfolding subscribe_listed
subscribe_listed-joined i is r j v w =
    let (r', e, s) = subscribe_ids-joined i is r j v w in (r', rw (joined-ne-nil i is v) e, s)

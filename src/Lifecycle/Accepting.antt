-- ===== src/Lifecycle/Accepting.antt =====
-- When the accepting loops end.
use go_tcp_tunnel.Base.{ap, ℕ, ◌≡◌, ◌≢◌, refl, true, false, List, [], ◌∷◌, ◌++◌, Bytes, All}
use go_tcp_tunnel.Routing.{Routed, stream_message, handle_http_conn}
use go_tcp_tunnel.Lifecycle.{
  Sniffed, handle_all, listen_http, listen_stream, listen_loop, Accept, accepted, accept_failed,
  listener_closed, accept_loop,
}

-- The connections among the events.
abbrev pub connections : List Accept → List ℕ
connections [] = []
connections (accepted c ∷ es) = c ∷ connections es
connections (accept_failed ∷ es) = connections es
connections (listener_closed ∷ es) = connections es

abbrev pub IsOpen : Accept → Type 0
IsOpen e = e ≢ listener_closed

-- As long as the listener is open the loop goes on, past every failed Accept, and handles each
-- connection once, in order.
pub accept_loop-open : (es : List Accept) → All IsOpen es → accept_loop es ≡ (connections es, false)
unfolding accept_loop
accept_loop-open [] h = refl
accept_loop-open (accepted c ∷ es) h = rw (accept_loop-open es h.1) refl
accept_loop-open (accept_failed ∷ es) h = accept_loop-open es h.1
accept_loop-open (listener_closed ∷ es) h = absurd (h.0 refl)

accept_loop-ends :
    (before after : List Accept)
    → All IsOpen before
    → accept_loop (before ++ listener_closed ∷ after) ≡ (connections before, true)
unfolding accept_loop
accept_loop-ends [] after h = refl
accept_loop-ends (accepted c ∷ es) after h = rw (accept_loop-ends es after h.1) refl
accept_loop-ends (accept_failed ∷ es) after h = accept_loop-ends es after h.1
accept_loop-ends (listener_closed ∷ es) after h = absurd (h.0 refl)

-- Each connection once and in its order, with what is done for it.
abbrev pub handled : {A : Type 0} → (ℕ → A) → List ℕ → List (ℕ × A)
handled f [] = []
handled f (c ∷ cs) = (c, f c) ∷ handled f cs

pub listen_stream-handled :
    (identifier network address : Bytes) (cs : List ℕ)
    → listen_stream identifier network address cs
      ≡ handled (λ c. (identifier, stream_message network address)) cs
unfolding listen_stream
listen_stream-handled identifier network address [] = refl
listen_stream-handled identifier network address (c ∷ cs) =
    rw (listen_stream-handled identifier network address cs) refl

abbrev routed_by : Bytes → (ℕ → Sniffed) → ℕ → Routed
routed_by base_domain sniff c =
    handle_http_conn base_domain (sniff c).has_deadline (sniff c).host (sniff c).is_cleared
      (sniff c).registry

handle_all-handled :
    (base_domain : Bytes) (sniff : ℕ → Sniffed) (cs : List ℕ)
    → handle_all base_domain sniff cs ≡ handled (routed_by base_domain sniff) cs
unfolding handle_all
handle_all-handled base_domain sniff [] = refl
handle_all-handled base_domain sniff (c ∷ cs) = rw (handle_all-handled base_domain sniff cs) refl

-- The loops that accept connections end at the first Accept that reports the listener closed, after
-- any number of failed ones, and have then handled exactly the connections accepted before, each
-- once and in their order: Start's; that of a stream's listener, with the client and the message of
-- the stream; and that of the http listener, each by handleHTTPConn with what was sniffed of it.
pub accept_loop-closed :
    (before after : List Accept) (identifier network address base_domain : Bytes)
    → (sniff : ℕ → Sniffed) → All IsOpen before
    → (accept_loop (before ++ listener_closed ∷ after) ≡ (connections before, true))
      × (listen_loop identifier network address (before ++ listener_closed ∷ after) ≡ (
        handled (λ c. (identifier, stream_message network address)) (connections before),
        true,
      ))
      × (listen_http base_domain sniff (before ++ listener_closed ∷ after)
          ≡ (handled (routed_by base_domain sniff) (connections before), true))
unfolding listen_loop listen_http
accept_loop-closed before after identifier network address base_domain sniff h =
    let ends = accept_loop-ends before after h in
    (
      ends,
      rw ends (
          ap (λ l. (l, true))
            (listen_stream-handled identifier network address (connections before))),
      rw ends (ap (λ l. (l, true)) (handle_all-handled base_domain sniff (connections before))),
    )

-- ===== src/Client/Dialing/Ending.antt =====
-- How dialing ends, and that it leaks no connection.
use go_tcp_tunnel.Base.{
  ℕ, ◌+◌, ◌≡◌, ◌≢◌, inl, inr, refl, sym, ap, ◌∙◌, arith, Bool, true, false, none, some, Option,
  List, [], ◌∷◌, ◌++◌, ok, err, All, holds, discard, discard_fresh, Option-cases, if◌then◌else◌,
}
use go_tcp_tunnel.Client.{backoff_exceeded}
use go_tcp_tunnel.Client.Dialing.{
  Dials, custom_made, custom_failed, not_reached, reached, tried, do_dial, Attempt, Dialing,
  dial_ended, dial_loop, dial,
}

-- The connection that an attempt ends with: one that `DialTLS` made without an error, or one to the
-- server whose keepalive is set, unless it is no TCP connection, and whose TLS handshake succeeds.
abbrev pub reached_by : Dials → Option ℕ
reached_by (custom_made conn) = some conn
reached_by (custom_failed conn) = none
reached_by not_reached = none
reached_by (reached conn true true true) = some conn
reached_by (reached conn false kept_alive true) = some conn
reached_by (reached conn true false shakes_hands) = none
reached_by (reached conn true true false) = none
reached_by (reached conn false kept_alive false) = none

-- The connection that an attempt makes, whether it fails or not.
abbrev pub made_by : Dials → Option ℕ
made_by (custom_made conn) = some conn
made_by (custom_failed conn) = conn
made_by not_reached = none
made_by (reached conn is_tcp kept_alive shakes_hands) = some conn

abbrev success : Option ℕ × Bool → Option ℕ
success (conn, true) = conn
success (conn, false) = none

abbrev pub dialed : Attempt → Option ℕ
dialed a = reached_by a.dials

tried_reached : (d : Dials) → success (tried d) ≡ reached_by d
unfolding tried
tried_reached (custom_made conn) = refl
tried_reached (custom_failed none) = refl
tried_reached (custom_failed (some c)) = refl
tried_reached not_reached = refl
tried_reached (reached conn true true true) = refl
tried_reached (reached conn true true false) = refl
tried_reached (reached conn true false shakes_hands) = refl
tried_reached (reached conn false kept_alive true) = refl
tried_reached (reached conn false kept_alive false) = refl

tried_made : (d : Dials) → (tried d).0 ≡ made_by d
unfolding tried
tried_made (custom_made conn) = refl
tried_made (custom_failed conn) = refl
tried_made not_reached = refl
tried_made (reached conn is_tcp kept_alive shakes_hands) = refl

-- The attempt's connection, if there is one, is not among those that were open before.
abbrev pub IsNew : List ℕ → Attempt → Type 0
IsNew opened a = (c : ℕ) → made_by a.dials ≡ some c → holds c opened ≡ false

-- The attempt failed and the backoff asks for another one.
abbrev pub Retried : Attempt → Type 0
Retried a = (dialed a ≡ none) × (a.next_back_off ≢ none)

abbrev pub delay : Option ℕ → ℕ
delay none = 0
delay (some d) = d

abbrev pub delays : List Attempt → ℕ
delays [] = 0
delays (a ∷ rest) = delay a.next_back_off + delays rest

abbrev pub with_conn : Option ℕ → List ℕ → List ℕ
with_conn none opened = opened
with_conn (some c) opened = c ∷ opened

discard-cons : (c : ℕ) (opened : List ℕ) → holds c opened ≡ false → discard c (c ∷ opened) ≡ opened
unfolding discard
discard-cons c opened new = ground (arith, discard_fresh c opened new)

close_failed :
    (r : Option ℕ × Bool) (opened : List ℕ)
    → ((c : ℕ) → r.0 ≡ some c → holds c opened ≡ false)
    → ◌≡◌ {A = Option ℕ × List ℕ}
        (elim r.0 [
          | none ↦ (none, opened)
          | some c ↦ if r.1 then (some c, c ∷ opened) else (none, discard c (c ∷ opened))
        ])
        (success r, with_conn (success r) opened)
close_failed (none, true) opened new = refl
close_failed (none, false) opened new = refl
close_failed (some c, true) opened new = refl
close_failed (some c, false) opened new = ap (λ o. (none, o)) (discard-cons c opened (new c refl))

do_dial_lem :
    (a : Attempt) (opened : List ℕ)
    → IsNew opened a
    → do_dial a.dials opened ≡ (dialed a, with_conn (dialed a) opened)
unfolding do_dial
do_dial_lem a opened new =
    close_failed (tried a.dials) opened (λ c e. new c (sym (tried_made a.dials) ∙ e))
    ∙ ap (λ d. (d, with_conn d opened)) (tried_reached a.dials)

retry :
    (a : Attempt) (rest : List Attempt) (slept d : ℕ) (opened o : List ℕ)
    → do_dial a.dials opened ≡ (none, o)
    → a.next_back_off ≡ some d
    → dial_loop (a ∷ rest) slept opened ≡ dial_loop rest (slept + d) o
unfolding dial_loop
retry a rest slept d opened o e f = ground (arith, e, f)

give_up :
    (a : Attempt) (rest : List Attempt) (slept : ℕ) (opened o : List ℕ)
    → do_dial a.dials opened ≡ (none, o)
    → a.next_back_off ≡ none
    → dial_loop (a ∷ rest) slept opened
      ≡ record { result = dial_ended (err backoff_exceeded); slept = slept; opened = o }
unfolding dial_loop
give_up a rest slept opened o e f = ground (arith, e, f)

succeed :
    (a : Attempt) (rest : List Attempt) (slept c : ℕ) (opened o : List ℕ)
    → do_dial a.dials opened ≡ (some c, o)
    → dial_loop (a ∷ rest) slept opened
      ≡ record { result = dial_ended (ok c); slept = slept; opened = o }
unfolding dial_loop
succeed a rest slept c opened o e = ground (arith, e)

dial_loop-append :
    (before rest : List Attempt) (slept : ℕ) (opened : List ℕ)
    → All (IsNew opened) before
    → All Retried before
    → dial_loop (before ++ rest) slept opened ≡ dial_loop rest (slept + delays before) opened
unfolding dial_loop
dial_loop-append [] rest slept opened n h = ap (λ d. dial_loop rest d opened) (omega arith)
dial_loop-append (a ∷ before) rest slept opened n h = elim (Option-cases a.next_back_off) [
  | inl e ↦ absurd (h.0.1 e)
  | inr (d, e) ↦
      retry a (before ++ rest) slept d opened opened
        (do_dial_lem a opened n.0 ∙ ap (λ r. (r, with_conn r opened)) h.0.0) e
      ∙ (dial_loop-append before rest (slept + d) opened n.1 h.1
          ∙ ap (λ d. dial_loop rest d opened) (omega (arith, ap delay e)))
]

abbrev pub ended : Option ℕ → Dialing
ended none = dial_ended (err backoff_exceeded)
ended (some conn) = dial_ended (ok conn)

last_attempt :
    (a : Attempt) (after : List Attempt) (slept : ℕ) (opened : List ℕ)
    → IsNew opened a
    → (Retried a → ⊥)
    → dial_loop (a ∷ after) (0 + slept) opened
      ≡ record { result = ended (dialed a); slept = slept; opened = with_conn (dialed a) opened }
last_attempt a after slept opened new last =
    let dials = do_dial_lem a opened new in
    let zero_plus : 0 + slept ≡ slept = omega arith in
    ap (λ n. dial_loop (a ∷ after) n opened) zero_plus ∙ elim (Option-cases (dialed a)) [
      | inr (c, e) ↦ rw e (
          succeed a after slept c opened (c ∷ opened) (dials ∙ ap (λ r. (r, with_conn r opened)) e))
      | inl e ↦ elim (Option-cases a.next_back_off) [
        | inl f ↦
            rw e
              (give_up a after slept opened opened (dials ∙ ap (λ r. (r, with_conn r opened)) e) f)
        | inr (d, f) ↦ absurd (last (e, λ g. cc))
      ]
    ]

-- With a backoff, dial ends with the first attempt after which it is not asked to try again: with
-- its connection if it succeeded, and else with an error; it slept the delays of the backoff for
-- the attempts before, and exactly that connection is open besides those that were: those whose
-- keepalive or TLS handshake failed are closed. The connections of the attempts are assumed to be
-- new.
pub dial_first :
    (before after : List Attempt) (a : Attempt) (opened : List ℕ)
    → All (IsNew opened) before
    → IsNew opened a
    → All Retried before
    → (Retried a → ⊥)
    → dial true (before ++ a ∷ after) opened ≡ record {
      result = ended (dialed a);
      slept = delays before;
      opened = with_conn (dialed a) opened;
    }
unfolding dial
dial_first before after a opened n new h last =
    dial_loop-append before (a ∷ after) 0 opened n h
    ∙ last_attempt a after (delays before) opened new last

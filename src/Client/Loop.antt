-- ===== src/Client/Loop.antt =====
-- The loop of `Start`.
use go_tcp_tunnel.Base.{
  ℕ, ◌+◌, ◌*◌, ◌≤◌, ◌≡◌, ◌≢◌, inl, inr, arith, false, none, some, Option, List, [], ◌∷◌, err, subst,
  length, Option-cases, Result-cases, All,
}
use go_tcp_tunnel.Client.{
  already_connected, Client, connect, Round, is_hiccup, disconnect_error, after_serving,
  start_round, start,
}

-- No connection and no error of the server is left over.
pub record IsIdle (c : Client) : Type 0 where
  pub no_conn : c.conn ≡ none
  pub no_error : c.server_err ≡ none

-- Dialing does not fail by an error of `Start`'s own.
abbrev pub DialsPlainly : Round → Type 0
DialsPlainly r = r.dialed ≢ err already_connected

start_round-IsIdle :
    (r : Round) (c : Client) → (start_round r c).0 ≡ none → IsIdle (start_round r c).1
unfolding start_round after_serving connect
start_round-IsIdle r c e = ground arith

start_round_fresh :
    (r : Round) (c : Client)
    → DialsPlainly r
    → IsIdle c
    → (start_round r c).0 ≢ some already_connected
unfolding start_round after_serving connect disconnect_error
start_round_fresh r c p v = ground arith

-- From an idle client the loop never finds itself connected already, whatever the server and `Stop`
-- do while a connection is served, if dialing fails only by errors of its own.
pub start-ne-already_connected :
    (rs : List Round) (c : Client)
    → All DialsPlainly rs
    → IsIdle c
    → (start rs c).0 ≢ some already_connected
unfolding start
start-ne-already_connected [] c p v = λ e. cc
start-ne-already_connected (r ∷ rs) c p v = elim (Option-cases (start_round r c).0) [
  | inl e ↦ rw (e, start) (start-ne-already_connected rs _ p.1 (start_round-IsIdle r c e))
  | inr (x, e) ↦ rw (e, start) (λ g. start_round_fresh r c p.0 v (ground arith))
]

-- What happens while a connection is served leaves the time of the last disconnect.
abbrev pub KeepsTime : Round → Type 0
KeepsTime r = (c : Client) → (r.serves c).last_disconnect ≡ c.last_disconnect

-- At least five seconds after the last disconnect, if there was one.
abbrev pub IsLater : Option ℕ → ℕ → Type 0
IsLater none now = Unit
IsLater (some last) now = last + 5 * 1_000_000_000 ≤ now

abbrev pub Spaced : Option ℕ → List Round → Type 0
Spaced last [] = Unit
Spaced last (r ∷ rs) = IsLater last r.now × Spaced (some r.now) rs

not_hiccup : (last : Option ℕ) (now : ℕ) → is_hiccup last now ≡ false → IsLater last now
not_hiccup none now h = tt
not_hiccup (some last) now h = ground arith

start_round_spaced :
    (r : Round) (c : Client)
    → KeepsTime r
    → (start_round r c).0 ≡ none
    → (is_hiccup c.last_disconnect r.now ≡ false)
      × ((start_round r c).1.last_disconnect ≡ some r.now)
unfolding start_round after_serving connect disconnect_error
start_round_spaced r c k e = elim (Result-cases r.dialed) [
  | inl (x, failed) ↦ absurd (ground arith)
  | inr (conn, good) ↦ let same = k (record c { conn = some conn }) in ground arith
]

-- A client that still runs after some rounds has had all its disconnects at least five seconds
-- apart, if the handlers leave the time of the last one.
pub start-Spaced :
    (rs : List Round) (c : Client)
    → All KeepsTime rs
    → (start rs c).0 ≡ none
    → Spaced c.last_disconnect rs
unfolding start
start-Spaced [] c k e = tt
start-Spaced (r ∷ rs) c k e = elim (Option-cases (start_round r c).0) [
  | inl f ↦
      let (apart, time) = start_round_spaced r c k.0 f in
      (
        not_hiccup _ _ apart,
        subst (λ last. Spaced last rs) time
            (start-Spaced rs (start_round r c).1 k.1 (ground arith)),
      )
  | inr (x, f) ↦ absurd (ground arith)
]

-- The time of the last round, or the time before.
abbrev pub last_time : ℕ → List Round → ℕ
last_time before [] = before
last_time before (r ∷ rs) = last_time r.now rs

Spaced-rate :
    (last : ℕ) (rs : List Round)
    → Spaced (some last) rs
    → last + length rs * (5 * 1_000_000_000) ≤ last_time last rs
Spaced-rate last [] h = omega arith
Spaced-rate last (r ∷ rs) h = omega (arith, Spaced-rate r.now rs h.1, h.0)

-- A client that still runs after n further disconnects has run for at least five seconds times n
-- since the disconnect before them: Start gives up at a disconnect that follows another within five
-- seconds. The handlers are assumed to leave the time of the last disconnect.
pub start_rate :
    (rs : List Round) (c : Client) (last : ℕ)
    → All KeepsTime rs
    → c.last_disconnect ≡ some last
    → (start rs c).0 ≡ none
    → last + length rs * (5 * 1_000_000_000) ≤ last_time last rs
start_rate rs c last k before e =
    Spaced-rate last rs (subst (λ t. Spaced t rs) before (start-Spaced rs c k e))

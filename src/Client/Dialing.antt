-- ===== src/Client/Dialing.antt =====
-- `dial` of client.go: an attempt is what the world answers in one call of `doDial` and, if it
-- fails, what `NextBackOff` answers; the open connections of the process are state.
pub mod Ending
use go_tcp_tunnel.Base.{
  ℕ, ◌+◌, Bool, true, false, not, ◌&&◌, ◌||◌, none, some, Option, List, [], ◌∷◌, if◌then◌else◌,
  Result, ok, err, discard,
}
use go_tcp_tunnel.Client.{ClientError, dial_failed, backoff_exceeded}

-- `DialTLS`, which may return a connection with its error; or a dialer that does not reach the
-- server; or one that does: is the connection a TCP connection, is its keepalive set, and does the
-- TLS handshake succeed?
pub data Dials : Type 0 where
  custom_made : ℕ → Dials
  custom_failed : Option ℕ → Dials
  not_reached : Dials
  reached : ℕ → Bool → Bool → Bool → Dials

-- The connection, and whether there is no error, before the `if err != nil`.
unfoldable pub tried : Dials → Option ℕ × Bool
tried (custom_made conn) = (some conn, true)
tried (custom_failed conn) = (conn, false)
tried not_reached = (none, false)
tried (reached conn is_tcp kept_alive shakes_hands) =
    (some conn, (not is_tcp || kept_alive) && shakes_hands)

-- A connection with an error is closed.
unfoldable pub do_dial : Dials → List ℕ → Option ℕ × List ℕ
do_dial d opened =
    let (conn, fine) = tried d in
    elim conn [
      | none ↦ (none, opened)
      | some c ↦ if fine then (some c, c ∷ opened) else (none, discard c (c ∷ opened))
    ]

-- In `next_back_off`, `none` is a negative duration.
pub record Attempt : Type 0 where
  pub dials : Dials
  pub next_back_off : Option ℕ

-- Whether the loop has ended, and how.
pub data Dialing : Type 0 where
  dialing : Dialing
  dial_ended : Result ClientError ℕ → Dialing

pub record Dialed : Type 0 where
  pub result : Dialing
  pub slept : ℕ
  pub opened : List ℕ

unfoldable pub dial_loop : List Attempt → ℕ → List ℕ → Dialed
dial_loop [] slept opened = record { result = dialing; slept = slept; opened = opened }
dial_loop (a ∷ rest) slept opened =
    let (conn, opened') = do_dial a.dials opened in
    elim conn [
      | some c ↦ record { result = dial_ended (ok c); slept = slept; opened = opened' }
      | none ↦ elim a.next_back_off [
        | none ↦ record {
          result = dial_ended (err backoff_exceeded);
          slept = slept;
          opened = opened';
        }
        | some d ↦ dial_loop rest (slept + d) opened'
      ]
    ]

dialed_once : Option ℕ × List ℕ → Dialed
dialed_once (none, opened) = record {
  result = dial_ended (err dial_failed);
  slept = 0;
  opened = opened;
}
dialed_once (some c, opened) = record { result = dial_ended (ok c); slept = 0; opened = opened }

-- Without a backoff there is one attempt.
unfoldable pub dial : Bool → List Attempt → List ℕ → Dialed
unfolding dialed_once
dial false [] opened = record { result = dialing; slept = 0; opened = opened }
dial false (a ∷ rest) opened = dialed_once (do_dial a.dials opened)
dial true attempts opened = dial_loop attempts 0 opened

-- ===== src/Examples/Copying.antt =====
-- Runs of dialing and of the copying of bytes.
use go_tcp_tunnel.Piping.{Cuts}
use go_tcp_tunnel.Piping.Delivered.{ArrivesVia}
use go_tcp_tunnel.Base.{
  ℕ, ◌≡◌, refl, arith, true, false, none, some, List, [], ◌∷◌, ◌++◌, codes, holds, take, beq,
}
use go_tcp_tunnel.Proto.{ControlMessage, action_proxy, tcp, is_stream}
use go_tcp_tunnel.StreamProxy.{new_stream_proxy, stream_proxy, local_addr_for}
use go_tcp_tunnel.Client.Dialing.{Attempt, reached, dial}
use go_tcp_tunnel.Client.Dialing.Ending.{made_by}
use go_tcp_tunnel.Client.Dialing.Ending.{dial_first, ended, dialed, delays, with_conn}
use go_tcp_tunnel.Replay.{contents, transfer}
use go_tcp_tunnel.Piping.{
  Exchange, Closed, user_conn, proxy_conn, Copied, flush_transfer, flush_write, proxy_stream,
  local_conn,
}
use go_tcp_tunnel.Piping.Delivered.{received, proxy_conn-proxy_stream}
use go_tcp_tunnel.Examples.Commands.{parse, reads, peeked}

-- The TLS handshake fails first, and succeeds after five nanoseconds.
abbrev unshaken : Attempt
unshaken = record { dials = reached 3 true true false; next_back_off = some 5 }

abbrev shaken : Attempt
shaken = record { dials = reached 4 true true true; next_back_off = none }

attempts_end : (dialed unshaken ≡ none) × (dialed shaken ≡ some 4)
attempts_end = (refl, refl)

attempts_are_new :
    ((c : ℕ) → made_by unshaken.dials ≡ some c → holds c (9 ∷ []) ≡ false)
    × ((c : ℕ) → made_by shaken.dials ≡ some c → holds c (9 ∷ []) ≡ false)
unfolding holds
attempts_are_new = (λ c e. ground arith, λ c e. ground arith)

dial_first_example : dial true (unshaken ∷ shaken ∷ []) (9 ∷ []) ≡ record {
  result = ended (dialed shaken);
  slept = delays (unshaken ∷ []);
  opened = with_conn (dialed shaken) (9 ∷ []);
}
dial_first_example =
    dial_first (unshaken ∷ []) [] shaken (9 ∷ []) (attempts_are_new.0, tt) attempts_are_new.1
      ((attempts_end.0, λ e. cc), tt) (λ r. ground (arith, r.0, attempts_end.1))

abbrev exchange : Exchange
exchange = record {
  made = true;
  user = codes "abcd" ∷ codes "ef" ∷ [];
  copied = 2;
  response = some (codes "ok" ∷ []);
  returned = 1;
}

-- Everything is copied.
abbrev uncut : Cuts
uncut = record { taken = 2; answered = 2 }

abbrev to_port : ControlMessage
to_port = record {
  action = action_proxy;
  forwarded_host = codes "[::]:22";
  forwarded_proto = tcp;
  remote_addr = [];
}

abbrev copied : Copied
copied = record {
  to_local = transfer (codes "abc" ∷ codes "def" ∷ []) [];
  to_server = flush_transfer true (codes "o" ∷ codes "k" ∷ []);
  closed = local_conn ∷ [];
}

bodies :
    (contents (codes "abc" ∷ codes "def" ∷ []) ≡ (proxy_conn exchange).to_client)
    × (contents (codes "ok" ∷ []) ≡ received copied.to_server)
unfolding contents proxy_conn transfer take flush_transfer flush_write
bodies = (refl, refl)

forwards :
    proxy_stream
      (λ a. true)
      (new_stream_proxy (codes "127.0.0.1:22"))
      to_port
      uncut
      true
      (codes "abc" ∷ codes "def" ∷ [])
      (codes "o" ∷ codes "k" ∷ [])
    ≡ some copied
unfolding proxy_stream take stream_proxy new_stream_proxy local_addr_for is_stream beq
forwards = refl

proxy_conn-proxy_stream_example :
    ArrivesVia copied.to_local (contents reads) exchange.user 2 (codes "abc" ∷ codes "def" ∷ []) 2
    × ArrivesVia
        (proxy_conn exchange).to_user
        (contents (codes "o" ∷ codes "k" ∷ []))
        (codes "o" ∷ codes "k" ∷ [])
        2
        (codes "ok" ∷ [])
        1
    × ((before : List Closed) × ((proxy_conn exchange).closed ≡ before ++ user_conn ∷ []))
proxy_conn-proxy_stream_example =
    proxy_conn-proxy_stream parse reads (codes "abc") exchange (λ a. true)
      (new_stream_proxy (codes "127.0.0.1:22")) to_port uncut true (codes "abc" ∷ codes "def" ∷ [])
      (codes "o" ∷ codes "k" ∷ []) (codes "ok" ∷ []) copied peeked refl refl bodies.0 forwards
      bodies.1

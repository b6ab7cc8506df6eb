-- ===== src/Examples/Data.antt =====
-- Clients, tunnels and an operating system for the examples.
use go_tcp_tunnel.Server.Accepted.{pointers}
use go_tcp_tunnel.Base.{
  ℕ, suc, ◌+◌, ◌<◌, true, false, ◌≡◌, refl, arith, none, some, List, [], ◌∷◌, Bytes, codes, ◌==◌,
  holds,
}
use go_tcp_tunnel.Base.Dict.{Dict}
use go_tcp_tunnel.Id.RoundTrip.{IsId}
use go_tcp_tunnel.Proto.{Tunnel, tcp, http}
use go_tcp_tunnel.Pool.{Http2}
use go_tcp_tunnel.Server.{Listen, ServerConfig}
use go_tcp_tunnel.Server.Handling.{World}
use go_tcp_tunnel.Server.Tunnels.{OpensNew}

abbrev pub filled : ℕ → Bytes
filled b =
    b ∷ b ∷ b ∷ b ∷ b ∷ b ∷ b ∷ b ∷ b ∷ b ∷ b ∷ b ∷ b ∷ b ∷ b ∷ b ∷ b ∷ b ∷ b ∷ b ∷ b ∷ b ∷ b ∷ b
    ∷ b ∷ b ∷ b ∷ b ∷ b ∷ b ∷ b ∷ b ∷ []

abbrev pub laptop : Bytes
laptop = filled 7

abbrev pub desktop : Bytes
desktop = filled 200

pub laptop-IsId : IsId laptop
laptop-IsId = (refl, omega arith)

pub desktop-IsId : IsId desktop
desktop-IsId = (refl, omega arith)

abbrev pub ssh_tunnel : Tunnel
ssh_tunnel = record { protocol = tcp; host = []; auth = []; addr = codes "0.0.0.0:22" }

abbrev pub web_tunnel : Tunnel
web_tunnel = record { protocol = http; host = codes "myapp"; auth = []; addr = [] }

abbrev pub batch : Dict Tunnel
batch = (codes "ssh", ssh_tunnel) ∷ (codes "web", web_tunnel) ∷ []

abbrev pub base : Bytes
base = codes "tunnel.example.com"

-- A number above all that are in use.
abbrev pub above : List ℕ → ℕ
above [] = 0
above (n ∷ ns) = suc (n + above ns)

lt-above : (k : ℕ) (ns : List ℕ) → holds k ns ≡ true → k < above ns
unfolding holds
lt-above k [] h = cc
lt-above k (n ∷ ns) h = ground (arith, lt-above k ns)

pub above_unused : (ns : List ℕ) → holds (above ns) ns ≡ false
above_unused ns = grind (arith, lt-above (above ns) ns)

abbrev pub listen : Listen
listen network address opened = some (above opened)

pub listen-OpensNew : OpensNew listen
listen-OpensNew network address opened l e = ground (arith, above_unused opened)

abbrev pub http2 : Http2
http2 = record {
  can_take_new_request = λ c. c == 9;
  ping = λ c. c == 9;
  new_client_conn = λ conn. some (conn + 100);
}

abbrev pub config : ServerConfig
config = record { base_domain = base; auto_subscribe = true }

abbrev pub world : World
world = record {
  is_tls = true;
  peer_id = some laptop;
  deadline_set = true;
  http2 = http2;
  request_made = true;
  exchange = λ s.
      (some (record { status = 200; content_length = none; tunnels = some (pointers batch) }), s);
  push = λ i s. s;
  listen = listen;
}

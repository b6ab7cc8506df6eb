-- ===== src/Server/Serving/Sound.antt =====
-- The pool of a server stays sound while it serves.
use go_tcp_tunnel.Base.{ℕ, arith, Bytes, holds}
use go_tcp_tunnel.Base.Dict.{lookup}
use go_tcp_tunnel.Pool.State.{IsUnused}
use go_tcp_tunnel.Pool.Invariant.{
  IsSound, add_conn-IsSound, delete_conn-IsSound, evict-IsSound, mark_dead-IsSound,
}
use go_tcp_tunnel.Server.{Server, ServerConfig, free, new_server, server_unsubscribe}
use go_tcp_tunnel.Server.Handling.{close_conn, subscribe_client}
use go_tcp_tunnel.Pool.{delete_conn}
use go_tcp_tunnel.Server.Handshake.{IsKept}
use go_tcp_tunnel.Server.Serving.{Leads, Leads-keeps}

close_conn-IsSound :
    (conn : ℕ) (s : Server) → IsUnused conn s → IsSound s → IsSound (close_conn conn s)
unfolding close_conn holds
close_conn-IsSound conn s u v = record {
  nodup = v.nodup;
  live = λ a cp e. ground (arith, v.live a cp e, u a cp e);
  conn_once = v.conn_once;
}

server_unsubscribe-IsSound :
    (others : Server → Server) (i : Bytes) (s : Server)
    → ((q : Server) → IsSound q → IsSound (others q))
    → IsSound s
    → IsSound (server_unsubscribe others i s).1
unfolding server_unsubscribe
server_unsubscribe-IsSound others i s keeps v =
    let left = keeps (delete_conn free i s) (delete_conn-IsSound free i s v) in
    record { nodup = left.nodup; live = left.live; conn_once = left.conn_once }

IsSound-IsKept : (config : ServerConfig) (Listed : Bytes → Type 0) → IsKept config Listed IsSound
unfolding subscribe_client
IsSound-IsKept config Listed = record {
  closed = λ conn s u v. close_conn-IsSound conn s u v;
  joined = λ h conn i s fresh new known v. add_conn-IsSound free h conn i s fresh new v;
  deleted = λ i s v. delete_conn-IsSound free i s v;
  evicted = λ cp a s v. evict-IsSound free cp a s v;
  died = λ c s v. mark_dead-IsSound free c s v;
  added = λ listen ts i s new v. record { nodup = v.nodup; live = v.live; conn_once = v.conn_once };
  subscribed = λ i s may v. record { nodup = v.nodup; live = v.live; conn_once = v.conn_once };
  unsubscribed = λ others i s keeps none_there v. server_unsubscribe-IsSound others i s keeps v;
}

pub new_server-IsSound : IsSound new_server
unfolding new_server lookup holds
new_server-IsSound = record { nodup = tt; live = λ a cp h. cc; conn_once = λ a b cp cq h. cc }

-- Whatever clients come, are rejected, die or are unsubscribed, and whatever other goroutines do
-- meanwhile by the same operations: the pool of a server that was new has one entry for each
-- address, no connection of an entry is closed, and no connection stands in two entries. Accept and
-- the transport are assumed to make new connections, and a client to have no item when Unsubscribe
-- takes it from the registry.
pub new_server-Leads-IsSound :
    (config : ServerConfig) (Listed : Bytes → Type 0) (s : Server)
    → Leads config Listed new_server s
    → IsSound s
new_server-Leads-IsSound config Listed s l =
    Leads-keeps (IsSound-IsKept config Listed) l new_server-IsSound

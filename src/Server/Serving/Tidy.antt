-- ===== src/Server/Serving/Tidy.antt =====
-- A server leaks no listeners while it serves.
use go_tcp_tunnel.Base.{Bytes}
use go_tcp_tunnel.Pool.State.{add_conn-keeps, delete_conn-keeps, evict-keeps, mark_dead-keeps}
use go_tcp_tunnel.Server.{Server, ServerConfig, new_server, disconnected}
use go_tcp_tunnel.Server.Handling.{close_conn, subscribe_client}
use go_tcp_tunnel.Server.Listeners.{
  IsTidy, new_server-IsTidy, disconnected-IsTidy, subscribe-IsTidy, add_tunnels-IsTidy,
}
use go_tcp_tunnel.Server.Unsubscribing.{server_unsubscribe_keeps}
use go_tcp_tunnel.Server.Handshake.{IsKept}
use go_tcp_tunnel.Server.Serving.{Leads, Leads-keeps}

pub IsTidy-IsKept :
    (config : ServerConfig) (Listed : Bytes → Type 0) → IsKept config Listed (λ s. IsTidy s.state)
unfolding close_conn subscribe_client
IsTidy-IsKept config Listed = record {
  closed = λ conn s u v. v;
  joined = λ h conn i s fresh new known v.
      add_conn-keeps IsTidy disconnected (λ j b. disconnected-IsTidy j b) h conn i s v;
  deleted = λ i s v. delete_conn-keeps IsTidy disconnected (λ j b. disconnected-IsTidy j b) i s v;
  evicted = λ cp a s v. evict-keeps IsTidy disconnected (λ j b. disconnected-IsTidy j b) cp a s v;
  died = λ c s v. mark_dead-keeps IsTidy disconnected (λ j b. disconnected-IsTidy j b) c s v;
  added = λ listen ts i s new v. add_tunnels-IsTidy listen config.base_domain new ts i s.state v;
  subscribed = λ i s may v. subscribe-IsTidy i s.state v;
  unsubscribed =
      λ others i s keeps none_there v. server_unsubscribe_keeps others i s keeps none_there v;
}

-- Whatever clients come, are rejected, die or are unsubscribed, and whatever other goroutines do by
-- the same operations during the exchanges with a client and between the locks of GetClientConn and
-- of Unsubscribe: of a new server, the open listeners are exactly those of the items of a consistent
-- registry, each in one item. A client whom Unsubscribe takes from the registry is assumed to have
-- no item then: it was in the pool, and addTunnels stored none in between. The rest of addTunnels and
-- disconnected is one step each, net.Listen opens new listeners, and connections are new.
pub new_server-Leads-IsTidy :
    (config : ServerConfig) (Listed : Bytes → Type 0) (s : Server)
    → Leads config Listed new_server s
    → IsTidy s.state
new_server-Leads-IsTidy config Listed s l =
    Leads-keeps (IsTidy-IsKept config Listed) l new_server-IsTidy

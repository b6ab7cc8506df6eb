-- ===== src/Piping.antt =====
-- The copying of bytes: proxyConn of server.go, the rest of StreamProxy.Proxy of streamproxy.go, and
-- flushWriter of utils.go. A reader is the list of what its calls of Read return; how far the
-- copying of the user's bytes comes before proxyConn returns is a parameter.
pub mod Delivered
use go_tcp_tunnel.Base.{
  ℕ, Bool, true, false, none, some, Option, List, [], ◌∷◌, ◌++◌, Bytes, take, Result, ok, err,
}
use go_tcp_tunnel.Proto.{ControlMessage}
use go_tcp_tunnel.StreamProxy.{StreamProxy, Proxied, forwarded, stream_proxy}
use go_tcp_tunnel.Replay.{transfer}

-- What is closed when a function returns.
pub data Closed : Type 0 where
  user_conn pipe_reader pipe_writer response_body local_conn : Closed

pub data PipeError : Type 0 where
  request_failed io_error : PipeError

-- What `proxyConn` meets: is the request made, what the user's connection reads, how many of these
-- reads are copied by the end, and the body of the response, if there is one. The copying of the
-- user's bytes ends by calling cancel(), which aborts the response; the copying of the response ends
-- there, or where a write to the user fails, behind `returned` of its reads.
pub record Exchange : Type 0 where
  pub made : Bool
  pub user : List Bytes
  pub copied : ℕ
  pub response : Option (List Bytes)
  pub returned : ℕ

pub record Piped : Type 0 where
  pub result : Result PipeError (Unit {0})
  pub to_client : Bytes
  pub to_user : Bytes
  pub closed : List Closed

abbrev deferred : List Closed
deferred = pipe_writer ∷ pipe_reader ∷ user_conn ∷ []

-- `proxyConn` from `httpClient.Do` on.
done : Option (List Bytes) → ℕ → Bytes → Piped
done none returned sent = record {
  result = err io_error;
  to_client = sent;
  to_user = [];
  closed = deferred;
}
done (some body) returned sent = record {
  result = ok tt;
  to_client = sent;
  to_user = transfer (take returned body) [];
  closed = response_body ∷ deferred;
}

unfoldable pub proxy_conn : Exchange → Piped
unfolding done
proxy_conn e = elim e.made [
  | false ↦ record { result = err request_failed; to_client = []; to_user = []; closed = deferred }
  | true ↦ done e.response e.returned (transfer (take e.copied e.user) [])
]

-- `flushWriter.Write`: every write is flushed, where the writer can be.
pub data Written : Type 0 where
  bytes : Bytes → Written
  flushed : Written

unfoldable pub flush_write : Bool → Bytes → List Written
flush_write true p = bytes p ∷ flushed ∷ []
flush_write false p = bytes p ∷ []

-- `transfer(flushWriter{w}, local)`
unfoldable pub flush_transfer : Bool → List Bytes → List Written
flush_transfer can_flush [] = []
flush_transfer can_flush (chunk ∷ chunks) =
    flush_write can_flush chunk ++ flush_transfer can_flush chunks

-- How many reads are copied in each direction before a write fails, or both have ended.
pub record Cuts : Type 0 where
  pub taken : ℕ
  pub answered : ℕ

pub record Copied : Type 0 where
  pub to_local : Bytes
  pub to_server : List Written
  pub closed : List Closed

copied_by : Proxied → Cuts → Bool → List Bytes → List Bytes → Option Copied
copied_by (forwarded target) cuts can_flush body answers = some (record {
  to_local = transfer (take cuts.taken body) [];
  to_server = flush_transfer can_flush (take cuts.answered answers);
  closed = local_conn ∷ [];
})
copied_by _ cuts can_flush body answers = none

-- `StreamProxy.Proxy` with the body of the request and what the local connection reads.
unfoldable pub proxy_stream :
    (Bytes → Bool)
    → StreamProxy
    → ControlMessage
    → Cuts
    → Bool
    → List Bytes
    → List Bytes
    → Option Copied
unfolding copied_by
proxy_stream dials p msg cuts can_flush body answers =
    copied_by (stream_proxy dials p msg) cuts can_flush body answers

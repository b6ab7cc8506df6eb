-- ===== src/Lib.antt =====
-- A library about go-stream-tunnel, which exposes local services through a public server over
-- one HTTP/2 connection for each client. A server accepts clients with a TLS certificate, keeps
-- their connections in a pool, asks each for its tunnels, and opens listeners and registers
-- hosts for them; a client connects, answers the handshake, and forwards what the server sends
-- to local addresses.
--
-- Each file models one source file, and its child modules hold what is proved about it:
--
--   Registry: registry.go. Who is subscribed, and who owns which public host. Entry is none for
--     voidRegistryItem.
--   Id: id/id.go. Identifiers as text, with base32 in Id.Base32.
--   Pool: pool.go. The HTTP/2 connections by address; its state parameter is what the callback
--     free changes.
--   Proto: proto/tunnel.go and proto/controlmsg.go. HttpHost: httphost.go. HostPort:
--     NormalizeAddress of utils.go and trimPort of registry.go, with net.SplitHostPort.
--   Server: server.go. Server.Handling is handleClient with what only it calls; Server.Tunnels
--     is about addTunnels; Server.Serving is the server over time, and Server.Serving.Leads-
--     keeps the induction that every invariant of it uses.
--   Routing: handleHTTPConn and connectRequest of server.go; Routing.Delivery joins it with the
--     client.
--   StreamProxy: streamproxy.go and proxy.go. Config: cmd/client/config.go and the maps of
--     cmd/client/options.go. Client: client.go, with dial in Client.Dialing.
--   ClientIds: the list -client-ids of cmd/server/options.go.
--   Interleaving: addTunnels, disconnected and Unsubscribe of server.go as steps of several
--     goroutines.
--   Lifecycle: the listeners of Start and Stop, and the accept loops of server.go. Replay:
--     httphost.go's peekHostHeader. Piping: the copying of bytes in server.go and
--     streamproxy.go.
--   Messages: what server.go and client.go say to each other on the control connection;
--     Messages.Session joins client, server and a user's connection.
--   Ca: ca/pki.go. CaCommand: cmd/ca/options.go and CheckPrivateKeyPermissions of utils.go.
--     Log: the package log.
--   Tls: the reading of key pairs that the commands share, id.New and id/ptls.go.
--     ServerCommand: cmd/server/options.go. ClientCommand: cmd/client/options.go. Main: cmd/go-
--     stream-tunnel/main.go.
--   Examples: the theorems at concrete inputs, and runs.
--
-- A Go text is a list of byte codes, an error a value of Result, a map an association list whose
-- order is the order in which a loop meets its entries; connections, listeners and HTTP/2
-- connections are numbers. A method that holds a mutex is one step. What other goroutines do
-- between two steps is a function that the theorems quantify over, with the hypotheses that they
-- name; addTunnels and disconnected are one step in Server, and Interleaving takes them apart.
--
-- What the operating system, TLS, net/http, encoding/json and golang.org/x/net/http2 answer are
-- arguments: Listen, Http2, World, Round and Attempt. No definition has fuel: the loops of Start
-- and dial go over the list of what the world does, so that no bound on their length is needed,
-- and every other loop over its data.
--
-- The cryptography, the file system's failures, the parsers of keys, of JSON, of YAML and of
-- flags are arguments too: Crypto, Draw, Os, Keys, Json, Yaml and Flags.
--
-- Not modelled: what follows a panic at a null for a tunnel, in JSON or YAML, the calls of the
-- logger and what is printed, the TCP keepalive settings, and the usage texts. The mocks of
-- tunnelmock serve tests only.
mod Base
pub mod HostPort
pub mod Registry
pub mod Id
pub mod Pool
pub mod Proto
pub mod HttpHost
pub mod Server
pub mod StreamProxy
pub mod Config
pub mod Client
pub mod Routing
pub mod Messages
pub mod ClientIds
pub mod Interleaving
pub mod Ca
pub mod CaCommand
pub mod Tls
pub mod ClientCommand
pub mod ServerCommand
pub mod Main
pub mod Replay
pub mod Piping
pub mod Lifecycle
pub mod Log
mod Examples

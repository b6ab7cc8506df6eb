-- ===== src/Examples.antt =====
-- The theorems at concrete inputs, and runs of the definitions.
mod Returning
mod Reconnecting
mod Data
mod Registries
mod Pools
mod Servers
mod Texts
mod Clients
mod Unsubscribing
mod Interleavings
mod Codec
mod Certificates
mod Commands
mod Programs
mod Sessions
mod Copying

-- ===== src/Tests.antt =====
-- Tests of the definitions, and the theorems at concrete inputs.
mod Deserializing
mod Waiting
mod Clients
mod Dispatching
mod Caching
mod Forwarding
mod Starting
mod Answering
mod Interleaving
mod Continuing
mod Connecting
mod Delivering
mod Proxying
mod Proxied
mod Measuring
mod Sinking

-- ===== src/Tests.antt =====
-- Runs of the models on small inputs, and the theorems at concrete inputs.
mod Samples
mod Generator
mod Wrappers
mod Tracing
mod Servers
mod Sockets
mod Clients
mod Bindings
mod Runs
mod Flags
mod Threads
mod Terminals
mod Lines

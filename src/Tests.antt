-- ===== src/Tests.antt =====
-- The theorems at concrete inputs.
mod Doubles
mod Tasks
mod Oas
mod Server
mod Producer
mod Served
mod Client
mod Concurrent
mod Lifecycle
mod Startup
mod Options

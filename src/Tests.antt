-- ===== src/Tests.antt =====
-- The theorems at concrete inputs: a small installation with one queue, one member, one phone, one
-- click-to-call, one IVR and one inbound route.
pub mod Bench
pub mod Stores
mod Queues
mod Calls
mod Routing
mod Pool
mod Recordings

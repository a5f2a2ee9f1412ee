-- ===== src/Click2Call.antt =====
-- src/modules/calls/services/click2call-workflow.service.ts: the agent's phone is called first, then
-- the number to call, and the two legs are bridged.
pub mod Rows
pub mod Connecting
pub mod Handlers
pub mod Once
pub mod Monotone
pub mod Connects
pub mod Events
pub mod Runs
pub mod Ended
pub mod Ending

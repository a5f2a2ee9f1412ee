-- ===== src/QueueWorkflow.antt =====
-- src/modules/calls/services/queue-call-workflow.service.ts: a caller waits in a queue while its
-- members are rung, is bridged to the first who answers, and leaves by hanging up or by a timeout.
-- The children hold the handlers and what is proved of them.
pub mod Rows
pub mod Ringing
pub mod Handlers
pub mod Lifecycle
pub mod Quiet
pub mod Attempts
pub mod Moves
pub mod Entering
pub mod Safety
pub mod Runs
pub mod Termination
pub mod Race
pub mod Answers
pub mod Stranded
pub mod Served

-- ===== src/IvrWorkflow.antt =====
-- src/modules/calls/services/ivr-call-workflow.service.ts, with the session operations of
-- src/modules/ivr/services/ivr.service.ts: a caller hears an announcement and presses a digit, which
-- leads to a destination.
pub mod Handlers
pub mod Served

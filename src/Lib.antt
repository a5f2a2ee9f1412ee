-- ===== src/Lib.antt =====
-- CommCare, a telephone service: the routing of calls, and the management of its extensions. Asterisk
-- sends events (ARI); a router hands each event to the workflow that its channel's arguments name; the
-- workflows answer with requests to Asterisk and with rows that they write to the database. Beside the
-- calls, services keep a pool of extensions, which are reserved for tenants and assigned to their users.
--
-- The parts, and the files that model them (paths from the repository's root):
--   Prelude          shared names, Boolean tests, texts, lists and association lists
--   QueueStrategy    src/modules/inboundQueues/utils/queue-strategy.util.ts: which members to ring
--   Hangup           src/modules/calls/utils/ari-hangup.util.ts: the end statuses of legs and calls
--   Ari              src/constants/stasis-app-args.constant.ts and the parsers of the workflows: the
--                    arguments by which a channel finds its workflow
--   Entities         the rows of src/modules/*/entity, as far as the workflows use them
--   World            requests, answers and the monad of the handlers; Ensures, Keeps and Served hold the
--                    rules by which the handlers are proved
--   QueueWorkflow    src/modules/calls/services/queue-call-workflow.service.ts: Rows (logEvent,
--                    logPositionChanged, timeoutQueueCall, resolveEligibleMembers), Ringing
--                    (startRingAttempt), Handlers (the event handlers)
--   CallLegs         src/modules/calls/services/call-legs.service.ts and call-events.service.ts
--   Click2Call       src/modules/calls/services/click2call-workflow.service.ts: Rows (rows, webhooks),
--                    Connecting (originateCalleeLeg, bridgeClick2CallLegs), Handlers
--   DialOut          the steps that the IVR and the inbound workflow share
--   IvrWorkflow      src/modules/calls/services/ivr-call-workflow.service.ts
--   InboundWorkflow  src/modules/calls/services/inbound-route-call-workflow.service.ts
--   Router           src/modules/calls/services/call-workflow-router.service.ts
--   Office           what the management services share: tables, requests and their monad; Rows (what
--                    TypeORM does to a table), Rules (the rules by which an operation is proved)
--   Extensions       src/modules/pbx/repositories/extension.repository.ts; Service
--                    (src/modules/pbx/services/extension.service.ts); Keys, Sound, Kept, Synced, Counter
--                    and Assigning (the tables stay sound), Lowest, Replenish
--   Tenancy          src/modules/tenancy and src/modules/iam/services/user.service.ts: tenants, users and
--                    the extensions that they hold; Runs (sequences of operations), Sound, and from
--                    Counting to Quotas (the counters of the tenants)
--   Wav              src/modules/systemRecording/utils/pcm-to-wav.util.ts
--   Tests            the theorems at concrete inputs
-- Functions keep the source's names in snake case. A method that is long is cut into several
-- definitions, named for what the part does.
--
-- What leaves the process is not the program's code. A request (originate, hang up, save a row, publish a
-- webhook) is an `Action`; the `Environment` says, from the history of all requests before, whether it is
-- refused, what it is answered, and what a query finds. Theorems hold for every environment, unless they
-- name what they rely on: that a query finds the row that was written last (`IsStore`, `IsCallStore`),
-- that new ids are new, that the clock gets on (`ReachesBy`). A refused request throws; `attempt` is the
-- source's try and catch. What a handler did before it threw stays done. A query is always answered, with
-- rows of the kind that it asks for: a click-to-call query finds click-to-calls.
--
-- The management services work on tables (`Tables`), which the database neither loses nor refuses: a
-- repository method is one step, and so is a transaction. Redis, Kafka and the tables of Asterisk answer
-- or refuse each request (`Outside`). A theorem names what it relies on: that the database makes new ids
-- (`IsFresh`, `IsNewTenant`), that nothing is refused (`IsReliable`, `all_answered`).
--
-- Numbers are naturals: times are milliseconds, and a difference of times stops at 0, as the source's
-- `Math.max(0, ...)` does. `Math.random` is an argument. The recursion of startRingAttempt runs on fuel,
-- one unit for each attempt. An attempt that leads to another makes a request at least, so where the clock
-- reaches the call's longest wait by the n-th request, more fuel than the requests missing to n is enough.
--
-- Not modelled: handlers and operations that interleave at an `await` (each runs to its end), and with
-- them the locks of the database; log lines, the payloads of call events, which nothing reads back,
-- columns that nothing reads, and the other parts of the repository (management of queues, IVRs, routes,
-- trunks and numbers, sessions, the import of call records, recordings but for their header, the dispatch
-- of webhooks, the frontend).
pub mod Prelude
pub mod QueueStrategy
pub mod Hangup
pub mod Ari
pub mod Entities
pub mod World
pub mod QueueWorkflow
pub mod CallLegs
pub mod Click2Call
pub mod DialOut
pub mod IvrWorkflow
pub mod InboundWorkflow
pub mod Router
pub mod Office
pub mod Extensions
pub mod Tenancy
pub mod Wav
pub mod Tests

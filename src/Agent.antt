-- ===== src/Agent.antt =====
-- The outbound calls that backend/app/agent drives: a queue of call jobs, each of which is prepared,
-- dialled, and finished or retried.
pub mod Transitions
pub mod Repository
pub mod Orchestrator
pub mod Gateway
pub mod Tools
pub mod Logic
pub mod Jobs
pub mod Steps
pub mod Keeps
pub mod Moves
pub mod Prepare
pub mod Calls
pub mod Identity
pub mod Reconcile
pub mod Cleared
pub mod Queue
pub mod History
pub mod Eligible
pub mod Order
pub mod Guards
pub mod Finished
pub mod Refused
pub mod Created

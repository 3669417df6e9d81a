-- ===== src/Service.antt =====
-- packages/kortex-core/src/kortex_core/services/memory_service.py. A method is a function from the
-- state of the service to a result and the new state: the session of the database with what the
-- transaction has written so far, and the caches of the instance. What was written before a raise
-- stays written in the session; to roll it back is the caller's job. Log lines are not modelled.
pub mod Exec
pub mod State
pub mod Governance
pub mod Write
pub mod Methods
pub mod Requests
pub mod Reads
pub mod Links
pub mod Gating
pub mod Samples
mod Tests
mod WriteTests
pub mod Repeats
pub mod Quota
pub mod Reviewing
pub mod Deletion
pub mod Changing
pub mod Refusals
pub mod Tenancy

-- ===== src/Tests.antt =====
-- The theorems at concrete data: a cluster and a driver that log what is asked of them.
mod Fixture
mod Payloads
mod Servers
mod Requests
mod Revocations
mod Assignments
mod Reconciliations
mod Deletions
mod Outcomes
mod Helpers
mod Clients
mod Controls
mod Specs
mod Metrics
mod Startup
mod Passes
mod Removals
mod Secrets

-- ===== src/Keycloak/Fake.antt =====
-- internal/keycloak/fake/server.go: the in-memory Admin API server. Its state, the answers of a
-- handler, and the helpers at the end of the file. The mutex makes each request one step.
pub mod State
pub mod Realms
pub mod Clients
pub mod Scopes
pub mod Roles
pub mod Providers
pub mod Groups
pub mod Router
pub mod Inspect
pub mod Bodies
pub mod RealmWrites
pub mod Reach
pub mod Routing
pub mod Served
pub mod Settling
pub mod Steps
pub mod Updates
pub mod Revocation
pub mod Assignments
pub mod Corrections
pub mod Ready
pub mod Passes
pub mod Healing
pub mod Founding
pub mod Removal

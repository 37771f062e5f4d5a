-- ===== src/Drivers.antt =====
-- The drivers of the six kinds (internal/controller/driver_*.go), with the helpers that they
-- share.
pub mod Marker
pub mod Secrets
pub mod Sets
pub mod Scopes
pub mod Roles
pub mod Realm
pub mod Clients
pub mod RealmRole
pub mod IdentityProvider
pub mod Group
pub mod Payloads
pub mod Stamped

-- ===== src/Keycloak.antt =====
-- The Admin API client of internal/keycloak.
pub mod Escape
pub mod Resources
pub mod Mappings
pub mod Client
pub mod Provider
pub mod Fake

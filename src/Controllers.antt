-- ===== src/Controllers.antt =====
-- The controllers: internal/controller/keycloakconnection_controller.go and the controllers of the
-- six kinds, which read an object and hand it to the engine.
pub mod Connections
pub mod Kinds

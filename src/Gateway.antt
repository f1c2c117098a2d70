-- ===== src/Gateway.antt =====
-- The websocket gateway, internal/msggateway.
pub mod UserMap
pub mod Server
pub mod Admission
mod Tests

-- ===== src/Common.antt =====
-- What the services share: error values, protocol constants, and who may act for whom.
pub mod Errors
pub mod Constants
pub mod Access

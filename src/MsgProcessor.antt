-- ===== src/MsgProcessor.antt =====
-- Message options and conversation ids, pkg/msgprocessor.
pub mod Options
pub mod Ids
mod Tests

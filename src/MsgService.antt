-- ===== src/MsgService.antt =====
-- The message service, internal/rpc/msg.
pub mod Verify
pub mod Outgoing
pub mod Queue
pub mod Send
pub mod Revoke
pub mod Read
pub mod Marks
pub mod Delete
mod Tests

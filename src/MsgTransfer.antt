-- ===== src/MsgTransfer.antt =====
-- The transfer of messages from the queue to the cache, the documents and the receivers,
-- internal/msgtransfer/online_history_msg_handler.go.
pub mod Channel
mod Tests

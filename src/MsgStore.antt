-- ===== src/MsgStore.antt =====
-- Storing a conversation's messages: the documents of pkg/common/db/table/unrelation/msg.go and the
-- writers of pkg/common/db/controller/msg.go.
pub mod Doc
pub mod Collection
pub mod Insert
pub mod Sequence
pub mod Expire
pub mod Tests

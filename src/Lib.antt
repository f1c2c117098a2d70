-- ===== src/Lib.antt =====
-- OpenIM server: what is stored, who is connected, and who may do what.
--
-- The program is a set of Go services. Clients hold long connections to the gateway
-- (internal/msggateway) and send messages to the message service (internal/rpc/msg), which checks
-- them and puts them in a queue. The transfer (internal/msgtransfer) takes them from the queue,
-- numbers them per conversation, caches them, and hands them on to be stored in documents of 100
-- messages (pkg/common/db/controller/msg.go) and pushed to the receivers.
--
-- The files:
--   Base      lists, maps, integers and results that all parts share
--   Common    constants of the protocol, errors, and the access checks of pkg/authverify/token.go,
--             with VerifyRights of pkg/tools/utils/func.go
--   Gateway   UserMap: the connection table, user_map.go. Server: registerClient,
--             unregisterClient, KickUserConn and multiTerminalLoginChecker of n_ws_server.go, with
--             Run as a list of commands. Admission: ParseWSArgs and wsHandler
--   MsgStore  Doc: the documents of pkg/common/db/table/unrelation/msg.go. Collection: the
--             database calls, as an interface with laws. Insert: BatchInsertBlock. Sequence:
--             BatchInsertChat2Cache, BatchInsertChat2DB and RevokeMsg. Expire: deleteMsgRecursion
--             and DeleteConversationMsgsAndSetMinSeq
--   MsgService  internal/rpc/msg. Verify: messageVerification. Outgoing: encapsulateMsgData and
--             modifyMessageByUserMessageReceiveOpt. Queue and Send: SendMsg and the three ways to
--             the queue. Revoke: RevokeMsg. Read and Marks: the handlers of as_read.go. Delete:
--             those of delete.go
--   MsgTransfer  Channel: getPushStorageMsgList, handleMsg, handleNotification and one batch of
--             Run, of internal/msgtransfer/online_history_msg_handler.go
--   Group     internal/rpc/group/group.go. Rows and Tables: the rows, the calls of the tables as an
--             interface with laws, and what is stored as a function of ids. Store: the writes of
--             controller/group.go, with the cache keys they delete. Calls: the outside. Create,
--             Join, Respond, Members, Admin, SetMember: the handlers. Serve: requests one after
--             another. Owners: the soundness that every handler keeps. Authority, Transfers,
--             Creation, Roles: who may do what, and what is stored then. Memory: the tables in
--             memory, which obey the laws
--   MsgProcessor  Options and Ids: pkg/msgprocessor/options.go and conversation.go
--
-- State is passed explicitly: an operation takes the state and returns the new one, with its result
-- or with the effects on the outside in their order. Errors are values of one type; a wrapped error
-- is the error that it wraps. Logs and metrics are left out. Numbers are natural numbers where the
-- code only compares or adds them; counters that can go below zero are integers. No 64-bit counter
-- is taken to wrap.
--
-- Services, databases, caches, queues, the token library and the clock are parameters. Where a
-- statement relies on their behaviour, the hypothesis says so (IsCollection for the documents,
-- IsReadStore for the read marks, IsTables for the rows of the groups, IsNilTest for a missing key of
-- the cache; that decimal texts of different numbers differ). A read through a cache answers what is
-- stored: the writers delete the keys of what they change, and the deletions succeed. A transaction
-- that fails changes nothing, as on a replica set of the database; on a single node
-- pkg/tools/tx/mongo.go runs the same writes without it.
--
-- The loop of BatchInsertBlock runs on fuel, 2 n + 1 rounds for n fields: a round writes at least one
-- field, or changes the mode from inserting to updating once before the next field.
-- deleteMsgRecursion runs on fuel too, one more than the documents of the conversation: each round
-- reads the next document, and the one after the last ends it.
--
-- The parts meet in the types: the message service hands MsgStore.Doc's MsgData to the queue and
-- calls MsgStore.Sequence's revoke_msg; the transfer calls its batch_insert_in_place; the ids of
-- conversations are those of MsgProcessor.Ids.
--
-- Not modelled: how the transfer distributes the queue to its channels, reading stored messages and
-- deleting single ones from their documents; the HTTP interface, start-up, discovery, metrics and
-- configuration; the vendors' push services and object stores; the copies of the tools and protocol
-- libraries; of the group service the handlers that only read, and the contents of notifications.
-- The friend, conversation, user and push services are not modelled either.
pub mod Base
pub mod Common
pub mod Gateway
pub mod Group
pub mod MsgProcessor
pub mod MsgService
pub mod MsgStore
pub mod MsgTransfer

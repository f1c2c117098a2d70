-- ===== src/MsgTransfer/Channel.antt =====
-- One batch of a channel, internal/msgtransfer/online_history_msg_handler.go: the batch is split by
-- the messages' options, chats and notifications are numbered and cached, and what was numbered
-- goes to the documents' queue and to the push queue. Failures to put something in a queue or to
-- create a conversation are only logged. The case of a batch in `Run`, of the same key throughout.
pub mod Effects
pub mod Laws
use root_open_im_server.Base.{
  ℕ, String, Bool, true, not, ◌||◌, List, [], ◌∷◌, ◌++◌, Option, none, some, false, ◌==◌,
  if◌then◌else◌,
}
use root_open_im_server.Base.Result.{Result, ok, err}
use root_open_im_server.Common.Errors.{Error}
use root_open_im_server.Common.Constants.{
  single_chat_type, super_group_chat_type, notification_chat_type, reaction_message_modifier,
  reaction_message_deleter,
}
use root_open_im_server.MsgStore.Doc.{MsgData}
use root_open_im_server.MsgStore.Sequence.{SeqCache, Batch, batch_insert_in_place}
use root_open_im_server.MsgProcessor.Options.{
  is_not_notification, is_send_msg, is_history, is_offline_push, is_unread_count, with_options,
  with_offline_push, with_unread_count, new_msg_options,
}
use root_open_im_server.MsgProcessor.Ids.{
  get_chat_conversation_id_by_msg, get_notification_conversation_id_by_msg,
}

-- The lists of `getPushStorageMsgList`, but for the list of modifications: it shares its messages
-- with these, and is read after they are numbered (`modify_msgs`).
pub record Lists : Type 0 where
  pub storage_msgs : List MsgData
  pub not_storage_msgs : List MsgData
  pub storage_notifications : List MsgData
  pub not_storage_notifications : List MsgData

abbrev pub no_lists : Lists
no_lists = record {
  storage_msgs = [];
  not_storage_msgs = [];
  storage_notifications = [];
  not_storage_notifications = [];
}

-- The chat message that goes with a notification: it alone is pushed and counted.
unfoldable pub clone_of : MsgData → MsgData
clone_of m = record m {
  options = with_options new_msg_options (
      with_offline_push (is_offline_push m.options)
      ∷ with_unread_count (is_unread_count m.options)
      ∷ []);
}

unfoldable pub demoted : MsgData → MsgData
demoted m = record m {
  options = with_options m.options (with_offline_push false ∷ with_unread_count false ∷ []);
}

-- A notification, and its clone where there is one.
unfoldable pub add_notification : MsgData → Lists → Lists
add_notification m rest =
    let n = if is_send_msg m.options then demoted m else m in
    let kept =
      if is_send_msg m.options then clone_of m ∷ rest.storage_msgs else rest.storage_msgs in
    if is_history n.options
    then record rest { storage_msgs = kept; storage_notifications = n ∷ rest.storage_notifications }
    else record rest {
      storage_msgs = kept;
      not_storage_notifications = n ∷ rest.not_storage_notifications;
    }

unfoldable pub add_chat : MsgData → Lists → Lists
add_chat m rest =
    if is_history m.options
    then record rest { storage_msgs = m ∷ rest.storage_msgs }
    else record rest { not_storage_msgs = m ∷ rest.not_storage_msgs }

unfoldable pub get_push_storage_msg_list : List MsgData → Lists
get_push_storage_msg_list [] = no_lists
get_push_storage_msg_list (m ∷ ms) =
    let rest = get_push_storage_msg_list ms in
    if not (is_not_notification m.options) then add_notification m rest else add_chat m rest

-- The first message of a list that shares it, or the message itself.
abbrev pub shared : MsgData → List MsgData → MsgData
shared m [] = m
shared m (x ∷ xs) = x

abbrev pub tail : List MsgData → List MsgData
tail [] = []
tail (x ∷ xs) = xs

-- A message of the batch as it is now, where the list of chats and that of notifications to store
-- start at it; and what is left of the two lists. A clone is passed over.
unfoldable pub take_shared :
    MsgData → (chats notices : List MsgData) → MsgData × List MsgData × List MsgData
take_shared m chats notices =
    let n = if is_send_msg m.options then demoted m else m in
    let others = if is_send_msg m.options then tail chats else chats in
    if is_not_notification m.options
    then (if is_history m.options
        then (shared m chats, tail chats, notices)
        else (m, chats, notices))
    else (if is_history n.options
        then (shared n notices, others, tail notices)
        else (n, others, notices))

-- The list of modifications, with the messages as they are when it is sent: `chats` and `notices` are
-- the messages to store, in the state that the handlers leave them in.
unfoldable pub modify_msgs : List MsgData → (chats notices : List MsgData) → List MsgData
modify_msgs [] chats notices = []
modify_msgs (m ∷ ms) chats notices =
    let (now, chats', notices') = take_shared m chats notices in
    let rest = modify_msgs ms chats' notices' in
    if m.content_type == reaction_message_modifier || m.content_type == reaction_message_deleter
    then now ∷ rest
    else rest

pub data Effect : Type 0 where
  -- Conversation and message.
  msg_to_push_mq : String → MsgData → Effect
  msg_to_mongo_mq : String → List MsgData → (last_seq : ℕ) → Effect
  msg_to_es_mq : String → List MsgData → Effect
  msg_to_modify_mq : String → List MsgData → Effect
  group_chat_first_create_conversation : String → List String → Effect
  single_chat_first_create_conversation : String → String → String → ℕ → Effect

unfoldable pub to_push_topic : String → List MsgData → List Effect
to_push_topic conversation_id [] = []
to_push_topic conversation_id (m ∷ ms) =
    msg_to_push_mq conversation_id m ∷ to_push_topic conversation_id ms

-- `MsgToModifyMQ`, which sends nothing where there is nothing to send.
abbrev pub modify_effects : String → List MsgData → List Effect
modify_effects conversation_id [] = []
modify_effects conversation_id (m ∷ ms) = msg_to_modify_mq conversation_id (m ∷ ms) ∷ []

-- `is_redis_nil e` is `errs.Unwrap(e) == redis.Nil`.
module _ (is_redis_nil : Error → Bool) (get_group_member_ids : String → Result Error (List String))
    (c : SeqCache) where
  -- The first conversation of the receivers.
  unfoldable pub create_conversation : String → MsgData → List Effect
  create_conversation conversation_id m =
      if m.session_type == super_group_chat_type
      then elim (get_group_member_ids m.group_id) [
        | err e ↦ []
        | ok user_ids ↦ group_chat_first_create_conversation m.group_id user_ids ∷ []
      ]
      else if m.session_type == single_chat_type || m.session_type == notification_chat_type
      then single_chat_first_create_conversation m.recv_id m.send_id conversation_id m.session_type
        ∷ []
      else []

  unfoldable pub store_msgs : String → MsgData → Batch → List Effect
  store_msgs conversation_id first b =
      (if b.is_new then create_conversation conversation_id first else [])
      ++ (msg_to_mongo_mq conversation_id b.msgs b.last_max_seq
          ∷ (to_push_topic conversation_id b.msgs ++ msg_to_es_mq conversation_id b.msgs ∷ []))

  -- Whether `handleMsg` returns at the error.
  abbrev pub stops : Option Error → Bool
  stops none = false
  stops (some e) = not (is_redis_nil e)

  -- The messages to store come back as they are afterwards, for they are numbered in place.
  unfoldable pub handle_msg :
      String → List MsgData → List MsgData → c.State → c.State × List MsgData × List Effect
  handle_msg conversation_id [] not_storage s = (s, [], to_push_topic conversation_id not_storage)
  handle_msg conversation_id (m ∷ ms) not_storage s =
      let (s', b, failure) = batch_insert_in_place c conversation_id (m ∷ ms) s in
      let pushed = to_push_topic conversation_id not_storage in
      if stops failure
      then (s', b.msgs, pushed)
      else (s', b.msgs, pushed ++ store_msgs conversation_id m b)

  unfoldable pub store_notifications : String → Batch → List Effect
  store_notifications conversation_id b =
      msg_to_mongo_mq conversation_id b.msgs b.last_max_seq ∷ to_push_topic conversation_id b.msgs

  unfoldable pub handle_notification :
      String → List MsgData → List MsgData → c.State → c.State × List MsgData × List Effect
  handle_notification conversation_id [] not_storage s =
      (s, [], to_push_topic conversation_id not_storage)
  handle_notification conversation_id (m ∷ ms) not_storage s =
      let (s', b, failure) = batch_insert_in_place c conversation_id (m ∷ ms) s in
      let pushed = to_push_topic conversation_id not_storage in
      elim failure [
        | some e ↦ (s', b.msgs, pushed)
        | none ↦ (s', b.msgs, pushed ++ store_notifications conversation_id b)
      ]

  -- The case `SourceMessages` of `Run`; the first message gives the conversation's ids.
  unfoldable pub handle_batch : MsgData → List MsgData → c.State → c.State × List Effect
  handle_batch m ms s =
      let lists = get_push_storage_msg_list (m ∷ ms) in
      let notification_id = get_notification_conversation_id_by_msg m in
      let (s1, chats, chat_effects) =
        handle_msg (get_chat_conversation_id_by_msg m) lists.storage_msgs lists.not_storage_msgs
          s in
      let (s2, notices, notice_effects) =
        handle_notification notification_id lists.storage_notifications
          lists.not_storage_notifications s1 in
      (
        s2,
        chat_effects
            ++ (notice_effects
                ++ modify_effects notification_id (modify_msgs (m ∷ ms) chats notices)),
      )

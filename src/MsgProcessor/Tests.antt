-- ===== src/MsgProcessor/Tests.antt =====
-- Conversation ids of concrete messages.
use root_open_im_server.Base.{false, [], ◌∷◌, none, ◌≡◌, refl, inl}
use root_open_im_server.MsgStore.Doc.{MsgData}
use root_open_im_server.MsgProcessor.Options.{is, is_not_notification_key}
use root_open_im_server.MsgProcessor.Ids.{
  get_notification_conversation_id_by_msg, get_chat_conversation_id_by_msg,
  get_conversation_id_by_msg, is_notification, is_notification_by_msg, parse_conversation_id,
  get_notification_conversation_id_by_conversation_id,
}
use root_open_im_server.MsgProcessor.Ids.Laws.{
  reply, get_conversation_id_by_msg-reply, is_notification-get_conversation_id_by_msg,
  parse_conversation_id_lem,
}
use root_open_im_server.MsgProcessor.Ids.Split.{notification_id-chat_id}

abbrev chat : MsgData
chat = record {
  send_id = "bob";
  recv_id = "ann";
  group_id = "";
  client_msg_id = "c";
  server_msg_id = "s";
  sender_platform_id = 1;
  sender_nickname = "Bob";
  sender_face_url = "";
  session_type = 1;
  msg_from = 100;
  content_type = 101;
  content = "hello";
  seq = 0;
  send_time = 5;
  create_time = 4;
  status = 1;
  is_read = false;
  options = [];
  offline_push = none;
  at_user_id_list = [];
  attached_info = "";
  ex = "";
}

abbrev notice : MsgData
notice = record chat { options = (is_not_notification_key, false) ∷ [] }

chat_id : get_conversation_id_by_msg chat ≡ "si_ann_bob"
unfolding get_conversation_id_by_msg is
chat_id = refl

notice_id : get_conversation_id_by_msg notice ≡ "n_ann_bob"
unfolding get_conversation_id_by_msg is
notice_id = refl

get_conversation_id_by_msg-reply_example :
    get_conversation_id_by_msg (reply chat) ≡ get_conversation_id_by_msg chat
get_conversation_id_by_msg-reply_example = get_conversation_id_by_msg-reply chat refl

is_notification-get_conversation_id_by_msg_example :
    is_notification (get_conversation_id_by_msg notice) ≡ is_notification_by_msg notice
is_notification-get_conversation_id_by_msg_example =
    is_notification-get_conversation_id_by_msg notice (inl refl)

parse_conversation_id_example :
    parse_conversation_id notice
    ≡ (is_notification_by_msg notice, get_conversation_id_by_msg notice)
parse_conversation_id_example = parse_conversation_id_lem notice (inl refl)

notification_id-chat_id_example :
    get_notification_conversation_id_by_conversation_id (get_chat_conversation_id_by_msg chat)
    ≡ get_notification_conversation_id_by_msg chat
notification_id-chat_id_example = notification_id-chat_id chat (inl refl)

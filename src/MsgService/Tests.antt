-- ===== src/MsgService/Tests.antt =====
-- The message service at concrete inputs.
mod Marks
mod Deletions
use root_open_im_server.Base.{
  ℕ, String, Bool, true, false, List, [], ◌∷◌, Option, none, some, ◌≡◌, ◌≢◌, ◌⊎◌, ◌↔◌, inl, inr,
  refl, arith, if◌then◌else◌,
}
use root_open_im_server.Base.Dict.{lookup}
use root_open_im_server.Base.Result.{Result, ok, err}
use root_open_im_server.Common.Access.{Actor}
use root_open_im_server.Common.Constants.{
  not_receive_message, has_read_receipt, group_status_dismissed, group_dismissed_notification,
}
use root_open_im_server.MsgStore.Doc.{MsgData}
use root_open_im_server.MsgProcessor.Options.{is, is_offline_push_key, is_unread_count_key}
use root_open_im_server.MsgService.Verify.{
  Services, GroupInfo, message_verification, verify_single, verify_friends, verify_super_group,
  verify_member, verify_speech, is_message_has_read_enabled,
}
use root_open_im_server.MsgService.Outgoing.{
  SendReq, encapsulate_msg_data, switches_of, modify_message_by_user_message_receive_opt,
  modify_by_single_opt,
}
use root_open_im_server.MsgService.Verify.Laws.{
  IsExempt, IsWelcome, MaySend, message_verification_single, message_verification_group,
  message_verification_brush,
}
use root_open_im_server.MsgService.Outgoing.Switches.{
  lookup-encapsulate_msg_data, IsGlobal, IsOpen, IsSingle, modify_message-held_back,
  modify_message-options,
}
use root_open_im_server.MsgService.Send.{
  send_data, dispatch, send_msg_single_chat, deliver_single, check_sensitive, filter_text,
}
use root_open_im_server.MsgService.Queue.{Outside}
use root_open_im_server.MsgService.Send.Laws.{queued, IsSettled, send_data-IsSettled}
use root_open_im_server.MsgService.Send.Guards.{send_data_verified}
use root_open_im_server.Common.Access.{is_app_manager_uid}
use root_open_im_server.MsgProcessor.Ids.{is_notification_by_msg}

-- Bob is a friend of Ann, the group has an ordinary member, and the limiter counts.
abbrev services : Services ℕ
services = record {
  manager_ids = "root" ∷ [];
  friend_verify = true;
  single_has_read_receipt_enable = true;
  group_has_read_receipt_enable = true;
  verify_send_status = λ ex. 0;
  verify_rights = λ ex. 0;
  is_blocked = λ a b. ok false;
  is_friend = λ a b. ok true;
  get_group_info = λ g. ok (record { status = 0; group_type = 2 });
  get_group_member = λ g u. ok (record { role_level = 20; mute_end_time = 5 });
  is_same_record_not_found = λ e. false;
  now = 10;
  brush_check = λ n u. (n, true);
  get_user_global_msg_recv_opt = λ u. ok 0;
  get_single_conversation_recv_msg_opt = λ u c. ok 1;
}

abbrev chat : MsgData
chat = record {
  send_id = "bob";
  recv_id = "ann";
  group_id = "g";
  client_msg_id = "c";
  server_msg_id = "";
  sender_platform_id = 1;
  sender_nickname = "Bob";
  sender_face_url = "";
  session_type = 1;
  msg_from = 100;
  content_type = 101;
  content = "hello";
  seq = 0;
  send_time = 0;
  create_time = 4;
  status = 1;
  is_read = false;
  options = [];
  offline_push = none;
  at_user_id_list = [];
  attached_info = "";
  ex = "";
}

abbrev group_chat : MsgData
group_chat = record chat { session_type = 3 }

abbrev request : SendReq
request = record { msg_data = chat; options_nil = false }

abbrev receipt : SendReq
receipt = record { msg_data = record chat { content_type = has_read_receipt }; options_nil = false }

message_verification_single_example :
    ((message_verification services chat 0).1 ≡ ok tt)
    ↔ ((services.verify_send_status "" ≢ 3) × (IsExempt services chat ⊎ IsWelcome services chat))
message_verification_single_example = message_verification_single services chat 0 refl

group_chat_passes : (message_verification services group_chat 0).1 ≡ ok tt
unfolding message_verification verify_super_group verify_member verify_speech
group_chat_passes = refl

message_verification_group_example :
    (services.verify_send_status "" ≢ 3)
    × (group : GroupInfo) × (services.get_group_info "g" ≡ ok group)
    × ((group.status ≢ group_status_dismissed)
        ⊎ (group_chat.content_type ≡ group_dismissed_notification))
    × MaySend services group_chat group 0
message_verification_group_example =
    message_verification_group services group_chat 0 refl group_chat_passes

lookup-encapsulate_msg_data_example :
    lookup is_unread_count_key (encapsulate_msg_data "m" 9 receipt).msg_data.options ≡ some false
lookup-encapsulate_msg_data_example = lookup-encapsulate_msg_data "m" 9 receipt is_unread_count_key

modify_message-held_back_example :
    ((modify_message_by_user_message_receive_opt services "ann" "si_ann_bob" request).1 ≡ ok false)
    ↔ (IsGlobal services "ann" "si_ann_bob" request not_receive_message
        ⊎ (IsOpen services "ann" "si_ann_bob" request
            × IsSingle services "ann" "si_ann_bob" request not_receive_message
            × (request.msg_data.content_type ≢ has_read_receipt)))
modify_message-held_back_example = modify_message-held_back services "ann" "si_ann_bob" request

abbrev out : Outside
out = record {
  actor = record { op_user_id = "bob"; manager_ids = []; im_admin_ids = [] };
  now_milli = 9;
  msg_id = "m";
  trim_space = λ s. s;
  text_of = λ t s. s;
  json_of = λ t s. s;
  filter = λ s. none;
  sensitive_flag = 1;
  callback_before_send_single_msg = λ r. ok tt;
  callback_before_send_group_msg = λ r. ok tt;
  callback_msg_modify = λ r. ok r;
  queue_answer = λ k m. ok tt;
  get_group_member_ids = λ g. ok [];
}

send_data-IsSettled_example :
    let (brush', effects, outcome) = send_data out services request 0 in
    IsSettled out effects outcome
send_data-IsSettled_example = send_data-IsSettled out services request 0

-- A read receipt is taken although the conversation takes no messages.
receipt-queued : queued (send_data out services receipt 0).1 ≢ []
unfolding send_data dispatch send_msg_single_chat deliver_single check_sensitive
    message_verification verify_single verify_friends is_message_has_read_enabled
    modify_message_by_user_message_receive_opt modify_by_single_opt is_notification_by_msg
    encapsulate_msg_data is is_app_manager_uid filter_text
receipt-queued = λ e. cc

send_data_verified_example : (message_verification services receipt.msg_data 0).1 ≡ ok tt
send_data_verified_example = send_data_verified services out receipt 0 (inl refl) receipt-queued

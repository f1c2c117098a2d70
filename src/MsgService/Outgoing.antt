-- ===== src/MsgService/Outgoing.antt =====
-- What is changed in a message before it goes out, internal/rpc/msg/verify.go: its ids and switches
-- by its type, and the receiver's settings.
pub mod Switches
use root_open_im_server.Base.{
  ℕ, String, Bool, true, false, not, ◌&&◌, ◌||◌, List, [], ◌∷◌, Option, none, some, ◌==◌, leb, ltb,
  if◌then◌else◌, contains, contains_nat,
}
use root_open_im_server.Base.Dict.{insert}
use root_open_im_server.Base.Result.{Result, ok, err}
use root_open_im_server.Common.Errors.{
  Error, network, blocked_by_peer, not_peers_friend, dismissed_already, not_in_group_yet,
  muted_in_group, muted_group, send_msg_limit, is_record_not_found,
}
use root_open_im_server.Common.Constants.{
  single_chat_type, super_group_chat_type, notification_begin, notification_end, sys_msg_type,
  user_msg_type, group_status_dismissed, group_status_muted, group_dismissed_notification,
  super_group, group_owner, group_admin, group_ordinary_users, text, picture, voice, video, file,
  at_text, merger, card, location, custom, quote, revoke_type, typing, has_read_receipt,
  receive_message, not_receive_message, receive_not_notify_message,
}
use root_open_im_server.MsgStore.Doc.{MsgData}
use root_open_im_server.MsgProcessor.Options.{
  is_conversation_update_key, is_unread_count_key, is_sender_sync_key, is_offline_push_key,
  is_sender_conversation_update_key, is_history_key, is_persistent_key,
}
use root_open_im_server.MsgService.Verify.{Services}

-- `SendMsgReq`: the message, and whether its map of options is nil.
pub record SendReq : Type 0 where
  pub msg_data : MsgData
  pub options_nil : Bool

-- `utils.SetSwitchFromOptions` on the message's map: a write to a nil map is lost.
abbrev pub set_switch : String → Bool → SendReq → SendReq
set_switch k b r = record r {
  msg_data = record r.msg_data {
    options = if r.options_nil then r.msg_data.options else insert k b r.msg_data.options;
  };
}

abbrev pub set_switches : List (String × Bool) → SendReq → SendReq
set_switches [] r = r
set_switches ((k, b) ∷ kbs) r = set_switches kbs (set_switch k b r)

-- The types of the first case of the `switch`.
abbrev pub chat_content_types : List ℕ
chat_content_types =
    text ∷ picture ∷ voice ∷ video ∷ file ∷ at_text ∷ merger ∷ card ∷ location ∷ custom ∷ quote ∷ []

abbrev pub switches_of : ℕ → List (String × Bool)
switches_of content_type =
    if contains_nat content_type chat_content_types
    then (is_conversation_update_key, true)
      ∷ (is_unread_count_key, true)
      ∷ (is_sender_sync_key, true)
      ∷ []
    else if content_type == revoke_type
    then (is_unread_count_key, false) ∷ (is_offline_push_key, false) ∷ []
    else if content_type == has_read_receipt
    then (is_conversation_update_key, false)
      ∷ (is_sender_conversation_update_key, false)
      ∷ (is_unread_count_key, false)
      ∷ (is_offline_push_key, false)
      ∷ []
    else if content_type == typing
    then (is_history_key, false)
      ∷ (is_persistent_key, false)
      ∷ (is_sender_sync_key, false)
      ∷ (is_conversation_update_key, false)
      ∷ (is_sender_conversation_update_key, false)
      ∷ (is_unread_count_key, false)
      ∷ (is_offline_push_key, false)
      ∷ []
    else []

-- `msg_id` is the result of `GetMsgID`, `now` the clock in milliseconds.
unfoldable pub encapsulate_msg_data : (msg_id : String) → (now : ℕ) → SendReq → SendReq
encapsulate_msg_data msg_id now r =
    let m = r.msg_data in
    set_switches (switches_of m.content_type) (record r {
      msg_data = record m {
        server_msg_id = msg_id;
        send_time = if m.send_time == 0 then now else m.send_time;
      };
    })

-- A map is made where it is nil, and the offline push switched off.
abbrev pub without_offline_push : SendReq → SendReq
without_offline_push r = record r {
  msg_data = record r.msg_data { options = insert is_offline_push_key false r.msg_data.options };
  options_nil = false;
}

module _ {Brush : Type 0} (env : Services Brush) where
  -- The conversation's own switch.
  unfoldable pub modify_by_single_opt : String → String → SendReq → SendReq × Result Error Bool
  modify_by_single_opt user_id conversation_id r =
      elim (env.get_single_conversation_recv_msg_opt user_id conversation_id) [
        | err e ↦ (r, if is_record_not_found e then ok true else err e)
        | ok single_opt ↦
            if single_opt == receive_message
            then (r, ok true)
            else if single_opt == not_receive_message
            then (r, ok (r.msg_data.content_type == has_read_receipt))
            else if single_opt == receive_not_notify_message
            then (without_offline_push r, ok true)
            else (r, ok true)
      ]

  unfoldable pub modify_message_by_user_message_receive_opt :
      String → String → SendReq → SendReq × Result Error Bool
  modify_message_by_user_message_receive_opt user_id conversation_id r =
      elim (env.get_user_global_msg_recv_opt user_id) [
        | err e ↦ (r, err e)
        | ok opt ↦
            if opt == receive_message
            then modify_by_single_opt user_id conversation_id r
            else if opt == not_receive_message
            then (r, ok false)
            else if opt == receive_not_notify_message
            then (without_offline_push r, ok true)
            else modify_by_single_opt user_id conversation_id r
      ]

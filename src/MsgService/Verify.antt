-- ===== src/MsgService/Verify.antt =====
-- What is checked before a message is sent, internal/rpc/msg/verify.go and utils.go. The friend,
-- group, user and conversation services, the configuration, the readers of `ex` (pkg/tools) and
-- the flood limiter (tools/live/limit.go) are the fields of `Services`; the limiter's store is
-- `Brush`.
pub mod Laws
use root_open_im_server.Base.{
  ℕ, String, Bool, true, false, not, ◌&&◌, ◌||◌, List, [], ◌∷◌, Option, none, some, ◌==◌, leb, ltb,
  if◌then◌else◌, contains, contains_nat,
}
use root_open_im_server.Base.Dict.{insert}
use root_open_im_server.Base.Result.{Result, ok, err}
use root_open_im_server.Common.Errors.{
  Error, network, blocked_by_peer, not_peers_friend, dismissed_already, not_in_group_yet,
  muted_in_group, muted_group, send_msg_limit, is_record_not_found,
}
use root_open_im_server.Common.Constants.{
  single_chat_type, super_group_chat_type, notification_begin, notification_end, sys_msg_type,
  user_msg_type, group_status_dismissed, group_status_muted, group_dismissed_notification,
  super_group, group_owner, group_admin, group_ordinary_users, text, picture, voice, video, file,
  at_text, merger, card, location, custom, quote, revoke_type, typing, has_read_receipt,
  receive_message, not_receive_message, receive_not_notify_message,
}
use root_open_im_server.MsgStore.Doc.{MsgData}
use root_open_im_server.MsgProcessor.Options.{
  is_conversation_update_key, is_unread_count_key, is_sender_sync_key, is_offline_push_key,
  is_sender_conversation_update_key, is_history_key, is_persistent_key,
}

pub record GroupInfo : Type 0 where
  pub status : ℕ
  pub group_type : ℕ

pub record GroupMember : Type 0 where
  pub role_level : ℕ
  pub mute_end_time : ℕ

pub record Services (Brush : Type 0) : Type 0 where
  pub manager_ids : List String
  pub friend_verify : Bool
  pub single_has_read_receipt_enable : Bool
  pub group_has_read_receipt_enable : Bool
  -- What `VerifySendStatus` and `VerifyRights` answer, with their errors dropped as the callers do;
  -- the rights are 0 to 3 (`verify_rights` of Common/Access.antt).
  pub verify_send_status : String → ℕ
  pub verify_rights : String → ℕ
  pub is_blocked : String → String → Result Error Bool
  pub is_friend : String → String → Result Error Bool
  pub get_group_info : String → Result Error GroupInfo
  pub get_group_member : String → String → Result Error GroupMember
  -- `err == errs.ErrRecordNotFound`: the very same error value, not wrapped.
  pub is_same_record_not_found : Error → Bool
  pub now : ℕ
  pub brush_check : Brush → String → Brush × Bool
  pub get_user_global_msg_recv_opt : String → Result Error ℕ
  pub get_single_conversation_recv_msg_opt : String → String → Result Error ℕ

abbrev pub in_notification_range : MsgData → Bool
in_notification_range m =
    leb m.content_type notification_end && leb notification_begin m.content_type

module _ {Brush : Type 0} (env : Services Brush) where
  -- The friends and the blacklist.
  unfoldable pub verify_friends : MsgData → Result Error (Unit {0})
  verify_friends m = elim (env.is_blocked m.send_id m.recv_id) [
    | err e ↦ err e
    | ok black ↦
        if black
        then err blocked_by_peer
        else if not env.friend_verify
        then ok tt
        else elim (env.is_friend m.send_id m.recv_id) [
          | err e ↦ err e
          | ok friend ↦ if friend then ok tt else err not_peers_friend
        ]
  ]

  -- The case `SingleChatType`.
  unfoldable pub verify_single : MsgData → Result Error (Unit {0})
  verify_single m =
      if contains m.send_id env.manager_ids
      then ok tt
      else if in_notification_range m
      then ok tt
      else if m.msg_from == sys_msg_type
      then ok tt
      else if env.verify_rights m.ex == 0
      then verify_friends m
      else ok tt

  -- The limits of an ordinary sender of a group.
  unfoldable pub verify_speech :
      MsgData → GroupInfo → GroupMember → Brush → Brush × Result Error (Unit {0})
  verify_speech m group member brush =
      let (brush', free) = env.brush_check brush m.send_id in
      if leb env.now member.mute_end_time
      then (brush, err muted_in_group)
      else if group.status == group_status_muted
      then (brush, err muted_group)
      else if member.role_level == group_ordinary_users && m.msg_from == user_msg_type
      then (brush', if free then ok tt else err send_msg_limit)
      else (brush, ok tt)

  unfoldable pub verify_member : MsgData → GroupInfo → Brush → Brush × Result Error (Unit {0})
  verify_member m group brush = elim (env.get_group_member m.group_id m.send_id) [
    | err e ↦ (brush, err (if env.is_same_record_not_found e then not_in_group_yet else e))
    | ok member ↦
        if member.role_level == group_owner || member.role_level == group_admin
        then (brush, ok tt)
        else if ltb 0 (env.verify_rights m.ex)
        then (brush, ok tt)
        else verify_speech m group member brush
  ]

  -- The case `SuperGroupChatType`.
  unfoldable pub verify_super_group : MsgData → Brush → Brush × Result Error (Unit {0})
  verify_super_group m brush = elim (env.get_group_info m.group_id) [
    | err e ↦ (brush, err e)
    | ok group ↦
        if group.status == group_status_dismissed
          && not (m.content_type == group_dismissed_notification)
        then (brush, err dismissed_already)
        else if group.group_type == super_group
        then (brush, ok tt)
        else if contains m.send_id env.manager_ids
        then (brush, ok tt)
        else if in_notification_range m
        then (brush, ok tt)
        else verify_member m group brush
  ]

  unfoldable pub message_verification : MsgData → Brush → Brush × Result Error (Unit {0})
  message_verification m brush =
      if env.verify_send_status m.ex == 3
      then (brush, err network)
      else if m.session_type == single_chat_type
      then (brush, verify_single m)
      else if m.session_type == super_group_chat_type
      then verify_super_group m brush
      else (brush, ok tt)

  unfoldable pub is_message_has_read_enabled : MsgData → Bool
  is_message_has_read_enabled m =
      if m.content_type == has_read_receipt && m.session_type == single_chat_type
      then env.single_has_read_receipt_enable
      else if m.content_type == has_read_receipt && m.session_type == super_group_chat_type
      then env.group_has_read_receipt_enable
      else true

-- ===== src/MsgService/Send.antt =====
-- Sending a message, internal/rpc/msg/send.go: the word filter, the three kinds of sessions, and
-- `SendMsg`.
pub mod Laws
pub mod Guards
use root_open_im_server.Base.{
  ℕ, String, Bool, true, false, not, ◌&&◌, ◌||◌, List, [], ◌∷◌, ◌++◌, Option, none, some, str_eq,
  ◌==◌, if◌then◌else◌, contains, contains_nat, is_empty, keep,
}
use root_open_im_server.Base.Result.{Result, ok, err}
use root_open_im_server.Common.Errors.{
  Error, args, message_has_read_disable, msg_sensitive_word_failed,
}
use root_open_im_server.Common.Access.{Actor, is_app_manager_uid}
use root_open_im_server.Common.Constants.{
  single_chat_type, super_group_chat_type, notification_chat_type, at_text, at_me, at_all,
  at_all_at_me, at_all_string,
}
use root_open_im_server.MsgStore.Doc.{MsgData, OfflinePush}
use root_open_im_server.MsgProcessor.Ids.{
  sorted_pair, get_conversation_id_by_msg, is_notification_by_msg,
}
use Prim.Native.String.{◌++◌ as append_text}
use root_open_im_server.MsgService.Verify.{
  Services, is_message_has_read_enabled, message_verification,
}
use root_open_im_server.MsgService.Outgoing.{
  SendReq, encapsulate_msg_data, modify_message_by_user_message_receive_opt,
}
use root_open_im_server.MsgService.Queue.{
  Effect, Filtered, HitMessage, Outcome, Outside, SendResp, at_everyone, difference_string, enqueue,
  failed, go_on, held_back, msg_to_mq, panicked, push_to_hit_mq, response, sent,
  set_conversation_at_info, set_conversations, stop,
}

module _ (out : Outside) where
  unfoldable pub send_msg_notification : MsgData → List Effect × Outcome
  send_msg_notification m = enqueue out (sorted_pair m) m []

  module _ {Brush : Type 0} (env : Services Brush) where
    -- Behind the verification of a group's message.
    unfoldable pub deliver_group : SendReq → List Effect × Outcome
    deliver_group r = elim (out.callback_before_send_group_msg r) [
      | err e ↦ ([], failed e)
      | ok _ ↦ elim (out.callback_msg_modify r) [
        | err e ↦ ([], failed e)
        | ok r' ↦
            let m = r'.msg_data in
            enqueue out m.group_id m
              (if m.content_type == at_text then set_conversation_at_info out m else [])
      ]
    ]

    unfoldable pub send_msg_super_group_chat : SendReq → Brush → Brush × List Effect × Outcome
    send_msg_super_group_chat r brush =
        let (brush', verified) = message_verification env r.msg_data brush in
        elim verified [
          | err e ↦ (brush', [], failed e)
          | ok _ ↦ let (effects, outcome) = deliver_group r in (brush', effects, outcome)
        ]

    unfoldable pub deliver_single : SendReq → List Effect × Outcome
    deliver_single r = elim (out.callback_before_send_single_msg r) [
      | err e ↦ ([], failed e)
      | ok _ ↦ elim (out.callback_msg_modify r) [
        | err e ↦ ([], failed e)
        | ok r' ↦ enqueue out (sorted_pair r'.msg_data) r'.msg_data []
      ]
    ]

    -- Whether the receiver takes the message, and the message as it is then.
    abbrev pub receive : SendReq → SendReq × Result Error Bool
    receive r =
        if is_notification_by_msg r.msg_data
        then (r, ok true)
        else modify_message_by_user_message_receive_opt env r.msg_data.recv_id
            (append_text "si_" (sorted_pair r.msg_data)) r

    unfoldable pub send_msg_single_chat : SendReq → Brush → Brush × List Effect × Outcome
    send_msg_single_chat r brush =
        let (brush', verified) = message_verification env r.msg_data brush in
        let (r', is_send) = receive r in
        elim verified [
          | err e ↦ (brush', [], failed e)
          | ok _ ↦ elim is_send [
            | err e ↦ (brush', [], failed e)
            | ok false ↦ (brush', [], held_back)
            | ok true ↦ let (effects, outcome) = deliver_single r' in (brush', effects, outcome)
          ]
        ]

    -- The `switch` on the session type.
    unfoldable pub dispatch : SendReq → Brush → Brush × List Effect × Outcome
    dispatch r brush =
        if r.msg_data.session_type == single_chat_type
        then send_msg_single_chat r brush
        else if r.msg_data.session_type == notification_chat_type
        then (let (effects, outcome) = send_msg_notification r.msg_data in
            (brush, effects, outcome))
        else if r.msg_data.session_type == super_group_chat_type
        then send_msg_super_group_chat r brush
        else (brush, [], failed args)

    abbrev pub hit_message : MsgData → String → List String → HitMessage
    hit_message m content keywords = record {
      from = m.send_id;
      target = if m.session_type == super_group_chat_type then m.group_id else m.recv_id;
      kind = if m.session_type == super_group_chat_type then 1 else 0;
      content = content;
      keywords = keywords;
    }

    -- `req.MsgData.OfflinePushInfo.Desc = sentence` dereferences a pointer.
    unfoldable pub replace_content : String → SendReq → Option SendReq
    replace_content sentence r = elim r.msg_data.offline_push [
      | none ↦ none
      | some push ↦ some (record r {
        msg_data = record r.msg_data {
          content = out.json_of r.msg_data.content_type sentence;
          offline_push = some (record push { desc = sentence });
        };
      })
    ]

    unfoldable pub filter_found : String → SendReq → Filtered
    filter_found sentence r =
        if out.sensitive_flag == 1 || out.sensitive_flag == 2
        then stop (failed msg_sensitive_word_failed)
        else if out.sensitive_flag == 3
        then elim (replace_content sentence r) [ none ↦ stop panicked | some r' ↦ go_on r' ]
        else go_on r

    unfoldable pub filter_text : String → SendReq → List Effect × Filtered
    filter_text content r = elim (out.filter content) [
      | none ↦ ([], go_on r)
      | some (sentence, keywords) ↦
          (push_to_hit_mq (hit_message r.msg_data content keywords) ∷ [], filter_found sentence r)
    ]

    -- The part under the first test of the sender's rights.
    unfoldable pub check_sensitive : SendReq → List Effect × Filtered
    check_sensitive r =
        let m = r.msg_data in
        let content = out.text_of m.content_type m.content in
        if not (env.verify_rights m.ex == 0 && not (is_app_manager_uid out.actor))
        then ([], go_on r)
        else if not (contains_nat m.content_type (101 ∷ 106 ∷ 114 ∷ []))
        then ([], go_on r)
        else if str_eq content ""
        then ([], go_on r)
        else filter_text content r

    -- `SendMsg` of a message that is there.
    unfoldable pub send_data : SendReq → Brush → Brush × List Effect × Outcome
    send_data r brush =
        let (hits, filtered) = check_sensitive r in
        if not (is_message_has_read_enabled env r.msg_data)
        then (brush, [], failed message_has_read_disable)
        else if str_eq (out.trim_space r.msg_data.content) ""
        then (brush, [], failed args)
        else elim filtered [
          | stop outcome ↦ (brush, hits, outcome)
          | go_on r' ↦
              let (brush', effects, outcome) =
                dispatch (encapsulate_msg_data out.msg_id out.now_milli r') brush in
              (brush', hits ++ effects, outcome)
        ]

    unfoldable pub send_msg : Option SendReq → Brush → Brush × List Effect × Outcome
    send_msg none brush = (brush, [], failed args)
    send_msg (some r) brush = send_data r brush

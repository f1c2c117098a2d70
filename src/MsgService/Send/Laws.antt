-- ===== src/MsgService/Send/Laws.antt =====
-- What reaches the queue.
use root_open_im_server.Base.{
  String, Bool, true, false, List, [], ◌∷◌, ◌++◌, str_eq, ◌==◌, ◌≡◌, ◌⊎◌, refl, ap, arith, inl, inr,
  Bool-cases, Option-cases,
}
use root_open_im_server.Base.Result.{ok, err, Result-cases}
use root_open_im_server.Common.Errors.{Error}
use root_open_im_server.Common.Constants.{
  single_chat_type, notification_chat_type, super_group_chat_type,
}
use root_open_im_server.MsgProcessor.Ids.{sorted_pair}
use root_open_im_server.MsgStore.Doc.{MsgData}
use root_open_im_server.MsgService.Verify.{
  Services, is_message_has_read_enabled, message_verification,
}
use root_open_im_server.MsgService.Outgoing.{SendReq, encapsulate_msg_data}
use root_open_im_server.MsgService.Send.{
  send_msg_notification, deliver_group, deliver_single, receive, send_msg_super_group_chat,
  send_msg_single_chat, dispatch, check_sensitive, filter_text, filter_found, replace_content,
  send_data,
}
use root_open_im_server.MsgService.Queue.{
  Outside, Effect, msg_to_mq, push_to_hit_mq, set_conversations, Outcome, sent, failed, response,
  Filtered, go_on, stop, enqueue, set_conversation_at_info,
}

-- The messages that were put in the queue, with their keys.
abbrev pub queued : List Effect → List (String × MsgData)
queued [] = []
queued (msg_to_mq key m ∷ es) = (key, m) ∷ queued es
queued (push_to_hit_mq h ∷ es) = queued es
queued (set_conversations users id at_type ∷ es) = queued es

pub queued-append : (es fs : List Effect) → queued (es ++ fs) ≡ queued es ++ queued fs
queued-append [] fs = refl
queued-append (msg_to_mq key m ∷ es) fs = ap (λ t. (key, m) ∷ t) (queued-append es fs)
queued-append (push_to_hit_mq h ∷ es) fs = queued-append es fs
queued-append (set_conversations users id at_type ∷ es) fs = queued-append es fs

abbrev pub is_sent : Outcome → Bool
is_sent (sent r) = true
is_sent _ = false

module _ (out : Outside) where
  -- The queue took the message and the caller got its ids, or it refused and the caller got the
  -- refusal.
  abbrev pub Answers : String → MsgData → Outcome → Type 0
  Answers key m outcome =
      ((out.queue_answer key m ≡ ok tt) × (outcome ≡ sent (response m)))
      ⊎ ((e : Error) × (out.queue_answer key m ≡ err e) × (outcome ≡ failed e))

  abbrev pub IsSettled : List Effect → Outcome → Type 0
  IsSettled effects outcome =
      ((queued effects ≡ []) × (is_sent outcome ≡ false))
      ⊎ ((key : String) × (m : MsgData) × (queued effects ≡ (key, m) ∷ []) × Answers key m outcome)

  at_info_queues_nothing : (m : MsgData) → queued (set_conversation_at_info out m) ≡ []
  unfolding set_conversation_at_info
  at_info_queues_nothing m = ground arith

  enqueue-IsSettled :
      (key : String) (m : MsgData) (after : List Effect)
      → queued after ≡ []
      → let (effects, outcome) = enqueue out key m after in IsSettled effects outcome
  enqueue-IsSettled key m after h = elim (Result-cases (out.queue_answer key m)) [
    | inl (_, taken) ↦
        rw (taken, enqueue) (inr (key, m, ap (λ t. (key, m) ∷ t) h, inl (taken, refl)))
    | inr (e, refused) ↦ rw (refused, enqueue) (inr (key, m, refl, inr (e, refused, refl)))
  ]

  module _ {Brush : Type 0} (env : Services Brush) where
    deliver_group-IsSettled :
        (r : SendReq)
        → let (effects, outcome) = deliver_group out env r in IsSettled effects outcome
    unfolding deliver_group
    deliver_group-IsSettled r = elim (Result-cases (out.callback_before_send_group_msg r)) [
      | inr (e, refused) ↦ rw (refused, deliver_group) (inl (refl, refl))
      | inl (_, passed) ↦ elim (Result-cases (out.callback_msg_modify r)) [
        | inr (e, refused) ↦ rw (passed, refused, deliver_group) (inl (refl, refl))
        | inl (r', changed) ↦
            rw (passed, changed, deliver_group)
              (enqueue-IsSettled r'.msg_data.group_id r'.msg_data _
                (ground (arith, at_info_queues_nothing r'.msg_data)))
      ]
    ]

    deliver_single-IsSettled :
        (r : SendReq)
        → let (effects, outcome) = deliver_single out env r in IsSettled effects outcome
    unfolding deliver_single
    deliver_single-IsSettled r = elim (Result-cases (out.callback_before_send_single_msg r)) [
      | inr (e, refused) ↦ rw (refused, deliver_single) (inl (refl, refl))
      | inl (_, passed) ↦ elim (Result-cases (out.callback_msg_modify r)) [
        | inr (e, refused) ↦ rw (passed, refused, deliver_single) (inl (refl, refl))
        | inl (r', changed) ↦
            rw (passed, changed, deliver_single) (enqueue-IsSettled _ r'.msg_data [] refl)
      ]
    ]

    single-IsSettled :
        (r : SendReq) (brush : Brush)
        → let (brush', effects, outcome) = send_msg_single_chat out env r brush in
          IsSettled effects outcome
    unfolding send_msg_single_chat
    single-IsSettled r brush = elim (Result-cases (message_verification env r.msg_data brush).1) [
      | inr (e, refused) ↦ rw (refused, send_msg_single_chat) (inl (refl, refl))
      | inl (_, passed) ↦ elim (Result-cases (receive out env r).1) [
        | inr (e, refused) ↦ rw (passed, refused, send_msg_single_chat) (inl (refl, refl))
        | inl (false, held) ↦ rw (passed, held, send_msg_single_chat) (inl (refl, refl))
        | inl (true, taken) ↦
            rw (passed, taken, send_msg_single_chat)
              (deliver_single-IsSettled (receive out env r).0)
      ]
    ]

    group-IsSettled :
        (r : SendReq) (brush : Brush)
        → let (brush', effects, outcome) = send_msg_super_group_chat out env r brush in
          IsSettled effects outcome
    unfolding send_msg_super_group_chat
    group-IsSettled r brush = elim (Result-cases (message_verification env r.msg_data brush).1) [
      | inr (e, refused) ↦ rw (refused, send_msg_super_group_chat) (inl (refl, refl))
      | inl (_, passed) ↦ rw (passed, send_msg_super_group_chat) (deliver_group-IsSettled r)
    ]

    dispatch-IsSettled :
        (r : SendReq) (brush : Brush)
        → let (brush', effects, outcome) = dispatch out env r brush in IsSettled effects outcome
    unfolding dispatch send_msg_notification
    dispatch-IsSettled r brush = elim (Bool-cases (r.msg_data.session_type == single_chat_type)) [
      | inl single ↦ rw (single, dispatch) (single-IsSettled r brush)
      | inr other ↦ elim (Bool-cases (r.msg_data.session_type == notification_chat_type)) [
        | inl notice ↦
            rw (other, notice, dispatch, send_msg_notification)
              (enqueue-IsSettled (sorted_pair r.msg_data) r.msg_data [] refl)
        | inr other2 ↦ elim (Bool-cases (r.msg_data.session_type == super_group_chat_type)) [
          | inl group ↦ rw (other, other2, group, dispatch) (group-IsSettled r brush)
          | inr unknown ↦ rw (other, other2, unknown, dispatch) (inl (refl, refl))
        ]
      ]
    ]

    -- The filter puts nothing in the queue and sends nothing.
    pub check_sensitive_quiet :
        (r : SendReq)
        → (queued (check_sensitive out env r).0 ≡ [])
          × ((o : Outcome) → (check_sensitive out env r).1 ≡ stop o → is_sent o ≡ false)
    unfolding check_sensitive filter_text filter_found replace_content
    check_sensitive_quiet r =
        let content = out.text_of r.msg_data.content_type r.msg_data.content in
        elim (Option-cases (out.filter content)) [
          | inl clean ↦ (ground arith, λ o e. ground arith)
          | inr ((sentence, keywords), found) ↦ (ground arith, λ o e. ground arith)
        ]

    -- `SendMsg` puts a message in the queue at most once. A caller that gets a response gets the
    -- ids of the message that the queue took; without a message in the queue it gets none; and
    -- where the queue refused, it gets the refusal.
    pub send_data-IsSettled :
        (r : SendReq) (brush : Brush)
        → let (brush', effects, outcome) = send_data out env r brush in IsSettled effects outcome
    unfolding send_data
    send_data-IsSettled r brush = elim (Bool-cases (is_message_has_read_enabled env r.msg_data)) [
      | inr disabled ↦ rw (disabled, send_data) (inl (refl, refl))
      | inl enabled ↦ elim (Bool-cases (str_eq (out.trim_space r.msg_data.content) "")) [
        | inl blank ↦ rw (enabled, blank, send_data) (inl (refl, refl))
        | inr full ↦ after (check_sensitive out env r).1 refl enabled full
      ]
    ]
      where
        quiet : queued (check_sensitive out env r).0 ≡ []
        quiet = (check_sensitive_quiet r).0

        after :
            (f : Filtered)
            → (check_sensitive out env r).1 ≡ f
            → is_message_has_read_enabled env r.msg_data ≡ true
            → str_eq (out.trim_space r.msg_data.content) "" ≡ false
            → let (brush', effects, outcome) = send_data out env r brush in
              IsSettled effects outcome
        after (stop o) e enabled full =
            rw (enabled, full, e, send_data) (inl (quiet, (check_sensitive_quiet r).1 o e))
        after (go_on r') e enabled full =
            let request = encapsulate_msg_data out.msg_id out.now_milli r' in
            rw (enabled, full, e, send_data, queued-append, quiet)
              (dispatch-IsSettled request brush)

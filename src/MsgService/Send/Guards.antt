-- ===== src/MsgService/Send/Guards.antt =====
-- A message in the queue was verified as its sender made it.
use root_open_im_server.Base.{
  ℕ, String, Bool, true, false, List, [], ◌∷◌, str_eq, ◌≡◌, ◌≢◌, ◌⊎◌, refl, arith, inl, inr,
  Bool-cases, Option-cases,
}
use root_open_im_server.Base.Result.{ok, Result-cases}
use root_open_im_server.Common.Constants.{single_chat_type, super_group_chat_type}
use root_open_im_server.MsgStore.Doc.{MsgData}
use root_open_im_server.MsgService.Verify.{
  Services, is_message_has_read_enabled, message_verification, verify_single, verify_friends,
  verify_super_group, verify_member, verify_speech,
}
use root_open_im_server.MsgService.Outgoing.{
  SendReq, encapsulate_msg_data, set_switches, set_switch, switches_of,
}
use root_open_im_server.MsgService.Send.{
  send_msg_super_group_chat, send_msg_single_chat, dispatch, check_sensitive, filter_text,
  filter_found, replace_content, send_data,
}
use root_open_im_server.MsgService.Queue.{Outside, Filtered, go_on, stop}
use root_open_im_server.MsgService.Send.Laws.{queued, queued-append, check_sensitive_quiet}

-- The members that the verification reads.
pub record SameSender (m m' : MsgData) : Type 0 where
  pub send_id : m'.send_id ≡ m.send_id
  pub recv_id : m'.recv_id ≡ m.recv_id
  pub group_id : m'.group_id ≡ m.group_id
  pub ex : m'.ex ≡ m.ex
  pub msg_from : m'.msg_from ≡ m.msg_from
  pub content_type : m'.content_type ≡ m.content_type
  pub session_type : m'.session_type ≡ m.session_type

set_switches-SameSender :
    (kbs : List (String × Bool)) (r : SendReq) (m : MsgData)
    → SameSender m r.msg_data
    → SameSender m (set_switches kbs r).msg_data
set_switches-SameSender [] r m h = h
set_switches-SameSender ((k, b) ∷ kbs) r m h =
    set_switches-SameSender kbs (set_switch k b r) m (record {
      send_id = h.send_id;
      recv_id = h.recv_id;
      group_id = h.group_id;
      ex = h.ex;
      msg_from = h.msg_from;
      content_type = h.content_type;
      session_type = h.session_type;
    })

encapsulate_msg_data-SameSender :
    (msg_id : String) (now : ℕ) (r : SendReq) (m : MsgData)
    → SameSender m r.msg_data
    → SameSender m (encapsulate_msg_data msg_id now r).msg_data
unfolding encapsulate_msg_data
encapsulate_msg_data-SameSender msg_id now r m h =
    set_switches-SameSender (switches_of r.msg_data.content_type) _ m (record {
      send_id = h.send_id;
      recv_id = h.recv_id;
      group_id = h.group_id;
      ex = h.ex;
      msg_from = h.msg_from;
      content_type = h.content_type;
      session_type = h.session_type;
    })

module _ {Brush : Type 0} (env : Services Brush) where
  message_verification_same :
      (m m' : MsgData) (brush : Brush)
      → SameSender m m'
      → message_verification env m' brush ≡ message_verification env m brush
  unfolding message_verification verify_single verify_friends verify_super_group verify_member
      verify_speech
  message_verification_same m m' brush h =
      rw (h.send_id, h.recv_id, h.group_id, h.ex, h.msg_from, h.content_type, h.session_type) refl

  module _ (out : Outside) where
    check_sensitive-SameSender :
        (r r' : SendReq)
        → (check_sensitive out env r).1 ≡ go_on r'
        → SameSender r.msg_data r'.msg_data
    unfolding check_sensitive filter_text filter_found replace_content
    check_sensitive-SameSender r r' e =
        let content = out.text_of r.msg_data.content_type r.msg_data.content in
        elim (Option-cases (out.filter content)) [
          | inl clean ↦ ground arith
          | inr ((sentence, keywords), found) ↦ ground arith
        ]

    -- A chat message that is dispatched to the queue passes the verification.
    dispatch_verified :
        (r : SendReq) (brush : Brush)
        → (r.msg_data.session_type ≡ single_chat_type)
          ⊎ (r.msg_data.session_type ≡ super_group_chat_type)
        → queued (dispatch out env r brush).1 ≢ []
        → (message_verification env r.msg_data brush).1 ≡ ok tt
    unfolding dispatch send_msg_single_chat send_msg_super_group_chat
    dispatch_verified r brush chat sent =
        elim (Result-cases (message_verification env r.msg_data brush).1) [
          | inl (_, passed) ↦ passed
          | inr (e, refused) ↦
              absurd (sent (elim chat [ inl single ↦ ground arith | inr group ↦ ground arith ]))
        ]

    -- A message to a user or to a super group reaches the queue only if it passes the
    -- verification, with the sender, receiver, group, rights and type that it came in with.
    pub send_data_verified :
        (r : SendReq) (brush : Brush)
        → (r.msg_data.session_type ≡ single_chat_type)
          ⊎ (r.msg_data.session_type ≡ super_group_chat_type)
        → queued (send_data out env r brush).1 ≢ []
        → (message_verification env r.msg_data brush).1 ≡ ok tt
    unfolding send_data
    send_data_verified r brush chat sent =
        elim (Bool-cases (is_message_has_read_enabled env r.msg_data)) [
          | inr disabled ↦ absurd (sent (ground arith))
          | inl enabled ↦ elim (Bool-cases (str_eq (out.trim_space r.msg_data.content) "")) [
            | inl blank ↦ absurd (sent (ground arith))
            | inr full ↦ after (check_sensitive out env r).1 refl enabled full
          ]
        ]
      where
        quiet : queued (check_sensitive out env r).0 ≡ []
        quiet = (check_sensitive_quiet out env r).0

        after :
            (f : Filtered)
            → (check_sensitive out env r).1 ≡ f
            → is_message_has_read_enabled env r.msg_data ≡ true
            → str_eq (out.trim_space r.msg_data.content) "" ≡ false
            → (message_verification env r.msg_data brush).1 ≡ ok tt
        after (stop o) e enabled full = absurd (sent (rw (enabled, full, e, send_data) quiet))
        after (go_on r') e enabled full =
            let request = encapsulate_msg_data out.msg_id out.now_milli r' in
            let same =
              encapsulate_msg_data-SameSender out.msg_id out.now_milli r' r.msg_data
                (check_sensitive-SameSender r r' e) in
            rw (← message_verification_same r.msg_data request.msg_data brush same) (
              dispatch_verified request brush (ground arith) (λ none_queued.
                sent (rw (enabled, full, e, send_data, queued-append, quiet) none_queued)))

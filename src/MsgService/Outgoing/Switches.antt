-- ===== src/MsgService/Outgoing/Switches.antt =====
-- The switches that a message goes out with, and the receiver's settings.
use root_open_im_server.Base.{
  ℕ, String, Bool, true, false, not, leb, ◌&&◌, ◌||◌, str_eq, List, [], ◌∷◌, Option, none, some,
  ◌==◌, if◌then◌else◌, contains_nat, ◌≡◌, ◌≢◌, ◌⊎◌, ◌↔◌, ◌∙◌, ap, refl, arith, inl, inr, eq_iff,
  Bool-cases,
}
use root_open_im_server.Base.Dict.{lookup, lookup-insert, IsMap}
use root_open_im_server.Base.Result.{ok, Result-cases}
use root_open_im_server.Common.Constants.{
  revoke_type, has_read_receipt, typing, not_receive_message, receive_not_notify_message,
}
use root_open_im_server.MsgProcessor.Options.{
  is_conversation_update_key, is_unread_count_key, is_sender_sync_key, is_offline_push_key,
  is_sender_conversation_update_key, is_history_key, is_persistent_key,
}
use root_open_im_server.MsgService.Verify.{Services}
use root_open_im_server.MsgService.Outgoing.{
  SendReq, encapsulate_msg_data, set_switch, set_switches, switches_of, chat_content_types,
  modify_by_single_opt, modify_message_by_user_message_receive_opt,
}

abbrev over : Option Bool → Option Bool → Option Bool
over (some b) o = some b
over none o = o

-- A list of switches laid over the options.
abbrev overlay : List (String × Bool) → List (String × Bool) → String → Option Bool
overlay kbs options k = over (lookup k kbs) (lookup k options)

switches_of-IsMap : (content_type : ℕ) → IsMap (switches_of content_type)
switches_of-IsMap content_type = elim (Bool-cases (contains_nat content_type chat_content_types)) [
  | inl chat ↦ rw chat (refl, (refl, (refl, tt)))
  | inr other ↦ rw other (elim (Bool-cases (content_type == revoke_type)) [
    | inl revoked ↦ rw revoked (refl, (refl, tt))
    | inr other2 ↦ rw other2 (elim (Bool-cases (content_type == has_read_receipt)) [
      | inl receipt ↦ rw receipt (refl, (refl, (refl, (refl, tt))))
      | inr other3 ↦ rw other3 (elim (Bool-cases (content_type == typing)) [
        | inl is_typing ↦ rw is_typing (refl, (refl, (refl, (refl, (refl, (refl, (refl, tt)))))))
        | inr other4 ↦ rw other4 tt
      ])
    ])
  ])
]

lookup-set_switches :
    (kbs : List (String × Bool)) (r : SendReq) (k : String)
    → IsMap kbs
    → lookup k (set_switches kbs r).msg_data.options
      ≡ (if r.options_nil then lookup k r.msg_data.options else overlay kbs r.msg_data.options k)
lookup-set_switches [] r k h = ground arith
lookup-set_switches ((j, b) ∷ kbs) r k h = ground (
  arith,
  eq_iff j k,
  lookup-insert j k b r.msg_data.options,
  lookup-set_switches kbs (set_switch j b r) k,
)

-- The types of what users write: 101 (text) to 110 (custom), and 114 (quote).
abbrev pub is_chat : ℕ → Bool
is_chat content_type = (leb 101 content_type && leb content_type 110) || content_type == 114

-- Which types touch a switch, switch by switch.
abbrev pub touches : ℕ → String → Bool
touches content_type k =
    (str_eq is_unread_count_key k
      && (is_chat content_type
          || content_type == revoke_type
          || content_type == has_read_receipt
          || content_type == typing))
    || (str_eq is_conversation_update_key k
        && (is_chat content_type || content_type == has_read_receipt || content_type == typing))
    || (str_eq is_sender_sync_key k && (is_chat content_type || content_type == typing))
    || (str_eq is_offline_push_key k
        && (content_type == revoke_type
            || content_type == has_read_receipt
            || content_type == typing))
    || (str_eq is_sender_conversation_update_key k
        && (content_type == has_read_receipt || content_type == typing))
    || ((str_eq is_history_key k || str_eq is_persistent_key k) && content_type == typing)

chat_range :
    (content_type : ℕ) → contains_nat content_type chat_content_types ≡ is_chat content_type
chat_range content_type = ground arith

not_both :
    (content_type : ℕ)
    → is_chat content_type ≡ true
    → ((content_type == revoke_type) ≡ false)
      × ((content_type == has_read_receipt) ≡ false)
      × ((content_type == typing) ≡ false)
not_both content_type chat = ground arith

-- A type that only one of the tests below the chats is true of.
one_only : (content_type n k : ℕ) → n ≢ k → (content_type == n) ≡ true → (content_type == k) ≡ false
one_only content_type n k differ e = ground arith

lookup-switches_of :
    (content_type : ℕ) (k : String)
    → lookup k (switches_of content_type)
      ≡ (if touches content_type k then some (is_chat content_type) else none)
lookup-switches_of content_type k =
    rw (chat_range content_type) (elim (Bool-cases (is_chat content_type)) [
      | inl chat ↦
          let (no_revoke, no_receipt, no_typing) = not_both content_type chat in
          rw (chat, no_revoke, no_receipt, no_typing) (ground arith)
      | inr other ↦ elim (Bool-cases (content_type == revoke_type)) [
        | inl revoked ↦
            let no_receipt =
              one_only content_type revoke_type has_read_receipt (ground arith) revoked in
            let no_typing = one_only content_type revoke_type typing (ground arith) revoked in
            rw (other, revoked, no_receipt, no_typing) (ground arith)
        | inr no_revoke ↦ elim (Bool-cases (content_type == has_read_receipt)) [
          | inl receipt ↦
              let no_typing =
                one_only content_type has_read_receipt typing (ground arith) receipt in
              rw (other, no_revoke, receipt, no_typing) (ground arith)
          | inr no_receipt ↦ elim (Bool-cases (content_type == typing)) [
            | inl is_typing ↦ rw (other, no_revoke, no_receipt, is_typing) (ground arith)
            | inr no_typing ↦ rw (other, no_revoke, no_receipt, no_typing) (ground arith)
          ]
        ]
      ]
    ])

over_if :
    (c b : Bool) (o : Option Bool) → over (if c then some b else none) o ≡ (if c then some b else o)
over_if true b o = refl
over_if false b o = refl

laid_over :
    (is_nil : Bool) (content_type : ℕ) (k : String) (options : List (String × Bool))
    → (if is_nil then lookup k options else overlay (switches_of content_type) options k) ≡ (
        if not is_nil && touches content_type k
        then some (is_chat content_type)
        else lookup k options)
laid_over true content_type k options = refl
laid_over false content_type k options =
    ap (λ o. over o (lookup k options)) (lookup-switches_of content_type k)
    ∙ over_if (touches content_type k) (is_chat content_type) (lookup k options)

-- A message that users write goes out with the switches for the unread count, the conversation's
-- update and the sender's devices on. A revocation's, a read receipt's and a typing notice's own
-- switches go off: those of the unread count and the offline push for all three, those of the two
-- conversations' updates for the last two, and those of the sender's devices, of the history and of
-- storing it for the last. All other switches are as they came, and all are where the message's map of
-- options is nil.
pub lookup-encapsulate_msg_data :
    (msg_id : String) (now : ℕ) (r : SendReq) (k : String)
    → lookup k (encapsulate_msg_data msg_id now r).msg_data.options ≡ (
        if not r.options_nil && touches r.msg_data.content_type k
        then some (is_chat r.msg_data.content_type)
        else lookup k r.msg_data.options)
unfolding encapsulate_msg_data
lookup-encapsulate_msg_data msg_id now r k =
    lookup-set_switches (switches_of r.msg_data.content_type) _ k
      (switches_of-IsMap r.msg_data.content_type)
    ∙ laid_over r.options_nil r.msg_data.content_type k r.msg_data.options

module _ {Brush : Type 0} (env : Services Brush) (user_id conversation_id : String)
    (r : SendReq) where
  abbrev pub IsGlobal : ℕ → Type 0
  IsGlobal opt = env.get_user_global_msg_recv_opt user_id ≡ ok opt

  -- The user's own setting leaves the decision to the conversation's.
  abbrev pub IsOpen : Type 0
  IsOpen =
      (opt : ℕ) × IsGlobal opt × (opt ≢ not_receive_message) × (opt ≢ receive_not_notify_message)

  abbrev pub IsSingle : ℕ → Type 0
  IsSingle opt = env.get_single_conversation_recv_msg_opt user_id conversation_id ≡ ok opt

  -- A message is held back exactly if the receiver takes no messages at all; or if the receiver's
  -- own setting is to take them, and not to take them without notice, the conversation's is not to
  -- take them, and the message is no read receipt.
  pub modify_message-held_back :
      ((modify_message_by_user_message_receive_opt env user_id conversation_id r).1 ≡ ok false) ↔ (
        IsGlobal not_receive_message
        ⊎ (IsOpen × IsSingle not_receive_message × (r.msg_data.content_type ≢ has_read_receipt)))
  unfolding modify_message_by_user_message_receive_opt modify_by_single_opt
  modify_message-held_back = elim (Result-cases (env.get_user_global_msg_recv_opt user_id)) [
    | inr (e, failed) ↦ ground arith
    | inl (opt, global) ↦
        elim (Result-cases (env.get_single_conversation_recv_msg_opt user_id conversation_id)) [
          | inr (e, failed2) ↦ ground (arith)
          | inl (single_opt, single) ↦ ground arith
        ]
  ]

  -- A message that goes out without being pushed offline is one that the receiver takes without
  -- notice, or one that came so; its other switches are as they came.
  pub modify_message-options :
      (k : String)
      → (lookup k
            (modify_message_by_user_message_receive_opt env user_id conversation_id
              r).0.msg_data.options
          ≡ lookup k r.msg_data.options)
        ⊎ ((k ≡ is_offline_push_key)
            × (IsGlobal receive_not_notify_message ⊎ (IsOpen × IsSingle receive_not_notify_message))
            × (lookup k
                  (modify_message_by_user_message_receive_opt env user_id conversation_id
                    r).0.msg_data.options
                ≡ some false))
  unfolding modify_message_by_user_message_receive_opt modify_by_single_opt
  modify_message-options k = elim (Result-cases (env.get_user_global_msg_recv_opt user_id)) [
    | inr (e, failed) ↦ ground arith
    | inl (opt, global) ↦
        elim (Result-cases (env.get_single_conversation_recv_msg_opt user_id conversation_id)) [
          | inr (e, failed2) ↦ ground (
            arith,
            eq_iff is_offline_push_key k,
            lookup-insert is_offline_push_key k false r.msg_data.options,
          )
          | inl (single_opt, single) ↦ ground (
            arith,
            eq_iff is_offline_push_key k,
            lookup-insert is_offline_push_key k false r.msg_data.options,
          )
        ]
  ]

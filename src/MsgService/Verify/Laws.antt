-- ===== src/MsgService/Verify/Laws.antt =====
-- Who may send what, and which switches a message goes out with.
use root_open_im_server.Base.{
  ◌≤◌, ◌<◌, true, false, ◌==◌, contains, ◌≡◌, ◌≢◌, ◌⊎◌, ◌↔◌, arith, inl, inr, Bool-cases, ◌||◌,
}
use root_open_im_server.Base.Result.{ok, Result-cases}
use root_open_im_server.Common.Constants.{
  single_chat_type, super_group_chat_type, notification_begin, notification_end, sys_msg_type,
  user_msg_type, group_status_dismissed, group_status_muted, group_dismissed_notification,
  super_group, group_owner, group_admin, group_ordinary_users,
}
use root_open_im_server.MsgStore.Doc.{MsgData}
use root_open_im_server.MsgService.Verify.{
  Services, GroupInfo, GroupMember, in_notification_range, verify_friends, verify_single,
  verify_speech, verify_member, verify_super_group, message_verification,
}

module _ {Brush : Type 0} (env : Services Brush) (m : MsgData) where
  -- The content types that the server itself sends.
  abbrev pub IsNotificationType : Type 0
  IsNotificationType = (notification_begin ≤ m.content_type) × (m.content_type ≤ notification_end)

  -- A sender to whom neither blacklist nor friendship applies.
  abbrev pub IsExempt : Type 0
  IsExempt =
      (contains m.send_id env.manager_ids ≡ true)
      ⊎ IsNotificationType
      ⊎ (m.msg_from ≡ sys_msg_type)
      ⊎ (env.verify_rights m.ex ≢ 0)

  abbrev pub IsWelcome : Type 0
  IsWelcome =
      (env.is_blocked m.send_id m.recv_id ≡ ok false)
      × ((env.friend_verify ≡ false) ⊎ (env.is_friend m.send_id m.recv_id ≡ ok true))

  -- A message between two users passes exactly if its status does not stop it and its sender is
  -- exempt, or is not blocked and, where friendship is checked, a friend.
  pub message_verification_single :
      (brush : Brush)
      → m.session_type ≡ single_chat_type
      → ((message_verification env m brush).1 ≡ ok tt)
        ↔ ((env.verify_send_status m.ex ≢ 3) × (IsExempt ⊎ IsWelcome))
  unfolding message_verification verify_single verify_friends
  message_verification_single brush h = elim (Result-cases (env.is_blocked m.send_id m.recv_id)) [
    | inr (e, failed) ↦ ground arith
    | inl (black, answer) ↦ elim (Result-cases (env.is_friend m.send_id m.recv_id)) [
      | inr (e, failed) ↦ ground arith
      | inl (friend, answer2) ↦ ground arith
    ]
  ]

  -- What a group's member has to meet to speak.
  abbrev pub MaySpeak : GroupInfo → GroupMember → Brush → Type 0
  MaySpeak group member brush =
      (member.role_level ≡ group_owner)
      ⊎ (member.role_level ≡ group_admin)
      ⊎ (1 ≤ env.verify_rights m.ex)
      ⊎ ((member.mute_end_time < env.now)
          × (group.status ≢ group_status_muted)
          × ((member.role_level ≢ group_ordinary_users)
              ⊎ (m.msg_from ≢ user_msg_type)
              ⊎ ((env.brush_check brush m.send_id).1 ≡ true)))

  abbrev pub MaySend : GroupInfo → Brush → Type 0
  MaySend group brush =
      (group.group_type ≡ super_group)
      ⊎ (contains m.send_id env.manager_ids ≡ true)
      ⊎ IsNotificationType
      ⊎ ((member : GroupMember) × (env.get_group_member m.group_id m.send_id ≡ ok member)
          × MaySpeak group member brush)

  -- A message to a group that passes is not stopped by its status; the group is not dismissed,
  -- unless this is what the message says; and the group is a super group, or the message comes
  -- from a manager or is a notification, or the sender is a member who is the owner, an
  -- administrator or a user of higher rights, or else is not muted, in a group that is not muted,
  -- and, where an ordinary member's message comes from a user, within the flood limit.
  pub message_verification_group :
      (brush : Brush)
      → m.session_type ≡ super_group_chat_type
      → (message_verification env m brush).1 ≡ ok tt
      → (env.verify_send_status m.ex ≢ 3)
        × (group : GroupInfo) × (env.get_group_info m.group_id ≡ ok group)
        × ((group.status ≢ group_status_dismissed)
            ⊎ (m.content_type ≡ group_dismissed_notification))
        × MaySend group brush
  unfolding message_verification verify_super_group verify_member verify_speech
  message_verification_group brush h passed = elim (Result-cases (env.get_group_info m.group_id)) [
    | inr (e, failed) ↦ absurd (ground arith)
    | inl (group, found) ↦ elim (Result-cases (env.get_group_member m.group_id m.send_id)) [
      | inr (e, failed) ↦ (ground arith, group, found, ground arith, ground arith)
      | inl (member, there) ↦ (
        ground arith,
        group,
        found,
        ground arith,
        elim (Bool-cases (
            group.group_type == super_group
            || contains m.send_id env.manager_ids
            || in_notification_range m)) [
              | inl free ↦ ground arith
              | inr bound ↦ inr (inr (inr (member, there, ground arith)))
            ],
      )
    ]
  ]

  -- Only a message that the flood limiter decides on counts for it: one of a user to a super
  -- group. Every other message leaves its store as it was.
  pub message_verification_brush :
      (brush : Brush)
      → ((message_verification env m brush).0 ≡ brush)
        ⊎ ((m.session_type ≡ super_group_chat_type)
            × (m.msg_from ≡ user_msg_type)
            × ((message_verification env m brush).0 ≡ (env.brush_check brush m.send_id).0))
  unfolding message_verification verify_super_group verify_member verify_speech
  message_verification_brush brush = elim (Result-cases (env.get_group_info m.group_id)) [
    | inr (e, failed) ↦ ground arith
    | inl (group, found) ↦ elim (Result-cases (env.get_group_member m.group_id m.send_id)) [
      | inr (e, failed) ↦ ground arith
      | inl (member, there) ↦ ground arith
    ]
  ]

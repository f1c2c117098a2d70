-- ===== src/Group/Join.antt =====
-- How users come into a group: `InviteUserToGroup` and `JoinGroup` of
-- internal/rpc/group/group.go.
use root_open_im_server.Base.{
  ℕ, ◌+◌, String, Bool, true, false, not, ◌&&◌, ◌||◌, List, [], ◌∷◌, ◌++◌, map, ◌==◌, if◌then◌else◌,
  is_empty, length,
}
use Prim.Native.String.{◌++◌ as append_text}
use root_open_im_server.Base.Int.{pos, ltb_ℤ}
use root_open_im_server.Base.Result.{Result, ok, err, ◌>>=◌, ◌>>◌, fail_if}
use root_open_im_server.Common.Errors.{
  Error, args, record_not_found, dismissed_already, is_record_not_found,
}
use root_open_im_server.Common.Access.{is_app_manager_uid, verify_rights}
use root_open_im_server.Common.Constants.{
  directly, all_need_verification, join_by_invitation, group_owner, group_admin,
  group_ordinary_users, group_status_dismissed,
}
use root_open_im_server.Group.Tables.{GroupModel, GroupMemberModel, GroupRequestModel, Tables}
use root_open_im_server.Group.Store.{create_group, create_group_request}
use root_open_im_server.Group.Calls.{
  Env, must, may, Answer, group_chat_first_create_conversation, set_conversation_user_min_seqs,
  read_seqs, member_invited_notification, member_enter_notification,
  join_group_application_notification, callback_after_join_group, finish, guarded, either,
  callback_before_member_join_group, duplicate,
}

pub record InviteReq : Type 0 where
  pub group_id : String
  pub invited_user_ids : List String
  pub ex : String

pub record JoinReq : Type 0 where
  pub group_id : String
  pub inviter_user_id : String
  pub req_message : String
  pub join_source : ℕ
  pub ex : String

-- An ordinary member, as the code builds it before the callback.
abbrev pub ordinary_member : (group_id user_id inviter operator : String) → ℕ → ℕ → GroupMemberModel
ordinary_member group_id user_id inviter operator join_source now = record {
  group_id = group_id;
  user_id = user_id;
  nickname = "";
  face_url = "";
  role_level = group_ordinary_users;
  join_time = now;
  join_source = join_source;
  inviter_user_id = inviter;
  operator_user_id = operator;
  mute_end_time = 0;
  ex = "";
}

abbrev pub is_manager_role : ℕ → Bool
is_manager_role role = role == group_owner || role == group_admin

module _ (env : Env) (t : Tables) where
  unfoldable pub invited_members :
      InviteReq → String → String → List String → Result Error (List GroupMemberModel)
  invited_members req op_user_id group_ex [] = ok []
  invited_members req op_user_id group_ex (u ∷ us) = do
    m ←
        callback_before_member_join_group env
          (ordinary_member req.group_id u op_user_id op_user_id join_by_invitation env.now) group_ex
    ms ← invited_members req op_user_id group_ex us
    ok (m ∷ ms)

  -- `!adminAuth && userAuth < 0`, the condition under which the caller's role is looked at.
  abbrev pub is_limited : InviteReq → Bool
  is_limited req =
      not (is_app_manager_uid env.actor)
      && ltb_ℤ (verify_rights env.unmarshal_rights req.ex) (pos 0)

  -- The role of a caller that is looked at; the id of one that is not stays empty.
  abbrev pub inviter : InviteReq → t.State → Result Error (String × ℕ)
  inviter req s =
      if is_limited req
      then (do
        m ← t.take_member s req.group_id env.actor.op_user_id
        env.populate_group_member (m ∷ [])
        ok (env.actor.op_user_id, m.role_level))
      else ok ("", 0)

  unfoldable pub check_invite : InviteReq → t.State → Result Error (GroupModel × String × ℕ)
  check_invite req s = do
    fail_if (is_empty req.invited_user_ids) args
    fail_if (duplicate req.invited_user_ids) args
    g ← t.take_group s req.group_id
    fail_if (g.status == group_status_dismissed) dismissed_already
    users ← env.get_users_info_map req.invited_user_ids
    fail_if (not (length users == length req.invited_user_ids)) record_not_found
    (op_user_id, role) ← inviter req s
    env.callback_before_invite_user_to_group req.group_id req.invited_user_ids
    ok (g, op_user_id, role)

  abbrev pub invitation : InviteReq → String → String → GroupRequestModel
  invitation req op_user_id user_id = record {
    user_id = user_id;
    group_id = req.group_id;
    handle_result = pos 0;
    req_msg = "";
    handled_msg = "";
    req_time = env.now;
    handle_user_id = "";
    handled_time = 0;
    join_source = join_by_invitation;
    inviter_user_id = op_user_id;
    ex = "";
  }

  unfoldable pub invite_user_to_group : InviteReq → t.State → Answer t.State
  invite_user_to_group req s = guarded (check_invite req s) s (λ (g, op_user_id, role).
      let id = append_text "sg_" req.group_id in
      let users = req.invited_user_ids in
      let max_seq = env.get_max_seq id + 1 in
      let seqs =
        may (set_conversation_user_min_seqs id users max_seq)
        ∷ may (read_seqs id users max_seq)
        ∷ [] in
      either
        (g.need_verification == all_need_verification
          && is_limited req
          && not (is_manager_role role))
        (finish env (create_group_request t (map (invitation req op_user_id) users) s) (λ s'.
          seqs
          ++ map (λ u. may (join_group_application_notification req.group_id op_user_id)) users))
        (guarded (invited_members req op_user_id g.ex users) s (λ members.
          finish env (create_group t [] members s) (λ s'.
            must (group_chat_first_create_conversation req.group_id users)
            ∷ (seqs ++ may (member_invited_notification req.group_id users) ∷ [])))))

  -- Whether the user is a member; only a missing row says no.
  abbrev pub in_group : String → String → t.State → Result Error Bool
  in_group group_id user_id s = elim (t.take_member s group_id user_id) [
    | ok m ↦ ok true
    | err e ↦ if is_record_not_found e then ok false else err e
  ]

  unfoldable pub check_join : JoinReq → t.State → Result Error (String × GroupModel)
  check_join req s = do
    user_id ← env.get_user_info req.inviter_user_id
    g ← t.take_group s req.group_id
    fail_if (g.status == group_status_dismissed) dismissed_already
    env.callback_apply_join_group_before req.group_id req.inviter_user_id
    present ← in_group req.group_id req.inviter_user_id s
    fail_if present args
    ok (user_id, g)

  unfoldable pub join_group : JoinReq → t.State → Answer t.State
  join_group req s = guarded (check_join req s) s (λ (user_id, g).
      let id = append_text "sg_" g.group_id in
      let max_seq = env.get_max_seq id + 1 in
      let seqs =
        may (read_seqs id (user_id ∷ []) max_seq)
        ∷ may (set_conversation_user_min_seqs id (user_id ∷ []) max_seq)
        ∷ [] in
      either
        (g.need_verification == directly
          || ltb_ℤ (pos 0) (verify_rights env.unmarshal_rights req.ex))
        (guarded
          (callback_before_member_join_group env
            (ordinary_member g.group_id user_id req.inviter_user_id env.actor.op_user_id
              req.join_source env.now)
            g.ex)
          s
          (λ m. finish env (create_group t [] (m ∷ []) s) (λ s'.
            must (group_chat_first_create_conversation req.group_id (req.inviter_user_id ∷ []))
            ∷ (seqs
                ++ may (member_enter_notification req.group_id req.inviter_user_id)
                  ∷ must (callback_after_join_group req.group_id req.inviter_user_id)
                  ∷ []))))
        (finish env
          (create_group_request t
            (record {
              user_id = req.inviter_user_id;
              group_id = req.group_id;
              handle_result = pos 0;
              req_msg = req.req_message;
              handled_msg = "";
              req_time = env.now;
              handle_user_id = "";
              handled_time = 0;
              join_source = req.join_source;
              inviter_user_id = "";
              ex = req.ex;
            }
              ∷ [])
            s)
          (λ s'.
            seqs
            ++ may (join_group_application_notification req.group_id req.inviter_user_id) ∷ [])))

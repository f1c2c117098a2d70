-- ===== src/Group/Admin.antt =====
-- A group as a whole: `TransferGroupOwner`, `DismissGroup`, `MuteGroup`, `CancelMuteGroup` and
-- `SetGroupInfo` of internal/rpc/group/group.go, with `UpdateGroupInfoMap` of db_map.go.
use root_open_im_server.Base.{
  ℕ, ◌+◌, ◌-◌, String, Bool, true, false, not, ◌&&◌, List, [], ◌∷◌, ◌++◌, Option, none, some,
  str_eq, ◌==◌, ltb, if◌then◌else◌,
}
use root_open_im_server.Base.Result.{Result, ok, err, ◌>>=◌, ◌>>◌, fail_if}
use root_open_im_server.Common.Errors.{Error, args, no_permission, dismissed_already}
use root_open_im_server.Common.Access.{is_app_manager_uid}
use root_open_im_server.Common.Constants.{
  group_owner, group_status_dismissed, group_status_muted, group_ok, super_group_chat_type,
  group_notification,
}
use root_open_im_server.MsgProcessor.Ids.{get_conversation_id_by_session_type}
use root_open_im_server.Group.Tables.{GroupModel, GroupMemberModel, GroupChange, Tables}
use root_open_im_server.Group.Store.{
  dismiss_group, transfer_group_owner, update_group, find_group_members, take_group_owner,
  status_change,
}
use root_open_im_server.Group.Calls.{
  Env, Call, must, may, broken, Answer, set_conversations, group_info_set_notification,
  group_muted_notification, group_cancel_muted_notification, group_dismissed_notification,
  group_info_set_announcement_notification, group_info_set_name_notification,
  group_info_set_face_url_notification, group_owner_transferred_notification,
  callback_after_set_group_info, callback_dismiss_group, callback_transfer_group_owner_after,
  finish, guarded, either,
}
use root_open_im_server.Group.Join.{is_manager_role}
use root_open_im_server.Group.Respond.{check_group_admin}
use root_open_im_server.Group.Members.{member_of}

pub record TransferReq : Type 0 where
  pub group_id : String
  pub old_owner_user_id : String
  pub new_owner_user_id : String

-- `GroupInfoForSet`: an empty text asks for no change.
pub record GroupInfoForSet : Type 0 where
  pub group_id : String
  pub group_name : String
  pub notification : String
  pub introduction : String
  pub face_url : String
  pub need_verification : Option ℕ
  pub look_member_info : Option ℕ
  pub apply_member_friend : Option ℕ
  pub ex : Option String

abbrev pub unless_empty : {A : Type 0} → String → A → Option A
unless_empty text a = if str_eq text "" then none else some a

-- `UpdateGroupInfoMap`.
unfoldable pub update_group_info_map : Env → GroupInfoForSet → GroupChange
update_group_info_map env g = record {
  group_name = unless_empty g.group_name g.group_name;
  notification =
      unless_empty g.notification
        (if str_eq g.notification "notification" then "" else g.notification);
  notification_update_time = unless_empty g.notification env.now;
  notification_user_id = unless_empty g.notification env.actor.op_user_id;
  introduction = unless_empty g.introduction g.introduction;
  face_url = unless_empty g.face_url g.face_url;
  need_verification = g.need_verification;
  look_member_info = g.look_member_info;
  apply_member_friend = g.apply_member_friend;
  ex = g.ex;
  status = none;
}

abbrev pub one_if_set : {A : Type 0} → Option A → ℕ
one_if_set none = 0
one_if_set (some a) = 1

-- `len(update)`.
abbrev pub size : GroupChange → ℕ
size c =
    one_if_set c.group_name
    + one_if_set c.notification
    + one_if_set c.notification_update_time
    + one_if_set c.notification_user_id
    + one_if_set c.introduction
    + one_if_set c.face_url
    + one_if_set c.need_verification
    + one_if_set c.look_member_info
    + one_if_set c.apply_member_friend
    + one_if_set c.ex
    + one_if_set c.status

abbrev pub count : Bool → ℕ
count b = if b then 1 else 0

abbrev pub when : {A : Type 0} → Bool → List A → List A
when true xs = xs
when false xs = []

module _ (env : Env) (t : Tables) where
  -- The role of the new owner, which the old one is given.
  unfoldable pub check_transfer : TransferReq → t.State → Result Error ℕ
  check_transfer req s = do
    g ← t.take_group s req.group_id
    fail_if (g.status == group_status_dismissed) dismissed_already
    fail_if (str_eq req.old_owner_user_id req.new_owner_user_id) args
    members ←
        find_group_members t req.group_id (req.old_owner_user_id ∷ req.new_owner_user_id ∷ []) s
    env.populate_group_member members
    elim (member_of req.old_owner_user_id members) [
      | none ↦ err args
      | some old_owner ↦ elim (member_of req.new_owner_user_id members) [
        | none ↦ err args
        | some new_owner ↦
            if not (is_app_manager_uid env.actor)
              && not (
                  str_eq env.actor.op_user_id old_owner.user_id
                  && old_owner.role_level == group_owner)
            then err no_permission
            else ok new_owner.role_level
      ]
    ]

  unfoldable pub transfer_owner : TransferReq → t.State → Answer t.State
  transfer_owner req s = guarded (check_transfer req s) s (λ role_level.
      let g = req.group_id in
      let old_id = req.old_owner_user_id in
      let new_id = req.new_owner_user_id in
      finish env (transfer_group_owner t g old_id new_id role_level s) (λ s'.
        must (callback_transfer_group_owner_after g old_id new_id)
        ∷ may (group_owner_transferred_notification g old_id new_id)
        ∷ []))

  unfoldable pub check_dismiss : String → Bool → t.State → Result Error GroupMemberModel
  check_dismiss group_id delete_member s = do
    owner ← take_group_owner t group_id s
    fail_if (not (is_app_manager_uid env.actor) && not (str_eq owner.user_id env.actor.op_user_id))
        no_permission
    env.populate_group_member (owner ∷ [])
    g ← t.take_group s group_id
    fail_if (not delete_member && g.status == group_status_dismissed) dismissed_already
    ok owner

  -- What is told of a group that is dismissed, which counts its members first.
  abbrev pub dismissed_calls : String → Bool → List Call → t.State → List Call
  dismissed_calls group_id true rest s = rest
  dismissed_calls group_id false rest s = elim (t.member_num s group_id) [
    | err e ↦ broken e ∷ []
    | ok num ↦ may (group_dismissed_notification group_id) ∷ rest
  ]

  unfoldable pub dismiss : String → Bool → t.State → Answer t.State
  dismiss group_id delete_member s = guarded (check_dismiss group_id delete_member s) s (λ owner.
      finish env (dismiss_group t group_id delete_member s) (λ s'.
        dismissed_calls group_id delete_member
          (elim (t.member_ids s' group_id) [
            | err e ↦ broken e ∷ []
            | ok ids ↦ must (callback_dismiss_group group_id owner.user_id ids) ∷ []
          ])
          s'))

  unfoldable pub mute_group : String → t.State → Answer t.State
  mute_group group_id s = guarded (check_group_admin env t group_id s) s (λ _.
      finish env (update_group t group_id (status_change group_status_muted) s)
        (λ s'. may (group_muted_notification group_id) ∷ []))

  unfoldable pub cancel_mute_group : String → t.State → Answer t.State
  cancel_mute_group group_id s = guarded (check_group_admin env t group_id s) s (λ _.
      finish env (update_group t group_id (status_change group_ok) s)
        (λ s'. may (group_cancel_muted_notification group_id) ∷ []))

  -- The callback's replacements are those of the request that comes back.
  module _ (callback_before_set_group_info : GroupInfoForSet → Result Error GroupInfoForSet) where
    abbrev pub check_setter : String → t.State → Result Error (Unit {0})
    check_setter group_id s = if is_app_manager_uid env.actor then ok tt else (do
      m ← t.take_member s group_id env.actor.op_user_id
      fail_if (not (is_manager_role m.role_level)) no_permission
      env.populate_group_member (m ∷ []))

    unfoldable pub check_set_group_info :
        GroupInfoForSet → t.State → Result Error (GroupInfoForSet × GroupModel)
    check_set_group_info req s = do
      check_setter req.group_id s
      info ← callback_before_set_group_info req
      g ← t.take_group s info.group_id
      fail_if (g.status == group_status_dismissed) dismissed_already
      num ← t.member_num s g.group_id
      owner ← take_group_owner t g.group_id s
      env.populate_group_member (owner ∷ [])
      ok (info, g)

    -- The new announcement is put into the conversation of every member; an error is logged.
    abbrev pub announce : String → t.State → List Call
    announce group_id s = elim (t.member_ids s group_id) [
      | err e ↦ []
      | ok ids ↦
          may (
            set_conversations ids
              (get_conversation_id_by_session_type super_group_chat_type (group_id ∷ []))
              group_notification)
          ∷ []
    ]

    unfoldable pub told_of : GroupInfoForSet → GroupChange → t.State → List Call
    told_of info c s = elim (t.take_group s info.group_id) [
      | err e ↦ broken e ∷ []
      | ok g ↦
          let announced = not (str_eq info.notification "") in
          let named = not (str_eq info.group_name "") in
          let faced = not (str_eq info.face_url "") in
          when announced (
            announce info.group_id s
            ++ may (group_info_set_announcement_notification info.group_id) ∷ [])
          ++ (when named (may (group_info_set_name_notification info.group_id) ∷ [])
              ++ (when faced (may (group_info_set_face_url_notification info.group_id) ∷ [])
                  ++ (when (ltb 0 (size c - (count announced + count named + count faced)))
                        (may (group_info_set_notification info.group_id) ∷ [])
                      ++ must (callback_after_set_group_info info.group_id) ∷ [])))
    ]

    unfoldable pub set_group_info : GroupInfoForSet → t.State → Answer t.State
    set_group_info req s = guarded (check_set_group_info req s) s (λ (info, g).
        let c = update_group_info_map env info in
        either (size c == 0) (s, [], ok tt)
          (finish env (update_group t g.group_id c s) (told_of info c)))

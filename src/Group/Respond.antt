-- ===== src/Group/Respond.antt =====
-- The answers to requests to join: `GroupApplicationResponse` and `CheckGroupAdmin` of
-- internal/rpc/group/group.go.
use root_open_im_server.Base.{
  String, Bool, true, false, not, ◌&&◌, ◌||◌, List, [], ◌∷◌, Option, none, some, ◌==◌,
  if◌then◌else◌,
}
use root_open_im_server.Base.Int.{ℤ, pos, negsuc}
use root_open_im_server.Base.Result.{Result, ok, err, ◌>>=◌, ◌>>◌, fail_if}
use root_open_im_server.Common.Errors.{Error, args, no_permission, group_request_handled}
use root_open_im_server.Common.Access.{is_app_manager_uid}
use root_open_im_server.Group.Tables.{GroupModel, GroupMemberModel, GroupRequestModel, Tables}
use root_open_im_server.Group.Store.{handler_group_request}
use root_open_im_server.Group.Calls.{
  Env, Call, must, may, Answer, group_chat_first_create_conversation, member_enter_notification,
  group_application_accepted_notification, group_application_rejected_notification, finish, guarded,
  callback_before_member_join_group,
}
use root_open_im_server.Group.Join.{ordinary_member, is_manager_role, in_group}

pub record ResponseReq : Type 0 where
  pub group_id : String
  pub from_user_id : String
  pub handle_result : ℤ

abbrev pub is_agree : ℤ → Bool
is_agree (pos n) = n == 1
is_agree (negsuc n) = false

abbrev pub is_refuse : ℤ → Bool
is_refuse (pos n) = false
is_refuse (negsuc n) = n == 0

abbrev pub is_handled : ℤ → Bool
is_handled (pos n) = not (n == 0)
is_handled (negsuc n) = true

module _ (env : Env) (t : Tables) where
  -- `CheckGroupAdmin`, and the same lines of `GroupApplicationResponse` and `SetGroupInfo`.
  unfoldable pub check_group_admin : String → t.State → Result Error (Unit {0})
  check_group_admin group_id s = if is_app_manager_uid env.actor then ok tt else (do
    m ← t.take_member s group_id env.actor.op_user_id
    fail_if (not (is_manager_role m.role_level)) no_permission)

  -- The member to add, where the request is agreed to and the user is not there yet.
  unfoldable pub accepted_member :
      ResponseReq → GroupModel → GroupRequestModel → Bool → Result Error (Option GroupMemberModel)
  accepted_member req g r present =
      if not present && is_agree req.handle_result
      then elim (callback_before_member_join_group env
          (record (ordinary_member req.group_id req.from_user_id r.inviter_user_id
            env.actor.op_user_id r.join_source env.now) { ex = r.ex })
          g.ex) [ err e ↦ err e | ok m ↦ ok (some m) ]
      else ok none

  unfoldable pub check_response : ResponseReq → t.State → Result Error (Option GroupMemberModel)
  check_response req s = do
    fail_if (not (is_agree req.handle_result || is_refuse req.handle_result)) args
    check_group_admin req.group_id s
    g ← t.take_group s req.group_id
    r ← t.take_request s req.group_id req.from_user_id
    fail_if (is_handled r.handle_result) group_request_handled
    present ← in_group env t req.group_id req.from_user_id s
    env.get_public_user_info req.from_user_id
    accepted_member req g r present

  abbrev pub entered : ResponseReq → Option GroupMemberModel → List Call
  entered req none = []
  entered req (some m) = may (member_enter_notification req.group_id req.from_user_id) ∷ []

  unfoldable pub group_application_response : ResponseReq → t.State → Answer t.State
  group_application_response req s = guarded (check_response req s) s (λ member.
      finish env (handler_group_request t req.group_id req.from_user_id req.handle_result member s)
        (λ s'.
          if is_agree req.handle_result
          then must (group_chat_first_create_conversation req.group_id (req.from_user_id ∷ []))
            ∷ may (group_application_accepted_notification req.group_id req.from_user_id)
            ∷ entered req member
          else may (group_application_rejected_notification req.group_id req.from_user_id) ∷ []))

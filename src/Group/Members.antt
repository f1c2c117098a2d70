-- ===== src/Group/Members.antt =====
-- Members that leave, are removed or muted: `KickGroupMember`, `QuitGroup`, `MuteGroupMember` and
-- `CancelMuteGroupMember` of internal/rpc/group/group.go.
use root_open_im_server.Base.{
  ℕ, ◌+◌, ◌*◌, String, not, ◌||◌, List, [], ◌∷◌, ◌++◌, Option, none, some, str_eq, ◌==◌,
  if◌then◌else◌, is_empty, contains,
}
use root_open_im_server.Base.Result.{Result, ok, err, ◌>>=◌, ◌>>◌, fail_if}
use root_open_im_server.Common.Errors.{Error, args, no_permission, user_id_not_found}
use root_open_im_server.Common.Access.{check_access_v3, is_app_manager_uid}
use root_open_im_server.Common.Constants.{group_owner, group_admin, group_ordinary_users}
use root_open_im_server.Group.Tables.{GroupMemberModel, Tables}
use root_open_im_server.Group.Store.{
  delete_group_member, update_group_member, find_group_members, muted_time_change,
}
use root_open_im_server.Group.Calls.{
  Env, must, may, Answer, member_kicked_notification, member_quit_notification,
  group_member_muted_notification, group_member_cancel_muted_notification,
  callback_kill_group_member, callback_quit_group, finish, guarded,
  delete_member_and_set_conversation_seq, duplicate,
}
use root_open_im_server.Group.Join.{is_manager_role}

pub record KickReq : Type 0 where
  pub group_id : String
  pub kicked_user_ids : List String

pub record MuteReq : Type 0 where
  pub group_id : String
  pub user_id : String
  pub muted_seconds : ℕ

-- The entry of the members' map: of several members with one id, the last.
abbrev pub member_of : String → List GroupMemberModel → Option GroupMemberModel
member_of u [] = none
member_of u (m ∷ ms) = elim (member_of u ms) [
  | some found ↦ some found
  | none ↦ if str_eq m.user_id u then some m else none
]

-- The `switch` on the caller's role.
unfoldable pub may_kick : (op_role role : ℕ) → Result Error (Unit {0})
may_kick op_role role =
    if op_role == group_owner
    then ok tt
    else if op_role == group_admin
    then fail_if (is_manager_role role) no_permission
    else err no_permission

-- The `switch` on the role of the member to mute.
unfoldable pub may_mute : (op_role role : ℕ) → Result Error (Unit {0})
may_mute op_role role =
    if role == group_owner
    then err no_permission
    else if role == group_admin
    then fail_if (not (op_role == group_owner)) no_permission
    else if role == group_ordinary_users
    then fail_if (not (op_role == group_admin || op_role == group_owner)) no_permission
    else ok tt

module _ (env : Env) (t : Tables) where
  abbrev pub check_op_member : Option GroupMemberModel → GroupMemberModel → Result Error (Unit {0})
  check_op_member op_member m = if is_app_manager_uid env.actor then ok tt else elim op_member [
    | none ↦ err no_permission
    | some op ↦ may_kick op.role_level m.role_level
  ]

  -- The loop over the users to kick.
  abbrev pub check_kicked :
      Option GroupMemberModel → List GroupMemberModel → List String → Result Error (Unit {0})
  check_kicked op_member members [] = ok tt
  check_kicked op_member members (u ∷ us) =
      let rest = check_kicked op_member members us in
      elim (member_of u members) [
        | none ↦ err user_id_not_found
        | some m ↦ check_op_member op_member m >>= λ _. rest
      ]

  unfoldable pub check_kick : KickReq → t.State → Result Error (Unit {0})
  check_kick req s = do
    g ← t.take_group s req.group_id
    fail_if (is_empty req.kicked_user_ids) args
    fail_if (duplicate req.kicked_user_ids) args
    let op_user_id = env.actor.op_user_id
    fail_if (contains op_user_id req.kicked_user_ids) args
    members ← find_group_members t req.group_id (req.kicked_user_ids ++ op_user_id ∷ []) s
    env.populate_group_member members
    check_kicked (member_of op_user_id members) members req.kicked_user_ids
    num ← t.member_num s req.group_id
    owners ← t.role_level_ids s req.group_id group_owner
    ok tt

  unfoldable pub kick_group_member : KickReq → t.State → Answer t.State
  kick_group_member req s = guarded (check_kick req s) s (λ _.
      finish env (delete_group_member t req.group_id req.kicked_user_ids s) (λ s'.
        may (member_kicked_notification req.group_id req.kicked_user_ids)
        ∷ (delete_member_and_set_conversation_seq env req.group_id req.kicked_user_ids
            ++ must (callback_kill_group_member req.group_id req.kicked_user_ids) ∷ [])))

  -- Without a user id, the caller's; else one that the caller may act for.
  abbrev pub quitting_user : String → Result Error String
  quitting_user user_id =
      if str_eq user_id ""
      then ok env.actor.op_user_id
      else check_access_v3 env.actor user_id >>= λ _. ok user_id

  unfoldable pub check_quit : String → String → t.State → Result Error String
  check_quit group_id req_user_id s = do
    user_id ← quitting_user req_user_id
    m ← t.take_member s group_id user_id
    fail_if (m.role_level == group_owner) no_permission
    env.populate_group_member (m ∷ [])
    ok user_id

  unfoldable pub quit_group : String → String → t.State → Answer t.State
  quit_group group_id req_user_id s = guarded (check_quit group_id req_user_id s) s (λ user_id.
      finish env (delete_group_member t group_id (user_id ∷ []) s) (λ s'.
        may (member_quit_notification group_id user_id)
        ∷ (delete_member_and_set_conversation_seq env group_id (user_id ∷ [])
            ++ must (callback_quit_group group_id user_id) ∷ [])))

  unfoldable pub check_mute : String → String → t.State → Result Error GroupMemberModel
  check_mute group_id user_id s = do
    m ← t.take_member s group_id user_id
    env.populate_group_member (m ∷ [])
    (if is_app_manager_uid env.actor
        then ok tt
        else (t.take_member s group_id env.actor.op_user_id >>= λ op.
            may_mute op.role_level m.role_level))
    ok m

  unfoldable pub mute_group_member : MuteReq → t.State → Answer t.State
  mute_group_member req s = guarded (check_mute req.group_id req.user_id s) s (λ m.
      finish env
        (update_group_member t m.group_id m.user_id
          (muted_time_change (env.now + 1000 * req.muted_seconds)) s)
        (λ s'.
          may (group_member_muted_notification req.group_id req.user_id req.muted_seconds) ∷ []))

  unfoldable pub cancel_mute_group_member : String → String → t.State → Answer t.State
  cancel_mute_group_member group_id user_id s = guarded (check_mute group_id user_id s) s (λ m.
      finish env (update_group_member t m.group_id m.user_id (muted_time_change 0) s)
        (λ s'. may (group_member_cancel_muted_notification group_id user_id) ∷ []))

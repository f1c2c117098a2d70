-- ===== src/Group/Create.antt =====
-- New groups: `GenGroupID` and `CreateGroup` of internal/rpc/group/group.go.
use root_open_im_server.Base.{
  ℕ, zero, suc, ◌+◌, String, not, List, [], ◌∷◌, ◌++◌, str_eq, ◌==◌, if◌then◌else◌, contains,
  length,
}
use root_open_im_server.Base.Result.{Result, ok, err, ◌>>=◌, ◌>>◌, fail_if}
use root_open_im_server.Common.Errors.{
  Error, args, user_id_not_found, group_id_existed, data_error, dependency, is_record_not_found,
}
use root_open_im_server.Common.Access.{check_access_v3}
use root_open_im_server.Common.Constants.{
  working_group, directly, join_by_invitation, group_owner, group_admin, group_ordinary_users,
}
use root_open_im_server.Group.Tables.{GroupModel, GroupMemberModel, Tables}
use root_open_im_server.Group.Store.{create_group}
use root_open_im_server.Group.Calls.{
  Env, must, may, Answer, group_created_notification, callback_after_create_group, finish, guarded,
  callback_before_member_join_group, duplicate,
}

pub record CreateGroupReq : Type 0 where
  pub member_user_ids : List String
  pub admin_user_ids : List String
  pub owner_user_id : String
  pub group_info : GroupModel

module _ (env : Env) (t : Tables) where
  -- The rounds `i`, `i + 1`, …, as many as are left.
  abbrev pub draw_group_id : (left i : ℕ) → t.State → Result Error String
  draw_group_id zero i s = err data_error
  draw_group_id (suc left) i s =
      let rest = draw_group_id left (i + 1) s in
      elim (t.take_group s (env.drawn_id i)) [
        | ok g ↦ rest
        | err e ↦ if is_record_not_found e then ok (env.drawn_id i) else err e
      ]

  unfoldable pub gen_group_id : String → t.State → Result Error String
  gen_group_id group_id s =
      if str_eq group_id "" then draw_group_id 10 0 s else elim (t.take_group s group_id) [
        | ok g ↦ err group_id_existed
        | err e ↦ if is_record_not_found e then ok group_id else err e
      ]

  -- `joinGroup`.
  unfoldable pub join_group_as : GroupModel → String → ℕ → Result Error GroupMemberModel
  join_group_as g user_id role_level =
      callback_before_member_join_group env
        (record {
          group_id = g.group_id;
          user_id = user_id;
          nickname = "";
          face_url = "";
          role_level = role_level;
          join_time = env.now;
          join_source = join_by_invitation;
          inviter_user_id = env.actor.op_user_id;
          operator_user_id = env.actor.op_user_id;
          mute_end_time = 0;
          ex = "";
        })
        g.ex

  unfoldable pub join_all : GroupModel → ℕ → List String → Result Error (List GroupMemberModel)
  join_all g role_level [] = ok []
  join_all g role_level (u ∷ us) = do
    m ← join_group_as g u role_level
    ms ← join_all g role_level us
    ok (m ∷ ms)

  abbrev pub all_user_ids : CreateGroupReq → List String
  all_user_ids req =
      let user_ids = req.member_user_ids ++ (req.admin_user_ids ++ req.owner_user_id ∷ []) in
      if contains env.actor.op_user_id user_ids
      then user_ids
      else user_ids ++ env.actor.op_user_id ∷ []

  -- The checks of the request, before any callback.
  unfoldable pub check_create_group : CreateGroupReq → Result Error (Unit {0})
  check_create_group req = do
    fail_if (not (req.group_info.group_type == working_group)) args
    fail_if (str_eq req.group_info.group_name "") (dependency "no group name")
    fail_if (str_eq req.group_info.face_url "") (dependency "no face")
    fail_if (str_eq req.owner_user_id "") args
    check_access_v3 env.actor req.owner_user_id
    fail_if (duplicate (all_user_ids req)) args
    users ← env.get_users_info_map (all_user_ids req)
    fail_if (not (length users == length (all_user_ids req))) user_id_not_found

  -- The members of a new group, the owner first.
  unfoldable pub new_members : CreateGroupReq → GroupModel → Result Error (List GroupMemberModel)
  new_members req g = do
    owner ← join_group_as g req.owner_user_id group_owner
    admins ← join_all g group_admin req.admin_user_ids
    members ← join_all g group_ordinary_users req.member_user_ids
    ok (owner ∷ (admins ++ members))

  -- The group as it is stored.
  abbrev pub group_row : GroupModel → String → GroupModel
  group_row info id = record info {
    group_id = id;
    create_time = env.now;
    need_verification = directly;
  }

  unfoldable pub new_group :
      CreateGroupReq → t.State → Result Error (GroupModel × List GroupMemberModel)
  new_group req s = do
    check_create_group req
    info ← env.callback_before_create_group req.group_info
    id ← gen_group_id info.group_id s
    members ← new_members req (group_row info id)
    ok (group_row info id, members)

  unfoldable pub create_group_req : CreateGroupReq → t.State → Answer t.State
  create_group_req req s = guarded (new_group req s) s (λ (g, members).
      finish env (create_group t (g ∷ []) members s) (λ s'.
        may (group_created_notification g.group_id)
        ∷ must (callback_after_create_group g.group_id)
        ∷ []))

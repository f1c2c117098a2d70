-- ===== src/Group/SetMember.antt =====
-- `SetGroupMemberInfo` of internal/rpc/group/group.go. The members of the request come in one list;
-- the code takes them group by group, in the order of a map.
use root_open_im_server.Base.{
  ℕ, ◌-◌, String, Bool, true, false, not, ◌&&◌, ◌||◌, List, [], ◌∷◌, ◌++◌, map, Option, none, some,
  str_eq, ◌==◌, leb, if◌then◌else◌, is_empty, contains, keep, all, length,
}
use root_open_im_server.Base.Result.{Result, ok, err, ◌>>=◌, ◌>>◌, fail_if}
use root_open_im_server.Common.Errors.{Error, args, no_permission}
use root_open_im_server.Common.Access.{is_app_manager_uid}
use root_open_im_server.Common.Constants.{group_owner, group_admin, group_ordinary_users}
use root_open_im_server.Group.Tables.{GroupMemberModel, Tables}
use root_open_im_server.Group.Store.{MemberUpdate, update_group_members, find_group_members}
use root_open_im_server.Group.Calls.{
  Env, Call, must, may, Answer, group_member_set_to_admin_notification,
  group_member_set_to_ordinary_user_notification, group_member_info_set_notification,
  callback_after_set_group_member_info, finish, guarded, duplicate,
}

pub record SetMemberInfo : Type 0 where
  pub group_id : String
  pub user_id : String
  pub nickname : Option String
  pub face_url : Option String
  pub role_level : Option ℕ
  pub ex : Option String

abbrev pub without_face_url : SetMemberInfo → SetMemberInfo
without_face_url m = record m { face_url = none }

-- `UpdateGroupMemberMap`; the face URL goes to a field that no row is read by.
abbrev pub update_group_member_map : SetMemberInfo → MemberUpdate
update_group_member_map m = record {
  group_id = m.group_id;
  user_id = m.user_id;
  change = record {
    nickname = m.nickname;
    role_level = m.role_level;
    mute_end_time = none;
    ex = m.ex;
  };
}

unfoldable pub check_role_level : Option ℕ → Result Error (Unit {0})
check_role_level none = ok tt
check_role_level (some level) =
    if level == group_owner
    then err no_permission
    else fail_if (not (level == group_admin || level == group_ordinary_users)) args

abbrev pub check_role_levels : List SetMemberInfo → Result Error (Unit {0})
check_role_levels [] = ok tt
check_role_levels (m ∷ ms) = check_role_level m.role_level >>= λ _. check_role_levels ms

abbrev pub group_ids : List SetMemberInfo → List String
group_ids [] = []
group_ids (m ∷ ms) =
    let rest = group_ids ms in if contains m.group_id rest then rest else m.group_id ∷ rest

abbrev pub user_ids_in : String → List SetMemberInfo → List String
user_ids_in g ms = map (λ m. m.user_id) (keep (λ m. str_eq m.group_id g) ms)

-- Whether a caller with this role may change these members, the caller among them.
unfoldable pub may_change : String → ℕ → List GroupMemberModel → Bool
may_change op_user_id role members =
    if role == group_owner
    then true
    else if role == group_admin
    then all
        (λ m.
          not (m.role_level == group_owner)
          && not (m.role_level == group_admin && not (str_eq m.user_id op_user_id)))
        members
    else if role == group_ordinary_users
    then all (λ m. m.role_level == group_ordinary_users && str_eq m.user_id op_user_id) members
    else all (λ m. not (leb role m.role_level)) members

-- `opUserIndex`, as the member at it.
abbrev pub op_member_of : String → List GroupMemberModel → Option GroupMemberModel
op_member_of u [] = none
op_member_of u (m ∷ ms) = if str_eq m.user_id u then some m else op_member_of u ms

module _ (env : Env) (t : Tables) where
  -- The `switch` on the number of users that are no members.
  unfoldable pub check_found : List String → List GroupMemberModel → Result Error (Unit {0})
  check_found user_ids members =
      let absent = length user_ids - length members in
      if absent == 0
      then (if is_app_manager_uid env.actor
          then ok tt
          else elim (op_member_of env.actor.op_user_id members) [
            | none ↦ err args
            | some op ↦
                fail_if (not (may_change env.actor.op_user_id op.role_level members)) no_permission
          ])
      else if absent == 1
      then elim (op_member_of env.actor.op_user_id members) [
        | some op ↦ err args
        | none ↦ fail_if (not (is_app_manager_uid env.actor)) no_permission
      ]
      else err args

  unfoldable pub check_group : String → List SetMemberInfo → t.State → Result Error (Unit {0})
  check_group g ms s = do
    let named = user_ids_in g ms
    fail_if (duplicate named) args
    let user_ids =
        if contains env.actor.op_user_id named then named else named ++ env.actor.op_user_id ∷ []
    members ← find_group_members t g user_ids s
    check_found user_ids members

  abbrev pub check_groups : List String → List SetMemberInfo → t.State → Result Error (Unit {0})
  check_groups [] ms s = ok tt
  check_groups (g ∷ gs) ms s = check_group g ms s >>= λ _. check_groups gs ms s

  module _
      (callback_before_set_group_member_info : SetMemberInfo → Result Error SetMemberInfo) where
    abbrev pub call_back_all : List SetMemberInfo → Result Error (List SetMemberInfo)
    call_back_all [] = ok []
    call_back_all (m ∷ ms) = do
      m' ← callback_before_set_group_member_info m
      ms' ← call_back_all ms
      ok (m' ∷ ms')

    unfoldable pub check_set_members :
        List SetMemberInfo → t.State → Result Error (List SetMemberInfo)
    check_set_members ms s = do
      fail_if (is_empty ms) args
      fail_if (str_eq env.actor.op_user_id "") no_permission
      check_role_levels ms
      check_groups (group_ids ms) ms s
      call_back_all (map without_face_url ms)

    abbrev pub is_some : {A : Type 0} → Option A → Bool
    is_some none = false
    is_some (some a) = true

    abbrev pub role_notices : SetMemberInfo → List Call
    role_notices m = elim m.role_level [
      | none ↦ []
      | some level ↦
          if level == group_admin
          then may (group_member_set_to_admin_notification m.group_id m.user_id) ∷ []
          else if level == group_ordinary_users
          then may (group_member_set_to_ordinary_user_notification m.group_id m.user_id) ∷ []
          else []
    ]

    unfoldable pub member_notices : List SetMemberInfo → List Call
    member_notices [] = []
    member_notices (m ∷ ms) =
        role_notices m
        ++ ((if is_some m.nickname || is_some m.face_url || is_some m.ex
              then may (group_member_info_set_notification m.group_id m.user_id) ∷ []
              else [])
            ++ member_notices ms)

    unfoldable pub set_group_member_info : List SetMemberInfo → t.State → Answer t.State
    set_group_member_info ms s = guarded (check_set_members ms s) s (λ members.
        finish env (update_group_members t (map update_group_member_map members) s) (λ s'.
          member_notices members
          ++ map (λ m. must (callback_after_set_group_member_info m.group_id m.user_id)) members))

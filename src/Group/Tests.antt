-- ===== src/Group/Tests.antt =====
-- The group service at concrete inputs, with the tables in memory.
pub mod Actions
use root_open_im_server.Base.{
  ℕ, String, Bool, true, false, List, [], ◌∷◌, Option, none, some, str_eq, contains, ◌&&◌, ◌||◌,
  if◌then◌else◌, ◌≡◌, ◌≢◌, refl, arith,
}
use root_open_im_server.Base.Int.{ℤ, pos, negsuc}
use root_open_im_server.Base.Result.{Result, ok, err}
use root_open_im_server.Common.Errors.{Error}
use root_open_im_server.Common.Access.{Actor, check_access_v3, is_app_manager_uid}
use root_open_im_server.Group.Tables.{GroupModel, GroupMemberModel, GroupRequestModel, View}
use root_open_im_server.Group.Memory.{Rows, view_of, memory}
use root_open_im_server.Group.Memory.Laws.{memory-IsTables}
use root_open_im_server.Group.Calls.{
  Env, JoinReply, run_calls, finish, guarded, either, delete_member_and_set_conversation_seq,
  callback_before_member_join_group,
}
use root_open_im_server.Group.Store.{
  create_group, delete_group_member, find_group_members, update_group_member, transfer_group_owner,
  handler_group_request, update_group_members, update_group,
}
use root_open_im_server.Group.Create.{
  CreateGroupReq, gen_group_id, join_group_as, join_all, check_create_group, new_members, new_group,
  create_group_req,
}
use root_open_im_server.Group.Join.{InviteReq, is_manager_role, check_invite}
use root_open_im_server.Group.Respond.{
  ResponseReq, check_group_admin, accepted_member, check_response, group_application_response,
}
use root_open_im_server.Group.Members.{
  KickReq, MuteReq, may_kick, may_mute, check_kick, kick_group_member, check_mute,
  mute_group_member,
}
use root_open_im_server.Group.Admin.{TransferReq, check_transfer, transfer_owner, cancel_mute_group}
use root_open_im_server.Group.SetMember.{
  SetMemberInfo, check_role_level, may_change, check_found, check_group, check_set_members,
  member_notices, set_group_member_info,
}
use root_open_im_server.Group.Serve.{
  Request, create, invite, kick, transfer, set_members, serve, run,
}
use root_open_im_server.Group.Owners.{IsSound, is_owner}
use root_open_im_server.Group.Owners.Kept.{KeepsRoles}
use root_open_im_server.Group.Owners.Run.{AreCovered, run-IsSound}
use root_open_im_server.Group.Authority.{
  MayKick, kick_group_member_authorised, mute_group_member_authorised,
}
use root_open_im_server.Group.Transfers.{
  transfer_owner_swaps, group_application_response_once, check_invite_anybody,
}
use root_open_im_server.Group.Creation.{create_group_req_owner}
use root_open_im_server.Group.Roles.{MayChange, set_group_member_info_authorised}

abbrev no_reply : JoinReply
no_reply = record {
  mute_end_time = none;
  face_url = none;
  ex = none;
  nickname = none;
  role_level = none;
}

abbrev pub caller : String → Actor
caller u = record { op_user_id = u; manager_ids = []; im_admin_ids = [] }

abbrev pub env_of : String → Env
env_of u = record {
  actor = caller u;
  now = 1000;
  unmarshal_rights = λ ex. none;
  get_users_info_map = λ us. ok us;
  get_user_info = λ v. ok v;
  get_public_user_info = λ v. ok tt;
  populate_group_member = λ ms. ok tt;
  drawn_id = λ i. "g1";
  get_max_seq = λ id. 7;
  get_conversation_max_seq = λ id. ok 7;
  callback_before_create_group = λ g. ok g;
  callback_before_member_join_group = λ m ex. ok no_reply;
  callback_before_invite_user_to_group = λ g us. ok tt;
  callback_apply_join_group_before = λ g u. ok tt;
  send = λ e. ok tt;
}

env_of-KeepsRoles : (u : String) → KeepsRoles (env_of u)
env_of-KeepsRoles u m ex reply h = ground arith

abbrev pub group_named : String → GroupModel
group_named id = record {
  group_id = id;
  group_name = "team";
  notification = "";
  introduction = "";
  face_url = "face";
  create_time = 1000;
  ex = "";
  status = 0;
  creator_user_id = "";
  group_type = 2;
  need_verification = 2;
  look_member_info = 0;
  apply_member_friend = 0;
  notification_update_time = 0;
  notification_user_id = "";
}

abbrev pub member_as : String → ℕ → GroupMemberModel
member_as u role = record {
  group_id = "g1";
  user_id = u;
  nickname = "";
  face_url = "";
  role_level = role;
  join_time = 1000;
  join_source = 2;
  inviter_user_id = "ann";
  operator_user_id = "ann";
  mute_end_time = 0;
  ex = "";
}

abbrev pub request_of : String → GroupRequestModel
request_of u = record {
  user_id = u;
  group_id = "g1";
  handle_result = pos 0;
  req_msg = "";
  handled_msg = "";
  req_time = 1000;
  handle_user_id = "";
  handled_time = 0;
  join_source = 3;
  inviter_user_id = "";
  ex = "";
}

abbrev empty_rows : Rows
empty_rows = record { groups = []; members = []; requests = [] }

abbrev pub team : Rows
team = record {
  groups = group_named "g1" ∷ [];
  members = member_as "ann" 100 ∷ member_as "bob" 60 ∷ member_as "cid" 20 ∷ [];
  requests = request_of "dan" ∷ [];
}

empty_rows-IsSound : IsSound (view_of empty_rows)
empty_rows-IsSound = record {
  one_owner = λ g a b ha hb. absurd (ground arith);
  in_groups = λ g u h. refl;
}

abbrev new_team : CreateGroupReq
new_team = record {
  member_user_ids = "cid" ∷ [];
  admin_user_ids = "bob" ∷ [];
  owner_user_id = "ann";
  group_info = group_named "";
}

abbrev pub promote : SetMemberInfo
promote = record {
  group_id = "g1";
  user_id = "cid";
  nickname = none;
  face_url = none;
  role_level = some 60;
  ex = none;
}

abbrev day : List (Env × Request)
day =
    (env_of "ann", create new_team)
    ∷ (env_of "eve", invite (record { group_id = "g1"; invited_user_ids = "dan" ∷ []; ex = "" }))
    ∷ (
      env_of "ann",
      transfer (record { group_id = "g1"; old_owner_user_id = "ann"; new_owner_user_id = "bob" }),
    )
    ∷ (env_of "bob", kick (record { group_id = "g1"; kicked_user_ids = "ann" ∷ [] }))
    ∷ (env_of "cid", set_members (promote ∷ []) (λ m. ok m))
    ∷ []

day-AreCovered : AreCovered day
unfolding is_app_manager_uid
day-AreCovered =
    (env_of-KeepsRoles "ann", (env_of-KeepsRoles "eve", (refl, (tt, (λ m m' h. ground arith, tt)))))

run-IsSound_example : IsSound (view_of (run memory day empty_rows))
run-IsSound_example =
    run-IsSound memory memory-IsTables day empty_rows day-AreCovered empty_rows-IsSound

creates : (create_group_req (env_of "ann") memory new_team empty_rows).2 ≡ ok tt
unfolding create_group_req new_group check_create_group check_access_v3 gen_group_id new_members
    join_group_as join_all callback_before_member_join_group finish guarded create_group run_calls
creates = refl

create_group_req_owner_example :
    let s' = (create_group_req (env_of "ann") memory new_team empty_rows).0 in
    (g : GroupModel) × ((view_of empty_rows).group g.group_id ≡ none)
    × ((view_of s').group g.group_id ≡ some g)
    × ((u : String) → is_owner ((view_of s').member g.group_id u) ≡ str_eq "ann" u)
    × ((h u : String)
        → str_eq g.group_id h ≡ false
        → (view_of s').member h u ≡ (view_of empty_rows).member h u)
create_group_req_owner_example =
    create_group_req_owner (env_of "ann") memory memory-IsTables (env_of-KeepsRoles "ann")
      empty_rows new_team empty_rows-IsSound creates

-- ===== src/Group/Tests/Actions.antt =====
-- What members, administrators and owners do, at concrete inputs.
use root_open_im_server.Base.{
  ℕ, String, true, false, List, [], ◌∷◌, length, ◌↔◌, none, some, str_eq, contains, ◌&&◌, ◌||◌,
  if◌then◌else◌, ◌≡◌, ◌≢◌, refl,
}
use root_open_im_server.Base.Int.{ℤ, pos, negsuc}
use root_open_im_server.Base.Result.{Result, ok, err}
use root_open_im_server.Common.Errors.{Error}
use root_open_im_server.Common.Access.{is_app_manager_uid}
use root_open_im_server.Common.Constants.{group_status_dismissed}
use root_open_im_server.Group.Tables.{GroupModel, GroupMemberModel}
use root_open_im_server.Group.Memory.{view_of, memory}
use root_open_im_server.Group.Memory.Laws.{memory-IsTables}
use root_open_im_server.Group.Calls.{
  duplicate, run_calls, finish, guarded, delete_member_and_set_conversation_seq,
  callback_before_member_join_group,
}
use root_open_im_server.Group.Store.{
  delete_group_member, find_group_members, update_group_member, transfer_group_owner,
  handler_group_request, update_group_members,
}
use root_open_im_server.Group.Join.{InviteReq, is_manager_role, check_invite}
use root_open_im_server.Group.Respond.{
  ResponseReq, check_group_admin, accepted_member, check_response, group_application_response,
}
use root_open_im_server.Group.Members.{
  KickReq, MuteReq, may_kick, may_mute, check_kick, kick_group_member, check_mute,
  mute_group_member,
}
use root_open_im_server.Group.Admin.{TransferReq, check_transfer, transfer_owner}
use root_open_im_server.Group.SetMember.{
  SetMemberInfo, check_role_level, may_change, check_found, check_group, check_set_members,
  member_notices, set_group_member_info,
}
use root_open_im_server.Group.Authority.{
  MayKick, kick_group_member_authorised, mute_group_member_authorised,
}
use root_open_im_server.Group.Transfers.{
  transfer_owner_swaps, group_application_response_once, check_invite_anybody,
}
use root_open_im_server.Group.Roles.{MayChange, set_group_member_info_authorised}
use root_open_im_server.Group.Tests.{env_of, group_named, team, promote}

ordinary : (u : String) → is_app_manager_uid (env_of u).actor ≡ false
unfolding is_app_manager_uid
ordinary u = refl

abbrev kick_cid : KickReq
kick_cid = record { group_id = "g1"; kicked_user_ids = "cid" ∷ [] }

kicks : (kick_group_member (env_of "bob") memory kick_cid team).2 ≡ ok tt
unfolding kick_group_member check_kick finish guarded find_group_members may_kick
    delete_group_member delete_member_and_set_conversation_seq run_calls is_app_manager_uid
kicks = refl

kick_group_member_authorised_example :
    (contains "bob" kick_cid.kicked_user_ids ≡ false)
    × ((u : String)
        → contains u kick_cid.kicked_user_ids ≡ true
        → (m : GroupMemberModel) × ((view_of team).member "g1" u ≡ some m)
          × MayKick (env_of "bob") memory memory-IsTables team (ordinary "bob") "g1" m)
    × ((g u : String)
        → (view_of (kick_group_member (env_of "bob") memory kick_cid team).0).member g u ≡ (
            if str_eq "g1" g && contains u kick_cid.kicked_user_ids
            then none
            else (view_of team).member g u))
kick_group_member_authorised_example =
    kick_group_member_authorised (env_of "bob") memory memory-IsTables team (ordinary "bob")
      kick_cid kicks

abbrev mute_cid : MuteReq
mute_cid = record { group_id = "g1"; user_id = "cid"; muted_seconds = 60 }

mutes : (mute_group_member (env_of "bob") memory mute_cid team).2 ≡ ok tt
unfolding mute_group_member check_mute finish guarded may_mute update_group_member run_calls
    is_app_manager_uid
mutes = refl

mute_group_member_authorised_example :
    (m : GroupMemberModel) × ((view_of team).member "g1" "cid" ≡ some m)
    × (op : GroupMemberModel) × ((view_of team).member "g1" "bob" ≡ some op)
    × (m.role_level ≢ 100)
    × ((m.role_level ≡ 60 → op.role_level ≡ 100))
    × ((m.role_level ≡ 20 → is_manager_role op.role_level ≡ true))
    × ((view_of (mute_group_member (env_of "bob") memory mute_cid team).0).member "g1" "cid"
        ≡ some (record m { mute_end_time = 61000 }))
mute_group_member_authorised_example =
    mute_group_member_authorised (env_of "bob") memory memory-IsTables team (ordinary "bob")
      mute_cid mutes

abbrev to_cid : TransferReq
to_cid = record { group_id = "g1"; old_owner_user_id = "ann"; new_owner_user_id = "cid" }

transfers : (transfer_owner (env_of "ann") memory to_cid team).2 ≡ ok tt
unfolding transfer_owner check_transfer finish guarded find_group_members transfer_group_owner
    run_calls is_app_manager_uid
transfers = refl

transfer_owner_swaps_example :
    (m : GroupMemberModel) × (x : GroupMemberModel) × ((view_of team).member "g1" "ann" ≡ some m)
    × ((view_of team).member "g1" "cid" ≡ some x)
    × (m.role_level ≡ 100)
    × (to_cid.old_owner_user_id ≡ "ann")
    × ((view_of (transfer_owner (env_of "ann") memory to_cid team).0).member "g1" "ann"
        ≡ some (record m { role_level = x.role_level }))
    × ((view_of (transfer_owner (env_of "ann") memory to_cid team).0).member "g1" "cid"
        ≡ some (record x { role_level = m.role_level }))
    × ((g u : String)
        → (str_eq "g1" g && (str_eq "ann" u || str_eq "cid" u)) ≡ false
        → (view_of (transfer_owner (env_of "ann") memory to_cid team).0).member g u
          ≡ (view_of team).member g u)
transfer_owner_swaps_example =
    transfer_owner_swaps (env_of "ann") memory memory-IsTables team to_cid (ordinary "ann")
      transfers

abbrev answer_dan : ℤ → ResponseReq
answer_dan z = record { group_id = "g1"; from_user_id = "dan"; handle_result = z }

answers : (group_application_response (env_of "bob") memory (answer_dan (pos 1)) team).2 ≡ ok tt
unfolding group_application_response check_response check_group_admin accepted_member
    callback_before_member_join_group finish guarded handler_group_request run_calls
    is_app_manager_uid
answers = refl

group_application_response_once_example :
    let s' = (group_application_response (env_of "bob") memory (answer_dan (pos 1)) team).0 in
    (e : Error) × (group_application_response (env_of "ann") memory (answer_dan (negsuc 0)) s'
      ≡ (s', [], err e))
group_application_response_once_example =
    group_application_response_once (env_of "bob") (env_of "ann") memory memory-IsTables team
      (answer_dan (pos 1)) (answer_dan (negsuc 0)) answers refl refl

abbrev ours : GroupModel
ours = group_named "g1"

abbrev invite_dan : InviteReq
invite_dan = record { group_id = "g1"; invited_user_ids = "dan" ∷ []; ex = "" }

abbrev nobody : String
nobody = ""

abbrev no_role : ℕ
no_role = 0

check_invite_anybody_example :
    (check_invite (env_of "eve") memory invite_dan team ≡ ok (ours, nobody, no_role)) ↔ (
      (invite_dan.invited_user_ids ≢ [])
      × (duplicate invite_dan.invited_user_ids ≡ false)
      × (memory.take_group team "g1" ≡ ok ours)
      × (ours.status ≢ group_status_dismissed)
      × ((users : List String) × ((env_of "eve").get_users_info_map invite_dan.invited_user_ids
            ≡ ok users)
          × (length users ≡ 1))
      × ((env_of "eve").callback_before_invite_user_to_group "g1" invite_dan.invited_user_ids
          ≡ ok tt)
      × (nobody ≡ nobody)
      × (no_role ≡ no_role))
check_invite_anybody_example =
    check_invite_anybody (env_of "eve") memory team invite_dan ours nobody no_role

abbrev as_asked : SetMemberInfo → Result Error SetMemberInfo
as_asked m = ok m

-- An ordinary member makes itself an administrator.
promotes : (set_group_member_info (env_of "cid") memory as_asked (promote ∷ []) team).2 ≡ ok tt
unfolding set_group_member_info check_set_members check_role_level check_group check_found
    may_change find_group_members finish guarded update_group_members member_notices run_calls
    is_app_manager_uid
promotes = refl

set_group_member_info_authorised_example :
    (m : GroupMemberModel) × ((view_of team).member "g1" "cid" ≡ some m)
    × (op : GroupMemberModel) × ((view_of team).member "g1" "cid" ≡ some op)
    × MayChange "cid" op m
set_group_member_info_authorised_example =
    set_group_member_info_authorised (env_of "cid") memory memory-IsTables team (ordinary "cid")
      as_asked (promote ∷ []) promotes "g1" "cid" refl

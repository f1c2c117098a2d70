-- ===== src/Group/Serve.antt =====
-- The requests that change groups, and their service one after another; every request comes with
-- its own caller, clock and outside.
use root_open_im_server.Base.{String, Bool, List, [], ◌∷◌}
use root_open_im_server.Base.Result.{Result}
use root_open_im_server.Common.Errors.{Error}
use root_open_im_server.Group.Tables.{Tables}
use root_open_im_server.Group.Calls.{Env, Answer}
use root_open_im_server.Group.Create.{CreateGroupReq, create_group_req}
use root_open_im_server.Group.Join.{InviteReq, JoinReq, invite_user_to_group, join_group}
use root_open_im_server.Group.Respond.{ResponseReq, group_application_response}
use root_open_im_server.Group.Members.{
  KickReq, MuteReq, kick_group_member, quit_group, mute_group_member, cancel_mute_group_member,
}
use root_open_im_server.Group.Admin.{
  TransferReq, GroupInfoForSet, transfer_owner, dismiss, mute_group, cancel_mute_group,
  set_group_info,
}
use root_open_im_server.Group.SetMember.{SetMemberInfo, set_group_member_info}

pub data Request : Type 0 where
  create : CreateGroupReq → Request
  invite : InviteReq → Request
  join : JoinReq → Request
  respond : ResponseReq → Request
  kick : KickReq → Request
  quit : String → String → Request
  mute_member : MuteReq → Request
  cancel_mute_member : String → String → Request
  transfer : TransferReq → Request
  dissolve : String → Bool → Request
  mute cancel_mute : String → Request
  set_info : GroupInfoForSet → (GroupInfoForSet → Result Error GroupInfoForSet) → Request
  set_members : List SetMemberInfo → (SetMemberInfo → Result Error SetMemberInfo) → Request

module _ (t : Tables) where
  unfoldable pub serve : Env → Request → t.State → Answer t.State
  serve env (create r) s = create_group_req env t r s
  serve env (invite r) s = invite_user_to_group env t r s
  serve env (join r) s = join_group env t r s
  serve env (respond r) s = group_application_response env t r s
  serve env (kick r) s = kick_group_member env t r s
  serve env (quit g u) s = quit_group env t g u s
  serve env (mute_member r) s = mute_group_member env t r s
  serve env (cancel_mute_member g u) s = cancel_mute_group_member env t g u s
  serve env (transfer r) s = transfer_owner env t r s
  serve env (dissolve g b) s = dismiss env t g b s
  serve env (mute g) s = mute_group env t g s
  serve env (cancel_mute g) s = cancel_mute_group env t g s
  serve env (set_info r c) s = set_group_info env t c r s
  serve env (set_members ms c) s = set_group_member_info env t c ms s

  abbrev pub run : List (Env × Request) → t.State → t.State
  run [] s = s
  run ((env, r) ∷ rs) s = run rs (serve env r s).0

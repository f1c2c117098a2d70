-- ===== src/Group/Owners/Run.antt =====
-- The soundness of what is stored holds through every sequence of requests.
use root_open_im_server.Base.{false, List, [], ◌∷◌, ◌≡◌}
use root_open_im_server.Base.Result.{Result, ok}
use root_open_im_server.Common.Errors.{Error}
use root_open_im_server.Common.Access.{is_app_manager_uid}
use root_open_im_server.Group.Tables.{Tables, IsTables}
use root_open_im_server.Group.Calls.{Env}
use root_open_im_server.Group.Serve.{
  Request, create, invite, join, respond, kick, quit, mute_member, cancel_mute_member, transfer,
  dissolve, mute, cancel_mute, set_info, set_members, serve, run,
}
use root_open_im_server.Group.SetMember.{SetMemberInfo}
use root_open_im_server.Group.Owners.{IsSound}
use root_open_im_server.Group.Owners.Kept.{KeepsRoles}
use root_open_im_server.Group.Owners.Joins.{
  invite_user_to_group-IsSound, join_group-IsSound, group_application_response-IsSound,
}
use root_open_im_server.Group.Owners.Changes.{
  kick_group_member-IsSound, quit_group-IsSound, mute_group_member-IsSound,
  cancel_mute_group_member-IsSound, mute_group-IsSound, cancel_mute_group-IsSound, dismiss-IsSound,
  set_group_info-IsSound,
}
use root_open_im_server.Group.Owners.Transfer.{transfer_owner-IsSound}
use root_open_im_server.Group.Owners.Members.{set_group_member_info-IsSound}
use root_open_im_server.Group.Owners.Create.{create_group_req-IsSound}

-- A callback before a change of a member leaves the role that was asked for.
abbrev pub LeavesRole : (SetMemberInfo → Result Error SetMemberInfo) → Type 0
LeavesRole callback = (m m' : SetMemberInfo) → callback m ≡ ok m' → m'.role_level ≡ m.role_level

-- The callbacks set no roles, and a group is not transferred by a manager.
abbrev pub IsCovered : Env → Request → Type 0
IsCovered env (create r) = KeepsRoles env
IsCovered env (invite r) = KeepsRoles env
IsCovered env (join r) = KeepsRoles env
IsCovered env (respond r) = KeepsRoles env
IsCovered env (kick r) = Unit
IsCovered env (quit g u) = Unit
IsCovered env (mute_member r) = Unit
IsCovered env (cancel_mute_member g u) = Unit
IsCovered env (transfer r) = is_app_manager_uid env.actor ≡ false
IsCovered env (dissolve g b) = Unit
IsCovered env (mute g) = Unit
IsCovered env (cancel_mute g) = Unit
IsCovered env (set_info r c) = Unit
IsCovered env (set_members ms c) = LeavesRole c

abbrev pub AreCovered : List (Env × Request) → Type 0
AreCovered [] = Unit
AreCovered ((env, r) ∷ rs) = IsCovered env r × AreCovered rs

module _ (t : Tables) (laws : IsTables t) where
  serve-IsSound :
      (env : Env) (r : Request) (s : t.State)
      → IsCovered env r
      → IsSound (t.view s)
      → IsSound (t.view (serve t env r s).0)
  unfolding serve
  serve-IsSound env (create r) s h sound = create_group_req-IsSound env t laws h s r sound
  serve-IsSound env (invite r) s h sound = invite_user_to_group-IsSound t laws env h s sound r
  serve-IsSound env (join r) s h sound = join_group-IsSound t laws env h s sound r
  serve-IsSound env (respond r) s h sound =
      group_application_response-IsSound t laws env h s sound r
  serve-IsSound env (kick r) s h sound = kick_group_member-IsSound t laws env s sound r
  serve-IsSound env (quit g u) s h sound = quit_group-IsSound t laws env s sound g u
  serve-IsSound env (mute_member r) s h sound = mute_group_member-IsSound t laws env s sound r
  serve-IsSound env (cancel_mute_member g u) s h sound =
      cancel_mute_group_member-IsSound t laws env s sound g u
  serve-IsSound env (transfer r) s h sound = transfer_owner-IsSound t laws env s r sound h
  serve-IsSound env (dissolve g b) s h sound = dismiss-IsSound t laws env s sound g b
  serve-IsSound env (mute g) s h sound = mute_group-IsSound t laws env s sound g
  serve-IsSound env (cancel_mute g) s h sound = cancel_mute_group-IsSound t laws env s sound g
  serve-IsSound env (set_info r c) s h sound = set_group_info-IsSound t laws env s sound c r
  serve-IsSound env (set_members ms c) s h sound =
      set_group_member_info-IsSound c h env t laws s ms sound

  -- Whatever requests are served, in any order, no group comes to have two owners, and only groups
  -- that exist have members, as long as the callbacks set no roles and no manager transfers a group.
  pub run-IsSound :
      (rs : List (Env × Request)) (s : t.State)
      → AreCovered rs
      → IsSound (t.view s)
      → IsSound (t.view (run t rs s))
  run-IsSound [] s h sound = sound
  run-IsSound ((env, r) ∷ rs) s (covered, h) sound =
      run-IsSound rs (serve t env r s).0 h (serve-IsSound env r s covered sound)

-- ===== src/Group/Owners/Changes.antt =====
-- Removals, mutes, changes of members and transfers keep the soundness of what is stored.
use root_open_im_server.Base.{ℕ, String, Bool, true, false, List, [], refl, sym}
use root_open_im_server.Base.Result.{Result}
use root_open_im_server.Common.Errors.{Error}
use root_open_im_server.Common.Constants.{group_status_dismissed}
use root_open_im_server.Group.Tables.{GroupChange, View, Tables, IsTables, names}
use root_open_im_server.Group.Store.{
  delete_group_member, update_group_member, update_group, muted_time_change, status_change,
}
use root_open_im_server.Group.Store.Laws.{dismissed_view}
use root_open_im_server.Group.Store.Outcomes.{
  delete_group_member_some, update_group_member-Tries, update_group-Tries, dismiss_group-Tries,
}
use root_open_im_server.Group.Calls.{Env, Call, finish}
use root_open_im_server.Group.Owners.{
  IsSound, Follows, Follows-IsSound, trans-Follows, drop_members-Follows, change_member-Follows,
  change_group-Follows,
}
use root_open_im_server.Group.Owners.Kept.{either_keeps, guarded_keeps, write_keeps, finish_state}
use root_open_im_server.Group.Members.{
  KickReq, MuteReq, kick_group_member, quit_group, mute_group_member, cancel_mute_group_member,
}
use root_open_im_server.Group.Admin.{
  GroupInfoForSet, dismiss, mute_group, cancel_mute_group, set_group_info,
}
use mathlib.Core.Path.{subst}

dismissed_view-Follows : (g : String) (b : Bool) (v : View) → Follows v (dismissed_view g b v)
dismissed_view-Follows g true v =
    trans-Follows v _ _ (change_group-Follows g (status_change group_status_dismissed) v)
      (drop_members-Follows (names []) g _)
dismissed_view-Follows g false v = change_group-Follows g (status_change group_status_dismissed) v

module _ (t : Tables) (laws : IsTables t) (env : Env) (s : t.State)
    (sound : IsSound (t.view s)) where
  muted :
      (g u : String) (n : ℕ) (calls : t.State → List Call)
      → IsSound (t.view (finish env (update_group_member t g u (muted_time_change n) s) calls).0)
  muted g u n calls =
      write_keeps t laws IsSound env s calls
        (update_group_member-Tries t laws g u (muted_time_change n)) sound
        (Follows-IsSound (t.view s) _
          (change_member-Follows g u (muted_time_change n) (t.view s) refl) sound)

  removed :
      (g : String) (us : List String) (calls : t.State → List Call)
      → IsSound (t.view (finish env (delete_group_member t g us s) calls).0)
  removed g us calls =
      let (p, named, dropped) = delete_group_member_some t laws g us s in
      subst (λ x. IsSound (t.view x)) (sym (finish_state env (delete_group_member t g us s) calls))
        (subst IsSound (sym dropped)
          (Follows-IsSound (t.view s) _ (drop_members-Follows p g (t.view s)) sound))

  pub kick_group_member-IsSound :
      (req : KickReq) → IsSound (t.view (kick_group_member env t req s).0)
  unfolding kick_group_member
  kick_group_member-IsSound req =
      guarded_keeps (λ s'. IsSound (t.view s')) _ s _ sound (λ a checked. removed _ _ _)

  pub quit_group-IsSound : (g u : String) → IsSound (t.view (quit_group env t g u s).0)
  unfolding quit_group
  quit_group-IsSound g u =
      guarded_keeps (λ s'. IsSound (t.view s')) _ s _ sound (λ user checked. removed _ _ _)

  pub mute_group_member-IsSound :
      (req : MuteReq) → IsSound (t.view (mute_group_member env t req s).0)
  unfolding mute_group_member
  mute_group_member-IsSound req =
      guarded_keeps (λ s'. IsSound (t.view s')) _ s _ sound (λ m checked. muted _ _ _ _)

  pub cancel_mute_group_member-IsSound :
      (g u : String) → IsSound (t.view (cancel_mute_group_member env t g u s).0)
  unfolding cancel_mute_group_member
  cancel_mute_group_member-IsSound g u =
      guarded_keeps (λ s'. IsSound (t.view s')) _ s _ sound (λ m checked. muted _ _ _ _)

  changed :
      (g : String) (c : GroupChange) (calls : t.State → List Call)
      → IsSound (t.view (finish env (update_group t g c s) calls).0)
  changed g c calls =
      write_keeps t laws IsSound env s calls (update_group-Tries t laws g c) sound
        (Follows-IsSound (t.view s) _ (change_group-Follows g c (t.view s)) sound)

  pub mute_group-IsSound : (g : String) → IsSound (t.view (mute_group env t g s).0)
  unfolding mute_group
  mute_group-IsSound g =
      guarded_keeps (λ s'. IsSound (t.view s')) _ s _ sound (λ a checked. changed _ _ _)

  pub cancel_mute_group-IsSound : (g : String) → IsSound (t.view (cancel_mute_group env t g s).0)
  unfolding cancel_mute_group
  cancel_mute_group-IsSound g =
      guarded_keeps (λ s'. IsSound (t.view s')) _ s _ sound (λ a checked. changed _ _ _)

  pub dismiss-IsSound : (g : String) (b : Bool) → IsSound (t.view (dismiss env t g b s).0)
  unfolding dismiss
  dismiss-IsSound g b =
      guarded_keeps (λ s'. IsSound (t.view s')) _ s _ sound
        (λ owner checked.
          write_keeps t laws IsSound env s _ (dismiss_group-Tries t laws g b) sound
            (Follows-IsSound (t.view s) _ (dismissed_view-Follows g b (t.view s)) sound))

  pub set_group_info-IsSound :
      (callback : GroupInfoForSet → Result Error GroupInfoForSet) (req : GroupInfoForSet)
      → IsSound (t.view (set_group_info env t callback req s).0)
  unfolding set_group_info
  set_group_info-IsSound callback req =
      guarded_keeps (λ s'. IsSound (t.view s')) _ s _ sound
        (λ (info, g) checked.
          either_keeps (λ s'. IsSound (t.view s')) _ _ _ (λ on. sound) (λ off. changed _ _ _))

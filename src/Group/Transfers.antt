-- ===== src/Group/Transfers.antt =====
-- What a transfer of a group, and what the answer to a request to join, leave behind.
use root_open_im_server.Base.{
  ℕ, String, true, false, List, ◌≢◌, ◌↔◌, length, Option-cases, ◌&&◌, ◌||◌, [], Option, none, some,
  str_eq, ◌≡◌, refl, sym, ap, ◌∙◌, arith, inl, inr, eq_iff, str_eq_refl,
}
use root_open_im_server.Base.Int.{ℤ, pos, negsuc, ltb_ℤ}
use root_open_im_server.Base.Result.{ok, err, Result-cases}
use root_open_im_server.Common.Errors.{Error}
use root_open_im_server.Common.Access.{UserRights, is_app_manager_uid, verify_rights, rights_of}
use root_open_im_server.Common.Constants.{group_owner, group_status_dismissed}
use root_open_im_server.Group.Tables.{
  GroupModel, GroupMemberModel, GroupRequestModel, View, Tables, IsTables, handle_request,
}
use root_open_im_server.Group.Store.Laws.{
  transfer_group_owner-Does, handler_group_request-Does, put_member,
}
use root_open_im_server.Group.Calls.{Env, duplicate}
use root_open_im_server.Group.Owners.Transfer.{transfer_checked}
use root_open_im_server.Group.Authority.{handler_done, guarded_refused}
use root_open_im_server.Group.Admin.{TransferReq, check_transfer, transfer_owner}
use root_open_im_server.Group.Join.{InviteReq, check_invite}
use root_open_im_server.Group.Respond.{
  ResponseReq, is_agree, is_refuse, is_handled, check_response, group_application_response,
}

-- Without an error of TransferGroupOwner for a caller that is no manager, the caller was the owner;
-- then the two users have each other's roles, and all other members theirs.
pub transfer_owner_swaps :
    (env : Env) (t : Tables) (laws : IsTables t) (s : t.State) (req : TransferReq)
    → is_app_manager_uid env.actor ≡ false
    → (transfer_owner env t req s).2 ≡ ok tt
    → (m : GroupMemberModel) × (x : GroupMemberModel) × ((t.view s).member req.group_id
          req.old_owner_user_id
        ≡ some m)
      × ((t.view s).member req.group_id req.new_owner_user_id ≡ some x)
      × (m.role_level ≡ group_owner)
      × (req.old_owner_user_id ≡ env.actor.op_user_id)
      × ((t.view (transfer_owner env t req s).0).member req.group_id req.old_owner_user_id
          ≡ some (record m { role_level = x.role_level }))
      × ((t.view (transfer_owner env t req s).0).member req.group_id req.new_owner_user_id
          ≡ some (record x { role_level = m.role_level }))
      × ((g u : String)
          → (str_eq req.group_id g
              && (str_eq req.old_owner_user_id u || str_eq req.new_owner_user_id u))
            ≡ false
          → (t.view (transfer_owner env t req s).0).member g u ≡ (t.view s).member g u)
unfolding transfer_owner
transfer_owner_swaps env t laws s req ordinary h =
    let old_id = req.old_owner_user_id in
    let new_id = req.new_owner_user_id in
    let (level, passed, stored) =
      handler_done t env (check_transfer env t req s) s _ _ _
        (λ l. transfer_group_owner-Does t laws req.group_id old_id new_id l) h in
    let (m, x, differ, old_found, new_found, owns, caller, same) =
      transfer_checked t laws env s req level ordinary passed in
    let (group, user) = laws.member_key s req.group_id old_id m old_found in
    (
      m,
      x,
      old_found,
      new_found,
      owns,
      sym user ∙ caller,
      ap (λ v. View.member v req.group_id old_id) stored
          ∙ ground (arith, eq_iff new_id old_id, str_eq_refl req.group_id, str_eq_refl old_id),
      ap (λ v. View.member v req.group_id new_id) stored
          ∙ ground (arith, eq_iff old_id new_id, str_eq_refl req.group_id, str_eq_refl new_id),
      λ g u other. ap (λ v. View.member v g u) stored ∙ ground arith,
    )

responded :
    (env : Env) (t : Tables) (laws : IsTables t) (s : t.State) (req : ResponseReq)
    (a : Option GroupMemberModel)
    → check_response env t req s ≡ ok a
    → (r : GroupRequestModel) × ((t.view s).request req.group_id req.from_user_id ≡ some r)
      × (is_handled r.handle_result ≡ false)
      × ((is_agree req.handle_result || is_refuse req.handle_result) ≡ true)
unfolding check_response
responded env t laws s req a h =
    elim (Result-cases (t.take_request s req.group_id req.from_user_id)) [
      | inr (e, missing) ↦ absurd (ground arith)
      | inl (r, taken) ↦ (
        r,
        laws.request_taken s req.group_id req.from_user_id r taken,
        ground arith,
        ground arith,
      )
    ]

answered_handled : (z : ℤ) → (is_agree z || is_refuse z) ≡ true → is_handled z ≡ true
answered_handled (pos n) h = ground arith
answered_handled (negsuc n) h = refl

put_member_request :
    (m : Option GroupMemberModel) (v : View) → View.request (put_member m v) ≡ v.request
put_member_request none v = refl
put_member_request (some m) v = refl

-- Once a request to join is answered without an error, no later answer to it changes anything: it
-- ends with an error, whoever gives it.
pub group_application_response_once :
    (env env' : Env) (t : Tables) (laws : IsTables t) (s : t.State) (req req' : ResponseReq)
    → (group_application_response env t req s).2 ≡ ok tt
    → req'.group_id ≡ req.group_id
    → req'.from_user_id ≡ req.from_user_id
    → (e : Error) × (group_application_response env' t req'
          (group_application_response env t req s).0
        ≡ ((group_application_response env t req s).0, [], err e))
unfolding group_application_response
group_application_response_once env env' t laws s req req' h group user =
    let s' = (group_application_response env t req s).0 in
    let (m, passed, stored) =
      handler_done t env (check_response env t req s) s _ _ _
        (λ m. handler_group_request-Does t laws req.group_id req.from_user_id req.handle_result m)
        h in
    let (r, asked, open_then, answer) = responded env t laws s req m passed in
    let there : (t.view s').request req.group_id req.from_user_id
        ≡ some (record r { handle_result = req.handle_result }) =
      ap (λ v. View.request v req.group_id req.from_user_id) stored
      ∙ ap (λ f. f req.group_id req.from_user_id)
          (put_member_request m
            (handle_request req.group_id req.from_user_id req.handle_result (t.view s)))
      ∙ ground (arith, str_eq_refl req.group_id, str_eq_refl req.from_user_id) in
    elim (Result-cases (check_response env' t req' s')) [
      | inr (e, refused) ↦ (e, guarded_refused (check_response env' t req' s') s' _ e refused)
      | inl (m', again) ↦
          let (r', asked', open_now, answer') = responded env' t laws s' req' m' again in
          absurd (ground (arith, answered_handled req.handle_result answer))
    ]

never_negative :
    (unmarshal : String → Option UserRights) (ex : String)
    → ltb_ℤ (verify_rights unmarshal ex) (pos 0) ≡ false
unfolding verify_rights rights_of
never_negative unmarshal ex = elim (Option-cases (unmarshal ex)) [
  | inl unread ↦ ground arith
  | inr (r, read) ↦ ground arith
]

-- The checks of InviteUserToGroup pass exactly if there are users to invite, no two the same, the
-- group is there and not dismissed, all the users are known, and the callback lets them in. The
-- caller has no part in it, member or not: it is taken for a user without an id and a role.
pub check_invite_anybody :
    (env : Env) (t : Tables) (s : t.State) (req : InviteReq) (g : GroupModel) (id : String)
    (role : ℕ)
    → (check_invite env t req s ≡ ok (g, id, role)) ↔ (
        (req.invited_user_ids ≢ [])
        × (duplicate req.invited_user_ids ≡ false)
        × (t.take_group s req.group_id ≡ ok g)
        × (g.status ≢ group_status_dismissed)
        × ((users : List String) × (env.get_users_info_map req.invited_user_ids ≡ ok users)
            × (length users ≡ length req.invited_user_ids))
        × (env.callback_before_invite_user_to_group req.group_id req.invited_user_ids ≡ ok tt)
        × (id ≡ "")
        × (role ≡ 0))
unfolding check_invite
check_invite_anybody env t s req g id role =
    let open_to_all = never_negative env.unmarshal_rights req.ex in
    elim (Result-cases (t.take_group s req.group_id)) [
      | inr (e, absent) ↦ ground arith
      | inl (found, there) ↦ elim (Result-cases (env.get_users_info_map req.invited_user_ids)) [
        | inr (e, unknown) ↦ ground arith
        | inl (users, known) ↦
            elim (Result-cases
              (env.callback_before_invite_user_to_group req.group_id req.invited_user_ids)) [
                | inr (e, refused) ↦ ground arith
                | inl (x, allowed) ↦ ground arith
              ]
      ]
    ]

-- ===== src/Group/Owners/Joins.antt =====
-- Invitations, requests to join and their answers keep the soundness of what is stored.
use root_open_im_server.Base.{
  ℕ, String, Bool, true, false, List, [], ◌∷◌, Option, none, some, all, ◌≡◌, sym, ap, ◌∙◌, arith,
  inl, inr, Bool-cases, str_eq_refl,
}
use root_open_im_server.Base.Result.{ok, Result-cases}
use root_open_im_server.Group.Tables.{
  GroupModel, GroupMemberModel, GroupRequestModel, View, Tables, IsTables, put_members,
  put_requests, handle_request, drop_request,
}
use root_open_im_server.Group.Store.{create_group, create_group_request}
use root_open_im_server.Group.Store.Laws.{put_groups-nil, drop_requests, put_member}
use root_open_im_server.Group.Store.Outcomes.{
  create_group-Tries, create_group_request-Tries, handler_group_request-Tries,
}
use root_open_im_server.Group.Calls.{Env, Call, finish, callback_before_member_join_group}
use root_open_im_server.Group.Owners.{IsSound, Follows-IsSound, is_new_in, put_members-Follows}
use root_open_im_server.Group.Owners.Kept.{
  either_keeps, guarded_keeps, write_keeps, KeepsRoles, callback_before_member_join_group_same,
  invited_members_new,
}
use root_open_im_server.Group.Join.{
  InviteReq, JoinReq, ordinary_member, check_invite, in_group, invite_user_to_group, check_join,
  join_group,
}
use root_open_im_server.Group.Respond.{
  ResponseReq, is_agree, check_response, accepted_member, group_application_response,
}
use mathlib.Core.Path.{subst}

-- Requests have no part in it.
requests-IsSound :
    (v : View) (f : String → String → Option GroupRequestModel)
    → IsSound v
    → IsSound (record v { request = f })
requests-IsSound v f sound = record { one_owner = sound.one_owner; in_groups = sound.in_groups }

drop_requests-IsSound :
    (rs : List GroupRequestModel) (v : View) → IsSound v → IsSound (drop_requests rs v)
drop_requests-IsSound [] v sound = sound
drop_requests-IsSound (r ∷ rs) v sound =
    drop_requests-IsSound rs (drop_request r.group_id r.user_id v) (requests-IsSound v _ sound)

put_requests-IsSound :
    (rs : List GroupRequestModel) (v : View)
    → IsSound v
    → IsSound (put_requests rs (drop_requests rs v))
put_requests-IsSound rs v sound = requests-IsSound _ _ (drop_requests-IsSound rs v sound)

-- New members of a group that exists, none of them its owner.
joined-IsSound :
    (g : String) (x : GroupModel) (ms : List GroupMemberModel) (v : View)
    → v.group g ≡ some x
    → all (is_new_in g) ms ≡ true
    → IsSound v
    → IsSound (put_members ms v)
joined-IsSound g x ms v found new = Follows-IsSound v _ (put_members-Follows g x ms v found new)

module _ (t : Tables) (laws : IsTables t) (env : Env) (keeps : KeepsRoles env) (s : t.State)
    (sound : IsSound (t.view s)) where
  taken_invite :
      (req : InviteReq) (a : GroupModel × String × ℕ)
      → check_invite env t req s ≡ ok a
      → (x : GroupModel) × ((t.view s).group req.group_id ≡ some x)
  unfolding check_invite
  taken_invite req a h = elim (Result-cases (t.take_group s req.group_id)) [
    | inl (g, taken) ↦ (g, laws.group_taken s req.group_id g taken)
    | inr (e, refused) ↦ absurd (ground arith)
  ]

  accepted_new :
      (req : ResponseReq) (g : GroupModel) (r : GroupRequestModel) (m : GroupMemberModel)
      (present : Bool)
      → accepted_member env t req g r present ≡ ok (some m)
      → all (is_new_in req.group_id) (m ∷ []) ≡ true
  unfolding accepted_member
  accepted_new req g r m true h = absurd (ground arith)
  accepted_new req g r m false h = elim (Bool-cases (is_agree req.handle_result)) [
    | inr other ↦ absurd (ground arith)
    | inl agree ↦
        let base : GroupMemberModel =
          record (ordinary_member req.group_id req.from_user_id r.inviter_user_id
            env.actor.op_user_id r.join_source env.now) { ex = r.ex } in
        elim (Result-cases (callback_before_member_join_group env base g.ex)) [
          | inr (e, refused) ↦ absurd (ground arith)
          | inl (x, called) ↦
              let (group, user, role) =
                callback_before_member_join_group_same env keeps base x g.ex called in
              ground (arith, str_eq_refl req.group_id)
        ]
  ]

  answered :
      (req : ResponseReq) (member : Option GroupMemberModel)
      → check_response env t req s ≡ ok member
      → IsSound (
          put_member member
            (handle_request req.group_id req.from_user_id req.handle_result (t.view s)))
  unfolding check_response
  answered req none h = requests-IsSound _ _ sound
  answered req (some m) h = elim (Result-cases (t.take_group s req.group_id)) [
    | inr (e, refused) ↦ absurd (ground arith)
    | inl (g, taken) ↦ elim (Result-cases (t.take_request s req.group_id req.from_user_id)) [
      | inr (e, refused) ↦ absurd (ground arith)
      | inl (r, asked) ↦ elim (Result-cases (in_group env t req.group_id req.from_user_id s)) [
        | inr (e, refused) ↦ absurd (ground arith)
        | inl (present, looked) ↦
            let accepted : accepted_member env t req g r present ≡ ok (some m) = ground arith in
            joined-IsSound req.group_id g (m ∷ []) _ (laws.group_taken s req.group_id g taken)
              (accepted_new req g r m present accepted) (requests-IsSound _ _ sound)
      ]
    ]
  ]

  -- Members that come into a group that exists.
  members_in :
      (g : String) (x : GroupModel) (ms : List GroupMemberModel) (calls : t.State → List Call)
      → (t.view s).group g ≡ some x
      → all (is_new_in g) ms ≡ true
      → IsSound (t.view (finish env (create_group t [] ms s) calls).0)
  members_in g x ms calls found new =
      write_keeps t laws IsSound env s calls (create_group-Tries t laws [] ms) sound (
        joined-IsSound g x ms _ (ap (λ v. View.group v g) (put_groups-nil (t.view s)) ∙ found) new
          (subst IsSound (sym (put_groups-nil (t.view s))) sound))

  asked :
      (rs : List GroupRequestModel) (calls : t.State → List Call)
      → IsSound (t.view (finish env (create_group_request t rs s) calls).0)
  asked rs calls =
      write_keeps t laws IsSound env s calls (create_group_request-Tries t laws rs) sound
        (put_requests-IsSound rs (t.view s) sound)

  pub invite_user_to_group-IsSound :
      (req : InviteReq) → IsSound (t.view (invite_user_to_group env t req s).0)
  unfolding invite_user_to_group
  invite_user_to_group-IsSound req =
      guarded_keeps (λ s'. IsSound (t.view s')) _ s _ sound
        (λ a checked.
          let (x, found) = taken_invite req a checked in
          either_keeps (λ s'. IsSound (t.view s')) _ _ _ (λ on. asked _ _)
            (λ off.
              guarded_keeps (λ s'. IsSound (t.view s')) _ s _ sound
                (λ members joined. members_in req.group_id x members _ found (
                  invited_members_new env t keeps req a.1 a.0.ex req.invited_user_ids members
                    joined))))

  ordinary_new :
      (g : GroupModel) (user inviter operator : String) (source now : ℕ) (m : GroupMemberModel)
      → callback_before_member_join_group env
          (ordinary_member g.group_id user inviter operator source now)
          g.ex
        ≡ ok m
      → all (is_new_in g.group_id) (m ∷ []) ≡ true
  ordinary_new g user inviter operator source now m joined =
      let (group, by, role) = callback_before_member_join_group_same env keeps _ m g.ex joined in
      ground (arith, str_eq_refl g.group_id)

  taken_join :
      (req : JoinReq) (u : String) (g : GroupModel)
      → check_join env t req s ≡ ok (u, g)
      → (t.view s).group g.group_id ≡ some g
  unfolding check_join
  taken_join req u g h = elim (Result-cases (t.take_group s req.group_id)) [
    | inr (e, refused) ↦ absurd (ground arith)
    | inl (x, taken) ↦
        let found = laws.group_taken s req.group_id x taken in
        let key = laws.group_key s req.group_id x found in
        let same : x ≡ g = ground arith in
        ap (t.view s).group (sym (ap (λ y. GroupModel.group_id y) same) ∙ key)
        ∙ found
        ∙ ap some same
  ]

  pub join_group-IsSound : (req : JoinReq) → IsSound (t.view (join_group env t req s).0)
  unfolding join_group
  join_group-IsSound req =
      guarded_keeps (λ s'. IsSound (t.view s')) _ s _ sound
        (λ (u, g) checked.
          let found = taken_join req u g checked in
          either_keeps (λ s'. IsSound (t.view s')) _ _ _
            (λ on.
              guarded_keeps (λ s'. IsSound (t.view s')) _ s _ sound
                (λ m joined.
                  members_in g.group_id g (m ∷ []) _ found (ordinary_new g _ _ _ _ _ m joined)))
            (λ off. asked _ _))

  pub group_application_response-IsSound :
      (req : ResponseReq) → IsSound (t.view (group_application_response env t req s).0)
  unfolding group_application_response
  group_application_response-IsSound req =
      guarded_keeps (λ s'. IsSound (t.view s')) _ s _ sound
        (λ member checked.
          write_keeps t laws IsSound env s _
            (handler_group_request-Tries t laws req.group_id req.from_user_id req.handle_result
              member)
            sound (answered req member checked))

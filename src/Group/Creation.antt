-- ===== src/Group/Creation.antt =====
-- What CreateGroup leaves behind.
use root_open_im_server.Base.{
  String, true, false, List, [], ◌∷◌, none, some, str_eq, all, ◌≡◌, sym, ap, ◌∙◌, arith, inl, inr,
  eq_iff, Bool-cases, str_eq_refl,
}
use root_open_im_server.Base.Result.{ok}
use root_open_im_server.Common.Constants.{group_owner}
use root_open_im_server.Group.Tables.{
  GroupModel, GroupMemberModel, View, Tables, IsTables, put_groups, put_members,
}
use root_open_im_server.Group.Store.Laws.{create_group-Does}
use root_open_im_server.Group.Calls.{Env}
use root_open_im_server.Group.Owners.{IsSound, is_owner, is_new_in}
use root_open_im_server.Group.Owners.Kept.{KeepsRoles}
use root_open_im_server.Group.Owners.Create.{created_owner, elsewhere, new_group_parts}
use root_open_im_server.Group.Authority.{handler_done}
use root_open_im_server.Group.Create.{CreateGroupReq, new_group, create_group_req}

owner_alone :
    (g : GroupModel) (o : GroupMemberModel) (ms : List GroupMemberModel) (v : View)
    (sound : IsSound v) (fresh : v.group g.group_id ≡ none) (home : o.group_id ≡ g.group_id)
    (new : all (is_new_in g.group_id) ms ≡ true) (role : o.role_level ≡ group_owner) (u : String)
    → is_owner ((put_members (o ∷ ms) (put_groups (g ∷ []) v)).member g.group_id u)
      ≡ str_eq o.user_id u
owner_alone g o ms v sound fresh home new role u =
    let absent = sound.in_groups g.group_id u fresh in
    elim (Bool-cases (str_eq o.user_id u)) [
      | inl same ↦ ground (arith, eq_iff o.group_id g.group_id)
      | inr other ↦
          elim (Bool-cases
            (is_owner ((put_members (o ∷ ms) (put_groups (g ∷ []) v)).member g.group_id u))) [
              | inr lacks ↦ lacks ∙ sym other
              | inl owner ↦
                  let mine = created_owner g o ms v sound fresh home new u owner in
                  absurd (ground (arith, eq_iff o.user_id u))
            ]
    ]

-- Without an error of CreateGroup there is a new group, under an id that no group had; its only owner
-- is the one asked for; and the members of all other groups are those of before. Before, only groups
-- that exist have members, and the callback before a member joins sets no role.
pub create_group_req_owner :
    (env : Env) (t : Tables) (laws : IsTables t) (keeps : KeepsRoles env) (s : t.State)
    (req : CreateGroupReq)
    → IsSound (t.view s)
    → (create_group_req env t req s).2 ≡ ok tt
    → (g : GroupModel) × ((t.view s).group g.group_id ≡ none)
      × ((t.view (create_group_req env t req s).0).group g.group_id ≡ some g)
      × ((u : String)
          → is_owner ((t.view (create_group_req env t req s).0).member g.group_id u)
            ≡ str_eq req.owner_user_id u)
      × ((h u : String)
          → str_eq g.group_id h ≡ false
          → (t.view (create_group_req env t req s).0).member h u ≡ (t.view s).member h u)
unfolding create_group_req
create_group_req_owner env t laws keeps s req sound h =
    let ((g, ms), passed, stored) =
      handler_done t env (new_group env t req s) s _ _ _
        (λ a. create_group-Does t laws (a.0 ∷ []) a.1) h in
    let (o, rest, split, fresh, home, user, role, new) =
      new_group_parts env t laws keeps s req g ms passed in
    let stored' = stored ∙ ap (λ xs. put_members xs (put_groups (g ∷ []) (t.view s))) split in
    (
      g,
      fresh,
      ap (λ v. View.group v g.group_id) stored' ∙ ground (arith, str_eq_refl g.group_id),
      λ u.
          ap (λ v. is_owner (View.member v g.group_id u)) stored'
          ∙ owner_alone g o rest (t.view s) sound fresh home new role u
          ∙ ap (λ k. str_eq k u) user,
      λ k u other.
          ap (λ v. View.member v k u) stored'
          ∙ elsewhere g o rest (t.view s) sound fresh home new k u other,
    )

-- ===== src/Group/Store.antt =====
-- The writes of pkg/common/db/controller/group.go, with the cache keys that they delete, and the
-- reads of pkg/common/db/cache/group.go that are made of others.
pub mod Laws
pub mod Outcomes
pub mod Found
use root_open_im_server.Base.{
  ℕ, String, Bool, true, false, ◌&&◌, List, [], ◌∷◌, ◌++◌, map, Option, none, some, if◌then◌else◌,
  is_empty,
}
use root_open_im_server.Base.Int.{ℤ}
use root_open_im_server.Base.Result.{Result, ok, err, ◌>>=◌}
use root_open_im_server.Common.Errors.{Error, is_record_not_found, record_not_found}
use root_open_im_server.Common.Constants.{group_owner, group_status_dismissed}
use root_open_im_server.Group.Tables.{
  GroupModel, GroupMemberModel, GroupRequestModel, GroupChange, MemberChange, CacheKey, groups_info,
  group_members_hash, groups_member_num, group_member_ids, group_all_role_level, group_role_level,
  group_members_info, joined_group_id, Done, Tables,
}

abbrev pub unchanged_group : GroupChange
unchanged_group = record {
  group_name = none;
  notification = none;
  notification_update_time = none;
  notification_user_id = none;
  introduction = none;
  face_url = none;
  need_verification = none;
  look_member_info = none;
  apply_member_friend = none;
  ex = none;
  status = none;
}

abbrev pub unchanged_member : MemberChange
unchanged_member = record { nickname = none; role_level = none; mute_end_time = none; ex = none }

-- `UpdateGroupStatusMap` and `UpdateGroupMemberMutedTimeMap`.
abbrev pub status_change : ℕ → GroupChange
status_change n = record unchanged_group { status = some n }

abbrev pub muted_time_change : ℕ → MemberChange
muted_time_change n = record unchanged_member { mute_end_time = some n }

abbrev pub role_change : ℕ → MemberChange
role_change n = record unchanged_member { role_level = some n }

abbrev pub is_update_role_level : MemberChange → Bool
is_update_role_level c = elim c.role_level [ none ↦ false | some level ↦ true ]

-- `BatchUpdateGroupMember`.
pub record MemberUpdate : Type 0 where
  pub group_id : String
  pub user_id : String
  pub change : MemberChange

abbrev pub next : {S : Type 0} → (S → Done S) → Done S → Done S
next w (s, ok _) = w s
next w (s, err e) = (s, err e)

abbrev pub chain : {S : Type 0} → (S → Done S) → (S → Done S) → S → Done S
chain w v s = next v (w s)

abbrev pub pass : {S : Type 0} → S → Done S
pass s = (s, ok tt)

abbrev pub new_group_keys : List GroupModel → List CacheKey
new_group_keys [] = []
new_group_keys (g ∷ gs) =
    groups_info g.group_id
    ∷ group_members_hash g.group_id
    ∷ group_members_hash g.group_id
    ∷ groups_member_num g.group_id
    ∷ group_member_ids g.group_id
    ∷ group_all_role_level g.group_id
    ∷ new_group_keys gs

abbrev pub new_member_keys : List GroupMemberModel → List CacheKey
new_member_keys [] = []
new_member_keys (m ∷ ms) =
    group_members_hash m.group_id
    ∷ groups_member_num m.group_id
    ∷ group_member_ids m.group_id
    ∷ joined_group_id m.user_id
    ∷ group_members_info m.group_id m.user_id
    ∷ group_all_role_level m.group_id
    ∷ new_member_keys ms

abbrev pub update_keys : List MemberUpdate → List CacheKey
update_keys [] = []
update_keys (u ∷ us) =
    (if is_update_role_level u.change then group_all_role_level u.group_id ∷ [] else [])
    ++ group_members_info u.group_id u.user_id ∷ group_members_hash u.group_id ∷ update_keys us

module _ (t : Tables) where
  abbrev pub create_some_groups : List GroupModel → t.State → Done t.State
  create_some_groups [] = pass
  create_some_groups (g ∷ gs) = t.create_groups (g ∷ gs)

  abbrev pub create_some_members : List GroupMemberModel → t.State → Done t.State
  create_some_members [] = pass
  create_some_members (m ∷ ms) = t.create_members (m ∷ ms)

  unfoldable pub create_group : List GroupModel → List GroupMemberModel → t.State → Done t.State
  create_group gs ms =
      if is_empty gs && is_empty ms
      then pass
      else t.transaction (
          chain (create_some_groups gs)
            (chain (create_some_members ms) (t.exec_del (new_group_keys gs ++ new_member_keys ms))))

  unfoldable pub update_group : String → GroupChange → t.State → Done t.State
  update_group g c = chain (t.update_group g c) (t.exec_del (groups_info g ∷ []))

  abbrev pub empty_group : String → t.State → Done t.State
  empty_group g s = elim (t.member_ids s g) [
    | err e ↦ (s, err e)
    | ok user_ids ↦
        chain (t.delete_members g [])
          (t.exec_del (
            map joined_group_id user_ids
            ++ group_member_ids g
              ∷ groups_member_num g
              ∷ group_members_hash g
              ∷ group_all_role_level g
              ∷ (map (group_members_info g) user_ids ++ groups_info g ∷ [])))
          s
  ]

  unfoldable pub dismiss_group : String → Bool → t.State → Done t.State
  dismiss_group g delete_member = t.transaction (
      chain (t.update_group g (status_change group_status_dismissed))
        (if delete_member then empty_group g else t.exec_del (groups_info g ∷ [])))

  unfoldable pub delete_group_member : String → List String → t.State → Done t.State
  delete_group_member g user_ids = chain (t.delete_members g user_ids) (
      t.exec_del (
        group_members_hash g
        ∷ group_member_ids g
        ∷ groups_member_num g
        ∷ (map joined_group_id user_ids
            ++ (map (group_members_info g) user_ids ++ group_all_role_level g ∷ []))))

  abbrev pub create_member : String → Option GroupMemberModel → t.State → Done t.State
  create_member g none = pass
  create_member g (some m) = chain (t.create_members (m ∷ [])) (
      t.exec_del (
        group_members_hash g
        ∷ group_members_info g m.user_id
        ∷ group_member_ids g
        ∷ groups_member_num g
        ∷ joined_group_id m.user_id
        ∷ group_role_level g m.role_level
        ∷ []))

  unfoldable pub handler_group_request :
      String → String → ℤ → Option GroupMemberModel → t.State → Done t.State
  handler_group_request g user_id handle_result m =
      t.transaction (chain (t.update_handler g user_id handle_result) (create_member g m))

  unfoldable pub transfer_group_owner : String → String → String → ℕ → t.State → Done t.State
  transfer_group_owner g old_owner_user_id new_owner_user_id role_level = t.transaction (
      chain (t.update_member g old_owner_user_id (role_change role_level)) (
        chain (t.update_member g new_owner_user_id (role_change group_owner)) (
          t.exec_del (
            group_members_info g old_owner_user_id
            ∷ group_members_info g new_owner_user_id
            ∷ group_all_role_level g
            ∷ group_members_hash g
            ∷ []))))

  unfoldable pub update_group_member : String → String → MemberChange → t.State → Done t.State
  update_group_member g user_id c = chain (t.update_member g user_id c) (
      t.exec_del (
        group_members_info g user_id
        ∷ (if is_update_role_level c then group_all_role_level g ∷ [] else [])))

  abbrev pub update_members : List MemberUpdate → t.State → Done t.State
  update_members [] = pass
  update_members (u ∷ us) =
      chain (t.update_member u.group_id u.user_id u.change) (update_members us)

  unfoldable pub update_group_members : List MemberUpdate → t.State → Done t.State
  update_group_members us = t.transaction (chain (update_members us) (t.exec_del (update_keys us)))

  abbrev pub delete_requests : List GroupRequestModel → t.State → Done t.State
  delete_requests [] = pass
  delete_requests (r ∷ rs) = chain (t.delete_request r.group_id r.user_id) (delete_requests rs)

  unfoldable pub create_group_request : List GroupRequestModel → t.State → Done t.State
  create_group_request rs = t.transaction (chain (delete_requests rs) (t.create_requests rs))

  -- `FindGroupMembers`: a user that is no member is passed over.
  unfoldable pub find_group_members :
      String → List String → t.State → Result Error (List GroupMemberModel)
  find_group_members g [] s = ok []
  find_group_members g (u ∷ us) s =
      let rest = find_group_members g us s in
      elim (t.take_member s g u) [
        | ok m ↦ rest >>= λ ms. ok (m ∷ ms)
        | err e ↦ if is_record_not_found e then rest else err e
      ]

  abbrev pub first_of : List GroupMemberModel → Result Error GroupMemberModel
  first_of [] = err record_not_found
  first_of (m ∷ ms) = ok m

  unfoldable pub take_group_owner : String → t.State → Result Error GroupMemberModel
  take_group_owner g s = do
    user_ids ← t.role_level_ids s g group_owner
    members ← find_group_members g user_ids s
    first_of members

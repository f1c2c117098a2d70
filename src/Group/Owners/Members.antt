-- ===== src/Group/Owners/Members.antt =====
-- `SetGroupMemberInfo` keeps the soundness of what is stored.
use root_open_im_server.Base.{
  ℕ, Bool, true, false, not, List, [], ◌∷◌, map, Option, none, some, all, ◌≡◌, refl, arith, inl,
  inr,
}
use root_open_im_server.Base.Result.{Result, ok, bind-ok, Result-cases}
use root_open_im_server.Common.Errors.{Error}
use root_open_im_server.Group.Tables.{MemberChange, View, Tables, IsTables}
use root_open_im_server.Group.Store.{MemberUpdate}
use root_open_im_server.Group.Store.Laws.{change_members}
use root_open_im_server.Group.Store.Outcomes.{update_group_members-Tries}
use root_open_im_server.Group.Calls.{Env}
use root_open_im_server.Group.Owners.{
  IsSound, Follows, Follows-IsSound, refl-Follows, trans-Follows, is_owner_role,
  change_member-Follows,
}
use root_open_im_server.Group.Owners.Kept.{guarded_keeps, write_keeps}
use root_open_im_server.Group.SetMember.{
  SetMemberInfo, update_group_member_map, without_face_url, check_role_level, check_role_levels,
  check_groups, group_ids, call_back_all, check_set_members, set_group_member_info,
}

-- Changes that make nobody an owner.
abbrev pub makes_no_owner : List MemberUpdate → Bool
makes_no_owner us = all (λ u. not (is_owner_role (MemberChange.role_level u.change))) us

change_members-Follows :
    (us : List MemberUpdate) (v : View) → makes_no_owner us ≡ true → Follows v (change_members us v)
change_members-Follows [] v h = refl-Follows v
change_members-Follows (u ∷ us) v h =
    trans-Follows v _ _ (change_member-Follows u.group_id u.user_id u.change v (ground arith))
      (change_members-Follows us _ (ground arith))

check_role_level_low :
    (level : Option ℕ) {a : Unit {0}} → check_role_level level ≡ ok a → is_owner_role level ≡ false
unfolding check_role_level
check_role_level_low none h = refl
check_role_level_low (some level) h = ground arith

module _ (callback : SetMemberInfo → Result Error SetMemberInfo)
    (plain : (m m' : SetMemberInfo) → callback m ≡ ok m' → m'.role_level ≡ m.role_level) (env : Env)
    (t : Tables) where
  called_back :
      (ms ms' : List SetMemberInfo)
      → check_role_levels ms ≡ ok tt
      → call_back_all env t callback (map without_face_url ms) ≡ ok ms'
      → makes_no_owner (map update_group_member_map ms') ≡ true
  unfolding check_role_level
  called_back [] ms' h called = ground arith
  called_back (m ∷ ms) ms' h called =
      let (a, level, h1) = bind-ok {m = check_role_level m.role_level} h in
      let (m', replied, called1) = bind-ok called in
      let (rest, others, called2) = bind-ok called1 in
      let ih = called_back ms rest h1 others in
      let same = plain (without_face_url m) m' replied in
      let low = check_role_level_low m.role_level level in ground arith

  checked_parts :
      (s : t.State) (ms ms' : List SetMemberInfo)
      → check_set_members env t callback ms s ≡ ok ms'
      → (check_role_levels ms ≡ ok tt)
        × (call_back_all env t callback (map without_face_url ms) ≡ ok ms')
  unfolding check_set_members
  checked_parts s ms ms' h = elim (Result-cases (check_role_levels ms)) [
    | inr (e, refused) ↦ absurd (ground arith)
    | inl (a, levels) ↦ elim (Result-cases (check_groups env t (group_ids ms) ms s)) [
      | inr (e, refused) ↦ absurd (ground arith)
      | inl (b, groups) ↦ (levels, ground arith)
    ]
  ]

  pub set_group_member_info-IsSound :
      (laws : IsTables t) (s : t.State) (ms : List SetMemberInfo)
      → IsSound (t.view s)
      → IsSound (t.view (set_group_member_info env t callback ms s).0)
  unfolding set_group_member_info
  set_group_member_info-IsSound laws s ms sound =
      guarded_keeps (λ s'. IsSound (t.view s')) _ s _ sound
        (λ ms' checked.
          let (levels, called) = checked_parts s ms ms' checked in
          write_keeps t laws IsSound env s _
            (update_group_members-Tries t laws (map update_group_member_map ms')) sound
            (Follows-IsSound (t.view s) _
              (change_members-Follows (map update_group_member_map ms') (t.view s)
                (called_back ms ms' levels called))
              sound))

-- ===== src/Group/Owners/Transfer.antt =====
-- Transfers by the owner keep the soundness of what is stored.
use root_open_im_server.Base.{
  ℕ, String, true, false, [], ◌∷◌, some, str_eq, ◌≡◌, ◌≢◌, sym, ◌∙◌, arith, inl, inr, eq_iff,
  Bool-cases, Option-cases, str_eq_refl,
}
use root_open_im_server.Base.Result.{ok, Result-cases}
use root_open_im_server.Common.Access.{is_app_manager_uid}
use root_open_im_server.Common.Constants.{group_owner}
use root_open_im_server.Group.Tables.{GroupMemberModel, View, Tables, IsTables, change_member}
use root_open_im_server.Group.Store.{find_group_members, role_change}
use root_open_im_server.Group.Store.Outcomes.{transfer_group_owner-Tries}
use root_open_im_server.Group.Store.Found.{found_member}
use root_open_im_server.Group.Calls.{Env}
use root_open_im_server.Group.Owners.{IsSound, is_owner}
use root_open_im_server.Group.Owners.Kept.{guarded_keeps, write_keeps}
use root_open_im_server.Group.Members.{member_of}
use root_open_im_server.Group.Admin.{TransferReq, check_transfer, transfer_owner}
use mathlib.Core.Path.{subst}

abbrev transferred : (g old_owner new_owner : String) → ℕ → View → View
transferred g old_owner new_owner level v =
    change_member g new_owner (role_change group_owner)
      (change_member g old_owner (role_change level) v)

module _ (g old_owner new_owner : String) (m x : GroupMemberModel) (v : View) (sound : IsSound v)
    (differ : old_owner ≢ new_owner) (old_found : v.member g old_owner ≡ some m)
    (new_found : v.member g new_owner ≡ some x) (owns : m.role_level ≡ group_owner) where
  new_is_no_owner : is_owner (v.member g new_owner) ≡ false
  new_is_no_owner = elim (Bool-cases (is_owner (v.member g new_owner))) [
    | inr other ↦ other
    | inl owner ↦ absurd (differ (sound.one_owner g old_owner new_owner (ground arith) owner))
  ]

  transferred_owner :
      (a : String)
      → is_owner ((transferred g old_owner new_owner x.role_level v).member g a) ≡ true
      → a ≡ new_owner
  transferred_owner a h = elim (Bool-cases (str_eq new_owner a)) [
    | inl new ↦ ground (arith, eq_iff new_owner a)
    | inr other ↦ elim (Bool-cases (str_eq old_owner a)) [
      | inl old ↦ absurd (ground (arith, eq_iff old_owner a, new_is_no_owner, str_eq_refl g))
      | inr another ↦
          let same : old_owner ≡ a =
            sound.one_owner g old_owner a (ground arith) (ground (arith, str_eq_refl g)) in
          absurd (ground (arith, eq_iff old_owner a))
    ]
  ]

  -- After a transfer from the owner, the new owner is the only one.
  transferred-IsSound : IsSound (transferred g old_owner new_owner x.role_level v)
  transferred-IsSound = record {
    one_owner = λ h a b ha hb. elim (Bool-cases (str_eq g h)) [
      | inl here ↦
          let only : (c : String)
              → is_owner ((transferred g old_owner new_owner x.role_level v).member h c) ≡ true
              → c ≡ new_owner =
            λ c owner. transferred_owner c (
              subst
                (λ k.
                  is_owner ((transferred g old_owner new_owner x.role_level v).member k c) ≡ true)
                (sym ((eq_iff g h).0 here)) owner) in
          only a ha ∙ sym (only b hb)
      | inr there ↦ sound.one_owner h a b (ground arith) (ground arith)
    ];
    in_groups = λ h u absent. ground (arith, sound.in_groups h u absent);
  }

module _ (t : Tables) (laws : IsTables t) (env : Env) (s : t.State) where
  -- What a transfer by somebody who is no manager was checked for.
  pub transfer_checked :
      (req : TransferReq) (level : ℕ)
      → is_app_manager_uid env.actor ≡ false
      → check_transfer env t req s ≡ ok level
      → (m : GroupMemberModel) × (x : GroupMemberModel) × (req.old_owner_user_id
          ≢ req.new_owner_user_id)
        × ((t.view s).member req.group_id req.old_owner_user_id ≡ some m)
        × ((t.view s).member req.group_id req.new_owner_user_id ≡ some x)
        × (m.role_level ≡ group_owner)
        × (m.user_id ≡ env.actor.op_user_id)
        × (x.role_level ≡ level)
  unfolding check_transfer
  transfer_checked req level ordinary h =
      let us = req.old_owner_user_id ∷ req.new_owner_user_id ∷ [] in
      elim (Result-cases (find_group_members t req.group_id us s)) [
        | inr (e, failed) ↦ absurd (ground arith)
        | inl (ms, found) ↦ elim (Option-cases (member_of req.old_owner_user_id ms)) [
          | inl none_old ↦ absurd (ground arith)
          | inr (m, old_listed) ↦ elim (Option-cases (member_of req.new_owner_user_id ms)) [
            | inl none_new ↦ absurd (ground arith)
            | inr (x, new_listed) ↦
                let (old_found, old_group, old_user) =
                  found_member t laws s req.group_id us ms req.old_owner_user_id m found
                    old_listed in
                let (new_found, new_group, new_user) =
                  found_member t laws s req.group_id us ms req.new_owner_user_id x found
                    new_listed in
                (
                  m,
                  x,
                  ground (arith, eq_iff req.old_owner_user_id req.new_owner_user_id),
                  old_found,
                  new_found,
                  ground arith,
                  ground (arith, eq_iff env.actor.op_user_id m.user_id),
                  ground arith,
                )
          ]
        ]
      ]

  pub transfer_owner-IsSound :
      (req : TransferReq)
      → IsSound (t.view s)
      → is_app_manager_uid env.actor ≡ false
      → IsSound (t.view (transfer_owner env t req s).0)
  unfolding transfer_owner
  transfer_owner-IsSound req sound ordinary =
      guarded_keeps (λ s'. IsSound (t.view s')) _ s _ sound
        (λ level checked.
          let (m, x, differ, old_found, new_found, owns, caller, same) =
            transfer_checked req level ordinary checked in
          write_keeps t laws IsSound env s _ (transfer_group_owner-Tries t laws _ _ _ level) sound (
            subst
              (λ l.
                IsSound (
                  transferred req.group_id req.old_owner_user_id req.new_owner_user_id l
                    (t.view s)))
              same
              (transferred-IsSound req.group_id req.old_owner_user_id req.new_owner_user_id m x
                (t.view s) sound differ old_found new_found owns)))

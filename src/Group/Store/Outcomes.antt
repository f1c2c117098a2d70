-- ===== src/Group/Store/Outcomes.antt =====
-- Where a write ends, whether with an error or not.
use root_open_im_server.Base.{
  ℕ, String, Bool, true, List, [], ◌∷◌, Option, ◌≡◌, ◌⊎◌, refl, ◌∙◌, arith, inl, inr,
}
use root_open_im_server.Base.Int.{ℤ}
use root_open_im_server.Base.Result.{ok, err}
use root_open_im_server.Common.Constants.{group_owner}
use root_open_im_server.Group.Tables.{
  GroupModel, GroupMemberModel, GroupRequestModel, GroupChange, MemberChange, CacheKey, Done, View,
  Tables, IsTables, Does, Spares, put_groups, put_members, put_requests, change_group,
  change_member, drop_members, handle_request, names,
}
use root_open_im_server.Group.Store.{
  MemberUpdate, chain, next, create_group, update_group, dismiss_group, delete_group_member,
  handler_group_request, transfer_group_owner, update_group_member, update_group_members,
  create_group_request, role_change,
}
use root_open_im_server.Group.Store.Laws.{
  create_group-Does, dismiss_group-Does, handler_group_request-Does, transfer_group_owner-Does,
  update_group_members-Does, create_group_request-Does, change_members, drop_requests, put_member,
  dismissed_view,
}

module _ (t : Tables) (laws : IsTables t) where
  -- The write is done, or what is stored is as before.
  pub record Tries (w : t.State → Done t.State) (f : View → View) : Type 0 where
    pub tries : (s : t.State) → (t.view (w s).0 ≡ t.view s) ⊎ (t.view (w s).0 ≡ f (t.view s))

  settle :
      {w : t.State → Done t.State} {f : View → View}
      → Does t w f
      → Spares t w
      → (s : t.State) (d : Done t.State) → w s ≡ d
      → (t.view d.0 ≡ t.view s) ⊎ (t.view d.0 ≡ f (t.view s))
  settle law spared s (s', ok _) h = inr (law.does s s' h)
  settle law spared s (s', err e) h = inl (spared s s' e h)

  all_or_nothing :
      {w : t.State → Done t.State} {f : View → View} → Does t w f → Spares t w → Tries w f
  all_or_nothing {w} law spared = record { tries = λ s. settle law spared s (w s) refl }

  exec_del_after :
      (ks : List CacheKey) (d : Done t.State) → t.view (next (t.exec_del ks) d).0 ≡ t.view d.0
  exec_del_after ks (s, ok _) =
      laws.exec_del_keeps ks s (t.exec_del ks s).0 (t.exec_del ks s).1 refl
  exec_del_after ks (s, err e) = refl

  with_keys-Tries :
      {w : t.State → Done t.State} {f : View → View} (ks : List CacheKey)
      → Tries w f
      → Tries (chain w (t.exec_del ks)) f
  with_keys-Tries {w} ks law = record {
    tries = λ s. elim (law.tries s) [
      | inl same ↦ inl (exec_del_after ks (w s) ∙ same)
      | inr written ↦ inr (exec_del_after ks (w s) ∙ written)
    ];
  }

  create_group-Spares :
      (gs : List GroupModel) (ms : List GroupMemberModel) → Spares t (create_group t gs ms)
  unfolding create_group
  create_group-Spares [] [] = λ s s' e h. absurd (ground arith)
  create_group-Spares [] (m ∷ ms) = laws.transaction-Spares _
  create_group-Spares (g ∷ gs) ms = laws.transaction-Spares _

  pub create_group-Tries :
      (gs : List GroupModel) (ms : List GroupMemberModel)
      → Tries (create_group t gs ms) (λ x. put_members ms (put_groups gs x))
  create_group-Tries gs ms =
      all_or_nothing (create_group-Does t laws gs ms) (create_group-Spares gs ms)

  pub update_group-Tries :
      (g : String) (c : GroupChange) → Tries (update_group t g c) (change_group g c)
  unfolding update_group
  update_group-Tries g c =
      with_keys-Tries _ (all_or_nothing (laws.update_group-Does g c) (laws.update_group-Spares g c))

  pub dismiss_group-Tries :
      (g : String) (b : Bool) → Tries (dismiss_group t g b) (dismissed_view g b)
  unfolding dismiss_group
  dismiss_group-Tries g b =
      all_or_nothing (dismiss_group-Does t laws g b) (laws.transaction-Spares _)

  pub handler_group_request-Tries :
      (g u : String) (result : ℤ) (m : Option GroupMemberModel)
      → Tries
          (handler_group_request t g u result m)
          (λ x. put_member m (handle_request g u result x))
  unfolding handler_group_request
  handler_group_request-Tries g u result m =
      all_or_nothing (handler_group_request-Does t laws g u result m) (laws.transaction-Spares _)

  pub transfer_group_owner-Tries :
      (g old_owner new_owner : String) (level : ℕ)
      → Tries (transfer_group_owner t g old_owner new_owner level) (λ x.
        change_member g new_owner
          (role_change group_owner)
          (change_member g old_owner (role_change level) x))
  unfolding transfer_group_owner
  transfer_group_owner-Tries g old_owner new_owner level =
      all_or_nothing (transfer_group_owner-Does t laws g old_owner new_owner level)
        (laws.transaction-Spares _)

  pub update_group_member-Tries :
      (g u : String) (c : MemberChange) → Tries (update_group_member t g u c) (change_member g u c)
  unfolding update_group_member
  update_group_member-Tries g u c =
      with_keys-Tries _
        (all_or_nothing (laws.update_member-Does g u c) (laws.update_member-Spares g u c))

  pub update_group_members-Tries :
      (us : List MemberUpdate) → Tries (update_group_members t us) (change_members us)
  unfolding update_group_members
  update_group_members-Tries us =
      all_or_nothing (update_group_members-Does t laws us) (laws.transaction-Spares _)

  pub create_group_request-Tries :
      (rs : List GroupRequestModel)
      → Tries (create_group_request t rs) (λ x. put_requests rs (drop_requests rs x))
  unfolding create_group_request
  create_group_request-Tries rs =
      all_or_nothing (create_group_request-Does t laws rs) (laws.transaction-Spares _)

  deleted :
      (g : String) (us : List String) (s : t.State) (d : Done t.State)
      → t.delete_members g us s ≡ d
      → (p : (String → Bool)) × ((u : String) → p u ≡ true → names us u ≡ true)
        × (t.view d.0 ≡ drop_members p g (t.view s))
  deleted g us s (s', ok _) h =
      (names us, λ u named. named, (laws.delete_members-Does g us).does s s' h)
  deleted g us s (s', err e) h = laws.delete_members_some g us s s' e h

  -- A deletion takes away some of the members that it names, and nobody else.
  pub delete_group_member_some :
      (g : String) (us : List String) (s : t.State)
      → (p : (String → Bool)) × ((u : String) → p u ≡ true → names us u ≡ true)
        × (t.view (delete_group_member t g us s).0 ≡ drop_members p g (t.view s))
  unfolding delete_group_member
  delete_group_member_some g us s =
      let (p, named, dropped) = deleted g us s (t.delete_members g us s) refl in
      (p, named, exec_del_after _ (t.delete_members g us s) ∙ dropped)

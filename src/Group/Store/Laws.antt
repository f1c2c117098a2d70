-- ===== src/Group/Store/Laws.antt =====
-- What the writes do to what is stored.
use mathlib.Core.Path.{fun_ext}
use root_open_im_server.Base.{
  ◌++◌, if◌then◌else◌, ℕ, String, Bool, true, false, List, [], ◌∷◌, Option, none, some, ◌≡◌, refl,
  sym, ap, ◌∙◌, arith, inl, inr,
}
use root_open_im_server.Base.Int.{ℤ}
use root_open_im_server.Base.Result.{ok, err, Result-cases}
use root_open_im_server.Common.Constants.{group_owner, group_status_dismissed}
use root_open_im_server.Group.Tables.{
  GroupModel, GroupMemberModel, GroupRequestModel, GroupChange, MemberChange, CacheKey, Done, View,
  Tables, IsTables, Does, put_groups, put_members, put_requests, or_else, change_group,
  change_member, drop_members, drop_request, handle_request, names,
}
use root_open_im_server.Group.Store.{
  MemberUpdate, chain, next, pass, create_some_groups, create_some_members, create_group,
  update_group, empty_group, dismiss_group, delete_group_member, create_member,
  handler_group_request, transfer_group_owner, update_group_member, update_members, new_group_keys,
  new_member_keys, update_group_members, delete_requests, create_group_request, status_change,
  role_change,
}

next-ok :
    {S : Type 0} (v : S → Done S) (d : Done S) (s' : S)
    → next v d ≡ (s', ok tt)
    → (s1 : S) × (d ≡ (s1, ok tt)) × (v s1 ≡ (s', ok tt))
next-ok v (s1, ok _) s' h = (s1, refl, h)
next-ok v (s1, err e) s' h = absurd (ground arith)

or_else-none : {A : Type 0} (a : Option A) → or_else a none ≡ a
or_else-none none = refl
or_else-none (some a) = refl

pub put_groups-nil : (v : View) → put_groups [] v ≡ v
put_groups-nil v = ap (λ f. record v { group = f }) (fun_ext (λ g. or_else-none (v.group g)))

put_members-nil : (v : View) → put_members [] v ≡ v
put_members-nil v =
    ap (λ f. record v { member = f }) (fun_ext (λ g. fun_ext (λ u. or_else-none (v.member g u))))

-- Changes and removals, one after another.
abbrev pub change_members : List MemberUpdate → View → View
change_members [] x = x
change_members (u ∷ us) x = change_members us (change_member u.group_id u.user_id u.change x)

abbrev pub drop_requests : List GroupRequestModel → View → View
drop_requests [] x = x
drop_requests (r ∷ rs) x = drop_requests rs (drop_request r.group_id r.user_id x)

abbrev pub put_member : Option GroupMemberModel → View → View
put_member none x = x
put_member (some m) x = put_members (m ∷ []) x

abbrev pub dismissed_view : String → Bool → View → View
dismissed_view g delete_member x =
    let y = change_group g (status_change group_status_dismissed) x in
    if delete_member then drop_members (names []) g y else y

module _ (t : Tables) (laws : IsTables t) where
  chain-Does :
      {w v : t.State → Done t.State} {f g : View → View}
      → Does t w f
      → Does t v g
      → Does t (chain w v) (λ x. g (f x))
  chain-Does {w} {v} {f} {g} first second = record {
    does = λ s s' h.
        let (s1, before, after) = next-ok v (w s) s' h in
        second.does s1 s' after ∙ ap g (first.does s s1 before);
  }

  same-Does :
      {w : t.State → Done t.State} {f g : View → View}
      → Does t w f
      → ((x : View) → f x ≡ g x)
      → Does t w g
  same-Does law same = record { does = λ s s' h. law.does s s' h ∙ same (t.view s) }

  pass-Does : Does t pass (λ x. x)
  pass-Does = record { does = λ s s' h. ap t.view (ground arith) }

  -- A write of rows and the deletion of cache keys behind it.
  with_keys-Does :
      {w : t.State → Done t.State} {f : View → View} (ks : List CacheKey)
      → Does t w f
      → Does t (chain w (t.exec_del ks)) f
  with_keys-Does ks law =
      chain-Does {g = λ x. x} law
        (record { does = λ s s' h. laws.exec_del_keeps ks s s' (ok tt) h })

  create_some_groups-Does :
      (gs : List GroupModel) → Does t (create_some_groups t gs) (put_groups gs)
  create_some_groups-Does [] = same-Does pass-Does (λ x. sym (put_groups-nil x))
  create_some_groups-Does (g ∷ gs) = laws.create_groups-Does (g ∷ gs)

  create_some_members-Does :
      (ms : List GroupMemberModel) → Does t (create_some_members t ms) (put_members ms)
  create_some_members-Does [] = same-Does pass-Does (λ x. sym (put_members-nil x))
  create_some_members-Does (m ∷ ms) = laws.create_members-Does (m ∷ ms)

  transaction_keys :
      (gs : List GroupModel) (ms : List GroupMemberModel)
      → Does t
          (t.transaction (
            chain (create_some_groups t gs) (
              chain
                (create_some_members t ms)
                (t.exec_del (new_group_keys gs ++ new_member_keys ms)))))
          (λ x. put_members ms (put_groups gs x))
  transaction_keys gs ms =
      laws.transaction-Does _ _
        (chain-Does (create_some_groups-Does gs) (with_keys-Does _ (create_some_members-Does ms)))

  pub create_group-Does :
      (gs : List GroupModel) (ms : List GroupMemberModel)
      → Does t (create_group t gs ms) (λ x. put_members ms (put_groups gs x))
  unfolding create_group
  create_group-Does [] [] =
      same-Does pass-Does (λ x. sym (put_groups-nil x) ∙ sym (put_members-nil (put_groups [] x)))
  create_group-Does [] (m ∷ ms) = transaction_keys [] (m ∷ ms)
  create_group-Does (g ∷ gs) ms = transaction_keys (g ∷ gs) ms

  pub update_group-Does :
      (g : String) (c : GroupChange) → Does t (update_group t g c) (change_group g c)
  unfolding update_group
  update_group-Does g c = with_keys-Does _ (laws.update_group-Does g c)

  empty_group-Does : (g : String) → Does t (empty_group t g) (drop_members (names []) g)
  empty_group-Does g = record {
    does = λ s s' h. elim (Result-cases (t.member_ids s g)) [
      | inr (e, refused) ↦ absurd (ground arith)
      | inl (us, listed) ↦
          (with_keys-Does _ (laws.delete_members-Does g [])).does s s'
            (rw (listed, empty_group) at h)
    ];
  }

  pub dismiss_group-Does :
      (g : String) (delete_member : Bool)
      → Does t (dismiss_group t g delete_member) (dismissed_view g delete_member)
  unfolding dismiss_group
  dismiss_group-Does g true = laws.transaction-Does _ _ (
      chain-Does (laws.update_group-Does g (status_change group_status_dismissed))
        (empty_group-Does g))
  dismiss_group-Does g false =
      laws.transaction-Does _ _
        (with_keys-Does _ (laws.update_group-Does g (status_change group_status_dismissed)))

  pub delete_group_member-Does :
      (g : String) (us : List String)
      → Does t (delete_group_member t g us) (drop_members (names us) g)
  unfolding delete_group_member
  delete_group_member-Does g us = with_keys-Does _ (laws.delete_members-Does g us)

  create_member-Does :
      (g : String) (m : Option GroupMemberModel) → Does t (create_member t g m) (put_member m)
  create_member-Does g none = pass-Does
  create_member-Does g (some m) = with_keys-Does _ (laws.create_members-Does (m ∷ []))

  pub handler_group_request-Does :
      (g u : String) (result : ℤ) (m : Option GroupMemberModel)
      → Does t
          (handler_group_request t g u result m)
          (λ x. put_member m (handle_request g u result x))
  unfolding handler_group_request
  handler_group_request-Does g u result m =
      laws.transaction-Does _ _
        (chain-Does (laws.update_handler-Does g u result) (create_member-Does g m))

  pub transfer_group_owner-Does :
      (g old_owner new_owner : String) (level : ℕ)
      → Does t (transfer_group_owner t g old_owner new_owner level) (λ x.
        change_member g new_owner
          (role_change group_owner)
          (change_member g old_owner (role_change level) x))
  unfolding transfer_group_owner
  transfer_group_owner-Does g old_owner new_owner level = laws.transaction-Does _ _ (
      chain-Does (laws.update_member-Does g old_owner (role_change level))
        (with_keys-Does _ (laws.update_member-Does g new_owner (role_change group_owner))))

  pub update_group_member-Does :
      (g u : String) (c : MemberChange) → Does t (update_group_member t g u c) (change_member g u c)
  unfolding update_group_member
  update_group_member-Does g u c = with_keys-Does _ (laws.update_member-Does g u c)

  update_members-Does : (us : List MemberUpdate) → Does t (update_members t us) (change_members us)
  update_members-Does [] = pass-Does
  update_members-Does (u ∷ us) =
      chain-Does (laws.update_member-Does u.group_id u.user_id u.change) (update_members-Does us)

  pub update_group_members-Does :
      (us : List MemberUpdate) → Does t (update_group_members t us) (change_members us)
  unfolding update_group_members
  update_group_members-Does us =
      laws.transaction-Does _ _ (with_keys-Does _ (update_members-Does us))

  delete_requests-Does :
      (rs : List GroupRequestModel) → Does t (delete_requests t rs) (drop_requests rs)
  delete_requests-Does [] = pass-Does
  delete_requests-Does (r ∷ rs) =
      chain-Does (laws.delete_request-Does r.group_id r.user_id) (delete_requests-Does rs)

  pub create_group_request-Does :
      (rs : List GroupRequestModel)
      → Does t (create_group_request t rs) (λ x. put_requests rs (drop_requests rs x))
  unfolding create_group_request
  create_group_request-Does rs =
      laws.transaction-Does _ _
        (chain-Does (delete_requests-Does rs) (laws.create_requests-Does rs))

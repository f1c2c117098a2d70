-- ===== src/Group/Owners/Create.antt =====
-- `CreateGroup` keeps the soundness of what is stored.
use mathlib.Core.Path.{subst}
use root_open_im_server.Base.{
  ℕ, zero, suc, ◌+◌, String, Bool, true, false, List, [], ◌∷◌, ◌++◌, none, str_eq, ◌==◌, all, ◌≡◌,
  refl, sym, ap, ◌∙◌, arith, inl, inr, eq_iff, Bool-cases, Option-cases, str_eq_refl,
}
use root_open_im_server.Base.Result.{ok, bind-ok, Result-cases}
use root_open_im_server.Common.Errors.{is_record_not_found}
use root_open_im_server.Common.Constants.{group_owner, group_admin, group_ordinary_users}
use root_open_im_server.Group.Tables.{
  GroupModel, GroupMemberModel, View, Tables, IsTables, find_member, put_groups, put_members,
}
use root_open_im_server.Group.Store.Outcomes.{create_group-Tries}
use root_open_im_server.Group.Calls.{Env}
use root_open_im_server.Group.Owners.{IsSound, is_owner, is_new_in, find_member-all}
use root_open_im_server.Group.Owners.Kept.{
  guarded_keeps, write_keeps, KeepsRoles, callback_before_member_join_group_same,
}
use root_open_im_server.Group.Create.{
  CreateGroupReq, draw_group_id, gen_group_id, join_group_as, join_all, check_create_group,
  new_members, group_row, new_group, create_group_req,
}

-- A group that is new, with one owner.
module _ (g : GroupModel) (o : GroupMemberModel) (ms : List GroupMemberModel) (v : View)
    (sound : IsSound v) (fresh : v.group g.group_id ≡ none) (home : o.group_id ≡ g.group_id)
    (new : all (is_new_in g.group_id) ms ≡ true) where
  pub created_owner :
      (a : String)
      → is_owner ((put_members (o ∷ ms) (put_groups (g ∷ []) v)).member g.group_id a) ≡ true
      → a ≡ o.user_id
  created_owner a h =
      let absent = sound.in_groups g.group_id a fresh in
      elim (Option-cases (find_member g.group_id a ms)) [
        | inl missing ↦ ground (arith, eq_iff o.user_id a)
        | inr (m, found) ↦
            let (safe, here) = find_member-all (is_new_in g.group_id) g.group_id a ms m new found in
            ground (arith, eq_iff o.user_id a)
      ]

  pub elsewhere :
      (h a : String)
      → str_eq g.group_id h ≡ false
      → (put_members (o ∷ ms) (put_groups (g ∷ []) v)).member h a ≡ v.member h a
  elsewhere h a other = elim (Option-cases (find_member h a ms)) [
    | inl missing ↦ elim (Option-cases (v.member h a)) [
      | inl absent ↦ ground (arith, eq_iff o.group_id h, eq_iff g.group_id h)
      | inr (m, present) ↦ ground arith
    ]
    | inr (m, found) ↦
        let (safe, here) = find_member-all (is_new_in g.group_id) h a ms m new found in
        absurd (ground (arith, eq_iff m.group_id g.group_id, eq_iff g.group_id h))
  ]

  created-IsSound : IsSound (put_members (o ∷ ms) (put_groups (g ∷ []) v))
  created-IsSound = record {
    one_owner = λ h a b ha hb. elim (Bool-cases (str_eq g.group_id h)) [
      | inl here ↦
          let only : (c : String)
              → is_owner ((put_members (o ∷ ms) (put_groups (g ∷ []) v)).member h c) ≡ true
              → c ≡ o.user_id =
            λ c owner. created_owner c (
              subst
                (λ k. is_owner ((put_members (o ∷ ms) (put_groups (g ∷ []) v)).member k c) ≡ true)
                (sym ((eq_iff g.group_id h).0 here)) owner) in
          only a ha ∙ sym (only b hb)
      | inr there ↦
          sound.one_owner h a b (ap is_owner (sym (elsewhere h a there)) ∙ ha)
            (ap is_owner (sym (elsewhere h b there)) ∙ hb)
    ];
    in_groups = λ h u absent. elim (Bool-cases (str_eq g.group_id h)) [
      | inl here ↦
          absurd (elim (Option-cases (v.group h)) [
            | inl old ↦ ground arith
            | inr (x, old) ↦ ground arith
          ])
      | inr there ↦
          elsewhere h u there
          ∙ sound.in_groups h u (elim (Option-cases (v.group h)) [
            | inl old ↦ old
            | inr (x, old) ↦ absurd (ground arith)
          ])
    ];
  }

module _ (env : Env) (t : Tables) (laws : IsTables t) (keeps : KeepsRoles env) (s : t.State) where
  draw_group_id_fresh :
      (left i : ℕ) (id : String) → draw_group_id env t left i s ≡ ok id → (t.view s).group id ≡ none
  draw_group_id_fresh zero i id h = absurd (ground arith)
  draw_group_id_fresh (suc left) i id h = elim (Result-cases (t.take_group s (env.drawn_id i))) [
    | inl (g, taken) ↦ draw_group_id_fresh left (i + 1) id (ground arith)
    | inr (e, missing) ↦ elim (Bool-cases (is_record_not_found e)) [
      | inr failed ↦ absurd (ground arith)
      | inl absent ↦
          let same : env.drawn_id i ≡ id = ground arith in
          ap (t.view s).group (sym same) ∙ laws.group_absent s (env.drawn_id i) e missing absent
    ]
  ]

  gen_group_id_fresh :
      (asked id : String) → gen_group_id env t asked s ≡ ok id → (t.view s).group id ≡ none
  unfolding gen_group_id
  gen_group_id_fresh asked id h = elim (Bool-cases (str_eq asked "")) [
    | inl unnamed ↦ draw_group_id_fresh 10 0 id (ground arith)
    | inr given ↦ elim (Result-cases (t.take_group s asked)) [
      | inl (g, taken) ↦ absurd (ground arith)
      | inr (e, missing) ↦ elim (Bool-cases (is_record_not_found e)) [
        | inr failed ↦ absurd (ground arith)
        | inl absent ↦
            let same : asked ≡ id = ground arith in
            ap (t.view s).group (sym same) ∙ laws.group_absent s asked e missing absent
      ]
    ]
  ]

  joined_as :
      (g : GroupModel) (u : String) (level : ℕ) (m : GroupMemberModel)
      → join_group_as env t g u level ≡ ok m
      → (m.group_id ≡ g.group_id) × (m.user_id ≡ u) × (m.role_level ≡ level)
  unfolding join_group_as
  joined_as g u level m h = callback_before_member_join_group_same env keeps _ m g.ex h

  join_all_new :
      (g : GroupModel) (level : ℕ) (us : List String) (ms : List GroupMemberModel)
      → (level == group_owner) ≡ false
      → join_all env t g level us ≡ ok ms
      → all (is_new_in g.group_id) ms ≡ true
  unfolding join_all
  join_all_new g level [] ms low h = ground arith
  join_all_new g level (u ∷ us) ms low h =
      let (m, joined, h1) = bind-ok h in
      let (rest, others, h2) = bind-ok h1 in
      let (group, user, role) = joined_as g u level m joined in
      let ih = join_all_new g level us rest low others in ground (arith, str_eq_refl g.group_id)

  all-append :
      (p : GroupMemberModel → Bool) (xs ys : List GroupMemberModel)
      → all p xs ≡ true
      → all p ys ≡ true
      → all p (xs ++ ys) ≡ true
  all-append p [] ys h k = k
  all-append p (x ∷ xs) ys h k =
      let ih : all p xs ≡ true → all p (xs ++ ys) ≡ true = λ rest. all-append p xs ys rest k in
      ground arith

  new_members_parts :
      (req : CreateGroupReq) (g : GroupModel) (ms : List GroupMemberModel)
      → new_members env t req g ≡ ok ms
      → (o : GroupMemberModel) × (rest : List GroupMemberModel) × (ms ≡ o ∷ rest)
        × (o.group_id ≡ g.group_id)
        × (o.user_id ≡ req.owner_user_id)
        × (o.role_level ≡ group_owner)
        × (all (is_new_in g.group_id) rest ≡ true)
  unfolding new_members
  new_members_parts req g ms h =
      elim (Result-cases (join_group_as env t g req.owner_user_id group_owner)) [
        | inr (e, refused) ↦ absurd (ground arith)
        | inl (o, first) ↦ elim (Result-cases (join_all env t g group_admin req.admin_user_ids)) [
          | inr (e, refused) ↦ absurd (ground arith)
          | inl (admins, some_joined) ↦
              elim (Result-cases (join_all env t g group_ordinary_users req.member_user_ids)) [
                | inr (e, refused) ↦ absurd (ground arith)
                | inl (members, others) ↦
                    let (home, user, role) = joined_as g req.owner_user_id group_owner o first in
                    (
                      o,
                      admins ++ members,
                      ground arith,
                      home,
                      user,
                      role,
                      all-append (is_new_in g.group_id) admins members
                          (join_all_new g group_admin req.admin_user_ids admins refl some_joined)
                          (join_all_new g group_ordinary_users req.member_user_ids members refl
                            others),
                    )
              ]
        ]
      ]

  -- A new group has an id that no group has, and its owner before all others.
  pub new_group_parts :
      (req : CreateGroupReq) (g : GroupModel) (ms : List GroupMemberModel)
      → new_group env t req s ≡ ok (g, ms)
      → (o : GroupMemberModel) × (rest : List GroupMemberModel) × (ms ≡ o ∷ rest)
        × ((t.view s).group g.group_id ≡ none)
        × (o.group_id ≡ g.group_id)
        × (o.user_id ≡ req.owner_user_id)
        × (o.role_level ≡ group_owner)
        × (all (is_new_in g.group_id) rest ≡ true)
  unfolding new_group
  new_group_parts req g ms h = elim (Result-cases (check_create_group env t req)) [
    | inr (e, refused) ↦ absurd (ground arith)
    | inl (a, checked) ↦ elim (Result-cases (env.callback_before_create_group req.group_info)) [
      | inr (e, refused) ↦ absurd (ground arith)
      | inl (info, called) ↦ elim (Result-cases (gen_group_id env t info.group_id s)) [
        | inr (e, refused) ↦ absurd (ground arith)
        | inl (id, drawn) ↦ elim (Result-cases (new_members env t req (group_row env t info id))) [
          | inr (e, refused) ↦ absurd (ground arith)
          | inl (xs, joined) ↦
              let same : group_row env t info id ≡ g = ground arith in
              let listed : xs ≡ ms = ground arith in
              let (o, rest, split, home, user, role, new) =
                new_members_parts req (group_row env t info id) xs joined in
              let same_id : id ≡ g.group_id = ap (λ k. GroupModel.group_id k) same in
              (
                o,
                rest,
                sym listed ∙ split,
                ap (t.view s).group (sym same_id) ∙ gen_group_id_fresh info.group_id id drawn,
                home ∙ same_id,
                user,
                role,
                subst (λ k. all (is_new_in k) rest ≡ true) same_id new,
              )
        ]
      ]
    ]
  ]

  pub create_group_req-IsSound :
      (req : CreateGroupReq)
      → IsSound (t.view s)
      → IsSound (t.view (create_group_req env t req s).0)
  unfolding create_group_req
  create_group_req-IsSound req sound =
      guarded_keeps (λ s'. IsSound (t.view s')) _ s _ sound
        (λ (g, ms) checked.
          let (o, rest, split, fresh, home, user, role, new) = new_group_parts req g ms checked in
          write_keeps t laws IsSound env s _ (create_group-Tries t laws (g ∷ []) ms) sound (
            subst (λ xs. IsSound (put_members xs (put_groups (g ∷ []) (t.view s)))) (sym split)
              (created-IsSound g o rest (t.view s) sound fresh home new)))

-- ===== src/Group/Roles.antt =====
-- Who may change which members by `SetGroupMemberInfo`.
use root_open_im_server.Base.{
  ℕ, ◌≤◌, ◌<◌, String, Bool, true, false, ◌&&◌, List, [], ◌∷◌, ◌++◌, map, some, str_eq,
  if◌then◌else◌, contains, any, all, length, ◌≡◌, ◌≢◌, ◌⊎◌, refl, sym, ap, ◌∙◌, arith, inl, inr,
  eq_iff, Bool-cases, Option-cases,
}
use root_open_im_server.Base.Result.{Result, ok, Result-cases}
use root_open_im_server.Common.Errors.{Error}
use root_open_im_server.Common.Access.{is_app_manager_uid}
use root_open_im_server.Common.Constants.{group_owner, group_admin}
use root_open_im_server.Group.Tables.{GroupMemberModel, Tables, IsTables}
use root_open_im_server.Group.Store.{find_group_members}
use root_open_im_server.Group.Calls.{Env}
use root_open_im_server.Group.SetMember.{
  SetMemberInfo, user_ids_in, group_ids, may_change, op_member_of, check_found, check_group,
  check_groups, check_set_members, set_group_member_info, update_group_member_map,
}
use root_open_im_server.Group.Store.Laws.{update_group_members-Does}
use root_open_im_server.Group.Authority.{handler_done}

module _ (t : Tables) (laws : IsTables t) (s : t.State) (g : String) where
  found_length :
      (us : List String) (ms : List GroupMemberModel)
      → find_group_members t g us s ≡ ok ms
      → length ms ≤ length us
  unfolding find_group_members
  found_length [] ms h = ground arith
  found_length (u ∷ us) ms h = elim (Result-cases (find_group_members t g us s)) [
    | inr (e, failed) ↦ absurd (elim (Result-cases (t.take_member s g u)) [
      | inl (x, taken) ↦ ground arith
      | inr (e', missing) ↦ ground arith
    ])
    | inl (rest, others) ↦
        let ih = found_length us rest others in
        elim (Result-cases (t.take_member s g u)) [
          | inl (x, taken) ↦ ground arith
          | inr (e, missing) ↦ ground arith
        ]
  ]

  -- Where nobody is missing, what holds of all members found holds of each user's.
  found_all :
      (p : GroupMemberModel → Bool) (us : List String) (ms : List GroupMemberModel) (u : String)
      → find_group_members t g us s ≡ ok ms
      → length us ≤ length ms
      → all p ms ≡ true
      → contains u us ≡ true
      → (m : GroupMemberModel) × ((t.view s).member g u ≡ some m) × (p m ≡ true)
  unfolding find_group_members
  found_all p [] ms u h full holds listed = absurd (ground arith)
  found_all p (w ∷ us) ms u h full holds listed =
      elim (Result-cases (find_group_members t g us s)) [
        | inr (e, failed) ↦ absurd (elim (Result-cases (t.take_member s g w)) [
          | inl (x, taken) ↦ ground arith
          | inr (e', missing) ↦ ground arith
        ])
        | inl (rest, others) ↦
            let short = found_length us rest others in
            elim (Result-cases (t.take_member s g w)) [
              | inr (e, missing) ↦ absurd (ground arith)
              | inl (x, taken) ↦ elim (Bool-cases (str_eq u w)) [
                | inl this ↦ (
                  x,
                  ap ((t.view s).member g) ((eq_iff u w).0 this) ∙ laws.member_taken s g w x taken,
                  ground arith,
                )
                | inr other ↦
                    found_all p us rest u others (ground arith) (ground arith) (ground arith)
              ]
            ]
      ]

  op_found :
      (us : List String) (ms : List GroupMemberModel) (u : String) (op : GroupMemberModel)
      → find_group_members t g us s ≡ ok ms
      → op_member_of u ms ≡ some op
      → (t.view s).member g u ≡ some op
  unfolding find_group_members
  op_found [] ms u op h listed = absurd (ground arith)
  op_found (w ∷ us) ms u op h listed = elim (Result-cases (find_group_members t g us s)) [
    | inr (e, failed) ↦ absurd (elim (Result-cases (t.take_member s g w)) [
      | inl (x, taken) ↦ ground arith
      | inr (e', missing) ↦ ground arith
    ])
    | inl (rest, others) ↦ elim (Result-cases (t.take_member s g w)) [
      | inr (e, missing) ↦ op_found us rest u op others (ground arith)
      | inl (x, taken) ↦
          let here = laws.member_taken s g w x taken in
          let (group, user) = laws.member_key s g w x here in
          elim (Bool-cases (str_eq x.user_id u)) [
            | inr other ↦ op_found us rest u op others (ground arith)
            | inl mine ↦
                ap ((t.view s).member g) (sym ((eq_iff x.user_id u).0 mine) ∙ user)
                ∙ here
                ∙ ground arith
          ]
    ]
  ]

-- The caller's role against the member's.
abbrev pub MayChange : String → GroupMemberModel → GroupMemberModel → Type 0
MayChange op_user_id op m =
    (op.role_level ≡ group_owner)
    ⊎ ((op.role_level ≡ group_admin)
        × (m.role_level ≢ group_owner)
        × ((m.role_level ≡ group_admin → m.user_id ≡ op_user_id)))
    ⊎ ((m.role_level ≡ op.role_level) × (m.user_id ≡ op_user_id))
    ⊎ (m.role_level < op.role_level)

may_change-each :
    (op : String) (role : ℕ) (ms : List GroupMemberModel)
    → may_change op role ms ≡ true
    → all (λ m. may_change op role (m ∷ [])) ms ≡ true
unfolding may_change
may_change-each op role [] h = refl
may_change-each op role (m ∷ ms) h = ground (arith, may_change-each op role ms)

may_change_sound :
    (op m : GroupMemberModel) (op_user_id : String)
    → may_change op_user_id op.role_level (m ∷ []) ≡ true
    → MayChange op_user_id op m
unfolding may_change
may_change_sound op m op_user_id h = ground (arith, eq_iff m.user_id op_user_id)

abbrev pub is_named : String → String → SetMemberInfo → Bool
is_named g u x = str_eq x.group_id g && str_eq x.user_id u

contains-group_ids :
    (g u : String) (ms : List SetMemberInfo)
    → any (is_named g u) ms ≡ true
    → contains g (group_ids ms) ≡ true
contains-group_ids g u [] h = absurd (ground arith)
contains-group_ids g u (x ∷ ms) h =
    ground (arith, eq_iff x.group_id g, eq_iff g x.group_id, contains-group_ids g u ms)

contains-user_ids_in :
    (g u : String) (ms : List SetMemberInfo)
    → any (is_named g u) ms ≡ true
    → contains u (user_ids_in g ms) ≡ true
contains-user_ids_in g u [] h = absurd (ground arith)
contains-user_ids_in g u (x ∷ ms) h =
    ground (arith, eq_iff x.user_id u, eq_iff u x.user_id, contains-user_ids_in g u ms)

contains-more :
    (u w : String) (us : List String) → contains u us ≡ true → contains u (us ++ w ∷ []) ≡ true
contains-more u w [] h = absurd (ground arith)
contains-more u w (x ∷ us) h = ground (arith, contains-more u w us)

module _ (env : Env) (t : Tables) (laws : IsTables t) (s : t.State)
    (ordinary : is_app_manager_uid env.actor ≡ false) where
  check_groups_each :
      (gs : List String) (ms : List SetMemberInfo) (g : String)
      → check_groups env t gs ms s ≡ ok tt
      → contains g gs ≡ true
      → check_group env t g ms s ≡ ok tt
  check_groups_each [] ms g h listed = absurd (ground arith)
  check_groups_each (k ∷ gs) ms g h listed = elim (Result-cases (check_group env t k ms s)) [
    | inr (e, refused) ↦ absurd (ground arith)
    | inl (a, passed) ↦ elim (Bool-cases (str_eq g k)) [
      | inl this ↦ ap (λ x. check_group env t x ms s) ((eq_iff g k).0 this) ∙ passed
      | inr other ↦ check_groups_each gs ms g (ground arith) (ground arith)
    ]
  ]

  found_sound :
      (us : List String) (ms : List GroupMemberModel)
      → check_found env t us ms ≡ ok tt
      → (length us ≤ length ms)
        × (op : GroupMemberModel) × (op_member_of env.actor.op_user_id ms ≡ some op)
        × (may_change env.actor.op_user_id op.role_level ms ≡ true)
  unfolding check_found
  found_sound us ms h = elim (Option-cases (op_member_of env.actor.op_user_id ms)) [
    | inl nobody ↦ absurd (ground arith)
    | inr (op, present) ↦ (ground arith, op, present, ground arith)
  ]

  abbrev asked_ids : List String → List String
  asked_ids named =
      if contains env.actor.op_user_id named then named else named ++ env.actor.op_user_id ∷ []

  asked_more :
      (u : String) (named : List String)
      → contains u named ≡ true
      → contains u (asked_ids named) ≡ true
  asked_more u named h = elim (Bool-cases (contains env.actor.op_user_id named)) [
    | inl there ↦ ground arith
    | inr absent ↦ ground (arith, contains-more u env.actor.op_user_id named h)
  ]

  pub check_group_sound :
      (g u : String) (ms : List SetMemberInfo)
      → check_group env t g ms s ≡ ok tt
      → any (is_named g u) ms ≡ true
      → (m : GroupMemberModel) × ((t.view s).member g u ≡ some m)
        × (op : GroupMemberModel) × ((t.view s).member g env.actor.op_user_id ≡ some op)
        × MayChange env.actor.op_user_id op m
  unfolding check_group
  check_group_sound g u ms h named =
      let us = asked_ids (user_ids_in g ms) in
      let op_id = env.actor.op_user_id in
      elim (Result-cases (find_group_members t g us s)) [
        | inr (e, failed) ↦ absurd (ground arith)
        | inl (found, done) ↦
            let (full, op, present, may) = found_sound us found (ground arith) in
            let (m, here, allowed) =
              found_all t laws s g (λ x. may_change op_id op.role_level (x ∷ [])) us found u done
                full (may_change-each op_id op.role_level found may)
                (asked_more u (user_ids_in g ms) (contains-user_ids_in g u ms named)) in
            (
              m,
              here,
              op,
              op_found t laws s g us found op_id op done present,
              may_change_sound op m op_id allowed,
            )
      ]

  set_checked :
      (callback : SetMemberInfo → Result Error SetMemberInfo) (ms ms' : List SetMemberInfo)
      → check_set_members env t callback ms s ≡ ok ms'
      → check_groups env t (group_ids ms) ms s ≡ ok tt
  unfolding check_set_members
  set_checked callback ms ms' h = elim (Result-cases (check_groups env t (group_ids ms) ms s)) [
    | inr (e, refused) ↦ absurd (ground arith)
    | inl (a, passed) ↦ passed
  ]

  -- Without an error of SetGroupMemberInfo for a caller that is no manager, every member that the
  -- request names is one, and the caller is a member of the same group: the owner; or an
  -- administrator and not over the owner nor over another administrator; or over nobody else; or of a
  -- higher role.
  pub set_group_member_info_authorised :
      (callback : SetMemberInfo → Result Error SetMemberInfo) (ms : List SetMemberInfo)
      → (set_group_member_info env t callback ms s).2 ≡ ok tt
      → (g u : String) → any (is_named g u) ms ≡ true
      → (m : GroupMemberModel) × ((t.view s).member g u ≡ some m)
        × (op : GroupMemberModel) × ((t.view s).member g env.actor.op_user_id ≡ some op)
        × MayChange env.actor.op_user_id op m
  unfolding set_group_member_info
  set_group_member_info_authorised callback ms h g u named =
      let (ms', passed, stored) =
        handler_done t env (check_set_members env t callback ms s) s _ _ _
          (λ xs. update_group_members-Does t laws (map update_group_member_map xs)) h in
      check_group_sound g u ms
        (check_groups_each (group_ids ms) ms g (set_checked callback ms ms' passed)
          (contains-group_ids g u ms named))
        named

-- ===== src/Group/Authority.antt =====
-- Who may do what in a group, and what is stored then.
use root_open_im_server.Base.{
  ℕ, ◌+◌, ◌*◌, String, true, false, ◌&&◌, List, [], ◌∷◌, ◌++◌, Option, none, some, str_eq,
  if◌then◌else◌, contains, is_empty, ◌≡◌, ◌≢◌, ◌⊎◌, refl, sym, ap, ◌∙◌, arith, inl, inr, eq_iff,
  Bool-cases, Option-cases,
}
use root_open_im_server.Base.Result.{Result, ok, err, Result-cases}
use root_open_im_server.Common.Errors.{Error}
use root_open_im_server.Common.Access.{is_app_manager_uid}
use root_open_im_server.Common.Constants.{group_owner, group_admin, group_ordinary_users}
use root_open_im_server.Group.Tables.{GroupMemberModel, Done, View, Tables, IsTables, Does}
use root_open_im_server.Group.Store.{find_group_members, muted_time_change}
use root_open_im_server.Group.Store.Laws.{delete_group_member-Does, update_group_member-Does}
use root_open_im_server.Group.Store.Found.{found_member}
use root_open_im_server.Group.Calls.{Env, Call, Answer, finish, guarded}
use root_open_im_server.Group.Members.{
  KickReq, MuteReq, member_of, may_kick, may_mute, check_kicked, check_kick, kick_group_member,
  check_mute, mute_group_member,
}
use root_open_im_server.Group.Join.{is_manager_role}

finish_done :
    (env : Env) {S : Type 0} (d : Done S) (calls : S → List Call)
    → (finish env d calls).2 ≡ ok tt
    → (d.1 ≡ ok tt) × ((finish env d calls).0 ≡ d.0)
unfolding finish
finish_done env (s, ok _) calls h = (refl, refl)
finish_done env (s, err e) calls h = absurd (ground arith)

guarded_done :
    {S A : Type 0} (r : Result Error A) (s : S) (k : A → Answer S)
    → (guarded r s k).2 ≡ ok tt
    → (a : A) × (r ≡ ok a) × (guarded r s k ≡ k a)
unfolding guarded
guarded_done (ok a) s k h = (a, refl, refl)
guarded_done (err e) s k h = absurd (ground arith)

pub guarded_refused :
    {S A : Type 0} (r : Result Error A) (s : S) (k : A → Answer S) (e : Error)
    → r ≡ err e
    → guarded r s k ≡ (s, [], err e)
unfolding guarded
guarded_refused (ok a) s k e h = absurd (ground arith)
guarded_refused (err e') s k e h = let same : e' ≡ e = ground arith in ap (λ x. (s, [], err x)) same

pair_eta : {S : Type 0} (d : Done S) → d.1 ≡ ok tt → d ≡ (d.0, ok tt)
pair_eta (s, r) h = ap (λ x. (s, x)) h

-- A handler of one check and one write that answers without an error has passed the check and done
-- the write.
pub handler_done :
    (t : Tables) (env : Env) {A : Type 0} (r : Result Error A) (s : t.State)
    (w : A → t.State → Done t.State) (f : A → View → View) (calls : A → t.State → List Call)
    → ((a : A) → Does t (w a) (f a))
    → (guarded r s (λ a. finish env (w a s) (calls a))).2 ≡ ok tt
    → (a : A) × (r ≡ ok a)
      × (t.view (guarded r s (λ a. finish env (w a s) (calls a))).0 ≡ f a (t.view s))
handler_done t env {A} r s w f calls law h =
    let k : A → Answer t.State = λ a. finish env (w a s) (calls a) in
    let (a, passed, same) = guarded_done r s k h in
    let (wrote, there) = finish_done env (w a s) (calls a) (ap (λ x. x.2) (sym same) ∙ h) in
    (
      a,
      passed,
      ap (λ x. t.view x.0) same
          ∙ ap t.view there
          ∙ (law a).does s (w a s).0 (pair_eta (w a s) wrote),
    )

module _ (env : Env) (t : Tables) (laws : IsTables t) (s : t.State)
    (ordinary : is_app_manager_uid env.actor ≡ false) where
  -- A caller that may remove this member: the owner, or an administrator and an ordinary member.
  abbrev pub MayKick : String → GroupMemberModel → Type 0
  MayKick g m =
      (op : GroupMemberModel) × ((t.view s).member g env.actor.op_user_id ≡ some op)
      × ((op.role_level ≡ group_owner)
          ⊎ ((op.role_level ≡ group_admin) × (is_manager_role m.role_level ≡ false)))

  kicked_one :
      (op_member : Option GroupMemberModel) (ms : List GroupMemberModel) (us : List String)
      (u : String)
      → check_kicked env t op_member ms us ≡ ok tt
      → contains u us ≡ true
      → (m : GroupMemberModel) × (member_of u ms ≡ some m)
        × (op : GroupMemberModel) × (op_member ≡ some op)
        × (may_kick op.role_level m.role_level ≡ ok tt)
  kicked_one op_member ms [] u h listed = absurd (ground arith)
  kicked_one op_member ms (w ∷ us) u h listed = elim (Option-cases (member_of w ms)) [
    | inl missing ↦ absurd (ground arith)
    | inr (m, found) ↦ elim (Option-cases op_member) [
      | inl absent ↦ absurd (ground arith)
      | inr (op, present) ↦ elim (Result-cases (may_kick op.role_level m.role_level)) [
        | inr (e, refused) ↦ absurd (ground arith)
        | inl (a, allowed) ↦ elim (Bool-cases (str_eq u w)) [
          | inl this ↦
              (m, ap (λ k. member_of k ms) ((eq_iff u w).0 this) ∙ found, op, present, allowed)
          | inr other ↦ kicked_one op_member ms us u (ground arith) (ground arith)
        ]
      ]
    ]
  ]

  may_kick_sound :
      (op_role role : ℕ)
      → may_kick op_role role ≡ ok tt
      → (op_role ≡ group_owner) ⊎ ((op_role ≡ group_admin) × (is_manager_role role ≡ false))
  unfolding may_kick
  may_kick_sound op_role role h = ground arith

  -- What KickGroupMember has checked.
  kick_checked :
      (req : KickReq) (a : Unit {0})
      → check_kick env t req s ≡ ok a
      → (contains env.actor.op_user_id req.kicked_user_ids ≡ false)
        × (is_empty req.kicked_user_ids ≡ false)
        × (ms : List GroupMemberModel) × (find_group_members t req.group_id
              (req.kicked_user_ids ++ env.actor.op_user_id ∷ [])
              s
            ≡ ok ms)
        × (check_kicked env t (member_of env.actor.op_user_id ms) ms req.kicked_user_ids ≡ ok tt)
  unfolding check_kick
  kick_checked req a h =
      elim (Result-cases
        (find_group_members t req.group_id (req.kicked_user_ids ++ env.actor.op_user_id ∷ []) s)) [
          | inr (e, failed) ↦ absurd (ground arith)
          | inl (ms, found) ↦
              elim (Result-cases
                (check_kicked env t (member_of env.actor.op_user_id ms) ms req.kicked_user_ids)) [
                  | inr (e, refused) ↦ absurd (ground arith)
                  | inl (b, allowed) ↦ (ground arith, ground arith, ms, found, allowed)
                ]
        ]

  -- Without an error of KickGroupMember for a caller that is no manager, the caller is no one of
  -- those to remove and may remove each of them, who was a member, as the owner or as an
  -- administrator an ordinary member; then exactly they are gone from the group.
  pub kick_group_member_authorised :
      (req : KickReq)
      → (kick_group_member env t req s).2 ≡ ok tt
      → (contains env.actor.op_user_id req.kicked_user_ids ≡ false)
        × ((u : String)
            → contains u req.kicked_user_ids ≡ true
            → (m : GroupMemberModel) × ((t.view s).member req.group_id u ≡ some m)
              × MayKick req.group_id m)
        × ((g u : String)
            → (t.view (kick_group_member env t req s).0).member g u ≡ (
                if str_eq req.group_id g && contains u req.kicked_user_ids
                then none
                else (t.view s).member g u))
  unfolding kick_group_member
  kick_group_member_authorised req h =
      let op = env.actor.op_user_id in
      let us = req.kicked_user_ids ++ op ∷ [] in
      let (a, passed, stored) =
        handler_done t env (check_kick env t req s) s _ _ _
          (λ b. delete_group_member-Does t laws req.group_id req.kicked_user_ids) h in
      let (absent, some_named, ms, found, allowed) = kick_checked req a passed in
      (
        absent,
        λ u listed.
            let (m, m_listed, x, x_listed, may) =
              kicked_one (member_of op ms) ms req.kicked_user_ids u allowed listed in
            let (m_found, m_group, m_user) =
              found_member t laws s req.group_id us ms u m found m_listed in
            let (x_found, x_group, x_user) =
              found_member t laws s req.group_id us ms op x found x_listed in
            (m, m_found, (x, x_found, may_kick_sound x.role_level m.role_level may)),
        λ g u. ap (λ v. View.member v g u) stored ∙ ground arith,
      )

  mute_checked :
      (g u : String) (m : GroupMemberModel)
      → check_mute env t g u s ≡ ok m
      → ((t.view s).member g u ≡ some m)
        × (op : GroupMemberModel) × ((t.view s).member g env.actor.op_user_id ≡ some op)
        × (may_mute op.role_level m.role_level ≡ ok tt)
  unfolding check_mute
  mute_checked g u m h = elim (Result-cases (t.take_member s g u)) [
    | inr (e, missing) ↦ absurd (ground arith)
    | inl (x, taken) ↦ elim (Result-cases (t.take_member s g env.actor.op_user_id)) [
      | inr (e, missing) ↦ absurd (ground arith)
      | inl (op, caller) ↦ elim (Result-cases (may_mute op.role_level x.role_level)) [
        | inr (e, refused) ↦ absurd (ground arith)
        | inl (a, allowed) ↦
            let same : x ≡ m = ground arith in
            (
              laws.member_taken s g u x taken ∙ ap some same,
              op,
              laws.member_taken s g env.actor.op_user_id op caller,
              ap (λ y. may_mute op.role_level (GroupMemberModel.role_level y)) (sym same) ∙ allowed,
            )
      ]
    ]
  ]

  may_mute_sound :
      (op_role role : ℕ)
      → may_mute op_role role ≡ ok tt
      → (role ≢ group_owner)
        × ((role ≡ group_admin → op_role ≡ group_owner))
        × ((role ≡ group_ordinary_users → is_manager_role op_role ≡ true))
  unfolding may_mute
  may_mute_sound op_role role h = (ground arith, ground arith, ground arith)

  -- Without an error of MuteGroupMember for a caller that is no manager, the user is a member but not
  -- the owner, and the caller a member, who is the owner where the user is an administrator, and the
  -- owner or an administrator where the user is an ordinary member; then the user is muted for the
  -- seconds asked for, and is otherwise the member of before.
  pub mute_group_member_authorised :
      (req : MuteReq)
      → (mute_group_member env t req s).2 ≡ ok tt
      → (m : GroupMemberModel) × ((t.view s).member req.group_id req.user_id ≡ some m)
        × (op : GroupMemberModel) × ((t.view s).member req.group_id env.actor.op_user_id ≡ some op)
        × (m.role_level ≢ group_owner)
        × ((m.role_level ≡ group_admin → op.role_level ≡ group_owner))
        × ((m.role_level ≡ group_ordinary_users → is_manager_role op.role_level ≡ true))
        × ((t.view (mute_group_member env t req s).0).member req.group_id req.user_id
            ≡ some (record m { mute_end_time = env.now + 1000 * req.muted_seconds }))
  unfolding mute_group_member
  mute_group_member_authorised req h =
      let (m, passed, stored) =
        handler_done t env (check_mute env t req.group_id req.user_id s) s _ _ _
          (λ x.
            update_group_member-Does t laws x.group_id x.user_id
              (muted_time_change (env.now + 1000 * req.muted_seconds)))
          h in
      let (found, op, op_found, allowed) = mute_checked req.group_id req.user_id m passed in
      let (not_owner, admin, plain) = may_mute_sound op.role_level m.role_level allowed in
      let (group, user) = laws.member_key s req.group_id req.user_id m found in
      (
        m,
        found,
        op,
        op_found,
        not_owner,
        admin,
        plain,
        ap (λ v. View.member v req.group_id req.user_id) stored
            ∙ ground (arith, eq_iff m.group_id req.group_id, eq_iff m.user_id req.user_id),
      )

-- ===== src/Group/Owners/Kept.antt =====
-- The handlers keep the soundness of what is stored: invitations, requests and their answers.
use root_open_im_server.Base.{
  String, Bool, true, false, List, [], ◌∷◌, none, all, ◌≡◌, refl, sym, arith, inl, inr, eq_iff,
  str_eq_refl,
}
use root_open_im_server.Base.Result.{Result, ok, err, bind-ok, Result-cases}
use root_open_im_server.Common.Errors.{Error}
use root_open_im_server.Group.Tables.{GroupMemberModel, Done, View, Tables, IsTables}
use root_open_im_server.Group.Store.Outcomes.{Tries}
use root_open_im_server.Group.Calls.{
  Env, Call, Answer, JoinReply, finish, guarded, either, callback_before_member_join_group,
}
use root_open_im_server.Group.Owners.{is_new_in}
use root_open_im_server.Group.Join.{InviteReq, invited_members}
use mathlib.Core.Path.{subst}

pub finish_state :
    (env : Env) {S : Type 0} (d : Done S) (calls : S → List Call) → (finish env d calls).0 ≡ d.0
unfolding finish
finish_state env (s, ok _) calls = refl
finish_state env (s, err e) calls = refl

pub guarded_keeps :
    {S A : Type 0} (P : S → Type 0) (r : Result Error A) (s : S) (k : A → Answer S)
    → P s
    → ((a : A) → r ≡ ok a → P (k a).0)
    → P (guarded r s k).0
unfolding guarded
guarded_keeps P (ok a) s k before after = after a refl
guarded_keeps P (err e) s k before after = before

pub either_keeps :
    {S : Type 0} (P : S → Type 0) (b : Bool) (x y : Answer S)
    → (b ≡ true → P x.0)
    → (b ≡ false → P y.0)
    → P (either b x y).0
unfolding either
either_keeps P true x y on off = on refl
either_keeps P false x y on off = off refl

module _ (t : Tables) (laws : IsTables t) where
  -- A write that is done or not, between the checks and the calls behind it.
  pub write_keeps :
      {w : t.State → Done t.State} {f : View → View} (P : View → Type 0) (env : Env) (s : t.State)
      (calls : t.State → List Call)
      → Tries t laws w f
      → P (t.view s)
      → P (f (t.view s))
      → P (t.view (finish env (w s) calls).0)
  write_keeps {w} P env s calls law before after = elim (law.tries s) [
    | inl same ↦
        subst (λ x. P (t.view x)) (sym (finish_state env (w s) calls)) (subst P (sym same) before)
    | inr written ↦
        subst (λ x. P (t.view x)) (sym (finish_state env (w s) calls)) (subst P (sym written) after)
  ]

-- The callback before a member joins sets no role.
abbrev pub KeepsRoles : Env → Type 0
KeepsRoles env =
    (m : GroupMemberModel) (ex : String) (reply : JoinReply)
    → env.callback_before_member_join_group m ex ≡ ok reply
    → reply.role_level ≡ none

-- Behind the callback a member has the group, the user and the role of before.
pub callback_before_member_join_group_same :
    (env : Env)
    → KeepsRoles env
    → (m m' : GroupMemberModel) (ex : String) → callback_before_member_join_group env m ex ≡ ok m'
    → (m'.group_id ≡ m.group_id) × (m'.user_id ≡ m.user_id) × (m'.role_level ≡ m.role_level)
unfolding callback_before_member_join_group
callback_before_member_join_group_same env keeps m m' ex h =
    elim (Result-cases (env.callback_before_member_join_group m ex)) [
      | inr (e, refused) ↦ absurd (ground arith)
      | inl (reply, answered) ↦ let plain = keeps m ex reply answered in ground arith
    ]

module _ (env : Env) (t : Tables) (keeps : KeepsRoles env) where
  pub invited_members_new :
      (req : InviteReq) (op ex : String) (us : List String) (ms : List GroupMemberModel)
      → invited_members env t req op ex us ≡ ok ms
      → all (is_new_in req.group_id) ms ≡ true
  unfolding invited_members
  invited_members_new req op ex [] ms h = ground arith
  invited_members_new req op ex (u ∷ us) ms h =
      let (m, joined, h1) = bind-ok h in
      let (rest, others, h2) = bind-ok h1 in
      let (group, user, role) = callback_before_member_join_group_same env keeps _ m ex joined in
      let ih = invited_members_new req op ex us rest others in
      ground (arith, eq_iff req.group_id req.group_id, str_eq_refl req.group_id)

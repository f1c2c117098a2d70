-- ===== src/MsgService/Revoke/Laws.antt =====
-- Who may revoke, and what is stored then.
use root_open_im_server.Base.{
  ℕ, ◌≤◌, String, true, false, List, none, some, eq_iff, ◌==◌, ◌≡◌, ◌≢◌, ◌⊎◌, refl, sym, ap, ◌∙◌,
  arith, inl, inr, Bool-cases, Option-cases,
}
use root_open_im_server.Base.Dict.{lookup}
use root_open_im_server.Base.Result.{ok, Result-cases}
use root_open_im_server.Common.Errors.{Error}
use root_open_im_server.Common.Access.{check_access_v3, is_app_manager_uid}
use root_open_im_server.Common.Constants.{
  single_chat_type, super_group_chat_type, app_admin, group_owner, group_admin,
  group_ordinary_users, msg_revoke_notification,
}
use root_open_im_server.MsgStore.Doc.{MsgData, Revoke, get_doc_id, get_msg_index}
use root_open_im_server.MsgStore.Collection.{Collection, IsCollection}
use root_open_im_server.MsgStore.Sequence.Stored.{revoke_msg_keeps}
use root_open_im_server.MsgService.Revoke.{
  RevokeReq, UserInfo, Lookups, Decision, allowed, denied, panicked, done, check_other_sender,
  group_role, session_role, check_role, revoke_role, store, decide, with_user, revoke,
}

Decision-cases :
    (d : Decision)
    → ((role : ℕ) × (d ≡ allowed role)) ⊎ (((e : Error) × (d ≡ denied e)) ⊎ (d ≡ panicked))
Decision-cases (allowed role) = inl (role, refl)
Decision-cases (denied e) = inr (inl (e, refl))
Decision-cases panicked = inr (inr refl)

module _ (env : Lookups) (req : RevokeReq) (user : UserInfo) (m : MsgData) where
  -- How a member of a super group comes to revoke a message in it.
  abbrev pub MayRevokeInGroup : ℕ → Type 0
  MayRevokeInGroup role =
      (m.session_type ≡ super_group_chat_type)
      × (role ≢ group_ordinary_users)
      × (members : List (String × ℕ)) × (env.get_member_roles m.group_id req.user_id m.send_id
          ≡ ok members)
      × (lookup req.user_id members ≡ some role)
      × ((req.user_id ≡ m.send_id)
          ⊎ (role ≡ group_owner)
          ⊎ ((role ≡ group_admin) × (lookup m.send_id members ≡ some group_ordinary_users)))

  -- Who is no manager may revoke only a message that is not revoked yet and not between two
  -- users, and only with the highest rights, which fall short of a message of somebody else with
  -- these rights; or, in a super group, as a member above the ordinary ones, who is the sender,
  -- the owner, or an administrator with an ordinary member as the sender.
  pub revoke_role_sound :
      (role : ℕ)
      → is_app_manager_uid env.actor ≡ false
      → revoke_role env req user m ≡ allowed role
      → (m.content_type ≢ msg_revoke_notification)
        × (m.session_type ≢ single_chat_type)
        × ((req.user_id ≡ m.send_id) ⊎ (env.verify_rights m.ex ≢ 3))
        × (((env.verify_rights req.ex ≡ 3) × (role ≡ app_admin)) ⊎ MayRevokeInGroup role)
  unfolding revoke_role session_role group_role check_other_sender check_role
  revoke_role_sound role ordinary h =
      elim (Result-cases (env.get_member_roles m.group_id req.user_id m.send_id)) [
        | inr (e, refused) ↦ ground (arith, eq_iff req.user_id m.send_id)
        | inl (members, found) ↦ elim (Option-cases (lookup req.user_id members)) [
          | inl no_member ↦ ground (arith, eq_iff req.user_id m.send_id)
          | inr (own, member) ↦ elim (Option-cases (lookup m.send_id members)) [
            | inl no_sender ↦ ground (arith, eq_iff req.user_id m.send_id)
            | inr (theirs, sender) ↦ ground (arith, eq_iff req.user_id m.send_id)
          ]
        ]
      ]

  -- A manager may revoke every message that is not revoked yet.
  pub revoke_role_manager :
      is_app_manager_uid env.actor ≡ true
      → m.content_type ≢ msg_revoke_notification
      → (role : ℕ) × (revoke_role env req user m ≡ allowed role)
  unfolding revoke_role check_role
  revoke_role_manager manager fresh = elim (Bool-cases (env.verify_rights req.ex == 3)) [
    | inl high ↦ (app_admin, ground arith)
    | inr low ↦ (0, ground arith)
  ]

module _ (env : Lookups) (format_int : ℕ → String)
    (injective : (a b : ℕ) → format_int a ≡ format_int b → a ≡ b) (c : Collection)
    (laws : IsCollection c) (req : RevokeReq) (s : c.Docs) where
  -- The revocation that stands in the slot of the message.
  abbrev pub IsRevoked : c.Docs → Revoke → Type 0
  IsRevoked s' r =
      let doc_id = get_doc_id format_int req.conversation_id req.seq in
      let index = get_msg_index req.seq in
      c.slot s' doc_id index ≡ record (c.slot s doc_id index) { revoke = some r }

  store-done :
      (user : UserInfo) (m : MsgData) (role : ℕ)
      → 1 ≤ req.seq
      → let (s', effects, outcome) = store env format_int c req user m role s in
        outcome ≡ done
        → IsRevoked s' (record {
          role = role;
          user_id = req.user_id;
          nickname = user.nickname;
          time = env.now;
        })
  unfolding store
  store-done user m role h = λ ended.
      let r : Revoke = record {
        role = role;
        user_id = req.user_id;
        nickname = user.nickname;
        time = env.now;
      } in
      elim (revoke_msg_keeps format_int injective c laws req.conversation_id s req.seq r h) [
        | inl (finished, kept) ↦ kept
        | inr (e, stopped, fails) ↦ absurd (ground arith)
      ]

  -- Without an error the handler came to store the revocation.
  reached :
      (revoke env format_int c req s).2 ≡ done
      → (check_access_v3 env.actor req.user_id ≡ ok tt)
        × (user : UserInfo) × (m : MsgData) × (role : ℕ) × (env.get_msg req.user_id
              req.conversation_id req.seq
            ≡ ok (some m))
        × (revoke_role env req user m ≡ allowed role)
        × (revoke env format_int c req s ≡ store env format_int c req user m role s)
  unfolding revoke with_user decide
  reached ended = elim (Result-cases (check_access_v3 env.actor req.user_id)) [
    | inr (e, refused) ↦ absurd (ground arith)
    | inl (_, access) ↦ elim (Result-cases (env.get_user_info req.user_id)) [
      | inr (e, refused) ↦ absurd (ground arith)
      | inl (user, known) ↦
          elim (Result-cases (env.get_msg req.user_id req.conversation_id req.seq)) [
            | inr (e, refused) ↦ absurd (ground arith)
            | inl (none, missing) ↦ absurd (ground arith)
            | inl (some m, there) ↦ elim (Decision-cases (revoke_role env req user m)) [
              | inl (role, may) ↦ (access, user, m, role, there, may, ground arith)
              | inr other ↦ absurd (ground arith)
            ]
          ]
    ]
  ]

  -- When `RevokeMsg` answers without an error, the caller was allowed to act for the user of the
  -- request, the message is stored, the user may revoke it in some role, and the message's slot now
  -- holds a revocation by this user in this role, beside the message itself.
  pub revoke_authorised :
      1 ≤ req.seq
      → (revoke env format_int c req s).2 ≡ done
      → (check_access_v3 env.actor req.user_id ≡ ok tt)
        × (user : UserInfo) × (m : MsgData) × (role : ℕ) × (env.get_msg req.user_id
              req.conversation_id req.seq
            ≡ ok (some m))
        × (revoke_role env req user m ≡ allowed role)
        × IsRevoked (revoke env format_int c req s).0 (record {
          role = role;
          user_id = req.user_id;
          nickname = user.nickname;
          time = env.now;
        })
  revoke_authorised h ended =
      let (access, user, m, role, there, may, same) = reached ended in
      (
        access,
        user,
        m,
        role,
        there,
        may,
        rw same (store-done user m role h (ap (λ t. t.2) (sym same) ∙ ended)),
      )

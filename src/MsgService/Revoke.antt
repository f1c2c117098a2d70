-- ===== src/MsgService/Revoke.antt =====
-- Revoking a message, internal/rpc/msg/revoke.go: who may, what is stored, and who is told. The
-- stored message is looked up by `GetMsgBySeqs`, which with the services is a parameter.
pub mod Laws
use root_open_im_server.Base.{
  ℕ, String, Bool, true, false, not, ◌&&◌, ◌||◌, List, [], ◌∷◌, Option, none, some, str_eq, ◌==◌,
  if◌then◌else◌, contains,
}
use root_open_im_server.Base.Dict.{lookup}
use root_open_im_server.Base.Result.{Result, ok, err}
use root_open_im_server.Common.Errors.{
  Error, args, no_permission, record_not_found, msg_already_revoke, internal_server,
}
use root_open_im_server.Common.Access.{Actor, check_access_v3, is_app_manager_uid}
use root_open_im_server.Common.Constants.{
  single_chat_type, super_group_chat_type, app_admin, group_owner, group_admin,
  group_ordinary_users, im_ordinary_user, msg_revoke_notification,
}
use root_open_im_server.MsgStore.Doc.{MsgData, Revoke}
use root_open_im_server.MsgStore.Collection.{Collection}
use root_open_im_server.MsgStore.Insert as insert
use root_open_im_server.MsgStore.Sequence as sequence

-- `Seq` below 0 is refused before all else; the model has the other ones.
pub record RevokeReq : Type 0 where
  pub user_id : String
  pub conversation_id : String
  pub seq : ℕ
  pub ex : String

pub record UserInfo : Type 0 where
  pub nickname : String
  pub app_manger_level : ℕ

pub record Lookups : Type 0 where
  pub actor : Actor
  pub now : ℕ
  pub verify_rights : String → ℕ
  pub get_user_info : String → Result Error UserInfo
  -- The first message of the answer, where there is one.
  pub get_msg : String → String → ℕ → Result Error (Option MsgData)
  -- The roles of those of the two users that are members.
  pub get_member_roles : String → String → String → Result Error (List (String × ℕ))
  pub send_notification : String → String → ℕ → Result Error (Unit {0})
  pub callback_after_revoke_msg : RevokeReq → Result Error (Unit {0})

-- Whether the message may be revoked, and in which role; a role read from a missing member is a
-- nil dereference.
pub data Decision : Type 0 where
  allowed : ℕ → Decision
  denied : Error → Decision
  panicked : Decision

pub data Outcome : Type 0 where
  done : Outcome
  failed : Error → Outcome
  crashed : Outcome

pub data Effect : Type 0 where
  revoke_msg_to_es_mq : String → ℕ → Effect
  notify_revoke : String → String → ℕ → Effect

abbrev pub and_then : Decision → (ℕ → Decision) → Decision
and_then (allowed role) f = f role
and_then (denied e) f = denied e
and_then panicked f = panicked

module _ (env : Lookups) where
  -- The role that the members' map gives the revoker.
  abbrev pub role_of : Option ℕ → ℕ
  role_of none = 0
  role_of (some role) = role

  -- Somebody else's message in a group.
  unfoldable pub check_other_sender : Option ℕ → Option ℕ → Decision
  check_other_sender none sender = panicked
  check_other_sender (some role) sender =
      if role == group_owner
      then allowed role
      else if role == group_admin
      then elim sender [
        | none ↦ panicked
        | some sender_role ↦
            if sender_role == group_ordinary_users then allowed role else denied no_permission
      ]
      else denied no_permission

  unfoldable pub group_role : RevokeReq → MsgData → Decision
  group_role req m = elim (env.get_member_roles m.group_id req.user_id m.send_id) [
    | err e ↦ denied e
    | ok members ↦
        if not (str_eq req.user_id m.send_id)
        then check_other_sender (lookup req.user_id members) (lookup m.send_id members)
        else allowed (role_of (lookup req.user_id members))
  ]

  -- The `switch` on the session type.
  unfoldable pub session_role : RevokeReq → UserInfo → MsgData → Decision
  session_role req user m =
      if m.session_type == single_chat_type
      then elim (check_access_v3 env.actor m.send_id) [
        | err e ↦ denied e
        | ok _ ↦ allowed user.app_manger_level
      ]
      else if m.session_type == super_group_chat_type
      then group_role req m
      else denied internal_server

  -- The refusal of ordinary users.
  unfoldable pub check_role : ℕ → Decision
  check_role role =
      if (role == group_ordinary_users || role == im_ordinary_user)
        && not (is_app_manager_uid env.actor)
      then denied no_permission
      else allowed role

  unfoldable pub revoke_role : RevokeReq → UserInfo → MsgData → Decision
  revoke_role req user m =
      let admin_auth = is_app_manager_uid env.actor in
      let user_auth = env.verify_rights req.ex in
      let role = if user_auth == 3 then app_admin else 0 in
      if m.content_type == msg_revoke_notification
      then denied msg_already_revoke
      else if m.session_type == single_chat_type && not admin_auth
      then denied no_permission
      else if env.verify_rights m.ex == 3 && not (str_eq req.user_id m.send_id) && not admin_auth
      then denied no_permission
      else and_then (if role == 0 && not admin_auth then session_role req user m else allowed role)
          check_role

  abbrev pub receiver : MsgData → String
  receiver m = if m.session_type == super_group_chat_type then m.group_id else m.recv_id

  -- Once the revocation is stored.
  unfoldable pub tell : RevokeReq → MsgData → List Effect × Outcome
  tell req m =
      let effects =
        revoke_msg_to_es_mq m.server_msg_id req.seq
        ∷ notify_revoke req.user_id (receiver m) req.seq
        ∷ [] in
      elim (env.send_notification req.user_id (receiver m) req.seq) [
        | err e ↦ (effects, failed e)
        | ok _ ↦ elim (env.callback_after_revoke_msg req) [
          | err e ↦ (effects, failed e)
          | ok _ ↦ (effects, done)
        ]
      ]

  abbrev pub after_store : RevokeReq → MsgData → insert.Outcome → List Effect × Outcome
  after_store req m insert.done = tell req m
  after_store req m (insert.stopped e) = ([], failed e)
  after_store req m insert.panicked = ([], crashed)
  after_store req m insert.out_of_fuel = ([], crashed)

  module _ (format_int : ℕ → String) (c : Collection) where
    -- The message is there and the user may revoke it in the role.
    unfoldable pub store :
        RevokeReq → UserInfo → MsgData → ℕ → c.Docs → c.Docs × List Effect × Outcome
    store req user m role s =
        let (s', stored) =
          sequence.revoke_msg format_int c req.conversation_id req.seq
            (record {
              role = role;
              user_id = req.user_id;
              nickname = user.nickname;
              time = env.now;
            })
            s in
        let (effects, outcome) = after_store req m stored in (s', effects, outcome)

    unfoldable pub decide : RevokeReq → UserInfo → MsgData → c.Docs → c.Docs × List Effect × Outcome
    decide req user m s = elim (revoke_role req user m) [
      | denied e ↦ (s, [], failed e)
      | panicked ↦ (s, [], crashed)
      | allowed role ↦ store req user m role s
    ]

    unfoldable pub with_user : RevokeReq → UserInfo → c.Docs → c.Docs × List Effect × Outcome
    with_user req user s = elim (env.get_msg req.user_id req.conversation_id req.seq) [
      | err e ↦ (s, [], failed e)
      | ok none ↦ (s, [], failed record_not_found)
      | ok (some m) ↦ decide req user m s
    ]

    unfoldable pub revoke : RevokeReq → c.Docs → c.Docs × List Effect × Outcome
    revoke req s =
        if str_eq req.user_id ""
        then (s, [], failed args)
        else if str_eq req.conversation_id ""
        then (s, [], failed args)
        else elim (check_access_v3 env.actor req.user_id) [
          | err e ↦ (s, [], failed e)
          | ok _ ↦ elim (env.get_user_info req.user_id) [
            | err e ↦ (s, [], failed e)
            | ok user ↦ with_user req user s
          ]
        ]
